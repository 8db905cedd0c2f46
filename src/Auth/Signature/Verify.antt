-- ===== src/Auth/Signature/Verify.antt =====
-- packages/auth/eventmesh_auth/signature.py: `verify_signature_header`. The header's characters are
-- Latin-1, where the decimal digits are the ASCII ones, and its numbers have at most 4300 digits;
-- the clock is in microseconds.
use eventmesh.Base.{
  ℕ, ◌+◌, ◌-◌, ◌*◌, Bool, true, false, not, ◌&&◌, ◌||◌, Option, none, some, List, [], ◌∷◌, ◌==◌,
  ltb, leb, all, if◌then◌else◌, codes, codes_eq, strip, split_on, cut, Result, ok, err,
}
use eventmesh.Base.Int.{ℤ, pos, pos_part, neg_part, sub_ℕ}
use eventmesh.Auth.Signature.{sign_payload}

-- What `hmac.compare_digest` raises on a text that is not ASCII.
pub data VerifyError : Type 0 where
  type_error : VerifyError

abbrev pub is_digit : ℕ → Bool
is_digit c = leb b'0' c && leb c b'9'

-- The value of decimal digits, with single underscores between them; `need` says that a digit
-- must follow.
abbrev pub digits_value : Bool → ℕ → List ℕ → Option ℕ
digits_value need acc [] = if need then none else some acc
digits_value need acc (c ∷ cs) =
    let digit = digits_value false (acc * 10 + (c - 48)) cs in
    let underscore = digits_value true acc cs in
    if is_digit c then digit else if c == b'_' && not need then underscore else none

abbrev pub negative : Option ℕ → Option ℤ
negative none = none
negative (some n) = some (sub_ℕ 0 n)

abbrev pub positive : Option ℕ → Option ℤ
positive none = none
positive (some n) = some (pos n)

abbrev pub signed_value : List ℕ → Option ℤ
signed_value [] = none
signed_value (c ∷ cs) =
    if c == b'-'
    then negative (digits_value true 0 cs)
    else if c == b'+'
    then positive (digits_value true 0 cs)
    else positive (digits_value true 0 (c ∷ cs))

-- `int(text)`; `none` is `ValueError`
unfoldable pub int_value : List ℕ → Option ℤ
int_value text = signed_value (strip text)

-- `(p.split("=", 1) for p in … if "=" in p)`
abbrev pub onto_pairs : Option (List ℕ × List ℕ) → List (List ℕ × List ℕ) → List (List ℕ × List ℕ)
onto_pairs none ps = ps
onto_pairs (some p) ps = p ∷ ps

abbrev pub pairs_of : List (List ℕ) → List (List ℕ × List ℕ)
pairs_of [] = []
pairs_of (p ∷ ps) = onto_pairs (cut b'=' p) (pairs_of ps)

-- The value of a key in `dict(pairs)`: the last one wins.
abbrev pub or_first : Option (List ℕ) → Bool → List ℕ → Option (List ℕ)
or_first (some w) same v = some w
or_first none same v = if same then some v else none

abbrev pub value_of : List ℕ → List (List ℕ × List ℕ) → Option (List ℕ)
value_of key [] = none
value_of key ((k, v) ∷ ps) = or_first (value_of key ps) (codes_eq k key) v

-- `abs(time.time() - ts) > tolerance_seconds`
abbrev pub is_stale : ℕ → ℕ → ℤ → Bool
is_stale now tolerance ts =
    ltb ((pos_part ts + tolerance) * 1_000_000) (now + neg_part ts * 1_000_000)
    || ltb (now + (neg_part ts + tolerance) * 1_000_000) (pos_part ts * 1_000_000)

-- `hmac.compare_digest(expected, given)`
abbrev pub compare_digest : List ℕ → List ℕ → Result VerifyError Bool
compare_digest expected given =
    if all (λ c. ltb c 128) given then ok (codes_eq expected given) else err VerifyError.type_error

module _ (hmac_sha256 : List ℕ → List ℕ → List ℕ) where
  -- From the timestamp on.
  abbrev pub verify_at : List ℕ → List ℕ → ℕ → ℕ → List ℕ → Option ℤ → Result VerifyError Bool
  verify_at secret raw_body tolerance now v1 none = ok false
  verify_at secret raw_body tolerance now v1 (some ts) =
      if is_stale now tolerance ts
      then ok false
      else compare_digest (sign_payload hmac_sha256 secret ts raw_body) v1

  -- From the lookup of the two parts on.
  unfoldable pub verify_parts :
      List ℕ → List ℕ → ℕ → ℕ → Option (List ℕ) → Option (List ℕ) → Result VerifyError Bool
  verify_parts secret raw_body tolerance now (some t) (some v1) =
      verify_at secret raw_body tolerance now v1 (int_value t)
  verify_parts secret raw_body tolerance now _ _ = ok false

  unfoldable pub verify_signature_header :
      List ℕ → List ℕ → List ℕ → ℕ → ℕ → Result VerifyError Bool
  verify_signature_header secret raw_body header_value tolerance now =
      let parts = pairs_of (split_on b',' header_value) in
      verify_parts secret raw_body tolerance now (value_of (codes "t") parts)
        (value_of (codes "v1") parts)
