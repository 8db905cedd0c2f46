-- ===== src/Auth/Signature/RoundTrip.antt =====
-- What a consumer's check says of a header that the engine built.
use mathlib.Core.List.{append_assoc}
use eventmesh.Base.{
  ℕ, ◌≡◌, refl, ap, ◌∙◌, Bool, true, false, not, ◌&&◌, ◌||◌, suc, some, List, [], ◌∷◌, ◌++◌, ◌==◌,
  ltb, leb, All, All-map, all, codes, codes_eq, split_on, onto_head, arith, ok, Bool-cases, inl,
  inr, if_true,
}
use eventmesh.Base.Int.{ℤ, pos, negsuc}
use eventmesh.Auth.Signature.{decimal, decimal_ℤ, sign_payload, build_signature_header}
use eventmesh.Auth.Signature.Verify.{
  is_digit, pairs_of, is_stale, compare_digest, verify_at, verify_parts, verify_signature_header,
}
use eventmesh.Auth.Signature.Digits.{decimal-AllDigits, int_value-decimal}

-- `hexdigest` is a text of the digits 0-9 and a-f.
abbrev pub is_hex : ℕ → Bool
is_hex c = is_digit c || (leb b'a' c && leb c b'f')

abbrev pub Hexadecimal : (List ℕ → List ℕ → List ℕ) → Type 0
Hexadecimal hmac_sha256 =
    (key message : List ℕ) → All (λ c. is_hex c ≡ true) (hmac_sha256 key message)

-- The comma cuts a text in two where the first part has none.
split_on-comma :
    (xs ys : List ℕ)
    → All (λ c. (c == b',') ≡ false) xs
    → split_on b',' (xs ++ b',' ∷ ys) ≡ xs ∷ split_on b',' ys
split_on-comma [] ys h = refl
split_on-comma (x ∷ xs) ys h = rw (h.0, split_on-comma xs ys h.1) refl

split_on-plain : (xs : List ℕ) → All (λ c. (c == b',') ≡ false) xs → split_on b',' xs ≡ xs ∷ []
split_on-plain [] h = refl
split_on-plain (x ∷ xs) h = rw (h.0, split_on-plain xs h.1) refl

decimal_ℤ-no_comma : (ts : ℤ) → All (λ c. (c == b',') ≡ false) (decimal_ℤ ts)
decimal_ℤ-no_comma (pos n) = All-map (decimal n) (λ c d. ground arith) (decimal-AllDigits n)
decimal_ℤ-no_comma (negsuc n) =
    (refl, All-map (decimal (suc n)) (λ c d. ground arith) (decimal-AllDigits (suc n)))

hex-no_comma : (c : ℕ) → is_hex c ≡ true → (c == b',') ≡ false
hex-no_comma c h = ground arith

hex-ascii : (xs : List ℕ) → All (λ c. is_hex c ≡ true) xs → all (λ c. ltb c 128) xs ≡ true
hex-ascii [] h = refl
hex-ascii (x ∷ xs) h = ground (arith, hex-ascii xs h.1)

pairs_of-build :
    (hmac_sha256 : List ℕ → List ℕ → List ℕ) (secret raw_body : List ℕ) (ts : ℤ)
    → Hexadecimal hmac_sha256
    → pairs_of (split_on b',' (build_signature_header hmac_sha256 secret raw_body ts))
      ≡ (codes "t", decimal_ℤ ts) ∷ (codes "v1", sign_payload hmac_sha256 secret ts raw_body) ∷ []
unfolding build_signature_header sign_payload
pairs_of-build hmac_sha256 secret raw_body ts hex =
    let signature = sign_payload hmac_sha256 secret ts raw_body in
    let halves : split_on b',' (decimal_ℤ ts ++ codes ",v1=" ++ signature)
        ≡ decimal_ℤ ts ∷ (b'v' ∷ b'1' ∷ b'=' ∷ signature) ∷ [] =
      ap (split_on b',') (append_assoc (decimal_ℤ ts) (codes ",v1=") signature)
      ∙ split_on-comma (decimal_ℤ ts) (b'v' ∷ b'1' ∷ b'=' ∷ signature) (decimal_ℤ-no_comma ts)
      ∙ ap (◌∷◌ (decimal_ℤ ts)) (
          split_on-plain (b'v' ∷ b'1' ∷ b'=' ∷ signature)
            (refl, (refl, (refl, All-map signature hex-no_comma (hex secret _))))) in
    ap (λ ps. pairs_of (onto_head b't' (onto_head b'=' ps))) halves

pub compare_digest-hex :
    (expected given : List ℕ)
    → All (λ c. is_hex c ≡ true) given
    → compare_digest expected given ≡ ok (codes_eq expected given)
compare_digest-hex expected given h = if_true _ _ (hex-ascii given h)

verify_at-hex :
    (hmac_sha256 : List ℕ → List ℕ → List ℕ) (secret raw_body v1 : List ℕ) (tolerance now : ℕ)
    (ts : ℤ)
    → All (λ c. is_hex c ≡ true) v1
    → verify_at hmac_sha256 secret raw_body tolerance now v1 (some ts)
      ≡ ok (
          not (is_stale now tolerance ts)
          && codes_eq (sign_payload hmac_sha256 secret ts raw_body) v1)
verify_at-hex hmac_sha256 secret raw_body v1 tolerance now ts h =
    elim (Bool-cases (is_stale now tolerance ts)) [
      | inl e ↦ rw e refl
      | inr e ↦ rw e (compare_digest-hex _ v1 h)
    ]

-- If HMAC yields hexadecimal text, then the check of a header that was built for a body, applied
-- to that body or to any other, returns at every time and with every tolerance. Its answer is true
-- exactly when the header's time is within the tolerance of the clock and the signature of the body
-- that is checked is the one in the header.
pub verify_signature_header-build :
    (hmac_sha256 : List ℕ → List ℕ → List ℕ) (secret sent received : List ℕ) (ts : ℤ)
    (tolerance now : ℕ)
    → Hexadecimal hmac_sha256
    → verify_signature_header hmac_sha256 secret received
        (build_signature_header hmac_sha256 secret sent ts)
        tolerance
        now
      ≡ ok (
          not (is_stale now tolerance ts)
          && codes_eq
              (sign_payload hmac_sha256 secret ts received)
              (sign_payload hmac_sha256 secret ts sent))
unfolding verify_signature_header verify_parts sign_payload
verify_signature_header-build hmac_sha256 secret sent received ts tolerance now hex =
    rw (pairs_of-build hmac_sha256 secret sent ts hex, int_value-decimal ts)
      (verify_at-hex hmac_sha256 secret received _ tolerance now ts (hex secret _))
