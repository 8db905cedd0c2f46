-- ===== src/Auth/Signature.antt =====
-- packages/auth/eventmesh_auth/signature.py, the signing half; `Verify` is the other. Texts and bytes are lists of
-- numbers; `hmac_sha256 key message` is the hexadecimal digest of Python's `hmac`, a parameter.
pub mod Verify
pub mod Digits
pub mod RoundTrip
mod Examples
use eventmesh.Base.Int.{ℤ, pos, negsuc}
use eventmesh.Base.{ℕ, zero, suc, ◌+◌, ◌/◌, ◌%◌, List, [], ◌∷◌, ◌++◌, ltb, if◌then◌else◌, codes}

-- The decimal digits of `n` before `rest`; the fuel is at least the number of digits.
unfoldable pub digits_from : ℕ → ℕ → List ℕ → List ℕ
digits_from zero n rest = rest
digits_from (suc fuel) n rest =
    let more = digits_from fuel (n / 10) ((48 + n % 10) ∷ rest) in
    if ltb n 10 then (48 + n) ∷ rest else more

-- `f"{n}"`
unfoldable pub decimal : ℕ → List ℕ
unfolding digits_from
decimal n = digits_from (suc n) n []

-- `f"{n}"` for an `int`
abbrev pub decimal_ℤ : ℤ → List ℕ
decimal_ℤ (pos n) = decimal n
decimal_ℤ (negsuc n) = b'-' ∷ decimal (suc n)

module _ (hmac_sha256 : List ℕ → List ℕ → List ℕ) where
  unfoldable pub sign_payload : List ℕ → ℤ → List ℕ → List ℕ
  sign_payload secret timestamp raw_body =
      hmac_sha256 secret (decimal_ℤ timestamp ++ codes "." ++ raw_body)

  -- `build_signature_header` with the timestamp given, or read from the clock
  unfoldable pub build_signature_header : List ℕ → List ℕ → ℤ → List ℕ
  build_signature_header secret raw_body ts =
      codes "t=" ++ decimal_ℤ ts ++ codes ",v1=" ++ sign_payload secret ts raw_body
