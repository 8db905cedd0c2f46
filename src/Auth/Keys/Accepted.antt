-- ===== src/Auth/Keys/Accepted.antt =====
-- A key that was generated is taken from the header that holds it, and verified.
use eventmesh.Base.{
  ℕ, ◌≡◌, refl, Bool, true, false, List, ◌∷◌, ◌++◌, All, take, codes, codes_eq, is_space, String,
  if◌then◌else◌, ok,
}
use eventmesh.Auth.Signature.Digits.{strip-plain}
use eventmesh.Auth.Signature.RoundTrip.{is_hex, compare_digest-hex}
use eventmesh.Auth.Keys.{generate_api_key, hash_api_key, verify_api_key}
use eventmesh.Api.Auth.{raw_key}

-- What holds of a generated key.
pub record Usable (sha256 : List ℕ → List ℕ) (raw prefix key_hash : List ℕ) (env token : List ℕ)
    : Type 0 where
  pub shown_prefix : prefix ≡ codes "em_" ++ env ++ codes "_" ++ take 4 token
  pub in_header : (authz : String) → codes authz ≡ codes "Bearer " ++ raw → raw_key authz ≡ ok raw
  pub verified :
      (given : List ℕ)
      → verify_api_key sha256 given key_hash ≡ ok (codes_eq (sha256 given) (sha256 raw))

taken_from :
    (authz : String) (c : ℕ) (cs : List ℕ)
    → All (λ x. is_space x ≡ false) (c ∷ cs)
    → codes authz ≡ codes "Bearer " ++ c ∷ cs
    → raw_key authz ≡ ok (c ∷ cs)
unfolding raw_key
taken_from authz c cs plain h = rw (h, strip-plain (c ∷ cs) plain) refl

-- If SHA-256 yields hexadecimal text and the token has no whitespace, then a generated key, of either
-- kind, is shown with the first four characters of its token; a header that holds it after `Bearer `
-- yields exactly it in the API's authentication; and the check of any text against its stored hash
-- returns, with the answer whether that text's hash is the same.
pub generate_api_key-Usable :
    (sha256 : List ℕ → List ℕ) (live : Bool) (token : List ℕ)
    → ((text : List ℕ) → All (λ c. is_hex c ≡ true) (sha256 text))
    → All (λ c. is_space c ≡ false) token
    → let (raw, prefix, key_hash) = generate_api_key sha256 live token in
      Usable sha256 raw prefix key_hash (if live then codes "live" else codes "test") token
unfolding generate_api_key verify_api_key hash_api_key
generate_api_key-Usable sha256 true token hex plain = record {
  shown_prefix = refl;
  in_header = λ authz h.
      taken_from authz _ _ (refl, (refl, (refl, (refl, (refl, (refl, (refl, (refl, plain)))))))) h;
  verified = λ given. compare_digest-hex (sha256 given) _ (hex _);
}
generate_api_key-Usable sha256 false token hex plain = record {
  shown_prefix = refl;
  in_header = λ authz h.
      taken_from authz _ _ (refl, (refl, (refl, (refl, (refl, (refl, (refl, (refl, plain)))))))) h;
  verified = λ given. compare_digest-hex (sha256 given) _ (hex _);
}
