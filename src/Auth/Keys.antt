-- ===== src/Auth/Keys.antt =====
-- packages/auth/eventmesh_auth/signature.py: API keys. The token that `secrets.token_urlsafe` draws
-- is an argument, and `sha256 text`, the hexadecimal digest of Python's `hashlib`, a parameter.
pub mod Accepted
use eventmesh.Base.{ℕ, Bool, List, ◌++◌, take, codes, if◌then◌else◌, Result}
use eventmesh.Auth.Signature.Verify.{VerifyError, compare_digest}

-- `API_KEY_PREFIX_LEN`
abbrev pub api_key_prefix_len : ℕ
api_key_prefix_len = 12

module _ (sha256 : List ℕ → List ℕ) where
  unfoldable pub hash_api_key : List ℕ → List ℕ
  hash_api_key raw_key = sha256 raw_key

  -- The raw key, its prefix and its hash.
  unfoldable pub generate_api_key : Bool → List ℕ → List ℕ × List ℕ × List ℕ
  generate_api_key live token =
      let env = if live then codes "live" else codes "test" in
      let raw_key = codes "em_" ++ env ++ codes "_" ++ token in
      (raw_key, take api_key_prefix_len raw_key, hash_api_key raw_key)

  unfoldable pub verify_api_key : List ℕ → List ℕ → Result VerifyError Bool
  verify_api_key raw_key key_hash = compare_digest (hash_api_key raw_key) key_hash
