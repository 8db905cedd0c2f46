-- ===== src/Secrets.antt =====
-- apps/api/eventmesh_api/routers/endpoints.py: `_encrypt_secret` and `decrypt_secret`, and
-- `_decrypt_secret` of apps/worker/eventmesh_worker/main.py. Fernet, SHA-256 and base64 are parameters.
pub mod Lasting
pub mod Webhook
mod Examples
use eventmesh.Base.{ℕ, ◌≡◌, String, Option, some, List}

-- The libraries; an encryption draws the time and an initialization vector.
pub record Crypto : Type 0 where
  pub sha256 : String → List ℕ
  pub urlsafe_b64encode : List ℕ → List ℕ
  pub fernet_encrypt : (key : List ℕ) (drawn : ℕ) (text : List ℕ) → String
  pub fernet_decrypt : (key : List ℕ) (token : String) → Option (List ℕ)

-- A key opens what it has sealed.
abbrev pub Opens : Crypto → Type 0
Opens c =
    (key : List ℕ) (drawn : ℕ) (text : List ℕ)
    → c.fernet_decrypt key (c.fernet_encrypt key drawn text) ≡ some text

module _ (c : Crypto) where
  open c use {sha256, urlsafe_b64encode, fernet_encrypt, fernet_decrypt}

  -- `_encrypt_secret`
  unfoldable pub encrypt_secret : (secret_encryption_key : String) → ℕ → List ℕ → String
  encrypt_secret secret_encryption_key drawn raw =
      let key = urlsafe_b64encode (sha256 secret_encryption_key) in fernet_encrypt key drawn raw

  -- `decrypt_secret` of the API
  unfoldable pub decrypt_secret : (secret_encryption_key : String) → String → Option (List ℕ)
  decrypt_secret secret_encryption_key token =
      let key = urlsafe_b64encode (sha256 secret_encryption_key) in fernet_decrypt key token

  -- `_decrypt_secret` of the worker
  unfoldable pub worker_decrypt_secret : (secret_encryption_key : String) → String → Option (List ℕ)
  worker_decrypt_secret secret_encryption_key token =
      let key = urlsafe_b64encode (sha256 secret_encryption_key) in fernet_decrypt key token
