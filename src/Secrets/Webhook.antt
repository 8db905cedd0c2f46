-- ===== src/Secrets/Webhook.antt =====
-- The secret that a client is shown checks the webhooks that it is sent.
use eventmesh.Base.{
  ℕ, ◌+◌, ◌*◌, ◌≤◌, String, ◌≡◌, ◌≢◌, refl, sym, ap, ◌∙◌, subst, ◌⊎◌, inl, inr, true, Bool-cases,
  some, List, [], ◌∷◌, ◌++◌, ◌==◌, ==_iff, if_true, if_false, All, All-append, All-map, All-Has,
  Has-find, Result, ok, err,
}
use eventmesh.Common.Ssrf.{Network, SsrfError, validate_webhook_url}
use eventmesh.Auth.Signature.Verify.{verify_signature_header}
use eventmesh.Auth.Signature.RoundTrip.{Hexadecimal}
use eventmesh.Database.{Endpoint, Tables}
use eventmesh.Api.Auth.{AuthContext}
use eventmesh.Api.Schemas.{EndpointCreateRequest, EndpointCreateResponse}
use eventmesh.Api.Endpoints.{
  EndpointError, Drawn, has_duplicate, raw_secret, to_detail, new_endpoint, store_endpoint,
  create_checked, create_endpoint,
}
use eventmesh.Worker.DeliveryEngine.{Settings, Codecs, Body, Attempt, Request, World}
use eventmesh.Worker.DeliveryEngine.Deliver.{deliver_to_endpoint}
use eventmesh.Worker.DeliveryEngine.Verified.{deliver_to_endpoint-Verified}
use eventmesh.Secrets.{Crypto, Opens, encrypt_secret, worker_decrypt_secret}
use eventmesh.Secrets.Lasting.{Later, IsSealed, Sealed, Later-Sealed}

-- What an answer to a creation comes from.
record Made (encrypt : List ℕ → String) (ctx : AuthContext) (body : EndpointCreateRequest)
    (drawn : Drawn) (db : Tables) (answer : EndpointCreateResponse) (db' : Tables) : Type 0 where
  its_id : answer.detail.id ≡ drawn.id
  shown : answer.signing_secret ≡ raw_secret drawn
  stored : db' ≡ store_endpoint (new_endpoint encrypt ctx body drawn) body.events db

abbrev Answer : Type 0
Answer = Result EndpointError EndpointCreateResponse × Tables

create_checked-Made :
    (encrypt : List ℕ → String) (checked : Result SsrfError (Unit {0})) (ctx : AuthContext)
    (body : EndpointCreateRequest) (drawn : Drawn) (db : Tables) {answer : EndpointCreateResponse}
    {db' : Tables}
    → create_checked encrypt checked ctx body drawn db ≡ (ok answer, db')
    → Made encrypt ctx body drawn db answer db'
unfolding create_checked to_detail
create_checked-Made encrypt (err e) ctx body drawn db h = cc (ap (λ (r : Answer). r.0) h)
create_checked-Made encrypt (ok u) ctx body drawn db {answer} {db'} h =
    elim (Bool-cases (has_duplicate body.events)) [
      | inl twice ↦
          let result : ◌≡◌ {A = Answer} (err EndpointError.integrity_error, db) (ok answer, db') =
            sym (if_true _ _ twice) ∙ h in
          cc (ap (λ (r : Answer). r.0) result)
      | inr once ↦
          let ep = new_endpoint encrypt ctx body drawn in
          let tables = store_endpoint ep body.events db in
          let made : EndpointCreateResponse = record {
            detail = to_detail tables ep;
            signing_secret = raw_secret drawn;
          } in
          let result : ◌≡◌ {A = Answer} (ok made, tables) (ok answer, db') =
            sym (if_false _ _ once) ∙ h in
          let told : ok made ≡ ok answer = ap (λ (r : Answer). r.0) result in
          let same : made ≡ answer = cc told in
          record {
            its_id = ap (λ (r : EndpointCreateResponse). r.detail.id) (sym same);
            shown = ap (λ (r : EndpointCreateResponse). r.signing_secret) (sym same);
            stored = sym (ap (λ (r : Answer). r.1) result);
          }
    ]

module _ (c : Crypto) (key : String) (opens : Opens c) where
  worker_decrypt-encrypt :
      (drawn : ℕ) (raw : List ℕ)
      → worker_decrypt_secret c key (encrypt_secret c key drawn raw) ≡ some raw
  unfolding encrypt_secret worker_decrypt_secret
  worker_decrypt-encrypt drawn raw = opens _ drawn raw

  Made-Sealed :
      (iv : ℕ) (ctx : AuthContext) (body : EndpointCreateRequest) (drawn : Drawn) (db db' : Tables)
      (answer : EndpointCreateResponse)
      → All (λ (ep : Endpoint). ep.id ≢ drawn.id) db.endpoints
      → Made (encrypt_secret c key iv) ctx body drawn db answer db'
      → Sealed drawn.id (encrypt_secret c key iv (raw_secret drawn)) db'
  Made-Sealed iv ctx body drawn db db' answer new made =
      let secret = encrypt_secret c key iv (raw_secret drawn) in
      subst (Sealed drawn.id secret) (sym made.stored) (
        All-append (IsSealed drawn.id secret) db.endpoints _
          (All-map db.endpoints (λ ep differs same. absurd (differs same)) new)
          ((λ same. refl), tt))

-- The check that consumers are told to make, with the secret of the answer, accepts the request from
-- the second of its signing on and for as long as the tolerance lasts.
abbrev pub AcceptedBy :
    (List ℕ → List ℕ → List ℕ) → EndpointCreateResponse → Attempt → Request → Type 0
AcceptedBy hmac_sha256 answer a r =
    (tolerance now : ℕ)
    → a.signed_at * 1_000_000 ≤ now
    → now ≤ (a.signed_at + tolerance) * 1_000_000
    → verify_signature_header hmac_sha256 answer.signing_secret r.content r.signature tolerance now
      ≡ ok true

-- The engine of a worker with the same encryption key
abbrev pub codecs_of : Crypto → String → (List ℕ → List ℕ → List ℕ) → (Body → List ℕ) → Codecs
codecs_of c key hmac_sha256 dumps = record {
  decrypt_secret = worker_decrypt_secret c key;
  hmac_sha256 = hmac_sha256;
  dumps = dumps;
}

-- A client has created an endpoint with an id that no other has, and was shown its signing secret.
-- Whatever requests and deliveries there were since then, none of which drew that id again: a worker
-- with the API's encryption key sends nothing in a delivery to the endpoint, or exactly one request,
-- and the check with the secret that the client was shown accepts it from the second of its signing
-- on and for as long as the tolerance lasts. Fernet is to open what it has sealed, and HMAC to yield
-- hexadecimal text.
pub deliver_to_endpoint-AcceptedBy :
    (c : Crypto) (key : String) (hmac_sha256 : List ℕ → List ℕ → List ℕ) (dumps : Body → List ℕ)
    (max_length : ℕ) (net : Network) (ctx : AuthContext) (body : EndpointCreateRequest)
    (drawn : Drawn) (iv : ℕ) (db db' : Tables) (answer : EndpointCreateResponse)
    (settings : Settings) (a : Attempt) (event_id n : ℕ) (w : World)
    → Opens c
    → Hexadecimal hmac_sha256
    → create_endpoint max_length (encrypt_secret c key iv) net ctx body drawn db ≡ (ok answer, db')
    → All (λ (ep : Endpoint). ep.id ≢ drawn.id) db.endpoints
    → Later drawn.id db' w.db
    → let codecs = codecs_of c key hmac_sha256 dumps in
      let w' = (deliver_to_endpoint settings codecs a event_id answer.detail.id n w).1 in
      (w'.sent ≡ w.sent)
      ⊎ ((r : Request) × (w'.sent ≡ w.sent ++ r ∷ []) × AcceptedBy hmac_sha256 answer a r)
unfolding create_endpoint
deliver_to_endpoint-AcceptedBy c key hmac_sha256 dumps max_length net ctx body drawn iv db db'
      answer settings a event_id n w opens hex h new later =
    let codecs = codecs_of c key hmac_sha256 dumps in
    let made =
      create_checked-Made (encrypt_secret c key iv) (validate_webhook_url net body.url max_length)
        ctx body drawn db h in
    let sealed =
      Later-Sealed drawn.id _ (Made-Sealed c key opens iv ctx body drawn db db' answer new made)
        later in
    elim (deliver_to_endpoint-Verified settings codecs a event_id answer.detail.id n w hex) [
      | inl none_sent ↦ inl none_sent
      | inr (r, sent, v) ↦
          let (there, same) =
            Has-find (λ (e : Endpoint). e.id == answer.detail.id) w.db.endpoints v.found in
          let its_id = (==_iff v.endpoint.id answer.detail.id).0 same ∙ made.its_id in
          let kept =
            All-Has (IsSealed drawn.id (encrypt_secret c key iv (raw_secret drawn))) w.db.endpoints
              sealed there its_id in
          let opened : some v.secret ≡ some (raw_secret drawn) =
            sym v.held
            ∙ ap (worker_decrypt_secret c key) kept
            ∙ worker_decrypt-encrypt c key opens iv (raw_secret drawn) in
          let secret : v.secret ≡ raw_secret drawn = cc opened in
          let shown = secret ∙ sym made.shown in
          inr (
            r,
            sent,
            λ tolerance at early late.
                subst
                  (λ s.
                    verify_signature_header hmac_sha256 s r.content r.signature tolerance at
                    ≡ ok true)
                  shown (v.accepted tolerance at early late),
          )
    ]
