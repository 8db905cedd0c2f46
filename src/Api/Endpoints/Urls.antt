-- ===== src/Api/Endpoints/Urls.antt =====
-- Where the URLs of the stored endpoints come from, over a history of requests of any clients.
use eventmesh.Base.{
  ℕ, String, ◌≡◌, refl, Option, none, some, List, [], ◌∷◌, ◌==◌, not, All, Has, All-append,
  All-update, All-select, inl, inr, ok,
}
use eventmesh.Common.Ssrf.{Network, validate_webhook_url}
use eventmesh.Database.{Endpoint, Tables}
use eventmesh.Api.Auth.{AuthContext}
use eventmesh.Api.Schemas.{EndpointUpdateRequest}
use eventmesh.Api.Endpoints.Requests.{Operation, changed, check_url, with_fields, perform}
use eventmesh.Api.Endpoints.Change.{Change, perform-Change}

abbrev pub Request : Type 0
Request = AuthContext × Operation

-- The requests, one after the other.
unfoldable pub serve : ℕ → (List ℕ → String) → List Request → Tables → Tables
serve max_length encrypt_secret [] db = db
serve max_length encrypt_secret ((ctx, op) ∷ requests) db =
    serve max_length encrypt_secret requests (perform max_length encrypt_secret ctx op db)

-- The request asks for this URL, and the check accepts it in the network of the request's moment.
abbrev pub Accepts : ℕ → Operation → String → Type 0
Accepts max_length (Operation.create net body drawn) url =
    (body.url ≡ url) × (validate_webhook_url net url max_length ≡ ok tt)
Accepts max_length (Operation.change net endpoint_id body) url =
    (body.url ≡ some url) × (validate_webhook_url net url max_length ≡ ok tt)
Accepts max_length (Operation.delete endpoint_id) url = ⊥

-- Some request of the history asked for the URL and had it accepted.
abbrev pub Vetted : ℕ → List Request → String → Type 0
Vetted max_length requests url =
    (request : Request) × Has request requests × Accepts max_length request.1 url

module _ (max_length : ℕ) (encrypt_secret : List ℕ → String) (P : String → Type 0) where
  changed_url :
      (net : Network) (endpoint_id : ℕ) (body : EndpointUpdateRequest) (wanted : Option String)
      (old : String)
      → body.url ≡ wanted
      → check_url max_length net wanted ≡ ok tt
      → ((url : String) → Accepts max_length (Operation.change net endpoint_id body) url → P url)
      → P old
      → P (changed wanted old)
  changed_url net endpoint_id body none old q c accepts h = h
  changed_url net endpoint_id body (some url) old q c accepts h = accepts url (q, c)

  perform-url :
      (ctx : AuthContext) (op : Operation) (db : Tables)
      → ((url : String) → Accepts max_length op url → P url)
      → All (λ (ep : Endpoint). P ep.url) db.endpoints
      → All (λ (ep : Endpoint). P ep.url) (perform max_length encrypt_secret ctx op db).endpoints
  perform-url ctx op db accepts h =
      untouched_by op (perform max_length encrypt_secret ctx op db) accepts
        (perform-Change max_length encrypt_secret ctx db op)
    where
      untouched_by :
          (op : Operation) (db' : Tables)
          → ((url : String) → Accepts max_length op url → P url)
          → Change max_length encrypt_secret ctx db db' op
          → All (λ (ep : Endpoint). P ep.url) db'.endpoints
      untouched_by op db' accepts (Change.refused e) = rw e h
      untouched_by op db' accepts (Change.stored net body drawn c e) = rw e (
          All-append (λ (ep : Endpoint). P ep.url) db.endpoints _ h
            (accepts body.url (refl, c), tt))
      untouched_by op db' accepts (Change.updated net endpoint_id body ep o c e) = rw e (
          All-update (λ (x : Endpoint). P x.url) (λ (x : Endpoint). x.id == ep.id)
            (with_fields body) db.endpoints
            (λ old t k. changed_url net endpoint_id body body.url old.url refl c accepts k) h)
      untouched_by op db' accepts (Change.removed endpoint_id ep o k e) = rw e (
          All-select (λ (x : Endpoint). P x.url) (λ (x : Endpoint). not (x.id == ep.id))
            db.endpoints h)

  serve-url :
      (requests : List Request) (db : Tables)
      → ((url : String) → Vetted max_length requests url → P url)
      → All (λ (ep : Endpoint). P ep.url) db.endpoints
      → All (λ (ep : Endpoint). P ep.url) (serve max_length encrypt_secret requests db).endpoints
  unfolding serve
  serve-url [] db vetted h = h
  serve-url ((ctx, op) ∷ requests) db vetted h =
      serve-url requests (perform max_length encrypt_secret ctx op db)
        (λ url v. vetted url (v.0, inr v.1, v.2))
        (perform-url ctx op db (λ url a. vetted url ((ctx, op), inl refl, a)) h)

-- From a database without endpoints, and after any requests of any clients in any order: the URL of
-- every endpoint that is stored was asked for by one of these requests, and the check of webhook
-- URLs accepted it in the network of that request's moment.
pub serve-Vetted :
    (max_length : ℕ) (encrypt_secret : List ℕ → String) (requests : List Request) (db : Tables)
    → db.endpoints ≡ []
    → All
        (λ (ep : Endpoint). Vetted max_length requests ep.url)
        (serve max_length encrypt_secret requests db).endpoints
serve-Vetted max_length encrypt_secret requests db e =
    serve-url max_length encrypt_secret (Vetted max_length requests) requests db (λ url v. v)
      (rw e tt)
