-- ===== src/Api/Endpoints/Change.antt =====
-- What one request may do to the database, as a relation between the database before and after it.
use eventmesh.Base.{
  ℕ, String, ◌≡◌, refl, sym, ap, ◌∙◌, false, Option, none, some, List, ◌==◌, ==_iff, any, Result,
  ok, err, Bool-cases, inl, inr, if_true, if_false,
}
use eventmesh.Common.Ssrf.{Network, SsrfError, validate_webhook_url}
use eventmesh.Database.{Endpoint, Delivery, Tables, get_endpoint}
use eventmesh.Api.Auth.{AuthContext}
use eventmesh.Api.Schemas.{EndpointCreateRequest, EndpointUpdateRequest}
use eventmesh.Api.Endpoints.{
  EndpointError, Drawn, has_duplicate, new_endpoint, store_endpoint, create_checked,
  create_endpoint, owned_endpoint,
}
use eventmesh.Api.Endpoints.Requests.{
  Operation, has_duplicates, check_url, apply_update, update_loaded, update_endpoint,
  remove_endpoint, delete_loaded, delete_endpoint, perform,
}

-- The endpoint that the client means is there, and is its tenant's.
pub record Owns (ctx : AuthContext) (endpoint_id : ℕ) (db : Tables) (ep : Endpoint) : Type 0 where
  pub found : get_endpoint endpoint_id db ≡ some ep
  pub own : ep.tenant_id ≡ ctx.tenant_id

pub owned_endpoint-Owns :
    (ctx : AuthContext) (endpoint_id : ℕ) (db : Tables) (ep : Endpoint)
    → owned_endpoint ctx (get_endpoint endpoint_id db) ≡ ok ep
    → Owns ctx endpoint_id db ep
owned_endpoint-Owns ctx endpoint_id db ep h = by_row (get_endpoint endpoint_id db) refl h
  where
    by_row :
        (row : Option Endpoint)
        → get_endpoint endpoint_id db ≡ row
        → owned_endpoint ctx row ≡ ok ep
        → Owns ctx endpoint_id db ep
    by_row none q h = cc h
    by_row (some x) q h = elim (Bool-cases (x.tenant_id == ctx.tenant_id)) [
      | inl t ↦
          let same : ok x ≡ ok ep = sym (if_true _ _ t) ∙ h in
          let x≡ep : x ≡ ep = cc same in
          record {
            found = q ∙ ap some x≡ep;
            own =
                ap (λ (y : Endpoint). y.tenant_id) (sym x≡ep)
                ∙ (==_iff x.tenant_id ctx.tenant_id).0 t;
          }
      | inr f ↦
          let differs : err EndpointError.not_found ≡ ok ep = sym (if_false _ _ f) ∙ h in cc differs
    ]

module _ (max_length : ℕ) (encrypt_secret : List ℕ → String) (ctx : AuthContext) (db : Tables) where
  pub data Change (db' : Tables) : Operation → Type 0 where
    refused : {op : Operation} → db' ≡ db → Change db' op
    stored :
        (net : Network) (body : EndpointCreateRequest) (drawn : Drawn)
        → validate_webhook_url net body.url max_length ≡ ok tt
        → db' ≡ store_endpoint (new_endpoint encrypt_secret ctx body drawn) body.events db
        → Change db' (Operation.create net body drawn)
    updated :
        (net : Network) (endpoint_id : ℕ) (body : EndpointUpdateRequest) (ep : Endpoint)
        → Owns ctx endpoint_id db ep
        → check_url max_length net body.url ≡ ok tt
        → db' ≡ apply_update body ep db
        → Change db' (Operation.change net endpoint_id body)
    removed :
        (endpoint_id : ℕ) (ep : Endpoint)
        → Owns ctx endpoint_id db ep
        → any (λ (d : Delivery). d.endpoint_id == ep.id) db.deliveries ≡ false
        → db' ≡ remove_endpoint ep.id db
        → Change db' (Operation.delete endpoint_id)

  create-Change :
      (net : Network) (body : EndpointCreateRequest) (drawn : Drawn)
      (checked : Result SsrfError (Unit {0}))
      → validate_webhook_url net body.url max_length ≡ checked
      → Change
          (create_checked encrypt_secret checked ctx body drawn db).1
          (Operation.create net body drawn)
  unfolding create_checked
  create-Change net body drawn (err e) q = refused refl
  create-Change net body drawn (ok u) q = elim (Bool-cases (has_duplicate body.events)) [
    | inl e ↦ rw e (refused refl)
    | inr e ↦ rw e (stored net body drawn q refl)
  ]

  update-Change :
      (net : Network) (endpoint_id : ℕ) (body : EndpointUpdateRequest)
      (loaded : Result EndpointError Endpoint) (checked : Result SsrfError (Unit {0}))
      → owned_endpoint ctx (get_endpoint endpoint_id db) ≡ loaded
      → check_url max_length net body.url ≡ checked
      → Change (update_loaded loaded checked body db).1 (Operation.change net endpoint_id body)
  unfolding update_loaded
  update-Change net endpoint_id body (err e) checked p q = refused refl
  update-Change net endpoint_id body (ok ep) (err e) p q = refused refl
  update-Change net endpoint_id body (ok ep) (ok u) p q =
      elim (Bool-cases (has_duplicates body.events)) [
        | inl e ↦ rw e (refused refl)
        | inr e ↦
            rw e
              (updated net endpoint_id body ep (owned_endpoint-Owns ctx endpoint_id db ep p) q refl)
      ]

  delete-Change :
      (endpoint_id : ℕ) (loaded : Result EndpointError Endpoint)
      → owned_endpoint ctx (get_endpoint endpoint_id db) ≡ loaded
      → Change (delete_loaded loaded db).1 (Operation.delete endpoint_id)
  unfolding delete_loaded
  delete-Change endpoint_id (err e) p = refused refl
  delete-Change endpoint_id (ok ep) p =
      elim (Bool-cases (any (λ (d : Delivery). d.endpoint_id == ep.id) db.deliveries)) [
        | inl e ↦ rw e (refused refl)
        | inr e ↦ rw e (removed endpoint_id ep (owned_endpoint-Owns ctx endpoint_id db ep p) e refl)
      ]

  -- Every request does one of these.
  pub perform-Change : (op : Operation) → Change (perform max_length encrypt_secret ctx op db) op
  unfolding perform create_endpoint update_endpoint delete_endpoint
  perform-Change (Operation.create net body drawn) = create-Change net body drawn _ refl
  perform-Change (Operation.change net endpoint_id body) =
      update-Change net endpoint_id body _ _ refl refl
  perform-Change (Operation.delete endpoint_id) = delete-Change endpoint_id _ refl
