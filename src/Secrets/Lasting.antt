-- ===== src/Secrets/Lasting.antt =====
-- A stored secret stays what it was at the creation of its endpoint.
use eventmesh.Base.{
  ℕ, String, ◌≡◌, ◌≢◌, sym, subst, List, not, ◌==◌, All, All-append, All-update, All-select,
}
use eventmesh.Common.CircuitBreaker.{CircuitBreaker, record_success, record_failure}
use eventmesh.Common.Classify.{Outcome, ClassificationResult}
use eventmesh.Database.{Delivery, Endpoint, Tables}
use eventmesh.Api.Auth.{AuthContext}
use eventmesh.Api.Endpoints.Requests.{Operation, with_fields, perform}
use eventmesh.Api.Endpoints.Change.{Change, perform-Change}
use eventmesh.Worker.DeliveryEngine.{
  Settings, Codecs, Attempt, World, save_circuit_breaker, schedule_retry,
}
use eventmesh.Worker.DeliveryEngine.Deliver.{deliver_to_endpoint}
use eventmesh.Worker.DeliveryEngine.Outcomes.{settled_tables}
use eventmesh.Worker.DeliveryEngine.Effects.{Effect, deliver_to_endpoint-Effect}
use eventmesh.Worker.DeliveryEngine.Circuit.{maybe_complete_event-endpoints}

-- The request does not draw the id, which `uuid4` drew before.
abbrev pub DrawsOther : ℕ → Operation → Type 0
DrawsOther id (Operation.create net body drawn) = drawn.id ≢ id
DrawsOther id (Operation.change net endpoint_id body) = Unit
DrawsOther id (Operation.delete endpoint_id) = Unit

-- What may happen to the table of endpoints after one with the id was made: requests of any tenants,
-- deliveries, and whatever leaves the table as it is.
pub data Later (id : ℕ) (db : Tables) : Tables → Type 0 where
  now : Later id db db
  request :
      {t : Tables} (max_length : ℕ) (encrypt : List ℕ → String) (ctx : AuthContext) (op : Operation)
      → Later id db t
      → DrawsOther id op
      → Later id db (perform max_length encrypt ctx op t)
  delivery :
      {t : Tables} (settings : Settings) (codecs : Codecs) (a : Attempt)
      (event_id endpoint_id n : ℕ) (w : World)
      → Later id db t
      → w.db ≡ t
      → Later id db (deliver_to_endpoint settings codecs a event_id endpoint_id n w).1.db
  elsewhere : {t u : Tables} → Later id db t → u.endpoints ≡ t.endpoints → Later id db u

-- An endpoint of the id and the secret, wherever the id still stands.
abbrev pub IsSealed : ℕ → String → Endpoint → Type 0
IsSealed id secret ep = ep.id ≡ id → ep.secret_encrypted ≡ secret

abbrev pub Sealed : ℕ → String → Tables → Type 0
Sealed id secret db = All (IsSealed id secret) db.endpoints

module _ (id : ℕ) (secret : String) where
  perform-Sealed :
      (max_length : ℕ) (encrypt : List ℕ → String) (ctx : AuthContext) (db : Tables)
      (op : Operation)
      → DrawsOther id op
      → Sealed id secret db
      → Sealed id secret (perform max_length encrypt ctx op db)
  perform-Sealed max_length encrypt ctx db op other h =
      by_change op (perform max_length encrypt ctx op db) other
        (perform-Change max_length encrypt ctx db op)
    where
      by_change :
          (op : Operation) (db' : Tables)
          → DrawsOther id op
          → Change max_length encrypt ctx db db' op
          → Sealed id secret db'
      by_change op db' other (Change.refused e) = rw e h
      by_change op db' other (Change.stored net body drawn c e) =
          rw e
            (All-append (IsSealed id secret) db.endpoints _ h ((λ same. absurd (other same)), tt))
      by_change op db' other (Change.updated net endpoint_id body ep o c e) = rw e (
          All-update (IsSealed id secret) (λ (x : Endpoint). x.id == ep.id) (with_fields body)
            db.endpoints (λ old t k. k) h)
      by_change op db' other (Change.removed endpoint_id ep o k e) =
          rw e
            (All-select (IsSealed id secret) (λ (x : Endpoint). not (x.id == ep.id)) db.endpoints h)

  saved-Sealed :
      (endpoint_id : ℕ) (cb : CircuitBreaker) (db : Tables)
      → Sealed id secret db
      → Sealed id secret (save_circuit_breaker endpoint_id cb db)
  unfolding save_circuit_breaker
  saved-Sealed endpoint_id cb db h =
      All-update (IsSealed id secret) (λ e. e.id == endpoint_id)
        (λ e. record e { circuit_state = cb.state.state }) db.endpoints (λ e _ k. k) h

  settled-Sealed :
      (settings : Settings) (o : Outcome) (a : Attempt) (event_id endpoint_id n : ℕ) (d : Delivery)
      (cb : CircuitBreaker) (result : ClassificationResult) (db : Tables)
      → Sealed id secret db
      → Sealed id secret (settled_tables settings a o event_id endpoint_id n d cb result db)
  settled-Sealed settings Outcome.success a event_id endpoint_id n d cb result db h =
      saved-Sealed endpoint_id (record_success cb) _
        (subst (All (IsSealed id secret)) (sym (maybe_complete_event-endpoints event_id _)) h)
  settled-Sealed settings Outcome.retry a event_id endpoint_id n d cb result db h =
      saved-Sealed endpoint_id (record_failure a.failed_at cb) _ h
  settled-Sealed settings Outcome.permanent_failure a event_id endpoint_id n d cb result db h =
      saved-Sealed endpoint_id (record_failure a.failed_at cb) _ h

  Effect-Sealed :
      (settings : Settings) (codecs : Codecs) (a : Attempt) (event_id endpoint_id n : ℕ)
      (w w' : World)
      → Sealed id secret w.db
      → Effect settings codecs a event_id endpoint_id n w w'
      → Sealed id secret w'.db
  unfolding schedule_retry
  Effect-Sealed settings codecs a event_id endpoint_id n w w' h (Effect.missing m d s) =
      subst (Sealed id secret) (sym d) h
  Effect-Sealed settings codecs a event_id endpoint_id n w w' h (Effect.held ep cb f al d s) =
      subst (Sealed id secret) (sym d) h
  Effect-Sealed settings codecs a event_id endpoint_id n w w' h (Effect.refused ep e f v d s) =
      subst (Sealed id secret) (sym d) h
  Effect-Sealed settings codecs a event_id endpoint_id n w w' h (Effect.undecrypted d s) =
      subst (Sealed id secret) (sym d) h
  Effect-Sealed settings codecs a event_id endpoint_id n w w' h (Effect.aborted c d s) =
      subst (Sealed id secret) (sym d) h
  Effect-Sealed settings codecs a event_id endpoint_id n w w' h
        (Effect.settled c status result e d s) =
      subst (Sealed id secret) (sym d)
        (settled-Sealed settings result.outcome a event_id endpoint_id n _ c.cb result _ h)

  pub Later-Sealed :
      {db db' : Tables} → Sealed id secret db → Later id db db' → Sealed id secret db'
  Later-Sealed h now = h
  Later-Sealed h (request max_length encrypt ctx op later other) =
      perform-Sealed max_length encrypt ctx _ op other (Later-Sealed h later)
  Later-Sealed h (delivery settings codecs a event_id endpoint_id n w later e) =
      Effect-Sealed settings codecs a event_id endpoint_id n w _
        (subst (Sealed id secret) (sym e) (Later-Sealed h later))
        (deliver_to_endpoint-Effect settings codecs a event_id endpoint_id n w)
  Later-Sealed h (elsewhere later e) =
      subst (All (IsSealed id secret)) (sym e) (Later-Sealed h later)
