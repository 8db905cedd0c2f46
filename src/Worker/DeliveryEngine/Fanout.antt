-- ===== src/Worker/DeliveryEngine/Fanout.antt =====
-- A property of the world that one delivery keeps is kept by the whole fan-out of a payload.
use eventmesh.Base.{ℕ, suc, subst, ◌≡◌, sym, Option, none, some, List, [], ◌∷◌, Result, ok, err}
use eventmesh.Common.Enums.{EventStatus}
use eventmesh.Database.{Event, Payload, set_event}
use eventmesh.Worker.DeliveryEngine.{
  Settings, Codecs, Attempt, EngineError, DeliveryOutcomeSummary, World,
}
use eventmesh.Worker.DeliveryEngine.Resolve.{resolve_endpoints}
use eventmesh.Worker.DeliveryEngine.Deliver.{
  append_summary, deliver_all, fan_out, process_loaded, process_outbox_payload, deliver_to_endpoint,
}

append_summary-keeps :
    (P : World → Type 0) (r : Result EngineError DeliveryOutcomeSummary) (w1 : World)
    (rest : Result EngineError (List DeliveryOutcomeSummary) × World)
    → P w1
    → P rest.1
    → P (append_summary r w1 rest).1
append_summary-keeps P (err e) w1 rest h k = h
append_summary-keeps P (ok s) w1 (err e, w2) h k = k
append_summary-keeps P (ok s) w1 (ok ss, w2) h k = k

-- A property of the world that each delivery of an event keeps, at attempt number 1, and that the
-- event's new status keeps, holds after the whole payload is processed.
module _ (settings : Settings) (codecs : Codecs) (attempts : ℕ → Attempt) (P : World → Type 0)
    (event_id : ℕ)
    (step : (i endpoint_id : ℕ) (w : World)
      → P w
      → P (deliver_to_endpoint settings codecs (attempts i) event_id endpoint_id 1 w).1) where
  deliver_all-keeps :
      (i : ℕ) (endpoints : List ℕ) (w : World)
      → P w
      → P (deliver_all settings codecs attempts i event_id endpoints w).1
  unfolding deliver_all
  deliver_all-keeps i [] w h = h
  deliver_all-keeps i (endpoint_id ∷ rest) w h =
      let (r, w1) = deliver_to_endpoint settings codecs (attempts i) event_id endpoint_id 1 w in
      let h1 = step i endpoint_id w h in
      append_summary-keeps P r w1 _ h1 (deliver_all-keeps (suc i) rest w1 h1)

  pub fan_out-keeps :
      (endpoints : List ℕ) (w : World)
      → P w
      → P (record w {
        db = set_event event_id (λ e. record e { status = EventStatus.processing }) w.db;
      })
      → P (fan_out settings codecs endpoints attempts event_id w).1
  unfolding fan_out
  fan_out-keeps [] w h k = h
  fan_out-keeps (first ∷ rest) w h k = deliver_all-keeps 0 (first ∷ rest) _ k

  pub process_loaded-keeps :
      (event : Option Event) (payload : Payload) (w : World)
      → payload.event_id ≡ event_id
      → P w
      → P (record w {
        db = set_event event_id (λ e. record e { status = EventStatus.processing }) w.db;
      })
      → P (process_loaded settings codecs event attempts payload w).1
  unfolding process_loaded
  process_loaded-keeps none payload w e h k = h
  process_loaded-keeps (some event) payload w e h k =
      let ids =
        resolve_endpoints payload.tenant_id payload.event_type payload.target_endpoint_id w.db in
      subst (λ i. P (fan_out settings codecs ids attempts i w).1) (sym e) (fan_out-keeps ids w h k)

  pub process_outbox_payload-keeps :
      (payload : Payload) (w : World)
      → payload.event_id ≡ event_id
      → P w
      → P (record w {
        db = set_event event_id (λ e. record e { status = EventStatus.processing }) w.db;
      })
      → P (process_outbox_payload settings codecs attempts payload w).1
  unfolding process_outbox_payload
  process_outbox_payload-keeps payload w e h k = process_loaded-keeps _ payload w e h k
