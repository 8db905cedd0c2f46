-- ===== src/Api/Events/Tenancy.antt =====
-- A tenant reaches only its own events.
use eventmesh.Base.{
  ℕ, ◌≡◌, refl, sym, ap, ◌∙◌, subst, inl, inr, true, Option, none, some, arith, Result, ok, err,
  Bool-cases, ◌⊎◌,
}
use eventmesh.Common.Enums.{DeliveryStatus}
use eventmesh.Database.{Event, Delivery, Tables, get_event, get_delivery}
use eventmesh.Scheduler.{is_dlq}
use eventmesh.Api.Auth.{AuthContext}
use eventmesh.Api.Events.{
  ApiError, Fresh, owned, read_delivery, replay_loaded, replay_dlq_entry, replay_found,
  replay_event, requeue_event, outbox_for, add_outbox, and_event, owned_delivery,
}

owned-ok :
    (ctx : AuthContext) (found : Option Event) (e : Event)
    → owned ctx found ≡ ok e
    → (found ≡ some e) × (e.tenant_id ≡ ctx.tenant_id)
owned-ok ctx none e h = cc h
owned-ok ctx (some x) e h = ground arith

owned_delivery-ok :
    (ctx : AuthContext) (db : Tables) (found : Option Delivery) (d : Delivery) (e : Event)
    → owned_delivery ctx db found ≡ ok (d, e)
    → (found ≡ some d) × (get_event d.event_id db ≡ some e) × (e.tenant_id ≡ ctx.tenant_id)
owned_delivery-ok ctx db none d e h = cc h
owned_delivery-ok ctx db (some x) d e h = and_owned (owned ctx (get_event x.event_id db)) refl h
  where
    and_owned :
        (r : Result ApiError Event)
        → owned ctx (get_event x.event_id db) ≡ r
        → and_event x r ≡ ok (d, e)
        → (some x ≡ some d) × (get_event d.event_id db ≡ some e) × (e.tenant_id ≡ ctx.tenant_id)
    and_owned (err _) q h = cc h
    and_owned (ok event) q h =
        let (at_event, at_tenant) = owned-ok ctx (get_event x.event_id db) event q in
        let x≡d : x ≡ d = cc h in
        let event≡e : event ≡ e = cc h in
        (
          ap some x≡d,
          subst (λ y. get_event y.event_id db ≡ some e) x≡d (at_event ∙ ap some event≡e),
          ap (λ (y : Event). y.tenant_id) (sym event≡e) ∙ at_tenant,
        )

-- A delivery is shown only to the tenant of its event: if it is shown, then it and its event are in
-- the database and the event belongs to the client's tenant.
pub read_delivery_owned :
    (ctx : AuthContext) (delivery_id : ℕ) (db : Tables) (d : Delivery) (e : Event)
    → read_delivery ctx delivery_id db ≡ ok (d, e)
    → (get_delivery delivery_id db ≡ some d)
      × (get_event d.event_id db ≡ some e)
      × (e.tenant_id ≡ ctx.tenant_id)
unfolding read_delivery
read_delivery_owned ctx delivery_id db d e h = owned_delivery-ok ctx db _ d e h

replay_loaded_cases :
    (r : Result ApiError (Delivery × Event)) (ctx : AuthContext) (fresh : Fresh) (db : Tables)
    → let (answer, db') = replay_loaded r ctx fresh db in
      (((error : ApiError) × (answer ≡ err error)) × (db' ≡ db))
      ⊎ ((d : Delivery) × (e : Event) × (r ≡ ok (d, e))
          × (d.status ≡ DeliveryStatus.dlq)
          × (answer ≡ ok e.id)
          × (db'
              ≡ add_outbox
                  (outbox_for "dlq_replay" true (some d.endpoint_id) ctx.tenant_id e fresh)
                  db))
unfolding replay_loaded
replay_loaded_cases (err e) ctx fresh db = inl ((e, refl), refl)
replay_loaded_cases (ok (d, e)) ctx fresh db = elim (Bool-cases (is_dlq d.status)) [
  | inl t ↦ inr (d, e, refl, ground arith, rw t refl, rw t refl)
  | inr f ↦ inl ((ApiError.invalid_state, rw f refl), rw f refl)
]

-- A replay of a DLQ entry either answers with an error and changes nothing, or the delivery exists,
-- is in the DLQ and its event belongs to the client's tenant; then the answer names that event, and
-- the only change is one more PENDING row of the outbox, for that event and that endpoint alone.
pub replay_dlq_entry_owned :
    (ctx : AuthContext) (delivery_id : ℕ) (fresh : Fresh) (db : Tables)
    → let (answer, db') = replay_dlq_entry ctx delivery_id fresh db in
      (((error : ApiError) × (answer ≡ err error)) × (db' ≡ db))
      ⊎ ((d : Delivery) × (e : Event) × ((get_delivery delivery_id db ≡ some d)
            × (get_event d.event_id db ≡ some e)
            × (e.tenant_id ≡ ctx.tenant_id))
          × (d.status ≡ DeliveryStatus.dlq)
          × (answer ≡ ok e.id)
          × (db'
              ≡ add_outbox
                  (outbox_for "dlq_replay" true (some d.endpoint_id) ctx.tenant_id e fresh)
                  db))
unfolding replay_dlq_entry
replay_dlq_entry_owned ctx delivery_id fresh db =
    elim (replay_loaded_cases (read_delivery ctx delivery_id db) ctx fresh db) [
      | inl refused ↦ inl refused
      | inr (d, e, found, dead, answer, made) ↦
          inr (d, e, read_delivery_owned ctx delivery_id db d e found, dead, answer, made)
    ]

replay_found_cases :
    (r : Result ApiError Event) (ctx : AuthContext) (fresh : Fresh) (db : Tables)
    → let (answer, db') = replay_found r ctx fresh db in
      (((error : ApiError) × (answer ≡ err error)) × (db' ≡ db))
      ⊎ ((e : Event) × (r ≡ ok e)
          × (answer ≡ ok e.id)
          × (db'
              ≡ requeue_event e.id
                  (add_outbox (outbox_for "event_replay" true none ctx.tenant_id e fresh) db)))
unfolding replay_found
replay_found_cases (err x) ctx fresh db = inl ((x, refl), refl)
replay_found_cases (ok e) ctx fresh db = inr (e, refl, refl, refl)

-- A replay of an event either answers with an error and changes nothing, or the event exists and
-- belongs to the client's tenant; then the answer names that same event, which is QUEUED again, and
-- the outbox has one more PENDING row, for that event and all its endpoints.
pub replay_event_owned :
    (ctx : AuthContext) (event_id : ℕ) (fresh : Fresh) (db : Tables)
    → let (answer, db') = replay_event ctx event_id fresh db in
      (((error : ApiError) × (answer ≡ err error)) × (db' ≡ db))
      ⊎ ((e : Event) × ((get_event event_id db ≡ some e) × (e.tenant_id ≡ ctx.tenant_id))
          × (answer ≡ ok e.id)
          × (db'
              ≡ requeue_event e.id
                  (add_outbox (outbox_for "event_replay" true none ctx.tenant_id e fresh) db)))
unfolding replay_event
replay_event_owned ctx event_id fresh db =
    elim (replay_found_cases (owned ctx (get_event event_id db)) ctx fresh db) [
      | inl refused ↦ inl refused
      | inr (e, found, answer, made) ↦
          inr (e, owned-ok ctx (get_event event_id db) e found, answer, made)
    ]
