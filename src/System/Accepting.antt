-- ===== src/System/Accepting.antt =====
-- The requests of clients keep a state consistent.
use mathlib.Core.List.{append-nil}
use eventmesh.Base.{
  ℕ, String, ◌≡◌, refl, ◌⊎◌, inl, inr, true, false, Option, none, some, List, [], ◌∷◌, ◌++◌, ◌==◌,
  ==_iff, ltb, Bool-cases, Option-cases, All, Has, All-map, All-append, All-Has, All-update,
  Has-append_left, Has-append_right, Has-find, arith,
}
use eventmesh.Common.Enums.{EventStatus}
use eventmesh.Database.{Event, IdempotencyKey, Tables, get_event}
use eventmesh.Messaging.Broker.{Message}
use eventmesh.Api.Auth.{AuthContext}
use eventmesh.Api.Events.{
  ApiSettings, EventCreateRequest, Fresh, truthy, seen, new_event, add_key, outbox_for, store_event,
  is_storable, commit_new, create_event, replay_event, replay_dlq_entry,
}
use eventmesh.Api.Events.Tenancy.{replay_event_owned, replay_dlq_entry_owned}
use eventmesh.Api.Endpoints.Requests.{Operation, perform}
use eventmesh.Api.Endpoints.Change.{Change, perform-Change}
use eventmesh.System.{Accepted, of_request, of_event, newly_accepted, NewOutboxId, NewEventId}
use eventmesh.System.Consistent.{
  Consistent, Recorded, Names, Stored, Streamed, Keyed-append, Stored-append, Consistent-add,
  Consistent-same_outbox,
}

module _ (accepted : List Accepted) (sent : List Message) where
  -- The new event is accepted, with its row, and with a key or without one.
  store_event-Consistent :
      (settings : ApiSettings) (ctx : AuthContext) (key : Option String) (body : EventCreateRequest)
      (fresh : Fresh) (db : Tables)
      → NewOutboxId fresh db
      → Consistent accepted sent db
      → Consistent
          (accepted ++ of_request ctx body fresh.event_id ∷ [])
          sent
          (store_event settings ctx.tenant_id key body fresh db)
  unfolding store_event
  store_event-Consistent settings ctx key body fresh db new c =
      let x = of_request ctx body fresh.event_id in
      let o =
        outbox_for "event" false none ctx.tenant_id (new_event ctx.tenant_id body fresh) fresh in
      let last : Has x (accepted ++ x ∷ []) = Has-append_right x accepted (x ∷ []) (inl refl) in
      record {
        keyed = Keyed-append db.outbox o new c.keyed;
        events =
            All-append (λ e. Has (of_event e) (accepted ++ x ∷ [])) db.events _
              (All-map db.events (λ e m. Has-append_left _ accepted _ m) c.events) (last, tt);
        outbox =
            All-append (Recorded (accepted ++ x ∷ []) sent) db.outbox (o ∷ [])
              (All-map db.outbox
                (λ p r. record {
                  genuine = Has-append_left _ accepted _ r.genuine;
                  published = r.published;
                  gave_up = r.gave_up;
                })
                c.outbox)
              (record { genuine = last; published = λ e. cc e; gave_up = λ e. cc e }, tt);
        keys =
            keys_after key
              (All-map db.idempotency_keys
                (λ k n. (n.0, Has-append_left _ accepted _ n.1, n.2, n.3)) c.keys)
              last;
        messages = All-map sent (λ m h. Has-append_left _ accepted _ h) c.messages;
        kept =
            All-append (λ y. Stored y (db.outbox ++ o ∷ []) ⊎ Streamed y sent) accepted (x ∷ [])
              (All-map accepted
                (λ y k. elim k [
                  | inl there ↦ inl (Stored-append y db.outbox _ there)
                  | inr there ↦ inr there
                ])
                c.kept)
              (inl (o, Has-append_right o db.outbox (o ∷ []) (inl refl), refl), tt);
      }
    where
      keys_after :
          (key : Option String)
          → All (Names (accepted ++ of_request ctx body fresh.event_id ∷ [])) db.idempotency_keys
          → Has
              (of_request ctx body fresh.event_id)
              (accepted ++ of_request ctx body fresh.event_id ∷ [])
          → All
              (Names (accepted ++ of_request ctx body fresh.event_id ∷ []))
              (add_key settings ctx.tenant_id key fresh db.idempotency_keys)
      keys_after none h last = h
      keys_after (some k) h last =
          All-append (Names (accepted ++ of_request ctx body fresh.event_id ∷ []))
            db.idempotency_keys _ h ((of_request ctx body fresh.event_id, last, refl, refl), tt)

  seen_differs :
      (ctx : AuthContext) (key : Option String) (fresh : Fresh) (db : Tables) (row : IdempotencyKey)
      → NewEventId fresh db
      → seen ctx.tenant_id key db ≡ some row
      → (row.event_id == fresh.event_id) ≡ false
  seen_differs ctx none fresh db row new h = cc h
  seen_differs ctx (some key) fresh db row new h =
      let differs = All-Has _ db.idempotency_keys new (Has-find _ db.idempotency_keys h).0 in
      ground (arith, differs)

  pub create_event-Consistent :
      (settings : ApiSettings) (ctx : AuthContext) (body : EventCreateRequest) (fresh : Fresh)
      (db : Tables)
      → NewOutboxId fresh db
      → NewEventId fresh db
      → Consistent accepted sent db
      → let (answer, db') = create_event settings ctx body fresh db in
        Consistent (accepted ++ newly_accepted ctx body fresh answer) sent db'
  unfolding create_event commit_new
  create_event-Consistent settings ctx body fresh db new unseen c =
      let none_new : Consistent (accepted ++ []) sent db = rw (append-nil accepted) c in
      elim (Bool-cases (ltb settings.max_event_payload_bytes body.content_length)) [
        | inl large ↦ rw large none_new
        | inr fits ↦ elim (Option-cases (seen ctx.tenant_id (truthy body.idempotency_key) db)) [
          | inl fresh_key ↦ elim (Bool-cases (is_storable (truthy body.idempotency_key) body)) [
            | inl stored ↦
                rw (fits, fresh_key, stored, (==_iff fresh.event_id fresh.event_id).1 refl)
                  (store_event-Consistent settings ctx (truthy body.idempotency_key) body fresh db
                    new c)
            | inr bad ↦ rw (fits, fresh_key, bad) none_new
          ]
          | inr (row, found) ↦
              rw
                (
                  fits,
                  found,
                  seen_differs ctx (truthy body.idempotency_key) fresh db row unseen found,
                )
                none_new
        ]
      ]

  -- A replay's row carries the event that it replays.
  replayed :
      (ctx : AuthContext) (db : Tables) (event_id : ℕ) (e : Event)
      → get_event event_id db ≡ some e
      → e.tenant_id ≡ ctx.tenant_id
      → Consistent accepted sent db
      → Has (record (of_event e) { tenant_id = ctx.tenant_id }) accepted
  replayed ctx db event_id e found own c =
      rw (← own)
        (All-Has (λ x. Has (of_event x) accepted) db.events c.events (Has-find _ db.events found).0)

  pub replay_dlq_entry-Consistent :
      (ctx : AuthContext) (delivery_id : ℕ) (fresh : Fresh) (db : Tables)
      → NewOutboxId fresh db
      → Consistent accepted sent db
      → Consistent accepted sent (replay_dlq_entry ctx delivery_id fresh db).1
  replay_dlq_entry-Consistent ctx delivery_id fresh db new c =
      elim (replay_dlq_entry_owned ctx delivery_id fresh db) [
        | inl (_, same) ↦ rw same c
        | inr (d, e, (_, found, own), _, _, made) ↦ rw made (
            Consistent-add accepted sent db _ new (replayed ctx db d.event_id e found own c) refl c)
      ]

  pub replay_event-Consistent :
      (ctx : AuthContext) (event_id : ℕ) (fresh : Fresh) (db : Tables)
      → NewOutboxId fresh db
      → Consistent accepted sent db
      → Consistent accepted sent (replay_event ctx event_id fresh db).1
  replay_event-Consistent ctx event_id fresh db new c =
      elim (replay_event_owned ctx event_id fresh db) [
        | inl (_, same) ↦ rw same c
        | inr (e, (found, own), _, made) ↦
            let added =
              Consistent-add accepted sent db
                (outbox_for "event_replay" true none ctx.tenant_id e fresh) new
                (replayed ctx db event_id e found own c) refl c in
            rw made (
              Consistent-same_outbox accepted sent _ _ refl refl
                (All-update (λ x. Has (of_event x) accepted) (λ x. x.id == e.id)
                  (λ x. record x { status = EventStatus.queued }) db.events (λ x t h. h) c.events)
                added)
      ]

  pub perform-Consistent :
      (max_length : ℕ) (encrypt_secret : List ℕ → String) (ctx : AuthContext) (op : Operation)
      (db : Tables)
      → Consistent accepted sent db
      → Consistent accepted sent (perform max_length encrypt_secret ctx op db)
  perform-Consistent max_length encrypt_secret ctx op db c =
      changed_by (perform-Change max_length encrypt_secret ctx db op)
    where
      changed_by :
          {db' : Tables} {op : Operation}
          → Change max_length encrypt_secret ctx db db' op
          → Consistent accepted sent db'
      changed_by (Change.refused e) = rw e c
      changed_by (Change.stored net body drawn v e) =
          rw e (Consistent-same_outbox accepted sent db _ refl refl c.events c)
      changed_by (Change.updated net endpoint_id body ep o v e) =
          rw e (Consistent-same_outbox accepted sent db _ refl refl c.events c)
      changed_by (Change.removed endpoint_id ep o k e) =
          rw e (Consistent-same_outbox accepted sent db _ refl refl c.events c)
