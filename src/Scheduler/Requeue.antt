-- ===== src/Scheduler/Requeue.antt =====
-- What a round of `retry_requeue_loop` does to every row of `deliveries`.
use eventmesh.Base.{
  ℕ, ◌≡◌, refl, sym, ap, ◌∙◌, subst, ◌⊎◌, inl, inr, Bool, true, ◌&&◌, Option, none, some, List, [],
  ◌∷◌, ◌++◌, ◌==◌, ==_iff, Bool-cases, All, Has, Zip, Keyed, Keyed-unique, Has-append_left,
  Has-append_right, Has-take, Has-select, Zip-refl, Zip-update, All-of_forall, select, take,
  Zip-map, Has-find, ◌≤◌, ◌+◌, false, leb→le, and_true_left, and_true_right, arith,
}
use eventmesh.Common.Enums.{DeliveryStatus}
use eventmesh.Database.{Event, Delivery, Tables, get_event}
use eventmesh.Messaging.Broker.{Message, MessageBroker, Appends, Origin}
use eventmesh.Scheduler.{
  is_retrying, has_come, is_due, retry_message, requeued, requeue_loaded, requeue_rows,
  requeue_round,
}
use eventmesh.Worker.OutboxPublisher.Batch.{publish_grows}

-- The delivery is RETRYING, and the time of its retry has come.
pub record IsDue (now : ℕ) (d : Delivery) : Type 0 where
  pub retrying : d.status ≡ DeliveryStatus.retrying
  pub time : ℕ
  pub scheduled : d.next_retry_at ≡ some time
  pub come : time ≤ now

-- The message asks for the next attempt of this delivery, to its endpoint alone, with what its event
-- says.
pub record IsRetry (events : List Event) (d : Delivery) (m : Message) : Type 0 where
  pub event : Event
  pub known : Has event events
  pub names : event.id ≡ d.event_id
  pub outbox_id : m.outbox_id ≡ Origin.retry d.id
  pub payload : m.payload ≡ record {
    event_id = d.event_id;
    tenant_id = event.tenant_id;
    event_type = event.event_type;
    entity_id = event.entity_id;
    sequence = event.sequence_number;
    content = event.payload;
    created_at = event.created_at;
    is_replay = false;
    target_endpoint_id = some d.endpoint_id;
    retry_attempt_number = some (d.attempt_number + 1);
  }

-- The row `d` is as it was, or it was due and is queued, and its retry stands in the stream.
abbrev pub Requeued : List Event → ℕ → List Message → Delivery → Delivery → Type 0
Requeued events now sent d d' =
    (d' ≡ d)
    ⊎ (IsDue now d
        × (d' ≡ record d { status = DeliveryStatus.queued })
        × (m : Message) × Has m sent
        × IsRetry events d m)

-- The same, in the words of the code.
abbrev Asked : List Event → ℕ → List Message → Delivery → Delivery → Type 0
Asked events now sent d d' =
    (d' ≡ d)
    ⊎ ((is_due now d ≡ true)
        × (d' ≡ requeued d)
        × (e : Event) × (Has e events × (e.id ≡ d.event_id))
        × Has (retry_message e d) sent)

is_due-IsDue : (now : ℕ) (d : Delivery) → is_due now d ≡ true → IsDue now d
is_due-IsDue now d t =
    let here : is_retrying d.status ≡ true = and_true_left _ _ t in
    let (time, at, come) = come_by d.next_retry_at (and_true_right (is_retrying d.status) _ t) in
    record { retrying = retrying_of d.status here; time = time; scheduled = at; come = come }
  where
    retrying_of : (s : DeliveryStatus) → is_retrying s ≡ true → s ≡ DeliveryStatus.retrying
    retrying_of s h = ground arith

    come_by : (o : Option ℕ) → has_come now o ≡ true → (time : ℕ) × (o ≡ some time) × (time ≤ now)
    come_by none h = cc h
    come_by (some time) h = (time, refl, leb→le time now h)

Asked-Requeued :
    (events : List Event) (now : ℕ) (sent : List Message) (d d' : Delivery)
    → Asked events now sent d d'
    → Requeued events now sent d d'
Asked-Requeued events now sent d d' (inl e) = inl e
Asked-Requeued events now sent d d' (inr (t, q, e, (known, names), m)) = inr (
  is_due-IsDue now d t,
  q,
  retry_message e d,
  m,
  record {
    event = e;
    known = known;
    names = names;
    outbox_id = refl;
    payload = ap (λ i. record (retry_message e d).payload { event_id = i }) names;
  },
)

Asked-mono :
    (events : List Event) (now : ℕ) (sent more : List Message) (d d' : Delivery)
    → Asked events now sent d d'
    → Asked events now (sent ++ more) d d'
Asked-mono events now sent more d d' (inl e) = inl e
Asked-mono events now sent more d d' (inr (t, e, event, known, m)) =
    inr (t, e, event, known, Has-append_left (retry_message event d) sent more m)

module _ (b : MessageBroker) (laws : Appends b) where
  open b use {State, publish, entries}

  requeue_loaded-Asked :
      (events : List Event) (event : Option Event) (now : ℕ) (row : Delivery) (ds : List Delivery)
      (db : Tables) (s : State)
      → ((e : Event) → event ≡ some e → Has e events × (e.id ≡ row.event_id))
      → Keyed (λ (d : Delivery). d.id) ds
      → Has row ds
      → is_due now row ≡ true
      → Zip (Asked events now (entries s)) ds db.deliveries
      → let (_, db', s') = requeue_loaded b event row (db, s) in
        Zip (Asked events now (entries s')) ds db'.deliveries
  unfolding requeue_loaded
  requeue_loaded-Asked events none now row ds db s loaded k m t z = z
  requeue_loaded-Asked events (some event) now row ds db s loaded k m t z =
      elim (Bool-cases (publish (retry_message event row) s).0) [
        | inl e ↦
            rw (e, laws.returned (retry_message event row) s e)
              (Zip-update (λ (x : Delivery). x.id == row.id) requeued ds db.deliveries
                (λ d x n r q.
                  let same : d ≡ row =
                    Keyed-unique _ ds k n m (ids d x row r ∙ (==_iff x.id row.id).0 q) in
                  inr (
                    ap (is_due now) same ∙ t,
                    marks d x r,
                    event,
                    (
                      (loaded event refl).0,
                      (loaded event refl).1 ∙ ap (λ (c : Delivery). c.event_id) (sym same),
                    ),
                    subst
                        (λ c.
                          Has (retry_message event c) (entries s ++ retry_message event row ∷ []))
                        (sym same)
                        (Has-append_right (retry_message event row) (entries s) _ (inl refl)),
                  ))
                (λ d x n r q. Asked-mono events now (entries s) _ d x r) z)
        | inr e ↦
            let (more, grown) = publish_grows b laws (retry_message event row) s in
            rw (e, grown)
              (Zip-map (λ d x r. Asked-mono events now (entries s) more d x r) ds db.deliveries z)
      ]
    where
      ids : (d x row : Delivery) → Asked events now (entries s) d x → d.id ≡ x.id
      ids d x row (inl e) = ap (λ (c : Delivery). c.id) (sym e)
      ids d x row (inr r) = ap (λ (c : Delivery). c.id) (sym r.1)

      marks : (d x : Delivery) → Asked events now (entries s) d x → requeued x ≡ requeued d
      marks d x (inl e) = ap requeued e
      marks d x (inr r) = ap requeued r.1

  requeue_loaded_events :
      (event : Option Event) (row : Delivery) (db : Tables) (s : State)
      → (requeue_loaded b event row (db, s)).1.events ≡ db.events
  unfolding requeue_loaded
  requeue_loaded_events none row db s = refl
  requeue_loaded_events (some event) row db s =
      elim (Bool-cases (publish (retry_message event row) s).0) [
        | inl e ↦ rw e refl
        | inr e ↦ rw e refl
      ]

  requeue_rows-Asked :
      (events : List Event) (now : ℕ) (rows ds : List Delivery) (db : Tables) (s : State)
      → db.events ≡ events
      → Keyed (λ (d : Delivery). d.id) ds
      → All (λ row. Has row ds × (is_due now row ≡ true)) rows
      → Zip (Asked events now (entries s)) ds db.deliveries
      → let (_, db', s') = requeue_rows b rows (db, s) in
        Zip (Asked events now (entries s')) ds db'.deliveries
  unfolding requeue_rows
  requeue_rows-Asked events now [] ds db s same k h z = z
  requeue_rows-Asked events now (row ∷ rows) ds db s same k h z =
      let loaded : (e : Event)
          → get_event row.event_id db ≡ some e
          → Has e events × (e.id ≡ row.event_id) =
        λ e found.
          let (known, named) = Has-find _ db.events found in
          (subst (Has e) same known, (==_iff e.id row.event_id).0 named) in
      let same1 = requeue_loaded_events (get_event row.event_id db) row db s ∙ same in
      let (going, db1, s1) = requeue_loaded b (get_event row.event_id db) row (db, s) in
      let z1 =
        requeue_loaded-Asked events (get_event row.event_id db) now row ds db s loaded k h.0.0 h.0.1
          z in
      elim (Bool-cases going) [
        | inl e ↦ rw e (requeue_rows-Asked events now rows ds db1 s1 same1 k h.1 z1)
        | inr e ↦ rw e z1
      ]

-- For a broker that appends what it accepts, a query that returns rows of the table, and
-- deliveries with distinct ids: one round of the requeueing loop, whichever calls of the broker
-- raise and whether or not the commit is reached, changes `deliveries` in one way only. A row that
-- was RETRYING and due may become QUEUED, and then a message stands in the stream that asks for its
-- retry: for that endpoint alone, with the next attempt number, and with its event as the table has it.
pub requeue_round-Requeued :
    (b : MessageBroker) (returns : List Delivery → List Delivery) (commits : Bool) (now : ℕ)
    (db : Tables) (s : b.State)
    → Appends b
    → ((d : Delivery) (ds : List Delivery) → Has d (returns ds) → Has d ds)
    → Keyed (λ (d : Delivery). d.id) db.deliveries
    → let (db', s') = requeue_round b returns commits now (db, s) in
      Zip (Requeued db.events now (b.entries s')) db.deliveries db'.deliveries
unfolding requeue_round
requeue_round-Requeued b returns commits now db s laws chosen k =
    let due = take 100 (returns (select (is_due now) db.deliveries)) in
    let z =
      requeue_rows-Asked b laws db.events now due db.deliveries db s refl k
        (All-of_forall due
          (λ a m. Has-select a (is_due now) db.deliveries (chosen a _ (Has-take a 100 _ m))))
        (Zip-refl _ db.deliveries (λ d. inl refl)) in
    elim (Bool-cases ((requeue_rows b due (db, s)).0 && commits)) [
      | inl e ↦ rw e (Zip-map (Asked-Requeued db.events now _) db.deliveries _ z)
      | inr e ↦ rw e (Zip-refl _ db.deliveries (λ d. inl refl))
    ]
