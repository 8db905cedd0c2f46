-- ===== src/System/Publishing.antt =====
-- The publisher and the scheduler keep a state consistent.
use eventmesh.Base.{
  ℕ, ◌≡◌, ◌≤◌, refl, sym, ap, ◌∙◌, inl, inr, Bool, ◌&&◌, List, [], ◌∷◌, ◌==◌, take, subst, select,
  Bool-cases, All, Has, Zip, All-map, All-Has, All-update, Zip-Has, Zip-All, Zip-Keyed, arith,
}
use eventmesh.Database.{Event, Delivery, OutboxEvent, Tables}
use eventmesh.Messaging.Broker.{Message, MessageBroker, Appends}
use eventmesh.Worker.OutboxPublisher.{
  Rounds, is_pending, message_of, mark_queued, due_rows, publish_row, publish_rows, publish_batch,
  poll,
}
use eventmesh.Worker.OutboxPublisher.Batch.{Settled, due_rows_pending, publish_batch-Settled}
use eventmesh.Scheduler.{is_due, requeue_rows, requeue_round}
use eventmesh.System.{Accepted, of_event, of_payload}
use eventmesh.System.Consistent.{
  Consistent, Recorded, Genuine, Stored, Consistent-send, Consistent-same_outbox,
}
use eventmesh.System.Growth.{Grown, publish_rows-Grown, Requeueing, requeue_rows-Requeueing}

-- Rows that a batch has settled are recorded still.
Settled-Recorded :
    (accepted : List Accepted) (sent : List Message) (o o' : OutboxEvent)
    → Settled sent o o'
    → Recorded accepted sent o
    → Recorded accepted sent o'
Settled-Recorded accepted sent o o' s r = record {
  genuine = subst (Genuine accepted) (sym s.same_message) r.genuine;
  published = λ e.
      subst (λ m. Has m sent) (sym s.same_message)
        (elim (s.published e) [ inl was ↦ r.published was | inr there ↦ there ]);
  gave_up = λ e. elim (s.gave_up e) [
    | inl was ↦
        let same : o' ≡ o = s.final (ap is_pending was) in
        subst (λ (x : OutboxEvent). 10 ≤ x.attempts) (sym same) (r.gave_up was)
    | inr n ↦ n
  ];
}

Settled-Stored :
    (sent : List Message) (os os' : List OutboxEvent) (x : Accepted)
    → Zip (Settled sent) os os'
    → Stored x os
    → Stored x os'
Settled-Stored sent os os' x z (o, m, e) =
    let (o', m', s) = Zip-Has (Settled sent) os os' o z m in
    (o', m', ap (λ (c : Message). of_payload c.payload) s.same_message ∙ e)

Settled-id : (sent : List Message) (o o' : OutboxEvent) → Settled sent o o' → o.id ≡ o'.id
Settled-id sent o o' s = cc s.same_message

Settled-Consistent :
    (accepted : List Accepted) (sent : List Message) (db db' : Tables)
    → Zip (Settled sent) db.outbox db'.outbox
    → db'.idempotency_keys ≡ db.idempotency_keys
    → All (λ e. Has (of_event e) accepted) db'.events
    → Consistent accepted sent db
    → Consistent accepted sent db'
Settled-Consistent accepted sent db db' z k e c = record {
  keyed =
      Zip-Keyed (Settled sent) (λ (o : OutboxEvent). o.id) db.outbox db'.outbox (Settled-id sent) z
        c.keyed;
  events = e;
  outbox = Zip-All (Settled sent) db.outbox db'.outbox (Settled-Recorded accepted sent) z c.outbox;
  keys = rw k c.keys;
  messages = c.messages;
  kept =
      All-map accepted
        (λ x h. elim h [
          | inl there ↦ inl (Settled-Stored sent db.outbox db'.outbox x z there)
          | inr there ↦ inr there
        ])
        c.kept;
}

module _ (b : MessageBroker) (laws : Appends b) (accepted : List Accepted) where
  open b use {State, entries}

  mark_queued-of_event : (e : Event) → of_event (mark_queued e) ≡ of_event e
  mark_queued-of_event e = ground arith

  -- A row's turn changes the status of events only, and no key.
  publish_row-events :
      (now : ℕ) (row : OutboxEvent) (db : Tables) (s : State)
      → All (λ e. Has (of_event e) accepted) db.events
      → let (db', _) = publish_row b now row (db, s) in
        All (λ e. Has (of_event e) accepted) db'.events
        × (db'.idempotency_keys ≡ db.idempotency_keys)
  unfolding publish_row
  publish_row-events now row db s h = elim (Bool-cases (b.publish (message_of row) s).0) [
    | inl t ↦ rw t (
      All-update (λ e. Has (of_event e) accepted) (λ e. e.id == row.event_id) mark_queued db.events
          (λ e _ m. subst (λ x. Has x accepted) (sym (mark_queued-of_event e)) m) h,
      refl,
    )
    | inr f ↦ rw f (h, refl)
  ]

  publish_rows-events :
      (now : ℕ) (rows : List OutboxEvent) (db : Tables) (s : State)
      → All (λ e. Has (of_event e) accepted) db.events
      → let (db', _) = publish_rows b now rows (db, s) in
        All (λ e. Has (of_event e) accepted) db'.events
        × (db'.idempotency_keys ≡ db.idempotency_keys)
  unfolding publish_rows
  publish_rows-events now [] db s h = (h, refl)
  publish_rows-events now (row ∷ rows) db s h =
      let (db1, s1) = publish_row b now row (db, s) in
      let (events, keys) = publish_row-events now row db s h in
      let (events', keys') = publish_rows-events now rows db1 s1 events in (events', keys' ∙ keys)

  Grown-Consistent :
      (s s' : State) (db : Tables)
      → Grown b laws (Genuine accepted) s s'
      → Consistent accepted (entries s) db
      → Consistent accepted (entries s') db
  Grown-Consistent s s' db g c =
      rw g.grown (Consistent-send accepted (entries s) g.more db g.wanted c)

  -- A round of the publisher, and one of the scheduler, add messages of accepted events only.
  pub poll-Grown :
      (rounds : Rounds) (batch_size i : ℕ) (db : Tables) (s : State)
      → Consistent accepted (entries s) db
      → Grown b laws (Genuine accepted) s (poll b rounds batch_size i (db, s)).1
  unfolding poll publish_batch
  poll-Grown rounds batch_size i db s c =
      let rows = due_rows (rounds.locked i) batch_size db in
      let genuine : All (λ row. Genuine accepted (message_of row)) rows =
        All-map rows
          (λ row h. (All-Has (Recorded accepted (entries s)) db.outbox c.outbox h.0).genuine)
          (due_rows_pending (rounds.locked i) batch_size db) in
      publish_rows-Grown b laws (Genuine accepted) (rounds.clock i) rows db s genuine

  pub requeue_round-Grown :
      (returns : List Delivery → List Delivery) (commits : Bool) (now : ℕ) (db : Tables) (s : State)
      → Consistent accepted (entries s) db
      → Grown b laws (Genuine accepted) s (requeue_round b returns commits now (db, s)).1
  unfolding requeue_round
  requeue_round-Grown returns commits now db s c =
      let due = take 100 (returns (select (is_due now) db.deliveries)) in
      (requeue_rows-Requeueing b laws (Genuine accepted) due db s (λ d. c.events)).stream

  pub poll-Consistent :
      (rounds : Rounds) (batch_size i : ℕ) (db : Tables) (s : State)
      → Consistent accepted (entries s) db
      → let (db', s') = poll b rounds batch_size i (db, s) in Consistent accepted (entries s') db'
  unfolding poll publish_batch
  poll-Consistent rounds batch_size i db s c =
      let rows = due_rows (rounds.locked i) batch_size db in
      let (db', s') = publish_rows b (rounds.clock i) rows (db, s) in
      let grown : Consistent accepted (entries s') db =
        Grown-Consistent s s' db (poll-Grown rounds batch_size i db s c) c in
      let (events, keys) = publish_rows-events (rounds.clock i) rows db s c.events in
      elim (Bool-cases (rounds.commits i)) [
        | inl t ↦ rw t (
            Settled-Consistent accepted (entries s') db db'
              (publish_batch-Settled b (rounds.locked i) batch_size (rounds.clock i) db s laws
                c.keyed)
              keys events grown)
        | inr f ↦ rw f grown
      ]

  pub requeue_round-Consistent :
      (returns : List Delivery → List Delivery) (commits : Bool) (now : ℕ) (db : Tables) (s : State)
      → Consistent accepted (entries s) db
      → let (db', s') = requeue_round b returns commits now (db, s) in
        Consistent accepted (entries s') db'
  unfolding requeue_round
  requeue_round-Consistent returns commits now db s c =
      let due = take 100 (returns (select (is_due now) db.deliveries)) in
      let (going, db', s') = requeue_rows b due (db, s) in
      let r : Requeueing b laws (Genuine accepted) db s db' s' =
        requeue_rows-Requeueing b laws (Genuine accepted) due db s (λ d. c.events) in
      let grown = Grown-Consistent s s' db r.stream c in
      elim (Bool-cases (going && commits)) [
        | inl t ↦ rw t (
            Consistent-same_outbox accepted (entries s') db db' r.outbox r.keys
              (rw r.events c.events) grown)
        | inr f ↦ rw f grown
      ]
