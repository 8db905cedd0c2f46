-- ===== src/System/Growth.antt =====
-- What the publisher and the scheduler add to the stream.
use mathlib.Core.List.{append-nil, append_assoc}
use eventmesh.Base.{
  ℕ, ◌≡◌, refl, sym, ap, ◌∙◌, inl, inr, Option, none, some, List, [], ◌∷◌, ◌++◌, Bool-cases, All,
  All-append, All-Has, Has-find,
}
use eventmesh.Database.{Event, Delivery, OutboxEvent, Tables, get_event}
use eventmesh.Messaging.Broker.{Message, MessageBroker, Appends}
use eventmesh.Worker.OutboxPublisher.{message_of, publish_row, publish_rows}
use eventmesh.Scheduler.{retry_message, requeue_loaded, requeue_rows}

module _ (b : MessageBroker) (laws : Appends b) (P : Message → Type 0) where
  open b use {State, publish, entries}

  -- The stream has more entries, and each of the new ones is as wanted.
  pub record Grown (s s' : State) : Type 0 where
    pub more : List Message
    pub grown : entries s' ≡ entries s ++ more
    pub wanted : All P more

  Grown-refl : (s : State) → Grown s s
  Grown-refl s = record { more = []; grown = sym (append-nil (entries s)); wanted = tt }

  Grown-trans : (s t u : State) → Grown s t → Grown t u → Grown s u
  Grown-trans s t u g h = record {
    more = g.more ++ h.more;
    grown = h.grown ∙ ap (λ xs. xs ++ h.more) g.grown ∙ append_assoc (entries s) g.more h.more;
    wanted = All-append P g.more h.more g.wanted h.wanted;
  }

  Grown-publish : (m : Message) (s : State) → P m → Grown s (publish m s).1
  Grown-publish m s p = elim (Bool-cases (publish m s).0) [
    | inl e ↦ record { more = m ∷ []; grown = laws.returned m s e; wanted = (p, tt) }
    | inr e ↦ elim (laws.raised m s e) [
      | inl same ↦ record { more = []; grown = same ∙ sym (append-nil (entries s)); wanted = tt }
      | inr sent ↦ record { more = m ∷ []; grown = sent; wanted = (p, tt) }
    ]
  ]

  pub publish_rows-Grown :
      (now : ℕ) (rows : List OutboxEvent) (db : Tables) (s : State)
      → All (λ row. P (message_of row)) rows
      → Grown s (publish_rows b now rows (db, s)).1
  unfolding publish_rows publish_row
  publish_rows-Grown now [] db s h = Grown-refl s
  publish_rows-Grown now (row ∷ rows) db s h =
      let (db', s') = publish_row b now row (db, s) in
      Grown-trans s s' _ (Grown-publish (message_of row) s h.0)
        (publish_rows-Grown now rows db' s' h.1)

  -- The scheduler touches neither the events nor the outbox nor the keys.
  pub record Requeueing (db : Tables) (s : State) (db' : Tables) (s' : State) : Type 0 where
    pub stream : Grown s s'
    pub events : db'.events ≡ db.events
    pub outbox : db'.outbox ≡ db.outbox
    pub keys : db'.idempotency_keys ≡ db.idempotency_keys

  requeue_loaded-Requeueing :
      (event : Option Event) (d : Delivery) (db : Tables) (s : State)
      → ((e : Event) → event ≡ some e → P (retry_message e d))
      → let (_, db', s') = requeue_loaded b event d (db, s) in Requeueing db s db' s'
  unfolding requeue_loaded
  requeue_loaded-Requeueing none d db s h = record {
    stream = Grown-refl s;
    events = refl;
    outbox = refl;
    keys = refl;
  }
  requeue_loaded-Requeueing (some e) d db s h =
      elim (Bool-cases (publish (retry_message e d) s).0) [
        | inl t ↦ record {
          stream = Grown-publish (retry_message e d) s (h e refl);
          events = rw t refl;
          outbox = rw t refl;
          keys = rw t refl;
        }
        | inr f ↦ record {
          stream = Grown-publish (retry_message e d) s (h e refl);
          events = rw f refl;
          outbox = rw f refl;
          keys = rw f refl;
        }
      ]

  pub requeue_rows-Requeueing :
      (rows : List Delivery) (db : Tables) (s : State)
      → ((d : Delivery) → All (λ e. P (retry_message e d)) db.events)
      → let (_, db', s') = requeue_rows b rows (db, s) in Requeueing db s db' s'
  unfolding requeue_rows
  requeue_rows-Requeueing [] db s h = record {
    stream = Grown-refl s;
    events = refl;
    outbox = refl;
    keys = refl;
  }
  requeue_rows-Requeueing (d ∷ rows) db s h =
      let (going, db1, s1) = requeue_loaded b (get_event d.event_id db) d (db, s) in
      let first : Requeueing db s db1 s1 =
        requeue_loaded-Requeueing (get_event d.event_id db) d db s
          (λ e q. All-Has _ db.events (h d) (Has-find _ db.events q).0) in
      let rest = requeue_rows-Requeueing rows db1 s1 (λ x. rw first.events (h x)) in
      elim (Bool-cases going) [
        | inl t ↦ rw t (record {
          stream = Grown-trans s s1 _ first.stream rest.stream;
          events = rest.events ∙ first.events;
          outbox = rest.outbox ∙ first.outbox;
          keys = rest.keys ∙ first.keys;
        })
        | inr f ↦ rw f first
      ]
