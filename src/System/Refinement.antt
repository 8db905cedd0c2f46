-- ===== src/System/Refinement.antt =====
-- The system against its promise: what becomes of every accepted event, and that nothing else is
-- delivered.
use eventmesh.Base.{
  ℕ, ◌≡◌, ◌≤◌, refl, ap, ◌⊎◌, inl, inr, List, [], ◌∷◌, ◌++◌, map, ◌==◌, All, Has, Bool-cases,
  All-map, All-Has, Result, ok, err,
}
use mathlib.Core.List.{append-nil, append_assoc}
use eventmesh.Common.Enums.{OutboxStatus}
use eventmesh.Database.{OutboxEvent, Tables}
use eventmesh.Messaging.Broker.{Message, MessageBroker, Appends}
use eventmesh.Api.Auth.{AuthContext}
use eventmesh.Api.Events.{ApiError, EventCreateRequest, Fresh}
use eventmesh.Worker.OutboxPublisher.{message_of}
use eventmesh.System.{Accepted, of_request, of_payload, newly_accepted, State, Step, Reach}
use eventmesh.System.Consistent.{Consistent, Genuine, Recorded, Streamed}
use eventmesh.System.Accepting.{
  create_event-Consistent, replay_event-Consistent, replay_dlq_entry-Consistent, perform-Consistent,
}
use eventmesh.System.Growth.{Grown}
use eventmesh.System.Publishing.{
  poll-Consistent, poll-Grown, requeue_round-Consistent, requeue_round-Grown,
}
use eventmesh.System.Delivering.{
  process_outbox_payload-Consistent, deliver_to_endpoint-Consistent, begin-Consistent,
}
use eventmesh.System.Cleaning.{cleanup_round-Consistent}

-- What clients see of the system: the events that were accepted, and those that the workers are told
-- to deliver.
pub record Ledger : Type 0 where
  pub accepted : List Accepted
  pub told : List Accepted

-- What it may do: accept an event, or tell the workers of one that was accepted.
pub data Move (l : Ledger) : Ledger → Type 0 where
  accept : (x : Accepted) → Move l (record l { accepted = l.accepted ++ x ∷ [] })
  tell : (x : Accepted) → Has x l.accepted → Move l (record l { told = l.told ++ x ∷ [] })

-- Any number of moves.
pub data Moves : Ledger → Ledger → Type 0 where
  none : {l : Ledger} → Moves l l
  and_then : {l m n : Ledger} → Move l m → Moves m n → Moves l n

-- A pending row of the outbox carries the event, one that the publisher's query takes up.
abbrev pub Waiting : Accepted → List OutboxEvent → Type 0
Waiting x outbox =
    (o : OutboxEvent) × Has o outbox
    × (of_payload o.payload ≡ x)
    × (o.status ≡ OutboxStatus.pending)

-- A row that carries the event was given up: ten attempts to publish it failed.
abbrev pub GivenUp : Accepted → List OutboxEvent → Type 0
GivenUp x outbox =
    (o : OutboxEvent) × Has o outbox
    × (of_payload o.payload ≡ x)
    × (o.status ≡ OutboxStatus.failed)
    × (10 ≤ o.attempts)

status-cases :
    (status : OutboxStatus)
    → (status ≡ OutboxStatus.pending)
      ⊎ (status ≡ OutboxStatus.failed)
      ⊎ (status ≡ OutboxStatus.published)
status-cases OutboxStatus.pending = inl refl
status-cases OutboxStatus.failed = inr (inl refl)
status-cases OutboxStatus.published = inr (inr refl)

tell_each :
    (l : Ledger) (ms : List Message)
    → All (Genuine l.accepted) ms
    → Moves l (record l { told = l.told ++ map (λ m. of_payload m.payload) ms })
tell_each l [] h = rw (append-nil l.told) none
tell_each l (m ∷ ms) h =
    let x = of_payload m.payload in
    let rest = tell_each (record l { told = l.told ++ x ∷ [] }) ms h.1 in
    and_then (Move.tell x h.0)
      (rw (← append_assoc l.told (x ∷ []) (map (λ m. of_payload m.payload) ms)) rest)

map-append :
    (xs ys : List Message)
    → map (λ (m : Message). of_payload m.payload) (xs ++ ys)
      ≡ map (λ (m : Message). of_payload m.payload) xs ++ map (λ m. of_payload m.payload) ys
map-append [] ys = refl
map-append (x ∷ xs) ys = ap (◌∷◌ (of_payload x.payload)) (map-append xs ys)

accept_new :
    (l : Ledger) (ctx : AuthContext) (body : EventCreateRequest) (fresh : Fresh)
    (answer : Result ApiError ℕ)
    → Moves l (record l { accepted = l.accepted ++ newly_accepted ctx body fresh answer })
accept_new l ctx body fresh (err e) = rw (append-nil l.accepted) none
accept_new l ctx body fresh (ok event_id) = elim (Bool-cases (event_id == fresh.event_id)) [
  | inl new ↦ rw new (and_then (Move.accept (of_request ctx body event_id)) none)
  | inr old ↦ rw (old, append-nil l.accepted) none
]

module _ (b : MessageBroker) where
  abbrev pub view : State b → Ledger
  view s = record {
    accepted = s.accepted;
    told = map (λ m. of_payload m.payload) (b.entries s.stream);
  }

  abbrev pub IsConsistent : State b → Type 0
  IsConsistent s = Consistent s.accepted (b.entries s.stream) s.db

module _ (b : MessageBroker) (laws : Appends b) where
  Step-Consistent : (s t : State b) → Step b s t → IsConsistent b s → IsConsistent b t
  Step-Consistent s _ (Step.create settings ctx body fresh new unseen) c =
      create_event-Consistent s.accepted (b.entries s.stream) settings ctx body fresh s.db new
        unseen c
  Step-Consistent s _ (Step.replay ctx event_id fresh new) c =
      replay_event-Consistent s.accepted (b.entries s.stream) ctx event_id fresh s.db new c
  Step-Consistent s _ (Step.replay_dead ctx delivery_id fresh new) c =
      replay_dlq_entry-Consistent s.accepted (b.entries s.stream) ctx delivery_id fresh s.db new c
  Step-Consistent s _ (Step.administer max_length encrypt_secret ctx op) c =
      perform-Consistent s.accepted (b.entries s.stream) max_length encrypt_secret ctx op s.db c
  Step-Consistent s _ (Step.publish rounds batch_size i) c =
      poll-Consistent b laws s.accepted rounds batch_size i s.db s.stream c
  Step-Consistent s _ (Step.deliver settings codecs attempts m sent metrics h) c =
      process_outbox_payload-Consistent s.accepted s.db settings codecs attempts m.payload _
        (b.entries s.stream) refl c
  Step-Consistent s _ (Step.begin event_id) c =
      begin-Consistent s.accepted s.db event_id (b.entries s.stream) c
  Step-Consistent s _ (Step.deliver_one settings codecs a m endpoint_id sent metrics h) c =
      deliver_to_endpoint-Consistent s.accepted s.db settings codecs a m.payload.event_id
        endpoint_id 1 _ (b.entries s.stream) refl c
  Step-Consistent s _ (Step.requeue returns commits now) c =
      requeue_round-Consistent b laws s.accepted returns commits now s.db s.stream c
  Step-Consistent s _ (Step.clean settings now) c =
      cleanup_round-Consistent s.accepted (b.entries s.stream) settings now s.db c

  Reach-Consistent : (s t : State b) → Reach b s t → IsConsistent b s → IsConsistent b t
  Reach-Consistent s _ Reach.start c = c
  Reach-Consistent s t (Reach.next {t = u} r step) c =
      Step-Consistent u t step (Reach-Consistent s u r c)

  Grown-Moves :
      (s : State b) (stream' : b.State) (db' : Tables)
      → Grown b laws (Genuine s.accepted) s.stream stream'
      → Moves (view b s) (view b (record { db = db'; stream = stream'; accepted = s.accepted }))
  Grown-Moves s stream' db' g =
      rw (g.grown, map-append (b.entries s.stream) g.more) (tell_each (view b s) g.more g.wanted)

  -- Each step, from a consistent state, makes moves of the ledger.
  Step-Moves : (s t : State b) → Step b s t → IsConsistent b s → Moves (view b s) (view b t)
  Step-Moves s _ (Step.create settings ctx body fresh new unseen) c =
      accept_new (view b s) ctx body fresh _
  Step-Moves s _ (Step.replay ctx event_id fresh new) c = none
  Step-Moves s _ (Step.replay_dead ctx delivery_id fresh new) c = none
  Step-Moves s _ (Step.administer max_length encrypt_secret ctx op) c = none
  Step-Moves s _ (Step.publish rounds batch_size i) c =
      Grown-Moves s _ s.db (poll-Grown b laws s.accepted rounds batch_size i s.db s.stream c)
  Step-Moves s _ (Step.deliver settings codecs attempts m sent metrics h) c = none
  Step-Moves s _ (Step.begin event_id) c = none
  Step-Moves s _ (Step.deliver_one settings codecs a m endpoint_id sent metrics h) c = none
  Step-Moves s _ (Step.requeue returns commits now) c =
      Grown-Moves s _ s.db
        (requeue_round-Grown b laws s.accepted returns commits now s.db s.stream c)
  Step-Moves s _ (Step.clean settings now) c = none

-- Nothing has happened yet.
pub record Initial (b : MessageBroker) (s : State b) : Type 0 where
  pub outbox : s.db.outbox ≡ []
  pub events : s.db.events ≡ []
  pub keys : s.db.idempotency_keys ≡ []
  pub stream : b.entries s.stream ≡ []
  pub accepted : s.accepted ≡ []

Initial-Consistent : (b : MessageBroker) (s : State b) → Initial b s → IsConsistent b s
Initial-Consistent b s i = record {
  keyed = rw i.outbox tt;
  events = rw i.events tt;
  outbox = rw i.outbox tt;
  keys = rw i.keys tt;
  messages = rw i.stream tt;
  kept = rw i.accepted tt;
}

-- For a broker that appends what it accepts: from an initial state, after any steps of the API, the
-- publisher, the workers and the scheduler in any order, with whatever failures of the broker and of
-- commits, every event that a client has had accepted stands in a row of the outbox that is pending,
-- in a row that FAILED after at least ten attempts, or in a message of the stream.
pub Reach-Waiting :
    (b : MessageBroker) (s t : State b)
    → Appends b
    → Initial b s
    → Reach b s t
    → All
        (λ x. Waiting x t.db.outbox ⊎ GivenUp x t.db.outbox ⊎ Streamed x (b.entries t.stream))
        t.accepted
Reach-Waiting b s t laws i r =
    let c = Reach-Consistent b laws s t r (Initial-Consistent b s i) in
    All-map t.accepted
      (λ x k. elim k [
        | inl (o, m, e) ↦
            let recorded =
              All-Has (Recorded t.accepted (b.entries t.stream)) t.db.outbox c.outbox m in
            elim (status-cases o.status) [
              | inl p ↦ inl (o, m, e, p)
              | inr (inl p) ↦ inr (inl (o, m, e, p, recorded.gave_up p))
              | inr (inr p) ↦ inr (inr (message_of o, recorded.published p, e))
            ]
        | inr there ↦ inr (inr there)
      ])
      c.kept

-- For a broker that appends what it accepts, and from an initial state: each step that follows any
-- others makes, on the ledger of accepted events and of events that workers are told of, only moves
-- that the ledger allows. It accepts an event, or tells the workers of an event, with its tenant,
-- type, entity, sequence and content as they were accepted.
pub Reach-Moves :
    (b : MessageBroker) (s t u : State b)
    → Appends b
    → Initial b s
    → Reach b s t
    → Step b t u
    → Moves (view b t) (view b u)
Reach-Moves b s t u laws i r step =
    Step-Moves b laws t u step (Reach-Consistent b laws s t r (Initial-Consistent b s i))
