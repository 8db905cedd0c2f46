-- ===== src/System/Consistent.antt =====
-- What every reachable state satisfies, and the changes of a state that cannot break it.
use eventmesh.Base.{
  ◌≡◌, ◌≤◌, ◌≢◌, ◌⊎◌, inl, inr, List, [], ◌∷◌, ◌++◌, All, Has, Keyed, All-map, All-append,
  Has-append_left,
}
use eventmesh.Common.Enums.{OutboxStatus}
use eventmesh.Database.{OutboxEvent, IdempotencyKey, Tables}
use eventmesh.Messaging.Broker.{Message}
use eventmesh.Worker.OutboxPublisher.{message_of}
use eventmesh.System.{Accepted, of_event, of_payload}

-- Some row of the outbox carries the event.
abbrev pub Stored : Accepted → List OutboxEvent → Type 0
Stored x outbox = (o : OutboxEvent) × Has o outbox × (of_payload o.payload ≡ x)

-- Some message of the stream carries the event.
abbrev pub Streamed : Accepted → List Message → Type 0
Streamed x sent = (m : Message) × Has m sent × (of_payload m.payload ≡ x)

-- The row carries an accepted event; its message is in the stream if it says that it is published,
-- and ten attempts were made if it says that they failed.
pub record Recorded (accepted : List Accepted) (sent : List Message) (o : OutboxEvent)
    : Type 0 where
  pub genuine : Has (of_payload o.payload) accepted
  pub published : o.status ≡ OutboxStatus.published → Has (message_of o) sent
  pub gave_up : o.status ≡ OutboxStatus.failed → 10 ≤ o.attempts

-- The key names an accepted event of its tenant.
abbrev pub Names : List Accepted → IdempotencyKey → Type 0
Names accepted k =
    (x : Accepted) × Has x accepted × (x.event_id ≡ k.event_id) × (x.tenant_id ≡ k.tenant_id)

abbrev pub Genuine : List Accepted → Message → Type 0
Genuine accepted m = Has (of_payload m.payload) accepted

pub record Consistent (accepted : List Accepted) (sent : List Message) (db : Tables) : Type 0 where
  pub keyed : Keyed (λ (o : OutboxEvent). o.id) db.outbox
  pub events : All (λ e. Has (of_event e) accepted) db.events
  pub outbox : All (Recorded accepted sent) db.outbox
  pub keys : All (Names accepted) db.idempotency_keys
  pub messages : All (Genuine accepted) sent
  pub kept : All (λ x. Stored x db.outbox ⊎ Streamed x sent) accepted

pub Streamed-append :
    (x : Accepted) (sent more : List Message) → Streamed x sent → Streamed x (sent ++ more)
Streamed-append x sent more (m, h, e) = (m, Has-append_left m sent more h, e)

pub Stored-append :
    (x : Accepted) (outbox more : List OutboxEvent) → Stored x outbox → Stored x (outbox ++ more)
Stored-append x outbox more (o, h, e) = (o, Has-append_left o outbox more h, e)

pub Recorded-append :
    (accepted new : List Accepted) (sent more : List Message) (o : OutboxEvent)
    → Recorded accepted sent o
    → Recorded (accepted ++ new) (sent ++ more) o
Recorded-append accepted new sent more o r = record {
  genuine = Has-append_left _ accepted new r.genuine;
  published = λ e. Has-append_left _ sent more (r.published e);
  gave_up = r.gave_up;
}

-- More messages in the stream, each of an accepted event.
pub Consistent-send :
    (accepted : List Accepted) (sent more : List Message) (db : Tables)
    → All (Genuine accepted) more
    → Consistent accepted sent db
    → Consistent accepted (sent ++ more) db
Consistent-send accepted sent more db h c = record {
  keyed = c.keyed;
  events = c.events;
  outbox =
      All-map db.outbox
        (λ o r. record {
          genuine = r.genuine;
          published = λ e. Has-append_left _ sent more (r.published e);
          gave_up = r.gave_up;
        })
        c.outbox;
  keys = c.keys;
  messages = All-append (Genuine accepted) sent more c.messages h;
  kept =
      All-map accepted
        (λ x k. elim k [
          | inl there ↦ inl there
          | inr there ↦ inr (Streamed-append x sent more there)
        ])
        c.kept;
}

-- A change of the database that leaves the outbox and the keys, and what the events say.
pub Consistent-same_outbox :
    (accepted : List Accepted) (sent : List Message) (db db' : Tables)
    → db'.outbox ≡ db.outbox
    → db'.idempotency_keys ≡ db.idempotency_keys
    → All (λ e. Has (of_event e) accepted) db'.events
    → Consistent accepted sent db
    → Consistent accepted sent db'
Consistent-same_outbox accepted sent db db' o k e c = record {
  keyed = rw o c.keyed;
  events = e;
  outbox = rw o c.outbox;
  keys = rw k c.keys;
  messages = c.messages;
  kept = rw o c.kept;
}

pub Keyed-append :
    (outbox : List OutboxEvent) (o : OutboxEvent)
    → All (λ (p : OutboxEvent). p.id ≢ o.id) outbox
    → Keyed (λ (p : OutboxEvent). p.id) outbox
    → Keyed (λ (p : OutboxEvent). p.id) (outbox ++ o ∷ [])
Keyed-append [] o h k = (tt, tt)
Keyed-append (p ∷ ps) o h k = (
  All-append (λ (q : OutboxEvent). p.id ≢ q.id) ps (o ∷ []) k.0 (h.0, tt),
  Keyed-append ps o h.1 k.1,
)

-- One more row of the outbox, of an accepted event and under a new id, that is pending.
pub Consistent-add :
    (accepted : List Accepted) (sent : List Message) (db : Tables) (o : OutboxEvent)
    → All (λ (p : OutboxEvent). p.id ≢ o.id) db.outbox
    → Has (of_payload o.payload) accepted
    → o.status ≡ OutboxStatus.pending
    → Consistent accepted sent db
    → Consistent accepted sent (record db { outbox = db.outbox ++ o ∷ [] })
Consistent-add accepted sent db o fresh h p c = record {
  keyed = Keyed-append db.outbox o fresh c.keyed;
  events = c.events;
  outbox =
      All-append (Recorded accepted sent) db.outbox (o ∷ []) c.outbox
        (record { genuine = h; published = λ e. cc (p, e); gave_up = λ e. cc (p, e) }, tt);
  keys = c.keys;
  messages = c.messages;
  kept =
      All-map accepted
        (λ x k. elim k [
          | inl there ↦ inl (Stored-append x db.outbox _ there)
          | inr there ↦ inr there
        ])
        c.kept;
}
