-- ===== src/System/Cleaning.antt =====
-- The cleanup keeps a state consistent: a row that it takes out of the outbox has its message in the
-- stream.
use eventmesh.Base.{
  ℕ, ◌≡◌, ◌⊎◌, inl, inr, false, ◌&&◌, not, List, any, select, Bool-cases, Has, All-map, All-Has,
  All-select, Keyed-select, Has-select_of, arith,
}
use eventmesh.Common.Enums.{OutboxStatus}
use eventmesh.Database.{OutboxEvent, Tables}
use eventmesh.Messaging.Broker.{Message}
use eventmesh.Worker.OutboxPublisher.{message_of}
use eventmesh.Scheduler.{
  RetentionSettings, keeps_outbox, keeps_event, keeps_key, before_events, cleanup_round,
  is_referenced,
}
use eventmesh.System.{Accepted, of_event}
use eventmesh.System.Consistent.{Consistent, Recorded, Names, Stored, Streamed}

module _ (accepted : List Accepted) (sent : List Message) where
  -- Only published rows go.
  gone_published :
      (settings : RetentionSettings) (now : ℕ) (o : OutboxEvent)
      → keeps_outbox settings now o ≡ false
      → o.status ≡ OutboxStatus.published
  gone_published settings now o h = ground arith

  kept_after :
      (settings : RetentionSettings) (now : ℕ) (db : Tables) (x : Accepted)
      → Consistent accepted sent db
      → Stored x db.outbox ⊎ Streamed x sent
      → Stored x (select (keeps_outbox settings now) db.outbox) ⊎ Streamed x sent
  kept_after settings now db x c (inr there) = inr there
  kept_after settings now db x c (inl (o, m, e)) = elim (Bool-cases (keeps_outbox settings now o)) [
    | inl stays ↦ inl (o, Has-select_of o (keeps_outbox settings now) db.outbox m stays, e)
    | inr goes ↦ inr (
      message_of o,
      (All-Has (Recorded accepted sent) db.outbox c.outbox m).published
          (gone_published settings now o goes),
      e,
    )
  ]

  before_events-Consistent :
      (settings : RetentionSettings) (now : ℕ) (db : Tables)
      → Consistent accepted sent db
      → Consistent accepted sent (record (before_events settings now db) {
        events = select (keeps_event settings now) db.events;
      })
  before_events-Consistent settings now db c = record {
    keyed = Keyed-select (λ (o : OutboxEvent). o.id) (keeps_outbox settings now) db.outbox c.keyed;
    events =
        All-select (λ e. Has (of_event e) accepted) (keeps_event settings now) db.events c.events;
    outbox = All-select (Recorded accepted sent) (keeps_outbox settings now) db.outbox c.outbox;
    keys = All-select (Names accepted) (keeps_key now) db.idempotency_keys c.keys;
    messages = c.messages;
    kept = All-map accepted (λ x k. kept_after settings now db x c k) c.kept;
  }

  pub cleanup_round-Consistent :
      (settings : RetentionSettings) (now : ℕ) (db : Tables)
      → Consistent accepted sent db
      → Consistent accepted sent (cleanup_round settings now db)
  unfolding cleanup_round
  cleanup_round-Consistent settings now db c =
      let view = before_events settings now db in
      elim (Bool-cases
        (any (λ e. not (keeps_event settings now e) && is_referenced view e) view.events)) [
          | inl blocked ↦ rw blocked c
          | inr free ↦ rw free (before_events-Consistent settings now db c)
        ]
