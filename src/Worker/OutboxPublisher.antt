-- ===== src/Worker/OutboxPublisher.antt =====
-- apps/worker/eventmesh_worker/outbox_publisher.py. The broker is a parameter; the rows that other
-- replicas have locked are an argument. A batch works on its session's view of the database, which
-- becomes the database if the commit is reached.
pub mod Batch
pub mod Progress
mod Examples
use eventmesh.Base.{
  ℕ, zero, suc, ◌+◌, Bool, true, false, ◌&&◌, not, Option, none, some, List, [], ◌∷◌, ◌==◌, leb,
  if◌then◌else◌, length, take, select, order_by, is_some, Result, ok, err,
}
use eventmesh.Common.Enums.{EventStatus, OutboxStatus}
use eventmesh.Database.{Event, OutboxEvent, Tables, get_event, set_event, set_outbox}
use eventmesh.Messaging.Broker.{Message, MessageBroker, Origin}

-- `OutboxEvent.status == OutboxStatus.PENDING.value`
abbrev pub is_pending : OutboxStatus → Bool
is_pending OutboxStatus.pending = true
is_pending OutboxStatus.published = false
is_pending OutboxStatus.failed = false

-- The rows that the batch's query returns.
unfoldable pub due_rows : (ℕ → Bool) → ℕ → Tables → List OutboxEvent
due_rows locked batch_size db = take batch_size (
    order_by (λ (o : OutboxEvent). o.created_at)
      (select (λ o. is_pending o.status && not (locked o.id)) db.outbox))

-- The message of a row.
abbrev pub message_of : OutboxEvent → Message
message_of row = record { outbox_id = Origin.outbox row.id; payload = row.payload }

-- `row.status = PUBLISHED; row.published_at = utcnow()`
abbrev pub mark_published : ℕ → OutboxEvent → OutboxEvent
mark_published now row = record row { status = OutboxStatus.published; published_at = some now }

-- `if event is not None and event.status == RECEIVED: event.status = QUEUED`
abbrev pub mark_queued : Event → Event
mark_queued event = elim event.status [
  | EventStatus.received ↦ record event { status = EventStatus.queued }
  | _ ↦ event
]

-- `row.attempts += 1; row.status = FAILED if row.attempts >= 10 else PENDING`
abbrev pub count_attempt : OutboxEvent → OutboxEvent
count_attempt row = record row {
  attempts = row.attempts + 1;
  status = if leb 10 (row.attempts + 1) then OutboxStatus.failed else OutboxStatus.pending;
}

-- What `await` is applied to: a coroutine that a call returned, or the method itself.
pub data Operand : Type 0 where
  coroutine bound_method : Operand

pub data PythonError : Type 0 where
  type_error : PythonError

-- `await` takes an awaitable; a bound method is none.
abbrev pub await_value : Operand → Result PythonError (Unit {0})
await_value Operand.coroutine = ok tt
await_value Operand.bound_method = err PythonError.type_error

-- The operand of the first `await` in `run_forever`: `self._broker.ensure_group`, not called.
abbrev pub first_awaited : Operand
first_awaited = Operand.bound_method

-- What the rounds of the loop meet: the clock, the locks of other replicas, whether `stop` has been
-- called, and whether the commit is reached.
pub record Rounds : Type 0 where
  pub clock : ℕ → ℕ
  pub locked : ℕ → ℕ → Bool
  pub running : ℕ → Bool
  pub commits : ℕ → Bool

module _ (b : MessageBroker) where
  open b use {State, publish}

  -- One row of the batch's loop, with its `try` and `except`.
  unfoldable pub publish_row : ℕ → OutboxEvent → Tables × State → Tables × State
  publish_row now row (db, s) =
      let (returned, s') = publish (message_of row) s in
      (
        if returned
            then set_event row.event_id mark_queued (set_outbox row.id (mark_published now) db)
            else set_outbox row.id count_attempt db,
        s',
      )

  unfoldable pub publish_rows : ℕ → List OutboxEvent → Tables × State → Tables × State
  publish_rows now [] view = view
  publish_rows now (row ∷ rows) view = publish_rows now rows (publish_row now row view)

  -- `_publish_batch` up to its commit: the number of rows, the session's view, and the broker.
  unfoldable pub publish_batch : (ℕ → Bool) → ℕ → ℕ → Tables × State → ℕ × Tables × State
  publish_batch locked batch_size now (db, s) =
      let rows = due_rows locked batch_size db in
      let (db', s') = publish_rows now rows (db, s) in (length rows, db', s')

  -- One round of `while self._running`: a commit that is not reached leaves the database as it was.
  unfoldable pub poll : Rounds → ℕ → ℕ → Tables × State → Tables × State
  poll rounds batch_size i (db, s) =
      let (_, db', s') = publish_batch (rounds.locked i) batch_size (rounds.clock i) (db, s) in
      (if rounds.commits i then db' else db, s')

  -- The loop, for at most `fuel` rounds from round `i` on.
  unfoldable pub poll_loop : Rounds → ℕ → ℕ → ℕ → Tables × State → Tables × State
  poll_loop rounds batch_size zero i view = view
  poll_loop rounds batch_size (suc fuel) i view =
      let rest = poll_loop rounds batch_size fuel (suc i) (poll rounds batch_size i view) in
      if rounds.running i then rest else view

  unfoldable pub run_forever :
      Rounds → ℕ → ℕ → Tables × State → Result PythonError (Unit {0}) × Tables × State
  run_forever rounds batch_size fuel (db, s) = elim (await_value first_awaited) [
    | ok _ ↦ let (db', s') = poll_loop rounds batch_size fuel 0 (db, s) in (ok tt, db', s')
    | err e ↦ (err e, db, s)
  ]
