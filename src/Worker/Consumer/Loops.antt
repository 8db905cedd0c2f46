-- ===== src/Worker/Consumer/Loops.antt =====
-- apps/worker/eventmesh_worker/main.py: the rounds of the consuming loop and of the recovery loop. A
-- task that was created and has not ended is an element of `inflight`; tasks end in any order, each
-- one's handling in one step. The last two fields are what an observer notes: the ids of the messages
-- that were handed out to workers, and of those that were processed without an exception.
use eventmesh.Base.{ℕ, ◌≡◌, List, [], ◌∷◌, ◌++◌, map, Result, ok, err}
use eventmesh.Messaging.RedisStreams.{
  RedisError, StreamMessage, StreamsClient, consume, claim_stale,
}
use eventmesh.Worker.DeliveryEngine.{
  Settings, Codecs, Attempt, World, DeliveryOutcomeSummary, EngineError,
}
use eventmesh.Worker.DeliveryEngine.Deliver.{process_outbox_payload}
use eventmesh.Worker.Consumer.{handle_message}

abbrev pub ids_of : List StreamMessage → List ℕ
ids_of = map λ (m : StreamMessage). m.message_id

-- What the processing of a message adds to those that were processed.
abbrev pub processed_by : Result EngineError (List DeliveryOutcomeSummary) → ℕ → List ℕ
processed_by (err e) message_id = []
processed_by (ok summaries) message_id = message_id ∷ []

module _ (c : StreamsClient) where
  pub record WorkerState : Type 0 where
    pub stream : c.State
    pub world : World
    pub inflight : List StreamMessage
    pub handed_out : List ℕ
    pub processed : List ℕ

  -- `for msg in messages: task = asyncio.create_task(…); self._inflight.add(task)`
  abbrev pub spawn : List StreamMessage → WorkerState → WorkerState
  spawn messages s = record s {
    inflight = s.inflight ++ messages;
    handed_out = s.handed_out ++ ids_of messages;
  }

  abbrev pub consumed :
      Result RedisError (List StreamMessage)
      → WorkerState
      → Result RedisError (Unit {0}) × WorkerState
  consumed (err e) s = (err e, s)
  consumed (ok messages) s = (ok tt, spawn messages s)

  -- One pass of `while not self._shutdown.is_set()`; an error leaves the loop.
  unfoldable pub consume_round : ℕ → WorkerState → Result RedisError (Unit {0}) × WorkerState
  consume_round count s =
      let (r, stream') = consume c count s.stream in consumed r (record s { stream = stream' })

  abbrev pub recovered : Result RedisError (List StreamMessage) → WorkerState → WorkerState
  recovered (err e) s = s
  recovered (ok claimed) s = spawn claimed s

  -- One pass of `_recovery_loop`, whose errors are logged; `claim_stale` claims 50 at most.
  unfoldable pub recovery_round : ℕ → WorkerState → WorkerState
  recovery_round min_idle_ms s =
      let (r, stream') = claim_stale c min_idle_ms 50 s.stream in
      recovered r (record s { stream = stream' })

  -- A task of `_handle_message` runs, and `add_done_callback` discards it.
  unfoldable pub complete :
      Settings
      → Codecs
      → (ℕ → Attempt)
      → List StreamMessage
      → StreamMessage
      → List StreamMessage
      → WorkerState
      → WorkerState
  complete settings codecs attempts before msg after s =
      let r = (process_outbox_payload settings codecs attempts msg.fields.payload s.world).0 in
      let (stream', world') = handle_message c settings codecs attempts msg (s.stream, s.world) in
      record {
        stream = stream';
        world = world';
        inflight = before ++ after;
        handed_out = s.handed_out;
        processed = s.processed ++ processed_by r msg.message_id;
      }

  -- What may happen to a worker; after a crash or a shutdown another one begins without tasks.
  pub data WorkerStep (s : WorkerState) : WorkerState → Type 0 where
    read : (count : ℕ) → WorkerStep s (consume_round count s).1
    recover : (min_idle_ms : ℕ) → WorkerStep s (recovery_round min_idle_ms s)
    handle :
        (settings : Settings) (codecs : Codecs) (attempts : ℕ → Attempt)
        (before : List StreamMessage) (msg : StreamMessage) (after : List StreamMessage)
        → s.inflight ≡ before ++ msg ∷ after
        → WorkerStep s (complete settings codecs attempts before msg after s)
    crash : WorkerStep s (record s { inflight = [] })

  pub data WorkerReach (s : WorkerState) : WorkerState → Type 0 where
    start : WorkerReach s s
    next : {t u : WorkerState} → WorkerReach s t → WorkerStep t u → WorkerReach s u
