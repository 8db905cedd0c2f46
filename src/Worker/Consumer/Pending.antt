-- ===== src/Worker/Consumer/Pending.antt =====
-- At-least-once processing of the messages that workers are handed.
use eventmesh.Base.{
  ℕ, ◌≡◌, ◌⊎◌, inl, inr, Bool-cases, List, [], ◌∷◌, ◌++◌, ◌==◌, ==_iff, All, All-map, All-append,
  Has, Has-append_left, Has-append_right, Result, ok, err, arith,
}
use eventmesh.Messaging.RedisStreams.{
  RedisError, StreamMessage, StreamsClient, KeepsPending, ArePending, consume, acknowledge,
  claim_stale,
}
use eventmesh.Worker.DeliveryEngine.{DeliveryOutcomeSummary, EngineError}
use eventmesh.Worker.DeliveryEngine.Deliver.{process_outbox_payload}
use eventmesh.Worker.Consumer.{finish, handle_message}
use eventmesh.Worker.Consumer.Loops.{
  WorkerState, WorkerStep, WorkerReach, ids_of, processed_by, spawn, consumed, consume_round,
  recovered, recovery_round, complete,
}

-- The message may be handed out again, or its processing ended without an exception.
abbrev pub Safe : (pending processed : List ℕ) → ℕ → Type 0
Safe pending processed i = Has i pending ⊎ Has i processed

module _ (c : StreamsClient) (laws : KeepsPending c) where
  abbrev AllSafe : WorkerState c → Type 0
  AllSafe s = All (Safe (c.pending s.stream) s.processed) s.handed_out

  ids_pending :
      (pending processed : List ℕ) (messages : List StreamMessage)
      → All (λ (m : StreamMessage). Has m.message_id pending) messages
      → All (Safe pending processed) (ids_of messages)
  ids_pending pending processed [] h = tt
  ids_pending pending processed (m ∷ ms) h = (inl h.0, ids_pending pending processed ms h.1)

  spawn-AllSafe :
      (messages : List StreamMessage) (s : WorkerState c)
      → All (λ (m : StreamMessage). Has m.message_id (c.pending s.stream)) messages
      → AllSafe s
      → AllSafe (spawn c messages s)
  spawn-AllSafe messages s p h =
      All-append (Safe (c.pending s.stream) s.processed) s.handed_out (ids_of messages) h
        (ids_pending (c.pending s.stream) s.processed messages p)

  consumed-AllSafe :
      (r : Result RedisError (List StreamMessage)) (s : WorkerState c)
      → ArePending (c.pending s.stream) r
      → AllSafe s
      → AllSafe (consumed c r s).1
  consumed-AllSafe (err e) s p h = h
  consumed-AllSafe (ok messages) s p h = spawn-AllSafe messages s p h

  recovered-AllSafe :
      (r : Result RedisError (List StreamMessage)) (s : WorkerState c)
      → ArePending (c.pending s.stream) r
      → AllSafe s
      → AllSafe (recovered c r s)
  recovered-AllSafe (err e) s p h = h
  recovered-AllSafe (ok messages) s p h = spawn-AllSafe messages s p h

  pub finish-Safe :
      (r : Result EngineError (List DeliveryOutcomeSummary)) (message_id i : ℕ) (s : c.State)
      (processed : List ℕ)
      → Safe (c.pending s) processed i
      → Safe (c.pending (finish c r message_id s)) (processed ++ processed_by r message_id) i
  unfolding acknowledge
  finish-Safe r message_id i s processed (inr done) = inr (Has-append_left i processed _ done)
  finish-Safe (err e) message_id i s processed (inl there) = inl there
  finish-Safe (ok ss) message_id i s processed (inl there) = elim (Bool-cases (i == message_id)) [
    | inl same ↦ inr (Has-append_right i processed _ (inl ((==_iff i message_id).0 same)))
    | inr other ↦ inl (laws.ack_keeps message_id i s (ground (arith, ==_iff i message_id)) there)
  ]

  WorkerStep-AllSafe : (s t : WorkerState c) → WorkerStep c s t → AllSafe s → AllSafe t
  unfolding consume_round recovery_round complete handle_message consume claim_stale
  WorkerStep-AllSafe s _ (WorkerStep.read count) h =
      consumed-AllSafe (consume c count s.stream).0 _ (laws.read count s.stream) (
        All-map s.handed_out
          (λ i k. elim k [
            | inl there ↦ inl (laws.read_keeps count i s.stream there)
            | inr done ↦ inr done
          ])
          h)
  WorkerStep-AllSafe s _ (WorkerStep.recover min_idle_ms) h =
      recovered-AllSafe (claim_stale c min_idle_ms 50 s.stream).0 _
        (laws.claimed min_idle_ms 50 s.stream)
        (All-map s.handed_out
          (λ i k. elim k [
            | inl there ↦ inl (laws.claim_keeps min_idle_ms 50 i s.stream there)
            | inr done ↦ inr done
          ])
          h)
  WorkerStep-AllSafe s _ (WorkerStep.handle settings codecs attempts before msg after q) h =
      All-map s.handed_out
        (λ i k.
          finish-Safe (process_outbox_payload settings codecs attempts msg.fields.payload s.world).0
            msg.message_id i s.stream s.processed k)
        h
  WorkerStep-AllSafe s _ WorkerStep.crash h = h

-- For a server that keeps its pending entries as documented: from a state in which no message has
-- been handed out, and after any rounds of the consuming and the recovery loop, handlings of
-- messages and crashes, in any order and with whatever errors of the server: every message that was
-- ever handed to a worker is pending still, so that it may be claimed again, or the processing of its
-- payload has ended without an exception.
pub WorkerReach-Safe :
    (c : StreamsClient) (s t : WorkerState c)
    → KeepsPending c
    → s.handed_out ≡ []
    → WorkerReach c s t
    → All (Safe (c.pending t.stream) t.processed) t.handed_out
WorkerReach-Safe c s _ laws e WorkerReach.start = rw e tt
WorkerReach-Safe c s t laws e (WorkerReach.next {t = u} r step) =
    WorkerStep-AllSafe c laws u t step (WorkerReach-Safe c s u laws e r)
