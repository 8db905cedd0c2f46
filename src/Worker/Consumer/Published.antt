-- ===== src/Worker/Consumer/Published.antt =====
-- From the publisher's call to the end of the processing: what becomes of a published message.
use eventmesh.Base.{
  ℕ, ◌≡◌, refl, ◌⊎◌, inl, inr, List, [], ◌∷◌, ◌++◌, All, All-append, All-map, Has, Result, ok, err,
}
use eventmesh.Messaging.Broker.{Message}
use eventmesh.Messaging.RedisStreams.{
  RedisError, StreamMessage, StreamsClient, KeepsPending, KeepsUnread, publish, consume,
  claim_stale, acknowledge,
}
use eventmesh.Worker.DeliveryEngine.{DeliveryOutcomeSummary, EngineError}
use eventmesh.Worker.DeliveryEngine.Deliver.{process_outbox_payload}
use eventmesh.Worker.Consumer.{finish, handle_message}
use eventmesh.Worker.Consumer.Loops.{
  WorkerState, WorkerStep, consumed, consume_round, recovered, recovery_round, complete,
}
use eventmesh.Worker.Consumer.Pending.{Safe, finish-Safe}

-- The ids that publishing a message adds to those that were published.
abbrev pub published_by : Result RedisError ℕ → List ℕ
published_by (err e) = []
published_by (ok message_id) = message_id ∷ []

-- Not handed out yet, or pending, or processed without an exception.
abbrev pub Kept : (unread pending processed : List ℕ) → ℕ → Type 0
Kept unread pending processed i = Has i unread ⊎ Safe pending processed i

module _ (c : StreamsClient) where
  -- A worker, and the ids that calls of `publish` have returned.
  pub record Chain : Type 0 where
    pub worker : WorkerState c
    pub published : List ℕ

  abbrev pub after_publish : Message → Chain → Chain
  after_publish m s =
      let (r, stream') = publish c m s.worker.stream in
      record {
        worker = record (s.worker) { stream = stream' };
        published = s.published ++ published_by r;
      }

  -- The publisher or the scheduler publishes a message, or the worker takes a step.
  pub data ChainStep (s : Chain) : Chain → Type 0 where
    publishes : (m : Message) → ChainStep s (after_publish m s)
    works : {w : WorkerState c} → WorkerStep c s.worker w → ChainStep s (record s { worker = w })

  pub data ChainReach (s : Chain) : Chain → Type 0 where
    start : ChainReach s s
    next : {t u : Chain} → ChainReach s t → ChainStep t u → ChainReach s u

  module _ (unread : c.State → List ℕ) where
    abbrev pub KeptIn : WorkerState c → ℕ → Type 0
    KeptIn w = Kept (unread w.stream) (c.pending w.stream) w.processed

    consumed-KeptIn :
        (r : Result RedisError (List StreamMessage)) (w : WorkerState c) (i : ℕ)
        → KeptIn w i
        → KeptIn (consumed c r w).1 i
    consumed-KeptIn (err e) w i h = h
    consumed-KeptIn (ok messages) w i h = h

    recovered-KeptIn :
        (r : Result RedisError (List StreamMessage)) (w : WorkerState c) (i : ℕ)
        → KeptIn w i
        → KeptIn (recovered c r w) i
    recovered-KeptIn (err e) w i h = h
    recovered-KeptIn (ok messages) w i h = h

    module _ (laws : KeepsPending c) (more : KeepsUnread c unread) where
      finish_unread :
          (r : Result EngineError (List DeliveryOutcomeSummary)) (message_id i : ℕ) (s : c.State)
          → Has i (unread s)
          → Has i (unread (finish c r message_id s))
      unfolding acknowledge
      finish_unread (err e) message_id i s h = h
      finish_unread (ok ss) message_id i s h = more.ack_unread message_id i s h

      WorkerStep-KeptIn : (w v : WorkerState c) (i : ℕ) → WorkerStep c w v → KeptIn w i → KeptIn v i
      unfolding consume_round recovery_round complete handle_message consume claim_stale
      WorkerStep-KeptIn w _ i (WorkerStep.read count) h =
          consumed-KeptIn (consume c count w.stream).0 _ i (elim h [
            | inl new ↦ elim (more.read_moves count i w.stream new) [
              | inl still ↦ inl still
              | inr handed ↦ inr (inl handed)
            ]
            | inr (inl there) ↦ inr (inl (laws.read_keeps count i w.stream there))
            | inr (inr done) ↦ inr (inr done)
          ])
      WorkerStep-KeptIn w _ i (WorkerStep.recover min_idle_ms) h =
          recovered-KeptIn (claim_stale c min_idle_ms 50 w.stream).0 _ i (elim h [
            | inl new ↦ inl (more.claim_unread min_idle_ms 50 i w.stream new)
            | inr (inl there) ↦ inr (inl (laws.claim_keeps min_idle_ms 50 i w.stream there))
            | inr (inr done) ↦ inr (inr done)
          ])
      WorkerStep-KeptIn w _ i (WorkerStep.handle settings codecs attempts before msg after q) h =
          let r = (process_outbox_payload settings codecs attempts msg.fields.payload w.world).0 in
          elim h [
            | inl new ↦ inl (finish_unread r msg.message_id i w.stream new)
            | inr handed ↦ inr (finish-Safe c laws r msg.message_id i w.stream w.processed handed)
          ]
      WorkerStep-KeptIn w _ i WorkerStep.crash h = h

      publish-KeptIn :
          (m : Message) (s : Chain) (i : ℕ)
          → KeptIn s.worker i
          → KeptIn (after_publish m s).worker i
      unfolding publish
      publish-KeptIn m s i (inl new) = inl (more.add_keeps m i s.worker.stream new)
      publish-KeptIn m s i (inr (inl there)) =
          inr (inl (more.add_pending m i s.worker.stream there))
      publish-KeptIn m s i (inr (inr done)) = inr (inr done)

      published-KeptIn :
          (m : Message) (s : Chain) (r : Result RedisError ℕ)
          → (c.xadd m s.worker.stream).0 ≡ r
          → All (KeptIn (after_publish m s).worker) (published_by r)
      unfolding publish
      published-KeptIn m s (err e) q = tt
      published-KeptIn m s (ok i) q = (inl (more.added m s.worker.stream i q), tt)

      ChainStep-KeptIn :
          (s t : Chain)
          → ChainStep s t
          → All (KeptIn s.worker) s.published
          → All (KeptIn t.worker) t.published
      unfolding publish
      ChainStep-KeptIn s _ (publishes m) h =
          All-append (KeptIn (after_publish m s).worker) s.published _
            (All-map s.published (λ i k. publish-KeptIn m s i k) h) (published-KeptIn m s _ refl)
      ChainStep-KeptIn s _ (works {w} step) h =
          All-map s.published (λ i k. WorkerStep-KeptIn s.worker w i step k) h

-- For a server that keeps its unread and its pending entries as documented: from a state in which
-- nothing has been published, and after any calls of `publish`, rounds of the worker's loops, handlings
-- of messages and crashes, in any order and with whatever errors of the server: every message whose
-- publishing returned is not handed out yet, or is pending, so that it may be claimed again, or the
-- processing of its payload has ended without an exception.
pub ChainReach-Kept :
    (c : StreamsClient) (unread : c.State → List ℕ) (s t : Chain c)
    → KeepsPending c
    → KeepsUnread c unread
    → s.published ≡ []
    → ChainReach c s t
    → All (Kept (unread t.worker.stream) (c.pending t.worker.stream) t.worker.processed) t.published
ChainReach-Kept c unread s _ laws more e start = rw e tt
ChainReach-Kept c unread s t laws more e (next {t = u} reach step) =
    ChainStep-KeptIn c unread laws more u t step (ChainReach-Kept c unread s u laws more e reach)
