-- ===== src/Worker/Consumer.antt =====
-- apps/worker/eventmesh_worker/main.py: the handling of one message, over the broker's client.
pub mod Acknowledged
pub mod Loops
pub mod Pending
pub mod Published
mod Examples
use eventmesh.Base.{ℕ, List, Result, ok, err}
use eventmesh.Messaging.RedisStreams.{StreamMessage, StreamsClient, acknowledge}
use eventmesh.Worker.DeliveryEngine.{
  Settings, Codecs, Attempt, World, DeliveryOutcomeSummary, EngineError,
}
use eventmesh.Worker.DeliveryEngine.Deliver.{process_outbox_payload}

module _ (c : StreamsClient) where
  -- `_handle_message`, from the end of the processing on
  abbrev pub finish : Result EngineError (List DeliveryOutcomeSummary) → ℕ → c.State → c.State
  finish (err e) message_id s = s
  finish (ok summaries) message_id s = acknowledge c message_id s

  -- `_handle_message`: the broker and the world after it
  unfoldable pub handle_message :
      Settings → Codecs → (ℕ → Attempt) → StreamMessage → c.State × World → c.State × World
  handle_message settings codecs attempts msg (s, w) =
      let (r, w') = process_outbox_payload settings codecs attempts msg.fields.payload w in
      (finish r msg.message_id s, w')
