-- ===== src/Worker/Consumer/Examples.antt =====
-- One message of a small stream.
use eventmesh.Base.{◌≡◌, refl, subst, inl, none, List, [], ◌∷◌, map, ◌⊎◌, ok, Has, All, ◌++◌}
use eventmesh.Common.CircuitBreaker.{allow_request}
use eventmesh.Common.Ssrf.{
  validate_webhook_url, check_hostname, check_addresses, reject_any_unsafe, reject_if_unsafe,
  is_internal,
}
use eventmesh.Database.{get_event}
use eventmesh.Database.Sample.{tables, order_payload}
use eventmesh.Messaging.Broker.{Message, Origin}
use eventmesh.Messaging.RedisStreams.{StreamMessage, acknowledge, consume}
use eventmesh.Messaging.RedisStreams.Sample.{
  Streams, server, unread_ids, server-KeepsPending, server-KeepsUnread,
}
use eventmesh.Worker.Consumer.{handle_message}
use eventmesh.Worker.Consumer.Loops.{
  WorkerState, WorkerStep, consume_round, recovery_round, complete,
}
use eventmesh.Worker.Consumer.Published.{
  Chain, ChainReach, start, next, publishes, works, after_publish, Kept, ChainReach-Kept,
}
use eventmesh.Worker.Consumer.Acknowledged.{handle_message_acknowledged}
use eventmesh.Worker.DeliveryEngine.{DeliveryOutcomeSummary, load_circuit_breaker}
use eventmesh.Worker.DeliveryEngine.Resolve.{resolve_endpoints}
use eventmesh.Worker.DeliveryEngine.Settle.{settle}
use eventmesh.Worker.DeliveryEngine.Deliver.{
  post, send, check_and_send, attempt_delivery, deliver_loaded, deliver_to_endpoint, deliver_all,
  fan_out, process_loaded, process_outbox_payload,
}
use eventmesh.Worker.DeliveryEngine.Sample.{settings, codecs, failing, world}

abbrev message : Message
message = record { outbox_id = Origin.outbox 5; payload = order_payload }

abbrev delivered : StreamMessage
delivered = record { message_id = 5; fields = message }

-- The message is handed out, and then handled.
abbrev pending_one : Streams
pending_one = ([], (5, message) ∷ [])

nothing_pending :
    server.pending (handle_message server settings codecs failing delivered (pending_one, world)).0
    ≡ []
unfolding handle_message acknowledge process_outbox_payload process_loaded resolve_endpoints fan_out
    deliver_all deliver_to_endpoint deliver_loaded attempt_delivery check_and_send send post settle
    allow_request load_circuit_breaker validate_webhook_url check_hostname check_addresses
    reject_any_unsafe reject_if_unsafe is_internal
nothing_pending = refl

handle_message_acknowledged_example :
    (get_event 7 tables ≡ none)
    ⊎ ((ss : List DeliveryOutcomeSummary) × ((process_outbox_payload settings codecs failing
            order_payload world).0
          ≡ ok ss)
        × (map (λ (s : DeliveryOutcomeSummary). s.endpoint_id) ss
            ≡ resolve_endpoints order_payload.tenant_id order_payload.event_type
                order_payload.target_endpoint_id tables))
handle_message_acknowledged_example =
    handle_message_acknowledged server settings codecs failing delivered pending_one world
      (inl refl) (λ h. subst (Has 5) nothing_pending h)

abbrev first : WorkerState server
first = record {
  stream = ((5, message) ∷ (6, message) ∷ [], []);
  world = world;
  inflight = [];
  handed_out = [];
  processed = [];
}

abbrev busy : WorkerState server
busy = (consume_round server 10 first).1

two_tasks : busy.inflight ≡ [] ++ delivered ∷ record { message_id = 6; fields = message } ∷ []
unfolding consume_round consume
two_tasks = refl

abbrev half_done : WorkerState server
half_done =
    complete server settings codecs failing [] delivered
      (record { message_id = 6; fields = message } ∷ []) busy

abbrev crashed : WorkerState server
crashed = record half_done { inflight = [] }

-- A third message is published while the worker is busy; then the worker crashes.
abbrev idle_chain : Chain server
idle_chain = record { worker = first; published = [] }

abbrev published_one : Chain server
published_one = after_publish server message (record idle_chain { worker = half_done })

abbrev recovered_chain : Chain server
recovered_chain = record published_one {
  worker = recovery_round server 60000 (record (published_one.worker) { inflight = [] });
}

recovered_chain_reached : ChainReach server idle_chain recovered_chain
recovered_chain_reached =
    next
      (next
        (next
          (next (next start (works (WorkerStep.read 10))) (
            works (
              WorkerStep.handle settings codecs failing [] delivered
                (record { message_id = 6; fields = message } ∷ []) two_tasks)))
          (publishes message))
        (works WorkerStep.crash))
      (works (WorkerStep.recover 60000))

ChainReach-Kept_example :
    All
      (Kept
        (unread_ids recovered_chain.worker.stream)
        (server.pending recovered_chain.worker.stream)
        recovered_chain.worker.processed)
      recovered_chain.published
ChainReach-Kept_example =
    ChainReach-Kept server unread_ids idle_chain recovered_chain server-KeepsPending
      server-KeepsUnread refl recovered_chain_reached
