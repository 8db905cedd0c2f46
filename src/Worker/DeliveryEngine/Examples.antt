-- ===== src/Worker/DeliveryEngine/Examples.antt =====
-- The engine on a small database, with an endpoint that answers 500.
use eventmesh.Base.{none, ◌↔◌, Has, ◌≡◌, ◌≢◌, refl, ◌⊎◌, [], ◌∷◌, All, arith}
use eventmesh.Common.Enums.{DeliveryStatus}
use eventmesh.Common.Classify.{classify_response, classify_status}
use eventmesh.Common.Ssrf.Sample.{hook_url_accepted}
use eventmesh.Database.{Endpoint, Delivery}
use eventmesh.Database.Sample.{tables, order_payload}
use eventmesh.Worker.DeliveryEngine.{Request}
use eventmesh.Worker.DeliveryEngine.Deliver.{deliver_to_endpoint, process_outbox_payload}
use eventmesh.Worker.DeliveryEngine.Circuit.{AllClosed, process_outbox_payload-AllClosed}
use eventmesh.Worker.DeliveryEngine.Retries.{process_outbox_payload-never_exhausted}
use eventmesh.Worker.DeliveryEngine.Sending.{IsProper, deliver_to_endpoint_sends}
use eventmesh.Worker.DeliveryEngine.Resolve.{resolve_endpoints}
use eventmesh.Worker.DeliveryEngine.Resolving.{Subscribes, resolve_endpoints_iff}
use eventmesh.Worker.DeliveryEngine.Sample.{settings, codecs, failing, world}

process_outbox_payload-AllClosed_example :
    AllClosed (process_outbox_payload settings codecs failing order_payload world).1.db.endpoints
process_outbox_payload-AllClosed_example =
    process_outbox_payload-AllClosed settings codecs failing order_payload world (omega arith)
      (refl, tt)

process_outbox_payload-never_exhausted_example :
    All
      (λ (d : Delivery). d.status ≢ DeliveryStatus.dlq)
      (process_outbox_payload settings codecs failing order_payload world).1.db.deliveries
unfolding classify_response classify_status
process_outbox_payload-never_exhausted_example =
    process_outbox_payload-never_exhausted settings codecs failing order_payload world (omega arith)
      ((λ i. hook_url_accepted), tt) (λ i status result e f. cc (e, f)) ((λ e. cc e), tt)

deliver_to_endpoint_sends_example :
    ((deliver_to_endpoint settings codecs (failing 0) 7 3 1 world).1.sent ≡ [])
    ⊎ ((r : Request) × ((deliver_to_endpoint settings codecs (failing 0) 7 3 1 world).1.sent
          ≡ r ∷ [])
        × IsProper settings codecs (failing 0) 3 world r)
deliver_to_endpoint_sends_example =
    deliver_to_endpoint_sends settings codecs (failing 0) 7 3 1 world

resolve_endpoints_iff_example :
    Has 3 (resolve_endpoints 1 "order.created" none tables)
    ↔ ((ep : Endpoint) × Subscribes 1 "order.created" tables ep × (ep.id ≡ 3))
resolve_endpoints_iff_example = resolve_endpoints_iff 1 "order.created" tables 3
