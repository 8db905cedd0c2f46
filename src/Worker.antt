-- ===== src/Worker.antt =====
-- apps/worker/eventmesh_worker: the outbox publisher, the delivery engine and the worker's loop.
pub mod OutboxPublisher
pub mod Process
pub mod Consumer
pub mod DeliveryEngine
