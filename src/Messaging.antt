-- ===== src/Messaging.antt =====
-- packages/messaging/eventmesh_messaging/broker.py: the interface of the message broker.
pub mod Broker
pub mod RedisStreams
pub mod Sample
