-- ===== src/Lib.antt =====
-- EventMesh: a webhook delivery service with at-least-once delivery, in Python. An API stores each
-- event together with an outbox row; the publisher moves outbox rows to a Redis stream; the worker
-- delivers each stream message to the endpoints subscribed to its event; the scheduler puts failed
-- deliveries back on the stream when their retry is due, and deletes old rows.
--
-- Which file models which part (paths from the repository's root):
--   Common.Enums            packages/common/eventmesh_common/enums.py
--   Common.CircuitBreaker   packages/common/eventmesh_common/circuit_breaker.py: each method is a
--                           function from the breaker (and the clock reading) to the breaker after it
--   Common.Retry            packages/common/eventmesh_common/retry.py: `next_delay_seconds`
--   Common.Classify         packages/common/eventmesh_common/classify.py: `classify_response`
--   Common.Ssrf             packages/common/eventmesh_common/ssrf.py: `validate_webhook_url`
--   Auth.Signature          packages/auth/eventmesh_auth/signature.py: `build_signature_header`;
--                           the child Verify has `verify_signature_header`
--   Auth.Keys               the API keys of the same file
--   Database                packages/database/eventmesh_database/models.py: a record for each table;
--                           `Tables` is the whole database
--   Messaging.Broker        packages/messaging/eventmesh_messaging/broker.py: the broker, a parameter
--   Messaging.RedisStreams  `RedisStreamsBroker` of the same file; its child Publishing makes a
--                           broker of it
--   Worker.OutboxPublisher  apps/worker/eventmesh_worker/outbox_publisher.py: `_publish_batch` is
--                           publish_batch, a round of `run_forever` is poll
--   Worker.DeliveryEngine   apps/worker/eventmesh_worker/delivery_engine.py: `_deliver_to_endpoint` is
--                           deliver_to_endpoint, cut where the code tests, in Deliver and Settle;
--                           Effects says once what such a call may do, and the theorems use that
--   Worker.Consumer         apps/worker/eventmesh_worker/main.py: `_handle_message`; its child Loops has the
--                           rounds of the consuming and of the recovery loop, and Published adds the
--                           calls of `publish`
--   Worker.Process          the tasks of one worker in the same file, under its semaphore: `__init__` is
--                           initial_process, the steps of ProcessStep are those of `run`
--   Config                  packages/config/eventmesh_config/settings.py: `Settings` is AppSettings
--   Scheduler               apps/scheduler/eventmesh_scheduler/main.py: a round of each loop
--   Api.Events              apps/api/eventmesh_api/routers/events.py and the single-row handlers of
--                           apps/api/eventmesh_api/routers/deliveries.py; its child
--                           Racing splits create_event at its lookup, Repeats says what may happen
--                           between two requests, Submitted puts the validation of the body first, and
--                           Columns says which values a commit takes
--   Api.Endpoints           apps/api/eventmesh_api/routers/endpoints.py: every handler; its child Change
--                           says once what a request may do to the database
--   Api.Schemas             apps/api/eventmesh_api/schemas.py: the bodies of endpoints and events
--   Api.Listings            list_events of routers/events.py, and the two listings of
--                           routers/deliveries.py
--   Api.Auth                apps/api/eventmesh_api/auth_deps.py: `get_auth_context`
--   Secrets                 the encryption of signing secrets in routers/endpoints.py and their
--                           decryption in the worker's main.py; its child Webhook follows a secret from
--                           the creation of an endpoint to the check of a webhook
--   System                  the processes together: steps of any of them in any order, on one
--                           database and one stream; Refinement compares it with a ledger of events.
--                           A step may publish a batch, although `run_forever` raises before its first
--                           round, and states reached without such steps are among those covered
--   Api.App                 apps/api/eventmesh_api/main.py and routers/health.py
--   Demo                    apps/demo-webhook/demo_webhook/main.py
--   Migrations              migrations/versions/0001_initial.py: what a migration says, as data; its
--                           child Initial has `upgrade` and `downgrade`, Models the tables and
--                           indexes that packages/database/eventmesh_database/models.py declares,
--                           Frame what a migration leaves alone, Widths what the columns can hold
--   Logging                 packages/logging/eventmesh_logging/setup.py: `_redact_processor`, and the
--                           order of the processors
--   Base                    shared helpers; the files named Sample and Examples hold tests
--
-- How the parts interact: they share the database and the stream. A handler, a batch or a round is a
-- function of the database; a session's changes become the database where the code commits, and are
-- dropped where an exception leaves the session first. The payload of an outbox row (`Payload`) is
-- what travels through the stream to the worker.
--
-- Numbers: times and durations are natural numbers of microseconds; the retry policy counts
-- milliseconds and permille, with its jittered draw in microseconds. Ids are natural numbers. Texts
-- are native strings, bytes are lists of numbers.
--
-- Parameters: urlparse, getaddrinfo and the properties of addresses (Network; the documented ranges
-- are the hypothesis Documented), the broker (Appends: a call that returns has appended its message,
-- one that raises may have), the Redis client of the workers (KeepsPending: what is handed out stays
-- pending until its own XACK; KeepsUnread: what is added stays unread until it is handed out),
-- SHA-256 of API keys, the random draw (Uniform), Fernet (Crypto: it opens what it has sealed), HMAC
-- and json.dumps (Codecs), the endpoint's answer, clocks and fresh ids (Attempt, Fresh, Drawn), the
-- texts of times and ids in a cursor and the times that the database's driver takes (Prints), whether
-- jsonb takes a content (EventCreateRequest), the rows that a query without ORDER BY returns, the
-- server of a migration (Migrator: an operation whose documented conditions hold has its documented
-- effect), structlog's own processors and its renderer, asyncio (ProcessStep: what its semaphore and
-- its wait allow).
--
-- Fuel: the recursive call of `allow_request` runs on fuel, where two calls are enough (see
-- Common.CircuitBreaker.Invariant). The publisher's endless loop is cut after a number of rounds.
-- A client that reads page after page does so for a number of pages, where one more than the number
-- of its events is enough.
--
-- Not modelled: the worker's heartbeat, FastAPI wiring, the start of alembic (migrations/env.py),
-- SQLAlchemy's factories and the configuration of structlog. The text of log messages and the
-- metrics outside the engine are left out. An error of urlparse (ValueError) or getaddrinfo
-- (UnicodeError) that validate_webhook_url does not catch is not an outcome of Common.Ssrf: the URL is
-- not accepted then.
pub mod Api
pub mod Auth
pub mod Base
pub mod Common
pub mod Config
pub mod Database
pub mod Demo
pub mod Logging
pub mod Messaging
pub mod Migrations
pub mod Scheduler
pub mod Secrets
pub mod System
pub mod Worker
