-- ===== src/Worker/OutboxPublisher/Examples.antt =====
-- The publisher on a small outbox.
use eventmesh.Base.{false, [], Zip}
use eventmesh.Database.Sample.{tables}
use eventmesh.Messaging.Sample.{reliable, reliable-Appends}
use eventmesh.Worker.OutboxPublisher.{publish_batch}
use eventmesh.Worker.OutboxPublisher.Batch.{Settled, publish_batch-Settled}

publish_batch-Settled_example :
    Zip
      (Settled (publish_batch reliable (λ id. false) 100 2000 (tables, [])).2)
      tables.outbox
      (publish_batch reliable (λ id. false) 100 2000 (tables, [])).1.outbox
publish_batch-Settled_example =
    publish_batch-Settled reliable (λ id. false) 100 2000 tables [] reliable-Appends (tt, tt)
