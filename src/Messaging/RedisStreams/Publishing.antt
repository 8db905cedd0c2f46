-- ===== src/Messaging/RedisStreams/Publishing.antt =====
-- `RedisStreamsBroker` as the broker that the publisher and the scheduler take: its `publish` is XADD.
use eventmesh.Base.{
  ◌≡◌, ap, ◌⊎◌, inl, inr, Bool, true, false, List, [], ◌∷◌, ◌++◌, Result, ok, err, Result-cases,
}
use eventmesh.Messaging.Broker.{Message, MessageBroker, Appends}
use eventmesh.Messaging.RedisStreams.{RedisError, StreamsClient, publish}

-- The call returned.
abbrev pub is_ok {ℓ κ} : {E : Type ℓ} {A : Type κ} → Result E A → Bool
is_ok (err e) = false
is_ok (ok a) = true

-- The class, over the client library; `entries` are all entries that were ever added to the stream.
abbrev pub redis_broker : (c : StreamsClient) → (c.State → List Message) → MessageBroker
redis_broker c entries = record {
  State = c.State;
  publish = λ m s. let (r, s') = publish c m s in (is_ok r, s');
  entries = entries;
}

-- What the documentation says of XADD; an error may hide that the entry was added.
pub record AddsEntries (c : StreamsClient) (entries : c.State → List Message) : Type 0 where
  pub returned :
      (m : Message) (s : c.State)
      → is_ok (c.xadd m s).0 ≡ true
      → entries (c.xadd m s).1 ≡ entries s ++ m ∷ []
  pub raised :
      (m : Message) (s : c.State) (e : RedisError)
      → (c.xadd m s).0 ≡ err e
      → (entries (c.xadd m s).1 ≡ entries s) ⊎ (entries (c.xadd m s).1 ≡ entries s ++ m ∷ [])

-- So the class is such a broker as its clients rely on.
pub redis_broker-Appends :
    (c : StreamsClient) (entries : c.State → List Message)
    → AddsEntries c entries
    → Appends (redis_broker c entries)
unfolding publish
redis_broker-Appends c entries laws = record {
  returned = laws.returned;
  raised = λ m s lost. elim (Result-cases (c.xadd m s).0) [
    | inl (e, raised) ↦ laws.raised m s e raised
    | inr (i, returned) ↦ cc (ap is_ok returned, lost)
  ];
}
