-- ===== src/Messaging/Broker.antt =====
-- packages/messaging/eventmesh_messaging/broker.py: what its clients use of `MessageBroker`. The
-- stream itself is Redis's, so a broker is a parameter with the laws that its clients rely on.
use eventmesh.Base.{ℕ, ◌≡◌, ◌⊎◌, Bool, true, false, List, [], ◌∷◌, ◌++◌}
use eventmesh.Database.{Payload}

-- The field `outbox_id` of a message: `str(row.id)`, or `f"retry-{delivery.id}"`.
pub data Origin : Type 0 where
  outbox retry : ℕ → Origin

-- The fields of a stream message.
pub record Message : Type 0 where
  pub outbox_id : Origin
  pub payload : Payload

-- `publish` says whether the call returned, and the broker after it.
pub record MessageBroker : Type 1 where
  pub State : Type 0
  pub publish : Message → State → Bool × State
  pub entries : State → List Message

-- What XADD promises: a call that returns has put its message at the end of the stream; one that
-- raises, by a lost connection say, may have done so or not.
pub record Appends (b : MessageBroker) : Type 0 where
  pub returned :
      (m : Message) (s : b.State)
      → (b.publish m s).0 ≡ true
      → b.entries (b.publish m s).1 ≡ b.entries s ++ m ∷ []
  pub raised :
      (m : Message) (s : b.State)
      → (b.publish m s).0 ≡ false
      → (b.entries (b.publish m s).1 ≡ b.entries s)
        ⊎ (b.entries (b.publish m s).1 ≡ b.entries s ++ m ∷ [])
