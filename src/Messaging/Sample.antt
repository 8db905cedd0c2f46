-- ===== src/Messaging/Sample.antt =====
-- Brokers for tests: one that keeps every message, and one whose connection is lost.
use eventmesh.Base.{refl, true, false, List, [], ◌∷◌, ◌++◌}
use eventmesh.Messaging.Broker.{Message, MessageBroker, Appends}

abbrev pub reliable : MessageBroker
reliable = record { State = List Message; publish = λ m s. (true, s ++ m ∷ []); entries = λ s. s }

pub reliable-Appends : Appends reliable
reliable-Appends = record { returned = λ m s e. refl; raised = λ m s e. cc e }

abbrev pub unreachable : MessageBroker
unreachable = record { State = List Message; publish = λ m s. (false, s); entries = λ s. s }
