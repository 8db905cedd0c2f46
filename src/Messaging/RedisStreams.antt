-- ===== src/Messaging/RedisStreams.antt =====
-- packages/messaging/eventmesh_messaging/broker.py: `RedisStreamsBroker`, for one stream and one
-- group. The client library and the server are a parameter. A message's fields stand for their text.
pub mod Publishing
pub mod Sample
use eventmesh.Base.{
  ℕ, ◌≡◌, ◌≢◌, ◌⊎◌, Bool, true, false, Option, none, some, List, [], ◌∷◌, ◌++◌, map, All, Has,
  String, Result, ok, err,
}
use eventmesh.Messaging.Broker.{Message}

-- `StreamMessage`
pub record StreamMessage : Type 0 where
  pub message_id : ℕ
  pub fields : Message

-- `redis.ResponseError`, which says BUSYGROUP or not, or a lost connection
pub data RedisError : Type 0 where
  response_error : Bool → RedisError
  connection_error : RedisError

-- The entries of one stream, as XREADGROUP and XAUTOCLAIM return them.
abbrev pub Entries : Type 0
Entries = List (ℕ × Message)

-- The commands that the broker sends; `pending` is the group's list of entries that were handed out
-- and not acknowledged.
pub record StreamsClient : Type 1 where
  pub State : Type 0
  pub xgroup_create : State → Result RedisError (Unit {0}) × State
  pub xadd : Message → State → Result RedisError ℕ × State
  pub xreadgroup : ℕ → State → Result RedisError (Option (List (String × Entries))) × State
  pub xack : ℕ → State → Result RedisError ℕ × State
  pub xautoclaim : ℕ → ℕ → State → Result RedisError (ℕ × Entries × List ℕ) × State
  pub pending : State → List ℕ

-- the inner loop of `_parse_stream_response`
abbrev pub messages_of : Entries → List StreamMessage
messages_of [] = []
messages_of ((message_id, fields) ∷ entries) =
    record { message_id = message_id; fields = fields } ∷ messages_of entries

abbrev pub parse_streams : List (String × Entries) → List StreamMessage
parse_streams [] = []
parse_streams ((stream_name, entries) ∷ streams) = messages_of entries ++ parse_streams streams

-- `_parse_stream_response`: no answer within the block time is none
abbrev pub parse_stream_response : Option (List (String × Entries)) → List StreamMessage
parse_stream_response none = []
parse_stream_response (some streams) = parse_streams streams

abbrev pub parse_read :
    Result RedisError (Option (List (String × Entries))) → Result RedisError (List StreamMessage)
parse_read (err e) = err e
parse_read (ok resp) = ok (parse_stream_response resp)

abbrev pub parse_claimed :
    Result RedisError (ℕ × Entries × List ℕ) → Result RedisError (List StreamMessage)
parse_claimed (err e) = err e
parse_claimed (ok (next_cursor, claimed, deleted)) = ok (messages_of claimed)

-- `if "BUSYGROUP" not in str(e): raise`
abbrev pub unless_busy : Result RedisError (Unit {0}) → Result RedisError (Unit {0})
unless_busy (ok u) = ok u
unless_busy (err (RedisError.response_error true)) = ok tt
unless_busy (err (RedisError.response_error false)) = err (RedisError.response_error false)
unless_busy (err RedisError.connection_error) = err RedisError.connection_error

module _ (c : StreamsClient) where
  open c use {State, xgroup_create, xadd, xreadgroup, xack, xautoclaim}

  unfoldable pub ensure_group : State → Result RedisError (Unit {0}) × State
  ensure_group s = let (r, s') = xgroup_create s in (unless_busy r, s')

  unfoldable pub publish : Message → State → Result RedisError ℕ × State
  publish fields s = xadd fields s

  unfoldable pub consume : ℕ → State → Result RedisError (List StreamMessage) × State
  consume count s = let (r, s') = xreadgroup count s in (parse_read r, s')

  -- the state after `acknowledge`, which returns nothing
  unfoldable pub acknowledge : ℕ → State → State
  acknowledge message_id s = (xack message_id s).1

  unfoldable pub claim_stale : ℕ → ℕ → State → Result RedisError (List StreamMessage) × State
  claim_stale min_idle_ms count s =
      let (r, s') = xautoclaim min_idle_ms count s in (parse_claimed r, s')

-- The entries' ids stand among the pending ones.
abbrev pub ArePending : List ℕ → Result RedisError (List StreamMessage) → Type 0
ArePending pending (err e) = Unit
ArePending pending (ok messages) = All (λ (m : StreamMessage). Has m.message_id pending) messages

-- What the commands promise of the pending entries, for a stream that no entry is deleted from: what
-- is handed out is pending, and an entry ceases to be pending by its own XACK only.
pub record KeepsPending (c : StreamsClient) : Type 0 where
  pub read :
      (count : ℕ) (s : c.State) → ArePending (c.pending (consume c count s).1) (consume c count s).0
  pub read_keeps :
      (count i : ℕ) (s : c.State) → Has i (c.pending s) → Has i (c.pending (c.xreadgroup count s).1)
  pub claimed :
      (min_idle_ms count : ℕ) (s : c.State)
      → ArePending
          (c.pending (claim_stale c min_idle_ms count s).1)
          (claim_stale c min_idle_ms count s).0
  pub claim_keeps :
      (min_idle_ms count i : ℕ) (s : c.State)
      → Has i (c.pending s)
      → Has i (c.pending (c.xautoclaim min_idle_ms count s).1)
  pub ack_keeps :
      (message_id i : ℕ) (s : c.State)
      → i ≢ message_id
      → Has i (c.pending s)
      → Has i (c.pending (c.xack message_id s).1)

-- What the commands promise of the entries that the group was not handed yet: XADD, where it returns an
-- id, has put an entry there; an entry ceases to be unread by being handed out only, and is pending
-- then, whether or not the answer arrives; the commands touch no other list.
pub record KeepsUnread (c : StreamsClient) (unread : c.State → List ℕ) : Type 0 where
  pub added :
      (m : Message) (s : c.State) (i : ℕ) → (c.xadd m s).0 ≡ ok i → Has i (unread (c.xadd m s).1)
  pub add_keeps :
      (m : Message) (i : ℕ) (s : c.State) → Has i (unread s) → Has i (unread (c.xadd m s).1)
  pub add_pending :
      (m : Message) (i : ℕ) (s : c.State) → Has i (c.pending s) → Has i (c.pending (c.xadd m s).1)
  pub read_moves :
      (count i : ℕ) (s : c.State)
      → Has i (unread s)
      → Has i (unread (c.xreadgroup count s).1) ⊎ Has i (c.pending (c.xreadgroup count s).1)
  pub ack_unread :
      (message_id i : ℕ) (s : c.State) → Has i (unread s) → Has i (unread (c.xack message_id s).1)
  pub claim_unread :
      (min_idle_ms count i : ℕ) (s : c.State)
      → Has i (unread s)
      → Has i (unread (c.xautoclaim min_idle_ms count s).1)
