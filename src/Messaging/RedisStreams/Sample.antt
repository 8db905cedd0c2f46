-- ===== src/Messaging/RedisStreams/Sample.antt =====
-- A server for tests: the entries that were not read yet, and those that are pending.
use mathlib.Core.List.{append-nil}
use eventmesh.Base.{
  ℕ, ◌≡◌, ◌≢◌, refl, not, inl, inr, ◌==◌, [], ◌∷◌, ◌++◌, map, some, take, drop, select, All, Has,
  Has-append_right, Has-take, Has-map, Has-map_of, Has-select_of, ok, arith, ap, false, ◌+◌, ◌⊎◌,
  List, length, subst, sym, take-drop, Has-append,
}
use eventmesh.Messaging.Broker.{Message}
use eventmesh.Messaging.RedisStreams.{
  Entries, StreamMessage, StreamsClient, KeepsPending, KeepsUnread, messages_of, consume,
  claim_stale,
}

abbrev pub entry_id : ℕ × Message → ℕ
entry_id e = e.0

-- Unread and pending entries.
abbrev pub Streams : Type 0
Streams = Entries × Entries

abbrev pub server : StreamsClient
server = record {
  State = Streams;
  xgroup_create = λ s. (ok tt, s);
  xadd = λ m s.
      let message_id = length s.0 + length s.1 in
      (ok message_id, (s.0 ++ (message_id, m) ∷ [], s.1));
  xreadgroup = λ count s.
      (ok (some (("events", take count s.0) ∷ [])), (drop count s.0, s.1 ++ take count s.0));
  xack = λ message_id s. (ok 1, (s.0, select (λ e. not (entry_id e == message_id)) s.1));
  xautoclaim = λ min_idle_ms count s. (ok (0, take count s.1, []), s);
  pending = λ s. map entry_id s.1;
}

messages_pending :
    (entries pending : Entries)
    → ((e : ℕ × Message) → Has e entries → Has e pending)
    → All (λ (m : StreamMessage). Has m.message_id (map entry_id pending)) (messages_of entries)
messages_pending [] pending h = tt
messages_pending (e ∷ es) pending h = (
  Has-map_of entry_id e pending (h e (inl refl)),
  messages_pending es pending (λ x m. h x (inr m)),
)

kept : (i : ℕ) (xs ys : Entries) → Has i (map entry_id xs) → Has i (map entry_id (xs ++ ys))
kept i [] ys m = absurd m
kept i (x ∷ xs) ys (inl e) = inl e
kept i (x ∷ xs) ys (inr m) = inr (kept i xs ys m)

unacknowledged :
    (message_id i : ℕ) (xs : Entries)
    → i ≢ message_id
    → Has i (map entry_id xs)
    → Has i (map entry_id (select (λ e. not (entry_id e == message_id)) xs))
unacknowledged message_id i xs n m =
    let (e, here, same) = Has-map entry_id i xs m in
    let other : (entry_id e == message_id) ≡ false = ground (arith, same, n) in
    rw (← same) (
      Has-map_of entry_id e _
        (Has-select_of e (λ e. not (entry_id e == message_id)) xs here (ap not other)))

pub server-KeepsPending : KeepsPending server
unfolding consume claim_stale
server-KeepsPending = record {
  read = λ count s. rw (append-nil (messages_of (take count s.0))) (
      messages_pending (take count s.0) (s.1 ++ take count s.0)
        (λ e m. Has-append_right e s.1 (take count s.0) m));
  read_keeps = λ count i s m. kept i s.1 (take count s.0) m;
  claimed =
      λ min_idle_ms count s. messages_pending (take count s.1) s.1 (λ e m. Has-take e count s.1 m);
  claim_keeps = λ min_idle_ms count i s m. m;
  ack_keeps = λ message_id i s n m. unacknowledged message_id i s.1 n m;
}

abbrev pub unread_ids : Streams → List ℕ
unread_ids s = map entry_id s.0

handed_out_or_not :
    (count i : ℕ) (s : Streams)
    → Has i (unread_ids s)
    → Has i (map entry_id (drop count s.0)) ⊎ Has i (map entry_id (s.1 ++ take count s.0))
handed_out_or_not count i s h =
    let (e, there, same) = Has-map entry_id i s.0 h in
    let split = subst (Has e) (sym (take-drop count s.0)) there in
    elim (Has-append e (take count s.0) (drop count s.0) split) [
      | inl taken ↦ inr (
          subst (λ k. Has k (map entry_id (s.1 ++ take count s.0))) same
            (Has-map_of entry_id e _ (Has-append_right e s.1 (take count s.0) taken)))
      | inr dropped ↦ inl (
          subst (λ k. Has k (map entry_id (drop count s.0))) same (Has-map_of entry_id e _ dropped))
    ]

server_adds :
    (m : Message) (s : Streams) (i : ℕ)
    → (server.xadd m s).0 ≡ ok i
    → Has i (unread_ids (server.xadd m s).1)
server_adds m s i e =
    let message_id = length s.0 + length s.1 in
    let same : message_id ≡ i = cc e in
    subst (λ k. Has k (map entry_id (s.0 ++ (message_id, m) ∷ []))) same
      (Has-map_of entry_id (message_id, m) _ (Has-append_right (message_id, m) s.0 _ (inl refl)))

pub server-KeepsUnread : KeepsUnread server unread_ids
server-KeepsUnread = record {
  added = server_adds;
  add_keeps = λ m i s h. kept i s.0 _ h;
  add_pending = λ m i s h. h;
  read_moves = handed_out_or_not;
  ack_unread = λ message_id i s h. h;
  claim_unread = λ min_idle_ms count i s h. h;
}
