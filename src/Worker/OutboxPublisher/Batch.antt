-- ===== src/Worker/OutboxPublisher/Batch.antt =====
-- What a batch of the publisher does to every row of the outbox.
use mathlib.Core.List.{append-nil}
use eventmesh.Base.{
  ℕ, ◌≤◌, ◌≡◌, refl, sym, ap, ◌∙◌, subst, ◌⊎◌, inl, inr, Bool, true, false, List, [], ◌∷◌, ◌++◌,
  arith, ◌==◌, ==_iff, Bool-cases, All, Has, Zip, Keyed, Keyed-unique, Has-append_left,
  Has-append_right, Has-take, Has-order_by, Has-select, Zip-refl, Zip-update, All-of_forall,
  and_true_left,
}
use eventmesh.Common.Enums.{OutboxStatus}
use eventmesh.Database.{OutboxEvent, Tables}
use eventmesh.Messaging.Broker.{Message, MessageBroker, Appends}
use eventmesh.Worker.OutboxPublisher.{
  is_pending, due_rows, message_of, mark_published, count_attempt, publish_row, publish_rows,
  publish_batch,
}

-- What may have become of the row `o` as `o'`, once the stream holds the entries `sent`.
pub record Settled (sent : List Message) (o o' : OutboxEvent) : Type 0 where
  pub same_message : message_of o' ≡ message_of o
  pub final : is_pending o.status ≡ false → o' ≡ o
  pub published :
      o'.status ≡ OutboxStatus.published
      → (o.status ≡ OutboxStatus.published) ⊎ Has (message_of o) sent
  pub gave_up :
      o'.status ≡ OutboxStatus.failed → (o.status ≡ OutboxStatus.failed) ⊎ (10 ≤ o'.attempts)

Settled-refl : (sent : List Message) (o : OutboxEvent) → Settled sent o o
Settled-refl sent o = record {
  same_message = refl;
  final = λ _. refl;
  published = λ e. inl e;
  gave_up = λ e. inl e;
}

Settled-mono :
    {o o' : OutboxEvent} (sent more : List Message)
    → Settled sent o o'
    → Settled (sent ++ more) o o'
Settled-mono {o} sent more r = record {
  same_message = r.same_message;
  final = r.final;
  published = λ e. elim (r.published e) [
    | inl was ↦ inl was
    | inr there ↦ inr (Has-append_left (message_of o) sent more there)
  ];
  gave_up = r.gave_up;
}

mark_published-Settled :
    (sent : List Message) (now : ℕ) (o x : OutboxEvent)
    → is_pending o.status ≡ true
    → Has (message_of o) sent
    → Settled sent o x
    → Settled sent o (mark_published now x)
mark_published-Settled sent now o x p m r = record {
  same_message = r.same_message;
  final = λ f. cc (p, f);
  published = λ _. inr m;
  gave_up = λ e. cc;
}

count_attempt-Settled :
    (sent : List Message) (o x : OutboxEvent)
    → is_pending o.status ≡ true
    → Settled sent o x
    → Settled sent o (count_attempt x)
count_attempt-Settled sent o x p r = record {
  same_message = r.same_message;
  final = λ f. cc (p, f);
  published = λ e. ground arith;
  gave_up = λ e. ground arith;
}

-- The row of the outbox that an update by the id of `row` changes is `row` itself.
same_row :
    {sent : List Message} (os : List OutboxEvent) (o x row : OutboxEvent)
    → Keyed (λ (r : OutboxEvent). r.id) os
    → Has o os
    → Has row os
    → Settled sent o x
    → (x.id == row.id) ≡ true
    → o ≡ row
same_row os o x row k n m r e =
    Keyed-unique _ os k n m (cc (r.same_message, (==_iff x.id row.id).0 e))

module _ (b : MessageBroker) (laws : Appends b) where
  open b use {State, publish, entries}

  -- A call of `publish` never takes an entry away.
  pub publish_grows :
      (m : Message) (s : State)
      → (more : List Message) × (entries (publish m s).1 ≡ entries s ++ more)
  publish_grows m s = elim (Bool-cases (publish m s).0) [
    | inl e ↦ (m ∷ [], laws.returned m s e)
    | inr e ↦ elim (laws.raised m s e) [
      | inl same ↦ ([], same ∙ sym (append-nil (entries s)))
      | inr sent ↦ (m ∷ [], sent)
    ]
  ]

  -- The row that the loop is at is a pending row of the outbox `os` that the batch read.
  publish_row-Settled :
      (now : ℕ) (row : OutboxEvent) (os : List OutboxEvent) (db : Tables) (s : State)
      → Keyed (λ (o : OutboxEvent). o.id) os
      → Has row os
      → is_pending row.status ≡ true
      → Zip (Settled (entries s)) os db.outbox
      → let (db', s') = publish_row b now row (db, s) in Zip (Settled (entries s')) os db'.outbox
  unfolding publish_row
  publish_row-Settled now row os db s k m p z = elim (Bool-cases (publish (message_of row) s).0) [
    | inl e ↦
        rw (e, laws.returned (message_of row) s e)
          (Zip-update (λ (x : OutboxEvent). x.id == row.id) (mark_published now) os db.outbox
            (λ o x n r t.
              let same = same_row os o x row k n m r t in
              mark_published-Settled _ now o x
                (ap (λ (q : OutboxEvent). is_pending q.status) same ∙ p)
                (subst (λ q. Has q (entries s ++ message_of row ∷ [])) (ap message_of (sym same))
                  (Has-append_right (message_of row) (entries s) _ (inl refl)))
                (Settled-mono (entries s) _ r))
            (λ o x n r t. Settled-mono (entries s) _ r) z)
    | inr e ↦
        let (more, grown) = publish_grows (message_of row) s in
        rw (e, grown)
          (Zip-update (λ (x : OutboxEvent). x.id == row.id) count_attempt os db.outbox
            (λ o x n r t.
              count_attempt-Settled _ o x
                (ap (λ (q : OutboxEvent). is_pending q.status) (same_row os o x row k n m r t) ∙ p)
                (Settled-mono (entries s) more r))
            (λ o x n r t. Settled-mono (entries s) more r) z)
  ]

  publish_rows-Settled :
      (now : ℕ) (rows os : List OutboxEvent) (db : Tables) (s : State)
      → Keyed (λ (o : OutboxEvent). o.id) os
      → All (λ row. Has row os × (is_pending row.status ≡ true)) rows
      → Zip (Settled (entries s)) os db.outbox
      → let (db', s') = publish_rows b now rows (db, s) in Zip (Settled (entries s')) os db'.outbox
  unfolding publish_rows
  publish_rows-Settled now [] os db s k h z = z
  publish_rows-Settled now (row ∷ rows) os db s k h z =
      let (db', s') = publish_row b now row (db, s) in
      publish_rows-Settled now rows os db' s' k h.1
        (publish_row-Settled now row os db s k h.0.0 h.0.1 z)

pub due_rows_pending :
    (locked : ℕ → Bool) (batch_size : ℕ) (db : Tables)
    → All
        (λ row. Has row db.outbox × (is_pending row.status ≡ true))
        (due_rows locked batch_size db)
unfolding due_rows
due_rows_pending locked batch_size db = All-of_forall _ (λ a m.
    let (there, test) = Has-select a _ db.outbox (Has-order_by a _ _ (Has-take a batch_size _ m)) in
    (there, and_true_left _ _ test))

-- For a broker that appends what it accepts, and an outbox whose rows have distinct ids: a batch
-- of any size, whichever calls of the broker raise and whichever rows others hold, loses no row of
-- the outbox. Row for row, the message stays the same; a row that was not pending is as it was; a
-- row is published only if it was before, or if its message is in the stream; and a row is given
-- up only if it was before, or after ten attempts.
pub publish_batch-Settled :
    (b : MessageBroker) (locked : ℕ → Bool) (batch_size now : ℕ) (db : Tables) (s : b.State)
    → Appends b
    → Keyed (λ (o : OutboxEvent). o.id) db.outbox
    → let (_, db', s') = publish_batch b locked batch_size now (db, s) in
      Zip (Settled (b.entries s')) db.outbox db'.outbox
unfolding publish_batch
publish_batch-Settled b locked batch_size now db s laws k =
    publish_rows-Settled b laws now (due_rows locked batch_size db) db.outbox db s k
      (due_rows_pending locked batch_size db) (Zip-refl _ db.outbox (Settled-refl (b.entries s)))
