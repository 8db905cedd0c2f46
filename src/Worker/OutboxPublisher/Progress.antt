-- ===== src/Worker/OutboxPublisher/Progress.antt =====
-- Whether the publisher gets through the outbox.
use eventmesh.Base.{
  ℕ, zero, suc, ◌+◌, ◌≤◌, ◌≡◌, refl, sym, ap, ◌∙◌, subst, inl, inr, Bool, true, false, ◌&&◌, List,
  [], ◌∷◌, arith, ◌==◌, ==_iff, Bool-cases, All, Has, Zip, length, Has-order_by_of, Has-select_of,
  Zip-refl, Zip-update, length-order_by, take_all, select, err, take_nil,
}
use eventmesh.Common.Enums.{OutboxStatus}
use eventmesh.Database.{OutboxEvent, Tables}
use eventmesh.Messaging.Broker.{Message, MessageBroker}
use eventmesh.Worker.OutboxPublisher.{
  is_pending, due_rows, message_of, mark_published, count_attempt, publish_row, publish_rows,
  publish_batch, Rounds, PythonError, run_forever, poll, poll_loop,
}

-- The ids agree, a row that was not pending is not, and nor is a row that has been `done`.
record Advanced (done : List OutboxEvent) (o o' : OutboxEvent) : Type 0 where
  same_id : o'.id ≡ o.id
  stays : is_pending o.status ≡ false → is_pending o'.status ≡ false
  moved : Has o done → is_pending o'.status ≡ false

-- The rows of the loop, the last one first.
abbrev reverse_onto : List OutboxEvent → List OutboxEvent → List OutboxEvent
reverse_onto [] done = done
reverse_onto (r ∷ rows) done = reverse_onto rows (r ∷ done)

Has-done :
    (a : OutboxEvent) (rows done : List OutboxEvent) → Has a done → Has a (reverse_onto rows done)
Has-done a [] done m = m
Has-done a (r ∷ rows) done m = Has-done a rows (r ∷ done) (inr m)

Has-reverse_onto :
    (a : OutboxEvent) (rows done : List OutboxEvent) → Has a rows → Has a (reverse_onto rows done)
Has-reverse_onto a [] done m = absurd m
Has-reverse_onto a (r ∷ rows) done (inl e) = Has-done a rows (r ∷ done) (inl e)
Has-reverse_onto a (r ∷ rows) done (inr m) = Has-reverse_onto a rows (r ∷ done) m

module _ (b : MessageBroker)
    (returns : (m : Message) (s : b.State) → (b.publish m s).0 ≡ true) where
  open b use {State}

  publish_row-Advanced :
      (now : ℕ) (row : OutboxEvent) (done os : List OutboxEvent) (db : Tables) (s : State)
      → Zip (Advanced done) os db.outbox
      → Zip (Advanced (row ∷ done)) os (publish_row b now row (db, s)).0.outbox
  unfolding publish_row
  publish_row-Advanced now row done os db s z = rw (returns (message_of row) s) (
      Zip-update (λ (x : OutboxEvent). x.id == row.id) (mark_published now) os db.outbox
        (λ o x n r t. record { same_id = r.same_id; stays = λ _. refl; moved = λ _. refl })
        (λ o x n r t. record {
          same_id = r.same_id;
          stays = r.stays;
          moved = λ m. elim m [
            | inl e ↦ cc ((==_iff x.id row.id).1 (r.same_id ∙ ap (λ (q : OutboxEvent). q.id) e), t)
            | inr h ↦ r.moved h
          ];
        })
        z)

  publish_rows-Advanced :
      (now : ℕ) (rows done os : List OutboxEvent) (db : Tables) (s : State)
      → Zip (Advanced done) os db.outbox
      → Zip (Advanced (reverse_onto rows done)) os (publish_rows b now rows (db, s)).0.outbox
  unfolding publish_rows
  publish_rows-Advanced now [] done os db s z = z
  publish_rows-Advanced now (row ∷ rows) done os db s z =
      let (db', s') = publish_row b now row (db, s) in
      publish_rows-Advanced now rows (row ∷ done) os db' s'
        (publish_row-Advanced now row done os db s z)

select-and_true :
    (os : List OutboxEvent)
    → select (λ (r : OutboxEvent). is_pending r.status && true) os
      ≡ select (λ (r : OutboxEvent). is_pending r.status) os
select-and_true [] = refl
select-and_true (o ∷ os) = ground (arith, select-and_true os)

-- Every pending row of the outbox is in a batch that is large enough, if nobody holds a lock.
due_rows_all :
    (batch_size : ℕ) (db : Tables) (o : OutboxEvent)
    → length (select (λ (r : OutboxEvent). is_pending r.status) db.outbox) ≤ batch_size
    → Has o db.outbox
    → is_pending o.status ≡ true
    → Has o (due_rows (λ _. false) batch_size db)
unfolding due_rows
due_rows_all batch_size db o h m p =
    subst (Has o)
      (sym (
        take_all batch_size _ (
          omega (
            arith,
            length-order_by (λ (r : OutboxEvent). r.created_at)
                (select (λ (r : OutboxEvent). is_pending r.status && true) db.outbox),
            ap length (select-and_true db.outbox),
          ))))
      (Has-order_by_of o _ _ (Has-select_of o _ db.outbox m (rw p)))

All-of_Advanced :
    (done os xs : List OutboxEvent)
    → ((o : OutboxEvent) → Has o os → is_pending o.status ≡ true → Has o done)
    → Zip (Advanced done) os xs
    → All (λ (x : OutboxEvent). is_pending x.status ≡ false) xs
All-of_Advanced done [] [] h z = tt
All-of_Advanced done [] (x ∷ xs) h z = absurd z
All-of_Advanced done (o ∷ os) [] h z = absurd z
All-of_Advanced done (o ∷ os) (x ∷ xs) h z = (
  elim (Bool-cases (is_pending o.status)) [
    | inl p ↦ z.0.moved (h o (inl refl) p)
    | inr p ↦ z.0.stays p
  ],
  All-of_Advanced done os xs (λ a m. h a (inr m)) z.1,
)

-- With a broker whose calls all return, and no rows held by others, one batch that is at least as
-- large as the number of pending rows leaves no row of the outbox pending.
pub publish_batch_drains :
    (b : MessageBroker) (batch_size now : ℕ) (db : Tables) (s : b.State)
    → ((m : Message) (t : b.State) → (b.publish m t).0 ≡ true)
    → length (select (λ (r : OutboxEvent). is_pending r.status) db.outbox) ≤ batch_size
    → let (_, db', _) = publish_batch b (λ _. false) batch_size now (db, s) in
      All (λ (o : OutboxEvent). is_pending o.status ≡ false) db'.outbox
unfolding publish_batch
publish_batch_drains b batch_size now db s returns h =
    let rows = due_rows (λ _. false) batch_size db in
    All-of_Advanced _ db.outbox _
      (λ o m p. Has-reverse_onto o rows [] (due_rows_all batch_size db o h m p))
      (publish_rows-Advanced b returns now rows [] db.outbox db s (
        Zip-refl _ db.outbox
          (λ o. record { same_id = refl; stays = λ p. p; moved = λ m. absurd m })))

-- Whatever the broker and the rounds, `run_forever` raises at its first `await`, which is applied
-- to a method that was not called, and leaves the database and the stream as they were.
pub run_forever_dies :
    (b : MessageBroker) (rounds : Rounds) (batch_size fuel : ℕ) (db : Tables) (s : b.State)
    → run_forever b rounds batch_size fuel (db, s) ≡ (err PythonError.type_error, db, s)
unfolding run_forever
run_forever_dies b rounds batch_size fuel db s = refl

due_rows_single :
    (locked : ℕ → Bool) (n : ℕ) (db : Tables) (row : OutboxEvent)
    → locked row.id ≡ false
    → db.outbox ≡ row ∷ []
    → row.status ≡ OutboxStatus.pending
    → due_rows locked (suc n) db ≡ row ∷ []
unfolding due_rows
due_rows_single locked n db row l e p = simp (e, p, l, take_nil)

module _ (b : MessageBroker)
    (raises : (m : Message) (s : b.State) → (b.publish m s).0 ≡ false) where
  open b use {State}

  publish_row_refused :
      (now : ℕ) (db : Tables) (s : State) (row : OutboxEvent)
      → db.outbox ≡ row ∷ []
      → (publish_row b now row (db, s)).0.outbox ≡ count_attempt row ∷ []
  unfolding publish_row
  publish_row_refused now db s row e =
      rw (raises (message_of row) s, e, (==_iff row.id row.id).1 refl) refl

  -- A round for one pending row, with a broker whose calls raise.
  poll_refused :
      (rounds : Rounds) (n i : ℕ) (db : Tables) (s : State) (row : OutboxEvent)
      → rounds.commits i ≡ true
      → rounds.locked i row.id ≡ false
      → db.outbox ≡ row ∷ []
      → row.status ≡ OutboxStatus.pending
      → (poll b rounds (suc n) i (db, s)).0.outbox ≡ count_attempt row ∷ []
  unfolding poll publish_batch publish_rows
  poll_refused rounds n i db s row c l e p =
      rw (c, due_rows_single (rounds.locked i) n db row l e p)
        (publish_row_refused (rounds.clock i) db s row e)

  -- If every call of the broker raises and every round commits, then the loop gives up a pending
  -- row, the only one of the outbox and held by nobody, in as many rounds as its attempts are
  -- short of ten.
  pub poll_loop_refused :
      (rounds : Rounds) (n k i : ℕ) (db : Tables) (s : State) (row : OutboxEvent)
      → ((j : ℕ) → rounds.commits j ≡ true)
      → ((j : ℕ) → rounds.running j ≡ true)
      → ((j : ℕ) → rounds.locked j row.id ≡ false)
      → db.outbox ≡ row ∷ []
      → row.status ≡ OutboxStatus.pending
      → row.attempts + suc k ≡ 10
      → (poll_loop b rounds (suc n) (suc k) i (db, s)).0.outbox
        ≡ record row { attempts = 10; status = OutboxStatus.failed } ∷ []
  unfolding poll_loop
  poll_loop_refused rounds n zero i db s row c r l e p h =
      let gone : count_attempt row ≡ record row { attempts = 10; status = OutboxStatus.failed } =
        ground arith in
      rw (r i) (poll_refused rounds n i db s row (c i) (l i) e p ∙ ap (λ q. q ∷ []) gone)
  poll_loop_refused rounds n (suc k) i db s row c r l e p h = rw (r i) (
      poll_loop_refused rounds n k (suc i) (poll b rounds (suc n) i (db, s)).0
        (poll b rounds (suc n) i (db, s)).1 (count_attempt row) c r l
        (poll_refused rounds n i db s row (c i) (l i) e p) (ground arith) (omega arith))
