-- ===== src/Worker/Process/Tasks.antt =====
-- The tasks in flight through the steps of a worker.
use eventmesh.Base.{
  ℕ, suc, ◌+◌, ◌≤◌, ◌<◌, ◌≡◌, refl, subst, Bool-cases, inl, inr, List, [], ◌∷◌, ◌++◌, length, arith,
  All, All-append, All-left, All-right, All-map, ok, err,
}
use eventmesh.Worker.Process.{
  Task, looping, Process, initial_process, leave, test_loop, create_tasks, take_messages,
  take_claimed, enter, exit, ProcessStep, ProcessReach, signal, test, consume, recover, let_in,
  let_out, all_done, time_out, start, next,
}

-- The numbers of the tasks in flight are such.
abbrev pub TasksAre : (ℕ → Type 0) → Process → Type 0
TasksAre P p =
    All (λ (t : Task). P t.number) p.at_semaphore × All (λ (t : Task). P t.number) p.inside

pub create_tasks_next :
    (ids : List ℕ) (p : Process) → (create_tasks ids p).next_task ≡ length ids + p.next_task
unfolding create_tasks
create_tasks_next [] p = omega arith
create_tasks_next (i ∷ ids) p = omega (
  arith,
  create_tasks_next ids (record p {
    at_semaphore = p.at_semaphore ++ record { number = p.next_task; message_id = i } ∷ [];
    next_task = suc p.next_task;
  }),
)

-- Tasks that are created have new numbers.
abbrev pub New : (ℕ → Type 0) → Process → Process → Type 0
New P p q = (k : ℕ) → p.next_task ≤ k → k < q.next_task → P k

pub create_tasks-TasksAre :
    (P : ℕ → Type 0) (ids : List ℕ) (p : Process)
    → New P p (create_tasks ids p)
    → TasksAre P p
    → TasksAre P (create_tasks ids p)
unfolding create_tasks
create_tasks-TasksAre P [] p n h = h
create_tasks-TasksAre P (i ∷ ids) p n h =
    let t : Task = record { number = p.next_task; message_id = i } in
    let p' : Process = record p {
      at_semaphore = p.at_semaphore ++ t ∷ [];
      next_task = suc p.next_task;
    } in
    let grown = create_tasks_next ids p' in
    let here = n p.next_task (omega arith) (omega (arith, grown)) in
    create_tasks-TasksAre P ids p' (λ k low high. n k (omega arith) high)
      (All-append (λ (u : Task). P u.number) p.at_semaphore (t ∷ []) h.0 (here, tt), h.1)

pub create_tasks_keeps :
    (ids : List ℕ) (p : Process)
    → let q = create_tasks ids p in
      (q.phase ≡ p.phase) × (q.publishing ≡ p.publishing) × (q.reads ≡ p.reads)
unfolding create_tasks
create_tasks_keeps [] p = (refl, refl, refl)
create_tasks_keeps (i ∷ ids) p = create_tasks_keeps ids _

module _ (P : ℕ → Type 0) (p : Process) where
  pub enter-TasksAre :
      (before : List Task) (t : Task) (after : List Task)
      → p.at_semaphore ≡ before ++ t ∷ after
      → TasksAre P p
      → TasksAre P (enter before t after p)
  enter-TasksAre before t after e (h, k) =
      let Q : Task → Type 0 = λ t. P t.number in
      let g = subst (All Q) e h in
      let later = All-right Q before (t ∷ after) g in
      (
        All-append Q before after (All-left Q before (t ∷ after) g) later.1,
        All-append Q p.inside (t ∷ []) k (later.0, tt),
      )

  pub exit-TasksAre :
      (before : List Task) (t : Task) (after : List Task)
      → p.inside ≡ before ++ t ∷ after
      → TasksAre P p
      → TasksAre P (exit before after p)
  exit-TasksAre before t after e (h, k) =
      let Q : Task → Type 0 = λ t. P t.number in
      let g = subst (All Q) e k in
      (
        h,
        All-append Q before after (All-left Q before (t ∷ after) g)
            (All-right Q before (t ∷ after) g).1,
      )

  test_loop-TasksAre : TasksAre P p → TasksAre P (test_loop p)
  unfolding test_loop leave
  test_loop-TasksAre h = elim (Bool-cases p.shutdown) [ inl e ↦ rw e h | inr e ↦ rw e h ]

  ProcessStep-TasksAre : {q : Process} → New P p q → TasksAre P p → ProcessStep p q → TasksAre P q
  unfolding test_loop leave take_messages take_claimed
  ProcessStep-TasksAre n h signal = h
  ProcessStep-TasksAre n h (test e) = test_loop-TasksAre h
  ProcessStep-TasksAre n h (consume (err e) _) = h
  ProcessStep-TasksAre n h (consume (ok ids) _) = create_tasks-TasksAre P ids _ n h
  ProcessStep-TasksAre n h (recover (err e) _) = h
  ProcessStep-TasksAre n h (recover (ok ids) _) = create_tasks-TasksAre P ids _ n h
  ProcessStep-TasksAre n h (let_in before t after e free) = enter-TasksAre before t after e h
  ProcessStep-TasksAre n h (let_out before t after e) = exit-TasksAre before t after e h
  ProcessStep-TasksAre n h (all_done ns e ended) = h
  ProcessStep-TasksAre n h (time_out ns e) = h

ProcessStep_next : {p q : Process} → ProcessStep p q → p.next_task ≤ q.next_task
unfolding test_loop leave take_messages take_claimed
ProcessStep_next signal = omega arith
ProcessStep_next (test e) = ground arith
ProcessStep_next (consume (err e) _) = omega arith
ProcessStep_next {p} (consume (ok ids) _) =
    omega (arith, create_tasks_next ids (record p { phase = looping }))
ProcessStep_next (recover (err e) _) = omega arith
ProcessStep_next {p} (recover (ok ids) _) = omega (arith, create_tasks_next ids p)
ProcessStep_next (let_in before t after e free) = omega arith
ProcessStep_next (let_out before t after e) = omega arith
ProcessStep_next (all_done ns e ended) = omega arith
ProcessStep_next (time_out ns e) = omega arith

-- Numbers are below the next one.
abbrev pub Numbered : Process → Type 0
Numbered p = TasksAre (λ k. k < p.next_task) p

ProcessStep-Numbered : {p q : Process} → Numbered p → ProcessStep p q → Numbered q
ProcessStep-Numbered {p} {q} h step =
    let grown = ProcessStep_next step in
    let wider : TasksAre (λ k. k < q.next_task) p = (
      All-map p.at_semaphore (λ t l. omega (arith, l, grown)) h.0,
      All-map p.inside (λ t l. omega (arith, l, grown)) h.1,
    ) in
    ProcessStep-TasksAre (λ k. k < q.next_task) p (λ k low high. high) wider step

pub ProcessReach-Numbered : (n : ℕ) {p : Process} → ProcessReach (initial_process n) p → Numbered p
ProcessReach-Numbered n start = (tt, tt)
ProcessReach-Numbered n (next reach step) =
    ProcessStep-Numbered (ProcessReach-Numbered n reach) step
