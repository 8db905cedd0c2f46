-- ===== src/Worker/Process/Bounded.antt =====
-- How many messages a worker processes at once, and how many it holds.
use eventmesh.Base.{
  ℕ, zero, suc, ◌+◌, ◌≡◌, refl, ap, false, List, [], ◌∷◌, length, length-append, arith, subst,
  if_false, Result, ok, err,
}
use eventmesh.Messaging.RedisStreams.{RedisError}
use eventmesh.Worker.Process.{
  looping, consuming, Process, initial_process, leave, test_loop, create_tasks, take_messages,
  take_claimed, ProcessStep, ProcessReach, signal, test, consume, recover, let_in, let_out,
  all_done, time_out, start, next,
}

-- The semaphore's counter and the tasks that it has let in make up the concurrency.
abbrev pub Balanced : ℕ → Process → Type 0
Balanced n p = length p.inside + p.permits ≡ n

create_tasks-Balanced :
    (n : ℕ) (ids : List ℕ) (p : Process) → Balanced n p → Balanced n (create_tasks ids p)
unfolding create_tasks
create_tasks-Balanced n [] p b = b
create_tasks-Balanced n (i ∷ ids) p b = create_tasks-Balanced n ids _ b

test_loop-Balanced : (n : ℕ) (p : Process) → Balanced n p → Balanced n (test_loop p)
unfolding test_loop leave
test_loop-Balanced n p b = ground arith

take_messages-Balanced :
    (n : ℕ) (r : Result RedisError (List ℕ)) (p : Process)
    → Balanced n p
    → Balanced n (take_messages r p)
unfolding take_messages leave
take_messages-Balanced n (err e) p b = b
take_messages-Balanced n (ok ids) p b = create_tasks-Balanced n ids _ b

take_claimed-Balanced :
    (n : ℕ) (r : Result RedisError (List ℕ)) (p : Process)
    → Balanced n p
    → Balanced n (take_claimed r p)
unfolding take_claimed
take_claimed-Balanced n (err e) p b = b
take_claimed-Balanced n (ok ids) p b = create_tasks-Balanced n ids p b

ProcessStep-Balanced : (n : ℕ) {p q : Process} → Balanced n p → ProcessStep p q → Balanced n q
ProcessStep-Balanced n b signal = b
ProcessStep-Balanced n b (test e) = test_loop-Balanced n _ b
ProcessStep-Balanced n b (consume r e) = take_messages-Balanced n r _ b
ProcessStep-Balanced n b (recover r e) = take_claimed-Balanced n r _ b
ProcessStep-Balanced n {p} b (let_in before t after e free) =
    omega (arith, length-append p.inside (t ∷ []))
ProcessStep-Balanced n {p} b (let_out before t after e) =
    omega (arith, ap length e, length-append before (t ∷ after), length-append before after)
ProcessStep-Balanced n b (all_done ns e ended) = b
ProcessStep-Balanced n b (time_out ns e) = b

-- A worker never processes more messages at once than its concurrency: as many as the counter of its
-- semaphore is below it.
pub ProcessReach-Balanced :
    (n : ℕ) {p : Process} → ProcessReach (initial_process n) p → Balanced n p
ProcessReach-Balanced n start = omega arith
ProcessReach-Balanced n (next reach step) =
    ProcessStep-Balanced n (ProcessReach-Balanced n reach) step

-- Reading takes no regard of the semaphore: from any state before the test of the loop, without a
-- shutdown, a worker can reach one in which any given number of further messages waits at the
-- semaphore, the tasks that it has let in are the same, and the loop goes on.
pub backlog :
    (k : ℕ) (p : Process)
    → p.phase ≡ looping
    → p.shutdown ≡ false
    → (q : Process) × ProcessReach p q
      × (length q.at_semaphore ≡ length p.at_semaphore + k)
      × (q.inside ≡ p.inside)
      × (q.phase ≡ looping)
      × (q.shutdown ≡ false)
unfolding test_loop create_tasks take_messages
backlog zero p e f = (p, start, omega arith, refl, e, f)
backlog (suc k) p e f =
    let (q, reach, waiting, inside, looks, open_yet) = backlog k p e f in
    let reading : Process = record q { phase = consuming; reads = suc q.reads } in
    let tested : test_loop q ≡ reading = if_false _ _ open_yet in
    let one =
      next (next reach (subst (ProcessStep q) tested (test looks))) (consume (ok (0 ∷ [])) refl) in
    (
      take_messages (ok (0 ∷ [])) reading,
      one,
      omega (
        arith,
        waiting,
        length-append q.at_semaphore (record { number = q.next_task; message_id = 0 } ∷ []),
      ),
      inside,
      refl,
      open_yet,
    )
