-- ===== src/Worker/Process.antt =====
-- apps/worker/eventmesh_worker/main.py: the tasks of one worker process, from `Worker.__init__` to the
-- end of `run`. A task is its number and the id of its message; what it does to the stream and the
-- database is Worker.Consumer's. asyncio is a step relation: tasks move in any order, a semaphore
-- lets a task in while its counter is above 0, a signal may come at any time.
pub mod Bounded
pub mod Tasks
pub mod Leaving
mod Examples
use eventmesh.Base.{
  ℕ, suc, ◌-◌, ◌+◌, ◌<◌, ◌≡◌, Bool, true, false, List, [], ◌∷◌, ◌++◌, map, All, Has, Result, ok,
  err, if◌then◌else◌,
}
use eventmesh.Messaging.RedisStreams.{RedisError}

pub record Task : Type 0 where
  pub number : ℕ
  pub message_id : ℕ

-- Where `run` stands: before the test of its loop, in `broker.consume`, in `asyncio.wait` with the
-- numbers of the tasks that it waits for, or after it, with whether the wait timed out.
pub data Phase : Type 0 where
  looping consuming : Phase
  waiting_for : List ℕ → Phase
  closing : (timed_out : Bool) → Phase

-- `self._inflight` is `at_semaphore`, the tasks that are created, and `inside`, those that the
-- semaphore has let in. `background` says that the three other tasks are not cancelled, and `reads`
-- counts the calls of `broker.consume`.
pub record Process : Type 0 where
  pub phase : Phase
  pub shutdown : Bool
  pub permits : ℕ
  pub at_semaphore : List Task
  pub inside : List Task
  pub next_task : ℕ
  pub publishing : Bool
  pub background : Bool
  pub reads : ℕ

abbrev pub inflight : Process → List Task
inflight p = p.at_semaphore ++ p.inside

abbrev pub numbers : List Task → List ℕ
numbers = map λ (t : Task). t.number

-- `Worker()` and the beginning of `run`
abbrev pub initial_process : (worker_concurrency : ℕ) → Process
initial_process worker_concurrency = record {
  phase = looping;
  shutdown = false;
  permits = worker_concurrency;
  at_semaphore = [];
  inside = [];
  next_task = 0;
  publishing = true;
  background = true;
  reads = 0;
}

-- The handler of SIGTERM and SIGINT
abbrev pub signalled : Process → Process
signalled p = record p { shutdown = true }

-- `finally`, up to the wait: `publisher.stop()`, and the wait for the tasks that are in flight
unfoldable pub leave : Process → Process
leave p = record p { phase = waiting_for (numbers (inflight p)); publishing = false }

-- `while not self._shutdown.is_set()`, and the call of `broker.consume`
unfoldable pub test_loop : Process → Process
test_loop p = if p.shutdown then leave p else record p { phase = consuming; reads = suc p.reads }

-- `for msg in messages: task = asyncio.create_task(…); self._inflight.add(task)`
unfoldable pub create_tasks : List ℕ → Process → Process
create_tasks [] p = p
create_tasks (message_id ∷ ids) p = create_tasks ids (record p {
  at_semaphore = p.at_semaphore ++ record { number = p.next_task; message_id = message_id } ∷ [];
  next_task = suc p.next_task;
})

-- What `broker.consume` returned or raised
unfoldable pub take_messages : Result RedisError (List ℕ) → Process → Process
take_messages (err e) p = leave p
take_messages (ok ids) p = create_tasks ids (record p { phase = looping })

-- One pass of `_recovery_loop`, whose errors are logged
unfoldable pub take_claimed : Result RedisError (List ℕ) → Process → Process
take_claimed (err e) p = p
take_claimed (ok ids) p = create_tasks ids p

-- `async with self._sem:` is entered, which lowers the counter of the semaphore.
abbrev pub enter : List Task → Task → List Task → Process → Process
enter before t after p = record p {
  permits = p.permits - 1;
  at_semaphore = before ++ after;
  inside = p.inside ++ t ∷ [];
}

-- `async with self._sem:` is left, by a return, an exception or the end, which raises it again; the
-- task ends and `add_done_callback` discards it.
abbrev pub exit : List Task → List Task → Process → Process
exit before after p = record p { permits = suc p.permits; inside = before ++ after }

-- After the wait: the other tasks are cancelled, and the connections closed.
abbrev pub close : Bool → Process → Process
close timed_out p = record p { phase = closing timed_out; background = false }

-- No task of the list has the number.
abbrev pub Ended : List Task → ℕ → Type 0
Ended tasks n = Has n (numbers tasks) → ⊥

pub data ProcessStep (p : Process) : Process → Type 0 where
  signal : ProcessStep p (signalled p)
  test : p.phase ≡ looping → ProcessStep p (test_loop p)
  consume :
      (r : Result RedisError (List ℕ)) → p.phase ≡ consuming → ProcessStep p (take_messages r p)
  recover :
      (r : Result RedisError (List ℕ)) → p.background ≡ true → ProcessStep p (take_claimed r p)
  let_in :
      (before : List Task) (t : Task) (after : List Task)
      → p.at_semaphore ≡ before ++ t ∷ after
      → 0 < p.permits
      → ProcessStep p (enter before t after p)
  let_out :
      (before : List Task) (t : Task) (after : List Task)
      → p.inside ≡ before ++ t ∷ after
      → ProcessStep p (exit before after p)
  all_done :
      (ns : List ℕ)
      → p.phase ≡ waiting_for ns
      → All (Ended (inflight p)) ns
      → ProcessStep p (close false p)
  time_out : (ns : List ℕ) → p.phase ≡ waiting_for ns → ProcessStep p (close true p)

pub data ProcessReach (p : Process) : Process → Type 0 where
  start : ProcessReach p p
  next : {q r : Process} → ProcessReach p q → ProcessStep q r → ProcessReach p r
