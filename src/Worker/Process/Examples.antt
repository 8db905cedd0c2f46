-- ===== src/Worker/Process/Examples.antt =====
-- A worker that processes one message at a time, and is shut down.
use eventmesh.Base.{ℕ, ◌+◌, ◌≡◌, refl, false, true, [], ◌∷◌, length, Has, ok, arith}
use eventmesh.Worker.Process.{
  Task, looping, closing, Process, initial_process, leave, test_loop, create_tasks, take_messages,
  Ended, ProcessReach, test, consume, let_in, let_out, all_done, start, next,
}
use eventmesh.Worker.Process.Bounded.{ProcessReach-Balanced, backlog}
use eventmesh.Worker.Process.Leaving.{ProcessReach-leave}

abbrev first : Task
first = record { number = 0; message_id = 7 }

abbrev second : Task
second = record { number = 1; message_id = 8 }

-- Two messages are read, and one of them is let in.
abbrev busy : Process
busy = record {
  phase = looping;
  shutdown = false;
  permits = 0;
  at_semaphore = second ∷ [];
  inside = first ∷ [];
  next_task = 2;
  publishing = true;
  background = true;
  reads = 1;
}

busy_reached : ProcessReach (initial_process 1) busy
unfolding test_loop take_messages create_tasks
busy_reached =
    next (next (next start (test refl)) (consume (ok (7 ∷ 8 ∷ [])) refl))
      (let_in [] first (second ∷ []) refl (omega arith))

ProcessReach-Balanced_example : length (first ∷ []) + 0 ≡ 1
ProcessReach-Balanced_example = ProcessReach-Balanced 1 busy_reached

backlog_example :
    (q : Process) × ProcessReach busy q
    × (length q.at_semaphore ≡ length busy.at_semaphore + 100)
    × (q.inside ≡ busy.inside)
    × (q.phase ≡ looping)
    × (q.shutdown ≡ false)
backlog_example = backlog 100 busy refl refl

-- Both tasks end, and the wait with them.
abbrev drained : Process
drained = record (leave busy) {
  phase = closing false;
  permits = 1;
  at_semaphore = [];
  inside = [];
  background = false;
}

drained_reached : ProcessReach (leave busy) drained
unfolding leave
drained_reached =
    next
      (next (next (next start (let_out [] first [] refl)) (let_in [] second [] refl (omega arith)))
        (let_out [] second [] refl))
      (all_done (1 ∷ 0 ∷ []) refl ((λ h. h), ((λ h. h), tt)))

ProcessReach-leave_example :
    (drained.reads ≡ 1)
    × (drained.publishing ≡ false)
    × (closing false ≡ closing false → (k : ℕ) → Has k (1 ∷ 0 ∷ []) → Ended [] k)
unfolding leave
ProcessReach-leave_example = ProcessReach-leave 1 busy_reached drained_reached
