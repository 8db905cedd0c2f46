-- ===== src/Worker/Process/Leaving.antt =====
-- What a worker does after its consuming loop: nothing more is read, and what was in flight ends.
use eventmesh.Base.{
  ℕ, ◌≤◌, ◌<◌, ◌≡◌, ◌⊎◌, refl, ◌∙◌, subst, true, false, inl, inr, List, arith, All, All-append,
  All-Has, All-of_forall, Has, Has-map_of, Has-map, Has-append_left, Has-append_right, Result, ok,
  err,
}
use eventmesh.Messaging.RedisStreams.{RedisError}
use eventmesh.Worker.Process.{
  Task, Phase, looping, consuming, waiting_for, closing, Process, inflight, numbers,
  initial_process, leave, take_claimed, close, Ended, ProcessStep, ProcessReach, signal, test,
  consume, recover, let_in, let_out, all_done, time_out, start, next,
}
use eventmesh.Worker.Process.Tasks.{
  TasksAre, create_tasks_next, create_tasks-TasksAre, create_tasks_keeps, enter-TasksAre,
  exit-TasksAre, ProcessReach-Numbered,
}

-- Where a worker stands that waits for the tasks `ns`, or has waited for them.
abbrev Waits : List ℕ → Phase → Type 0
Waits ns looping = ⊥
Waits ns consuming = ⊥
Waits ns (waiting_for ms) = ms ≡ ns
Waits ns (closing timed_out) = Unit

-- Which tasks may be in flight
abbrev Remains : Process → Phase → ℕ → Type 0
Remains p (closing false) k = p.next_task ≤ k
Remains p (closing true) k = Unit
Remains p (waiting_for ns) k = Has k (numbers (inflight p)) ⊎ (p.next_task ≤ k)
Remains p looping k = ⊥
Remains p consuming k = ⊥

record Left (p q : Process) : Type 0 where
  waits : Waits (numbers (inflight p)) q.phase
  stopped : q.publishing ≡ false
  reads : q.reads ≡ p.reads
  grown : p.next_task ≤ q.next_task
  tasks : TasksAre (Remains p q.phase) q

leave-Left : (p : Process) → Left p (leave p)
unfolding leave
leave-Left p = record {
  waits = refl;
  stopped = refl;
  reads = refl;
  grown = omega arith;
  tasks = (
    All-of_forall p.at_semaphore (λ t m. inl (
        Has-map_of (λ (t : Task). t.number) t (inflight p)
          (Has-append_left t p.at_semaphore p.inside m))),
    All-of_forall p.inside (λ t m. inl (
        Has-map_of (λ (t : Task). t.number) t (inflight p)
          (Has-append_right t p.at_semaphore p.inside m))),
  );
}

Remains-new :
    (p : Process) (phase : Phase) (k : ℕ)
    → Waits (numbers (inflight p)) phase
    → p.next_task ≤ k
    → Remains p phase k
Remains-new p looping k w h = absurd w
Remains-new p consuming k w h = absurd w
Remains-new p (waiting_for ns) k w h = inr h
Remains-new p (closing true) k w h = tt
Remains-new p (closing false) k w h = h

take_claimed-Left :
    (p q : Process) (r : Result RedisError (List ℕ)) → Left p q → Left p (take_claimed r q)
unfolding take_claimed
take_claimed-Left p q (err e) h = h
take_claimed-Left p q (ok ids) h =
    let (phase, publishing, reads) = create_tasks_keeps ids q in
    record {
      waits = rw phase h.waits;
      stopped = publishing ∙ h.stopped;
      reads = reads ∙ h.reads;
      grown = omega (arith, create_tasks_next ids q, h.grown);
      tasks = rw phase (
          create_tasks-TasksAre (Remains p q.phase) ids q
            (λ k low high. Remains-new p q.phase k h.waits (omega (arith, low, h.grown))) h.tasks);
    }

-- The tasks that were waited for have ended.
new_only :
    (p q : Process) (ts : List Task)
    → ((t : Task) → Has t ts → Has t (inflight q))
    → All (Ended (inflight q)) (numbers (inflight p))
    → All (λ (t : Task). Has t.number (numbers (inflight p)) ⊎ (p.next_task ≤ t.number)) ts
    → All (λ (t : Task). p.next_task ≤ t.number) ts
new_only p q ts among ended h = All-of_forall ts λ t m. elim (All-Has _ ts h m) [
  | inr created ↦ created
  | inl old ↦ absurd (
      All-Has (Ended (inflight q)) (numbers (inflight p)) ended old
        (Has-map_of (λ (t : Task). t.number) t (inflight q) (among t m)))
]

all_done-Left :
    (p q : Process) (ns : List ℕ)
    → q.phase ≡ waiting_for ns
    → All (Ended (inflight q)) ns
    → Left p q
    → Left p (close false q)
all_done-Left p q ns e ended h =
    let same : ns ≡ numbers (inflight p) = subst (Waits (numbers (inflight p))) e h.waits in
    let all_ended = subst (All (Ended (inflight q))) same ended in
    let (first, second) : TasksAre (Remains p (waiting_for ns)) q =
      subst (λ f. TasksAre (Remains p f) q) e h.tasks in
    record {
      waits = tt;
      stopped = h.stopped;
      reads = h.reads;
      grown = h.grown;
      tasks = (
        new_only p q q.at_semaphore (λ t m. Has-append_left t q.at_semaphore q.inside m) all_ended
            first,
        new_only p q q.inside (λ t m. Has-append_right t q.at_semaphore q.inside m) all_ended
            second,
      );
    }

ProcessStep-Left : (p : Process) {q r : Process} → Left p q → ProcessStep q r → Left p r
ProcessStep-Left p h signal = record {
  waits = h.waits;
  stopped = h.stopped;
  reads = h.reads;
  grown = h.grown;
  tasks = h.tasks;
}
ProcessStep-Left p h (test e) = absurd (subst (Waits (numbers (inflight p))) e h.waits)
ProcessStep-Left p h (consume r e) = absurd (subst (Waits (numbers (inflight p))) e h.waits)
ProcessStep-Left p {q} h (recover r e) = take_claimed-Left p q r h
ProcessStep-Left p {q} h (let_in before t after e free) = record {
  waits = h.waits;
  stopped = h.stopped;
  reads = h.reads;
  grown = h.grown;
  tasks = enter-TasksAre (Remains p q.phase) q before t after e h.tasks;
}
ProcessStep-Left p {q} h (let_out before t after e) = record {
  waits = h.waits;
  stopped = h.stopped;
  reads = h.reads;
  grown = h.grown;
  tasks = exit-TasksAre (Remains p q.phase) q before t after e h.tasks;
}
ProcessStep-Left p {q} h (all_done ns e ended) = all_done-Left p q ns e ended h
ProcessStep-Left p {q} h (time_out ns e) = record {
  waits = tt;
  stopped = h.stopped;
  reads = h.reads;
  grown = h.grown;
  tasks = (All-of_forall q.at_semaphore (λ t m. tt), All-of_forall q.inside (λ t m. tt));
}

ProcessReach-Left : (p : Process) {q : Process} → ProcessReach (leave p) q → Left p q
ProcessReach-Left p start = leave-Left p
ProcessReach-Left p (next reach step) = ProcessStep-Left p (ProcessReach-Left p reach) step

-- A worker that leaves its consuming loop, by a signal or an exception, never reads again and has
-- stopped its publisher. If it then closes without a time-out, each task that was in flight when it
-- left has ended before.
pub ProcessReach-leave :
    (n : ℕ) {p q : Process}
    → ProcessReach (initial_process n) p
    → ProcessReach (leave p) q
    → (q.reads ≡ p.reads)
      × (q.publishing ≡ false)
      × (q.phase ≡ closing false → (k : ℕ) → Has k (numbers (inflight p)) → Ended (inflight q) k)
ProcessReach-leave n {p} {q} reach left =
    let h = ProcessReach-Left p left in
    let numbered = ProcessReach-Numbered n reach in
    let below =
      All-append (λ (t : Task). t.number < p.next_task) p.at_semaphore p.inside numbered.0
        numbered.1 in
    (
      h.reads,
      h.stopped,
      λ closed k old there.
          let (t, m, same) = Has-map (λ (t : Task). t.number) k (inflight p) old in
          let (u, o, also) = Has-map (λ (t : Task). t.number) k (inflight q) there in
          let (first, second) : TasksAre (λ k. p.next_task ≤ k) q =
            subst (λ f. TasksAre (Remains p f) q) closed h.tasks in
          let above =
            All-Has _ (inflight q)
              (All-append (λ (t : Task). p.next_task ≤ t.number) q.at_semaphore q.inside first
                second)
              o in
          let under = All-Has _ (inflight p) below m in omega (arith, above, under, same, also),
    )
