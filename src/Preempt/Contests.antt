-- ===== src/Preempt/Contests.antt =====
-- The loop over the jobs of a queue that preempt others ends, and it keeps the books.
use k8s_simulator.Common.{
  ℕ, zero, suc, ◌+◌, ◌<◌, ◌==◌, ◌≡◌, refl, inr, Option, none, some, All, arith, length, length-Perm,
  pos, ◌≤ℤ◌, Dict, lookup,
}
use k8s_simulator.Common.Sums.{sum_of, sum_of-insert, All-lookup, All-insert}
use k8s_simulator.Common.Runs.{panic, of_option, Stops, Stops-done, Stops-bind, Stops-if}
use k8s_simulator.Task.{TaskInfo}
use k8s_simulator.Job.{JobInfo}
use k8s_simulator.Session.{EvictableFn}
use k8s_simulator.Queue.{PriorityQueue, empty}
use k8s_simulator.Queue.Take.{pop-IsTaken}
use k8s_simulator.Allocate.{AllocateSession, sorted_by, job_order}
use k8s_simulator.Allocate.Turns.{AreWhole}
use k8s_simulator.Preempt.Victims.{KeepsRequests}
use k8s_simulator.Preempt.Queues.{Contest, preempt_in_queue}
use k8s_simulator.Preempt.Upkeep.{AreKept, preempt_others-IsKeptUp, settle_preemptor-AreKept}

abbrev pub HasWholeTasks : ℕ × PriorityQueue TaskInfo → Type 0
HasWholeTasks e = AreWhole e.1.items

-- The number of the tasks that preempt.
abbrev pub tasks_left : Dict (PriorityQueue TaskInfo) → ℕ
tasks_left d = sum_of (λ (q : PriorityQueue TaskInfo). length q.items) d

found_or_panics : {A : Type 0} (o : Option A) → Stops (λ a. o ≡ some a) (of_option panic o)
found_or_panics none = inr refl
found_or_panics (some a) = Stops-done a refl

module _ {P : Type 0} (env : AllocateSession P) (sane : pos 0 ≤ℤ env.opts.min_nodes_to_find)
    (keep : (p : P)
      → All (λ (e : ℕ × EvictableFn). KeepsRequests e.1) (env.session p).preemptable_fns) where
  -- The books of the cluster and of the session are kept, and all tasks have whole requests.
  abbrev pub IsUpheld : Contest P → Type 0
  IsUpheld st = AreKept env sane keep st.cluster st.ssn × All HasWholeTasks st.preemptor_queues

  -- If MinNodesToFind is not negative and each plugin's function answers tasks with whole requests by such
  -- tasks, the loop over the jobs of a queue is not cut off at a bound above the number of these jobs and of
  -- all tasks that preempt: it stops at a panic, or it is done. Then the books of the cluster and of the
  -- session are kept and the tasks that preempt have whole requests, if all this was so before.
  pub preempt_in_queue-IsUpheld :
      (k : ℕ) (st : Contest P) (preemptors : PriorityQueue JobInfo)
      → length preemptors.items + tasks_left st.preemptor_queues < k
      → IsUpheld st
      → Stops IsUpheld (preempt_in_queue k env st preemptors)
  unfolding preempt_in_queue sorted_by empty
  preempt_in_queue-IsUpheld zero st preemptors small h = absurd (omega arith)
  preempt_in_queue-IsUpheld (suc k) st preemptors small h =
      Stops-if (length preemptors.items == 0) (λ e. Stops-done _ h)
        λ some_left.
          let sorted = sorted_by (job_order env st.ssn) preemptors in
          let ((top, rest), popped, t) = pop-IsTaken sorted (ground arith) in
          let got = t.got in
          let fewer : length rest.items < length preemptors.items =
            omega (arith, length-Perm t.same) in
          rw (popped, got)
            (Stops-bind (found_or_panics (lookup t.top.uid st.preemptor_queues)) λ tasks e.
              let whole = All-lookup HasWholeTasks t.top.uid tasks st.preemptor_queues h.1 e in
              Stops-bind
                (preempt_others-IsKeptUp env sane keep (suc (length tasks.items)) t.top _
                  (omega arith) (h.0.1, tt) whole)
                λ v (h', w, less, turned).
                  Stops-bind
                    (settle_preemptor-AreKept env sane keep st.cluster rest t.top v h.0.0 h')
                    λ (cluster', ssn', preemptors') (s', back).
                      let sums =
                        sum_of-insert (λ (q : PriorityQueue TaskInfo). length q.items) t.top.uid
                          tasks v.tasks st.preemptor_queues e in
                      preempt_in_queue-IsUpheld k _ preemptors' (ground arith)
                        (s', All-insert HasWholeTasks t.top.uid v.tasks st.preemptor_queues h.1 w))
