-- ===== src/Enqueue/Loop.antt =====
-- The second loop of the enqueue action ends.
use k8s_simulator.Common.{
  ℕ, zero, suc, ◌+◌, ◌≤◌, ◌<◌, ◌≡◌, ap, inl, inr, some, [], ◌∷◌, arith, ◌==◌, Option-cases, length,
  ℤ, Dict, lookup, insert, ◌>>=◌, Returns, Returns-some, Returns-bind, Returns-if, length-Perm,
}
use k8s_simulator.Job.{JobInfo}
use k8s_simulator.Session.{QueueInfo}
use k8s_simulator.Queue.{PriorityQueue, push, pop, empty}
use k8s_simulator.Queue.Laws.{push-IsPushed}
use k8s_simulator.Queue.Take.{pop-IsTaken}
use k8s_simulator.Enqueue.{
  EnqueueSession, EnqueueState, admit_job, serve_queue, serve, jobs_left, rounds,
}
use k8s_simulator.Enqueue.Phases.{HaveGroups, IsServing, admit_job-IsServing, popped-IsServing}

jobs_left-insert :
    (k : ℕ) (q r : PriorityQueue JobInfo) (d : Dict (PriorityQueue JobInfo))
    → lookup k d ≡ some q
    → jobs_left (insert k r d) + length q.items ≡ jobs_left d + length r.items
unfolding jobs_left lookup insert
jobs_left-insert k q r [] e = cc
jobs_left-insert k q r ((j, w) ∷ d) e = ground (arith, jobs_left-insert k q r d)

module _ {P : Type 0} (ssn : EnqueueSession P) (old : Dict JobInfo) (now : ℕ → ℤ) where
  -- A round on a queue that was popped: the rounds left are no more than before it.
  abbrev Served : EnqueueState P → EnqueueState P → Type 0
  Served st st' = IsServing old now st' × (rounds st' ≤ rounds st)

  serve_jobs :
      (st : EnqueueState P) (queue : QueueInfo) (jobs : PriorityQueue JobInfo)
      → HaveGroups old
      → IsServing old now st
      → lookup queue.uid st.jobs_map ≡ some jobs
      → 0 < length jobs.items
      → Returns (Served st) (do
        (top, rest) ← pop jobs
        job ← top
        st' ← admit_job ssn (record st { jobs_map = insert queue.uid rest st.jobs_map }) job
        qs ← push st'.queues queue
        some (record st' { queues = qs }))
  unfolding rounds
  serve_jobs st queue jobs g v e h =
      let ((top, rest), popped, t) = pop-IsTaken jobs h in
      let got = t.got in
      let (next, offered) = popped-IsServing old now st queue.uid jobs rest t.top v e t.same in
      let mid = record st { jobs_map = insert queue.uid rest st.jobs_map } in
      let left = jobs_left-insert queue.uid jobs rest st.jobs_map e in
      rw (popped, got)
        (Returns-bind (admit_job-IsServing ssn old now mid t.top g next offered)
          λ st' (v', same_queues, same_map).
            Returns-bind (push-IsPushed st'.queues queue) λ qs pushed. Returns-some _ (
              record { offered = v'.offered; outcome = v'.outcome },
              omega (
                arith,
                left,
                length-Perm t.same,
                length-Perm pushed.same,
                ap (λ (q : PriorityQueue QueueInfo). length q.items) same_queues,
                ap jobs_left same_map,
              ),
            ))

  serve_queue-Served :
      (st : EnqueueState P) (queue : QueueInfo)
      → HaveGroups old
      → IsServing old now st
      → Returns (Served st) (serve_queue ssn st queue)
  unfolding serve_queue empty
  serve_queue-Served st queue g v = elim (Option-cases (lookup queue.uid st.jobs_map)) [
    | inl missing ↦ rw (serve_queue, missing) (Returns-some st (v, omega arith))
    | inr (jobs, e) ↦
        rw (serve_queue, e)
          (Returns-if (length jobs.items == 0) (λ none_left. Returns-some st (v, omega arith))
            λ some_left. serve_jobs st queue jobs g v e (ground arith))
  ]

  -- With more fuel than rounds the loop ends, and no queue is left.
  pub serve-IsServing :
      (k : ℕ) (st : EnqueueState P)
      → HaveGroups old
      → IsServing old now st
      → rounds st < k
      → Returns (λ st'. IsServing old now st' × (length st'.queues.items ≡ 0)) (serve k ssn st)
  unfolding serve empty rounds
  serve-IsServing zero st g v h = absurd (omega arith)
  serve-IsServing (suc k) st g v h =
      Returns-if (length st.queues.items == 0) (λ none_left. Returns-some st (v, ground arith))
        λ some_left.
          let ((top, rest), popped, t) = pop-IsTaken st.queues (ground arith) in
          let got = t.got in
          let mid = record st { queues = rest } in
          rw (popped, got)
            (Returns-bind
              (serve_queue-Served mid t.top g (record { offered = v.offered; outcome = v.outcome }))
              λ st' (v', fewer). serve-IsServing k st' g v' (omega (arith, length-Perm t.same)))
