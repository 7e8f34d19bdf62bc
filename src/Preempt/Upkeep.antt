-- ===== src/Preempt/Upkeep.antt =====
-- The loops of the preempt action over tasks end, and they keep the books of the session and of the cluster.
use k8s_simulator.Common.{
  ℕ, zero, suc, ◌≤◌, ◌<◌, ◌==◌, ◌≡◌, refl, ◌⊎◌, inl, inr, Bool, not, ◌||◌, Bool-cases, true, [],
  ◌∷◌, All, arith, length, length-Perm, pos, ◌≤ℤ◌,
}
use mathlib.Core.List.{Mem, mem-cons_self, mem-cons_of_mem}
use mathlib.Core.List.Perm
use k8s_simulator.Common.Runs.{
  panic, Ends-map, Ends-of_option, Stops, Stops-map, Stops-done, Stops-bind, Stops-if,
}
use k8s_simulator.Resource.Exact.{IsRequest}
use k8s_simulator.Task.{TaskInfo}
use k8s_simulator.Job.{JobInfo}
use k8s_simulator.Session.{EvictableFn}
use k8s_simulator.Session.Ballot.{job_starving, job_pipelined}
use k8s_simulator.Queue.{PriorityQueue, empty}
use k8s_simulator.Queue.Take.{pop-IsTaken}
use k8s_simulator.Helper.Predicates.{PredicateHelper}
use k8s_simulator.Statement.{SessionState}
use k8s_simulator.Statement.Operations.{StatementState}
use k8s_simulator.Statement.Commit.{Cluster}
use k8s_simulator.Statement.Soundness.{IsSound}
use k8s_simulator.Statement.Reach.{discard-IsSound}
use k8s_simulator.Statement.Binding.{as_session, commit-AreSound}
use k8s_simulator.Allocate.{AllocateSession, sorted_by, job_now, task_order}
use k8s_simulator.Allocate.Tasks.{session_of}
use k8s_simulator.Allocate.Steps.{IsOpen}
use k8s_simulator.Allocate.Turns.{AreWhole, push_job-IsPushed}
use k8s_simulator.Preempt.{of_same_job, of_other_job, preempt}
use k8s_simulator.Preempt.Victims.{KeepsRequests}
use k8s_simulator.Preempt.Eviction.{preempt-IsTraced}
use k8s_simulator.Preempt.Rounds.{Turn, preempt_others, settle_preemptor, preempt_within}

module _ {P : Type 0} (env : AllocateSession P) (sane : pos 0 ≤ℤ env.opts.min_nodes_to_find)
    (keep : (p : P)
      → All (λ (e : ℕ × EvictableFn). KeepsRequests e.1) (env.session p).preemptable_fns) where
  preempt-IsOpen :
      (filter : SessionState P → TaskInfo → Bool) (stmt : StatementState P) (t : TaskInfo)
      (helper : PredicateHelper)
      → IsOpen stmt
      → IsRequest t.resreq
      → Stops
          (λ (r : StatementState P × Bool × PredicateHelper). IsOpen r.0)
          (preempt env stmt t filter helper)
  preempt-IsOpen filter stmt t helper h q =
      Stops-map
        (preempt-IsTraced env filter t stmt (λ asked node u. Unit {0}) (λ asked node u l. tt) helper
          sane keep q h)
        λ r traced. traced.0

  -- What the loop over a job's tasks leaves: no more tasks, and fewer if some task was assigned.
  abbrev pub IsKeptUp : Turn P → Turn P → Type 0
  IsKeptUp v r =
      IsOpen r.stmt
      × AreWhole r.tasks.items
      × (length r.tasks.items ≤ length v.tasks.items)
      × ((r.assigned ≡ v.assigned) ⊎ (length r.tasks.items < length v.tasks.items))

  pub preempt_others-IsKeptUp :
      (k : ℕ) (j : JobInfo) (v : Turn P)
      → length v.tasks.items < k
      → IsOpen v.stmt
      → AreWhole v.tasks.items
      → Stops (IsKeptUp v) (preempt_others k env j v)
  unfolding preempt_others sorted_by empty
  preempt_others-IsKeptUp zero j v small h w = absurd (omega arith)
  preempt_others-IsKeptUp (suc k) j v small h w =
      let ssn = v.stmt.ssn in
      Stops-if (not (job_starving (session_of env ssn) (job_now ssn j)))
        (λ e. Stops-done _ (h, w, omega arith, inl refl))
        λ starves.
          Stops-if (length v.tasks.items == 0) (λ e. Stops-done _ (h, w, omega arith, inl refl))
            λ some_left.
              let sorted = sorted_by (task_order env ssn) v.tasks in
              let ((top, rest), popped, t) = pop-IsTaken sorted (ground arith) in
              let got = t.got in
              let inside = λ (y : TaskInfo) (m : Mem y (t.top ∷ rest.items)).
                w y ((Perm.mem_iff t.same).0 m) in
              let fewer : length rest.items < length v.tasks.items =
                omega (arith, length-Perm t.same) in
              rw (popped, got)
                (Stops-bind
                  (preempt-IsOpen (of_other_job j t.top) v.stmt t.top v.helper h
                    (inside t.top mem-cons_self))
                  λ (stmt', preempted, helper') h'.
                    let more =
                      preempt_others-IsKeptUp k j
                        (record {
                          stmt = stmt';
                          tasks = rest;
                          helper = helper';
                          assigned = preempted || v.assigned;
                        })
                        (omega arith) h' (λ y m. inside y (mem-cons_of_mem t.top m)) in
                    Stops-map more
                      λ r (h'', w', less, a). (h'', w', omega arith, inr (omega arith)))

  -- Both books are kept.
  abbrev pub AreKept : Cluster → SessionState P → Type 0
  AreKept cluster ssn = IsSound (as_session cluster) × IsSound ssn

  -- Whether a queue is no longer than another one, but for a job that waits again.
  abbrev pub IsBack : Turn P → PriorityQueue JobInfo → PriorityQueue JobInfo → Type 0
  IsBack v q r =
      (length r.items ≤ length q.items)
      ⊎ ((v.assigned ≡ true) × (length r.items ≤ suc (length q.items)))

  pub settle_preemptor-AreKept :
      (cluster : Cluster) (preemptors : PriorityQueue JobInfo) (j : JobInfo) (v : Turn P)
      → IsSound (as_session cluster)
      → IsOpen v.stmt
      → Stops
          (λ (r : Cluster × SessionState P × PriorityQueue JobInfo).
            AreKept r.0 r.1 × IsBack v preemptors r.2)
          (settle_preemptor env cluster preemptors j v)
  unfolding settle_preemptor
  settle_preemptor-AreKept cluster preemptors j v c h =
      let ssn = v.stmt.ssn in
      Stops-if (job_pipelined (session_of env ssn) (job_now ssn j))
        (λ e.
          Stops-bind
            (inl (
              Ends-of_option panic
                (commit-AreSound env.now cluster ssn v.stmt.operations c h.0 h.1)))
            λ (cluster', ssn') s'.
              Stops-bind {P = IsBack v preemptors}
                (Stops-if v.assigned
                  (λ waits. inl (
                    Ends-map (push_job-IsPushed env ssn' preemptors j)
                      λ q p. inr (waits, omega (arith, length-Perm p))))
                  λ rests. Stops-done _ (inl (omega arith)))
                λ preemptors' b. Stops-done _ (s', b))
        λ e.
          Stops-bind
            (inl (
              Ends-of_option panic
                (discard-IsSound env.handlers env.now ssn v.stmt.operations h.0 h.1)))
            λ ssn' s'. Stops-done _ ((c, s'), inl (omega arith))

  -- If MinNodesToFind is not negative and each plugin's function answers tasks with whole requests by such
  -- tasks, the preemption between the tasks of one job is not cut off at a bound above the number of its
  -- tasks, all with whole requests: it stops at a panic, or it is done and the books of the cluster and of the session are
  -- kept, if they were.
  pub preempt_within-AreKept :
      (k : ℕ) (cluster : Cluster) (ssn : SessionState P) (tasks : PriorityQueue TaskInfo)
      (helper : PredicateHelper)
      → length tasks.items < k
      → AreKept cluster ssn
      → AreWhole tasks.items
      → Stops
          (λ (r : Cluster × SessionState P × PriorityQueue TaskInfo × PredicateHelper).
            AreKept r.0 r.1)
          (preempt_within k env cluster ssn tasks helper)
  unfolding preempt_within sorted_by empty
  preempt_within-AreKept zero cluster ssn tasks helper small s w = absurd (omega arith)
  preempt_within-AreKept (suc k) cluster ssn tasks helper small s w =
      Stops-if (length tasks.items == 0) (λ e. Stops-done _ s)
        λ some_left.
          let sorted = sorted_by (task_order env ssn) tasks in
          let ((top, rest), popped, t) = pop-IsTaken sorted (ground arith) in
          let got = t.got in
          let inside =
            λ (y : TaskInfo) (m : Mem y (t.top ∷ rest.items)). w y ((Perm.mem_iff t.same).0 m) in
          let fewer : length rest.items < length tasks.items = omega (arith, length-Perm t.same) in
          rw (popped, got)
            (Stops-bind
              (preempt-IsOpen (λ s task. of_same_job t.top task)
                (record { operations = []; ssn = ssn }) t.top helper (s.1, tt)
                (inside t.top mem-cons_self))
              λ (stmt, assigned, helper') h'.
                Stops-bind
                  (inl (
                    Ends-of_option panic
                      (commit-AreSound env.now cluster stmt.ssn stmt.operations s.0 h'.0 h'.1)))
                  λ (cluster', ssn') s'. elim (Bool-cases assigned) [
                    | inl again ↦ rw again (
                        preempt_within-AreKept k cluster' ssn' rest helper' (omega arith) s'
                          λ y m. inside y (mem-cons_of_mem t.top m))
                    | inr stops ↦ rw stops (Stops-done _ s')
                  ])
