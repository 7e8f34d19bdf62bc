-- ===== src/Allocate/Progress.antt =====
-- Every round of the loop over the namespaces makes progress, and keeps the books.
use k8s_simulator.Common.{
  ℕ, ◌+◌, ◌≤◌, ◌<◌, ◌≡◌, ◌⊎◌, inl, inr, some, List, All, arith, Dict, lookup, length, length-Perm,
}
use k8s_simulator.Common.Runs.{panic, Ends, Ends-done, Ends-bind, Ends-of_option, Ends-if}
use k8s_simulator.Common.Sums.{sum_of, missing}
use k8s_simulator.Task.{TaskInfo}
use k8s_simulator.Job.{JobInfo}
use k8s_simulator.Session.Ballot.{job_ready, job_pipelined}
use k8s_simulator.Queue.{PriorityQueue}
use k8s_simulator.Queue.Laws.{push-IsPushed}
use k8s_simulator.Statement.{SessionState}
use k8s_simulator.Statement.Operations.{StatementState}
use k8s_simulator.Statement.Commit.{Cluster}
use k8s_simulator.Statement.Soundness.{IsSound}
use k8s_simulator.Statement.Reach.{discard-IsSound}
use k8s_simulator.Statement.Binding.{as_session, commit-AreSound}
use k8s_simulator.Allocate.{
  AllocateSession, AllocateState, sorted_by, job_now, namespace_order, push_namespace,
}
use k8s_simulator.Allocate.Tasks.{session_of}
use k8s_simulator.Allocate.Steps.{IsOpen}
use k8s_simulator.Allocate.Turns.{AreWhole}
use k8s_simulator.Allocate.Choice.{weight_of, IsQueueMap}
use k8s_simulator.Allocate.Rounds.{settle}

abbrev pub tasks_left : PriorityQueue TaskInfo → ℕ
tasks_left q = length q.items

module _ {P : Type 0} where
  -- What is left to do, but for the jobs that were not visited yet: every round makes one of the two less.
  abbrev pub size : AllocateState P → ℕ
  size st =
      length st.namespaces.items + sum_of weight_of st.jobs_map + sum_of tasks_left st.pending_tasks

module _ {P : Type 0} (env : AllocateSession P) (universe : List ℕ) where
  pub record IsReady (st : AllocateState P) : Type 0 where
    pub cluster_sound : IsSound (as_session st.cluster)
    pub sound : IsSound st.ssn
    pub whole :
        (k : ℕ) (q : PriorityQueue TaskInfo) → lookup k st.pending_tasks ≡ some q → AreWhole q.items
    pub maps :
        All (λ (e : ℕ × Dict (PriorityQueue JobInfo)). IsQueueMap env universe e.1) st.jobs_map

  -- No more jobs are unvisited, and fewer, or no more is left to do.
  abbrev pub Progress : AllocateState P → AllocateState P → Type 0
  Progress st st' =
      (missing universe st'.pending_tasks < missing universe st.pending_tasks)
      ⊎ ((missing universe st'.pending_tasks ≤ missing universe st.pending_tasks)
          × (size st' ≤ size st))

  pub with_namespaces :
      (st : AllocateState P) (ns : PriorityQueue ℕ)
      → IsReady st
      → IsReady (record st { namespaces = ns })
  with_namespaces st ns r = record {
    cluster_sound = r.cluster_sound;
    sound = r.sound;
    whole = r.whole;
    maps = r.maps;
  }

  -- A namespace that is put back: `room` is what was made less for it.
  pub push_namespace-Progress :
      (old st : AllocateState P) (n : ℕ)
      → IsReady st
      → (missing universe st.pending_tasks < missing universe old.pending_tasks)
        ⊎ ((missing universe st.pending_tasks ≤ missing universe old.pending_tasks)
            × (size st < size old))
      → Ends (λ st'. IsReady st' × Progress old st') (push_namespace env st n)
  unfolding push_namespace sorted_by
  push_namespace-Progress old st n r room =
      Ends-bind
        (Ends-of_option panic
          (push-IsPushed (sorted_by (namespace_order env st.ssn) st.namespaces) n))
        λ ns p.
          let longer = length-Perm p.same in
          Ends-done _ (
            with_namespaces st ns r,
            elim room [ inl fewer ↦ inl fewer | inr (no_more, less) ↦ inr (no_more, omega arith) ],
          )

  pub settle-AreSound :
      (cluster : Cluster) (j : JobInfo) (stmt : StatementState P)
      → IsSound (as_session cluster)
      → IsOpen stmt
      → Ends
          (λ (r : Cluster × SessionState P). IsSound (as_session r.0) × IsSound r.1)
          (settle env cluster j stmt)
  unfolding settle
  settle-AreSound cluster j stmt c (s, ops) =
      let ssn = session_of env stmt.ssn in
      let job = job_now stmt.ssn j in
      Ends-if (job_ready ssn job)
        (λ e.
          Ends-of_option panic (commit-AreSound env.now cluster stmt.ssn stmt.operations c s ops))
        λ e.
          Ends-if (job_pipelined ssn job) (λ f. Ends-done _ (c, s))
            λ f.
              Ends-bind
                (Ends-of_option panic
                  (discard-IsSound env.handlers env.now stmt.ssn stmt.operations s ops))
                λ ssn' s'. Ends-done _ (c, s')
