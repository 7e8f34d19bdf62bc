-- ===== src/Allocate/Filing.antt =====
-- The first loop of the allocate action files the jobs.
use k8s_simulator.Common.{
  ℕ, ◌≡◌, inl, inr, true, false, Option-cases, List, [], ◌∷◌, All, arith, Dict, lookup, insert,
  insert-Distinct,
}
use mathlib.Core.List.{forall_mem-cons, not-mem-nil}
use mathlib.Core.List.Perm
use mathlib.Core.Bool.{Bool-set}
use k8s_simulator.Common.Runs.{panic, Ends, Ends-done, Ends-bind, Ends-of_option, Ends-if}
use k8s_simulator.Common.Sums.{is_found, All-lookup, All-insert, contains}
use k8s_simulator.Job.{JobInfo}
use k8s_simulator.Job.Books.{IsBooked}
use k8s_simulator.Queue.{PriorityQueue, new_priority_queue}
use k8s_simulator.Queue.Laws.{push-IsPushed}
use k8s_simulator.Statement.{SessionState}
use k8s_simulator.Allocate.{
  AllocateSession, AllocateState, sorted_by, namespace_order, push_namespace, is_skipped,
  open_namespace, file_in_namespace, file_jobs, jobs_or_new,
}
use k8s_simulator.Allocate.Turns.{push_job-IsPushed}
use k8s_simulator.Allocate.Choice.{AreQueued, IsQueueMap}
use k8s_simulator.Allocate.Progress.{IsReady, with_namespaces}

module _ {P : Type 0} (env : AllocateSession P) (universe : List ℕ) where
  abbrev pub IsOffered : JobInfo → Type 0
  IsOffered j = (contains j.uid universe ≡ true) × ∥ IsBooked j ∥₁

  IsOffered-prop : (j : JobInfo) → IsProp (IsOffered j)
  IsOffered-prop j = let known = Bool-set (contains j.uid universe) true in hlevel known

  AreQueued-cons :
      (j : JobInfo) (js : List JobInfo)
      → IsOffered j
      → AreQueued env universe js
      → AreQueued env universe (j ∷ js)
  AreQueued-cons j js o h = (forall_mem-cons IsOffered-prop).1 (o, h)

  push_namespace-IsReady :
      (st : AllocateState P) (n : ℕ)
      → IsReady env universe st
      → Ends (IsReady env universe) (push_namespace env st n)
  unfolding push_namespace sorted_by
  push_namespace-IsReady st n r =
      Ends-bind
        (Ends-of_option panic
          (push-IsPushed (sorted_by (namespace_order env st.ssn) st.namespaces) n))
        λ ns p. Ends-done _ (with_namespaces env universe st ns r)

  with_maps :
      (st : AllocateState P) (n : ℕ) (m : Dict (PriorityQueue JobInfo))
      → IsReady env universe st
      → IsQueueMap env universe m
      → IsReady env universe (record st { jobs_map = insert n m st.jobs_map })
  with_maps st n m r ok = record {
    cluster_sound = r.cluster_sound;
    sound = r.sound;
    whole = r.whole;
    maps = All-insert _ n m st.jobs_map r.maps ok;
  }

  open_namespace-IsReady :
      (st : AllocateState P) (n : ℕ)
      → IsReady env universe st
      → Ends
          (λ (r : AllocateState P × Dict (PriorityQueue JobInfo)).
            IsReady env universe r.0 × IsQueueMap env universe r.1)
          (open_namespace env st n)
  unfolding open_namespace
  open_namespace-IsReady st n r = elim (Option-cases (lookup n st.jobs_map)) [
    | inr (m, e) ↦ rw (open_namespace, e) (Ends-done _ (r, All-lookup _ n m st.jobs_map r.maps e))
    | inl e ↦
        rw (open_namespace, e)
          (Ends-bind (push_namespace-IsReady st n r)
            λ st' r'. Ends-done _ (with_maps st' n [] r' (tt, tt), (tt, tt)))
  ]

  -- The queue that a job goes to.
  jobs_or_new-AreQueued :
      (ssn : SessionState P) (id : ℕ) (m : Dict (PriorityQueue JobInfo))
      → IsQueueMap env universe m
      → AreQueued env universe (jobs_or_new env ssn (lookup id m)).items
  unfolding jobs_or_new new_priority_queue
  jobs_or_new-AreQueued ssn id m ok = elim (Option-cases (lookup id m)) [
    | inl e ↦ rw e (λ j i. absurd (not-mem-nil i))
    | inr (q, e) ↦ rw e ((All-lookup _ id q m ok.1 e).1)
  ]

  file_in_namespace-IsReady :
      (st : AllocateState P) (job : JobInfo)
      → IsReady env universe st
      → IsOffered job
      → is_found (lookup job.queue env.queues) ≡ true
      → Ends (IsReady env universe) (file_in_namespace env st job)
  unfolding file_in_namespace
  file_in_namespace-IsReady st job r o known =
      Ends-bind (open_namespace-IsReady st job.namespace r) λ (st', m) (r', ok).
        Ends-bind (push_job-IsPushed env st.ssn (jobs_or_new env st.ssn (lookup job.queue m)) job)
          λ q p.
            let queued = AreQueued-cons job _ o (jobs_or_new-AreQueued st.ssn job.queue m ok) in
            Ends-done _ (
              with_maps st' job.namespace (insert job.queue q m) r' (
                insert-Distinct job.queue q m ok.0,
                All-insert _ job.queue q m ok.1 (known, λ i k. queued i ((Perm.mem_iff p).0 k)),
              ))

  kept_queue :
      (ssn : SessionState P) (job : JobInfo)
      → is_skipped env ssn job ≡ false
      → is_found (lookup job.queue env.queues) ≡ true
  unfolding is_skipped
  kept_queue ssn job e = ground arith

  pub file_jobs-IsReady :
      (d : Dict JobInfo) (st : AllocateState P)
      → IsReady env universe st
      → All (λ (e : ℕ × JobInfo). IsOffered e.1) d
      → Ends (IsReady env universe) (file_jobs env d st)
  unfolding file_jobs
  file_jobs-IsReady [] st r h = Ends-done st r
  file_jobs-IsReady ((k, job) ∷ d) st r h =
      Ends-if (is_skipped env st.ssn job) (λ e. file_jobs-IsReady d st r h.1)
        λ e.
          Ends-bind (file_in_namespace-IsReady st job r h.0 (kept_queue st.ssn job e))
            λ st' r'. file_jobs-IsReady d st' r' h.1
