-- ===== src/Statement/Binding.antt =====
-- Commit keeps the books of the cluster and of the session.
use k8s_simulator.Common.{
  ℕ, Bool, true, ◌≡◌, refl, sym, ap, ◌∙◌, subst, inl, inr, Bool-cases, Option, none, some,
  Option-cases, List, [], ◌∷◌, arith, ◌==◌, if◌then◌else◌, All, ℤ, ◌+ℤ◌, Dict, Distinct, lookup,
  Returns, Returns-some, Returns-bind,
}
use k8s_simulator.Resource.{get}
use k8s_simulator.Resource.Exact.{IsRequest}
use k8s_simulator.Task.{TaskInfo, Status, binding, clear_last_tx_context}
use k8s_simulator.Task.Totals.{share, total}
use k8s_simulator.Job.{JobInfo}
use k8s_simulator.Job.Books.{IsBooked}
use k8s_simulator.Node.{NodeInfo}
use k8s_simulator.Statement.{SessionState, Failure}
use k8s_simulator.Statement.Operations.{
  OperationName, Operation, evict_op, pipeline_op, allocate_op, assign,
}
use k8s_simulator.Statement.Commit.{
  Cluster, is_binding, raise_countdowns, bind_task, bind_in_session, commit_allocation, commit,
}
use k8s_simulator.Statement.Withdrawal.{change_status}
use k8s_simulator.Statement.Nodes.{IsNodeOf, IsSameTask, add_task-IsNodeOf}
use k8s_simulator.Statement.Soundness.{
  IsSound, insert_job-IsSound, insert_node-IsSound, write_held, Changed-IsHeld, resreq-Changed,
}
use k8s_simulator.Statement.Steps.{both}
use k8s_simulator.Statement.Assignment.{assign-IsSound, cleared}

-- The cluster as a session without plugins.
abbrev pub as_session : Cluster → SessionState (Unit {0})
as_session c = record { jobs = c.jobs; nodes = c.nodes; plugins = tt }

module _ (extra : ℤ) where
  lookup-raise_none :
      (k : ℕ) (d : Dict TaskInfo) → lookup k d ≡ none → lookup k (raise_countdowns extra d) ≡ none
  unfolding lookup raise_countdowns
  lookup-raise_none k [] e = refl
  lookup-raise_none k ((j, t) ∷ d) e = ground (arith, lookup-raise_none k d)

  raise-Distinct : (d : Dict TaskInfo) → Distinct d → Distinct (raise_countdowns extra d)
  unfolding raise_countdowns
  raise-Distinct [] h = tt
  raise-Distinct ((k, t) ∷ d) h = (lookup-raise_none k d h.0, raise-Distinct d h.1)

  lookup-raise_some :
      (k : ℕ) (t : TaskInfo) (d : Dict TaskInfo)
      → lookup k (raise_countdowns extra d) ≡ some t
      → (u : TaskInfo) × (lookup k d ≡ some u) × (t.resreq ≡ u.resreq)
  unfolding lookup raise_countdowns
  lookup-raise_some k t [] e = absurd cc
  lookup-raise_some k t ((j, u) ∷ d) e = elim (Bool-cases (j == k)) [
    | inl here ↦ (u, rw here refl, same_request here (rw here at e))
    | inr other ↦ let (w, f, g) = lookup-raise_some k t d (rw other at e) in (w, rw other f, g)
  ]
    where
      same_request :
          (j == k) ≡ true
          → some (
              if is_binding u.status
              then record u { ctn_creation_count_down = u.ctn_creation_count_down +ℤ extra }
              else u)
            ≡ some t
          → t.resreq ≡ u.resreq
      same_request here e = ground arith

  total-raise :
      (p : Status → Bool) (n : ℕ) (d : Dict TaskInfo)
      → total p n (raise_countdowns extra d) ≡ total p n d
  unfolding total share raise_countdowns
  total-raise p n [] = refl
  total-raise p n ((k, t) ∷ d) = ground (arith, total-raise p n d)

  raised-IsNodeOf :
      (k : ℕ) (ni : NodeInfo)
      → IsNodeOf k ni
      → IsNodeOf k (record ni { tasks = raise_countdowns extra ni.tasks })
  raised-IsNodeOf k ni h =
      let a = h.accounted in
      record {
        accounted = record {
          distinct = raise-Distinct ni.tasks a.distinct;
          requests = λ i t e.
              let (u, f, same) = lookup-raise_some i t ni.tasks e in
              subst IsRequest (sym same) (a.requests i u f);
          idle_eq = λ n. ap (λ x. get ni.idle n +ℤ x) (total-raise _ n ni.tasks) ∙ a.idle_eq n;
          used_eq = λ n. a.used_eq n ∙ sym (total-raise _ n ni.tasks);
          releasing_eq = λ n. a.releasing_eq n ∙ sym (total-raise _ n ni.tasks);
          pipelined_eq = λ n. a.pipelined_eq n ∙ sym (total-raise _ n ni.tasks);
        };
        object = h.object;
        has_object = h.has_object;
        named = h.named;
      }

timed-IsSameTask :
    (t : TaskInfo) (host : ℕ) (c : ℤ)
    → IsSameTask t
        (record t { pod = record (t.pod) { spec_node_name = host }; ctn_creation_count_down = c })
timed-IsSameTask t host c = record {
  same_uid = refl;
  same_job = refl;
  same_status = refl;
  same_req = refl;
}

module _ (now : ℤ) where
  bind_task-Returns :
      (job : JobInfo) (k : ℕ) (node : NodeInfo) (t : TaskInfo) (host : ℕ)
      → IsBooked job
      → IsRequest t.resreq
      → IsNodeOf k node
      → Returns
          (λ (r : JobInfo × NodeInfo). IsBooked r.0 × IsNodeOf k r.1)
          (bind_task now job node t host)
  unfolding bind_task
  bind_task-Returns job k node t host b q n =
      let c = change_status now job t binding b q in
      let same = timed-IsSameTask c.task_after host _ in
      let placing =
        add_task-IsNodeOf k _ _ (raised-IsNodeOf node.ctn_creation_extra_time k node n)
          (subst IsRequest (sym (resreq-Changed now job t binding c)) q) in
      rw c.run (
        Returns-bind placing λ ((node', placed), e) (n', moved). Returns-some _ (
          write_held c.job_after c.task_after placed (Changed-IsHeld now job t binding c)
              (both c.task_after _ placed same moved),
          n',
        ))

  module _ {P : Type 0} where
    AreSound : Cluster × SessionState P → Type 0
    AreSound r = IsSound (as_session r.0) × IsSound r.1

    pub bind_in_session-IsSound :
        (ssn : SessionState P) (t : TaskInfo)
        → IsSound ssn
        → IsRequest t.resreq
        → Returns (λ (r : SessionState P × Option Failure). IsSound r.0) (bind_in_session now ssn t)
    unfolding bind_in_session
    bind_in_session-IsSound ssn t s q = elim (Option-cases (lookup t.job ssn.jobs)) [
      | inl missing ↦ rw (bind_in_session, missing) (Returns-some _ s)
      | inr (job, e) ↦
          let c = change_status now job t binding (s.booked t.job job e) q in
          rw (bind_in_session, e, c.run)
            (Returns-some _ (insert_job-IsSound ssn t.job c.job_after s c.booked))
    ]

    commit_allocation-AreSound :
        (cluster : Cluster) (ssn : SessionState P) (t : TaskInfo)
        → AreSound (cluster, ssn)
        → IsRequest t.resreq
        → Returns
            (λ (r : (Cluster × SessionState P) × Option Failure). AreSound r.0)
            (commit_allocation now cluster ssn t)
    unfolding commit_allocation AreSound
    commit_allocation-AreSound cluster ssn t (c, s) q =
        elim (Option-cases (lookup t.job cluster.jobs)) [
          | inl missing ↦ rw (commit_allocation, missing) (Returns-some _ (c, s))
          | inr (job, e) ↦ elim (Option-cases (lookup t.uid job.tasks)) [
            | inl missing ↦ rw (commit_allocation, e, missing) (Returns-some _ (c, s))
            | inr (real, f) ↦ elim (Option-cases (lookup t.node_name cluster.nodes)) [
              | inl missing ↦ rw (commit_allocation, e, f, missing) (Returns-some _ (c, s))
              | inr (node, g) ↦
                  let b = c.booked t.job job e in
                  rw (commit_allocation, e, f, g)
                    (Returns-bind
                      (bind_task-Returns job t.node_name node real t.node_name b
                        (b.requests t.uid real f) (c.kept t.node_name node g))
                      λ (job', node') (b', n').
                        Returns-bind (bind_in_session-IsSound ssn t s q) λ (ssn', err) s'.
                          Returns-some _ (
                            insert_node-IsSound (record (as_session cluster) { jobs = _ })
                                t.node_name node'
                                (insert_job-IsSound (as_session cluster) t.job job' c b') n',
                            s',
                          ))
            ]
          ]
        ]

    -- If the books of the cluster and of the session are kept, and the tasks of the operations have whole
    -- requests, Commit does not panic and keeps the books of both.
    pub commit-AreSound :
        (cluster : Cluster) (ssn : SessionState P) (ops : List Operation)
        → IsSound (as_session cluster)
        → IsSound ssn
        → All (λ (op : Operation). IsRequest op.task.resreq) ops
        → Returns
            (λ (r : Cluster × SessionState P). IsSound (as_session r.0) × IsSound r.1)
            (commit now cluster ssn ops)
    unfolding commit AreSound
    commit-AreSound cluster ssn [] c s q = Returns-some _ (c, s)
    commit-AreSound cluster ssn (op ∷ ops) c s q =
        let (s', q') = assign-IsSound clear_last_tx_context cleared ssn op.task s q.0 in
        by_name op.name s' q' (λ c' r k w. commit-AreSound c' r ops k w q.1)
      where
        by_name :
            (name : OperationName)
            → IsSound (assign clear_last_tx_context ssn op.task).0
            → IsRequest (assign clear_last_tx_context ssn op.task).1.resreq
            → ((c' : Cluster) (r : SessionState P)
                → IsSound (as_session c')
                → IsSound r
                → Returns
                    (λ (r : Cluster × SessionState P). IsSound (as_session r.0) × IsSound r.1)
                    (commit now c' r ops))
            → Returns
                (λ (r : Cluster × SessionState P). IsSound (as_session r.0) × IsSound r.1)
                (commit now cluster ssn (record { name = name; task = op.task } ∷ ops))
        by_name evict_op s' q' rest = rest cluster _ c s'
        by_name pipeline_op s' q' rest = rest cluster _ c s'
        by_name allocate_op s' q' rest =
            Returns-bind (commit_allocation-AreSound cluster _ _ (c, s') q')
              λ ((cluster', ssn''), e) (c'', s''). rest cluster' ssn'' c'' s''
