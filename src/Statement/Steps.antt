-- ===== src/Statement/Steps.antt =====
-- The operations of a session as steps, and what holds in every session that they reach.
use k8s_simulator.Common.{
  ℕ, ◌≡◌, refl, sym, ◌∙◌, subst, inl, inr, Option, none, some, List, Option-cases, ℤ, lookup,
  lookup-insert_self, Returns, Returns-some, Returns-bind, Ensures, Ensures-Returns, Ensures-bind,
}
use k8s_simulator.Resource.Exact.{IsRequest}
use k8s_simulator.Task.{
  Status, pending, allocated, pipelined, releasing, running, empty_name, TaskInfo, set_node_name,
}
use k8s_simulator.Job.{JobInfo}
use k8s_simulator.Node.{NodeInfo, Error, add_task, update_task}
use k8s_simulator.Node.Admission.{added}
use k8s_simulator.Statement.{
  EventHandler, SessionState, Failure, write_task, write_back, place_task, allocate_v2,
  withdraw_task, unallocate_v2,
}
use k8s_simulator.Statement.Withdrawal.{change_status}
use k8s_simulator.Statement.Nodes.{IsNodeOf, IsSameTask, add_task-IsNodeOf, remove_task-IsNodeOf}
use k8s_simulator.Statement.Operations.{
  update_on_node, add_to_host, set_status_in, change_on_node, evict_task, unevict, pipeline_task,
}
use k8s_simulator.Statement.Soundness.{
  IsHeld, IsSound, insert_job-IsSound, insert_node-IsSound, tell-IsSound, write_held,
  write_back-IsSound, Changed-IsHeld, resreq-Changed, set_status_in-IsMoved,
}

pub itself : (t : TaskInfo) → IsSameTask t t
itself t = record { same_uid = refl; same_job = refl; same_status = refl; same_req = refl }

pub renamed : (t : TaskInfo) (name : ℕ) → IsSameTask t (set_node_name t name)
renamed t name = record { same_uid = refl; same_job = refl; same_status = refl; same_req = refl }

pub both : (t u v : TaskInfo) → IsSameTask t u → IsSameTask u v → IsSameTask t v
both t u v a b = record {
  same_uid = b.same_uid ∙ a.same_uid;
  same_job = b.same_job ∙ a.same_job;
  same_status = b.same_status ∙ a.same_status;
  same_req = b.same_req ∙ a.same_req;
}

update_task-Ensures :
    (k : ℕ) (ni : NodeInfo) (t : TaskInfo)
    → IsNodeOf k ni
    → IsRequest t.resreq
    → Ensures (λ (r : NodeInfo × TaskInfo). IsNodeOf k r.0 × IsSameTask t r.1) (update_task ni t)
unfolding update_task
update_task-Ensures k ni t n q r e =
    let (ni', run, n') = remove_task-IsNodeOf k ni t n in
    let (((ni'', t'), err), added, (n'', same)) = add_task-IsNodeOf k ni' t n' q in
    by_error err ni'' t' n'' same (rw (update_task, run, added) at e)
  where
    by_error :
        (err : Option Error) (w : NodeInfo) (u : TaskInfo)
        → IsNodeOf k w
        → IsSameTask t u
        → elim err [ none ↦ some (w, u) | some _ ↦ none ] ≡ some r
        → IsNodeOf k r.0 × IsSameTask t r.1
    by_error none w u a b h =
        let left : NodeInfo × TaskInfo = (w, u) in
        let out : left ≡ r = cc in
        subst (λ (x : NodeInfo × TaskInfo). IsNodeOf k x.0 × IsSameTask t x.1) out (a, b)
    by_error (some err) w u a b h = cc

write_task-IsHeld :
    (job : JobInfo) (t u : TaskInfo)
    → IsHeld (some job) t
    → IsSameTask t u
    → IsHeld (some (write_task job u)) u
unfolding write_task
write_task-IsHeld job t u h same = (write_held job t u h same, lookup-insert_self u.uid u job.tasks)

module _ {P : Type 0} (now : ℤ) where
  -- A node that is changed for a task leaves the session sound and the task the same.
  abbrev Handled : TaskInfo → SessionState P × TaskInfo → Type 0
  Handled t r = IsSound r.0 × IsSameTask t r.1

  update_on_node-Handled :
      (ssn : SessionState P) (t : TaskInfo)
      → IsSound ssn
      → IsRequest t.resreq
      → Ensures (Handled t) (update_on_node ssn t)
  unfolding update_on_node
  update_on_node-Handled ssn t s q = elim (Option-cases (lookup t.node_name ssn.nodes)) [
    | inl missing ↦
        rw (update_on_node, missing) (Ensures-Returns (Returns-some (ssn, t) (s, itself t)))
    | inr (node, e) ↦
        rw (update_on_node, e)
          (Ensures-bind (update_task node t)
            (update_task-Ensures t.node_name node t (s.kept t.node_name node e) q)
            λ r (n, same).
              Ensures-Returns (Returns-some _ (insert_node-IsSound ssn t.node_name r.0 s n, same)))
  ]

  change_on_node-IsSound :
      (ssn : SessionState P) (t : TaskInfo) (st : Status)
      → IsSound ssn
      → IsRequest t.resreq
      → Ensures
          (λ (r : SessionState P × TaskInfo).
            IsSound r.0 × IsRequest r.1.resreq × (r.1.uid ≡ t.uid))
          (change_on_node now ssn t st)
  unfolding change_on_node
  change_on_node-IsSound ssn t st s q =
      Ensures-bind (set_status_in now ssn t st)
        (Ensures-Returns (set_status_in-IsMoved now ssn t st s q))
        λ (job, t') m.
          Ensures-bind (update_on_node ssn t') (update_on_node-Handled ssn t' s m.request)
            λ (ssn', u) (s', same). Ensures-Returns (
              Returns-some _ (
                write_back-IsSound ssn' job t' u s' m.held same,
                subst IsRequest (sym same.same_req) m.request,
                same.same_uid ∙ m.uid_eq,
              ))

  add_to_host-Handled :
      (ssn : SessionState P) (t : TaskInfo) (host : ℕ)
      → IsSound ssn
      → IsRequest t.resreq
      → Returns (Handled t) (add_to_host ssn t host)
  unfolding add_to_host
  add_to_host-Handled ssn t host s q = elim (Option-cases (lookup host ssn.nodes)) [
    | inl missing ↦ rw (add_to_host, missing) (Returns-some (ssn, t) (s, itself t))
    | inr (node, e) ↦
        rw (add_to_host, e)
          (Returns-bind (add_task-IsNodeOf host node t (s.kept host node e) q)
            λ ((node', t'), err) (n, same).
              Returns-some _ (insert_node-IsSound ssn host node' s n, same))
  ]

  -- Each operation, from a session with all books kept.
  module _ (handlers : List (EventHandler P)) (ssn : SessionState P) (t : TaskInfo)
      (s : IsSound ssn) (q : IsRequest t.resreq) where
    pub evict_task-IsSound :
        Ensures
          (λ (r : SessionState P × TaskInfo).
            IsSound r.0 × IsRequest r.1.resreq × (r.1.uid ≡ t.uid))
          (evict_task handlers now ssn t)
    unfolding evict_task
    evict_task-IsSound =
        Ensures-bind (change_on_node now ssn t releasing)
          (change_on_node-IsSound ssn t releasing s q)
          λ (ssn', u) (s', req, same).
            Ensures-Returns (Returns-some _ (tell-IsSound ssn' _ s', req, same))

    pub unevict-IsSound :
        Ensures (λ (r : SessionState P × TaskInfo). IsSound r.0) (unevict handlers now ssn t)
    unfolding unevict
    unevict-IsSound =
        Ensures-bind (change_on_node now ssn t running) (change_on_node-IsSound ssn t running s q)
          λ (ssn', u) (s', req, same). Ensures-Returns (Returns-some _ (tell-IsSound ssn' _ s'))

    pub pipeline_task-IsSound :
        (host : ℕ)
        → Returns
            (λ (r : SessionState P × TaskInfo).
              IsSound r.0 × IsRequest r.1.resreq × (r.1.uid ≡ t.uid))
            (pipeline_task handlers now ssn t host)
    unfolding pipeline_task
    pipeline_task-IsSound host =
        Returns-bind (set_status_in-IsMoved now ssn t pipelined s q) λ (job, t') m.
          Returns-bind (add_to_host-Handled ssn (set_node_name t' host) host s m.request)
            λ (ssn', u) (s', same). Returns-some _ (
              tell-IsSound (record ssn' { jobs = write_back ssn'.jobs job u }) _
                  (write_back-IsSound ssn' job t' u s' m.held
                    (both t' (set_node_name t' host) u (renamed t' host) same)),
              subst IsRequest (sym same.same_req) m.request,
              same.same_uid ∙ m.uid_eq,
            )

    place_known :
        (job : JobInfo) (u v : TaskInfo) (host : ℕ) (node node' : NodeInfo) (err : Option Error)
        → lookup host ssn.nodes ≡ some node
        → add_task node u ≡ some ((node', v), err)
        → IsHeld (some job) u
        → IsNodeOf host node'
        → IsSameTask u v
        → IsRequest u.resreq
        → Returns
            (λ (r : (SessionState P × TaskInfo) × Option Failure).
              IsSound r.0.0 × IsRequest r.0.1.resreq)
            (place_task handlers now ssn job u host)
    unfolding place_task
    place_known job u v host node node' none e run h n same r =
        rw (place_task, e, run)
          (Returns-some _ (
            tell-IsSound _ _ (
                insert_node-IsSound _ host node'
                  (insert_job-IsSound ssn u.job (write_task job v) s (write_held job u v h same))
                  n),
            subst IsRequest (sym same.same_req) r,
          ))
    place_known job u v host node node' (some err) e run h n same r =
        rw (place_task, e, run)
          (Returns-some _ (
            insert_node-IsSound _ host node' (insert_job-IsSound ssn u.job job s h.0) n,
            subst IsRequest (sym same.same_req) r,
          ))

    -- AddTask at the host, with the task's job in hand.
    place_task-IsSound :
        (job : JobInfo) (u : TaskInfo) (host : ℕ)
        → IsHeld (some job) u
        → IsRequest u.resreq
        → Returns
            (λ (r : (SessionState P × TaskInfo) × Option Failure).
              IsSound r.0.0 × IsRequest r.0.1.resreq)
            (place_task handlers now ssn job u host)
    unfolding place_task
    place_task-IsSound job u host h r = elim (Option-cases (lookup host ssn.nodes)) [
      | inl missing ↦
          rw (place_task, missing) (Returns-some _ (insert_job-IsSound ssn u.job job s h.0, r))
      | inr (node, e) ↦
          let (((node', v), err), run, (n, same)) =
            add_task-IsNodeOf host node u (s.kept host node e) r in
          place_known job u v host node node' err e run h n same r
    ]

    pub allocate_v2-IsSound :
        (host : ℕ)
        → Returns
            (λ (r : (SessionState P × TaskInfo) × Option Failure).
              IsSound r.0.0 × IsRequest r.0.1.resreq)
            (allocate_v2 handlers now ssn t host)
    unfolding allocate_v2
    allocate_v2-IsSound host = elim (Option-cases (lookup t.job ssn.jobs)) [
      | inl missing ↦ rw (allocate_v2, missing) (Returns-some _ (s, q))
      | inr (job, e) ↦
          let c = change_status now job t allocated (s.booked t.job job e) q in
          let named = set_node_name c.task_after host in
          let held =
            write_task-IsHeld c.job_after c.task_after named (Changed-IsHeld now job t allocated c)
              (renamed c.task_after host) in
          rw (allocate_v2, e, c.run)
            (place_task-IsSound (write_task c.job_after named) named host held
              (subst IsRequest (sym (resreq-Changed now job t allocated c)) q))
    ]

    pub withdraw_task-IsSound :
        (job : Option JobInfo) (u : TaskInfo)
        → IsHeld job u
        → Returns
            (λ (r : SessionState P × TaskInfo). IsSound r.0)
            (withdraw_task handlers now ssn job u)
    unfolding withdraw_task
    withdraw_task-IsSound job u h =
        let cleared = set_node_name u empty_name in
        let back = write_back-IsSound ssn job u cleared s h (renamed u empty_name) in
        elim (Option-cases (lookup u.node_name ssn.nodes)) [
          | inl missing ↦ rw (withdraw_task, missing) (Returns-some _ (tell-IsSound _ _ back))
          | inr (node, e) ↦
              let (node', run, n) =
                remove_task-IsNodeOf u.node_name node u (s.kept u.node_name node e) in
              rw (withdraw_task, e, run)
                (Returns-some _ (tell-IsSound _ _ (insert_node-IsSound _ u.node_name node' back n)))
        ]

    pub unallocate_v2-IsSound :
        Returns (λ (r : SessionState P × TaskInfo). IsSound r.0) (unallocate_v2 handlers now ssn t)
    unfolding unallocate_v2 set_status_in
    unallocate_v2-IsSound = elim (Option-cases (lookup t.job ssn.jobs)) [
      | inl missing ↦ rw (unallocate_v2, missing) (withdraw_task-IsSound none t tt)
      | inr (job, e) ↦
          let c = change_status now job t pending (s.booked t.job job e) q in
          rw (unallocate_v2, e, c.run)
            (withdraw_task-IsSound (some c.job_after) c.task_after
              (Changed-IsHeld now job t pending c))
    ]
