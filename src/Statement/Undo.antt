-- ===== src/Statement/Undo.antt =====
-- Taking an allocation back.
use k8s_simulator.Common.{
  ℕ, ◌≡◌, refl, sym, ap, ◌∙◌, subst, Option, none, some, List, ℤ, lookup, insert,
  lookup-insert_self,
}
use k8s_simulator.Resource.Exact.{IsRequest}
use k8s_simulator.Task.{allocated, TaskInfo, set_node_name}
use k8s_simulator.Job.{JobInfo}
use k8s_simulator.Job.Books.{IsBooked}
use k8s_simulator.Job.Update.{kept-moved}
use k8s_simulator.Node.{NodeObject, NodeInfo, Error, add_task}
use k8s_simulator.Node.Accounting.{IsAccounted}
use k8s_simulator.Node.Admission.{add_task-ok}
use k8s_simulator.Node.Restore.{SameAmounts, remove_task-add_task}
use k8s_simulator.Statement.{
  EventHandler, SessionState, write_task, place_task, allocate_v2, unallocate_v2, notify_allocate,
  node_error,
}
use k8s_simulator.Statement.Sharing.{write_task-IsBooked}
use k8s_simulator.Statement.Withdrawal.{change_status, IsWithdrawn, withdraw}

module _ {P : Type 0} (handlers : List (EventHandler P)) (now : ℤ) where
  -- A success of the second half of AllocateV2 comes from a success of AddTask.
  placed :
      (ssn ssn' : SessionState P) (job : JobInfo) (task task' : TaskInfo) (host : ℕ)
      (node : NodeInfo)
      → lookup host ssn.nodes ≡ some node
      → place_task handlers now ssn job task host ≡ some ((ssn', task'), none)
      → (node' : NodeInfo) × (add_task node task ≡ some ((node', task'), none))
        × (lookup task.job ssn'.jobs ≡ some (write_task job task'))
        × (lookup host ssn'.nodes ≡ some node')
  unfolding place_task
  placed ssn ssn' job task task' host node on_node h = by_result (add_task node task) refl
    where
      by_result :
          (r : Option ((NodeInfo × TaskInfo) × Option Error))
          → add_task node task ≡ r
          → (node' : NodeInfo) × (add_task node task ≡ some ((node', task'), none))
            × (lookup task.job ssn'.jobs ≡ some (write_task job task'))
            × (lookup host ssn'.nodes ≡ some node')
      by_result none e =
          let h' : none ≡ some ((ssn', task'), none) = rw (place_task, on_node, e) at h in cc
      by_result (some ((node', t), some err)) e =
          let other : SessionState P = record ssn {
            jobs = insert task.job job ssn.jobs;
            nodes = insert host node' ssn.nodes;
          } in
          let h' : some ((other, t), some (node_error err)) ≡ some ((ssn', task'), none) =
            rw (place_task, on_node, e) at h in
          cc
      by_result (some ((node', t), none)) e =
          let after : SessionState P = record {
            jobs = insert task.job (write_task job t) ssn.jobs;
            nodes = insert host node' ssn.nodes;
            plugins = notify_allocate handlers t ssn.plugins;
          } in
          let h' : some ((after, t), none) ≡ some ((ssn', task'), none) =
            rw (place_task, on_node, e) at h in
          let same : after ≡ ssn' = cc in
          let same_task : t ≡ task' = cc in
          (
            node',
            rw (← same_task) e,
            rw (← same, ← same_task) (lookup-insert_self task.job (write_task job t) ssn.jobs),
            rw (← same) (lookup-insert_self host node' ssn.nodes),
          )

  -- AllocateV2 in a session that has the task's job, with its books kept, and under the host's name a node
  -- of that name that has its node object and whose books are kept, for a task with a whole request: if
  -- it succeeds, unallocateV2 of the task then does not panic. The task is pending and on no node, the
  -- books of its job are kept, and the node lists the tasks that it listed at first, with the same idle,
  -- used, releasing and pipelined amounts in every dimension.
  pub unallocate_v2-allocate_v2 :
      (ssn ssn' : SessionState P) (task task' : TaskInfo) (host : ℕ) (job : JobInfo)
      (node : NodeInfo) (v : NodeObject)
      → lookup task.job ssn.jobs ≡ some job
      → IsBooked job
      → lookup host ssn.nodes ≡ some node
      → node.name ≡ host
      → node.node ≡ some v
      → IsAccounted node
      → IsRequest task.resreq
      → allocate_v2 handlers now ssn task host ≡ some ((ssn', task'), none)
      → (final : SessionState P) × (cleared : TaskInfo) × (after : NodeInfo) × (unallocate_v2
            handlers now ssn' task'
          ≡ some (final, cleared))
        × IsWithdrawn final cleared task.job task.uid host after
        × (after.tasks ≡ node.tasks)
        × SameAmounts after node
  unfolding allocate_v2 write_task
  unallocate_v2-allocate_v2 ssn ssn' task task' host job node v in_job b on_node name has a q h =
      let c = change_status now job task allocated b q in
      let (uid, req, _, job_same, _, _) = kept-moved now task allocated in
      let t = c.task_after in
      let named = set_node_name t host in
      let first = write_task c.job_after named in
      let uid' : t.uid ≡ task.uid = rw c.same_task uid in
      let job' : t.job ≡ task.job = rw c.same_task job_same in
      let q' : IsRequest t.resreq = rw (c.same_task, req) q in
      let there : lookup t.uid c.job_after.tasks ≡ some t = rw uid' c.listed in
      let booked : IsBooked first =
        write_task-IsBooked c.job_after c.booked t named there refl refl in
      let start : place_task handlers now ssn first named host ≡ some ((ssn', task'), none) =
        rw (allocate_v2, in_job, c.run) at h in
      let (node', run, new_job, new_node) =
        placed ssn ssn' first named task' host node on_node start in
      let (_, same, _, _) = add_task-ok node named v has node' task' run in
      let same' : task' ≡ named = same ∙ ap (set_node_name named) name in
      let (after, gone, tasks, amounts) =
        remove_task-add_task node node' named task' v has a q' run in
      let again : IsBooked (write_task first task') =
        write_task-IsBooked first booked named task'
          (subst (λ (u : TaskInfo). lookup u.uid first.tasks ≡ some named) (sym same')
            (lookup-insert_self named.uid named c.job_after.tasks))
          (ap (λ (u : TaskInfo). u.status) same') (ap (λ (u : TaskInfo). u.resreq) same') in
      let (final, cleared, back, done) =
        withdraw handlers now ssn' task' (write_task first task') host node' after
          (subst (λ (u : TaskInfo). lookup u.job ssn'.jobs ≡ some (write_task first task'))
            (sym same') new_job)
          again (subst (λ (u : TaskInfo). IsRequest u.resreq) (sym same') q')
          (ap (λ (u : TaskInfo). u.node_name) same') new_node gone in
      let same_job : task'.job ≡ task.job = ap (λ (u : TaskInfo). u.job) same' ∙ job' in
      let same_uid : task'.uid ≡ task.uid = ap (λ (u : TaskInfo). u.uid) same' ∙ uid' in
      let done' =
        subst (λ j. IsWithdrawn final cleared j task.uid host after) same_job
          (subst (λ u. IsWithdrawn final cleared task'.job u host after) same_uid done) in
      (final, cleared, after, back, done', tasks, amounts)
