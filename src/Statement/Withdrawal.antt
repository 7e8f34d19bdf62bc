-- ===== src/Statement/Withdrawal.antt =====
-- What unallocateV2 leaves.
use k8s_simulator.Common.{
  ℕ, ◌≡◌, refl, sym, ◌∙◌, subst, some, List, ℤ, lookup, insert, lookup-insert_self,
}
use k8s_simulator.Resource.Exact.{IsRequest}
use k8s_simulator.Task.{Status, pending, allocated, empty_name, TaskInfo, set_node_name}
use k8s_simulator.Job.{JobInfo, stamp, update_task_status}
use k8s_simulator.Job.Books.{IsBooked}
use k8s_simulator.Job.Update.{moved, kept-moved, update_task_status-eq, update_task_status-IsBooked}
use k8s_simulator.Node.{NodeInfo, remove_task}
use k8s_simulator.Statement.{
  EventHandler, SessionState, write_task, write_back, withdraw_task, unallocate_v2,
  notify_deallocate,
}
use k8s_simulator.Statement.Sharing.{write_task-IsBooked}

-- A change of status, with what the job and the task have in common before and after.
pub record Changed (now : ℤ) (ji : JobInfo) (task : TaskInfo) (s : Status) : Type 0 where
  pub job_after : JobInfo
  pub task_after : TaskInfo
  pub run : update_task_status now ji task s ≡ some (job_after, task_after)
  pub booked : IsBooked job_after
  pub listed : lookup task.uid job_after.tasks ≡ some task_after
  pub status_is : task_after.status ≡ s
  pub same_task : task_after ≡ moved now task s

pub change_status :
    (now : ℤ) (ji : JobInfo) (task : TaskInfo) (s : Status)
    → IsBooked ji
    → IsRequest task.resreq
    → Changed now ji task s
change_status now ji task s b q =
    let (ji', t', run, booked, listed, status_is) = update_task_status-IsBooked now ji task s b q in
    record {
      job_after = ji';
      task_after = t';
      run = run;
      booked = booked;
      listed = listed;
      status_is = status_is;
      same_task = let e = update_task_status-eq now ji task s b in cc;
    }

moved-pod :
    (now : ℤ) (task : TaskInfo)
    → ((moved now task pending).pod ≡ task.pod) × ((moved now task allocated).pod ≡ task.pod)
unfolding moved stamp
moved-pod now task = (refl, refl)

remove_task-pod :
    (ni : NodeInfo) (t u : TaskInfo) → t.pod ≡ u.pod → remove_task ni t ≡ remove_task ni u
unfolding remove_task
remove_task-pod ni t u e = rw e refl

-- The session after a task was taken back: the task is pending and on no node, the books of its job are
-- kept, and `after` is on the node's place.
pub record IsWithdrawn {P : Type 0} (ssn : SessionState P) (task : TaskInfo) (job uid host : ℕ)
    (after : NodeInfo) : Type 0 where
  pub status_is : task.status ≡ pending
  pub no_name : task.node_name ≡ empty_name
  pub job_info : JobInfo
  pub in_session : lookup job ssn.jobs ≡ some job_info
  pub booked : IsBooked job_info
  pub listed : lookup uid job_info.tasks ≡ some task
  pub on_place : lookup host ssn.nodes ≡ some after

module _ {P : Type 0} (handlers : List (EventHandler P)) (now : ℤ) where
  -- unallocateV2 of a task whose job and node are there.
  pub withdraw :
      (ssn : SessionState P) (task : TaskInfo) (job : JobInfo) (host : ℕ) (node after : NodeInfo)
      → lookup task.job ssn.jobs ≡ some job
      → IsBooked job
      → IsRequest task.resreq
      → task.node_name ≡ host
      → lookup host ssn.nodes ≡ some node
      → remove_task node task ≡ some after
      → (final : SessionState P) × (cleared : TaskInfo) × (unallocate_v2 handlers now ssn task
          ≡ some (final, cleared))
        × IsWithdrawn final cleared task.job task.uid host after
  unfolding unallocate_v2 withdraw_task write_back write_task
  withdraw ssn task job host node after in_job b q name on_node gone =
      let c = change_status now job task pending b q in
      let (uid, req, _, job_same, name_same, _) = kept-moved now task pending in
      let t = c.task_after in
      let cleared = set_node_name t empty_name in
      let uid' : t.uid ≡ task.uid = rw c.same_task uid in
      let job' : t.job ≡ task.job = rw c.same_task job_same in
      let name' : t.node_name ≡ host = rw c.same_task (name_same ∙ name) in
      let pod' : t.pod ≡ task.pod = rw c.same_task (moved-pod now task).0 in
      let gone' : remove_task node t ≡ some after = remove_task-pod node t task pod' ∙ gone in
      let there_node : lookup t.node_name ssn.nodes ≡ some node =
        subst (λ h. lookup h ssn.nodes ≡ some node) (sym name') on_node in
      let there : lookup t.uid c.job_after.tasks ≡ some t = rw uid' c.listed in
      let written = write_task c.job_after cleared in
      let final : SessionState P = record ssn {
        jobs = insert t.job written ssn.jobs;
        nodes = insert t.node_name after ssn.nodes;
        plugins = notify_deallocate handlers t ssn.plugins;
      } in
      (
        final,
        cleared,
        rw (unallocate_v2, in_job, c.run, withdraw_task, there_node, gone') refl,
        record {
          status_is = c.status_is;
          no_name = refl;
          job_info = written;
          in_session =
              subst (λ j. lookup j (insert t.job written ssn.jobs) ≡ some written) job'
                (lookup-insert_self t.job written ssn.jobs);
          booked = write_task-IsBooked c.job_after c.booked t cleared there refl refl;
          listed =
              subst (λ u. lookup u (insert t.uid cleared c.job_after.tasks) ≡ some cleared) uid'
                (lookup-insert_self t.uid cleared c.job_after.tasks);
          on_place =
              subst (λ h. lookup h (insert t.node_name after ssn.nodes) ≡ some after) name'
                (lookup-insert_self t.node_name after ssn.nodes);
        },
      )
