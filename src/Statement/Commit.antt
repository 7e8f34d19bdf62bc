-- ===== src/Statement/Commit.antt =====
-- pkg/scheduler/framework/statement.go: Commit, which binds the allocated tasks in the real cluster. The pod
-- is held by value: a clone does not see what is assigned to the pod of the original.
use k8s_simulator.Common.{
  ℕ, Bool, true, false, Option, none, some, List, [], ◌∷◌, if◌then◌else◌, ℤ, pos, ◌+ℤ◌, max_ℤ, Dict,
  lookup, insert, ◌>>=◌,
}
use k8s_simulator.Task.{Status, binding, TaskInfo, clear_last_tx_context}
use k8s_simulator.Job.{JobInfo, update_task_status}
use k8s_simulator.Node.{NodeInfo, add_task}
use k8s_simulator.Statement.{SessionState, Failure, no_job, no_task, no_node, write_task}
use k8s_simulator.Statement.Operations.{Operation, evict_op, pipeline_op, allocate_op, assign}

-- The real cluster behind the session: ssn.Cluster
pub record Cluster : Type 0 where
  pub jobs : Dict JobInfo
  pub nodes : Dict NodeInfo

unfoldable pub is_binding : Status → Bool
is_binding binding = true
is_binding _ = false

-- The two loops of allocateV2 over the tasks that are being bound.
unfoldable pub raise_countdowns : ℤ → Dict TaskInfo → Dict TaskInfo
raise_countdowns extra [] = []
raise_countdowns extra ((k, t) ∷ d) =
    (
      k,
      if is_binding t.status
          then record t { ctn_creation_count_down = t.ctn_creation_count_down +ℤ extra }
          else t,
    )
    ∷ raise_countdowns extra d

unfoldable pub max_countdown : ℤ → Dict TaskInfo → ℤ
max_countdown max [] = max
max_countdown max ((k, t) ∷ d) =
    max_countdown (if is_binding t.status then max_ℤ t.ctn_creation_count_down max else max) d

-- What allocateV2 does to the cluster once it has found the job, the task and the node. The error of
-- AddTask is not looked at.
unfoldable pub bind_task : ℤ → JobInfo → NodeInfo → TaskInfo → ℕ → Option (JobInfo × NodeInfo)
bind_task now job node task host = do
  (job', bound) ← update_task_status now job task binding
  let others = raise_countdowns node.ctn_creation_extra_time node.tasks
  let timed = record bound {
    pod = record (bound.pod) { spec_node_name = host };
    ctn_creation_count_down = max_ℤ node.ctn_creation_time (max_countdown (pos 0) others);
  }
  ((node', placed), e) ← add_task (record node { tasks = others }) timed
  some (write_task job' placed, node')

module _ {P : Type 0} (now : ℤ) where
  -- allocateV2
  unfoldable pub bind_in_session :
      SessionState P → TaskInfo → Option (SessionState P × Option Failure)
  bind_in_session ssn task = elim (lookup task.job ssn.jobs) [
    | none ↦ some (ssn, some no_job)
    | some job ↦ do
      (job', task') ← update_task_status now job task binding
      some (record ssn { jobs = insert task.job job' ssn.jobs }, none)
  ]

  unfoldable pub commit_allocation :
      Cluster → SessionState P → TaskInfo → Option ((Cluster × SessionState P) × Option Failure)
  commit_allocation cluster ssn task = elim (lookup task.job cluster.jobs) [
    | none ↦ some ((cluster, ssn), some no_job)
    | some job ↦ elim (lookup task.uid job.tasks) [
      | none ↦ some ((cluster, ssn), some no_task)
      | some real ↦ elim (lookup task.node_name cluster.nodes) [
        | none ↦ some ((cluster, ssn), some no_node)
        | some node ↦ do
          (job', node') ← bind_task now job node real task.node_name
          (ssn', e) ← bind_in_session ssn task
          let cluster' : Cluster = record {
            jobs = insert task.job job' cluster.jobs;
            nodes = insert task.node_name node' cluster.nodes;
          }
          some ((cluster', ssn'), e)
      ]
    ]
  ]

  -- Commit; the errors of allocateV2 are not looked at.
  unfoldable pub commit :
      Cluster → SessionState P → List Operation → Option (Cluster × SessionState P)
  commit cluster ssn [] = some (cluster, ssn)
  commit cluster ssn (op ∷ ops) =
      let (ssn', t) = assign clear_last_tx_context ssn op.task in
      let rest = λ (c : Cluster) (s : SessionState P). commit c s ops in
      elim op.name [
        | evict_op ↦ rest cluster ssn'
        | pipeline_op ↦ rest cluster ssn'
        | allocate_op ↦ do
          ((cluster', ssn''), e) ← commit_allocation cluster ssn' t
          rest cluster' ssn''
      ]
