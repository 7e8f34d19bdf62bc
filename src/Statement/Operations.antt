-- ===== src/Statement/Operations.antt =====
-- pkg/scheduler/framework/statement.go: a statement's list of operations, and how it is committed or
-- discarded. An operation points at its task, which is the one that the session's job lists under the UID;
-- a task that no job lists is taken as it was recorded.
use k8s_simulator.Common.{ℕ, Option, none, some, List, [], ◌∷◌, ◌++◌, ℤ, lookup, insert, ◌>>=◌}
use k8s_simulator.Task.{
  Status, pipelined, releasing, running, TaskInfo, set_node_name, generate_last_tx_context,
}
use k8s_simulator.Job.{JobInfo, update_task_status}
use k8s_simulator.Node.{add_task, update_task}
use k8s_simulator.Statement.{
  EventHandler, SessionState, Failure, write_task, write_back, notify_allocate, notify_deallocate,
  allocate_v2, unallocate_v2,
}

-- Operation and operation
pub data OperationName : Type 0 where
  evict_op pipeline_op allocate_op : OperationName

pub record Operation : Type 0 where
  pub name : OperationName
  pub task : TaskInfo

-- Statement
pub record StatementState (P : Type 0) : Type 0 where
  pub operations : List Operation
  pub ssn : SessionState P

module _ {P : Type 0} where
  -- UpdateTask of the task's node, where the session has it.
  unfoldable pub update_on_node : SessionState P → TaskInfo → Option (SessionState P × TaskInfo)
  update_on_node ssn task = elim (lookup task.node_name ssn.nodes) [
    | none ↦ some (ssn, task)
    | some node ↦ do
      (node', task') ← update_task node task
      some (record ssn { nodes = insert task.node_name node' ssn.nodes }, task')
  ]

  -- The step of Pipeline at the node. A failure of AddTask is only logged.
  unfoldable pub add_to_host : SessionState P → TaskInfo → ℕ → Option (SessionState P × TaskInfo)
  add_to_host ssn task hostname = elim (lookup hostname ssn.nodes) [
    | none ↦ some (ssn, task)
    | some node ↦ do
      ((node', task'), e) ← add_task node task
      some (record ssn { nodes = insert hostname node' ssn.nodes }, task')
  ]

  -- An assignment through the pointer of an operation: the session, and the task as it then is.
  unfoldable pub assign :
      (TaskInfo → TaskInfo) → SessionState P → TaskInfo → SessionState P × TaskInfo
  assign f ssn t = elim (lookup t.job ssn.jobs) [
    | none ↦ (ssn, f t)
    | some job ↦ elim (lookup t.uid job.tasks) [
      | none ↦ (ssn, f t)
      | some u ↦ (record ssn { jobs = insert t.job (write_task job (f u)) ssn.jobs }, f u)
    ]
  ]

module _ {P : Type 0} (now : ℤ) where
  -- UpdateTaskStatus where the session has the job; otherwise the task is left alone.
  unfoldable pub set_status_in :
      SessionState P → TaskInfo → Status → Option (Option JobInfo × TaskInfo)
  set_status_in ssn task s = elim (lookup task.job ssn.jobs) [
    | none ↦ some (none, task)
    | some job ↦ do (job', task') ← update_task_status now job task s; some (some job', task')
  ]

  -- The part that Evict and unevict share; then the plugins are told.
  unfoldable pub change_on_node :
      SessionState P → TaskInfo → Status → Option (SessionState P × TaskInfo)
  change_on_node ssn task s = do
    (job, task') ← set_status_in ssn task s
    (ssn', task'') ← update_on_node ssn task'
    some (record ssn' { jobs = write_back ssn'.jobs job task'' }, task'')

module _ {P : Type 0} (handlers : List (EventHandler P)) (now : ℤ) where
  -- Evict, without its entry in the list of operations, and unevict
  unfoldable pub evict_task : SessionState P → TaskInfo → Option (SessionState P × TaskInfo)
  evict_task ssn task = do
    (ssn', t) ← change_on_node now ssn task releasing
    some (record ssn' { plugins = notify_deallocate handlers t ssn'.plugins }, t)

  unfoldable pub unevict : SessionState P → TaskInfo → Option (SessionState P × TaskInfo)
  unevict ssn task = do
    (ssn', t) ← change_on_node now ssn task running
    some (record ssn' { plugins = notify_allocate handlers t ssn'.plugins }, t)

  -- Pipeline, without its entry in the list of operations
  unfoldable pub pipeline_task : SessionState P → TaskInfo → ℕ → Option (SessionState P × TaskInfo)
  pipeline_task ssn task hostname = do
    (job, task') ← set_status_in now ssn task pipelined
    (ssn', t) ← add_to_host ssn (set_node_name task' hostname) hostname
    some (
      record ssn' {
        jobs = write_back ssn'.jobs job t;
        plugins = notify_allocate handlers t ssn'.plugins;
      },
      t,
    )

  -- The operations with their entries.
  unfoldable pub evict : StatementState P → TaskInfo → Option (StatementState P)
  evict s task = do
    (ssn', t) ← evict_task s.ssn task
    some (record {
      operations = s.operations ++ record { name = evict_op; task = t } ∷ [];
      ssn = ssn';
    })

  unfoldable pub pipeline : StatementState P → TaskInfo → ℕ → Option (StatementState P)
  pipeline s task hostname = do
    (ssn', t) ← pipeline_task s.ssn task hostname
    some (record {
      operations = s.operations ++ record { name = pipeline_op; task = t } ∷ [];
      ssn = ssn';
    })

  unfoldable pub allocate :
      StatementState P → TaskInfo → ℕ → Option (StatementState P × Option Failure)
  allocate s task hostname = do
    ((ssn', t), e) ← allocate_v2 handlers now s.ssn task hostname
    some (elim e [
      | some err ↦ (record s { ssn = ssn' }, some err)
      | none ↦ (
        record {
          operations = s.operations ++ record { name = allocate_op; task = t } ∷ [];
          ssn = ssn';
        },
        none,
      )
    ])

  -- One round of Discard
  unfoldable pub undo : SessionState P → Operation → Option (SessionState P)
  undo ssn op =
      let (ssn', t) = assign generate_last_tx_context ssn op.task in
      elim op.name [
        | evict_op ↦ some ssn'
        | pipeline_op ↦ do (ssn'', u) ← unallocate_v2 handlers now ssn' t; some ssn''
        | allocate_op ↦ do (ssn'', u) ← unallocate_v2 handlers now ssn' t; some ssn''
      ]

  -- Discard: from the last operation to the first
  unfoldable pub discard : SessionState P → List Operation → Option (SessionState P)
  discard ssn [] = some ssn
  discard ssn (op ∷ ops) = do ssn' ← discard ssn ops; undo ssn' op
