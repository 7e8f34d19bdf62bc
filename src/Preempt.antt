-- ===== src/Preempt.antt =====
-- pkg/scheduler/actions/preempt/preempt.go: how a task takes the place of others, and which of them it may
-- replace. A node's tasks are copies, and what is evicted is a copy of these; pointers to nodes and to the
-- preemptor show what the session holds at that time.

pub mod Victims
pub mod Replacement
pub mod Eviction
pub mod Warrants
pub mod Rounds
pub mod Upkeep
pub mod Chosen
pub mod Queues
pub mod Contests
use k8s_simulator.Common.{
  ℕ, zero, suc, ◌==◌, Bool, true, false, not, ◌&&◌, none, some, List, [], ◌∷◌, length, Dict, lookup,
  if◌then◌else◌,
}
use k8s_simulator.Common.Runs.{
  Run, done, fault, overdrawn, no_node, panic, cut_off, of_option, ◌>>=◌,
}
use k8s_simulator.Resource.{is_empty}
use k8s_simulator.Task.{Status, running, TaskInfo, clone_task}
use k8s_simulator.Job.{JobInfo}
use k8s_simulator.Node.{NodeInfo}
use k8s_simulator.Session.Order.{task_order_fn}
use k8s_simulator.Session.Ballot.{predicate_fn}
use k8s_simulator.Session.Eviction.{preemptable_tasks, victim_tasks}
use k8s_simulator.Session.Scores.{batch_node_order_fn, node_order_map_fn, node_order_reduce_fn}
use k8s_simulator.Queue.{PriorityQueue, new_priority_queue, pop, empty}
use k8s_simulator.Helper.{get_node_list, validate_victims}
use k8s_simulator.Helper.Scoring.{prioritize_nodes, sort_nodes}
use k8s_simulator.Helper.Predicates.{PredicateHelper, predicate_nodes}
use k8s_simulator.Statement.{SessionState}
use k8s_simulator.Statement.Operations.{StatementState, evict, pipeline}
use k8s_simulator.Statement.Commit.{Cluster, commit}
use k8s_simulator.Allocate.{AllocateSession, sorted_by, job_now, task_now, fits_future}
use k8s_simulator.Allocate.Tasks.{session_of}
use k8s_simulator.Allocate.Rounds.{push_tasks}

unfoldable pub is_status_running : Status → Bool
is_status_running running = true
is_status_running _ = false

-- The tests that both filters begin with.
unfoldable pub is_replaceable : TaskInfo → Bool
is_replaceable task = is_status_running task.status && not (is_empty task.resreq)

-- The filter for tasks of the same job.
unfoldable pub of_same_job : TaskInfo → TaskInfo → Bool
of_same_job preemptor task = is_replaceable task && preemptor.job == task.job

-- The tasks of a node that pass the filter.
unfoldable pub preemptees_of : (TaskInfo → Bool) → Dict TaskInfo → List TaskInfo
preemptees_of filter [] = []
preemptees_of filter ((k, task) ∷ d) =
    let rest = preemptees_of filter d in if filter task then clone_task task ∷ rest else rest

module _ {P : Type 0} where
  -- The filter for tasks of other jobs in the queue.
  unfoldable pub of_other_job : JobInfo → TaskInfo → SessionState P → TaskInfo → Bool
  of_other_job preemptor_job preemptor ssn task =
      if is_replaceable task
      then elim (lookup task.job ssn.jobs) [
        | none ↦ false
        | some job ↦
            job.queue == (job_now ssn preemptor_job).queue && not (preemptor.job == task.job)
      ]
      else false

  -- The order of victimsQueue
  unfoldable pub victim_order : AllocateSession P → SessionState P → TaskInfo → TaskInfo → Bool
  victim_order env ssn l r = not (task_order_fn (session_of env ssn) l r)

  unfoldable pub fits_node_now : SessionState P → TaskInfo → ℕ → Run Bool
  fits_node_now ssn preemptor host = do
    node ← of_option no_node (lookup host ssn.nodes)
    fits_future preemptor node

  -- The loop over victimsQueue
  unfoldable pub evict_victims :
      ℕ
      → AllocateSession P
      → ℕ
      → TaskInfo
      → StatementState P
      → PriorityQueue TaskInfo
      → Run (StatementState P)
  evict_victims zero env host preemptor stmt victims = fault cut_off
  evict_victims (suc k) env host preemptor stmt victims =
      let step : Run (StatementState P) = do
        fits ← fits_node_now stmt.ssn preemptor host
        elim fits [
          | true ↦ done stmt
          | false ↦ do
            (top, rest) ← of_option panic (pop (sorted_by (victim_order env stmt.ssn) victims))
            preemptee ← of_option panic top
            stmt' ← of_option panic (evict env.handlers env.now stmt preemptee)
            evict_victims k env host preemptor stmt' rest
        ]
      in if empty victims then done stmt else step

  -- The body of the loop over the nodes once the victims are known to be enough; is the preemptor assigned?
  unfoldable pub replace_on :
      AllocateSession P
      → ℕ
      → TaskInfo
      → List TaskInfo
      → StatementState P
      → Run (StatementState P × Bool)
  replace_on env host preemptor victims stmt = do
    queue ← push_tasks env stmt.ssn victims (new_priority_queue (some (victim_order env stmt.ssn)))
    stmt' ← evict_victims (suc (length queue.items)) env host preemptor stmt queue
    fits ← fits_node_now stmt'.ssn preemptor host
    if fits
        then (do
          stmt'' ←
              of_option panic
                (pipeline env.handlers env.now stmt' (task_now stmt'.ssn preemptor) host)
          done (stmt'', true))
        else done (stmt', false)

  unfoldable pub try_node :
      AllocateSession P
      → (SessionState P → TaskInfo → Bool)
      → TaskInfo
      → ℕ
      → StatementState P
      → Run (StatementState P × Bool)
  try_node env filter preemptor host stmt = do
    node ← of_option no_node (lookup host stmt.ssn.nodes)
    let victims =
        preemptable_tasks (session_of env stmt.ssn) preemptor
          (preemptees_of (filter stmt.ssn) node.tasks)
    err ← of_option overdrawn (validate_victims preemptor node victims)
    elim err [ some e ↦ done (stmt, false) | none ↦ replace_on env host preemptor victims stmt ]

  unfoldable pub try_nodes :
      AllocateSession P
      → (SessionState P → TaskInfo → Bool)
      → TaskInfo
      → List NodeInfo
      → StatementState P
      → Run (StatementState P × Bool)
  try_nodes env filter preemptor [] stmt = done (stmt, false)
  try_nodes env filter preemptor (n ∷ ns) stmt = do
    (stmt', assigned) ← try_node env filter preemptor n.name stmt
    elim assigned [ true ↦ done (stmt', true) | false ↦ try_nodes env filter preemptor ns stmt' ]

  -- preempt, whose error is always nil
  unfoldable pub preempt :
      AllocateSession P
      → StatementState P
      → TaskInfo
      → (SessionState P → TaskInfo → Bool)
      → PredicateHelper
      → Run (StatementState P × Bool × PredicateHelper)
  preempt env stmt t filter helper = do
    let ssn = session_of env stmt.ssn
    let preemptor = task_now stmt.ssn t
    (nodes, fe, helper') ←
        predicate_nodes env.opts (λ task node. done (predicate_fn ssn task node)) preemptor
          (get_node_list stmt.ssn.nodes env.node_list) helper
    (stmt', assigned) ←
        try_nodes env filter preemptor
          (sort_nodes (
            prioritize_nodes (batch_node_order_fn ssn) (node_order_map_fn ssn)
              (node_order_reduce_fn ssn) preemptor nodes))
          stmt
    done (stmt', assigned, helper')

  -- victimTasks
  unfoldable pub evict_all :
      AllocateSession P → List TaskInfo → StatementState P → Run (StatementState P)
  evict_all env [] stmt = done stmt
  evict_all env (victim ∷ victims) stmt = do
    stmt' ← of_option panic (evict env.handlers env.now stmt (clone_task victim))
    evict_all env victims stmt'

  unfoldable pub evict_victim_tasks :
      AllocateSession P → Cluster → SessionState P → Run (Cluster × SessionState P)
  evict_victim_tasks env cluster ssn = do
    let chosen : List TaskInfo = elim (victim_tasks (session_of env ssn)) [
      | none ↦ []
      | some victims ↦ victims
    ]
    stmt ← evict_all env chosen (record { operations = []; ssn = ssn })
    of_option panic (commit env.now cluster stmt.ssn stmt.operations)
