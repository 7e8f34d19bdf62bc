-- ===== src/Allocate/Tasks.antt =====
-- pkg/scheduler/actions/allocate/allocate.go: the loop over the tasks of a job.
use k8s_simulator.Common.{
  ℕ, zero, suc, Bool, true, false, none, some, not, ◌&&◌, List, [], ◌∷◌, Dict, lookup, insert,
  if◌then◌else◌,
}
use k8s_simulator.Common.Runs.{Run, done, fault, no_node, panic, cut_off, of_option, ◌>>=◌}
use k8s_simulator.Resource.{zero_default}
use k8s_simulator.Resource.Order.{less_equal}
use k8s_simulator.Task.{TaskInfo}
use k8s_simulator.Job.{JobInfo}
use k8s_simulator.Node.{NodeInfo}
use k8s_simulator.Session.{Session, QueueInfo}
use k8s_simulator.Session.Ballot.{allocatable, job_ready}
use k8s_simulator.Queue.{PriorityQueue, pop, empty}
use k8s_simulator.Helper.{get_node_list}
use k8s_simulator.Helper.Predicates.{PredicateHelper, predicate_nodes}
use k8s_simulator.Statement.{SessionState}
use k8s_simulator.Statement.Operations.{StatementState, allocate, pipeline}
use k8s_simulator.Allocate.{
  AllocateSession, sorted_by, job_now, task_now, task_order, push_job, fits_future,
  resource_predicate, candidate_nodes, choose_node,
}

-- The variables of the loop: the statement, the job's tasks that are left, the queue that the job came from,
-- and the predicate helper.
pub record Visit (P : Type 0) : Type 0 where
  pub stmt : StatementState P
  pub tasks : PriorityQueue TaskInfo
  pub jobs : PriorityQueue JobInfo
  pub helper : PredicateHelper

module _ {P : Type 0} where
  -- `job.NodesFitErrors[task.UID] = fitErrors`, for a job of the session
  unfoldable pub record_fit_errors : SessionState P → JobInfo → ℕ → Dict ℕ → SessionState P
  record_fit_errors ssn j uid fe = elim (lookup j.uid ssn.jobs) [
    | none ↦ ssn
    | some job ↦
        let noted = record job { nodes_fit_errors = insert uid fe job.nodes_fit_errors } in
        record ssn { jobs = insert j.uid noted ssn.jobs }
  ]

  unfoldable pub in_session : Visit P → SessionState P → Visit P
  in_session v ssn = record v { stmt = record (v.stmt) { ssn = ssn } }

  unfoldable pub session_of : AllocateSession P → SessionState P → Session
  session_of env ssn = env.session ssn.plugins

  -- The statement takes idle resources for the task, or what will be idle. An error of AllocateV2 is only
  -- logged.
  unfoldable pub allocate_on :
      AllocateSession P → StatementState P → TaskInfo → NodeInfo → Run (StatementState P)
  allocate_on env stmt task node = do
    (stmt', err) ← of_option panic (allocate env.handlers env.now stmt task node.name)
    done stmt'

  unfoldable pub pipeline_on :
      AllocateSession P → StatementState P → TaskInfo → NodeInfo → Run (StatementState P)
  pipeline_on env stmt task node = do
    fits ← fits_future task node
    if fits then of_option panic (pipeline env.handlers env.now stmt task node.name) else done stmt

  unfoldable pub place_on :
      AllocateSession P → StatementState P → TaskInfo → NodeInfo → Run (StatementState P)
  place_on env stmt task node =
      if less_equal task.init_resreq node.idle zero_default
      then allocate_on env stmt task node
      else pipeline_on env stmt task node

  -- The end of the loop's body: a job that is ready goes back to its queue for its other tasks.
  unfoldable pub after_task : AllocateSession P → JobInfo → Visit P → Run (Visit P × Bool)
  after_task env j v =
      let ssn = v.stmt.ssn in
      if job_ready (session_of env ssn) (job_now ssn j) && not (empty v.tasks)
      then (do jobs' ← push_job env ssn v.jobs j; done (record v { jobs = jobs' }, false))
      else done (v, true)

  -- The body of the loop after the nodes that the task fits were found.
  unfoldable pub place_task_on :
      AllocateSession P → JobInfo → Visit P → TaskInfo → List NodeInfo → Run (Visit P × Bool)
  place_task_on env j v task [] = done (v, true)
  place_task_on env j v task (n ∷ ns) = do
    node ← of_option no_node (choose_node (session_of env v.stmt.ssn) task (n ∷ ns))
    stmt' ← place_on env v.stmt task node
    after_task env j (record v { stmt = stmt' })

  unfoldable pub find_node :
      AllocateSession P
      → JobInfo
      → Visit P
      → TaskInfo
      → List NodeInfo
      → Dict ℕ
      → Run (Visit P × Bool)
  find_node env j v task [] fe =
      done (in_session v (record_fit_errors v.stmt.ssn j task.uid fe), false)
  find_node env j v task (n ∷ ns) fe = do
    candidates ← candidate_nodes task (n ∷ ns)
    place_task_on env j v task candidates

  -- The body of the loop, and whether the loop goes on.
  unfoldable pub serve_task :
      AllocateSession P → QueueInfo → List ℕ → JobInfo → Visit P → TaskInfo → Run (Visit P × Bool)
  serve_task env queue names j v t =
      let ssn = v.stmt.ssn in
      let task = task_now ssn t in
      if not (allocatable (session_of env ssn) queue task) then done (v, true) else (do
        (nodes, fe, helper') ←
            predicate_nodes env.opts (resource_predicate (session_of env ssn)) task
              (get_node_list ssn.nodes names) v.helper
        find_node env j (record v { helper = helper' }) task nodes fe)

  unfoldable pub serve_tasks :
      ℕ → AllocateSession P → QueueInfo → List ℕ → JobInfo → Visit P → Run (Visit P)
  serve_tasks zero env queue names j v = fault cut_off
  serve_tasks (suc k) env queue names j v =
      let step : Run (Visit P) = do
        (top, rest) ← of_option panic (pop (sorted_by (task_order env v.stmt.ssn) v.tasks))
        t ← of_option panic top
        (v', more) ← serve_task env queue names j (record v { tasks = rest }) t
        elim more [ true ↦ serve_tasks k env queue names j v' | false ↦ done v' ]
      in if empty v.tasks then done v else step
