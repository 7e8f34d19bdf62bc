-- ===== src/Allocate.antt =====
-- pkg/scheduler/actions/allocate/allocate.go: the action that places the pending tasks. The queues hold
-- pointers: what is read of a job or a task is what the session's jobs hold at that time. The plugins'
-- functions read the plugins' state, `P`.
pub mod Tasks
pub mod Steps
pub mod Turns
pub mod Choice
pub mod Pending
pub mod Progress
pub mod Service
pub mod Namespaces
pub mod Execution
pub mod Filing
pub mod Termination
pub mod Rounds
use k8s_simulator.Common.{
  ℕ, zero, suc, ◌==◌, Bool, true, false, not, ◌&&◌, Option, none, some, List, [], ◌∷◌, ◌++◌, map,
  length, ℤ, Dict, lookup, insert, delete, if◌then◌else◌,
}
use k8s_simulator.Common.Runs.{
  Run, done, fault, overdrawn, no_node, panic, cut_off, of_option, ◌>>=◌,
}
use k8s_simulator.Resource.{is_empty, zero_default}
use k8s_simulator.Resource.Order.{less_equal}
use k8s_simulator.Task.{TaskInfo, pending}
use k8s_simulator.Job.{JobInfo, bucket, is_pending}
use k8s_simulator.Node.{NodeInfo, future_idle}
use k8s_simulator.Session.{Session, QueueInfo}
use k8s_simulator.Session.Order.{job_order_fn, queue_order_fn, namespace_order_fn, task_order_fn}
use k8s_simulator.Session.Ballot.{
  overused, allocatable, job_ready, job_valid, job_pipelined, predicate_fn,
}
use k8s_simulator.Session.Scores.{
  batch_node_order_fn, node_order_map_fn, node_order_reduce_fn, best_node_fn,
}
use k8s_simulator.Queue.{PriorityQueue, new_priority_queue, push, pop, empty}
use k8s_simulator.Helper.{ServerOption, get_node_list, select_best_node}
use k8s_simulator.Helper.Scoring.{prioritize_nodes}
use k8s_simulator.Helper.Predicates.{PredicateHelper, predicate_nodes}
use k8s_simulator.Statement.{EventHandler, SessionState}
use k8s_simulator.Statement.Operations.{StatementState, allocate, pipeline, discard}
use k8s_simulator.Statement.Commit.{Cluster, commit}

-- What the action reads and does not change.
pub record AllocateSession (P : Type 0) : Type 0 where
  -- The functions that the plugins registered, at a state of theirs.
  pub session : P → Session
  pub queues : Dict QueueInfo
  pub opts : ServerOption
  pub handlers : List (EventHandler P)
  pub now : ℤ
  -- ssn.NodeList, by the nodes' names
  pub node_list : List ℕ
  -- util.Reservation: the job that nodes are locked for, and those nodes.
  pub target_job : Option ℕ
  pub locked_nodes : Dict ℕ

-- What it changes: the cluster, the session, and its own variables. The maps of jobsMap are by namespace, then
-- by queue; pending_tasks is by job.
pub record AllocateState (P : Type 0) : Type 0 where
  pub cluster : Cluster
  pub ssn : SessionState P
  pub last_processed_node_index : ℕ
  pub namespaces : PriorityQueue ℕ
  pub jobs_map : Dict (Dict (PriorityQueue JobInfo))
  pub pending_tasks : Dict (PriorityQueue TaskInfo)

-- The nodes that are not locked. The loop appends to a slice of NodeList itself, which it overwrites.
unfoldable pub keep_unlocked : Dict ℕ → List ℕ → List ℕ
keep_unlocked locked [] = []
keep_unlocked locked (n ∷ ns) =
    let rest = keep_unlocked locked ns in elim (lookup n locked) [ none ↦ n ∷ rest | some _ ↦ rest ]

-- What a slice holds after its beginning was written over.
unfoldable pub overwrite : List ℕ → List ℕ → List ℕ
overwrite [] all = all
overwrite (n ∷ ns) [] = n ∷ ns
overwrite (n ∷ ns) (m ∷ ms) = n ∷ overwrite ns ms

-- A queue that compares with what is true now.
unfoldable pub sorted_by : {A : Type 0} → (A → A → Bool) → PriorityQueue A → PriorityQueue A
sorted_by f q = record q { less_fn = some f }

module _ {P : Type 0} where
  -- What the pointers to a job and to a task show.
  unfoldable pub job_now : SessionState P → JobInfo → JobInfo
  job_now ssn j = elim (lookup j.uid ssn.jobs) [ none ↦ j | some job ↦ job ]

  unfoldable pub task_now : SessionState P → TaskInfo → TaskInfo
  task_now ssn t = elim (lookup t.job ssn.jobs) [
    | none ↦ t
    | some job ↦ elim (lookup t.uid job.tasks) [ none ↦ t | some u ↦ u ]
  ]

  unfoldable pub job_order : AllocateSession P → SessionState P → JobInfo → JobInfo → Bool
  job_order env ssn l r = job_order_fn (env.session ssn.plugins) (job_now ssn l) (job_now ssn r)

  unfoldable pub task_order : AllocateSession P → SessionState P → TaskInfo → TaskInfo → Bool
  task_order env ssn l r = task_order_fn (env.session ssn.plugins) (task_now ssn l) (task_now ssn r)

  unfoldable pub namespace_order : AllocateSession P → SessionState P → ℕ → ℕ → Bool
  namespace_order env ssn l r = namespace_order_fn (env.session ssn.plugins) l r

  unfoldable pub push_namespace : AllocateSession P → AllocateState P → ℕ → Run (AllocateState P)
  push_namespace env st namespace = do
    ns ← of_option panic (push (sorted_by (namespace_order env st.ssn) st.namespaces) namespace)
    done (record st { namespaces = ns })

  unfoldable pub push_job :
      AllocateSession P
      → SessionState P
      → PriorityQueue JobInfo
      → JobInfo
      → Run (PriorityQueue JobInfo)
  push_job env ssn jobs job = of_option panic (push (sorted_by (job_order env ssn) jobs) job)

  -- Is a job left out of the action?
  unfoldable pub is_skipped : AllocateSession P → SessionState P → JobInfo → Bool
  is_skipped env ssn job =
      if is_pending job then true else elim (job_valid (env.session ssn.plugins) job) [
        | some vr ↦
            if vr.pass
            then elim (lookup job.queue env.queues) [ none ↦ true | some q ↦ false ]
            else true
        | none ↦ elim (lookup job.queue env.queues) [ none ↦ true | some q ↦ false ]
      ]

  -- `jobsMap[namespace]`; a namespace is pushed the first time that it is met.
  unfoldable pub open_namespace :
      AllocateSession P → AllocateState P → ℕ → Run (AllocateState P × Dict (PriorityQueue JobInfo))
  open_namespace env st namespace = elim (lookup namespace st.jobs_map) [
    | some m ↦ done (st, m)
    | none ↦ do
      st' ← push_namespace env st namespace
      done (record st' { jobs_map = insert namespace [] st'.jobs_map }, [])
  ]

  unfoldable pub jobs_or_new :
      AllocateSession P → SessionState P → Option (PriorityQueue JobInfo) → PriorityQueue JobInfo
  jobs_or_new env ssn none = new_priority_queue (some (job_order env ssn))
  jobs_or_new env ssn (some q) = q

  -- The body of the loop over ssn.Jobs.
  unfoldable pub file_in_namespace :
      AllocateSession P → AllocateState P → JobInfo → Run (AllocateState P)
  file_in_namespace env st job = do
    (st', queue_map) ← open_namespace env st job.namespace
    let jobs = jobs_or_new env st.ssn (lookup job.queue queue_map)
    jobs' ← push_job env st.ssn jobs job
    done (record st' {
      jobs_map = insert job.namespace (insert job.queue jobs' queue_map) st'.jobs_map;
    })

  unfoldable pub file_jobs :
      AllocateSession P → Dict JobInfo → AllocateState P → Run (AllocateState P)
  file_jobs env [] st = done st
  file_jobs env ((k, job) ∷ d) st =
      if is_skipped env st.ssn job
      then file_jobs env d st
      else (do st' ← file_in_namespace env st job; file_jobs env d st')

  unfoldable pub unlocked_nodes : AllocateSession P → List ℕ
  unlocked_nodes env = elim env.target_job [
    | none ↦ env.node_list
    | some _ ↦
        if length env.locked_nodes == 0
        then env.node_list
        else keep_unlocked env.locked_nodes env.node_list
  ]

  unfoldable pub all_nodes : AllocateSession P → List ℕ
  all_nodes env = overwrite (unlocked_nodes env) env.node_list

  unfoldable pub is_target : AllocateSession P → JobInfo → Bool
  is_target env job = elim env.target_job [ none ↦ false | some uid ↦ job.uid == uid ]

  unfoldable pub nodes_for : AllocateSession P → JobInfo → List ℕ
  nodes_for env job = if is_target env job then all_nodes env else unlocked_nodes env

-- NodeResourceFitFailed
abbrev pub node_resource_fit_failed : ℕ
node_resource_fit_failed = 1

-- Does the task fit what will be idle on the node?
unfoldable pub fits_future : TaskInfo → NodeInfo → Run Bool
fits_future task node = do
  idle ← of_option overdrawn (future_idle node)
  done (less_equal task.init_resreq idle zero_default)

-- predicateFn
unfoldable pub resource_predicate : Session → TaskInfo → NodeInfo → Run (Option ℕ)
resource_predicate ssn task node = do
  fits ← fits_future task node
  done (if fits then predicate_fn ssn task node else some node_resource_fit_failed)

-- `InitResreq.LessEqual(n.Idle) || InitResreq.LessEqual(n.FutureIdle())`
unfoldable pub fits_node : TaskInfo → NodeInfo → Run Bool
fits_node task node =
    if less_equal task.init_resreq node.idle zero_default then done true else fits_future task node

unfoldable pub candidate_nodes : TaskInfo → List NodeInfo → Run (List NodeInfo)
candidate_nodes task [] = done []
candidate_nodes task (n ∷ ns) = do
  fits ← fits_node task n
  rest ← candidate_nodes task ns
  done (if fits then n ∷ rest else rest)

-- The node for a task, which is nil if there is none.
unfoldable pub choose_node : Session → TaskInfo → List NodeInfo → Option NodeInfo
choose_node ssn task candidates =
    let node_scores =
      prioritize_nodes (batch_node_order_fn ssn) (node_order_map_fn ssn) (node_order_reduce_fn ssn)
        task candidates in
    elim (best_node_fn ssn task node_scores) [
      | some node ↦ some node
      | none ↦ select_best_node node_scores
    ]
