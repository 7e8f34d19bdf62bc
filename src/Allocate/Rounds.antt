-- ===== src/Allocate/Rounds.antt =====
-- pkg/scheduler/actions/allocate/allocate.go: the loop over the namespaces, and Execute.
use k8s_simulator.Common.{
  ℕ, zero, suc, Bool, true, false, Option, none, some, List, [], ◌∷◌, length, Dict, lookup, insert,
  delete, if◌then◌else◌,
}
use k8s_simulator.Common.Runs.{Run, done, fault, panic, cut_off, of_option, ◌>>=◌}
use k8s_simulator.Resource.{is_empty}
use k8s_simulator.Task.{TaskInfo, pending}
use k8s_simulator.Job.{JobInfo, bucket}
use k8s_simulator.Session.{QueueInfo}
use k8s_simulator.Session.Order.{queue_order_fn}
use k8s_simulator.Session.Ballot.{overused, job_ready, job_pipelined}
use k8s_simulator.Queue.{PriorityQueue, new_priority_queue, push, pop, empty}
use k8s_simulator.Statement.{SessionState}
use k8s_simulator.Statement.Operations.{StatementState, discard}
use k8s_simulator.Statement.Commit.{Cluster, commit}
use k8s_simulator.Allocate.{
  AllocateSession, AllocateState, sorted_by, job_now, job_order, task_order, namespace_order,
  push_namespace, file_jobs, nodes_for,
}
use k8s_simulator.Allocate.Tasks.{session_of, serve_tasks}

-- The tasks of a job that are not best effort.
unfoldable pub tasks_with_request : Dict TaskInfo → List TaskInfo
tasks_with_request [] = []
tasks_with_request ((k, t) ∷ d) =
    let rest = tasks_with_request d in if is_empty t.resreq then rest else t ∷ rest

unfoldable pub has_no_jobs : Dict (PriorityQueue JobInfo) → ℕ → Bool
has_no_jobs queues uid = elim (lookup uid queues) [ none ↦ false | some jobs ↦ empty jobs ]

module _ {P : Type 0} where
  unfoldable pub push_tasks :
      AllocateSession P
      → SessionState P
      → List TaskInfo
      → PriorityQueue TaskInfo
      → Run (PriorityQueue TaskInfo)
  push_tasks env ssn [] q = done q
  push_tasks env ssn (t ∷ ts) q = do q' ← of_option panic (push q t); push_tasks env ssn ts q'

  -- `pendingTasks[job.UID]`, which the first visit to a job fills.
  unfoldable pub tasks_of :
      AllocateSession P → AllocateState P → JobInfo → Run (PriorityQueue TaskInfo)
  tasks_of env st j = elim (lookup j.uid st.pending_tasks) [
    | some q ↦ done q
    | none ↦
        push_tasks env st.ssn
          (tasks_with_request (bucket pending (job_now st.ssn j).task_status_index))
          (new_priority_queue (some (task_order env st.ssn)))
  ]

  -- The loop over the queues of a namespace: those that are overused are deleted, and the first in the order
  -- of the queues that has jobs is chosen. `left` is the rest of the map that the loop visits.
  unfoldable pub better_queue :
      AllocateSession P → SessionState P → QueueInfo → Option QueueInfo → Bool
  better_queue env ssn current none = true
  better_queue env ssn current (some q) = queue_order_fn (session_of env ssn) current q

  unfoldable pub select_queue :
      AllocateSession P
      → SessionState P
      → Dict (PriorityQueue JobInfo)
      → Dict (PriorityQueue JobInfo)
      → Option QueueInfo
      → Run (Dict (PriorityQueue JobInfo) × Option QueueInfo)
  select_queue env ssn [] queues best = done (queues, best)
  select_queue env ssn ((id, q) ∷ left) queues best = elim (lookup id env.queues) [
    | none ↦ fault panic
    | some current ↦
        let chosen : Option QueueInfo =
          if has_no_jobs queues current.uid
          then best
          else if better_queue env ssn current best
          then some current
          else best in
        if overused (session_of env ssn) current
        then select_queue env ssn left (delete id queues) best
        else select_queue env ssn left queues chosen
  ]

  -- The end of a job's turn: its statement is committed, kept or discarded.
  unfoldable pub settle :
      AllocateSession P → Cluster → JobInfo → StatementState P → Run (Cluster × SessionState P)
  settle env cluster j stmt =
      let job = job_now stmt.ssn j in
      if job_ready (session_of env stmt.ssn) job
      then of_option panic (commit env.now cluster stmt.ssn stmt.operations)
      else if job_pipelined (session_of env stmt.ssn) job
      then done (cluster, stmt.ssn)
      else (do
        ssn' ← of_option panic (discard env.handlers env.now stmt.ssn stmt.operations)
        done (cluster, ssn'))

  -- The turn of a job that was taken out of its queue: `rest` is what the queue still holds.
  unfoldable pub serve_job :
      AllocateSession P
      → AllocateState P
      → ℕ
      → Dict (PriorityQueue JobInfo)
      → QueueInfo
      → JobInfo
      → PriorityQueue JobInfo
      → Run (AllocateState P)
  serve_job env st namespace queues queue j rest = do
    tasks ← tasks_of env st j
    v ← serve_tasks (suc (length tasks.items)) env queue (nodes_for env j) j (record {
      stmt = record { operations = []; ssn = st.ssn };
      tasks = tasks;
      jobs = rest;
      helper = record {
        task_predicate_error_cache = [];
        last_processed_node_index = st.last_processed_node_index;
      };
    })
    (cluster', ssn') ← settle env st.cluster j v.stmt
    push_namespace env
        (record {
          cluster = cluster';
          ssn = ssn';
          last_processed_node_index = v.helper.last_processed_node_index;
          namespaces = st.namespaces;
          jobs_map = insert namespace (insert queue.uid v.jobs queues) st.jobs_map;
          pending_tasks = insert j.uid v.tasks st.pending_tasks;
        })
        namespace

  -- `jobsMap[namespace]`, where nil has no entries.
  unfoldable pub queues_in : AllocateState P → ℕ → Dict (PriorityQueue JobInfo)
  queues_in st namespace = elim (lookup namespace st.jobs_map) [ none ↦ [] | some m ↦ m ]

  -- A write to the map that is there; there is nothing to write to a nil map.
  unfoldable pub keep_queues : AllocateState P → ℕ → Dict (PriorityQueue JobInfo) → AllocateState P
  keep_queues st namespace queues = elim (lookup namespace st.jobs_map) [
    | none ↦ st
    | some m ↦ record st { jobs_map = insert namespace queues st.jobs_map }
  ]

  -- What follows the choice of a queue.
  unfoldable pub serve_queue_of :
      AllocateSession P
      → AllocateState P
      → ℕ
      → Dict (PriorityQueue JobInfo)
      → QueueInfo
      → Run (AllocateState P)
  serve_queue_of env st namespace queues queue = elim (lookup queue.uid queues) [
    | none ↦ push_namespace env st namespace
    | some jobs ↦
        if empty jobs
        then push_namespace env (keep_queues st namespace (delete queue.uid queues)) namespace
        else (do
          (top, rest) ← of_option panic (pop (sorted_by (job_order env st.ssn) jobs))
          j ← of_option panic top
          serve_job env st namespace queues queue j rest)
  ]

  -- The body of the loop over the namespaces, for the one that was taken out.
  unfoldable pub serve_namespace : AllocateSession P → AllocateState P → ℕ → Run (AllocateState P)
  serve_namespace env st namespace = do
    (queues, best) ← select_queue env st.ssn (queues_in st namespace) (queues_in st namespace) none
    elim best [
      | none ↦ done (keep_queues st namespace queues)
      | some queue ↦ serve_queue_of env (keep_queues st namespace queues) namespace queues queue
    ]

  unfoldable pub serve_namespaces : ℕ → AllocateSession P → AllocateState P → Run (AllocateState P)
  serve_namespaces zero env st = fault cut_off
  serve_namespaces (suc k) env st =
      let step : Run (AllocateState P) = do
        (top, rest) ← of_option panic (pop (sorted_by (namespace_order env st.ssn) st.namespaces))
        namespace ← of_option panic top
        st' ← serve_namespace env (record st { namespaces = rest }) namespace
        serve_namespaces k env st'
      in if empty st.namespaces then done st else step

  -- Execute, whose second loop is on fuel.
  unfoldable pub execute :
      ℕ → AllocateSession P → Cluster → SessionState P → ℕ → Run (AllocateState P)
  execute fuel env cluster ssn last = do
    st ← file_jobs env ssn.jobs (record {
      cluster = cluster;
      ssn = ssn;
      last_processed_node_index = last;
      namespaces = new_priority_queue (some (namespace_order env ssn));
      jobs_map = [];
      pending_tasks = [];
    })
    serve_namespaces fuel env st
