-- ===== src/Examples/Preemptions.antt =====
-- A preemption on a node whose task may go, and the theorem on it.
use k8s_simulator.Common.{ℕ, Bool, true, none, [], ◌∷◌, arith, pos}
use k8s_simulator.Common.Runs.{Stops}
use k8s_simulator.Resource.Exact.{IsRequest}
use k8s_simulator.Task.{TaskInfo, new_task_info}
use k8s_simulator.Helper.Predicates.{PredicateHelper}
use k8s_simulator.Statement.{SessionState}
use k8s_simulator.Statement.Operations.{StatementState}
use k8s_simulator.Allocate.{AllocateSession, task_now}
use k8s_simulator.Resource.Truth.{IsRequest-prop}
use k8s_simulator.Queue.{PriorityQueue}
use k8s_simulator.Statement.Commit.{Cluster}
use k8s_simulator.Statement.Binding.{as_session}
use k8s_simulator.Allocate.Turns.{AreWhole}
use k8s_simulator.Allocate.Pending.{Every-All}
use k8s_simulator.Preempt.Rounds.{preempt_within}
use k8s_simulator.Preempt.Upkeep.{preempt_within-AreKept}
use k8s_simulator.Common.Sums.{sum_of}
use k8s_simulator.Job.{JobInfo}
use k8s_simulator.Examples.Jobs.{pair_job}
use k8s_simulator.Preempt.Queues.{Contest, preempt_in_queue}
use k8s_simulator.Preempt.Contests.{IsUpheld, preempt_in_queue-IsUpheld}
use k8s_simulator.Preempt.{preempt}
use k8s_simulator.Preempt.Eviction.{IsTraced}
use k8s_simulator.Preempt.Warrants.{IsWarranted, preempt-IsWarranted}
use k8s_simulator.Statement.Soundness.{IsSound}
use k8s_simulator.Statement.Reach.{Reach-IsSound}
use k8s_simulator.Examples.Data.{resource, resource-IsRequest, pod}
use k8s_simulator.Examples.Sessions
use k8s_simulator.Examples.Statements.{ssn, handlers, outcome, result_of}
use k8s_simulator.Examples.Reaching.{ssn-IsSound, reached}

-- One plugin gives up all tasks.
abbrev pub env : AllocateSession ℕ
env = record {
  session = λ plugins. record (Sessions.ssn) {
    preemptable_fns = (2, λ t ts. (ts, pos 1)) ∷ [];
    best_node_fns = [];
    node_map_fns = [];
  };
  queues = (0, record { uid = 0; creation_timestamp = pos 0 }) ∷ [];
  opts = record {
    min_nodes_to_find = pos 100;
    percentage_of_nodes_to_find = pos 0;
    min_percentage_of_nodes_to_find = pos 5;
  };
  handlers = handlers;
  now = pos 50;
  node_list = 9 ∷ [];
  target_job = none;
  locked_nodes = [];
}

-- A nil filter.
abbrev pub all_tasks : SessionState ℕ → TaskInfo → Bool
all_tasks s u = true

-- It asks for more than is idle on the node beside the task that was allocated there.
abbrev pub preemptor : TaskInfo
preemptor = new_task_info (pod 4) 1 (resource 3 5 1) (pos 0) true

preemptor-IsRequest : IsRequest preemptor.resreq
unfolding new_task_info
preemptor-IsRequest = resource-IsRequest 3 5 1

abbrev pub stmt : StatementState ℕ
stmt = record { operations = []; ssn = (result_of outcome).0 }

abbrev pub helper : PredicateHelper
helper = record { task_predicate_error_cache = []; last_processed_node_index = 0 }

stmt-IsSound : IsSound stmt.ssn
stmt-IsSound = Reach-IsSound handlers (pos 50) ssn (result_of outcome).0 ssn-IsSound reached

preempt-IsWarranted_example :
    Stops
      (IsTraced env (IsWarranted env all_tasks (task_now stmt.ssn preemptor)) preemptor stmt)
      (preempt env stmt preemptor all_tasks helper)
preempt-IsWarranted_example =
    preempt-IsWarranted env all_tasks preemptor stmt helper (omega arith) (λ p. ((λ t ts h. h), tt))
      (λ p. ((λ t ts u h. h), tt)) preemptor-IsRequest (stmt-IsSound, tt)

-- The cluster has the jobs and the nodes of the session.
abbrev cluster : Cluster
cluster = record { jobs = stmt.ssn.jobs; nodes = stmt.ssn.nodes }

cluster-IsSound : IsSound (as_session cluster)
cluster-IsSound = record { booked = stmt-IsSound.booked; kept = stmt-IsSound.kept }

abbrev one_task : PriorityQueue TaskInfo
one_task = record { items = preemptor ∷ []; less_fn = none }

one_task-AreWhole : AreWhole one_task.items
one_task-AreWhole =
    Every-All (λ t. IsRequest t.resreq) (λ t. IsRequest-prop t.resreq) (preemptor ∷ [])
      (preemptor-IsRequest, tt)

preempt_within-AreKept_example :
    Stops
      (λ (r : Cluster × SessionState ℕ × PriorityQueue TaskInfo × PredicateHelper).
        IsSound (as_session r.0) × IsSound r.1)
      (preempt_within 2 env cluster stmt.ssn one_task helper)
preempt_within-AreKept_example =
    preempt_within-AreKept env (omega arith) (λ p. ((λ t ts h. h), tt)) 2 cluster stmt.ssn one_task
      helper (omega arith) (cluster-IsSound, stmt-IsSound) one_task-AreWhole

-- A job with one task that preempts.
abbrev contest : Contest ℕ
contest = record {
  cluster = cluster;
  ssn = stmt.ssn;
  preemptor_queues = (1, one_task) ∷ [];
  helper = helper;
}

abbrev one_job : PriorityQueue JobInfo
one_job = record { items = pair_job ∷ []; less_fn = none }

preempt_in_queue-IsUpheld_example :
    Stops
      (IsUpheld env (omega arith) (λ p. ((λ t ts h. h), tt)))
      (preempt_in_queue 3 env contest one_job)
unfolding sum_of
preempt_in_queue-IsUpheld_example =
    preempt_in_queue-IsUpheld env (omega arith) (λ p. ((λ t ts h. h), tt)) 3 contest one_job
      (omega arith) ((cluster-IsSound, stmt-IsSound), (one_task-AreWhole, tt))
