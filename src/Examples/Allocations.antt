-- ===== src/Examples/Allocations.antt =====
-- Runs of the allocate action, and the theorems on it and on its parts.
use k8s_simulator.Common.{
  ℕ, ◌≤◌, ◌≡◌, refl, sym, subst, some, none, List, [], ◌∷◌, arith, Dict, All, length, pos, ◌≤ℤ◌,
  lookup, Returns,
}
use k8s_simulator.Common.Runs.{done, Ends}
use k8s_simulator.Task.{TaskInfo}
use k8s_simulator.Job.{JobInfo, group_inqueue}
use k8s_simulator.Job.Books.{IsBooked}
use k8s_simulator.Node.{NodeInfo}
use k8s_simulator.Session.{Session, QueueInfo}
use k8s_simulator.Statement.{SessionState}
use k8s_simulator.Statement.Operations.{Operation, allocate_op}
use k8s_simulator.Statement.Commit.{Cluster, commit}
use k8s_simulator.Statement.Soundness.{IsSound}
use k8s_simulator.Statement.Nodes.{IsNodeOf}
use k8s_simulator.Statement.Binding.{as_session, commit-AreSound}
use k8s_simulator.Helper.{calculate_num_of_feasible_nodes_to_find}
use k8s_simulator.Helper.Predicates.{PredicateHelper, predicate_nodes}
use k8s_simulator.Helper.Fitting.{predicate_nodes-IsFitting}
use k8s_simulator.Allocate.{AllocateSession, AllocateState, resource_predicate}
use k8s_simulator.Allocate.Steps.{resource_predicate-Ends}
use k8s_simulator.Allocate.Rounds.{execute}
use k8s_simulator.Allocate.Termination.{execute-IsServed}
use k8s_simulator.Examples.Data.{task, free_node}
use k8s_simulator.Examples.Jobs.{pair_job, pair_job-IsBooked}
use k8s_simulator.Examples.Sessions
use k8s_simulator.Examples.Statements.{handlers}
use k8s_simulator.Examples.Reaching.{free_node-IsNodeOf, task-IsRequest}

-- The job with two tasks, whose pod group is in the queue 0.
abbrev job : JobInfo
job = record pair_job {
  queue = 0;
  pod_group = some (record {
    namespace = 0;
    phase = group_inqueue;
    queue = 0;
    min_member = pos 0;
    min_task_member = [];
    min_resources = none;
    creation_timestamp = pos 0;
  });
}

job-IsBooked : IsBooked job
job-IsBooked = record {
  distinct = pair_job-IsBooked.distinct;
  index_distinct = pair_job-IsBooked.index_distinct;
  keyed = pair_job-IsBooked.keyed;
  filed = pair_job-IsBooked.filed;
  tallied = pair_job-IsBooked.tallied;
  requests = pair_job-IsBooked.requests;
  total_eq = pair_job-IsBooked.total_eq;
  allocated_eq = pair_job-IsBooked.allocated_eq;
}

abbrev cluster : Cluster
cluster = record { jobs = (1, job) ∷ []; nodes = (9, free_node) ∷ [] }

abbrev ssn : SessionState ℕ
ssn = record { jobs = (1, job) ∷ []; nodes = (9, free_node) ∷ []; plugins = 0 }

any_session-IsSound :
    {P : Type 0} (p : P)
    → IsSound (record { jobs = (1, job) ∷ []; nodes = (9, free_node) ∷ []; plugins = p })
unfolding lookup
any_session-IsSound p = record {
  booked = λ k j e. let same : j ≡ job = ground arith in subst IsBooked (sym same) job-IsBooked;
  kept = λ k ni e.
      let same : ni ≡ free_node = ground arith in
      let key : k ≡ 9 = ground arith in
      subst (λ h. IsNodeOf h ni) (sym key) (subst (IsNodeOf 9) (sym same) free_node-IsNodeOf);
}

-- No plugin chooses or scores nodes.
abbrev plain : Session
plain = record (Sessions.ssn) { best_node_fns = []; node_map_fns = [] }

abbrev env : AllocateSession ℕ
env = record {
  session = λ plugins. plain;
  queues = (0, record { uid = 0; creation_timestamp = pos 0 }) ∷ [];
  opts = record {
    min_nodes_to_find = pos 100;
    percentage_of_nodes_to_find = pos 0;
    min_percentage_of_nodes_to_find = pos 5;
  };
  handlers = handlers;
  now = pos 50;
  node_list = 9 ∷ [];
  target_job = none;
  locked_nodes = [];
}

only_queue : (k : ℕ) (q : QueueInfo) → lookup k env.queues ≡ some q → q.uid ≡ k
unfolding lookup
only_queue k q e = ground arith

execute-IsServed_example :
    (n : ℕ) × ((fuel : ℕ)
      → n ≤ fuel
      → Ends
          (λ (st : AllocateState ℕ).
            IsSound (as_session st.cluster) × IsSound st.ssn × (length st.namespaces.items ≡ 0))
          (execute fuel env cluster ssn 0))
unfolding lookup
execute-IsServed_example =
    execute-IsServed env cluster ssn 0 (omega arith) only_queue (refl, tt) (any_session-IsSound tt)
      (any_session-IsSound 0)

abbrev placed : TaskInfo
placed = let t = task 1 in record t { context = record (t.context) { node_name = 9 } }

abbrev operations : List Operation
operations = record { name = allocate_op; task = placed } ∷ []

commit-AreSound_example :
    Returns
      (λ (r : Cluster × SessionState ℕ). IsSound (as_session r.0) × IsSound r.1)
      (commit (pos 50) cluster ssn operations)
commit-AreSound_example =
    commit-AreSound (pos 50) cluster ssn operations (any_session-IsSound tt) (any_session-IsSound 0)
      (task-IsRequest 1, tt)

predicate_nodes-IsFitting_example :
    Ends
      (λ (r : List NodeInfo × Dict ℕ × PredicateHelper).
        (pos (length r.0)
          ≤ℤ calculate_num_of_feasible_nodes_to_find env.opts (length (free_node ∷ free_node ∷ [])))
        × All (λ n. resource_predicate plain (task 1) n ≡ done none) r.0)
      (predicate_nodes env.opts
        (resource_predicate plain)
        (task 1)
        (free_node ∷ free_node ∷ [])
        (record { task_predicate_error_cache = []; last_processed_node_index = 0 }))
predicate_nodes-IsFitting_example =
    predicate_nodes-IsFitting (resource_predicate plain) (task 1)
      (resource_predicate-Ends plain (task 1)) env.opts (free_node ∷ free_node ∷ [])
      (record { task_predicate_error_cache = []; last_processed_node_index = 0 }) (omega arith)
