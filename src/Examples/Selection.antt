-- ===== src/Examples/Selection.antt =====
-- The enqueue action on two jobs, the order of jobs, and the choice of a node.
use k8s_simulator.Common.{
  ℕ, suc, ◌+◌, ◌≡◌, refl, ◌⊎◌, none, some, List, [], ◌∷◌, arith, length, All, ℤ, pos, ◌-ℤ◌, ◌*ℤ◌,
  ◌≤ℤ◌, Dict, lookup, insert, ◌+ℤ◌, Returns,
}
use k8s_simulator.Node.{NodeInfo}
use k8s_simulator.Job.{JobInfo, PodGroup, blank_job, group_pending, group_running}
use k8s_simulator.Session.{is_enabled, voters, all_voters}
use k8s_simulator.Session.Ranking.{IsComparison, job_order_fn-IsOrder}
use k8s_simulator.Priority.Order.{job_order_fn-IsComparison}
use k8s_simulator.Session.Order.{job_order_fn}
use k8s_simulator.Queue.Order.{IsOrder}
use k8s_simulator.Enqueue.{EnqueueSession, EnqueueState, execute}
use k8s_simulator.Enqueue.Phases.{Outcome, HaveGroups}
use k8s_simulator.Enqueue.Admission.{execute-Outcome}
use k8s_simulator.Helper.{
  ServerOption, calculate_num_of_feasible_nodes_to_find, select_best_node, get_min_int,
}
use k8s_simulator.Helper.Bounds.{calculate_num-bounds}
use k8s_simulator.Helper.Best.{IsBestNode, select_best_node-IsBestNode}
use k8s_simulator.Helper.Scoring.{
  BatchNodeOrderFn, NodeOrderMapFn, NodeOrderReduceFn, score_nodes, score_node, append_scores,
  score_in, group_nodes, add_to_group, prioritize_nodes, insert_group, sort_groups, join_groups,
  sort_nodes,
}
use k8s_simulator.Helper.Ranking.{IsRanked, total_score, sort_nodes-prioritize_nodes}
use k8s_simulator.Node.Lifecycle.{blank_node}
use mathlib.Core.List.{Perm}
use k8s_simulator.Examples.Data.{free_node, task}
use k8s_simulator.Examples.Sessions.{ssn}

abbrev group : PodGroup
group = record {
  namespace = 0;
  phase = group_pending;
  queue = 4;
  min_member = pos 1;
  min_task_member = [];
  min_resources = none;
  creation_timestamp = pos 0;
}

abbrev new_job : JobInfo
new_job = record (blank_job 1) { queue = 4; pod_group = some group }

abbrev old_job : JobInfo
old_job = record (blank_job 2) {
  queue = 4;
  pod_group = some (record group { phase = group_running });
}

abbrev jobs : Dict JobInfo
jobs = (1, new_job) ∷ (2, old_job) ∷ []

-- A plugin that counts the jobs that are enqueued.
abbrev enqueue_ssn : EnqueueSession ℕ
enqueue_ssn = record {
  session = ssn;
  queues = (4, record { uid = 4; creation_timestamp = pos 0 }) ∷ [];
  job_enqueueable_fns = λ n. [];
  job_enqueued_fns = (2, λ j n. suc n) ∷ [];
}

jobs-uid : (k : ℕ) (j : JobInfo) → lookup k jobs ≡ some j → j.uid ≡ k
unfolding lookup
jobs-uid k j e = ground arith

jobs-HaveGroups : HaveGroups jobs
unfolding lookup
jobs-HaveGroups k j e = ground arith

-- A clock that the loop reads a second later for each job.
abbrev clock : ℕ → ℤ
clock uid = pos (7 + uid)

execute-Outcome_example :
    Returns
      (λ (st : EnqueueState ℕ).
        ((k : ℕ) (j : JobInfo) → lookup k jobs ≡ some j → ∥ Outcome st.jobs clock k j ∥₁)
        × (length st.queues.items ≡ 0))
      (execute enqueue_ssn clock jobs 0)
unfolding lookup
execute-Outcome_example =
    execute-Outcome enqueue_ssn clock jobs 0 (refl, (refl, tt)) jobs-uid jobs-HaveGroups

priority-IsComparison :
    All IsComparison (all_voters (λ p. p.enabled_job_order) ssn.job_order_fns ssn.tiers)
unfolding is_enabled voters all_voters lookup
priority-IsComparison = (job_order_fn-IsComparison, tt)

job_order_fn-IsOrder_example : IsOrder (job_order_fn ssn)
job_order_fn-IsOrder_example = job_order_fn-IsOrder ssn priority-IsComparison

abbrev opts : ServerOption
opts = record {
  min_nodes_to_find = pos 100;
  percentage_of_nodes_to_find = pos 0;
  min_percentage_of_nodes_to_find = pos 5;
}

feasible : calculate_num_of_feasible_nodes_to_find opts 1000 ≡ pos 420
unfolding calculate_num_of_feasible_nodes_to_find k8s_simulator.Helper.adaptive_percentage
    k8s_simulator.Helper.div_ℤ k8s_simulator.Helper.int32 k8s_simulator.Helper.of_bits ◌*ℤ◌ ◌-ℤ◌
feasible = refl

calculate_num-bounds_example :
    (calculate_num_of_feasible_nodes_to_find opts 1000 ≤ℤ pos 1000)
    × ((calculate_num_of_feasible_nodes_to_find opts 1000 ≡ pos 1000)
        ⊎ (pos 100 ≤ℤ calculate_num_of_feasible_nodes_to_find opts 1000))
calculate_num-bounds_example =
    calculate_num-bounds opts 1000 (omega arith) (omega arith) (omega arith)

abbrev scores : List (ℤ × List NodeInfo)
scores = (pos 3000, free_node ∷ []) ∷ []

select_best_node-IsBestNode_example :
    (node : NodeInfo) × (select_best_node scores ≡ some node) × IsBestNode scores node
select_best_node-IsBestNode_example =
    select_best_node-IsBestNode (pos 3000, free_node ∷ []) [] (omega arith, tt) (refl, tt)

-- Two nodes, of which the second has the higher score.
abbrev by_name : NodeOrderMapFn
by_name t n = ([], pos n.name, none)

abbrev no_batch : BatchNodeOrderFn
no_batch t ns = (none, none)

abbrev no_reduce : NodeOrderReduceFn
no_reduce t m = ([], none)

abbrev two_nodes : List NodeInfo
two_nodes = record blank_node { name = 3 } ∷ free_node ∷ []

ranked :
    sort_nodes (prioritize_nodes no_batch by_name no_reduce (task 1) two_nodes)
    ≡ free_node ∷ record blank_node { name = 3 } ∷ []
unfolding sort_nodes prioritize_nodes score_nodes score_node append_scores score_in group_nodes
    add_to_group insert_group sort_groups join_groups lookup insert ◌+ℤ◌
ranked = refl

sort_nodes-prioritize_nodes_example :
    Perm (sort_nodes (prioritize_nodes no_batch by_name no_reduce (task 1) two_nodes)) two_nodes
    × IsRanked
        (total_score no_batch by_name no_reduce (task 1) two_nodes)
        (sort_nodes (prioritize_nodes no_batch by_name no_reduce (task 1) two_nodes))
sort_nodes-prioritize_nodes_example =
    sort_nodes-prioritize_nodes no_batch by_name no_reduce (task 1) two_nodes (λ m. refl) refl
