-- ===== src/Examples/Sessions.antt =====
-- A session with two tiers of plugins, and the theorems on sessions applied to it.
use k8s_simulator.Common.{
  ℕ, ◌≡◌, refl, true, false, not, none, some, List, [], ◌∷◌, map, arith, All, pos, negsuc, lookup,
  insert, ◌+ℤ◌,
}
use k8s_simulator.Task.{TaskInfo, new_task_info}
use k8s_simulator.Node.Lifecycle.{blank_node}
use k8s_simulator.Job.{blank_job}
use k8s_simulator.Session.{PluginOption, Session, is_enabled, voters, all_voters}
use k8s_simulator.Session.Eviction.{
  preemptable_tasks, reclaimable_tasks, evictable, evictable_tier, intersection, keep_matches,
}
use k8s_simulator.Session.Ballot.{job_pipelined, vote, vote_tier}
use k8s_simulator.Session.Scores.{
  sum_scores, node_order_fn, add_score, add_scores, batch_scores, batch_node_order_fn, map_score,
  map_scores, node_order_map_fn, first_node, best_node_fn, all_plugins,
}
use k8s_simulator.Priority.Order.{job_order_fn-IsComparison}
use k8s_simulator.Session.Order.{job_order_fn}
use k8s_simulator.Session.Victims.{agrees, some_pass, preemptable_tasks-agreed}
use k8s_simulator.Session.Verdicts.{first_verdict, job_pipelined-eq}
use k8s_simulator.Session.Precedence.{IsOpposite, job_order_fn-not}
use k8s_simulator.Examples.Data.{task}

abbrev plugin : ℕ → PluginOption
plugin name = record {
  name = name;
  enabled_job_order = some true;
  enabled_namespace_order = some true;
  enabled_job_ready = some true;
  enabled_job_pipelined = some true;
  enabled_task_order = some true;
  enabled_preemptable = some true;
  enabled_reclaimable = some true;
  enabled_queue_order = some true;
  enabled_predicate = some true;
  enabled_job_starving = some true;
  enabled_job_enqueued = none;
  enabled_target_job = none;
  enabled_victim = none;
  enabled_best_node = some true;
  enabled_node_order = some true;
}

-- Plugin 1 abstains, plugin 2 lists all tasks, plugin 3 all but the first.
abbrev drop_first : List TaskInfo → List TaskInfo
drop_first [] = []
drop_first (t ∷ ts) = ts

abbrev pub ssn : Session
ssn = record {
  tiers = (plugin 1 ∷ []) ∷ (plugin 2 ∷ plugin 3 ∷ []) ∷ [];
  job_order_fns = (2, k8s_simulator.Priority.job_order_fn) ∷ [];
  queue_order_fns = [];
  namespace_order_fns = [];
  task_order_fns = [];
  predicate_fns = [];
  preemptable_fns =
      (1, λ t ts. ([], pos 0))
      ∷ (2, λ t ts. (ts, pos 1))
      ∷ (3, λ t ts. (drop_first ts, pos 1))
      ∷ [];
  reclaimable_fns = (2, λ t ts. (ts, pos 1)) ∷ [];
  overused_fns = [];
  allocatable_fns = [];
  job_ready_fns = [];
  job_pipelined_fns = (1, λ j. pos 0) ∷ (2, λ j. pos 1) ∷ (3, λ j. negsuc 0) ∷ [];
  job_valid_fns = [];
  job_enqueueable_fns = [];
  job_starving_fns = [];
  target_job_fns = [];
  victim_tasks_fns = [];
  best_node_fns = (1, λ t s. none) ∷ (2, λ t s. some blank_node) ∷ [];
  node_order_fns = (1, λ t n. (pos 5, none)) ∷ (2, λ t n. (pos 7, none)) ∷ [];
  batch_node_order_fns =
      (1, λ t ns. ((4, pos 5) ∷ [], none)) ∷ (2, λ t ns. ((3, pos 1) ∷ (4, pos 2) ∷ [], none)) ∷ [];
  node_map_fns = (2, λ t n. (pos 9, some 6)) ∷ [];
  node_reduce_fns = [];
}

program : Unit {0}
unfolding is_enabled voters all_voters preemptable_tasks reclaimable_tasks evictable evictable_tier
    intersection keep_matches job_pipelined vote vote_tier lookup new_task_info
program = tt

victims : preemptable_tasks ssn (task 9) (task 1 ∷ task 2 ∷ []) ≡ task 2 ∷ []
unfolding program
victims = refl

rejected : job_pipelined ssn (blank_job 1) ≡ false
unfolding program
rejected = refl

preemptable_tasks-agreed_example :
    some_pass
      (agrees (λ p. p.enabled_preemptable) ssn.preemptable_fns (task 9) (task 1 ∷ task 2 ∷ []) 2)
      ssn.tiers
    ≡ true
unfolding program
preemptable_tasks-agreed_example =
    preemptable_tasks-agreed ssn (task 9) (task 1 ∷ task 2 ∷ []) 2 refl

job_pipelined-eq_example :
    job_pipelined ssn (blank_job 1)
    ≡ first_verdict
        (map (voters (λ p. p.enabled_job_pipelined) ssn.job_pipelined_fns) ssn.tiers)
        (blank_job 1)
job_pipelined-eq_example = job_pipelined-eq ssn (blank_job 1)

priority-IsOpposite :
    All
      (IsOpposite (blank_job 1) (blank_job 2))
      (all_voters (λ p. p.enabled_job_order) ssn.job_order_fns ssn.tiers)
unfolding program
priority-IsOpposite = (job_order_fn-IsComparison.opposite (blank_job 1) (blank_job 2), tt)

job_order_fn-not_example :
    job_order_fn ssn (blank_job 2) (blank_job 1)
    ≡ not (job_order_fn ssn (blank_job 1) (blank_job 2))
job_order_fn-not_example =
    job_order_fn-not ssn (blank_job 1) (blank_job 2) (ground arith) priority-IsOpposite

scored :
    (node_order_fn ssn (task 1) blank_node ≡ (pos 12, none))
    × (batch_node_order_fn ssn (task 1) [] ≡ (some ((4, pos 7) ∷ (3, pos 1) ∷ []), none))
    × (node_order_map_fn ssn (task 1) blank_node ≡ ([], pos 12, some 6))
    × (best_node_fn ssn (task 1) [] ≡ some blank_node)
unfolding is_enabled voters all_voters lookup insert ◌+ℤ◌ sum_scores node_order_fn add_score
    add_scores batch_scores batch_node_order_fn map_score map_scores all_plugins node_order_map_fn
    first_node best_node_fn
scored = (refl, refl, refl, refl)
