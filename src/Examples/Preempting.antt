-- ===== src/Examples/Preempting.antt =====
-- A preemption on concrete data: the task that was allocated is evicted, and the preemptor is pipelined.
use k8s_simulator.Common.{lookup, insert, delete}
use k8s_simulator.Common.{◌+ℤ◌, ◌-ℤ◌, abs}
use k8s_simulator.Resource.{value, copy_map, clone, add_scalars, add, sub_scalars, sub_unchecked}
use k8s_simulator.Resource.Order.{less_equal_func, every_scalar, less_equal, sub}
use k8s_simulator.Task.{get_task_status, allocated_status, clone_task, new_task_info}
use k8s_simulator.Job.{
  add_task_info, take_task, sub_allocated, delete_task_info, stamp, update_task_status, add_all,
  new_job_info,
}
use k8s_simulator.Node.{
  future_idle, allocate_idle_resource, use_releasing, use_idle, charge, charge_node, store,
  finish_add, add_task, discharge, discharge_node, remove_task, update_task,
}
use k8s_simulator.Session.{is_enabled, voters, all_voters}
use k8s_simulator.Session.Ballot.{first_error, predicate_fn}
use k8s_simulator.Session.Eviction.{evictable_tier, evictable, preemptable_tasks}
use k8s_simulator.Session.Scores.{
  batch_scores, batch_node_order_fn, all_plugins, node_order_map_fn, add_reduced, reduce_scores,
  node_order_reduce_fn,
}
use k8s_simulator.Queue.{
  new_priority_queue, swap, push_item, pop_item, up_loop, up, select_child, down_loop, down, push,
  heap_pop, empty, len, pop,
}
use k8s_simulator.Helper.{
  calculate_num_of_feasible_nodes_to_find, get_node_list, add_victims, validate_victims, min_from,
}
use k8s_simulator.Helper.Scoring.{
  add_to_group, group_nodes, prioritize_nodes, insert_group, sort_groups, join_groups, sort_nodes,
}
use k8s_simulator.Helper.Predicates.{
  known_error, check_node, check_nodes, group_errors, store_errors, predicate_nodes,
}
use k8s_simulator.Statement.{
  write_task, write_back, notify_allocate, notify_deallocate, place_task, allocate_v2,
  withdraw_task, unallocate_v2,
}
use k8s_simulator.Statement.Operations.{
  update_on_node, add_to_host, assign, set_status_in, change_on_node, evict_task, pipeline_task,
  evict, pipeline,
}
use k8s_simulator.Allocate.{sorted_by, job_now, task_now, is_target, nodes_for, fits_future}
use k8s_simulator.Allocate.Tasks.{session_of}
use k8s_simulator.Allocate.Rounds.{push_tasks}
use k8s_simulator.Preempt.{
  preemptees_of, of_other_job, victim_order, fits_node_now, evict_victims, replace_on, try_node,
  try_nodes, preempt,
}
use k8s_simulator.Common.{ℕ, Option, some, none, ◌≡◌, refl, Bool, true, List, [], ◌∷◌}
use k8s_simulator.Common.Runs.{Run, done, fault}
use k8s_simulator.Statement.Operations.{
  StatementState, Operation, OperationName, evict_op, pipeline_op,
}
use k8s_simulator.Helper.Predicates.{PredicateHelper}
use k8s_simulator.Examples.Preemptions.{env, stmt, preemptor, all_tasks, helper}

abbrev names_of : List Operation → List OperationName
names_of [] = []
names_of (op ∷ ops) = op.name ∷ names_of ops

abbrev recorded :
    Run (StatementState ℕ × Bool × PredicateHelper) → Option (List OperationName × Bool)
recorded (done (s, assigned, h)) = some (names_of s.operations, assigned)
recorded (fault e) = none

-- The allocated task goes, and the preemptor takes its place.
replaced :
    recorded (preempt env stmt preemptor all_tasks helper)
    ≡ some (evict_op ∷ pipeline_op ∷ [], true)
unfolding lookup insert delete ◌+ℤ◌ ◌-ℤ◌ abs value copy_map clone add_scalars add sub_scalars
    sub_unchecked less_equal_func every_scalar less_equal sub get_task_status allocated_status
    clone_task new_task_info add_task_info take_task sub_allocated delete_task_info stamp
    update_task_status add_all new_job_info future_idle allocate_idle_resource use_releasing
    use_idle charge charge_node store finish_add add_task discharge discharge_node remove_task
    update_task is_enabled voters all_voters first_error predicate_fn evictable_tier evictable
    preemptable_tasks batch_scores batch_node_order_fn all_plugins node_order_map_fn add_reduced
    reduce_scores node_order_reduce_fn new_priority_queue swap push_item pop_item up_loop up
    select_child down_loop down push heap_pop empty len pop calculate_num_of_feasible_nodes_to_find
    get_node_list add_victims validate_victims min_from add_to_group group_nodes prioritize_nodes
    insert_group sort_groups join_groups sort_nodes known_error check_node check_nodes group_errors
    store_errors predicate_nodes write_task write_back notify_allocate notify_deallocate place_task
    allocate_v2 withdraw_task unallocate_v2 update_on_node add_to_host assign set_status_in
    change_on_node evict_task pipeline_task evict pipeline sorted_by job_now task_now is_target
    nodes_for fits_future session_of push_tasks preemptees_of of_other_job victim_order
    fits_node_now evict_victims replace_on try_node try_nodes preempt
replaced = refl
