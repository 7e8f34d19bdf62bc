-- ===== src/Examples/Nodes.antt =====
-- Runs of AddTask and RemoveTask, and the theorems on nodes applied to them.
use k8s_simulator.Common.{
  Returns, true, ◌∷◌, ◌*ℤ◌, ◌≡◌, refl, none, some, [], pos, ◌+ℤ◌, ◌-ℤ◌, abs, lookup, insert, delete,
}
use k8s_simulator.Resource.Request.{new_resource, add_quantities, add_quantity}
use k8s_simulator.Node.{NodeObject}
use k8s_simulator.Node.Lifecycle.{
  reset_node, recharge, recharge_all, fill_node, allocatable_of, capability_of,
  set_oversubscription, set_node_gpu_info, set_revocable_zone,
}
use k8s_simulator.Node.Recount.{HasScalars, reset_node-IsAccounted}
use k8s_simulator.Examples.Data.{gpu}
use k8s_simulator.Resource.{
  get, value, clone, copy_map, add, add_scalars, add_scalar, set_scalar, sub_unchecked, sub_scalars,
}
use k8s_simulator.Resource.Order.{less_equal, less_equal_func, every_scalar, sub}
use k8s_simulator.Task.{
  running, TaskInfo, new_task_info, set_status, set_node_name, clone_task, get_task_status,
}
use k8s_simulator.Task.Gpu.{add_gpu_resource, sub_gpu_resource, gpu_resource_of_pod, sum_limits}
use k8s_simulator.Node.{
  NodeInfo, already_on_node, insufficient_idle, add_task, remove_task, charge, charge_node, store,
  finish_add, discharge, discharge_node, use_idle, use_releasing, allocate_idle_resource,
}
use k8s_simulator.Node.Accounting.{IsAccounted}
use k8s_simulator.Node.Charge.{charged, fits}
use k8s_simulator.Node.Admission.{added, admitted, add_task-IsAccounted}
use k8s_simulator.Node.Outcomes.{Outcome, add_task-Outcome}
use k8s_simulator.Node.Discharge.{removed, discharged, remove_task-IsAccounted}
use k8s_simulator.Node.Restore.{SameAmounts, remove_task-add_task}
use k8s_simulator.Examples.Data.{
  resource, resource-IsRequest, task, node_object, free_node, free_node-IsAccounted,
}

program : Unit {0}
unfolding get value clone copy_map add add_scalars add_scalar set_scalar sub_unchecked sub_scalars
    less_equal less_equal_func every_scalar sub abs new_task_info clone_task get_task_status
    add_gpu_resource sub_gpu_resource gpu_resource_of_pod sum_limits add_task remove_task charge
    charge_node store finish_add discharge discharge_node use_idle use_releasing
    allocate_idle_resource charged fits added admitted removed discharged lookup insert delete ◌+ℤ◌
    ◌-ℤ◌
program = tt

-- A running task of the free node, and what AddTask makes of the two.
abbrev started : TaskInfo
started = set_status (task 1) running

abbrev pub busy_node : NodeInfo
busy_node = added free_node started

abbrev pub placed : TaskInfo
placed = set_node_name started 9

place : add_task free_node started ≡ some ((busy_node, placed), none)
unfolding program
place = refl

busy_idle : (get busy_node.idle 0 ≡ pos 2000) × (get busy_node.idle 7 ≡ pos 1000)
unfolding program
busy_idle = (refl, refl)

place_again : add_task busy_node placed ≡ some ((busy_node, placed), some already_on_node)
unfolding program
place_again = refl

abbrev too_large : TaskInfo
too_large = record (set_status (task 2) running) { resreq = resource 5 5 1 }

place_too_large :
    add_task free_node too_large ≡ some ((free_node, too_large), some insufficient_idle)
unfolding program
place_too_large = refl

pub busy_node-IsAccounted : IsAccounted busy_node
unfolding new_task_info
busy_node-IsAccounted =
    add_task-IsAccounted free_node started node_object refl busy_node placed free_node-IsAccounted
      (resource-IsRequest 2 5 1) place

take_off : (ni : NodeInfo) × (remove_task busy_node placed ≡ some ni) × (get ni.idle 0 ≡ pos 4000)
unfolding program
take_off = (removed busy_node placed placed.pod, refl, refl)

add_task-IsAccounted_example : IsAccounted busy_node
unfolding new_task_info
add_task-IsAccounted_example =
    add_task-IsAccounted free_node started node_object refl busy_node placed free_node-IsAccounted
      (resource-IsRequest 2 5 1) place

add_task-Outcome_example : Returns (Outcome free_node started) (add_task free_node started)
unfolding new_task_info
add_task-Outcome_example =
    add_task-Outcome free_node started (resource-IsRequest 2 5 1) (resource-IsRequest 4 16 2)
      node_object refl

remove_task-IsAccounted_example :
    (ni : NodeInfo) × (remove_task busy_node placed ≡ some ni) × IsAccounted ni
unfolding program
remove_task-IsAccounted_example =
    remove_task-IsAccounted busy_node placed node_object refl busy_node-IsAccounted

remove_task-add_task_example :
    (after : NodeInfo) × (remove_task busy_node placed ≡ some after)
    × (after.tasks ≡ [])
    × SameAmounts after free_node
unfolding new_task_info
remove_task-add_task_example =
    remove_task-add_task free_node busy_node started placed node_object refl free_node-IsAccounted
      (resource-IsRequest 2 5 1) place

-- A node object with more of everything than the node had.
abbrev larger_object : NodeObject
larger_object = record node_object {
  allocatable_list =
      (0, record { milli_value = pos 8; whole_value = pos 8 })
      ∷ (1, record { milli_value = pos 32; whole_value = pos 32 })
      ∷ (gpu, record { milli_value = pos 4; whole_value = pos 4 })
      ∷ [];
}

abbrev grown : NodeInfo
grown = reset_node (λ n. true) busy_node larger_object

grown-HasScalars : HasScalars grown.allocatable
unfolding program reset_node recharge recharge_all fill_node allocatable_of capability_of
    set_oversubscription set_node_gpu_info set_revocable_zone new_resource add_quantities
    add_quantity ◌*ℤ◌
grown-HasScalars e = cc

reset_node-IsAccounted_example : IsAccounted (reset_node (λ n. true) busy_node larger_object)
reset_node-IsAccounted_example =
    reset_node-IsAccounted (λ n. true) busy_node larger_object busy_node-IsAccounted.distinct
      busy_node-IsAccounted.requests grown-HasScalars
