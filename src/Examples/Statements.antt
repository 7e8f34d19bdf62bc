-- ===== src/Examples/Statements.antt =====
-- An allocation that is taken back, and the theorem on it.
use k8s_simulator.Common.{
  ℕ, suc, ◌-◌, ◌≡◌, refl, Option, none, some, List, [], ◌∷◌, pos, ◌+ℤ◌, ◌-ℤ◌, abs, lookup, insert,
  delete,
}
use k8s_simulator.Resource.{
  get, value, clone, copy_map, add, add_scalars, sub_unchecked, sub_scalars,
}
use k8s_simulator.Resource.Order.{less_equal, less_equal_func, every_scalar, sub}
use k8s_simulator.Task.{
  TaskInfo, new_task_info, get_task_status, clone_task, allocated_status, status_code,
}
use k8s_simulator.Task.Gpu.{add_gpu_resource, sub_gpu_resource, gpu_resource_of_pod, sum_limits}
use k8s_simulator.Job.{
  bucket, add_task_index, delete_task_index, put_or_drop, add_task_info, take_task, sub_allocated,
  delete_task_info, stamp, update_task_status, add_all, new_job_info,
}
use k8s_simulator.Node.{
  NodeInfo, add_task, remove_task, charge, charge_node, store, finish_add, use_idle,
  allocate_idle_resource,
}
use k8s_simulator.Node.Restore.{SameAmounts}
use k8s_simulator.Statement.{
  EventHandler, SessionState, Failure, write_task, place_task, allocate_v2, unallocate_v2,
  notify_allocate,
}
use k8s_simulator.Statement.Withdrawal.{IsWithdrawn}
use k8s_simulator.Statement.Undo.{unallocate_v2-allocate_v2}
use k8s_simulator.Examples.Data.{
  resource-IsRequest, task, node_object, free_node, free_node-IsAccounted,
}
use k8s_simulator.Examples.Jobs.{pair_job, pair_job-IsBooked}

program : Unit {0}
unfolding get value clone copy_map add add_scalars sub_unchecked sub_scalars less_equal
    less_equal_func every_scalar sub abs new_task_info get_task_status clone_task allocated_status
    status_code add_gpu_resource sub_gpu_resource gpu_resource_of_pod sum_limits bucket
    add_task_index delete_task_index put_or_drop add_task_info take_task sub_allocated
    delete_task_info stamp update_task_status add_all new_job_info add_task remove_task charge
    charge_node store finish_add use_idle allocate_idle_resource write_task place_task allocate_v2
    notify_allocate lookup insert delete ◌+ℤ◌ ◌-ℤ◌
program = tt

-- A plugin that counts the allocations.
abbrev counter : EventHandler ℕ
counter = record { allocate_func = some (λ n t. suc n); deallocate_func = some (λ n t. n - 1) }

abbrev pub handlers : List (EventHandler ℕ)
handlers = counter ∷ []

abbrev pub ssn : SessionState ℕ
ssn = record { jobs = (1, pair_job) ∷ []; nodes = (9, free_node) ∷ []; plugins = 0 }

abbrev pub outcome : Option ((SessionState ℕ × TaskInfo) × Option Failure)
outcome = allocate_v2 handlers (pos 50) ssn (task 1) 9

abbrev pub result_of :
    Option ((SessionState ℕ × TaskInfo) × Option Failure) → SessionState ℕ × TaskInfo
result_of none = (ssn, task 1)
result_of (some (r, e)) = r

pub allocated_once : outcome ≡ some (((result_of outcome).0, (result_of outcome).1), none)
unfolding program
allocated_once = refl

counted : (result_of outcome).0.plugins ≡ 1
unfolding program
counted = refl

unallocate_v2-allocate_v2_example :
    (final : SessionState ℕ) × (cleared : TaskInfo) × (after : NodeInfo) × (unallocate_v2 handlers
        (pos 50)
        (result_of outcome).0
        (result_of outcome).1
      ≡ some (final, cleared))
    × IsWithdrawn final cleared 1 1 9 after
    × (after.tasks ≡ [])
    × SameAmounts after free_node
unfolding new_task_info lookup
unallocate_v2-allocate_v2_example =
    unallocate_v2-allocate_v2 handlers (pos 50) ssn (result_of outcome).0 (task 1)
      (result_of outcome).1 9 pair_job free_node node_object refl pair_job-IsBooked refl refl refl
      free_node-IsAccounted (resource-IsRequest 2 5 1) allocated_once
