-- ===== src/Node.antt =====
-- pkg/scheduler/api/node_info.go: the tasks on a node and the resources that they hold.
-- A failed assertion (a panic) is `none`; an error is returned beside the state that it leaves.
-- The node has no NUMA information (NumaInfo is nil).
pub mod Outcomes
pub mod Lifecycle
pub mod Accounting
pub mod Charge
pub mod Discharge
pub mod Admission
pub mod Restore
pub mod Recount
use k8s_simulator.Common.{
  ℕ, zero, suc, ◌+◌, ◌-◌, ◌*◌, ◌≤◌, ◌<◌, ◌≡◌, refl, sym, ap, ◌∙◌, subst, ◌≢◌, ◌↔◌, ◌⊎◌, inl, inr,
  Bool, true, false, not, ◌&&◌, ◌||◌, Option, none, some, List, [], ◌∷◌, ◌++◌, map, arith, ltb, leb,
  ◌==◌, if◌then◌else◌, ==_refl, ==_ne, ==_iff, Bool-cases, Option-cases, length, count_if, All,
  length-append, ℤ, pos, negsuc, pos_part, neg_part, ◌+ℤ◌, ◌-ℤ◌, ◌*ℤ◌, ◌≤ℤ◌, ◌<ℤ◌, ltb_ℤ, eqb_ℤ,
  abs, min_ℤ, max_ℤ, +ℤ_parts, -ℤ_parts, eq_of_parts, int_laws, +ℤ-zero, -ℤ-zero, +ℤ_comm, +ℤ_assoc,
  +ℤ_cancel, ltb_ℤ_iff, eqb_ℤ_iff, Dict, lookup, insert, delete, Distinct, lookup-insert,
  lookup-delete, insert-Distinct, delete-Distinct, lookup-cons_old, lookup-cons_self,
}
use k8s_simulator.Resource.{Resource, zero_default, add, sub_unchecked, clone}
use k8s_simulator.Resource.Order.{less_equal, sub}
use k8s_simulator.Resource.Request.{ResourceList}
use k8s_simulator.Task.{
  Status, releasing, pipelined, Pod, TaskInfo, empty_name, clone_task, set_node_name,
}
use k8s_simulator.Task.Gpu.{GpuDevice, add_gpu_resource, sub_gpu_resource}

-- What the code reads of a v1.Node. A label or annotation that is missing is `none`; one that
-- strconv does not accept is `some none`.
pub record NodeObject : Type 0 where
  pub name : ℕ
  pub allocatable_list : ResourceList
  pub capacity_list : ResourceList
  pub gpu_memory : Option ℕ
  pub gpu_number : Option ℕ
  -- For each condition: is it of the type NodeReady, and is its status ConditionTrue?
  pub conditions : List (Bool × Bool)
  pub oversubscription_label : Option (Option Bool)
  pub offline_job_evicting_annotation : Option (Option Bool)
  pub oversubscription_cpu : Option ℤ
  pub oversubscription_memory : Option ℤ
  pub revocable_zone_label : Option ℕ

-- NodePhase, and the reasons that setNodeState gives.
pub data NodePhase : Type 0 where
  ready not_ready : NodePhase

pub data Reason : Type 0 where
  no_reason uninitialized out_of_sync node_not_ready : Reason

pub record NodeInfo : Type 0 where
  pub name : ℕ
  pub node : Option NodeObject
  pub phase : NodePhase
  pub reason : Reason
  pub releasing_res : Resource
  pub pipelined_res : Resource
  pub idle : Resource
  pub used : Resource
  pub allocatable : Resource
  pub capability : Resource
  pub tasks : Dict TaskInfo
  pub revocable_zone : ℕ
  pub gpu_devices : Dict GpuDevice
  pub oversubscription_node : Bool
  pub offline_job_evicting : Bool
  pub oversubscription_resource : Resource
  pub ctn_creation_time : ℤ
  pub ctn_creation_extra_time : ℤ
  pub ctn_creation_time_interval : ℕ

pub data Error : Type 0 where
  different_node already_on_node insufficient_idle : Error

-- The state after a call and its error, unless it panics.
abbrev pub Result : Type 0 → Type 0
Result S = Option (S × Option Error)

-- FutureIdle
unfoldable pub future_idle : NodeInfo → Option Resource
future_idle ni = sub (add (clone ni.idle) ni.releasing_res) ni.pipelined_res

unfoldable pub allocate_idle_resource : NodeInfo → TaskInfo → Result NodeInfo
allocate_idle_resource ni ti =
    if less_equal ti.resreq ni.idle zero_default
    then elim (sub ni.idle ti.resreq) [
      | none ↦ none
      | some idle ↦ some (record ni { idle = idle }, none)
    ]
    else some (ni, some insufficient_idle)

-- `if err := …; err != nil { return err }` before the rest of the statements.
abbrev pub unless_error {ℓ} :
    {S : Type ℓ} → Option (S × Option Error) → (S → S) → Option (S × Option Error)
unless_error none f = none
unless_error (some (s, some e)) f = some (s, some e)
unless_error (some (s, none)) f = some (f s, none)

unfoldable pub use_releasing : TaskInfo → NodeInfo → NodeInfo
use_releasing ti ni = record ni {
  releasing_res = add ni.releasing_res ti.resreq;
  used = add ni.used ti.resreq;
  gpu_devices = add_gpu_resource ni.gpu_devices ti.pod;
}

unfoldable pub use_idle : TaskInfo → NodeInfo → NodeInfo
use_idle ti ni = record ni {
  used = add ni.used ti.resreq;
  gpu_devices = add_gpu_resource ni.gpu_devices ti.pod;
}

unfoldable pub use_pipelined : TaskInfo → NodeInfo → NodeInfo
use_pipelined ti ni = record ni { pipelined_res = add ni.pipelined_res ti.resreq }

-- The switch of AddTask on the status of the copy.
unfoldable pub charge : NodeInfo → TaskInfo → Status → Result NodeInfo
charge ni ti releasing = unless_error (allocate_idle_resource ni ti) (use_releasing ti)
charge ni ti pipelined = some (use_pipelined ti ni, none)
charge ni ti _ = unless_error (allocate_idle_resource ni ti) (use_idle ti)

-- Nothing is charged to a node that has no node object yet.
unfoldable pub charge_node : NodeInfo → TaskInfo → Option NodeObject → Result NodeInfo
charge_node ni ti none = some (ni, none)
charge_node ni ti (some v) = charge ni ti ti.status

-- The copy is stored under the pod's key, and both the task and the copy get the node's name.
unfoldable pub store : TaskInfo → NodeInfo → NodeInfo
store ti ni = record ni { tasks = insert ti.pod.key (set_node_name ti ni.name) ni.tasks }

-- Is the task bound to another node?
abbrev pub on_other_node : NodeInfo → TaskInfo → Bool
on_other_node ni task =
    not (task.node_name == empty_name)
    && (not (ni.name == empty_name) && not (task.node_name == ni.name))

-- The rest of AddTask after the switch.
unfoldable pub finish_add : TaskInfo → Result NodeInfo → Result (NodeInfo × TaskInfo)
finish_add task none = none
finish_add task (some (ni, some e)) = some ((ni, task), some e)
finish_add task (some (ni, none)) =
    some ((store (clone_task task) ni, set_node_name task ni.name), none)

-- The call returns the node and the task, which it changes too.
unfoldable pub add_task : NodeInfo → TaskInfo → Result (NodeInfo × TaskInfo)
add_task ni task =
    if on_other_node ni task
    then some ((ni, task), some different_node)
    else elim (lookup task.pod.key ni.tasks) [
      | some _ ↦ some ((ni, task), some already_on_node)
      | none ↦ finish_add task (charge_node ni (clone_task task) ni.node)
    ]

-- The switch of RemoveTask on the status of the stored task. `pod` is that of the argument.
unfoldable pub discharge : NodeInfo → TaskInfo → Pod → Status → Option NodeInfo
discharge ni task pod releasing = elim (sub ni.releasing_res task.resreq) [
  | none ↦ none
  | some rel ↦ elim (sub ni.used task.resreq) [
    | none ↦ none
    | some used ↦ some (record ni {
      releasing_res = rel;
      idle = add ni.idle task.resreq;
      used = used;
      gpu_devices = sub_gpu_resource ni.gpu_devices pod;
    })
  ]
]
discharge ni task pod pipelined = elim (sub ni.pipelined_res task.resreq) [
  | none ↦ none
  | some p ↦ some (record ni { pipelined_res = p })
]
discharge ni task pod _ = elim (sub ni.used task.resreq) [
  | none ↦ none
  | some used ↦ some (record ni {
    idle = add ni.idle task.resreq;
    used = used;
    gpu_devices = sub_gpu_resource ni.gpu_devices pod;
  })
]

unfoldable pub discharge_node : NodeInfo → TaskInfo → Pod → Option NodeObject → Option NodeInfo
discharge_node ni task pod none = some ni
discharge_node ni task pod (some v) = discharge ni task pod task.status

-- RemoveTask; its error is always nil, and a task that is not there is no error.
unfoldable pub remove_task : NodeInfo → TaskInfo → Option NodeInfo
remove_task ni ti = elim (lookup ti.pod.key ni.tasks) [
  | none ↦ some ni
  | some task ↦ elim (discharge_node ni task ti.pod ni.node) [
    | none ↦ none
    | some ni' ↦ some (record ni' { tasks = delete ti.pod.key ni'.tasks })
  ]
]

-- UpdateTask. An error of AddTask is logged by klog.Fatalf, which ends the process: `none`.
unfoldable pub update_task : NodeInfo → TaskInfo → Option (NodeInfo × TaskInfo)
update_task ni ti = elim (remove_task ni ti) [
  | none ↦ none
  | some ni' ↦ elim (add_task ni' ti) [
    | none ↦ none
    | some (r, none) ↦ some r
    | some (r, some e) ↦ none
  ]
]
