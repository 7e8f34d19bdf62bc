-- ===== src/Node/Lifecycle.antt =====
-- pkg/scheduler/api/node_info.go: making a node, replacing its node object, copying it.
use k8s_simulator.Common.{
  ℕ, zero, suc, Bool, true, false, not, ◌&&◌, Option, none, some, List, [], ◌∷◌, ◌==◌,
  if◌then◌else◌, ℤ, pos, Dict, insert,
}
use Prim.Native.Nat.{◌/◌}
use k8s_simulator.Resource.{Resource, zero_default, empty_resource, add, sub_unchecked}
use k8s_simulator.Resource.Order.{less_equal}
use k8s_simulator.Resource.Request.{new_resource}
use k8s_simulator.Task.{Status, releasing, pipelined, TaskInfo, empty_name}
use k8s_simulator.Task.Gpu.{GpuDevice, new_gpu_device, add_gpu_resource}
use k8s_simulator.Node.{
  NodeObject, ready, not_ready, no_reason, uninitialized, out_of_sync, node_not_ready, NodeInfo,
  add_task,
}

-- `strconv.ParseBool` of a label: an invalid value counts as false.
parsed_or_false : Option Bool → Bool
parsed_or_false none = false
parsed_or_false (some b) = b

flag_or : Bool → Option (Option Bool) → Bool
unfolding parsed_or_false
flag_or old none = old
flag_or old (some v) = parsed_or_false v

amount_or : ℤ → Option ℤ → ℤ
amount_or old none = old
amount_or old (some v) = v

-- setOversubscription resets the two flags, and reads the amounts only where they are given.
unfoldable pub set_oversubscription : NodeInfo → NodeObject → NodeInfo
unfolding flag_or amount_or
set_oversubscription ni node = record ni {
  oversubscription_node = flag_or false node.oversubscription_label;
  offline_job_evicting = flag_or false node.offline_job_evicting_annotation;
  oversubscription_resource = record (ni.oversubscription_resource) {
    milli_cpu = amount_or ni.oversubscription_resource.milli_cpu node.oversubscription_cpu;
    memory_bytes = amount_or ni.oversubscription_resource.memory_bytes node.oversubscription_memory;
  };
}

-- `cond.Type == v1.NodeReady && cond.Status != v1.ConditionTrue` for some condition
unfoldable pub reports_not_ready : List (Bool × Bool) → Bool
reports_not_ready [] = false
reports_not_ready ((is_ready_type, is_true) ∷ cs) =
    if is_ready_type && not is_true then true else reports_not_ready cs

unfoldable pub set_node_state : NodeInfo → Option NodeObject → NodeInfo
set_node_state ni none = record ni { phase = not_ready; reason = uninitialized }
set_node_state ni (some node) =
    if not (less_equal ni.used ni.allocatable zero_default)
    then record ni { phase = not_ready; reason = out_of_sync }
    else if reports_not_ready node.conditions
    then record ni { phase = not_ready; reason = node_not_ready }
    else record ni { phase = ready; reason = no_reason }

-- The cards 0, 1, … of a node: `gpuNumber` of them, each with an equal share of the memory.
unfoldable pub set_gpu_cards : ℕ → ℕ → ℕ → Dict GpuDevice → Dict GpuDevice
set_gpu_cards zero i memory_per_card devices = devices
set_gpu_cards (suc left) i memory_per_card devices =
    set_gpu_cards left (suc i) memory_per_card (insert i (new_gpu_device i memory_per_card) devices)

set_gpu_from : Option ℕ → Option ℕ → Dict GpuDevice → Dict GpuDevice
set_gpu_from (some total) (some number) devices =
    if number == 0 then devices else set_gpu_cards number 0 (total / number) devices
set_gpu_from _ _ devices = devices

unfoldable pub set_node_gpu_info : NodeInfo → NodeObject → NodeInfo
unfolding set_gpu_from
set_node_gpu_info ni node = record ni {
  gpu_devices = set_gpu_from node.gpu_memory node.gpu_number ni.gpu_devices;
}

unfoldable pub set_revocable_zone : NodeInfo → NodeObject → NodeInfo
set_revocable_zone ni node = record ni {
  revocable_zone = elim node.revocable_zone_label [ none ↦ empty_name | some z ↦ z ];
}

abbrev pub blank_node : NodeInfo
blank_node = record {
  name = empty_name;
  node = none;
  phase = not_ready;
  reason = no_reason;
  releasing_res = empty_resource;
  pipelined_res = empty_resource;
  idle = empty_resource;
  used = empty_resource;
  allocatable = empty_resource;
  capability = empty_resource;
  tasks = [];
  revocable_zone = empty_name;
  gpu_devices = [];
  oversubscription_node = false;
  offline_job_evicting = false;
  oversubscription_resource = empty_resource;
  ctn_creation_time = pos 0;
  ctn_creation_extra_time = pos 0;
  ctn_creation_time_interval = 0;
}

-- The loop of setNode: a task takes its resources with no check.
unfoldable pub recharge : NodeInfo → TaskInfo → Status → NodeInfo
recharge ni ti releasing = record ni {
  idle = sub_unchecked ni.idle ti.resreq;
  releasing_res = add ni.releasing_res ti.resreq;
  used = add ni.used ti.resreq;
  gpu_devices = add_gpu_resource ni.gpu_devices ti.pod;
}
recharge ni ti pipelined = record ni { pipelined_res = add ni.pipelined_res ti.resreq }
recharge ni ti _ = record ni {
  idle = sub_unchecked ni.idle ti.resreq;
  used = add ni.used ti.resreq;
  gpu_devices = add_gpu_resource ni.gpu_devices ti.pod;
}

unfoldable pub recharge_all : NodeInfo → Dict TaskInfo → NodeInfo
recharge_all ni [] = ni
recharge_all ni ((k, ti) ∷ d) = recharge_all (recharge ni ti ti.status) d

module _ (is_scalar_resource_name : ℕ → Bool) where
  unfoldable pub allocatable_of : NodeInfo → NodeObject → Resource
  allocatable_of ni node =
      add (new_resource is_scalar_resource_name node.allocatable_list) ni.oversubscription_resource

  unfoldable pub capability_of : NodeInfo → NodeObject → Resource
  capability_of ni node =
      add (new_resource is_scalar_resource_name node.capacity_list) ni.oversubscription_resource

  unfoldable pub fill_node : NodeInfo → NodeObject → NodeInfo
  unfolding allocatable_of capability_of
  fill_node ni node = record ni {
    name = node.name;
    node = some node;
    idle = allocatable_of ni node;
    allocatable = allocatable_of ni node;
    capability = capability_of ni node;
  }

  unfoldable pub new_node_info : Option NodeObject → NodeInfo
  unfolding fill_node
  new_node_info none = set_node_state blank_node none
  new_node_info (some node) =
      let filled = fill_node (set_oversubscription blank_node node) node in
      set_revocable_zone (set_node_state (set_node_gpu_info filled node) (some node)) node

  -- `setNode`: the resources are counted anew from the node object and the tasks.
  unfoldable pub reset_node : NodeInfo → NodeObject → NodeInfo
  unfolding fill_node
  reset_node ni node =
      let ni' = set_revocable_zone (set_node_gpu_info (set_oversubscription ni node) node) node in
      let filled = record (fill_node ni' node) {
        releasing_res = empty_resource;
        pipelined_res = empty_resource;
        used = empty_resource;
      } in
      recharge_all filled filled.tasks

  -- AddTask in the loop of Clone, whose error is dropped: the copy, and the tasks of the original, to which
  -- AddTask writes the node's name.
  clone_tasks : NodeInfo → Dict TaskInfo → Option (NodeInfo × Dict TaskInfo)
  clone_tasks res [] = some (res, [])
  clone_tasks res ((k, p) ∷ d) = elim (add_task res p) [
    | none ↦ none
    | some ((res', p'), e) ↦ elim (clone_tasks res' d) [
      | none ↦ none
      | some (copied, rest) ↦ some (copied, (k, p') ∷ rest)
    ]
  ]

  -- Clone: the copy, and the node itself with its tasks as AddTask leaves them. The copy has none of the
  -- fields that the simulator added to NodeInfo.
  unfoldable pub clone_node : NodeInfo → Option (NodeInfo × NodeInfo)
  unfolding clone_tasks
  clone_node ni = elim (clone_tasks (new_node_info ni.node) ni.tasks) [
    | none ↦ none
    | some (copied, tasks) ↦ some (copied, record ni { tasks = tasks })
  ]

  -- SetNode: a dry run on a copy decides whether the node object is taken.
  unfoldable pub set_node : NodeInfo → NodeObject → Option NodeInfo
  set_node ni node =
      let ni' = set_node_state ni (some node) in
      elim ni'.phase [
        | not_ready ↦ some ni'
        | ready ↦ elim (clone_node ni') [
          | none ↦ none
          | some (copied, named) ↦
              let dry = set_node_state (reset_node copied node) (some node) in
              elim dry.phase [
                | not_ready ↦ some (record named { phase = dry.phase; reason = dry.reason })
                | ready ↦ some (reset_node named node)
              ]
        ]
      ]
