-- ===== src/Examples/Data.antt =====
-- A node, a pod and the tasks that the runs are on.
use k8s_simulator.Common.{
  ℕ, ◌*◌, refl, true, false, none, some, [], ◌∷◌, arith, ◌==◌, if◌then◌else◌, pos, +ℤ-zero, lookup,
}
use k8s_simulator.Resource.{Resource, cpu, memory, get, value}
use k8s_simulator.Resource.Exact.{IsRequest}
use k8s_simulator.Resource.Amounts.{get-empty_resource}
use k8s_simulator.Task.{Pod, TaskInfo, pod_pending, new_task_info}
use k8s_simulator.Task.Totals.{total}
use k8s_simulator.Node.{NodeObject, NodeInfo}
use k8s_simulator.Node.Lifecycle.{blank_node}
use k8s_simulator.Node.Accounting.{IsAccounted}

-- The name of a scalar resource.
abbrev pub gpu : ℕ
gpu = 7

abbrev pub resource : ℕ → ℕ → ℕ → Resource
resource c m g = record {
  milli_cpu = pos (1000 * c);
  memory_bytes = pos (1000 * m);
  scalars = some ((gpu, pos (1000 * g)) ∷ []);
  max_task_num = pos 0;
}

pub resource-IsRequest : (c m g : ℕ) → IsRequest (resource c m g)
unfolding get value lookup
resource-IsRequest c m g = record {
  formed = record { distinct = (refl, tt); no_cpu = refl; no_memory = refl };
  whole = λ n.
      (if n == cpu then c else if n == memory then m else if n == gpu then g else 0, ground arith);
}

abbrev pub pod : ℕ → Pod
pod id = record {
  uid = id;
  key = id;
  phase = pod_pending;
  deleted = false;
  spec_node_name = 0;
  task_spec = 3;
  gpu_limits = [];
  index_under_task = none;
  gpu_index = none;
  creation_timestamp = pos 10;
  start_time = none;
  sim_time = none;
}

-- A pending task of job 1.
abbrev pub task : ℕ → TaskInfo
task id = new_task_info (pod id) 1 (resource 2 5 1) (pos 0) true

abbrev pub node_object : NodeObject
node_object = record {
  name = 9;
  allocatable_list = [];
  capacity_list = [];
  gpu_memory = none;
  gpu_number = none;
  conditions = [];
  oversubscription_label = none;
  offline_job_evicting_annotation = none;
  oversubscription_cpu = none;
  oversubscription_memory = none;
  revocable_zone_label = none;
}

-- A node with nothing on it.
abbrev pub free_node : NodeInfo
free_node = record blank_node {
  name = 9;
  node = some node_object;
  idle = resource 4 16 2;
  allocatable = resource 4 16 2;
}

pub free_node-IsAccounted : IsAccounted free_node
unfolding total lookup
free_node-IsAccounted = record {
  distinct = tt;
  requests = λ k t e. cc;
  idle_eq = λ n. +ℤ-zero _;
  used_eq = λ n. get-empty_resource n;
  releasing_eq = λ n. get-empty_resource n;
  pipelined_eq = λ n. get-empty_resource n;
}
