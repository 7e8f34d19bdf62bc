-- ===== src/Task.antt =====
-- pkg/scheduler/api/types.go, helpers.go, job_info.go (TaskInfo), pod_info.go and device_info.go: tasks and
-- their pods. A pod is what the code reads of a v1.Pod.
pub mod Gpu
pub mod Totals
use k8s_simulator.Common.{
  ℕ, zero, suc, ◌+◌, ◌-◌, ◌*◌, ◌≤◌, ◌<◌, ◌≡◌, refl, sym, ap, ◌∙◌, subst, ◌≢◌, ◌↔◌, ◌⊎◌, inl, inr,
  Bool, true, false, not, ◌&&◌, ◌||◌, Option, none, some, List, [], ◌∷◌, ◌++◌, map, arith, ltb, leb,
  ◌==◌, if◌then◌else◌, ==_refl, ==_ne, ==_iff, Bool-cases, Option-cases, length, count_if, All,
  length-append, ℤ, pos, negsuc, pos_part, neg_part, ◌+ℤ◌, ◌-ℤ◌, ◌*ℤ◌, ◌≤ℤ◌, ◌<ℤ◌, ltb_ℤ, eqb_ℤ,
  abs, min_ℤ, max_ℤ, +ℤ_parts, -ℤ_parts, eq_of_parts, int_laws, +ℤ-zero, -ℤ-zero, +ℤ_comm, +ℤ_assoc,
  +ℤ_cancel, ltb_ℤ_iff, eqb_ℤ_iff, Dict, lookup, insert, delete, Distinct, lookup-insert,
  lookup-delete, insert-Distinct, delete-Distinct, lookup-cons_old, lookup-cons_self,
}
use k8s_simulator.Resource.{Resource, clone, is_empty}

-- TaskStatus
pub data Status : Type 0 where
  pending allocated pipelined binding bound running releasing succeeded failed unknown : Status

-- The values of the constants, `1 << iota`; they are the keys of a job's index.
unfoldable pub status_code : Status → ℕ
status_code pending = 1
status_code allocated = 2
status_code pipelined = 4
status_code binding = 8
status_code bound = 16
status_code running = 32
status_code releasing = 64
status_code succeeded = 128
status_code failed = 256
status_code unknown = 512

-- The status with a code; a TaskStatus is that integer in the source.
unfoldable pub status_of : ℕ → Status
status_of code =
    if code == 1
    then pending
    else if code == 2
    then allocated
    else if code == 4
    then pipelined
    else if code == 8
    then binding
    else if code == 16
    then bound
    else if code == 32
    then running
    else if code == 64
    then releasing
    else if code == 128
    then succeeded
    else if code == 256
    then failed
    else unknown

pub status_of-status_code : (s : Status) → status_of (status_code s) ≡ s
unfolding status_of status_code
status_of-status_code pending = refl
status_of-status_code _ = refl

-- v1.PodPhase
pub data PodPhase : Type 0 where
  pod_pending pod_running pod_succeeded pod_failed pod_unknown : PodPhase

-- An empty string.
abbrev pub empty_name : ℕ
empty_name = 0

-- `key` is namespace/name, `task_spec` the annotation that names the task's template (empty if
-- there is none), `gpu_limits` the GPU memory that each container asks for, and `gpu_index` the
-- index that the annotation assigns, `none` standing for -1. `sim_time` is the label of that name,
-- where it is a number. Times are in seconds.
pub record Pod : Type 0 where
  pub uid : ℕ
  pub key : ℕ
  pub phase : PodPhase
  pub deleted : Bool
  pub spec_node_name : ℕ
  pub task_spec : ℕ
  pub gpu_limits : List ℕ
  -- GetPodIndexUnderTask of its name, where that is a number.
  pub index_under_task : Option ℤ
  pub gpu_index : Option ℕ
  pub creation_timestamp : ℤ
  pub start_time : Option ℤ
  pub sim_time : Option ℤ

-- TransactionContext
pub record TransactionContext : Type 0 where
  pub node_name : ℕ
  pub status : Status

-- TaskInfo, without its name, its namespace, its volumes, its NUMA policy and its zone.
pub record TaskInfo : Type 0 where
  pub uid : ℕ
  pub job : ℕ
  pub resreq : Resource
  pub init_resreq : Resource
  pub context : TransactionContext
  pub open context use *
  pub last_transaction : Option TransactionContext
  pub priority : ℤ
  pub preemptable : Bool
  pub best_effort : Bool
  pub pod : Pod
  pub sim_end_timestamp : ℤ
  pub actual_cpu : ℤ
  pub ctn_creation_count_down : ℤ
  pub workload : ℤ
  pub restart_time : ℤ
  pub termination_time : ℤ

-- getTaskStatus
unfoldable pub get_task_status : Pod → Status
get_task_status pod = elim pod.phase [
  | pod_running ↦ if pod.deleted then releasing else running
  | pod_pending ↦
      if pod.deleted then releasing else if pod.spec_node_name == empty_name then pending else bound
  | pod_unknown ↦ unknown
  | pod_succeeded ↦ succeeded
  | pod_failed ↦ failed
]

-- AllocatedStatus
unfoldable pub allocated_status : Status → Bool
allocated_status bound = true
allocated_status binding = true
allocated_status running = true
allocated_status allocated = true
allocated_status _ = false

-- Clone of a TaskInfo copies every field but `ActualCpu`, which starts at 0.
unfoldable pub clone_task : TaskInfo → TaskInfo
clone_task ti = record ti {
  resreq = clone ti.resreq;
  init_resreq = clone ti.init_resreq;
  actual_cpu = pos 0;
}

-- GenerateLastTxContext and ClearLastTxContext
unfoldable pub generate_last_tx_context : TaskInfo → TaskInfo
generate_last_tx_context ti = record ti { last_transaction = some ti.context }

unfoldable pub clear_last_tx_context : TaskInfo → TaskInfo
clear_last_tx_context ti = record ti { last_transaction = none }

abbrev pub set_status : TaskInfo → Status → TaskInfo
set_status ti s = record ti { context = record (ti.context) { status = s } }

abbrev pub set_node_name : TaskInfo → ℕ → TaskInfo
set_node_name ti name = record ti { context = record (ti.context) { node_name = name } }

-- The part of NewTaskInfo that does not read annotations: `request` is the pod's request.
unfoldable pub new_task_info : Pod → ℕ → Resource → ℤ → Bool → TaskInfo
new_task_info pod job request priority preemptable = record {
  uid = pod.uid;
  job = job;
  resreq = request;
  init_resreq = request;
  context = record { node_name = pod.spec_node_name; status = get_task_status pod };
  last_transaction = none;
  priority = priority;
  preemptable = preemptable;
  best_effort = is_empty request;
  pod = pod;
  sim_end_timestamp = pos 0;
  actual_cpu = pos 0;
  ctn_creation_count_down = pos 0;
  workload = pos 0;
  restart_time = pos 0;
  termination_time = pos 0;
}
