-- ===== src/Job.antt =====
-- pkg/scheduler/api/job_info.go: a job, its tasks, and the index of its tasks by status.
-- A failed assertion (a panic) is `none`. Task counts are below 2 ^ 31, where int32 is exact.
pub mod Minimum
pub mod Index
pub mod Tally
pub mod Books
pub mod Update
pub mod Counts
pub mod Creation
pub mod Templates
pub mod Copy
use k8s_simulator.Common.{
  ℕ, zero, suc, ◌+◌, ◌-◌, ◌*◌, ◌≤◌, ◌<◌, ◌≡◌, refl, sym, ap, ◌∙◌, subst, ◌≢◌, ◌↔◌, ◌⊎◌, inl, inr,
  Bool, true, false, not, ◌&&◌, ◌||◌, Option, none, some, List, [], ◌∷◌, ◌++◌, map, arith, ltb, leb,
  ◌==◌, if◌then◌else◌, ==_refl, ==_ne, ==_iff, Bool-cases, Option-cases, length, count_if, All,
  length-append, ℤ, pos, negsuc, pos_part, neg_part, ◌+ℤ◌, ◌-ℤ◌, ◌*ℤ◌, ◌≤ℤ◌, ◌<ℤ◌, ltb_ℤ, eqb_ℤ,
  abs, min_ℤ, max_ℤ, +ℤ_parts, -ℤ_parts, eq_of_parts, int_laws, move_share, take_share,
  return_share, +ℤ-zero, -ℤ-zero, +ℤ_comm, +ℤ_assoc, +ℤ_cancel, ltb_ℤ_iff, eqb_ℤ_iff, Dict, lookup,
  insert, delete, Distinct, lookup-insert, lookup-delete, insert-Distinct, delete-Distinct,
  lookup-cons_old, lookup-cons_self, delete-insert, lookup-insert_self,
}
use k8s_simulator.Resource.{Resource, empty_resource, add, clone}
use k8s_simulator.Resource.Order.{sub}
use k8s_simulator.Resource.Request.{ResourceList}
use k8s_simulator.Task.{
  Status, pending, allocated, pipelined, binding, bound, running, releasing, succeeded, failed,
  unknown, status_code, status_of, Pod, TaskInfo, TransactionContext, allocated_status, clone_task,
  set_status,
}

-- scheduling.PodGroupPhase
pub data PodGroupPhase : Type 0 where
  no_phase group_pending group_running group_unknown group_inqueue : PodGroupPhase

-- What the code reads of a PodGroup.
pub record PodGroup : Type 0 where
  pub namespace : ℕ
  pub phase : PodGroupPhase
  pub queue : ℕ
  pub min_member : ℤ
  pub min_task_member : Dict ℤ
  pub min_resources : Option ResourceList
  pub creation_timestamp : ℤ

-- JobInfo, without its name, its waiting time, its zone and its budget.
pub record JobInfo : Type 0 where
  pub uid : ℕ
  pub namespace : ℕ
  pub queue : ℕ
  pub priority : ℤ
  pub min_available : ℤ
  pub task_status_index : Dict (Dict TaskInfo)
  pub tasks : Dict TaskInfo
  pub task_min_available : Dict ℤ
  pub task_min_available_total : ℤ
  pub allocated_res : Resource
  pub total_request : Resource
  pub creation_timestamp : ℤ
  pub pod_group : Option PodGroup
  pub preemptable : Bool
  pub termination_num : ℤ
  pub restart_num : ℤ
  -- Zero (`none`) until the job was first seen by the enqueue action.
  pub schedule_start_timestamp : Option ℤ
  -- The errors of the nodes that do not fit a task, by the task's UID and the node's name.
  pub nodes_fit_errors : Dict (Dict ℕ)

-- `ji.TaskStatusIndex[status]`, where a missing map has no entries.
unfoldable pub bucket : Status → Dict (Dict TaskInfo) → Dict TaskInfo
bucket s idx = elim (lookup (status_code s) idx) [ none ↦ [] | some m ↦ m ]

-- addTaskIndex
unfoldable pub add_task_index : TaskInfo → Dict (Dict TaskInfo) → Dict (Dict TaskInfo)
add_task_index ti idx = insert (status_code ti.status) (insert ti.uid ti (bucket ti.status idx)) idx

abbrev is_nil {ℓ} : {A : Type ℓ} → List A → Bool
is_nil [] = true
is_nil (x ∷ xs) = false

unfoldable pub put_or_drop : ℕ → Dict TaskInfo → Dict (Dict TaskInfo) → Dict (Dict TaskInfo)
put_or_drop code m idx = if is_nil m then delete code idx else insert code m idx

-- deleteTaskIndex; a map that becomes empty is deleted.
unfoldable pub delete_task_index : TaskInfo → Dict (Dict TaskInfo) → Dict (Dict TaskInfo)
delete_task_index ti idx = elim (lookup (status_code ti.status) idx) [
  | none ↦ idx
  | some m ↦ put_or_drop (status_code ti.status) (delete ti.uid m) idx
]

-- AddTaskInfo
unfoldable pub add_task_info : JobInfo → TaskInfo → JobInfo
add_task_info ji ti = record ji {
  tasks = insert ti.uid ti ji.tasks;
  task_status_index = add_task_index ti ji.task_status_index;
  total_request = add ji.total_request ti.resreq;
  allocated_res =
      if allocated_status ti.status then add ji.allocated_res ti.resreq else ji.allocated_res;
}

unfoldable pub take_task : JobInfo → TaskInfo → Resource → Resource → JobInfo
take_task ji task total alloc = record ji {
  total_request = total;
  allocated_res = alloc;
  tasks = delete task.uid ji.tasks;
  task_status_index = delete_task_index task ji.task_status_index;
}

-- What remains allocated without the task.
unfoldable pub sub_allocated : JobInfo → TaskInfo → Option Resource
sub_allocated ji task =
    if allocated_status task.status then sub ji.allocated_res task.resreq else some ji.allocated_res

-- DeleteTaskInfo. The flag says whether the task was found; a task that is not there is an error.
unfoldable pub delete_task_info : JobInfo → TaskInfo → Option (JobInfo × Bool)
delete_task_info ji ti = elim (lookup ti.uid ji.tasks) [
  | none ↦ some (ji, false)
  | some task ↦ elim (sub ji.total_request task.resreq) [
    | none ↦ none
    | some total ↦ elim (sub_allocated ji task) [
      | none ↦ none
      | some alloc ↦ some (take_task ji task total alloc, true)
    ]
  ]
]

-- The pod's start is recorded when it is bound, and the end of its run if the pod has a label for it
-- (`rand.Intn(1)` is 0).
unfoldable pub stamp : ℤ → TaskInfo → Status → TaskInfo
stamp now task binding = record task {
  pod = record (task.pod) { start_time = some now };
  sim_end_timestamp = elim task.pod.sim_time [
    | none ↦ task.sim_end_timestamp
    | some duration ↦ task.pod.creation_timestamp +ℤ duration
  ];
}
stamp now task _ = task

-- UpdateTaskStatus. Every change of status is valid (validateStatusUpdate returns nil).
unfoldable pub update_task_status : ℤ → JobInfo → TaskInfo → Status → Option (JobInfo × TaskInfo)
update_task_status now ji task status =
    let task' = stamp now (set_status task status) status in
    elim (lookup task.uid ji.tasks) [
      | none ↦ some (add_task_info ji task', task')
      | some _ ↦ elim (delete_task_info ji task) [
        | none ↦ none
        | some (ji', _) ↦ some (add_task_info ji' task', task')
      ]
    ]

unfoldable pub add_all : JobInfo → List TaskInfo → JobInfo
add_all ji [] = ji
add_all ji (t ∷ ts) = add_all (add_task_info ji t) ts

abbrev pub blank_job : ℕ → JobInfo
blank_job uid = record {
  uid = uid;
  namespace = 0;
  queue = 0;
  priority = pos 0;
  min_available = pos 0;
  task_status_index = [];
  tasks = [];
  task_min_available = [];
  task_min_available_total = pos 0;
  allocated_res = empty_resource;
  total_request = empty_resource;
  creation_timestamp = pos 0;
  pod_group = none;
  preemptable = false;
  termination_num = pos 0;
  restart_num = pos 0;
  schedule_start_timestamp = none;
  nodes_fit_errors = [];
}

-- NewJobInfo
unfoldable pub new_job_info : ℕ → List TaskInfo → JobInfo
new_job_info uid tasks = add_all (blank_job uid) tasks

unfoldable pub clone_tasks : Dict TaskInfo → List TaskInfo
clone_tasks [] = []
clone_tasks ((k, t) ∷ d) = clone_task t ∷ clone_tasks d

-- Clone: every task is cloned and added anew. `RestartNum` and
-- `ScheduleStartTimestamp` are not copied.
unfoldable pub clone_job : JobInfo → JobInfo
unfolding clone_tasks
clone_job ji =
    add_all
      (record ji {
        allocated_res = empty_resource;
        total_request = empty_resource;
        task_status_index = [];
        tasks = [];
        restart_num = pos 0;
        schedule_start_timestamp = none;
        nodes_fit_errors = [];
      })
      (clone_tasks ji.tasks)

-- SetPodGroup, for the fields of the model.
unfoldable pub sum_members : Dict ℤ → ℤ
sum_members [] = pos 0
sum_members ((k, m) ∷ d) = m +ℤ sum_members d

unfoldable pub set_members : Dict ℤ → Dict ℤ → Dict ℤ
set_members old [] = old
set_members old ((k, m) ∷ d) = set_members (insert k m old) d

unfoldable pub set_pod_group : JobInfo → PodGroup → Bool → JobInfo
set_pod_group ji pg preemptable = record ji {
  namespace = pg.namespace;
  min_available = pg.min_member;
  queue = pg.queue;
  creation_timestamp = pg.creation_timestamp;
  preemptable = preemptable;
  task_min_available = set_members ji.task_min_available pg.min_task_member;
  task_min_available_total = sum_members pg.min_task_member;
  pod_group = some pg;
}

-- UnsetPodGroup, IsPending and JobTerminated
unfoldable pub unset_pod_group : JobInfo → JobInfo
unset_pod_group ji = record ji { pod_group = none }

pending_phase : PodGroupPhase → Bool
pending_phase group_pending = true
pending_phase no_phase = true
pending_phase _ = false

unfoldable pub is_pending : JobInfo → Bool
unfolding pending_phase
is_pending ji = elim ji.pod_group [ none ↦ true | some pg ↦ pending_phase pg.phase ]

unfoldable pub job_terminated : JobInfo → Bool
job_terminated ji = elim ji.pod_group [ none ↦ is_nil ji.tasks | some _ ↦ false ]
