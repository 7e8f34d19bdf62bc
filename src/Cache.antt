-- ===== src/Cache.antt =====
-- pkg/scheduler/cache/event_handlers.go and cache.go: the cache's jobs and nodes as pods and nodes come, change
-- and go. A pod is given as the TaskInfo that NewTaskInfo makes of it. The clients of the API server are not
-- part of the state.
pub mod Places
pub mod Pods
pub mod Updates
use k8s_simulator.Common.{
  ℕ, zero, suc, ◌+◌, ◌-◌, ◌*◌, ◌≤◌, ◌<◌, ◌≡◌, refl, sym, ap, ◌∙◌, subst, ◌≢◌, ◌↔◌, ◌⊎◌, inl, inr,
  Bool, true, false, not, ◌&&◌, ◌||◌, Option, none, some, List, [], ◌∷◌, ◌++◌, map, arith, ltb, leb,
  ◌==◌, if◌then◌else◌, ==_refl, ==_ne, ==_iff, Bool-cases, Option-cases, length, count_if, All,
  length-append, ℤ, pos, negsuc, pos_part, neg_part, ◌+ℤ◌, ◌-ℤ◌, ◌*ℤ◌, ◌≤ℤ◌, ◌<ℤ◌, ltb_ℤ, eqb_ℤ,
  abs, min_ℤ, max_ℤ, +ℤ_parts, -ℤ_parts, eq_of_parts, int_laws, move_share, take_share,
  return_share, +ℤ-zero, -ℤ-zero, +ℤ_comm, +ℤ_assoc, +ℤ_cancel, ltb_ℤ_iff, eqb_ℤ_iff, Dict, lookup,
  insert, delete, Distinct, lookup-insert, lookup-delete, insert-Distinct, delete-Distinct,
  lookup-cons_old, lookup-cons_self, delete-insert, lookup-insert_self, ◌>>=◌,
}
use k8s_simulator.Task.{Status, succeeded, failed, TaskInfo, empty_name, allocated_status}
use k8s_simulator.Job.{JobInfo, new_job_info, add_task_info, delete_task_info, job_terminated}
use k8s_simulator.Node.{
  NodeObject, NodeInfo, Error, insufficient_idle, not_ready, out_of_sync, add_task, remove_task,
}
use k8s_simulator.Node.Lifecycle.{new_node_info, set_node}

-- SchedulerCache; `deleted_jobs` lists what was handed to its work queue of jobs to delete.
pub record SchedulerCache : Type 0 where
  pub jobs : Dict JobInfo
  pub nodes : Dict NodeInfo
  pub deleted_jobs : List ℕ

pub data CacheError : Type 0 where
  node_failed : Error → CacheError
  no_cached_job no_cached_task no_cached_node : CacheError

-- The state after a handler and its error, unless it panics.
abbrev pub Handled : Type 0
Handled = Option (SchedulerCache × Option CacheError)

unfoldable pub is_terminated : Status → Bool
is_terminated succeeded = true
is_terminated failed = true
is_terminated _ = false

-- getOrCreateJob and the call of AddTaskInfo after it: a task that names no job is not filed.
unfoldable pub get_or_create_job : Dict JobInfo → ℕ → JobInfo
get_or_create_job jobs uid = elim (lookup uid jobs) [ none ↦ new_job_info uid [] | some job ↦ job ]

unfoldable pub file_task : SchedulerCache → TaskInfo → SchedulerCache
file_task sc pi = if pi.job == empty_name then sc else record sc {
  jobs = insert pi.job (add_task_info (get_or_create_job sc.jobs pi.job) pi) sc.jobs;
}

-- A node that takes a task but has no room for it is out of sync.
unfoldable pub mark_out_of_sync : NodeInfo → Error → NodeInfo
mark_out_of_sync node insufficient_idle = record node { phase = not_ready; reason = out_of_sync }
mark_out_of_sync node _ = node

-- The first half of deleteTask, with its error.
unfoldable pub unfile_task : SchedulerCache → TaskInfo → Handled
unfile_task sc pi = if pi.job == empty_name then some (sc, none) else elim (lookup pi.job sc.jobs) [
  | none ↦ some (sc, some no_cached_job)
  | some job ↦ elim (delete_task_info job pi) [
    | none ↦ none
    | some (job', found) ↦ some (
      record sc { jobs = insert pi.job job' sc.jobs },
      if found then none else some no_cached_task,
    )
  ]
]

unfoldable pub leave_node : SchedulerCache → TaskInfo → Option SchedulerCache
leave_node sc pi =
    if pi.node_name == empty_name then some sc else elim (lookup pi.node_name sc.nodes) [
      | none ↦ some sc
      | some node ↦ elim (remove_task node pi) [
        | none ↦ none
        | some node' ↦ some (record sc { nodes = insert pi.node_name node' sc.nodes })
      ]
    ]

-- deleteTask; RemoveTask has no error.
unfoldable pub delete_task_from_cache : SchedulerCache → TaskInfo → Handled
delete_task_from_cache sc pi = do
  (sc', e) ← unfile_task sc pi
  sc'' ← leave_node sc' pi
  some (sc'', e)

-- The task of the cache for a pod, which is the one to delete.
unfoldable pub cached_task : SchedulerCache → TaskInfo → Option TaskInfo
cached_task sc pi = elim (lookup pi.job sc.jobs) [
  | none ↦ none
  | some job ↦ lookup pi.uid job.tasks
]

-- allocatedPodInCache
unfoldable pub allocated_pod_in_cache : SchedulerCache → TaskInfo → Bool
allocated_pod_in_cache sc pi = elim (cached_task sc pi) [
  | none ↦ false
  | some t ↦ allocated_status t.status
]

-- deleteJob, for a job that is terminated
unfoldable pub delete_job_if_terminated : SchedulerCache → ℕ → SchedulerCache
delete_job_if_terminated sc uid = elim (lookup uid sc.jobs) [
  | none ↦ sc
  | some job ↦
      if job_terminated job
      then record sc { deleted_jobs = sc.deleted_jobs ++ job.uid ∷ [] }
      else sc
]

-- deletePod
unfoldable pub delete_pod : SchedulerCache → TaskInfo → Option SchedulerCache
delete_pod sc pi = do
  (sc', e) ← delete_task_from_cache sc (elim (cached_task sc pi) [ none ↦ pi | some t ↦ t ])
  some (delete_job_if_terminated sc' pi.job)

unfoldable pub delete_node : SchedulerCache → NodeObject → SchedulerCache × Option CacheError
delete_node sc node = elim (lookup node.name sc.nodes) [
  | none ↦ (sc, some no_cached_node)
  | some ni ↦ (record sc { nodes = delete node.name sc.nodes }, none)
]

-- processCleanupJob, for the job that the work queue gives
unfoldable pub process_cleanup_job : SchedulerCache → ℕ → SchedulerCache
process_cleanup_job sc uid = elim (lookup uid sc.jobs) [
  | none ↦ sc
  | some job ↦
      if job_terminated job
      then record sc { jobs = delete uid sc.jobs }
      else record sc { deleted_jobs = sc.deleted_jobs ++ uid ∷ [] }
]

module _ (is_scalar_resource_name : ℕ → Bool) where
  -- The node that a task names; one that is not known yet is made, with no node object.
  unfoldable pub node_of : SchedulerCache → ℕ → NodeInfo
  node_of sc name = elim (lookup name sc.nodes) [
    | none ↦ record (new_node_info is_scalar_resource_name none) { name = name }
    | some node ↦ node
  ]

  -- addTask
  unfoldable pub add_task_to_cache : SchedulerCache → TaskInfo → Handled
  add_task_to_cache sc pi =
      let node = node_of sc pi.node_name in
      let known = record sc { nodes = insert pi.node_name node sc.nodes } in
      if pi.node_name == empty_name
      then some (file_task sc pi, none)
      else if is_terminated pi.status
      then some (file_task known pi, none)
      else elim (add_task node pi) [
        | none ↦ none
        | some ((node', pi'), none) ↦
            some (file_task (record sc { nodes = insert pi.node_name node' sc.nodes }) pi', none)
        | some ((node', pi'), some e) ↦ some (
          record sc { nodes = insert pi.node_name (mark_out_of_sync node' e) sc.nodes },
          some (node_failed e),
        )
      ]

  -- updateTask; an error of the deletion is only logged.
  unfoldable pub update_task_in_cache : SchedulerCache → TaskInfo → TaskInfo → Handled
  update_task_in_cache sc old_task new_task = do
    (sc', e) ← delete_task_from_cache sc old_task
    add_task_to_cache sc' new_task

  -- updatePod
  unfoldable pub update_pod : SchedulerCache → TaskInfo → TaskInfo → Handled
  update_pod sc old_pi new_pi =
      if allocated_pod_in_cache sc new_pi && (new_pi.pod.spec_node_name == empty_name)
      then some (sc, none)
      else (do sc' ← delete_pod sc old_pi; add_task_to_cache sc' new_pi)

  -- addNode, updateNode and deleteNode, where the node has no NUMA information
  unfoldable pub add_node : SchedulerCache → NodeObject → Option SchedulerCache
  add_node sc node = elim (lookup node.name sc.nodes) [
    | none ↦ some (record sc {
      nodes = insert node.name (new_node_info is_scalar_resource_name (some node)) sc.nodes;
    })
    | some ni ↦ do
      ni' ← set_node is_scalar_resource_name ni node
      some (record sc { nodes = insert node.name ni' sc.nodes })
  ]

  unfoldable pub update_node : SchedulerCache → NodeObject → Handled
  update_node sc new_node = elim (lookup new_node.name sc.nodes) [
    | none ↦ some (sc, some no_cached_node)
    | some ni ↦ do
      ni' ← set_node is_scalar_resource_name ni new_node
      some (record sc { nodes = insert new_node.name ni' sc.nodes }, none)
  ]
