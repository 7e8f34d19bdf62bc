-- ===== src/Simulation.antt =====
-- cmd/sim/main.go: what one second of the simulated time does to the cluster: containers that are being
-- created count down, the earliest of those that are done starts, and tasks that end give their resources
-- back. A missing job or task is a nil pointer, which panics (`none`). The loops over the nodes' tasks visit
-- the tasks that are there at their start; in between them a loop only deletes the task that it visits. The
-- statuses of a pod's containers, which are written at its end, are left out.
pub mod Endings
pub mod Records
pub mod Rounds
use k8s_simulator.Common.{
  ℕ, zero, suc, ◌+◌, ◌-◌, ◌*◌, ◌≤◌, ◌<◌, ◌≡◌, refl, sym, ap, ◌∙◌, subst, ◌≢◌, ◌↔◌, ◌⊎◌, inl, inr,
  Bool, true, false, not, ◌&&◌, ◌||◌, Option, none, some, List, [], ◌∷◌, ◌++◌, map, arith, ltb, leb,
  ◌==◌, if◌then◌else◌, ==_refl, ==_ne, ==_iff, Bool-cases, Option-cases, length, count_if, All,
  length-append, ℤ, pos, negsuc, pos_part, neg_part, ◌+ℤ◌, ◌-ℤ◌, ◌*ℤ◌, ◌≤ℤ◌, ◌<ℤ◌, ltb_ℤ, eqb_ℤ,
  abs, min_ℤ, max_ℤ, +ℤ_parts, -ℤ_parts, eq_of_parts, int_laws, move_share, take_share,
  return_share, +ℤ-zero, -ℤ-zero, +ℤ_comm, +ℤ_assoc, +ℤ_cancel, ltb_ℤ_iff, eqb_ℤ_iff, Dict, lookup,
  insert, delete, Distinct, lookup-insert, lookup-delete, insert-Distinct, delete-Distinct,
  lookup-cons_old, lookup-cons_self, delete-insert, lookup-insert_self, ◌>>=◌,
}
use Prim.Native.Nat.{◌%◌}
use k8s_simulator.Resource.{add}
use k8s_simulator.Resource.Order.{sub}
use k8s_simulator.Task.{
  Status, binding, running, succeeded, failed, PodPhase, pod_running, pod_succeeded, pod_failed,
  TaskInfo, set_status, status_code,
}
use k8s_simulator.Job.{JobInfo}
use k8s_simulator.Node.{NodeInfo}
use k8s_simulator.Statement.Commit.{Cluster, is_binding}

-- 1.0 in thousandths
abbrev second : ℤ
second = pos 1000

unfoldable pub count_down_task : TaskInfo → TaskInfo
count_down_task t =
    if is_binding t.status
    then record t { ctn_creation_count_down = t.ctn_creation_count_down -ℤ second }
    else t

unfoldable pub count_down_tasks : Dict TaskInfo → Dict TaskInfo
count_down_tasks [] = []
count_down_tasks ((k, t) ∷ d) = (k, count_down_task t) ∷ count_down_tasks d

unfoldable pub count_down : Dict NodeInfo → Dict NodeInfo
count_down [] = []
count_down ((k, ni) ∷ d) = (k, record ni { tasks = count_down_tasks ni.tasks }) ∷ count_down d

-- The container of a task is created.
unfoldable pub is_created : TaskInfo → Bool
is_created t = is_binding t.status && not (ltb_ℤ (pos 0) t.ctn_creation_count_down)

-- The loop that looks for the earliest pod of those whose container is created.
unfoldable pub select_task : Option (ℕ × TaskInfo) → Dict TaskInfo → Option (ℕ × TaskInfo)
select_task best [] = best
select_task best ((k, t) ∷ d) =
    let better : Bool = elim best [
      | none ↦ true
      | some (j, b) ↦ ltb_ℤ t.pod.creation_timestamp b.pod.creation_timestamp
    ] in
    select_task (if is_created t && better then some (k, t) else best) d

-- What the start of a container writes to a task and its pod.
unfoldable pub started : ℤ → TaskInfo → TaskInfo
started now t = record (set_status t running) {
  pod = record (t.pod) { phase = pod_running; start_time = some now };
}

-- A write to a task of a job: both maps hold it, and the index keeps it where it is.
unfoldable pub rewrite_index : ℕ → TaskInfo → Dict (Dict TaskInfo) → Dict (Dict TaskInfo)
rewrite_index uid t [] = []
rewrite_index uid t ((code, m) ∷ idx) =
    (code, elim (lookup uid m) [ none ↦ m | some _ ↦ insert uid t m ]) ∷ rewrite_index uid t idx

unfoldable pub write_in_job :
    Dict JobInfo → TaskInfo → (TaskInfo → TaskInfo) → Option (Dict JobInfo)
write_in_job jobs t f = elim (lookup t.job jobs) [
  | none ↦ none
  | some job ↦ elim (lookup t.uid job.tasks) [
    | none ↦ none
    | some u ↦ some (
        insert t.job
          (record job {
            tasks = insert t.uid (f u) job.tasks;
            task_status_index = rewrite_index t.uid (f u) job.task_status_index;
          })
          jobs)
  ]
]

-- Is it the turn of a node in this round?
unfoldable pub is_due : ℕ → NodeInfo → Bool
is_due cnt ni = ni.ctn_creation_time_interval == 0 || (cnt % ni.ctn_creation_time_interval == 0)

unfoldable pub start_on_node : ℤ → ℕ → Dict JobInfo → NodeInfo → Option (Dict JobInfo × NodeInfo)
start_on_node now cnt jobs ni =
    if not (is_due cnt ni) then some (jobs, ni) else elim (select_task none ni.tasks) [
      | none ↦ some (jobs, ni)
      | some (k, t) ↦ do
        jobs' ← write_in_job jobs t (started now)
        some (jobs', record ni { tasks = insert k (started now t) ni.tasks })
    ]

unfoldable pub start_on_nodes :
    ℤ → ℕ → Dict JobInfo → Dict NodeInfo → Option (Dict JobInfo × Dict NodeInfo)
start_on_nodes now cnt jobs [] = some (jobs, [])
start_on_nodes now cnt jobs ((k, ni) ∷ d) = do
  (jobs', ni') ← start_on_node now cnt jobs ni
  (jobs'', d') ← start_on_nodes now cnt jobs' d
  some (jobs'', (k, ni') ∷ d')

-- The end of a task: its node takes the resources back and forgets it.
unfoldable pub give_back : NodeInfo → TaskInfo → Option NodeInfo
give_back ni t = do
  used ← sub ni.used t.resreq
  some (record ni { idle = add ni.idle t.resreq; used = used; tasks = delete t.pod.key ni.tasks })

unfoldable pub ended : PodPhase → TaskInfo → TaskInfo
ended phase t = record (set_status t succeeded) { pod = record (t.pod) { phase = phase } }

-- `delete(job.TaskStatusIndex[Binding], task.UID)`
unfoldable pub drop_from_binding : TaskInfo → Dict JobInfo → Dict JobInfo
drop_from_binding t jobs = elim (lookup t.job jobs) [
  | none ↦ jobs
  | some job ↦ elim (lookup (status_code binding) job.task_status_index) [
    | none ↦ jobs
    | some m ↦
        insert t.job
          (record job {
            task_status_index = insert (status_code binding) (delete t.uid m) job.task_status_index;
          })
          jobs
  ]
]

-- What one of the two loops does with a task that it picks; `f` is what the job's task becomes.
unfoldable pub end_task :
    PodPhase
    → (TaskInfo → TaskInfo)
    → Dict JobInfo
    → NodeInfo
    → TaskInfo
    → Option (Dict JobInfo × NodeInfo)
end_task phase f jobs ni t = do
  ni' ← give_back ni t
  jobs' ← write_in_job jobs t (λ u. f (ended phase u))
  some (drop_from_binding t jobs', ni')

unfoldable pub end_tasks :
    PodPhase
    → (TaskInfo → TaskInfo)
    → (TaskInfo → Bool)
    → Dict TaskInfo
    → Dict JobInfo
    → NodeInfo
    → Option (Dict JobInfo × NodeInfo)
end_tasks phase f picks [] jobs ni = some (jobs, ni)
end_tasks phase f picks ((k, t) ∷ d) jobs ni =
    if picks t
    then (do (jobs', ni') ← end_task phase f jobs ni t; end_tasks phase f picks d jobs' ni')
    else end_tasks phase f picks d jobs ni

unfoldable pub is_running : Status → Bool
is_running running = true
is_running _ = false

unfoldable pub has_failed : Status → Bool
has_failed failed = true
has_failed _ = false

-- The tasks that succeed now: `reset` says whose work is done.
unfoldable pub complete_on_node :
    ℤ → (TaskInfo → Bool) → Dict JobInfo → NodeInfo → Option (Dict JobInfo × NodeInfo)
complete_on_node now reset jobs ni =
    end_tasks pod_succeeded (λ u. u)
      (λ t. reset t && (is_running t.status && not (ltb_ℤ now t.sim_end_timestamp))) ni.tasks jobs
      ni

unfoldable pub fail_on_node : ℤ → Dict JobInfo → NodeInfo → Option (Dict JobInfo × NodeInfo)
fail_on_node now jobs ni =
    end_tasks pod_failed (λ u. record u { sim_end_timestamp = now }) (λ t. has_failed t.status)
      ni.tasks jobs ni
