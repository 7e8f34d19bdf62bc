-- ===== src/Priority.antt =====
-- pkg/scheduler/plugins/priority/priority.go: the functions that the priority plugin registers.
use k8s_simulator.Common.{
  ℕ, ◌+◌, Bool, not, ◌==◌, Option, none, some, List, [], ◌∷◌, ltb, length, ℤ, pos, negsuc, ltb_ℤ,
  eqb_ℤ, Dict, lookup, if◌then◌else◌, ◌>>=◌,
}
use k8s_simulator.Task.{TaskInfo}
use k8s_simulator.Job.{JobInfo}
use k8s_simulator.Job.Minimum.{ready_task_num, waiting_task_num}
use k8s_simulator.Gang.{permit}
pub mod Order

-- taskOrderFn
unfoldable pub task_order_fn : TaskInfo → TaskInfo → ℤ
task_order_fn lv rv =
    if eqb_ℤ lv.priority rv.priority
    then pos 0
    else if ltb_ℤ rv.priority lv.priority
    then negsuc 0
    else pos 1

-- jobOrderFn
unfoldable pub job_order_fn : JobInfo → JobInfo → ℤ
job_order_fn lv rv =
    if ltb_ℤ rv.priority lv.priority
    then negsuc 0
    else if ltb_ℤ lv.priority rv.priority
    then pos 1
    else pos 0

-- May the preemptor take the place of a task? Across jobs the priorities of the jobs are compared, within
-- a job those of the tasks.
unfoldable pub may_preempt : JobInfo → TaskInfo → JobInfo → TaskInfo → Bool
may_preempt preemptor_job preemptor preemptee_job preemptee =
    if not (preemptee_job.uid == preemptor_job.uid)
    then ltb_ℤ preemptee_job.priority preemptor_job.priority
    else ltb_ℤ preemptee.priority preemptor.priority

-- The loop of preemptableFn. A task without a job is a nil pointer, which panics.
unfoldable pub lower_tasks :
    Dict JobInfo → JobInfo → TaskInfo → List TaskInfo → Option (List TaskInfo)
lower_tasks jobs preemptor_job preemptor [] = some []
lower_tasks jobs preemptor_job preemptor (preemptee ∷ ts) = do
  preemptee_job ← lookup preemptee.job jobs
  victims ← lower_tasks jobs preemptor_job preemptor ts
  some (
      if may_preempt preemptor_job preemptor preemptee_job preemptee
      then preemptee ∷ victims
      else victims)

-- preemptableFn: the preemptor's job is looked at for a preemptee only.
unfoldable pub preemptable_fn : Dict JobInfo → TaskInfo → List TaskInfo → Option (List TaskInfo × ℤ)
preemptable_fn jobs preemptor [] = some ([], permit)
preemptable_fn jobs preemptor (t ∷ ts) = do
  preemptor_job ← lookup preemptor.job jobs
  victims ← lower_tasks jobs preemptor_job preemptor (t ∷ ts)
  some (victims, permit)

-- jobStarvingFn
unfoldable pub job_starving_fn : JobInfo → Bool
job_starving_fn ji = ltb (ready_task_num ji + waiting_task_num ji) (length ji.tasks)
