-- ===== src/Examples/Gangs.antt =====
-- A gang with spare tasks, and the theorem on its preemption applied to it.
use k8s_simulator.Common.{◌≡◌, refl, some, List, [], ◌∷◌, arith, pos, ◌-ℤ◌, Dict, lookup, insert}
use k8s_simulator.Task.{TaskInfo, running, new_task_info, set_status, status_code}
use k8s_simulator.Job.{JobInfo, bucket, add_task_index, add_task_info, add_all, new_job_info}
use k8s_simulator.Job.Minimum.{ready_task_num, count_best_effort}
use k8s_simulator.Gang.{permit, occupancy, collect_victims, preemptable_fn}
use k8s_simulator.Gang.Preemption.{AreFiled, HaveJobs, Spares, preemptable_fn-Spares}
use k8s_simulator.Examples.Data.{task}

-- Three running tasks, of which one has to stay.
abbrev started : List TaskInfo
started =
    set_status (task 1) running ∷ set_status (task 2) running ∷ set_status (task 3) running ∷ []

abbrev gang_job : JobInfo
gang_job = record (new_job_info 1 started) { min_available = pos 1 }

abbrev jobs : Dict JobInfo
jobs = (1, gang_job) ∷ []

program : Unit {0}
unfolding new_task_info status_code bucket add_task_index add_task_info add_all new_job_info
    ready_task_num count_best_effort occupancy collect_victims preemptable_fn lookup insert ◌-ℤ◌
program = tt

two_go :
    preemptable_fn jobs started
    ≡ some (set_status (task 1) running ∷ set_status (task 2) running ∷ [], permit)
unfolding program
two_go = refl

lower_go :
    k8s_simulator.Priority.preemptable_fn jobs (record (task 9) { priority = pos 5 }) started
    ≡ some (started, permit)
unfolding new_task_info add_task_info add_all new_job_info lookup insert
    k8s_simulator.Priority.preemptable_fn k8s_simulator.Priority.lower_tasks
    k8s_simulator.Priority.may_preempt
lower_go = refl

jobs-AreFiled : AreFiled jobs
unfolding new_job_info add_all add_task_info lookup
jobs-AreFiled k job e = ground arith

started-HaveJobs : HaveJobs jobs started
unfolding new_task_info lookup
started-HaveJobs = ((gang_job, refl), ((gang_job, refl), ((gang_job, refl), tt)))

preemptable_fn-Spares_example :
    (vs : List TaskInfo) × (preemptable_fn jobs started ≡ some (vs, permit))
    × Spares gang_job (pos (ready_task_num gang_job)) vs
unfolding new_job_info add_all add_task_info lookup
preemptable_fn-Spares_example =
    preemptable_fn-Spares jobs jobs-AreFiled gang_job refl started started-HaveJobs
