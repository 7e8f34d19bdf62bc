-- ===== src/Examples/Jobs.antt =====
-- Runs of a job with two tasks, and the theorems on jobs applied to them.
use k8s_simulator.Job.{clone_job}
use k8s_simulator.Job.Copy.{found_clone, clone_job-IsBooked}
use k8s_simulator.Job.Minimum.{check_task_min_available_ready, check_task_min_available_pipelined}
use k8s_simulator.Job.Templates.{
  AreReached, is_ready_task, is_pipelined_task, check_task_min_available_ready_iff,
  check_task_min_available_pipelined_iff,
}
use k8s_simulator.Common.{
  ℕ, ◌↔◌, ◌⊎◌, ◌<ℤ◌, ◌≡◌, refl, true, none, some, List, [], ◌∷◌, pos, lookup, insert,
}
use k8s_simulator.Task.{running, TaskInfo, new_task_info}
use k8s_simulator.Job.{
  JobInfo, add_task_info, add_all, new_job_info, delete_task_info, update_task_status,
}
use k8s_simulator.Job.Minimum.{ready_task_num}
use k8s_simulator.Job.Tally.{weigh_tasks}
use k8s_simulator.Job.Books.{IsBooked, add_task_info-IsBooked, delete_task_info-IsBooked}
use k8s_simulator.Job.Update.{update_task_status-IsBooked}
use k8s_simulator.Job.Counts.{ready_weight, ready_task_num-eq}
use k8s_simulator.Job.Creation.{new_job_info-IsBooked}
use k8s_simulator.Examples.Data.{resource-IsRequest, task}

abbrev pub pair : List TaskInfo
pair = task 1 ∷ task 2 ∷ []

abbrev pub pair_job : JobInfo
pair_job = new_job_info 1 pair

pub pair_job-IsBooked : IsBooked pair_job
unfolding new_task_info lookup insert
pair_job-IsBooked =
    new_job_info-IsBooked 1 pair (resource-IsRequest 2 5 1, (resource-IsRequest 2 5 1, tt))
      (refl, (refl, tt))

new_job_info-IsBooked_example : IsBooked (new_job_info 1 pair)
unfolding new_task_info lookup insert
new_job_info-IsBooked_example =
    new_job_info-IsBooked 1 pair (resource-IsRequest 2 5 1, (resource-IsRequest 2 5 1, tt))
      (refl, (refl, tt))

add_task_info-IsBooked_example : IsBooked (add_task_info pair_job (task 3))
unfolding new_task_info new_job_info add_all add_task_info lookup insert
add_task_info-IsBooked_example =
    add_task_info-IsBooked pair_job (task 3) pair_job-IsBooked (resource-IsRequest 2 5 1) refl

delete_task_info-IsBooked_example :
    (ji : JobInfo) × (delete_task_info pair_job (task 2) ≡ some (ji, true))
    × IsBooked ji
    × (lookup 2 ji.tasks ≡ none)
unfolding new_task_info new_job_info add_all add_task_info lookup insert
delete_task_info-IsBooked_example =
    delete_task_info-IsBooked pair_job pair_job-IsBooked (task 2) refl

update_task_status-IsBooked_example :
    (ji : JobInfo) × (t : TaskInfo) × (update_task_status (pos 50) pair_job (task 2) running
      ≡ some (ji, t))
    × IsBooked ji
    × (lookup 2 ji.tasks ≡ some t)
    × (t.status ≡ running)
unfolding new_task_info
update_task_status-IsBooked_example =
    update_task_status-IsBooked (pos 50) pair_job (task 2) running pair_job-IsBooked
      (resource-IsRequest 2 5 1)

ready_task_num-eq_example : ready_task_num pair_job ≡ weigh_tasks ready_weight pair_job.tasks
ready_task_num-eq_example = ready_task_num-eq pair_job pair_job-IsBooked

-- The job with a minimum for the template of its tasks.
abbrev template_job : JobInfo
template_job = record pair_job {
  min_available = pos 1;
  task_min_available = (3, pos 1) ∷ [];
  task_min_available_total = pos 1;
}

template_job-IsBooked : IsBooked template_job
template_job-IsBooked =
    let b = pair_job-IsBooked in
    record {
      distinct = b.distinct;
      index_distinct = b.index_distinct;
      keyed = b.keyed;
      filed = b.filed;
      tallied = b.tallied;
      requests = b.requests;
      total_eq = b.total_eq;
      allocated_eq = b.allocated_eq;
    }

check_task_min_available_ready_iff_example :
    (check_task_min_available_ready template_job ≡ true) ↔ (
      (template_job.min_available <ℤ template_job.task_min_available_total)
      ⊎ AreReached is_ready_task template_job.task_min_available template_job.tasks)
check_task_min_available_ready_iff_example =
    check_task_min_available_ready_iff template_job template_job-IsBooked

check_task_min_available_pipelined_iff_example :
    (check_task_min_available_pipelined template_job ≡ true) ↔ (
      (template_job.min_available <ℤ template_job.task_min_available_total)
      ⊎ AreReached is_pipelined_task template_job.task_min_available template_job.tasks)
check_task_min_available_pipelined_iff_example =
    check_task_min_available_pipelined_iff template_job template_job-IsBooked

clone_job-IsBooked_example :
    IsBooked (clone_job template_job)
    × ((k : ℕ)
        → lookup k (clone_job template_job).tasks ≡ found_clone (lookup k template_job.tasks) none)
clone_job-IsBooked_example = clone_job-IsBooked template_job template_job-IsBooked
