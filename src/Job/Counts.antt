-- ===== src/Job/Counts.antt =====
-- What the counts of a job count: its tasks, each once, whatever the index looks like.
use k8s_simulator.Task.{status_of}
use k8s_simulator.Job.Minimum.{valid_status, count_valid, valid_task_num}
use k8s_simulator.Job.Tally.{weigh, tally}
use k8s_simulator.Common.{
  ℕ, ◌+◌, ◌≡◌, refl, ◌∙◌, Bool, ◌&&◌, ◌||◌, [], ◌∷◌, arith, ◌==◌, if◌then◌else◌, length, Dict,
}
use k8s_simulator.Task.{
  Status, status_code, pending, allocated, binding, bound, running, succeeded, TaskInfo,
  allocated_status,
}
use k8s_simulator.Job.{JobInfo, bucket}
use k8s_simulator.Job.Minimum.{
  count_best_effort, ready_task_num, is_succeeded, is_unscheduled, ready_status,
}
use k8s_simulator.Job.Index.{of_code, bucket-at}
use k8s_simulator.Job.Tally.{Weight, weigh_tasks}
use k8s_simulator.Job.Books.{IsBooked}

abbrev pub one_if : Bool → ℕ
one_if b = if b then 1 else 0

-- A task counts as ready by its status, or if it is pending and best-effort.
abbrev pub ready_weight : Weight
ready_weight s t = one_if (ready_status s || (is_unscheduled s && t.best_effort))

length-of_code :
    (c k : ℕ) (t : TaskInfo) (d : Dict TaskInfo)
    → length (of_code c ((k, t) ∷ d)) ≡ one_if (status_code t.status == c) + length (of_code c d)
unfolding of_code
length-of_code c k t d = ground arith

count_best_effort-of_code :
    (c k : ℕ) (t : TaskInfo) (d : Dict TaskInfo)
    → count_best_effort (of_code c ((k, t) ∷ d))
      ≡ one_if (status_code t.status == c && t.best_effort) + count_best_effort (of_code c d)
unfolding of_code count_best_effort
count_best_effort-of_code c k t d = ground arith

-- One task of status `s` in the six terms of ReadyTaskNum.
one_task :
    (s : Status) (best_effort : Bool)
    → one_if (status_code s == 16)
        + one_if (status_code s == 8)
        + one_if (status_code s == 32)
        + one_if (status_code s == 2)
        + one_if (status_code s == 128)
        + one_if (status_code s == 1 && best_effort)
      ≡ one_if (ready_status s || (is_unscheduled s && best_effort))
unfolding status_code ready_status is_unscheduled allocated_status is_succeeded
one_task pending be = ground arith
one_task _ be = refl

six_terms : Dict TaskInfo → ℕ
six_terms d =
    length (of_code 16 d)
    + length (of_code 8 d)
    + length (of_code 32 d)
    + length (of_code 2 d)
    + length (of_code 128 d)
    + count_best_effort (of_code 1 d)

six_terms-eq : (d : Dict TaskInfo) → six_terms d ≡ weigh_tasks ready_weight d
unfolding six_terms weigh_tasks
six_terms-eq [] = unfold of_code count_best_effort in refl
six_terms-eq ((k, t) ∷ d) = omega (
  arith,
  six_terms-eq d,
  one_task t.status t.best_effort,
  length-of_code 16 k t d,
  length-of_code 8 k t d,
  length-of_code 32 k t d,
  length-of_code 2 k t d,
  length-of_code 128 k t d,
  count_best_effort-of_code 1 k t d,
)

module _ (ji : JobInfo) (b : IsBooked ji) where
  bucket-eq : (s : Status) → bucket s ji.task_status_index ≡ of_code (status_code s) ji.tasks
  bucket-eq s = bucket-at s ji.task_status_index ∙ b.filed (status_code s)

  -- On a job whose books are kept, ReadyTaskNum counts, each once, the tasks of the job that are bound,
  -- being bound, running, allocated or succeeded, and the pending ones that are best-effort.
  pub ready_task_num-eq : ready_task_num ji ≡ weigh_tasks ready_weight ji.tasks
  unfolding ready_task_num six_terms status_code
  ready_task_num-eq =
      rw
        (
          bucket-eq bound,
          bucket-eq binding,
          bucket-eq running,
          bucket-eq allocated,
          bucket-eq succeeded,
          bucket-eq pending,
        )
        (six_terms-eq ji.tasks)

-- A task counts as valid by its status alone.
abbrev pub valid_weight : Weight
valid_weight s t = one_if (valid_status s)

weigh-valid_weight :
    (s : Status) (m : Dict TaskInfo)
    → weigh valid_weight s m ≡ (if valid_status s then length m else 0)
unfolding weigh
weigh-valid_weight s [] = ground arith
weigh-valid_weight s ((k, t) ∷ m) = ground (arith, weigh-valid_weight s m)

count_valid-eq : (idx : Dict (Dict TaskInfo)) → count_valid idx ≡ tally valid_weight idx
unfolding count_valid tally
count_valid-eq [] = refl
count_valid-eq ((code, m) ∷ idx) =
    omega (arith, weigh-valid_weight (status_of code) m, count_valid-eq idx)

-- On a job whose books are kept, ValidTaskNum counts, each once, the tasks of the job that are bound,
-- being bound, running, allocated, succeeded, pipelined or pending.
pub valid_task_num-eq :
    (ji : JobInfo) → IsBooked ji → valid_task_num ji ≡ weigh_tasks valid_weight ji.tasks
unfolding valid_task_num
valid_task_num-eq ji b = count_valid-eq ji.task_status_index ∙ b.tallied valid_weight
