-- ===== src/Job/Minimum.antt =====
-- pkg/scheduler/api/job_info.go: how many tasks of a job are ready, waiting or valid, and whether they
-- meet the minima of the gang.
use k8s_simulator.Common.{
  ℕ, suc, ◌+◌, Bool, true, false, not, ◌&&◌, ◌||◌, none, some, [], ◌∷◌, if◌then◌else◌, length, ℤ,
  pos, ltb_ℤ, Dict, lookup, insert,
}
use k8s_simulator.Resource.{is_empty}
use k8s_simulator.Task.{
  Status, pending, allocated, pipelined, binding, bound, running, succeeded, status_of, TaskInfo,
  allocated_status,
}
use k8s_simulator.Job.{JobInfo, bucket}

unfoldable pub count_best_effort : Dict TaskInfo → ℕ
count_best_effort [] = 0
count_best_effort ((k, t) ∷ d) = (if t.best_effort then 1 else 0) + count_best_effort d

-- ReadyTaskNum
unfoldable pub ready_task_num : JobInfo → ℕ
ready_task_num ji =
    length (bucket bound ji.task_status_index)
    + length (bucket binding ji.task_status_index)
    + length (bucket running ji.task_status_index)
    + length (bucket allocated ji.task_status_index)
    + length (bucket succeeded ji.task_status_index)
    + count_best_effort (bucket pending ji.task_status_index)

-- WaitingTaskNum
unfoldable pub waiting_task_num : JobInfo → ℕ
waiting_task_num ji = length (bucket pipelined ji.task_status_index)

-- `status == Succeeded` and so on.
unfoldable pub is_succeeded : Status → Bool
is_succeeded succeeded = true
is_succeeded _ = false

unfoldable pub is_waiting : Status → Bool
is_waiting pipelined = true
is_waiting _ = false

unfoldable pub is_unscheduled : Status → Bool
is_unscheduled pending = true
is_unscheduled _ = false

-- The tests of ValidTaskNum and CheckTaskMinAvailable, of CheckTaskMinAvailableReady and of
-- CheckTaskMinAvailablePipelined on a status.
unfoldable pub valid_status : Status → Bool
valid_status s = allocated_status s || (is_succeeded s || (is_waiting s || is_unscheduled s))

unfoldable pub ready_status : Status → Bool
ready_status s = allocated_status s || is_succeeded s

unfoldable pub pipelined_status : Status → Bool
pipelined_status s = allocated_status s || (is_succeeded s || is_waiting s)

-- ValidTaskNum
unfoldable pub count_valid : Dict (Dict TaskInfo) → ℕ
count_valid [] = 0
count_valid ((code, tasks) ∷ idx) =
    (if valid_status (status_of code) then length tasks else 0) + count_valid idx

unfoldable pub valid_task_num : JobInfo → ℕ
valid_task_num ji = count_valid ji.task_status_index

-- Ready
unfoldable pub ready : JobInfo → Bool
ready ji = not (ltb_ℤ (pos (ready_task_num ji)) ji.min_available)

-- `m[k]++` on a map of counts.
unfoldable pub increment : ℕ → Dict ℕ → Dict ℕ
increment k m = insert k (elim (lookup k m) [ none ↦ 1 | some c ↦ suc c ]) m

-- The inner loops: one count for each task of the map that passes the test, under its template.
unfoldable pub count_specs : (TaskInfo → Bool) → Dict TaskInfo → Dict ℕ → Dict ℕ
count_specs test [] m = m
count_specs test ((k, t) ∷ d) m =
    count_specs test d (if test t then increment t.pod.task_spec m else m)

-- The outer loop, over the index: `test` says which tasks count under a status.
unfoldable pub occupied_map : (Status → TaskInfo → Bool) → Dict (Dict TaskInfo) → Dict ℕ → Dict ℕ
occupied_map test [] m = m
occupied_map test ((code, tasks) ∷ idx) m =
    occupied_map test idx (count_specs (test (status_of code)) tasks m)

-- Tasks that count in CheckTaskMinAvailable, in CheckTaskMinAvailableReady, where pending tasks
-- with an empty request count too, and in CheckTaskMinAvailablePipelined.
unfoldable pub counts_valid : Status → TaskInfo → Bool
counts_valid s t = valid_status s

unfoldable pub counts_ready : Status → TaskInfo → Bool
counts_ready s t = ready_status s || (is_unscheduled s && is_empty t.init_resreq)

unfoldable pub counts_pipelined : Status → TaskInfo → Bool
counts_pipelined s t = pipelined_status s || (is_unscheduled s && is_empty t.init_resreq)

-- The last loops. CheckTaskMinAvailable wants an entry for the template, even if the minimum is 0.
unfoldable pub all_present : Dict ℤ → Dict ℕ → Bool
all_present [] actual = true
all_present ((spec, m) ∷ d) actual =
    let rest = all_present d actual in
    elim (lookup spec actual) [
      | none ↦ false
      | some act ↦ if ltb_ℤ (pos act) m then false else rest
    ]

unfoldable pub all_reached : Dict ℤ → Dict ℕ → Bool
all_reached [] occupied = true
all_reached ((spec, m) ∷ d) occupied =
    let rest = all_reached d occupied in
    if ltb_ℤ (pos (elim (lookup spec occupied) [ none ↦ 0 | some c ↦ c ])) m then false else rest

-- CheckTaskMinAvailable, CheckTaskMinAvailableReady and CheckTaskMinAvailablePipelined
unfoldable pub check_task_min_available : JobInfo → Bool
check_task_min_available ji =
    if ltb_ℤ ji.min_available ji.task_min_available_total
    then true
    else all_present ji.task_min_available (occupied_map counts_valid ji.task_status_index [])

unfoldable pub check_task_min_available_ready : JobInfo → Bool
check_task_min_available_ready ji =
    if ltb_ℤ ji.min_available ji.task_min_available_total
    then true
    else all_reached ji.task_min_available (occupied_map counts_ready ji.task_status_index [])

unfoldable pub check_task_min_available_pipelined : JobInfo → Bool
check_task_min_available_pipelined ji =
    if ltb_ℤ ji.min_available ji.task_min_available_total
    then true
    else all_reached ji.task_min_available (occupied_map counts_pipelined ji.task_status_index [])
