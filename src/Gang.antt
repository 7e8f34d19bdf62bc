-- ===== src/Gang.antt =====
-- pkg/scheduler/plugins/gang/gang.go: the functions that the gang plugin registers.
use k8s_simulator.Common.{
  ℕ, zero, suc, ◌+◌, ◌-◌, ◌*◌, ◌≤◌, ◌<◌, ◌≡◌, refl, sym, ap, ◌∙◌, subst, ◌≢◌, ◌↔◌, ◌⊎◌, inl, inr,
  Bool, true, false, not, ◌&&◌, ◌||◌, Option, none, some, List, [], ◌∷◌, ◌++◌, map, arith, ltb, leb,
  ◌==◌, if◌then◌else◌, ==_refl, ==_ne, ==_iff, Bool-cases, Option-cases, length, count_if, All,
  length-append, ℤ, pos, negsuc, pos_part, neg_part, ◌+ℤ◌, ◌-ℤ◌, ◌*ℤ◌, ◌≤ℤ◌, ◌<ℤ◌, ltb_ℤ, eqb_ℤ,
  abs, min_ℤ, max_ℤ, +ℤ_parts, -ℤ_parts, eq_of_parts, int_laws, move_share, take_share,
  return_share, +ℤ-zero, -ℤ-zero, +ℤ_comm, +ℤ_assoc, +ℤ_cancel, ltb_ℤ_iff, eqb_ℤ_iff, Dict, lookup,
  insert, delete, Distinct, lookup-insert, lookup-delete, insert-Distinct, delete-Distinct,
  lookup-cons_old, lookup-cons_self, delete-insert, lookup-insert_self,
}
use k8s_simulator.Task.{TaskInfo}
use k8s_simulator.Job.{JobInfo}
use k8s_simulator.Job.Minimum.{
  ready_task_num, waiting_task_num, valid_task_num, ready, check_task_min_available,
  check_task_min_available_ready, check_task_min_available_pipelined,
}
use k8s_simulator.Session.{ValidateResult}
pub mod Preemption
pub mod Order

-- Permit and Reject of plugins/util/util.go.
abbrev pub permit : ℤ
permit = pos 1

abbrev pub reject : ℤ
reject = negsuc 0

-- The reasons NotEnoughPodsOfTask and NotEnoughPods.
abbrev not_enough_pods_of_task : ℕ
not_enough_pods_of_task = 1

abbrev not_enough_pods : ℕ
not_enough_pods = 2

-- validJobFn
unfoldable pub valid_job_fn : JobInfo → Option ValidateResult
valid_job_fn job =
    if not (check_task_min_available job)
    then some (record { pass = false; reason = not_enough_pods_of_task })
    else if ltb_ℤ (pos (valid_task_num job)) job.min_available
    then some (record { pass = false; reason = not_enough_pods })
    else none

-- The loop of preemptableFn. `occupied` is jobOccupiedMap; a job that the session does not have is a
-- nil pointer, whose UID cannot be read.
unfoldable pub occupancy : JobInfo → Dict ℤ → ℤ
occupancy job occupied = elim (lookup job.uid occupied) [
  | none ↦ pos (ready_task_num job)
  | some n ↦ n
]

unfoldable pub collect_victims : Dict JobInfo → List TaskInfo → Dict ℤ → Option (List TaskInfo)
collect_victims jobs [] occupied = some []
collect_victims jobs (p ∷ ps) occupied = elim (lookup p.job jobs) [
  | none ↦ none
  | some job ↦
      let n = occupancy job occupied in
      let spare = ltb_ℤ job.min_available n in
      elim (collect_victims jobs ps (insert job.uid (if spare then n -ℤ pos 1 else n) occupied)) [
        | none ↦ none
        | some victims ↦ some (if spare then p ∷ victims else victims)
      ]
]

-- preemptableFn, which is registered for reclaiming too; the preemptor is not looked at.
unfoldable pub preemptable_fn : Dict JobInfo → List TaskInfo → Option (List TaskInfo × ℤ)
preemptable_fn jobs preemptees = elim (collect_victims jobs preemptees []) [
  | none ↦ none
  | some victims ↦ some (victims, permit)
]

-- jobOrderFn: a job that is ready comes after one that is not.
unfoldable pub job_order_fn : JobInfo → JobInfo → ℤ
job_order_fn l r =
    if ready l && ready r
    then pos 0
    else if ready l
    then pos 1
    else if ready r
    then negsuc 0
    else pos 0

-- The function registered by AddJobReadyFn, pipelinedFn and jobStarvingFn.
unfoldable pub job_ready_fn : JobInfo → Bool
job_ready_fn ji = check_task_min_available_ready ji && ready ji

unfoldable pub pipelined_fn : JobInfo → ℤ
pipelined_fn ji =
    if check_task_min_available_pipelined ji
      && not (ltb_ℤ (pos (waiting_task_num ji + ready_task_num ji)) ji.min_available)
    then permit
    else reject

unfoldable pub job_starving_fn : JobInfo → Bool
job_starving_fn ji =
    check_task_min_available_pipelined ji
    && ltb_ℤ (pos (waiting_task_num ji + ready_task_num ji)) ji.min_available
