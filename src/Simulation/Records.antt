-- ===== src/Simulation/Records.antt =====
-- The jobs' records of the tasks that end: none is lost.
use k8s_simulator.Common.{
  ℕ, ◌≡◌, refl, sym, ap, ◌∙◌, subst, inl, inr, Bool, true, false, Option, none, some, arith, ◌==◌,
  Bool-cases, Option-cases, Dict, lookup, insert, lookup-insert, Returns, Returns-some,
}
use k8s_simulator.Task.{TaskInfo, binding, status_code}
use k8s_simulator.Job.{JobInfo}
use k8s_simulator.Simulation.{write_in_job, drop_from_binding}

abbrev pub listed : Option TaskInfo → Bool
listed none = false
listed (some t) = true

abbrev pub job_lists : Option JobInfo → ℕ → Bool
job_lists none u = false
job_lists (some job) u = listed (lookup u job.tasks)

-- Does a job list a task?
abbrev pub has_task : Dict JobInfo → ℕ → ℕ → Bool
has_task jobs j u = job_lists (lookup j jobs) u

-- Every task that is listed before is listed after.
abbrev pub KeepsTasks : Dict JobInfo → Dict JobInfo → Type 0
KeepsTasks jobs jobs' = (j u : ℕ) → has_task jobs j u ≡ true → has_task jobs' j u ≡ true

insert-KeepsTasks :
    (jobs : Dict JobInfo) (b : ℕ) (job job' : JobInfo)
    → lookup b jobs ≡ some job
    → ((u : ℕ) → listed (lookup u job.tasks) ≡ true → listed (lookup u job'.tasks) ≡ true)
    → KeepsTasks jobs (insert b job' jobs)
insert-KeepsTasks jobs b job job' e keep j u h = elim (Bool-cases (b == j)) [
  | inl here ↦
      let same : b ≡ j = ground arith in
      let old : lookup j jobs ≡ some job = subst (λ i. lookup i jobs ≡ some job) same e in
      let before : listed (lookup u job.tasks) ≡ true = sym (ap (λ o. job_lists o u) old) ∙ h in
      let new : lookup j (insert b job' jobs) ≡ some job' =
        rw (lookup-insert b j job' jobs, here) refl in
      ap (λ o. job_lists o u) new ∙ keep u before
  | inr other ↦
      let new : lookup j (insert b job' jobs) ≡ lookup j jobs =
        rw (lookup-insert b j job' jobs, other) refl in
      ap (λ o. job_lists o u) new ∙ h
]

set_task-listed :
    (k u : ℕ) (t : TaskInfo) (d : Dict TaskInfo)
    → listed (lookup u d) ≡ true
    → listed (lookup u (insert k t d)) ≡ true
set_task-listed k u t d h = elim (Bool-cases (k == u)) [
  | inl here ↦ rw (lookup-insert k u t d, here) refl
  | inr other ↦ rw (lookup-insert k u t d, other) h
]

pub write_in_job-KeepsTasks :
    (jobs : Dict JobInfo) (t : TaskInfo) (f : TaskInfo → TaskInfo)
    → has_task jobs t.job t.uid ≡ true
    → Returns (KeepsTasks jobs) (write_in_job jobs t f)
unfolding write_in_job
write_in_job-KeepsTasks jobs t f h = elim (Option-cases (lookup t.job jobs)) [
  | inl missing ↦
      let lost : false ≡ true = sym (ap (λ o. job_lists o t.uid) missing) ∙ h in absurd cc
  | inr (job, e) ↦ elim (Option-cases (lookup t.uid job.tasks)) [
    | inl missing ↦
        let found : listed (lookup t.uid job.tasks) ≡ true =
          sym (ap (λ o. job_lists o t.uid) e) ∙ h in
        let lost : false ≡ true = sym (ap listed missing) ∙ found in absurd cc
    | inr (u, there) ↦
        rw (write_in_job, e, there)
          (Returns-some _
            (insert-KeepsTasks jobs t.job job _ e λ i. set_task-listed t.uid i (f u) job.tasks))
  ]
]

pub drop_from_binding-KeepsTasks :
    (jobs : Dict JobInfo) (t : TaskInfo) → KeepsTasks jobs (drop_from_binding t jobs)
unfolding drop_from_binding
drop_from_binding-KeepsTasks jobs t j u h = elim (Option-cases (lookup t.job jobs)) [
  | inl missing ↦ rw (drop_from_binding, missing) h
  | inr (job, e) ↦ elim (Option-cases (lookup (status_code binding) job.task_status_index)) [
    | inl none_bound ↦ rw (drop_from_binding, e, none_bound) h
    | inr (m, bound) ↦
        rw (drop_from_binding, e, bound) (insert-KeepsTasks jobs t.job job _ e (λ i w. w) j u h)
  ]
]
