-- ===== src/Gang/Preemption.antt =====
-- The gang plugin lets no job fall below its minimum.
use k8s_simulator.Common.{
  ℕ, suc, ◌≡◌, refl, sym, subst, ◌≢◌, ◌⊎◌, inl, inr, Bool, true, false, some, List, [], ◌∷◌, arith,
  ◌==◌, if◌then◌else◌, ==_iff, Bool-cases, count_if, All, ℤ, pos, ◌+ℤ◌, ◌-ℤ◌, ◌≤ℤ◌, ltb_ℤ, +ℤ_parts,
  -ℤ_parts, Dict, lookup, insert, lookup-insert,
}
use k8s_simulator.Task.{TaskInfo}
use k8s_simulator.Job.{JobInfo}
use k8s_simulator.Job.Minimum.{ready_task_num}
use k8s_simulator.Gang.{permit, occupancy, collect_victims, preemptable_fn}

-- The session files every job under its UID.
abbrev pub AreFiled : Dict JobInfo → Type 0
AreFiled jobs = (k : ℕ) (job : JobInfo) → lookup k jobs ≡ some job → job.uid ≡ k

-- The session has the job of every task.
abbrev pub HaveJobs : Dict JobInfo → List TaskInfo → Type 0
HaveJobs jobs ts = All (λ t. (job : JobInfo) × (lookup t.job jobs ≡ some job)) ts

-- How many of the tasks are of a job.
abbrev pub of_job : ℕ → List TaskInfo → ℕ
of_job k ts = count_if (λ t. t.job == k) ts

-- None of the tasks is of the job, or with all of them gone the job keeps its minimum.
abbrev pub Spares : JobInfo → ℤ → List TaskInfo → Type 0
Spares job n ts = (of_job job.uid ts ≡ 0) ⊎ (pos (of_job job.uid ts) +ℤ job.min_available ≤ℤ n)

occupancy-insert_own :
    (job : JobInfo) (n : ℤ) (occupied : Dict ℤ) → occupancy job (insert job.uid n occupied) ≡ n
unfolding occupancy
occupancy-insert_own job n occupied = ground (arith, lookup-insert job.uid job.uid n occupied)

occupancy-insert_other :
    (job other : JobInfo) (n : ℤ) (occupied : Dict ℤ)
    → other.uid ≢ job.uid
    → occupancy job (insert other.uid n occupied) ≡ occupancy job occupied
unfolding occupancy
occupancy-insert_other job other n occupied ne =
    ground (arith, lookup-insert other.uid job.uid n occupied)

-- One step of the loop for a task of the job, and for a task of another one.
own_step :
    (p : TaskInfo) (job : JobInfo) (n : ℤ) (vs : List TaskInfo)
    → p.job ≡ job.uid
    → Spares job (if ltb_ℤ job.min_available n then n -ℤ pos 1 else n) vs
    → Spares job n (if ltb_ℤ job.min_available n then p ∷ vs else vs)
own_step p job n vs e h = ground (
  arith,
  -ℤ_parts n (pos 1),
  +ℤ_parts (pos (of_job job.uid vs)) job.min_available,
  +ℤ_parts (pos (suc (of_job job.uid vs))) job.min_available,
)

other_count :
    (p : TaskInfo) (k : ℕ) (vs : List TaskInfo) → p.job ≢ k → of_job k (p ∷ vs) ≡ of_job k vs
other_count p k vs ne = ground arith

other_step :
    (p : TaskInfo) (job : JobInfo) (n : ℤ) (vs : List TaskInfo) (taken : Bool)
    → p.job ≢ job.uid
    → Spares job n vs
    → Spares job n (if taken then p ∷ vs else vs)
other_step p job n vs true ne h =
    subst (λ c. (c ≡ 0) ⊎ (pos c +ℤ job.min_available ≤ℤ n)) (sym (other_count p job.uid vs ne)) h
other_step p job n vs false ne h = h

-- `occupied` after a task of a job has been looked at.
abbrev after : JobInfo → Dict ℤ → Dict ℤ
after owner occupied =
    let n = occupancy owner occupied in
    insert owner.uid (if ltb_ℤ owner.min_available n then n -ℤ pos 1 else n) occupied

abbrev StepSpares : JobInfo → JobInfo → TaskInfo → Dict ℤ → List TaskInfo → Type 0
StepSpares job owner p occupied vs =
    Spares job (occupancy job (after owner occupied)) vs
    → Spares job (occupancy job occupied)
        (if ltb_ℤ owner.min_available (occupancy owner occupied) then p ∷ vs else vs)

own_StepSpares :
    (job : JobInfo) (p : TaskInfo) (occupied : Dict ℤ) (vs : List TaskInfo)
    → p.job ≡ job.uid
    → StepSpares job job p occupied vs
own_StepSpares job p occupied vs e h =
    own_step p job (occupancy job occupied) vs e
      (subst (λ m. Spares job m vs) (occupancy-insert_own job _ occupied) h)

other_StepSpares :
    (job owner : JobInfo) (p : TaskInfo) (occupied : Dict ℤ) (vs : List TaskInfo)
    → p.job ≢ job.uid
    → owner.uid ≡ p.job
    → StepSpares job owner p occupied vs
other_StepSpares job owner p occupied vs ne e h =
    other_step p job (occupancy job occupied) vs
      (ltb_ℤ owner.min_available (occupancy owner occupied)) ne
      (subst (λ m. Spares job m vs)
        (occupancy-insert_other job owner _ occupied (subst (λ u. u ≢ job.uid) (sym e) ne)) h)

module _ (jobs : Dict JobInfo) (filed : AreFiled jobs) (job : JobInfo)
    (there : lookup job.uid jobs ≡ some job) where
  one_StepSpares :
      (p : TaskInfo) (owner : JobInfo) (occupied : Dict ℤ) (vs : List TaskInfo)
      → lookup p.job jobs ≡ some owner
      → StepSpares job owner p occupied vs
  one_StepSpares p owner occupied vs found = elim (Bool-cases (p.job == job.uid)) [
    | inl same ↦
        let e = (==_iff p.job job.uid).0 same in
        let found' : lookup job.uid jobs ≡ some owner =
          subst (λ k. lookup k jobs ≡ some owner) e found in
        let same_job : owner ≡ job = cc in
        subst (λ o. StepSpares job o p occupied vs) (sym same_job)
          (own_StepSpares job p occupied vs e)
    | inr apart ↦
        let ne : p.job ≢ job.uid = ground arith in
        other_StepSpares job owner p occupied vs ne (filed p.job owner found)
  ]

  collect_victims-Spares :
      (ps : List TaskInfo) (occupied : Dict ℤ)
      → HaveJobs jobs ps
      → (vs : List TaskInfo) × (collect_victims jobs ps occupied ≡ some vs)
        × Spares job (occupancy job occupied) vs
  unfolding collect_victims
  collect_victims-Spares [] occupied h = ([], refl, inl refl)
  collect_victims-Spares (p ∷ ps) occupied ((owner, found), h) =
      let n = occupancy owner occupied in
      let spare = ltb_ℤ owner.min_available n in
      let (vs, run, kept) = collect_victims-Spares ps (after owner occupied) h in
      (
        if spare then p ∷ vs else vs,
        rw (collect_victims, found, run) refl,
        one_StepSpares p owner occupied vs found kept,
      )

  -- preemptableFn of the gang plugin, where the session files its jobs under their UIDs and has the job
  -- of every preemptee, does not panic. For each job of the session, either no victim is one of its
  -- tasks, or its number of ready tasks is at least its minimum plus the number of its victims.
  pub preemptable_fn-Spares :
      (preemptees : List TaskInfo)
      → HaveJobs jobs preemptees
      → (vs : List TaskInfo) × (preemptable_fn jobs preemptees ≡ some (vs, permit))
        × Spares job (pos (ready_task_num job)) vs
  unfolding preemptable_fn occupancy lookup
  preemptable_fn-Spares preemptees h =
      let (vs, run, kept) = collect_victims-Spares preemptees [] h in
      (vs, rw (preemptable_fn, run) refl, kept)
