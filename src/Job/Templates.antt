-- ===== src/Job/Templates.antt =====
-- The minima of the gang for each template of tasks.
use k8s_simulator.Common.{
  ℕ, suc, ◌+◌, ◌≡◌, refl, subst, ◌↔◌, ◌⊎◌, inl, inr, Bool, true, false, ◌&&◌, none, some, [], ◌∷◌,
  arith, ◌==◌, if◌then◌else◌, Bool-cases, All, ℤ, pos, ◌≤ℤ◌, ◌<ℤ◌, ltb_ℤ, ltb_ℤ_iff, Dict, lookup,
  lookup-insert,
}
use k8s_simulator.Resource.{is_empty}
use k8s_simulator.Task.{
  Status, pending, allocated, pipelined, binding, bound, running, releasing, succeeded, failed,
  unknown, status_of, allocated_status, TaskInfo,
}
use k8s_simulator.Job.{JobInfo}
use k8s_simulator.Job.Minimum.{
  increment, count_specs, occupied_map, ready_status, pipelined_status, is_succeeded, is_waiting,
  is_unscheduled, counts_ready, counts_pipelined, all_reached, check_task_min_available_ready,
  check_task_min_available_pipelined,
}
use k8s_simulator.Job.Tally.{Weight, weigh, tally, weigh_tasks}
use k8s_simulator.Job.Books.{IsBooked}
use k8s_simulator.Job.Counts.{one_if}

-- A task counts for a template if it passes the test and is made from it.
abbrev pub template_weight : (Status → TaskInfo → Bool) → ℕ → Weight
template_weight test spec s t = one_if (test s t && (t.pod.task_spec == spec))

abbrev count_of : ℕ → Dict ℕ → ℕ
count_of spec m = elim (lookup spec m) [ none ↦ 0 | some c ↦ c ]

count_of-increment :
    (spec k : ℕ) (m : Dict ℕ) → count_of spec (increment k m) ≡ count_of spec m + one_if (k == spec)
unfolding increment
count_of-increment spec k m =
    ground (arith, lookup-insert k spec (elim (lookup k m) [ none ↦ 1 | some c ↦ suc c ]) m)

module _ (test : Status → TaskInfo → Bool) (spec : ℕ) where
  count_of-count_specs :
      (s : Status) (d : Dict TaskInfo) (m : Dict ℕ)
      → count_of spec (count_specs (test s) d m)
        ≡ count_of spec m + weigh (template_weight test spec) s d
  unfolding count_specs weigh
  count_of-count_specs s [] m = omega arith
  count_of-count_specs s ((k, t) ∷ d) m = ground (
    arith,
    count_of-count_specs s d m,
    count_of-count_specs s d (increment t.pod.task_spec m),
    count_of-increment spec t.pod.task_spec m,
  )

  count_of-occupied_map :
      (idx : Dict (Dict TaskInfo)) (m : Dict ℕ)
      → count_of spec (occupied_map test idx m)
        ≡ count_of spec m + tally (template_weight test spec) idx
  unfolding occupied_map tally
  count_of-occupied_map [] m = omega arith
  count_of-occupied_map ((code, d) ∷ idx) m = omega (
    arith,
    count_of-occupied_map idx (count_specs (test (status_of code)) d m),
    count_of-count_specs (status_of code) d m,
  )

-- Every minimum of the map is met by the number of tasks that count for its template.
abbrev pub AreReached : (Status → TaskInfo → Bool) → Dict ℤ → Dict TaskInfo → Type 0
AreReached test minima tasks =
    All (λ e. e.1 ≤ℤ pos (weigh_tasks (template_weight test e.0) tasks)) minima

module _ (test : Status → TaskInfo → Bool) (ji : JobInfo) (b : IsBooked ji) where
  counted :
      (spec : ℕ)
      → count_of spec (occupied_map test ji.task_status_index [])
        ≡ weigh_tasks (template_weight test spec) ji.tasks
  unfolding lookup
  counted spec = omega (
    arith,
    count_of-occupied_map test spec ji.task_status_index [],
    b.tallied (template_weight test spec),
  )

  all_reached_iff :
      (minima : Dict ℤ)
      → (all_reached minima (occupied_map test ji.task_status_index []) ≡ true)
        ↔ AreReached test minima ji.tasks
  unfolding all_reached
  all_reached_iff [] = (λ h. tt, λ h. refl)
  all_reached_iff ((spec, m) ∷ minima) =
      let (fwd, bwd) = all_reached_iff minima in
      let c = weigh_tasks (template_weight test spec) ji.tasks in
      rw (counted spec) (λ h. (first c m _ h, fwd (others c m _ h)), λ h. both c m _ h.0 (bwd h.1))
    where
      first :
          (c : ℕ) (m : ℤ) (r : Bool) → (if ltb_ℤ (pos c) m then false else r) ≡ true → m ≤ℤ pos c
      first c m r h = ground arith

      others : (c : ℕ) (m : ℤ) (r : Bool) → (if ltb_ℤ (pos c) m then false else r) ≡ true → r ≡ true
      others c m r h = ground arith

      both :
          (c : ℕ) (m : ℤ) (r : Bool)
          → m ≤ℤ pos c
          → r ≡ true
          → (if ltb_ℤ (pos c) m then false else r) ≡ true
      both c m r h e = ground arith

  skip_or :
      (r : Bool) (R : Type 0)
      → ((r ≡ true) ↔ R)
      → ((if ltb_ℤ ji.min_available ji.task_min_available_total then true else r) ≡ true)
        ↔ ((ji.min_available <ℤ ji.task_min_available_total) ⊎ R)
  skip_or r R (fwd, bwd) = elim (Bool-cases (ltb_ℤ ji.min_available ji.task_min_available_total)) [
    | inl y ↦
        rw y (λ h. inl ((ltb_ℤ_iff ji.min_available ji.task_min_available_total).0 y), λ h. refl)
    | inr n ↦ rw n (λ h. inr (fwd h), λ h. elim h [ inl l ↦ ground arith | inr x ↦ bwd x ])
  ]

-- Which tasks count for a gang that is ready, and for one that waits for resources.
abbrev pub is_ready_task : Status → TaskInfo → Bool
is_ready_task bound t = true
is_ready_task binding t = true
is_ready_task running t = true
is_ready_task allocated t = true
is_ready_task succeeded t = true
is_ready_task pending t = is_empty t.init_resreq
is_ready_task _ t = false

abbrev pub is_pipelined_task : Status → TaskInfo → Bool
is_pipelined_task pipelined t = true
is_pipelined_task s t = is_ready_task s t

ready_eq : counts_ready ≡ is_ready_task
unfolding counts_ready ready_status allocated_status is_succeeded is_unscheduled
ready_eq = λ i s t. each s t i
  where
    each : (s : Status) (t : TaskInfo) → counts_ready s t ≡ is_ready_task s t
    each pending t = refl
    each allocated t = refl
    each pipelined t = refl
    each binding t = refl
    each bound t = refl
    each running t = refl
    each releasing t = refl
    each succeeded t = refl
    each failed t = refl
    each unknown t = refl

pipelined_eq : counts_pipelined ≡ is_pipelined_task
unfolding counts_pipelined pipelined_status allocated_status is_succeeded is_waiting is_unscheduled
pipelined_eq = λ i s t. each s t i
  where
    each : (s : Status) (t : TaskInfo) → counts_pipelined s t ≡ is_pipelined_task s t
    each pending t = refl
    each allocated t = refl
    each pipelined t = refl
    each binding t = refl
    each bound t = refl
    each running t = refl
    each releasing t = refl
    each succeeded t = refl
    each failed t = refl
    each unknown t = refl

-- On a job whose books are kept, CheckTaskMinAvailableReady holds exactly when the minimum of the job is
-- below the sum of its templates' minima, or each template's minimum is met by the tasks of the template
-- that are bound, being bound, running, allocated or succeeded, or pending with an empty request.
pub check_task_min_available_ready_iff :
    (ji : JobInfo)
    → IsBooked ji
    → (check_task_min_available_ready ji ≡ true) ↔ (
        (ji.min_available <ℤ ji.task_min_available_total)
        ⊎ AreReached is_ready_task ji.task_min_available ji.tasks)
unfolding check_task_min_available_ready
check_task_min_available_ready_iff ji b = skip_or counts_ready ji b _ _ (
    subst
      (λ test.
        (all_reached ji.task_min_available (occupied_map counts_ready ji.task_status_index [])
          ≡ true)
        ↔ AreReached test ji.task_min_available ji.tasks)
      ready_eq (all_reached_iff counts_ready ji b ji.task_min_available))

-- On a job whose books are kept, CheckTaskMinAvailablePipelined holds exactly when the minimum of the job
-- is below the sum of its templates' minima, or each template's minimum is met by the tasks of the
-- template that are bound, being bound, running, allocated, succeeded or pipelined, or pending with an
-- empty request.
pub check_task_min_available_pipelined_iff :
    (ji : JobInfo)
    → IsBooked ji
    → (check_task_min_available_pipelined ji ≡ true) ↔ (
        (ji.min_available <ℤ ji.task_min_available_total)
        ⊎ AreReached is_pipelined_task ji.task_min_available ji.tasks)
unfolding check_task_min_available_pipelined
check_task_min_available_pipelined_iff ji b = skip_or counts_pipelined ji b _ _ (
    subst
      (λ test.
        (all_reached ji.task_min_available (occupied_map counts_pipelined ji.task_status_index [])
          ≡ true)
        ↔ AreReached test ji.task_min_available ji.tasks)
      pipelined_eq (all_reached_iff counts_pipelined ji b ji.task_min_available))
