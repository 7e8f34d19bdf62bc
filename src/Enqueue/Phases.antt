-- ===== src/Enqueue/Phases.antt =====
-- What the enqueue action makes of a job.
use k8s_simulator.Common.{
  ℕ, ◌≡◌, refl, sym, ap, ◌∙◌, ◌⊎◌, inl, inr, Bool, true, false, Option, none, some, ◌∷◌, arith,
  ◌==◌, if◌then◌else◌, Bool-cases, Option-cases, ℤ, Dict, lookup, insert, lookup-insert, Returns,
  Returns-some,
}
use mathlib.Core.Logic.{∥∥₁_elim, ∥∥₁_map}
use mathlib.Core.Bool.{Bool-set}
use mathlib.Core.List.{Mem, Perm, mem-cons_self, mem-cons_of_mem}
use mathlib.Core.List.Perm
use k8s_simulator.Job.{JobInfo, PodGroup, is_pending}
use k8s_simulator.Queue.{PriorityQueue}
use k8s_simulator.Enqueue.{
  EnqueueSession, EnqueueState, start_waiting, set_inqueue, admit_job, job_enqueued, is_enqueueable,
  enqueue_job,
}

abbrev pub has_group : JobInfo → Bool
has_group job = elim job.pod_group [ none ↦ false | some pg ↦ true ]

-- What a job is once the action has moved it.
abbrev pub moved_in : JobInfo → Option JobInfo
moved_in job = elim job.pod_group [ none ↦ none | some pg ↦ some (set_inqueue job pg) ]

-- A job that the action may admit: one that was pending, and has waited since `now` or before.
pub record IsOffer (jobs : Dict JobInfo) (now : ℕ → ℤ) (x : JobInfo) : Type 0 where
  pub job : JobInfo
  pub found : lookup x.uid jobs ≡ some job
  pub waiting : x ≡ start_waiting now job
  pub is_new : is_pending job ≡ true

-- What becomes of the job under a key: it waits, or it was pending and is in its queue.
abbrev pub Outcome : Dict JobInfo → (ℕ → ℤ) → ℕ → JobInfo → Type 0
Outcome jobs now k j =
    (lookup k jobs ≡ some (start_waiting now j))
    ⊎ ((is_pending j ≡ true) × (lookup k jobs ≡ moved_in (start_waiting now j)))

-- Every job of the session has a PodGroup.
abbrev pub HaveGroups : Dict JobInfo → Type 0
HaveGroups old = (k : ℕ) (j : JobInfo) → lookup k old ≡ some j → has_group j ≡ true

offer-has_group :
    (old : Dict JobInfo) (now : ℕ → ℤ) (x : JobInfo)
    → HaveGroups old
    → ∥ IsOffer old now x ∥₁
    → has_group x ≡ true
unfolding start_waiting
offer-has_group old now x g o =
    ∥∥₁_elim o (Bool-set (has_group x) true)
      λ f. rw f.waiting (same_group f.job ∙ g x.uid f.job f.found)
  where
    same_group : (j : JobInfo) → has_group (start_waiting now j) ≡ has_group j
    same_group j = ground arith

by_key : {x y : JobInfo} {o : Option JobInfo} → o ≡ some x → o ≡ some y → x ≡ y
by_key p q = cc

moved_group :
    (x : JobInfo) (pg : PodGroup) → x.pod_group ≡ some pg → moved_in x ≡ some (set_inqueue x pg)
moved_group x pg e = ground arith

module _ {P : Type 0} where
  pub record IsServing (old : Dict JobInfo) (now : ℕ → ℤ) (st : EnqueueState P) : Type 0 where
    pub offered :
        (k : ℕ) (q : PriorityQueue JobInfo)
        → lookup k st.jobs_map ≡ some q
        → (x : JobInfo) → Mem x q.items
        → ∥ IsOffer old now x ∥₁
    pub outcome : (k : ℕ) (j : JobInfo) → lookup k old ≡ some j → ∥ Outcome st.jobs now k j ∥₁

  -- The state after a job was admitted, whatever it was that moved it.
  admitted-IsServing :
      (old : Dict JobInfo) (now : ℕ → ℤ) (st : EnqueueState P) (x : JobInfo) (pg : PodGroup) (p : P)
      → IsServing old now st
      → ∥ IsOffer old now x ∥₁
      → x.pod_group ≡ some pg
      → IsServing old now
          (record st { plugins = p; jobs = insert x.uid (set_inqueue x pg) st.jobs })
  admitted-IsServing old now st x pg p v o group = record {
    offered = v.offered;
    outcome = λ k j e. elim (Bool-cases (x.uid == k)) [
      | inl here ↦
          let same_key : x.uid ≡ k = ground arith in
          ∥∥₁_map o λ f.
            let found : lookup x.uid old ≡ some j = rw same_key e in
            let same_job : f.job ≡ j = by_key f.found found in
            let same : x ≡ start_waiting now j = f.waiting ∙ ap (start_waiting now) same_job in
            let new : lookup k (insert x.uid (set_inqueue x pg) st.jobs) ≡ some (set_inqueue x pg) =
              rw (lookup-insert x.uid k (set_inqueue x pg) st.jobs, here) refl in
            inr (rw same_job at f.is_new, new ∙ sym (moved_group x pg group) ∙ ap moved_in same)
      | inr other ↦
          let kept : lookup k (insert x.uid (set_inqueue x pg) st.jobs) ≡ lookup k st.jobs =
            rw (lookup-insert x.uid k (set_inqueue x pg) st.jobs, other) refl in
          rw kept (v.outcome k j e)
    ];
  }

  admit_job-eq :
      (ssn : EnqueueSession P) (st : EnqueueState P) (x : JobInfo) (pg : PodGroup)
      → x.pod_group ≡ some pg
      → admit_job ssn st x
        ≡ some (if is_enqueueable ssn st.plugins x pg then enqueue_job ssn st x pg else st)
  unfolding admit_job
  admit_job-eq ssn st x pg e = ground arith

  -- JobEnqueueable or not, a job that was offered keeps the session in order.
  pub admit_job-IsServing :
      (ssn : EnqueueSession P) (old : Dict JobInfo) (now : ℕ → ℤ) (st : EnqueueState P)
      (x : JobInfo)
      → HaveGroups old
      → IsServing old now st
      → ∥ IsOffer old now x ∥₁
      → Returns
          (λ (st' : EnqueueState P).
            IsServing old now st' × (st'.queues ≡ st.queues) × (st'.jobs_map ≡ st.jobs_map))
          (admit_job ssn st x)
  unfolding enqueue_job
  admit_job-IsServing ssn old now st x g v o = elim (Option-cases x.pod_group) [
    | inl missing ↦ let has = offer-has_group old now x g o in absurd (ground arith)
    | inr (pg, group) ↦
        let p = job_enqueued ssn x st.plugins in
        let new = admitted-IsServing old now st x pg p v o group in
        rw (admit_job-eq ssn st x pg group)
          (elim (Bool-cases (is_enqueueable ssn st.plugins x pg)) [
            | inl passed ↦ rw passed (Returns-some _ (new, refl, refl))
            | inr refused ↦ rw refused (Returns-some _ (v, refl, refl))
          ])
  ]

  -- A job that is popped was offered, and so were the jobs that stay behind.
  pub popped-IsServing :
      (old : Dict JobInfo) (now : ℕ → ℤ) (st : EnqueueState P) (k : ℕ)
      (q rest : PriorityQueue JobInfo) (x : JobInfo)
      → IsServing old now st
      → lookup k st.jobs_map ≡ some q
      → Perm (x ∷ rest.items) q.items
      → IsServing old now (record st { jobs_map = insert k rest st.jobs_map })
        × ∥ IsOffer old now x ∥₁
  popped-IsServing old now st k q rest x v e same =
      let inside =
        λ (y : JobInfo) (m : Mem y (x ∷ rest.items)). v.offered k q e y ((Perm.mem_iff same).0 m) in
      (
        record {
          offered = λ i r f y m. elim (Bool-cases (k == i)) [
            | inl here ↦
                let same_rest : r ≡ rest = ground (arith, lookup-insert k i rest st.jobs_map) in
                inside y (mem-cons_of_mem x (rw same_rest at m))
            | inr other ↦ v.offered i r (ground (arith, lookup-insert k i rest st.jobs_map)) y m
          ];
          outcome = v.outcome;
        },
        inside x mem-cons_self,
      )
