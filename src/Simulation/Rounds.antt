-- ===== src/Simulation/Rounds.antt =====
-- A round of the simulation on one node: the tasks that end are gone, and the books are kept.
use k8s_simulator.Common.{
  ℕ, ◌≡◌, refl, sym, ap, ◌∙◌, subst, inl, inr, Bool, true, false, not, ◌&&◌, ◌||◌, Option, none,
  some, [], ◌∷◌, arith, ◌==◌, if◌then◌else◌, Bool-cases, ℤ, ltb_ℤ, Dict, lookup, delete, Distinct,
  lookup-delete, lookup-cons_old, lookup-cons_self, Returns, Returns-some, Returns-bind,
  Returns-map,
}
use k8s_simulator.Task.{TaskInfo, PodPhase, pod_succeeded, pod_failed}
use k8s_simulator.Job.{JobInfo}
use k8s_simulator.Node.{NodeInfo}
use k8s_simulator.Statement.Nodes.{IsNodeOf}
use k8s_simulator.Simulation.{
  give_back, end_task, end_tasks, is_running, has_failed, complete_on_node, fail_on_node,
  drop_from_binding, ended,
}
use k8s_simulator.Simulation.Endings.{give_back-remove_task, give_back-tasks}
use k8s_simulator.Simulation.Records.{
  has_task, KeepsTasks, write_in_job-KeepsTasks, drop_from_binding-KeepsTasks,
}

-- What a loop leaves of the task under a key: `picks` says which tasks end.
abbrev pub left : (TaskInfo → Bool) → Option TaskInfo → Option TaskInfo → Option TaskInfo
left picks none x = x
left picks (some t) x = if picks t then none else x

-- The tasks that a loop is still to visit stand under their pods' keys on the node, and in their jobs.
pub record AreToVisit (d : Dict TaskInfo) (jobs : Dict JobInfo) (ni : NodeInfo) : Type 0 where
  pub distinct : Distinct d
  pub keyed : (i : ℕ) (t : TaskInfo) → lookup i d ≡ some t → t.pod.key ≡ i
  pub there : (i : ℕ) (t : TaskInfo) → lookup i d ≡ some t → lookup i ni.tasks ≡ some t
  pub recorded : (i : ℕ) (t : TaskInfo) → lookup i d ≡ some t → has_task jobs t.job t.uid ≡ true

visit_next :
    (i : ℕ) (t : TaskInfo) (d : Dict TaskInfo) (jobs : Dict JobInfo) (ni : NodeInfo)
    → AreToVisit ((i, t) ∷ d) jobs ni
    → AreToVisit d jobs ni
unfolding lookup
visit_next i t d jobs ni v = record {
  distinct = v.distinct.1;
  keyed = λ j u e. v.keyed j u (lookup-cons_old i j t u d v.distinct.0 e);
  there = λ j u e. v.there j u (lookup-cons_old i j t u d v.distinct.0 e);
  recorded = λ j u e. v.recorded j u (lookup-cons_old i j t u d v.distinct.0 e);
}

other_key :
    (i j : ℕ) (u : TaskInfo) (d : Dict TaskInfo)
    → lookup i d ≡ none
    → lookup j d ≡ some u
    → (i == j) ≡ false
other_key i j u d fresh e = elim (Bool-cases (i == j)) [
  | inl here ↦
      let same : i ≡ j = ground arith in
      let lost : none ≡ some u = sym fresh ∙ (ap (λ k. lookup k d) same ∙ e) in absurd cc
  | inr other ↦ other
]

-- The task that is visited ends: the others stay.
visit_rest :
    (i : ℕ) (d : Dict TaskInfo) (jobs jobs' : Dict JobInfo) (ni ni' : NodeInfo)
    → lookup i d ≡ none
    → AreToVisit d jobs ni
    → KeepsTasks jobs jobs'
    → ((j : ℕ) → lookup j ni'.tasks ≡ (if i == j then none else lookup j ni.tasks))
    → AreToVisit d jobs' ni'
visit_rest i d jobs jobs' ni ni' fresh v keeps gone = record {
  distinct = v.distinct;
  keyed = v.keyed;
  there = λ j u e. gone j ∙ rw (other_key i j u d fresh e) (v.there j u e);
  recorded = λ j u e. keeps u.job u.uid (v.recorded j u e);
}

left_done :
    (picks : TaskInfo → Bool) (i j : ℕ) (t : TaskInfo) (d : Dict TaskInfo) (x : Option TaskInfo)
    → lookup i d ≡ none
    → picks t ≡ true
    → left picks (lookup j d) (if i == j then none else x) ≡ left picks (lookup j ((i, t) ∷ d)) x
unfolding lookup
left_done picks i j t d x fresh picked = elim (Bool-cases (i == j)) [
  | inl here ↦
      let same : i ≡ j = ground arith in
      let at : lookup j d ≡ none = subst (λ k. lookup k d ≡ none) same fresh in
      rw (here, at, picked) refl
  | inr other ↦ rw other refl
]

left_kept :
    (picks : TaskInfo → Bool) (i j : ℕ) (t : TaskInfo) (d : Dict TaskInfo) (x : Option TaskInfo)
    → lookup i d ≡ none
    → picks t ≡ false
    → left picks (lookup j d) x ≡ left picks (lookup j ((i, t) ∷ d)) x
unfolding lookup
left_kept picks i j t d x fresh skipped = elim (Bool-cases (i == j)) [
  | inl here ↦
      let same : i ≡ j = ground arith in
      let at : lookup j d ≡ none = subst (λ k. lookup k d ≡ none) same fresh in
      rw (here, at, skipped) refl
  | inr other ↦ rw other refl
]

module _ (phase : PodPhase) (f : TaskInfo → TaskInfo) (picks : TaskInfo → Bool)
    (ending : (t : TaskInfo) → picks t ≡ true → is_running t.status || has_failed t.status ≡ true)
    (k : ℕ) where
  abbrev Round : Dict TaskInfo → Dict JobInfo → NodeInfo → Dict JobInfo × NodeInfo → Type 0
  Round d jobs ni r =
      KeepsTasks jobs r.0
      × IsNodeOf k r.1
      × ((i : ℕ) → lookup i r.1.tasks ≡ left picks (lookup i d) (lookup i ni.tasks))

  end_task-Returns :
      (jobs : Dict JobInfo) (ni : NodeInfo) (t : TaskInfo)
      → IsNodeOf k ni
      → lookup t.pod.key ni.tasks ≡ some t
      → has_task jobs t.job t.uid ≡ true
      → picks t ≡ true
      → Returns
          (λ (r : Dict JobInfo × NodeInfo).
            KeepsTasks jobs r.0 × IsNodeOf k r.1 × (r.1.tasks ≡ delete t.pod.key ni.tasks))
          (end_task phase f jobs ni t)
  unfolding end_task
  end_task-Returns jobs ni t n there known picked =
      let (after, removed, given, n') = give_back-remove_task k ni t n there (ending t picked) in
      let tasks = give_back-tasks ni t _ given in
      let returned : Returns (λ ni'. IsNodeOf k ni' × (ni'.tasks ≡ delete t.pod.key ni.tasks))
          (give_back ni t) =
        (_, given, (n', tasks)) in
      Returns-bind returned λ ni' (m, same).
        Returns-bind (write_in_job-KeepsTasks jobs t (λ u. f (ended phase u)) known) λ jobs' keeps.
          Returns-some (drop_from_binding t jobs', ni')
            (λ j u h. drop_from_binding-KeepsTasks jobs' t j u (keeps j u h), m, same)

  end_tasks-Round :
      (d : Dict TaskInfo) (jobs : Dict JobInfo) (ni : NodeInfo)
      → IsNodeOf k ni
      → AreToVisit d jobs ni
      → Returns (Round d jobs ni) (end_tasks phase f picks d jobs ni)
  unfolding end_tasks lookup
  end_tasks-Round [] jobs ni n v = Returns-some (jobs, ni) (λ j u h. h, n, λ i. refl)
  end_tasks-Round ((i, t) ∷ d) jobs ni n v =
      let next = visit_next i t d jobs ni v in
      let fresh : lookup i d ≡ none = v.distinct.0 in
      let self : lookup i ((i, t) ∷ d) ≡ some t = lookup-cons_self i t d in
      let key : t.pod.key ≡ i = v.keyed i t self in
      let here : lookup t.pod.key ni.tasks ≡ some t =
        subst (λ j. lookup j ni.tasks ≡ some t) (sym key) (v.there i t self) in
      elim (Bool-cases (picks t)) [
        | inl picked ↦
            rw (end_tasks, picked)
              (Returns-bind (end_task-Returns jobs ni t n here (v.recorded i t self) picked)
                λ (jobs', ni') (keeps, m, same).
                  let gone : (j : ℕ)
                      → lookup j ni'.tasks ≡ (if i == j then none else lookup j ni.tasks) =
                    λ j.
                      ap (lookup j) (same ∙ ap (λ k. delete k ni.tasks) key)
                      ∙ lookup-delete i j ni.tasks n.accounted.distinct in
                  Returns-map
                    (end_tasks-Round d jobs' ni' m
                      (visit_rest i d jobs jobs' ni ni' fresh next keeps gone))
                    λ r (more, m', after). (
                      λ j u h. more j u (keeps j u h),
                      m',
                      λ j.
                          after j
                          ∙ (ap (left picks (lookup j d)) (gone j)
                              ∙ left_done picks i j t d (lookup j ni.tasks) fresh picked),
                    ))
        | inr skipped ↦
            rw (end_tasks, skipped)
              (Returns-map (end_tasks-Round d jobs ni n next) λ r (more, m, after).
                (more, m, λ j. after j ∙ left_kept picks i j t d (lookup j ni.tasks) fresh skipped))
      ]

-- Both loops over the tasks of a node, the one over the tasks that succeed and the one over those that
-- failed, return if the node's books are kept, its tasks stand under the keys of their pods and each of
-- them is a task of its job. They leave a node with kept books that lists the tasks that did not end, and no
-- job loses a task.
pub complete_on_node-fail_on_node :
    (now : ℤ) (reset : TaskInfo → Bool) (k : ℕ) (jobs : Dict JobInfo) (ni : NodeInfo)
    → IsNodeOf k ni
    → AreToVisit ni.tasks jobs ni
    → Returns
        (λ (r : Dict JobInfo × NodeInfo).
          KeepsTasks jobs r.0
          × IsNodeOf k r.1
          × ((i : ℕ)
              → lookup i r.1.tasks
                ≡ left
                    (λ t. reset t && (is_running t.status && not (ltb_ℤ now t.sim_end_timestamp)))
                    (lookup i ni.tasks)
                    (lookup i ni.tasks)))
        (complete_on_node now reset jobs ni)
      × Returns
          (λ (r : Dict JobInfo × NodeInfo).
            KeepsTasks jobs r.0
            × IsNodeOf k r.1
            × ((i : ℕ)
                → lookup i r.1.tasks
                  ≡ left (λ t. has_failed t.status) (lookup i ni.tasks) (lookup i ni.tasks)))
          (fail_on_node now jobs ni)
unfolding complete_on_node fail_on_node
complete_on_node-fail_on_node now reset k jobs ni n v = (
  end_tasks-Round pod_succeeded _ _ (λ t e. ground arith) k ni.tasks jobs ni n v,
  end_tasks-Round pod_failed _ _ (λ t e. ground arith) k ni.tasks jobs ni n v,
)
