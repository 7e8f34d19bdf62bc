-- ===== src/Job/Tally.antt =====
-- Sums over the index of a job against sums over its tasks. A weight may look at the status under
-- which a task is filed and at the task.
use k8s_simulator.Common.{
  ℕ, ◌+◌, ◌≡◌, sym, ap, ◌∙◌, inl, inr, none, some, [], ◌∷◌, arith, Option-cases, Dict, lookup,
  insert, delete,
}
use k8s_simulator.Task.{Status, status_code, status_of, status_of-status_code, TaskInfo}
use k8s_simulator.Job.{add_task_index, delete_task_index, put_or_drop}
use k8s_simulator.Job.Index.{at, bucket-at}

abbrev pub Weight : Type 0
Weight = Status → TaskInfo → ℕ

unfoldable pub weigh : Weight → Status → Dict TaskInfo → ℕ
weigh w s [] = 0
weigh w s ((k, t) ∷ d) = w s t + weigh w s d

-- Over the index, each task under the status of its map.
unfoldable pub tally : Weight → Dict (Dict TaskInfo) → ℕ
tally w [] = 0
tally w ((code, m) ∷ idx) = weigh w (status_of code) m + tally w idx

-- Over the tasks, each under its own status.
unfoldable pub weigh_tasks : Weight → Dict TaskInfo → ℕ
weigh_tasks w [] = 0
weigh_tasks w ((k, t) ∷ d) = w t.status t + weigh_tasks w d

module _ (w : Weight) where
  weigh-insert :
      (s : Status) (k : ℕ) (t : TaskInfo) (d : Dict TaskInfo)
      → lookup k d ≡ none
      → weigh w s (insert k t d) ≡ weigh w s d + w s t
  unfolding weigh lookup insert
  weigh-insert s k t [] h = omega arith
  weigh-insert s k t ((j, u) ∷ d) h = ground (arith, weigh-insert s k t d)

  weigh-delete :
      (s : Status) (k : ℕ) (t : TaskInfo) (d : Dict TaskInfo)
      → lookup k d ≡ some t
      → weigh w s d ≡ weigh w s (delete k d) + w s t
  unfolding weigh lookup delete
  weigh-delete s k t [] h = cc
  weigh-delete s k t ((j, u) ∷ d) h = ground (arith, weigh-delete s k t d)

  pub weigh_tasks-insert :
      (k : ℕ) (t : TaskInfo) (d : Dict TaskInfo)
      → lookup k d ≡ none
      → weigh_tasks w (insert k t d) ≡ weigh_tasks w d + w t.status t
  unfolding weigh_tasks lookup insert
  weigh_tasks-insert k t [] h = omega arith
  weigh_tasks-insert k t ((j, u) ∷ d) h = ground (arith, weigh_tasks-insert k t d)

  pub weigh_tasks-delete :
      (k : ℕ) (t : TaskInfo) (d : Dict TaskInfo)
      → lookup k d ≡ some t
      → weigh_tasks w d ≡ weigh_tasks w (delete k d) + w t.status t
  unfolding weigh_tasks lookup delete
  weigh_tasks-delete k t [] h = cc
  weigh_tasks-delete k t ((j, u) ∷ d) h = ground (arith, weigh_tasks-delete k t d)

  pub tally-insert :
      (c : ℕ) (m : Dict TaskInfo) (idx : Dict (Dict TaskInfo))
      → tally w (insert c m idx) + weigh w (status_of c) (at c idx)
        ≡ tally w idx + weigh w (status_of c) m
  unfolding tally weigh at lookup insert
  tally-insert c m [] = omega arith
  tally-insert c m ((j, l) ∷ idx) = ground (arith, tally-insert c m idx)

  tally-delete :
      (c : ℕ) (idx : Dict (Dict TaskInfo))
      → tally w (delete c idx) + weigh w (status_of c) (at c idx) ≡ tally w idx
  unfolding tally weigh at lookup delete
  tally-delete c [] = omega arith
  tally-delete c ((j, l) ∷ idx) = ground (arith, tally-delete c idx)

  tally-put_or_drop :
      (c : ℕ) (m : Dict TaskInfo) (idx : Dict (Dict TaskInfo))
      → tally w (put_or_drop c m idx) + weigh w (status_of c) (at c idx)
        ≡ tally w idx + weigh w (status_of c) m
  unfolding put_or_drop weigh
  tally-put_or_drop c [] idx = omega (arith, tally-delete c idx)
  tally-put_or_drop c (x ∷ m) idx = tally-insert c (x ∷ m) idx

  -- Filing a new task adds its weight.
  pub tally-add_task_index :
      (ti : TaskInfo) (idx : Dict (Dict TaskInfo))
      → lookup ti.uid (at (status_code ti.status) idx) ≡ none
      → tally w (add_task_index ti idx) ≡ tally w idx + w ti.status ti
  unfolding add_task_index
  tally-add_task_index ti idx h = rw (bucket-at ti.status idx) (
      omega (
        arith,
        tally-insert (status_code ti.status) (insert ti.uid ti (at (status_code ti.status) idx))
            idx,
        weigh-insert (status_of (status_code ti.status)) ti.uid ti (at (status_code ti.status) idx)
            h,
        ap (λ s. w s ti) (status_of-status_code ti.status),
      ))

  -- Taking a filed task out takes its weight off.
  pub tally-delete_task_index :
      (ti : TaskInfo) (idx : Dict (Dict TaskInfo))
      → lookup ti.uid (at (status_code ti.status) idx) ≡ some ti
      → tally w idx ≡ tally w (delete_task_index ti idx) + w ti.status ti
  unfolding delete_task_index
  tally-delete_task_index ti idx h = elim (Option-cases (lookup (status_code ti.status) idx)) [
    | inl e ↦ absurd (nothing (at_none e))
    | inr (m, e) ↦
        let code = status_code ti.status in
        let there = at_some m e in
        rw (e, delete_task_index)
          (omega (
            arith,
            tally-put_or_drop code (delete ti.uid m) idx,
            weigh-delete (status_of code) ti.uid ti m (rw there at h),
            ap (weigh w (status_of code)) there,
            ap (λ s. w s ti) (status_of-status_code ti.status),
          ))
  ]
    where
      at_none : lookup (status_code ti.status) idx ≡ none → at (status_code ti.status) idx ≡ []
      at_none e = unfold at in ground arith

      at_some :
          (m : Dict TaskInfo)
          → lookup (status_code ti.status) idx ≡ some m
          → at (status_code ti.status) idx ≡ m
      at_some m e = unfold at in ground arith

      nothing : at (status_code ti.status) idx ≡ [] → ⊥
      nothing e = unfold lookup in cc (sym h ∙ ap (lookup ti.uid) e)
