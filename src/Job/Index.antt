-- ===== src/Job/Index.antt =====
-- The index of a job's tasks by status: under each code it lists the tasks of that status.
use k8s_simulator.Common.{
  ℕ, ◌≡◌, refl, inl, inr, none, some, [], ◌∷◌, arith, ◌==◌, if◌then◌else◌, Option-cases, Dict,
  lookup, insert, delete, Distinct, lookup-insert, lookup-delete, insert-Distinct, delete-Distinct,
}
use k8s_simulator.Task.{Status, status_code, TaskInfo}
use k8s_simulator.Job.{bucket, add_task_index, delete_task_index, put_or_drop}

-- The map under a code, empty if it is missing.
unfoldable pub at : ℕ → Dict (Dict TaskInfo) → Dict TaskInfo
at c idx = elim (lookup c idx) [ none ↦ [] | some m ↦ m ]

pub bucket-at : (s : Status) (idx : Dict (Dict TaskInfo)) → bucket s idx ≡ at (status_code s) idx
unfolding bucket at
bucket-at s idx = refl

-- The tasks with a status of that code, in order.
unfoldable pub of_code : ℕ → Dict TaskInfo → Dict TaskInfo
of_code c [] = []
of_code c ((k, t) ∷ d) =
    let rest = of_code c d in if status_code t.status == c then (k, t) ∷ rest else rest

pub at-add_task_index :
    (c : ℕ) (ti : TaskInfo) (idx : Dict (Dict TaskInfo))
    → at c (add_task_index ti idx)
      ≡ (if status_code ti.status == c then insert ti.uid ti (at c idx) else at c idx)
unfolding at add_task_index bucket
at-add_task_index c ti idx =
    ground
      (arith, lookup-insert (status_code ti.status) c (insert ti.uid ti (bucket ti.status idx)) idx)

pub of_code-insert :
    (c uid : ℕ) (ti : TaskInfo) (d : Dict TaskInfo)
    → lookup uid d ≡ none
    → of_code c (insert uid ti d)
      ≡ (if status_code ti.status == c then insert uid ti (of_code c d) else of_code c d)
unfolding of_code insert lookup
of_code-insert c uid ti [] h = refl
of_code-insert c uid ti ((j, u) ∷ d) h = ground (arith, of_code-insert c uid ti d)

at-put_or_drop :
    (c code : ℕ) (m : Dict TaskInfo) (idx : Dict (Dict TaskInfo))
    → Distinct idx
    → at c (put_or_drop code m idx) ≡ (if code == c then m else at c idx)
unfolding at put_or_drop
at-put_or_drop c code [] idx h = ground (arith, lookup-delete code c idx h)
at-put_or_drop c code (x ∷ m) idx h = ground (arith, lookup-insert code c (x ∷ m) idx)

pub at-delete_task_index :
    (c : ℕ) (ti : TaskInfo) (idx : Dict (Dict TaskInfo))
    → Distinct idx
    → at c (delete_task_index ti idx)
      ≡ (if status_code ti.status == c then delete ti.uid (at c idx) else at c idx)
unfolding delete_task_index
at-delete_task_index c ti idx h = elim (Option-cases (lookup (status_code ti.status) idx)) [
  | inl e ↦ rw (e, delete_task_index) (absent e)
  | inr (m, e) ↦ rw (e, delete_task_index) (present m e)
]
  where
    absent :
        lookup (status_code ti.status) idx ≡ none
        → at c idx ≡ (if status_code ti.status == c then delete ti.uid (at c idx) else at c idx)
    absent e = unfold at delete in ground arith

    present :
        (m : Dict TaskInfo)
        → lookup (status_code ti.status) idx ≡ some m
        → at c (put_or_drop (status_code ti.status) (delete ti.uid m) idx)
          ≡ (if status_code ti.status == c then delete ti.uid (at c idx) else at c idx)
    present m e =
        let moved = at-put_or_drop c (status_code ti.status) (delete ti.uid m) idx h in
        unfold at in ground (arith, moved)

pub of_code-delete :
    (c uid : ℕ) (t : TaskInfo) (d : Dict TaskInfo)
    → lookup uid d ≡ some t
    → of_code c (delete uid d)
      ≡ (if status_code t.status == c then delete uid (of_code c d) else of_code c d)
unfolding of_code delete lookup
of_code-delete c uid t [] e = cc
of_code-delete c uid t ((j, u) ∷ d) e = ground (arith, of_code-delete c uid t d)

pub lookup-of_code-none :
    (c k : ℕ) (d : Dict TaskInfo) → lookup k d ≡ none → lookup k (of_code c d) ≡ none
unfolding of_code lookup
lookup-of_code-none c k [] h = refl
lookup-of_code-none c k ((j, u) ∷ d) h = ground (arith, lookup-of_code-none c k d)

pub lookup-of_code :
    (k : ℕ) (t : TaskInfo) (d : Dict TaskInfo)
    → lookup k d ≡ some t
    → lookup k (of_code (status_code t.status) d) ≡ some t
unfolding of_code lookup
lookup-of_code k t [] h = cc
lookup-of_code k t ((j, u) ∷ d) h = ground (arith, lookup-of_code k t d)

put_or_drop-Distinct :
    (c : ℕ) (m : Dict TaskInfo) (idx : Dict (Dict TaskInfo))
    → Distinct idx
    → Distinct (put_or_drop c m idx)
unfolding put_or_drop
put_or_drop-Distinct c [] idx h = delete-Distinct c idx h
put_or_drop-Distinct c (x ∷ m) idx h = insert-Distinct c (x ∷ m) idx h

pub delete_task_index-Distinct :
    (ti : TaskInfo) (idx : Dict (Dict TaskInfo))
    → Distinct idx
    → Distinct (delete_task_index ti idx)
unfolding delete_task_index
delete_task_index-Distinct ti idx h = elim (Option-cases (lookup (status_code ti.status) idx)) [
  | inl e ↦ rw (e, delete_task_index) h
  | inr (m, e) ↦ rw (e, delete_task_index) (put_or_drop-Distinct _ (delete ti.uid m) idx h)
]
