-- ===== src/Statement/Sharing.antt =====
-- An assignment to a task of a job keeps the books of the job.
use k8s_simulator.Common.{
  ℕ, ◌+◌, ◌≡◌, sym, ap, ◌∙◌, inl, inr, Bool, some, [], ◌∷◌, arith, ◌==◌, if◌then◌else◌, Bool-cases,
  Dict, lookup, insert, lookup-insert, insert-Distinct,
}
use k8s_simulator.Task.{
  Status, status_code, status_of, status_of-status_code, TaskInfo, allocated_status,
}
use k8s_simulator.Task.Totals.{share, total, AreRequests}
use k8s_simulator.Job.{JobInfo, add_task_index}
use k8s_simulator.Job.Index.{at, of_code, lookup-of_code, at-add_task_index, bucket-at}
use k8s_simulator.Job.Tally.{Weight, weigh, tally, weigh_tasks, tally-insert}
use k8s_simulator.Job.Books.{IsBooked, every}
use k8s_simulator.Statement.{write_task}

-- Replacing an entry by one of the same status and request.
module _ (k : ℕ) (old new : TaskInfo) (same_status : new.status ≡ old.status)
    (same_req : new.resreq ≡ old.resreq) where
  total-replace :
      (p : Status → Bool) (n : ℕ) (d : Dict TaskInfo)
      → lookup k d ≡ some old
      → total p n (insert k new d) ≡ total p n d
  unfolding total insert lookup share
  total-replace p n [] h = cc
  total-replace p n ((j, u) ∷ d) h = ground (arith, total-replace p n d)

  of_code-replace :
      (c : ℕ) (d : Dict TaskInfo)
      → lookup k d ≡ some old
      → of_code c (insert k new d)
        ≡ (if status_code new.status == c then insert k new (of_code c d) else of_code c d)
  unfolding of_code insert lookup
  of_code-replace c [] h = cc
  of_code-replace c ((j, u) ∷ d) h = ground (arith, of_code-replace c d)

  weigh_tasks-replace :
      (w : Weight) (d : Dict TaskInfo)
      → lookup k d ≡ some old
      → weigh_tasks w (insert k new d) + w old.status old ≡ weigh_tasks w d + w new.status new
  unfolding weigh_tasks insert lookup
  weigh_tasks-replace w [] h = cc
  weigh_tasks-replace w ((j, u) ∷ d) h = ground (arith, weigh_tasks-replace w d)

  weigh-replace :
      (w : Weight) (s : Status) (d : Dict TaskInfo)
      → lookup k d ≡ some old
      → weigh w s (insert k new d) + w s old ≡ weigh w s d + w s new
  unfolding weigh insert lookup
  weigh-replace w s [] h = cc
  weigh-replace w s ((j, u) ∷ d) h = ground (arith, weigh-replace w s d)

module _ (ji : JobInfo) (b : IsBooked ji) (old new : TaskInfo)
    (there : lookup new.uid ji.tasks ≡ some old) (same_status : new.status ≡ old.status)
    (same_req : new.resreq ≡ old.resreq) where
  filed_old : lookup new.uid (at (status_code new.status) ji.task_status_index) ≡ some old
  filed_old =
      rw (b.filed (status_code new.status), same_status) (lookup-of_code new.uid old ji.tasks there)

  tally_written :
      (w : Weight)
      → tally w (add_task_index new ji.task_status_index) + w old.status old
        ≡ tally w ji.task_status_index + w new.status new
  unfolding add_task_index
  tally_written w =
      let code = status_code new.status in
      let idx = ji.task_status_index in
      rw (bucket-at new.status idx) (
        omega (
          arith,
          tally-insert w code (insert new.uid new (at code idx)) idx,
          weigh-replace new.uid old new same_status same_req w (status_of code) (at code idx)
              filed_old,
          ap (λ s. w s new) (status_of-status_code new.status),
          ap (λ s. w s old) (status_of-status_code new.status ∙ same_status),
        ))

  written_requests : AreRequests (insert new.uid new ji.tasks)
  written_requests k t e = elim (Bool-cases (new.uid == k)) [
    | inl same ↦
        let e' : t ≡ new = ground (arith, lookup-insert new.uid k new ji.tasks) in
        rw (e', same_req) (b.requests new.uid old there)
    | inr other ↦ b.requests k t (ground (arith, lookup-insert new.uid k new ji.tasks))
  ]

  -- Writing to a task that the job lists keeps the books, if its status and its request stay.
  pub write_task-IsBooked : IsBooked (write_task ji new)
  unfolding write_task add_task_index
  write_task-IsBooked = record {
    distinct = insert-Distinct new.uid new ji.tasks b.distinct;
    index_distinct = insert-Distinct _ _ ji.task_status_index b.index_distinct;
    keyed = λ k t e. ground (arith, lookup-insert new.uid k new ji.tasks, b.keyed k t);
    filed = λ c.
        at-add_task_index c new ji.task_status_index
        ∙ rw (b.filed c)
            (sym (of_code-replace new.uid old new same_status same_req c ji.tasks there));
    tallied = λ w. omega (
      arith,
      b.tallied w,
      tally_written w,
      weigh_tasks-replace new.uid old new same_status same_req w ji.tasks there,
    );
    requests = written_requests;
    total_eq = λ n.
        b.total_eq n
        ∙ sym (total-replace new.uid old new same_status same_req every n ji.tasks there);
    allocated_eq = λ n.
        b.allocated_eq n
        ∙ sym
            (total-replace new.uid old new same_status same_req allocated_status n ji.tasks there);
  }
