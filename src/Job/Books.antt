-- ===== src/Job/Books.antt =====
-- The books of a job: its tasks against their index and against the resource totals.
use k8s_simulator.Common.{
  ℕ, ◌≡◌, refl, sym, ◌∙◌, inl, inr, Bool, true, none, some, arith, ◌==◌, if◌then◌else◌, Bool-cases,
  ◌+ℤ◌, ◌-ℤ◌, take_share, +ℤ-zero, -ℤ-zero, lookup, insert, delete, Distinct, lookup-insert,
  lookup-delete, insert-Distinct, delete-Distinct,
}
use k8s_simulator.Resource.{zero_default, get, add, sub_unchecked}
use k8s_simulator.Resource.Order.{less_equal, sub}
use k8s_simulator.Resource.Amounts.{get-empty_resource, get-add, get-sub_unchecked}
use k8s_simulator.Resource.Exact.{IsRequest, less_equal-Covers, less_equal_of_le}
use k8s_simulator.Task.{Status, status_code, TaskInfo, allocated_status}
use k8s_simulator.Task.Totals.{
  share, total, total-insert, total-delete, AreRequests, delete-AreRequests, share-le-total,
}
use k8s_simulator.Job.{
  JobInfo, add_task_index, add_task_info, delete_task_info, take_task, sub_allocated, blank_job,
}
use k8s_simulator.Job.Index.{
  at, of_code, at-add_task_index, of_code-insert, at-delete_task_index, of_code-delete,
  lookup-of_code-none, lookup-of_code, delete_task_index-Distinct,
}
use k8s_simulator.Job.Tally.{
  Weight, tally, weigh_tasks, weigh_tasks-insert, weigh_tasks-delete, tally-add_task_index,
  tally-delete_task_index,
}

-- Every status counts towards the total request.
unfoldable pub every : Status → Bool
every s = true

pub record IsBooked (ji : JobInfo) : Type 0 where
  pub distinct : Distinct ji.tasks
  pub index_distinct : Distinct ji.task_status_index
  -- A task is listed under its own identifier.
  pub keyed : (k : ℕ) (t : TaskInfo) → lookup k ji.tasks ≡ some t → t.uid ≡ k
  -- Under each code the index lists the tasks of that status, and no others.
  pub filed : (c : ℕ) → at c ji.task_status_index ≡ of_code c ji.tasks
  -- A loop over the index visits each task once, under its status.
  pub tallied : (w : Weight) → tally w ji.task_status_index ≡ weigh_tasks w ji.tasks
  pub requests : AreRequests ji.tasks
  pub total_eq : (n : ℕ) → get ji.total_request n ≡ total every n ji.tasks
  pub allocated_eq : (n : ℕ) → get ji.allocated_res n ≡ total allocated_status n ji.tasks

pub blank_job-IsBooked : (uid : ℕ) → IsBooked (blank_job uid)
unfolding at of_code tally weigh_tasks lookup total
blank_job-IsBooked uid = record {
  distinct = tt;
  index_distinct = tt;
  keyed = λ k t e. cc;
  filed = λ c. refl;
  tallied = λ w. refl;
  requests = λ k t e. cc;
  total_eq = λ n. get-empty_resource n;
  allocated_eq = λ n. get-empty_resource n;
}

module _ (ji : JobInfo) (ti : TaskInfo) (b : IsBooked ji) (q : IsRequest ti.resreq)
    (free : lookup ti.uid ji.tasks ≡ none) where
  not_filed : lookup ti.uid (at (status_code ti.status) ji.task_status_index) ≡ none
  not_filed = rw (b.filed (status_code ti.status)) (lookup-of_code-none _ ti.uid ji.tasks free)

  allocated-added :
      (n : ℕ)
      → get
          (if allocated_status ti.status then add ji.allocated_res ti.resreq else ji.allocated_res)
          n
        ≡ total allocated_status n ji.tasks +ℤ share allocated_status n ti
  unfolding share
  allocated-added n = ground (
    arith,
    get-add ji.allocated_res ti.resreq n q.formed.distinct,
    b.allocated_eq n,
    +ℤ-zero (total allocated_status n ji.tasks),
  )

  added_keyed : (k : ℕ) (t : TaskInfo) → lookup k (insert ti.uid ti ji.tasks) ≡ some t → t.uid ≡ k
  added_keyed k t e = ground (arith, lookup-insert ti.uid k ti ji.tasks, b.keyed k t)

  added_requests : AreRequests (insert ti.uid ti ji.tasks)
  added_requests k t e = elim (Bool-cases (ti.uid == k)) [
    | inl same ↦ let e' : t ≡ ti = ground (arith, lookup-insert ti.uid k ti ji.tasks) in rw e' q
    | inr other ↦ b.requests k t (ground (arith, lookup-insert ti.uid k ti ji.tasks))
  ]

  -- AddTaskInfo, on a job whose books are kept, keeps them for a task with a new identifier and a whole
  -- request.
  pub add_task_info-IsBooked : IsBooked (add_task_info ji ti)
  unfolding add_task_info add_task_index share every
  add_task_info-IsBooked = record {
    distinct = insert-Distinct ti.uid ti ji.tasks b.distinct;
    index_distinct = insert-Distinct _ _ ji.task_status_index b.index_distinct;
    keyed = added_keyed;
    filed = λ c.
        at-add_task_index c ti ji.task_status_index
        ∙ rw (b.filed c) (sym (of_code-insert c ti.uid ti ji.tasks free));
    tallied = λ w.
        tally-add_task_index w ti ji.task_status_index not_filed
        ∙ rw (b.tallied w) (sym (weigh_tasks-insert w ti.uid ti ji.tasks free));
    requests = added_requests;
    total_eq = λ n.
        rw (total-insert every n ti.uid ti ji.tasks free, ← b.total_eq n)
          (get-add ji.total_request ti.resreq n q.formed.distinct);
    allocated_eq =
        λ n. rw (total-insert allocated_status n ti.uid ti ji.tasks free) (allocated-added n);
  }

module _ (ji : JobInfo) (b : IsBooked ji) (task : TaskInfo)
    (there : lookup task.uid ji.tasks ≡ some task) where
  request : IsRequest task.resreq
  request = b.requests task.uid task there

  -- The assertions of Sub hold: no task asks for more than the totals.
  total-covers : less_equal task.resreq ji.total_request zero_default ≡ true
  unfolding share every
  total-covers = less_equal_of_le task.resreq ji.total_request request λ n.
      rw (b.total_eq n) (share-le-total every n task.uid task ji.tasks b.distinct b.requests there)

  allocated-covers :
      allocated_status task.status ≡ true
      → less_equal task.resreq ji.allocated_res zero_default ≡ true
  unfolding share
  allocated-covers h = less_equal_of_le task.resreq ji.allocated_res request λ n.
      rw (b.allocated_eq n) (
        rw h at
          (share-le-total allocated_status n task.uid task ji.tasks b.distinct b.requests there))

  -- The job without the task.
  unfoldable pub taken : JobInfo
  taken = take_task ji task (sub_unchecked ji.total_request task.resreq) (
      if allocated_status task.status
      then sub_unchecked ji.allocated_res task.resreq
      else ji.allocated_res)

  -- DeleteTaskInfo finds the task and does not panic.
  pub delete_task_info-eq : delete_task_info ji task ≡ some (taken, true)
  unfolding delete_task_info sub_allocated sub taken
  delete_task_info-eq = ground (arith, total-covers, allocated-covers, there)

  filed_there : lookup task.uid (at (status_code task.status) ji.task_status_index) ≡ some task
  filed_there = rw (b.filed (status_code task.status)) (lookup-of_code task.uid task ji.tasks there)

  allocated-taken :
      (n : ℕ)
      → get
          (if allocated_status task.status
            then sub_unchecked ji.allocated_res task.resreq
            else ji.allocated_res)
          n
        ≡ get ji.allocated_res n -ℤ share allocated_status n task
  unfolding share
  allocated-taken n = elim (Bool-cases (allocated_status task.status)) [
    | inl h ↦ rw h (
        get-sub_unchecked ji.allocated_res task.resreq n request.formed.distinct
          (less_equal-Covers task.resreq ji.allocated_res request (allocated-covers h)))
    | inr h ↦ rw h (sym (-ℤ-zero (get ji.allocated_res n)))
  ]

  taken_keyed : (k : ℕ) (t : TaskInfo) → lookup k (delete task.uid ji.tasks) ≡ some t → t.uid ≡ k
  taken_keyed k t e = b.keyed k t (ground (arith, lookup-delete task.uid k ji.tasks b.distinct))

  -- DeleteTaskInfo keeps the books.
  pub taken-IsBooked : IsBooked taken
  unfolding taken take_task share every
  taken-IsBooked = record {
    distinct = delete-Distinct task.uid ji.tasks b.distinct;
    index_distinct = delete_task_index-Distinct task ji.task_status_index b.index_distinct;
    keyed = taken_keyed;
    filed = λ c.
        at-delete_task_index c task ji.task_status_index b.index_distinct
        ∙ rw (b.filed c) (sym (of_code-delete c task.uid task ji.tasks there));
    tallied = λ w. omega (
      arith,
      b.tallied w,
      tally-delete_task_index w task ji.task_status_index filed_there,
      weigh_tasks-delete w task.uid task ji.tasks there,
    );
    requests = delete-AreRequests task.uid ji.tasks b.distinct b.requests;
    total_eq = λ n.
        get-sub_unchecked ji.total_request task.resreq n request.formed.distinct
          (less_equal-Covers task.resreq ji.total_request request total-covers)
        ∙ take_share _ _ _
            (rw (total-delete every n task.uid task ji.tasks there) at (b.total_eq n));
    allocated_eq = λ n.
        allocated-taken n
        ∙ take_share _ _ _ (
            rw (total-delete allocated_status n task.uid task ji.tasks there) at
              (b.allocated_eq n));
  }

  -- DeleteTaskInfo of a task that the job lists, on a job whose books are kept, does not panic, finds
  -- the task, keeps the books, and leaves no task under the identifier.
  pub delete_task_info-IsBooked :
      (ji' : JobInfo) × (delete_task_info ji task ≡ some (ji', true))
      × IsBooked ji'
      × (lookup task.uid ji'.tasks ≡ none)
  unfolding taken take_task
  delete_task_info-IsBooked = (
    taken,
    delete_task_info-eq,
    taken-IsBooked,
    ground (arith, lookup-delete task.uid task.uid ji.tasks b.distinct),
  )
