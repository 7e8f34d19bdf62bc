-- ===== src/Job/Update.antt =====
-- UpdateTaskStatus as a whole: the task is taken out under its old status and filed under the new one.
use k8s_simulator.Common.{
  ℕ, ◌≡◌, refl, sym, ap, ◌∙◌, subst, inl, inr, true, none, some, arith, if◌then◌else◌, Option-cases,
  ℤ, lookup, insert, lookup-delete, lookup-insert_self,
}
use k8s_simulator.Resource.Exact.{IsRequest}
use k8s_simulator.Resource.{sub_unchecked}
use k8s_simulator.Task.{Status, binding, TaskInfo, set_status, allocated_status}
use k8s_simulator.Job.{
  JobInfo, add_task_info, delete_task_info, take_task, update_task_status, stamp,
}
use k8s_simulator.Job.Books.{
  IsBooked, add_task_info-IsBooked, taken, taken-IsBooked, delete_task_info-eq,
}

-- The task that the call files.
unfoldable pub moved : ℤ → TaskInfo → Status → TaskInfo
moved now task s = stamp now (set_status task s) s

pub kept-moved :
    (now : ℤ) (task : TaskInfo) (s : Status)
    → ((moved now task s).uid ≡ task.uid)
      × ((moved now task s).resreq ≡ task.resreq)
      × ((moved now task s).status ≡ s)
      × ((moved now task s).job ≡ task.job)
      × ((moved now task s).node_name ≡ task.node_name)
      × ((moved now task s).pod.key ≡ task.pod.key)
unfolding moved stamp
kept-moved now task binding = (refl, refl, refl, refl, refl, refl)
kept-moved now task s = (refl, refl, refl, refl, refl, refl)

-- The job without the entry for an identifier, whatever is filed there.
unfoldable pub without : JobInfo → ℕ → JobInfo
without ji uid = elim (lookup uid ji.tasks) [
  | none ↦ ji
  | some old ↦ take_task ji old (sub_unchecked ji.total_request old.resreq) (
      if allocated_status old.status
      then sub_unchecked ji.allocated_res old.resreq
      else ji.allocated_res)
]

delete_by_uid :
    (ji : JobInfo) (ti old : TaskInfo)
    → ti.uid ≡ old.uid
    → delete_task_info ji ti ≡ delete_task_info ji old
unfolding delete_task_info
delete_by_uid ji ti old e = ground arith

module _ (ji : JobInfo) (b : IsBooked ji) (uid : ℕ) where
  there : (old : TaskInfo) → lookup uid ji.tasks ≡ some old → lookup old.uid ji.tasks ≡ some old
  there old e = ap (λ k. lookup k ji.tasks) (b.keyed uid old e) ∙ e

  -- What DeleteTaskInfo does through any task with that identifier.
  pub found-eq :
      (ti old : TaskInfo)
      → ti.uid ≡ uid
      → lookup uid ji.tasks ≡ some old
      → delete_task_info ji ti ≡ some (without ji uid, true)
  unfolding without taken
  found-eq ti old same e =
      delete_by_uid ji ti old (same ∙ sym (b.keyed uid old e))
      ∙ delete_task_info-eq ji b old (there old e)
      ∙ ground arith

  pub without-IsBooked : IsBooked (without ji uid)
  unfolding without taken
  without-IsBooked = elim (Option-cases (lookup uid ji.tasks)) [
    | inl e ↦ rw (e, without) b
    | inr (old, e) ↦ rw (e, without) (taken-IsBooked ji b old (there old e))
  ]

  pub without_free : lookup uid (without ji uid).tasks ≡ none
  unfolding without take_task
  without_free = elim (Option-cases (lookup uid ji.tasks)) [
    | inl e ↦ rw (e, without) e
    | inr (old, e) ↦
        rw (e, without)
          (ground (arith, lookup-delete old.uid uid ji.tasks b.distinct, b.keyed uid old e))
  ]

module _ (now : ℤ) (ji : JobInfo) (task : TaskInfo) (s : Status) (b : IsBooked ji) where
  without-none : lookup task.uid ji.tasks ≡ none → without ji task.uid ≡ ji
  unfolding without
  without-none e = rw (e, without)

  -- On a job whose books are kept UpdateTaskStatus does not panic: whatever is filed under the
  -- task's identifier is taken out, and the task is added with its new status.
  pub update_task_status-eq :
      update_task_status now ji task s
      ≡ some (add_task_info (without ji task.uid) (moved now task s), moved now task s)
  unfolding update_task_status moved
  update_task_status-eq = elim (Option-cases (lookup task.uid ji.tasks)) [
    | inl e ↦
        rw (e, update_task_status)
          (ap (λ j. some (add_task_info j (moved now task s), moved now task s))
            (sym (without-none e)))
    | inr (old, e) ↦ rw (e, found-eq ji b task.uid task old refl e, update_task_status)
  ]

  -- UpdateTaskStatus of a task with a whole request, on a job whose books are kept, does not panic
  -- and keeps the books. The job then lists the task that it returns under the task's identifier, and
  -- that task has the new status.
  pub update_task_status-IsBooked :
      IsRequest task.resreq
      → (ji' : JobInfo) × (task' : TaskInfo) × (update_task_status now ji task s
          ≡ some (ji', task'))
        × IsBooked ji'
        × (lookup task.uid ji'.tasks ≡ some task')
        × (task'.status ≡ s)
  unfolding add_task_info
  update_task_status-IsBooked q =
      let (uid_same, req_same, status_is, _, _, _) = kept-moved now task s in
      let base = without ji task.uid in
      let task' = moved now task s in
      (
        add_task_info base task',
        task',
        update_task_status-eq,
        add_task_info-IsBooked base task' (without-IsBooked ji b task.uid) (rw req_same q)
            (rw uid_same (without_free ji b task.uid)),
        subst (λ u. lookup u (insert task'.uid task' base.tasks) ≡ some task') uid_same
            (lookup-insert_self task'.uid task' base.tasks),
        status_is,
      )
