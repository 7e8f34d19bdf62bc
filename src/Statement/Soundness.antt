-- ===== src/Statement/Soundness.antt =====
-- A session in which all books are kept, and the operations that keep them.
use k8s_simulator.Common.{
  refl, ℕ, ◌≡◌, sym, ap, ◌∙◌, subst, inl, inr, Option, none, some, arith, ◌==◌, Bool-cases,
  Option-cases, ℤ, lookup, insert, lookup-insert, Returns, Returns-some,
}
use k8s_simulator.Resource.Exact.{IsRequest}
use k8s_simulator.Task.{Status, TaskInfo}
use k8s_simulator.Job.{JobInfo}
use k8s_simulator.Job.Books.{IsBooked}
use k8s_simulator.Job.Update.{kept-moved}
use k8s_simulator.Node.{NodeInfo}
use k8s_simulator.Statement.{SessionState, write_task, write_back}
use k8s_simulator.Statement.Sharing.{write_task-IsBooked}
use k8s_simulator.Statement.Withdrawal.{Changed, change_status}
use k8s_simulator.Statement.Nodes.{IsNodeOf, IsSameTask}
use k8s_simulator.Statement.Operations.{set_status_in}

-- A job that a caller has in hand, and that lists the task.
abbrev pub IsHeld : Option JobInfo → TaskInfo → Type 0
IsHeld none t = Unit
IsHeld (some job) t = IsBooked job × (lookup t.uid job.tasks ≡ some t)

-- An assignment to the task of a job in hand, if its status and request stay.
pub write_held :
    (job : JobInfo) (t u : TaskInfo)
    → IsHeld (some job) t
    → IsSameTask t u
    → IsBooked (write_task job u)
write_held job t u (b, listed) same =
    write_task-IsBooked job b t u
      (subst (λ i. lookup i job.tasks ≡ some t) (sym same.same_uid) listed) same.same_status
      same.same_req

-- The job in hand after a change of status, and the task.
pub record IsMoved (t : TaskInfo) (r : Option JobInfo × TaskInfo) : Type 0 where
  pub held : IsHeld r.0 r.1
  pub uid_eq : r.1.uid ≡ t.uid
  pub request : IsRequest r.1.resreq

pub resreq-Changed :
    (now : ℤ) (job : JobInfo) (t : TaskInfo) (s : Status) (c : Changed now job t s)
    → c.task_after.resreq ≡ t.resreq
resreq-Changed now job t s c =
    let (uid, req, _, _, _, _) = kept-moved now t s in
    ap (λ (u : TaskInfo). u.resreq) c.same_task ∙ req

pub uid-Changed :
    (now : ℤ) (job : JobInfo) (t : TaskInfo) (s : Status) (c : Changed now job t s)
    → c.task_after.uid ≡ t.uid
uid-Changed now job t s c =
    let (uid, req, _, _, _, _) = kept-moved now t s in
    ap (λ (u : TaskInfo). u.uid) c.same_task ∙ uid

pub Changed-IsHeld :
    (now : ℤ) (job : JobInfo) (t : TaskInfo) (s : Status) (c : Changed now job t s)
    → IsHeld (some c.job_after) c.task_after
Changed-IsHeld now job t s c =
    let same_uid = uid-Changed now job t s c in
    (c.booked, subst (λ i. lookup i c.job_after.tasks ≡ some c.task_after) (sym same_uid) c.listed)

module _ {P : Type 0} where
  -- The books of every job and of every node are kept.
  pub record IsSound (ssn : SessionState P) : Type 0 where
    pub booked : (k : ℕ) (job : JobInfo) → lookup k ssn.jobs ≡ some job → IsBooked job
    pub kept : (k : ℕ) (ni : NodeInfo) → lookup k ssn.nodes ≡ some ni → IsNodeOf k ni

  pub insert_job-IsSound :
      (ssn : SessionState P) (k : ℕ) (job : JobInfo)
      → IsSound ssn
      → IsBooked job
      → IsSound (record ssn { jobs = insert k job ssn.jobs })
  insert_job-IsSound ssn k job s b = record {
    booked = λ i j e. elim (Bool-cases (k == i)) [
      | inl here ↦
          let same : j ≡ job = ground (arith, lookup-insert k i job ssn.jobs) in
          subst IsBooked (sym same) b
      | inr other ↦ s.booked i j (ground (arith, lookup-insert k i job ssn.jobs))
    ];
    kept = s.kept;
  }

  pub insert_node-IsSound :
      (ssn : SessionState P) (k : ℕ) (node : NodeInfo)
      → IsSound ssn
      → IsNodeOf k node
      → IsSound (record ssn { nodes = insert k node ssn.nodes })
  insert_node-IsSound ssn k node s n = record {
    booked = s.booked;
    kept = λ i w e. elim (Bool-cases (k == i)) [
      | inl here ↦
          let same : w ≡ node = ground (arith, lookup-insert k i node ssn.nodes) in
          let same_key : k ≡ i = ground arith in
          subst (λ h. IsNodeOf h w) same_key (subst (IsNodeOf k) (sym same) n)
      | inr other ↦ s.kept i w (ground (arith, lookup-insert k i node ssn.nodes))
    ];
  }

  pub tell-IsSound :
      (ssn : SessionState P) (p : P) → IsSound ssn → IsSound (record ssn { plugins = p })
  tell-IsSound ssn p s = record { booked = s.booked; kept = s.kept }

  pub write_back-IsSound :
      (ssn : SessionState P) (job : Option JobInfo) (t u : TaskInfo)
      → IsSound ssn
      → IsHeld job t
      → IsSameTask t u
      → IsSound (record ssn { jobs = write_back ssn.jobs job u })
  unfolding write_back
  write_back-IsSound ssn none t u s h same = s
  write_back-IsSound ssn (some job) t u s h same =
      insert_job-IsSound ssn u.job (write_task job u) s (write_held job t u h same)

  pub set_status_in-IsMoved :
      (now : ℤ) (ssn : SessionState P) (t : TaskInfo) (s : Status)
      → IsSound ssn
      → IsRequest t.resreq
      → Returns (IsMoved t) (set_status_in now ssn t s)
  unfolding set_status_in
  set_status_in-IsMoved now ssn t s sound q = elim (Option-cases (lookup t.job ssn.jobs)) [
    | inl missing ↦
        rw (set_status_in, missing)
          (Returns-some (none, t) (record { held = tt; uid_eq = refl; request = q }))
    | inr (job, e) ↦
        let c = change_status now job t s (sound.booked t.job job e) q in
        rw (set_status_in, e, c.run)
          (Returns-some (some c.job_after, c.task_after)
            (record {
              held = Changed-IsHeld now job t s c;
              uid_eq = uid-Changed now job t s c;
              request = subst IsRequest (sym (resreq-Changed now job t s c)) q;
            }))
  ]
