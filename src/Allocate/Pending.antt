-- ===== src/Allocate/Pending.antt =====
-- The pending tasks of a job have whole requests.
use k8s_simulator.Common.{
  ℕ, ◌≡◌, refl, sym, subst, ◌⊎◌, inl, inr, ◌==◌, Bool-cases, none, some, Option-cases, List, [],
  ◌∷◌, All, Dict, Distinct, lookup, lookup-cons_old, lookup-cons_self,
}
use mathlib.Core.List.{Mem, Perm, forall_mem-cons, not-mem-nil}
use mathlib.Core.List.Perm
use mathlib.Core.Logic.{∥∥₁_elim}
use k8s_simulator.Common.Runs.{panic, Ends, Ends-done, Ends-bind, Ends-of_option, Ends-map}
use k8s_simulator.Resource.{is_empty}
use k8s_simulator.Resource.Exact.{IsRequest}
use k8s_simulator.Resource.Truth.{IsRequest-prop}
use k8s_simulator.Task.{TaskInfo, pending, status_code}
use k8s_simulator.Task.Totals.{AreRequests}
use k8s_simulator.Job.{JobInfo, bucket}
use k8s_simulator.Job.Index.{at, of_code}
use k8s_simulator.Job.Books.{IsBooked}
use k8s_simulator.Queue.{PriorityQueue, new_priority_queue}
use k8s_simulator.Queue.Laws.{push-IsPushed}
use k8s_simulator.Statement.{SessionState}
use k8s_simulator.Statement.Soundness.{IsSound}
use k8s_simulator.Allocate.{AllocateSession, AllocateState, job_now, task_order}
use k8s_simulator.Allocate.Steps.{job_now-IsBooked}
use k8s_simulator.Allocate.Turns.{AreWhole}
use k8s_simulator.Allocate.Rounds.{tasks_with_request, push_tasks, tasks_of}

abbrev EntriesWhole : Dict TaskInfo → Type 0
EntriesWhole d = All (λ (e : ℕ × TaskInfo). IsRequest e.1.resreq) d

requests-EntriesWhole : (d : Dict TaskInfo) → Distinct d → AreRequests d → EntriesWhole d
requests-EntriesWhole [] h r = tt
requests-EntriesWhole ((k, t) ∷ d) h r = (
  r k t (lookup-cons_self k t d),
  requests-EntriesWhole d h.1 λ j u e. r j u (lookup-cons_old k j t u d h.0 e),
)

of_code-EntriesWhole : (c : ℕ) (d : Dict TaskInfo) → EntriesWhole d → EntriesWhole (of_code c d)
unfolding of_code
of_code-EntriesWhole c [] h = tt
of_code-EntriesWhole c ((k, t) ∷ d) h = elim (Bool-cases (status_code t.status == c)) [
  | inl here ↦ rw here (h.0, of_code-EntriesWhole c d h.1)
  | inr other ↦ rw other (of_code-EntriesWhole c d h.1)
]

AreWhole-cons :
    (t : TaskInfo) (ts : List TaskInfo) → IsRequest t.resreq → AreWhole ts → AreWhole (t ∷ ts)
AreWhole-cons t ts q w = (forall_mem-cons λ u. IsRequest-prop u.resreq).1 (q, w)

pub AreWhole-Perm : {a b : List TaskInfo} → Perm a b → AreWhole b → AreWhole a
AreWhole-Perm p w = λ t m. w t ((Perm.mem_iff p).0 m)

with_request-AreWhole : (d : Dict TaskInfo) → EntriesWhole d → AreWhole (tasks_with_request d)
unfolding tasks_with_request
with_request-AreWhole [] h = λ t m. absurd (not-mem-nil m)
with_request-AreWhole ((k, t) ∷ d) h = elim (Bool-cases (is_empty t.resreq)) [
  | inl best_effort ↦ rw best_effort (with_request-AreWhole d h.1)
  | inr asks ↦ rw asks (AreWhole-cons t (tasks_with_request d) h.0 (with_request-AreWhole d h.1))
]

pending-AreWhole :
    (job : JobInfo)
    → IsBooked job
    → AreWhole (tasks_with_request (bucket pending job.task_status_index))
unfolding at bucket
pending-AreWhole job b =
    let listed = requests-EntriesWhole job.tasks b.distinct b.requests in
    let filed = of_code-EntriesWhole (status_code pending) job.tasks listed in
    with_request-AreWhole _ (subst EntriesWhole (sym (b.filed (status_code pending))) filed)

-- Every task of a list is such a one.
abbrev pub Every : (TaskInfo → Type 0) → List TaskInfo → Type 0
Every R ts = (t : TaskInfo) → Mem t ts → R t

module _ (R : TaskInfo → Type 0) (prop : (t : TaskInfo) → IsProp (R t)) where
  pub Every-All : (ts : List TaskInfo) → All R ts → Every R ts
  Every-All [] h = λ t m. absurd (not-mem-nil m)
  Every-All (t ∷ ts) h = (forall_mem-cons prop).1 (h.0, Every-All ts h.1)

  pub push_tasks-Every :
      {P : Type 0} (env : AllocateSession P) (ssn : SessionState P) (ts : List TaskInfo)
      (q : PriorityQueue TaskInfo)
      → Every R ts
      → Every R q.items
      → Ends (λ (r : PriorityQueue TaskInfo). Every R r.items) (push_tasks env ssn ts q)
  unfolding push_tasks
  push_tasks-Every env ssn [] q w v = Ends-done q v
  push_tasks-Every env ssn (t ∷ ts) q w v =
      let (first, rest) = (forall_mem-cons prop).0 w in
      Ends-bind (Ends-of_option panic (push-IsPushed q t)) λ q' p.
        push_tasks-Every env ssn ts q' rest
          (λ u m. (forall_mem-cons prop).1 (first, v) u ((Perm.mem_iff p.same).0 m))

module _ {P : Type 0} (env : AllocateSession P) where
  push_tasks-AreWhole :
      (ssn : SessionState P) (ts : List TaskInfo) (q : PriorityQueue TaskInfo)
      → AreWhole ts
      → AreWhole q.items
      → Ends (λ (r : PriorityQueue TaskInfo). AreWhole r.items) (push_tasks env ssn ts q)
  push_tasks-AreWhole ssn ts q w v =
      push_tasks-Every (λ t. IsRequest t.resreq) (λ t. IsRequest-prop t.resreq) env ssn ts q w v

  -- Whatever the state has for a job, or what its first visit makes.
  pub tasks_of-AreWhole :
      (st : AllocateState P) (j : JobInfo)
      → IsSound st.ssn
      → ∥ IsBooked j ∥₁
      → ((q : PriorityQueue TaskInfo) → lookup j.uid st.pending_tasks ≡ some q → AreWhole q.items)
      → Ends
          (λ (q : PriorityQueue TaskInfo).
            AreWhole q.items
            × ((lookup j.uid st.pending_tasks ≡ some q) ⊎ (lookup j.uid st.pending_tasks ≡ none)))
          (tasks_of env st j)
  unfolding tasks_of new_priority_queue
  tasks_of-AreWhole st j s b w = elim (Option-cases (lookup j.uid st.pending_tasks)) [
    | inr (q, e) ↦ rw (tasks_of, e) (Ends-done q (w q e, inl refl))
    | inl e ↦
        let whole : AreWhole
            (tasks_with_request (bucket pending (job_now st.ssn j).task_status_index)) =
          λ t m.
            ∥∥₁_elim b (IsRequest-prop t.resreq)
              λ c. pending-AreWhole (job_now st.ssn j) (job_now-IsBooked st.ssn j s c) t m in
        rw (tasks_of, e)
          (Ends-map
            (push_tasks-AreWhole st.ssn _ (new_priority_queue (some (task_order env st.ssn))) whole
              λ t m. absurd (not-mem-nil m))
            λ q v. (v, inr refl))
  ]
