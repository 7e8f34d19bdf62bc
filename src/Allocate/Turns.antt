-- ===== src/Allocate/Turns.antt =====
-- The loop over the tasks of a job ends.
use k8s_simulator.Common.{
  ℕ, zero, suc, ◌≡◌, refl, sym, ap, ◌∙◌, subst, ◌⊎◌, inl, inr, Bool, true, false, not, ◌&&◌, ◌==◌,
  Bool-cases, List, [], ◌∷◌, pos, ◌≤ℤ◌, ◌≤◌, ◌<◌, arith, Dict, length, length-Perm,
}
use mathlib.Core.List.{Mem, Perm, mem-cons_self, mem-cons_of_mem}
use mathlib.Core.List.Perm
use k8s_simulator.Common.Runs.{panic, Ends, Ends-done, Ends-bind, Ends-map, Ends-of_option, Ends-if}
use k8s_simulator.Resource.Exact.{IsRequest}
use k8s_simulator.Task.{TaskInfo}
use k8s_simulator.Job.{JobInfo}
use k8s_simulator.Node.{NodeInfo}
use k8s_simulator.Session.{QueueInfo}
use k8s_simulator.Session.Ballot.{allocatable, job_ready}
use k8s_simulator.Queue.{PriorityQueue, empty}
use k8s_simulator.Queue.Laws.{push-IsPushed}
use k8s_simulator.Queue.Take.{pop-IsTaken}
use k8s_simulator.Helper.{get_node_list}
use k8s_simulator.Helper.Fitting.{predicate_nodes-IsFitting}
use k8s_simulator.Statement.{SessionState}
use k8s_simulator.Allocate.{
  AllocateSession, sorted_by, job_now, job_order, task_now, task_order, push_job,
  resource_predicate, choose_node,
}
use k8s_simulator.Allocate.Tasks.{
  Visit, session_of, in_session, after_task, place_task_on, find_node, serve_task, serve_tasks,
}
use k8s_simulator.Allocate.Steps.{
  no_node_or, resource_predicate-Ends, candidate_nodes-Ends, IsOpen, task_now-IsRequest,
  place_on-IsOpen, record_fit_errors-IsSound,
}

-- The tasks of a queue have whole requests.
abbrev pub AreWhole : List TaskInfo → Type 0
AreWhole ts = (t : TaskInfo) → Mem t ts → IsRequest t.resreq

pub push_job-IsPushed :
    {P : Type 0} (env : AllocateSession P) (ssn : SessionState P) (jobs : PriorityQueue JobInfo)
    (j : JobInfo)
    → Ends (λ (q : PriorityQueue JobInfo). Perm q.items (j ∷ jobs.items)) (push_job env ssn jobs j)
unfolding push_job sorted_by
push_job-IsPushed env ssn jobs j =
    Ends-map (Ends-of_option panic (push-IsPushed (sorted_by (job_order env ssn) jobs) j))
      λ q p. p.same

contradiction : true ≡ false → ⊥
contradiction e = cc

module _ {P : Type 0} (env : AllocateSession P) (sane : pos 0 ≤ℤ env.opts.min_nodes_to_find)
    (queue : QueueInfo) (names : List ℕ) (j : JobInfo) where
  -- The body of the loop leaves the tasks alone, and the job's queue too, unless it puts the job back.
  abbrev Served : Visit P → Visit P × Bool → Type 0
  Served v r =
      IsOpen r.0.stmt
      × (r.0.tasks ≡ v.tasks)
      × ((r.0.jobs ≡ v.jobs) ⊎ ((r.1 ≡ false) × Perm r.0.jobs.items (j ∷ v.jobs.items)))

  after_task-Served : (v : Visit P) → IsOpen v.stmt → Ends (Served v) (after_task env j v)
  unfolding after_task
  after_task-Served v h =
      Ends-if (job_ready (session_of env v.stmt.ssn) (job_now v.stmt.ssn j) && not (empty v.tasks))
        (λ e.
          Ends-bind (push_job-IsPushed env v.stmt.ssn v.jobs j)
            λ jobs' p. Ends-done _ (h, refl, inr (refl, p)))
        λ e. Ends-done _ (h, refl, inl refl)

  place_task_on-Served :
      (v : Visit P) (t : TaskInfo) (ns : List NodeInfo)
      → IsOpen v.stmt
      → IsRequest t.resreq
      → Ends (Served v) (place_task_on env j v t ns)
  unfolding place_task_on
  place_task_on-Served v t [] h q = Ends-done _ (h, refl, inl refl)
  place_task_on-Served v t (n ∷ ns) h q =
      Ends-bind (no_node_or (choose_node (session_of env v.stmt.ssn) t (n ∷ ns))) λ node e.
        Ends-bind (place_on-IsOpen env v.stmt t node h q)
          λ stmt' h'. after_task-Served (record v { stmt = stmt' }) h'

  find_node-Served :
      (v : Visit P) (t : TaskInfo) (ns : List NodeInfo) (fe : Dict ℕ)
      → IsOpen v.stmt
      → IsRequest t.resreq
      → Ends (Served v) (find_node env j v t ns fe)
  unfolding find_node in_session
  find_node-Served v t [] fe h q =
      Ends-done _ ((record_fit_errors-IsSound v.stmt.ssn j t.uid fe h.0, h.1), refl, inl refl)
  find_node-Served v t (n ∷ ns) fe h q =
      Ends-bind (candidate_nodes-Ends t (n ∷ ns)) λ cs u. place_task_on-Served v t cs h q

  serve_task-Served :
      (v : Visit P) (t : TaskInfo)
      → IsOpen v.stmt
      → IsRequest t.resreq
      → Ends (Served v) (serve_task env queue names j v t)
  unfolding serve_task
  serve_task-Served v t h q =
      let ssn = v.stmt.ssn in
      let task = task_now ssn t in
      let predicate = resource_predicate (session_of env ssn) in
      Ends-if (not (allocatable (session_of env ssn) queue task))
        (λ e. Ends-done _ (h, refl, inl refl))
        λ e.
          Ends-bind
            (predicate_nodes-IsFitting predicate task
              (resource_predicate-Ends (session_of env ssn) task) env.opts
              (get_node_list ssn.nodes names) v.helper sane)
            λ (ns, fe, helper') f.
              find_node-Served (record v { helper = helper' }) task ns fe h
                (task_now-IsRequest ssn t h.0 q)

  -- What the whole loop leaves: fewer tasks if the job is back in its queue.
  abbrev pub Turned : Visit P → Visit P → Type 0
  Turned v r =
      IsOpen r.stmt
      × AreWhole r.tasks.items
      × (length r.tasks.items ≤ length v.tasks.items)
      × ((r.jobs ≡ v.jobs)
          ⊎ (Perm r.jobs.items (j ∷ v.jobs.items) × (length r.tasks.items < length v.tasks.items)))

  pub serve_tasks-Turned :
      (k : ℕ) (v : Visit P)
      → length v.tasks.items < k
      → IsOpen v.stmt
      → AreWhole v.tasks.items
      → Ends (Turned v) (serve_tasks k env queue names j v)
  unfolding serve_tasks sorted_by empty
  serve_tasks-Turned zero v small h w = absurd (omega arith)
  serve_tasks-Turned (suc k) v small h w =
      Ends-if (length v.tasks.items == 0) (λ e. Ends-done _ (h, w, omega arith, inl refl))
        λ some_left.
          let sorted = sorted_by (task_order env v.stmt.ssn) v.tasks in
          let ((top, rest), popped, t) = pop-IsTaken sorted (ground arith) in
          let got = t.got in
          let inside =
            λ (y : TaskInfo) (m : Mem y (t.top ∷ rest.items)). w y ((Perm.mem_iff t.same).0 m) in
          let fewer : length rest.items < length v.tasks.items =
            omega (arith, length-Perm t.same) in
          rw (popped, got)
            (Ends-bind
              (serve_task-Served (record v { tasks = rest }) t.top h (inside t.top mem-cons_self))
              λ (v', more) (h', same, jobs').
                let whole : AreWhole v'.tasks.items =
                  λ y m. inside y (mem-cons_of_mem t.top (rw same at m)) in
                let left : length v'.tasks.items ≡ length rest.items =
                  ap (λ (q : PriorityQueue TaskInfo). length q.items) same in
                elim (Bool-cases more) [
                  | inr stops ↦ rw stops (
                      Ends-done _ (
                        h',
                        whole,
                        omega arith,
                        elim jobs' [ inl kept ↦ inl kept | inr (_, p) ↦ inr (p, omega arith) ],
                      ))
                  | inl goes_on ↦ rw goes_on (
                      Ends-map (serve_tasks-Turned k v' (omega arith) h' whole)
                        λ r (hr, wr, fewer_left, js).
                          let kept : v'.jobs ≡ v.jobs = elim jobs' [
                            | inl e ↦ e
                            | inr (stopped, _) ↦ absurd (contradiction (sym goes_on ∙ stopped))
                          ] in
                          (
                            hr,
                            wr,
                            omega arith,
                            elim js [
                              | inl e ↦ inl (e ∙ kept)
                              | inr (p, lost) ↦ inr (
                                subst
                                    (λ (q : PriorityQueue JobInfo). Perm r.jobs.items (j ∷ q.items))
                                    kept p,
                                omega arith,
                              )
                            ],
                          ))
                ])
