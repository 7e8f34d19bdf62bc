-- ===== src/Allocate/Service.antt =====
-- The turn of a job, and of a namespace.
use k8s_simulator.Common.{
  ℕ, suc, ◌+◌, ◌≤◌, ◌<◌, ◌≡◌, sym, ap, subst, ◌⊎◌, inl, inr, ◌==◌, Bool-cases, some, List, ◌∷◌,
  arith, pos, ◌≤ℤ◌, Dict, lookup, insert, lookup-insert, insert-Distinct, length, length-Perm,
}
use mathlib.Core.List.{Perm, mem-cons_self, mem-cons_of_mem}
use mathlib.Core.List.Perm
use k8s_simulator.Common.Runs.{Ends, Ends-bind}
use k8s_simulator.Common.Sums.{
  sum_of, sum_of-insert, All-lookup, All-insert, missing-insert-le, missing-insert-lt,
}
use k8s_simulator.Task.{TaskInfo}
use k8s_simulator.Job.{JobInfo}
use k8s_simulator.Session.{QueueInfo}
use k8s_simulator.Queue.{PriorityQueue}
use k8s_simulator.Allocate.{AllocateSession, AllocateState, nodes_for}
use k8s_simulator.Allocate.Turns.{AreWhole, serve_tasks-Turned}
use k8s_simulator.Allocate.Choice.{queue_weight, weight_of, AreQueued, IsQueueMap}
use k8s_simulator.Allocate.Pending.{tasks_of-AreWhole}
use k8s_simulator.Allocate.Rounds.{serve_job}
use k8s_simulator.Allocate.Progress.{
  tasks_left, size, IsReady, Progress, push_namespace-Progress, settle-AreSound,
}

module _ {P : Type 0} (env : AllocateSession P) (universe : List ℕ)
    (sane : pos 0 ≤ℤ env.opts.min_nodes_to_find) where
  queued-Perm :
      (a b : List JobInfo) → Perm a b → AreQueued env universe b → AreQueued env universe a
  queued-Perm a b p h = λ j m. h j ((Perm.mem_iff p).0 m)

  insert-whole :
      (i : ℕ) (tasks : PriorityQueue TaskInfo) (d : Dict (PriorityQueue TaskInfo))
      → AreWhole tasks.items
      → ((k : ℕ) (q : PriorityQueue TaskInfo) → lookup k d ≡ some q → AreWhole q.items)
      → (k : ℕ) (q : PriorityQueue TaskInfo) → lookup k (insert i tasks d) ≡ some q
      → AreWhole q.items
  insert-whole i tasks d w h k q e = elim (Bool-cases (i == k)) [
    | inl here ↦
        let same : tasks ≡ q = ground (arith, lookup-insert i k tasks d) in
        subst (λ (r : PriorityQueue TaskInfo). AreWhole r.items) same w
    | inr other ↦ h k q (ground (arith, lookup-insert i k tasks d))
  ]

  -- A queue of the map of a namespace is replaced.
  replace_queue :
      (id : ℕ) (q r : PriorityQueue JobInfo) (m : Dict (PriorityQueue JobInfo))
      → IsQueueMap env universe m
      → lookup id m ≡ some q
      → AreQueued env universe r.items
      → IsQueueMap env universe (insert id r m)
  replace_queue id q r m (d, h) e w =
      (insert-Distinct id r m d, All-insert _ id r m h ((All-lookup _ id q m h e).0, w))

  -- What the turn of a job leaves in its queue and among its tasks is less than there was.
  turn_less :
      (j : JobInfo) (jobs rest jobs' : PriorityQueue JobInfo)
      (tasks tasks' : PriorityQueue TaskInfo)
      → Perm (j ∷ rest.items) jobs.items
      → (length tasks'.items ≤ length tasks.items)
      → (jobs' ≡ rest)
        ⊎ (Perm jobs'.items (j ∷ rest.items) × (length tasks'.items < length tasks.items))
      → queue_weight jobs' + tasks_left tasks' < queue_weight jobs + tasks_left tasks
  turn_less j jobs rest jobs' tasks tasks' p fewer (inl e) =
      let same : length jobs'.items ≡ length rest.items =
        ap (λ (q : PriorityQueue JobInfo). length q.items) e in
      omega (arith, length-Perm p)
  turn_less j jobs rest jobs' tasks tasks' p fewer (inr (b, lost)) =
      omega (arith, length-Perm p, length-Perm b)

  still_queued :
      (j : JobInfo) (jobs rest jobs' : PriorityQueue JobInfo) (lost : Type 0)
      → Perm (j ∷ rest.items) jobs.items
      → (jobs' ≡ rest) ⊎ (Perm jobs'.items (j ∷ rest.items) × lost)
      → AreQueued env universe jobs.items
      → AreQueued env universe jobs'.items
  still_queued j jobs rest jobs' lost p (inl e) h =
      subst (λ (q : PriorityQueue JobInfo). AreQueued env universe q.items) (sym e)
        λ i m. h i ((Perm.mem_iff p).0 (mem-cons_of_mem j m))
  still_queued j jobs rest jobs' lost p (inr (b, l)) h = queued-Perm _ _ (Perm.trans b p) h

  smaller :
      (st : AllocateState P) (n : ℕ) (m : Dict (PriorityQueue JobInfo)) (queue : QueueInfo)
      (jobs jobs' : PriorityQueue JobInfo) (j : JobInfo) (tasks tasks' : PriorityQueue TaskInfo)
      → lookup n st.jobs_map ≡ some m
      → lookup queue.uid m ≡ some jobs
      → lookup j.uid st.pending_tasks ≡ some tasks
      → queue_weight jobs' + tasks_left tasks' < queue_weight jobs + tasks_left tasks
      → length st.namespaces.items
          + sum_of weight_of (insert n (insert queue.uid jobs' m) st.jobs_map)
          + sum_of tasks_left (insert j.uid tasks' st.pending_tasks)
        < size st
  smaller st n m queue jobs jobs' j tasks tasks' at_n at_queue old less = omega (
    arith,
    less,
    sum_of-insert weight_of n m (insert queue.uid jobs' m) st.jobs_map at_n,
    sum_of-insert queue_weight queue.uid jobs jobs' m at_queue,
    sum_of-insert tasks_left j.uid tasks tasks' st.pending_tasks old,
  )

  pub serve_job-Progress :
      (st : AllocateState P) (n : ℕ) (m : Dict (PriorityQueue JobInfo)) (queue : QueueInfo)
      (jobs rest : PriorityQueue JobInfo) (j : JobInfo)
      → IsReady env universe st
      → lookup n st.jobs_map ≡ some m
      → lookup queue.uid m ≡ some jobs
      → Perm (j ∷ rest.items) jobs.items
      → Ends
          (λ st'. IsReady env universe st' × Progress env universe st st')
          (serve_job env st n m queue j rest)
  unfolding serve_job
  serve_job-Progress st n m queue jobs rest j r at_n at_queue p =
      let ok = All-lookup _ n m st.jobs_map r.maps at_n in
      let queued = (All-lookup _ queue.uid jobs m ok.1 at_queue).1 in
      let (in_universe, booked) = queued j ((Perm.mem_iff p).0 mem-cons_self) in
      Ends-bind (tasks_of-AreWhole env st j r.sound booked (r.whole j.uid)) λ tasks (w, known).
        Ends-bind
          (serve_tasks-Turned env sane queue (nodes_for env j) j (suc (length tasks.items)) _
            (omega arith) (r.sound, tt) w)
          λ v (still_open, w', fewer, js).
            Ends-bind (settle-AreSound env universe st.cluster j v.stmt r.cluster_sound still_open)
              λ (cluster', ssn') (c', s').
                push_namespace-Progress env universe st _ n
                  (record {
                    cluster_sound = c';
                    sound = s';
                    whole = insert-whole j.uid v.tasks st.pending_tasks w' r.whole;
                    maps = All-insert _ n _ st.jobs_map r.maps (
                        replace_queue queue.uid jobs v.jobs m ok at_queue
                          (still_queued j jobs rest v.jobs _ p js queued));
                  })
                  (elim known [
                    | inr new_job ↦ inl (
                        missing-insert-lt universe j.uid v.tasks st.pending_tasks in_universe
                          new_job)
                    | inl old ↦ inr (
                      missing-insert-le universe j.uid v.tasks st.pending_tasks,
                      smaller st n m queue jobs v.jobs j tasks v.tasks at_n at_queue old
                          (turn_less j jobs rest v.jobs tasks v.tasks p fewer js),
                    )
                  ])
