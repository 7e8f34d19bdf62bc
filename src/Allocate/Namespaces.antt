-- ===== src/Allocate/Namespaces.antt =====
-- The turn of a namespace.
use k8s_simulator.Common.{
  ℕ, ◌≤◌, ◌≡◌, refl, ap, inl, inr, Bool, true, false, ◌==◌, Option, none, some, Option-cases, List,
  [], ◌∷◌, All, arith, pos, ◌≤ℤ◌, Dict, Distinct, lookup, insert, delete, delete-Distinct, length,
  if◌then◌else◌,
}
use k8s_simulator.Common.Runs.{done, Ends, Ends-done, Ends-bind, Ends-map, Ends-if}
use k8s_simulator.Common.Sums.{
  is_found, sum_of-insert, sum_of-delete, All-lookup, All-insert, All-delete, missing,
}
use k8s_simulator.Job.{JobInfo}
use k8s_simulator.Session.{QueueInfo}
use k8s_simulator.Queue.{PriorityQueue, empty}
use k8s_simulator.Queue.Take.{pop-IsTaken}
use k8s_simulator.Allocate.{AllocateSession, AllocateState, sorted_by, job_order}
use k8s_simulator.Allocate.Choice.{
  queue_weight, weight_of, IsEntry, IsQueueMap, IsChoice, select_queue-IsChoice,
}
use k8s_simulator.Allocate.Rounds.{
  select_queue, queues_in, keep_queues, serve_queue_of, serve_namespace,
}
use k8s_simulator.Allocate.Progress.{size, IsReady, Progress, push_namespace-Progress}
use k8s_simulator.Allocate.Service.{serve_job-Progress}
use k8s_simulator.Common.{lookup-cons_self, lookup-insert_self}

Found : {V : Type 0} → Dict V → Dict V → Type 0
Found left d = All (λ e. is_found (lookup e.0 d) ≡ true) left

module _ {V : Type 0} where
  found_next :
      (k : ℕ) (v : V) (left d : Dict V)
      → lookup k left ≡ none
      → Distinct left
      → All (λ (e : ℕ × V). is_found (lookup e.0 d) ≡ true) left
      → All (λ (e : ℕ × V). is_found (lookup e.0 ((k, v) ∷ d)) ≡ true) left
  unfolding lookup
  found_next k v [] d e u h = tt
  found_next k v ((j, w) ∷ left) d e u h =
      (by_test (k == j) h.0, found_next k v left d (ground arith) u.1 h.1)
    where
      by_test :
          (test : Bool)
          → is_found (lookup j d) ≡ true
          → is_found (if test then some v else lookup j d) ≡ true
      by_test true f = refl
      by_test false f = f

  self_found : (d : Dict V) → Distinct d → All (λ (e : ℕ × V). is_found (lookup e.0 d) ≡ true) d
  self_found [] u = tt
  self_found ((k, v) ∷ d) u =
      (ap is_found (lookup-cons_self k v d), found_next k v d d u.0 u.1 (self_found d u.1))

is_found-some : {V : Type 0} (o : Option V) → is_found o ≡ true → (v : V) × (o ≡ some v)
is_found-some none e = absurd cc
is_found-some (some v) e = (v, refl)

module _ {P : Type 0} (env : AllocateSession P) (universe : List ℕ)
    (sane : pos 0 ≤ℤ env.opts.min_nodes_to_find)
    (keyed : (k : ℕ) (q : QueueInfo) → lookup k env.queues ≡ some q → q.uid ≡ k) where
  known_queues :
      (m : Dict (PriorityQueue JobInfo))
      → All (IsEntry env universe) m
      → All (λ (e : ℕ × PriorityQueue JobInfo). is_found (lookup e.0 env.queues) ≡ true) m
  known_queues [] h = tt
  known_queues (e ∷ m) h = (h.0.0, known_queues m h.1)

  with_map :
      (st : AllocateState P) (n : ℕ) (m : Dict (PriorityQueue JobInfo))
      → IsReady env universe st
      → IsQueueMap env universe m
      → IsReady env universe (record st { jobs_map = insert n m st.jobs_map })
  with_map st n m r ok = record {
    cluster_sound = r.cluster_sound;
    sound = r.sound;
    whole = r.whole;
    maps = All-insert _ n m st.jobs_map r.maps ok;
  }

  abbrev Moves : AllocateState P → AllocateState P → Type 0
  Moves st st' = IsReady env universe st' × Progress env universe st st'

  serve_queue_of-Progress :
      (st : AllocateState P) (n : ℕ) (m : Dict (PriorityQueue JobInfo)) (queue : QueueInfo)
      → IsReady env universe st
      → lookup n st.jobs_map ≡ some m
      → is_found (lookup queue.uid m) ≡ true
      → Ends (Moves st) (serve_queue_of env st n m queue)
  unfolding serve_queue_of keep_queues empty sorted_by
  serve_queue_of-Progress st n m queue r at_n found =
      let (jobs, at_queue) = is_found-some (lookup queue.uid m) found in
      let ok = All-lookup _ n m st.jobs_map r.maps at_n in
      rw (serve_queue_of, at_queue)
        (Ends-if (length jobs.items == 0)
          (λ e.
            rw (keep_queues, at_n)
              (push_namespace-Progress env universe st _ n
                (with_map st n (delete queue.uid m) r
                  (delete-Distinct queue.uid m ok.0, All-delete _ queue.uid m ok.1))
                (inr (
                  omega arith,
                  omega (
                    arith,
                    sum_of-insert weight_of n m (delete queue.uid m) st.jobs_map at_n,
                    sum_of-delete queue_weight queue.uid jobs m at_queue,
                  ),
                ))))
          λ some_jobs.
            let ((top, rest), popped, t) =
              pop-IsTaken (sorted_by (job_order env st.ssn) jobs) (ground arith) in
            let got = t.got in
            rw (popped, got)
              (serve_job-Progress env universe sane st n m queue jobs rest t.top r at_n at_queue
                t.same))

  combined :
      (st mid st' : AllocateState P)
      → mid.pending_tasks ≡ st.pending_tasks
      → size mid ≤ size st
      → Progress env universe mid st'
      → Progress env universe st st'
  combined st mid st' same less p =
      let count = ap (missing universe) same in
      elim p [
        | inl fewer ↦ inl (omega (arith, count))
        | inr (no_more, smaller) ↦ inr (omega (arith, count), omega arith)
      ]

  keep_queues-eq :
      (st : AllocateState P) (n : ℕ) (m m' : Dict (PriorityQueue JobInfo))
      → lookup n st.jobs_map ≡ some m
      → keep_queues st n m' ≡ record st { jobs_map = insert n m' st.jobs_map }
  unfolding keep_queues
  keep_queues-eq st n m m' e = rw (keep_queues, e) refl

  by_choice :
      (st : AllocateState P) (n : ℕ) (m m' : Dict (PriorityQueue JobInfo)) (best : Option QueueInfo)
      → IsReady env universe st
      → lookup n st.jobs_map ≡ some m
      → IsQueueMap env universe m'
      → weight_of m' ≤ weight_of m
      → IsChoice env universe [] m' best
      → Ends (Moves st) (elim best [
        | none ↦ done (keep_queues st n m')
        | some queue ↦ serve_queue_of env (keep_queues st n m') n m' queue
      ])
  by_choice st n m m' none r e ok lighter c = rw (keep_queues-eq st n m m' e) (
      Ends-done _ (
        with_map st n m' r ok,
        inr (omega arith, omega (arith, sum_of-insert weight_of n m m' st.jobs_map e)),
      ))
  by_choice st n m m' (some queue) r e ok lighter c =
      let kept = record st { jobs_map = insert n m' st.jobs_map } in
      let less : size kept ≤ size st =
        omega (arith, sum_of-insert weight_of n m m' st.jobs_map e) in
      rw (keep_queues-eq st n m m' e) (
        Ends-map
          (serve_queue_of-Progress kept n m' queue (with_map st n m' r ok)
            (lookup-insert_self n m' st.jobs_map) c.1)
          λ st' (r', p). (r', combined st kept st' refl less p))

  pub serve_namespace-Progress :
      (st : AllocateState P) (n : ℕ)
      → IsReady env universe st
      → Ends (Moves st) (serve_namespace env st n)
  unfolding serve_namespace queues_in keep_queues select_queue
  serve_namespace-Progress st n r = elim (Option-cases (lookup n st.jobs_map)) [
    | inl missing_map ↦
        rw (serve_namespace, queues_in, missing_map, select_queue, keep_queues, missing_map)
          (Ends-done st (r, inr (omega arith, omega arith)))
    | inr (m, e) ↦
        let ok = All-lookup _ n m st.jobs_map r.maps e in
        rw (serve_namespace, queues_in, e)
          (Ends-bind
            (select_queue-IsChoice env universe keyed st.ssn m m none ok ok.0 (known_queues m ok.1)
              (self_found m ok.0) tt)
            λ (m', best) (ok', lighter, choice). by_choice st n m m' best r e ok' lighter choice)
  ]
