-- ===== src/Allocate/Execution.antt =====
-- The loop over the namespaces ends.
use k8s_simulator.Common.{
  ℕ, zero, suc, ◌≤◌, ◌<◌, ◌≡◌, refl, ap, inl, inr, true, ◌==◌, Bool-cases, some, List, arith, pos,
  ◌≤ℤ◌, lookup, length, length-Perm,
}
use k8s_simulator.Common.Runs.{◌>>=◌, Ends, Ends-done, Ends-map}
use k8s_simulator.Common.Sums.{missing}
use k8s_simulator.Session.{QueueInfo}
use k8s_simulator.Queue.{empty}
use k8s_simulator.Queue.Take.{pop-IsTaken}
use k8s_simulator.Allocate.{AllocateSession, AllocateState, sorted_by, namespace_order}
use k8s_simulator.Allocate.Rounds.{serve_namespace, serve_namespaces}
use k8s_simulator.Allocate.Progress.{size, IsReady, Progress, with_namespaces}
use k8s_simulator.Allocate.Namespaces.{serve_namespace-Progress}

module _ {P : Type 0} (env : AllocateSession P) (universe : List ℕ)
    (sane : pos 0 ≤ℤ env.opts.min_nodes_to_find)
    (keyed : (k : ℕ) (q : QueueInfo) → lookup k env.queues ≡ some q → q.uid ≡ k) where
  -- The books are kept and no namespace is left.
  abbrev pub IsOver : AllocateState P → Type 0
  IsOver st = IsReady env universe st × (length st.namespaces.items ≡ 0)

  -- From some fuel on, the loop ends.
  abbrev pub EndsLater : AllocateState P → Type 0
  EndsLater st = (n : ℕ) × ((k : ℕ) → n ≤ k → Ends IsOver (serve_namespaces k env st))

  -- A round that ended, and the rest of the loop after it.
  after_round :
      (st mid : AllocateState P) (top : ℕ)
      → ((k : ℕ)
          → serve_namespaces (suc k) env st
            ≡ (serve_namespace env mid top >>= serve_namespaces k env))
      → Ends EndsLater (serve_namespace env mid top)
      → EndsLater st
  after_round st mid top opens (inl (st', e, (n, rest))) = (suc n, λ k h. from k h)
    where
      from : (k : ℕ) → suc n ≤ k → Ends IsOver (serve_namespaces k env st)
      from zero h = absurd (omega arith)
      from (suc k) h = rw (opens k, e) (rest k (omega arith))
  after_round st mid top opens (inr (inl e)) = (1, λ k h. from k h)
    where
      from : (k : ℕ) → 1 ≤ k → Ends IsOver (serve_namespaces k env st)
      from zero h = absurd (omega arith)
      from (suc k) h = rw (opens k, e) (inr (inl refl))
  after_round st mid top opens (inr (inr e)) = (1, λ k h. from k h)
    where
      from : (k : ℕ) → 1 ≤ k → Ends IsOver (serve_namespaces k env st)
      from zero h = absurd (omega arith)
      from (suc k) h = rw (opens k, e) (inr (inr refl))

  round-EndsLater :
      (st : AllocateState P)
      → IsReady env universe st
      → ((mid st' : AllocateState P)
          → mid.pending_tasks ≡ st.pending_tasks
          → size mid < size st
          → IsReady env universe st'
          → Progress env universe mid st'
          → EndsLater st')
      → EndsLater st
  unfolding serve_namespaces sorted_by empty
  round-EndsLater st r next = elim (Bool-cases (length st.namespaces.items == 0)) [
    | inl none_left ↦ (1, λ k h. over k none_left h)
    | inr some_left ↦
        let sorted = sorted_by (namespace_order env st.ssn) st.namespaces in
        let ((top, rest), popped, t) = pop-IsTaken sorted (ground arith) in
        let got = t.got in
        let mid = record st { namespaces = rest } in
        let less : size mid < size st = omega (arith, length-Perm t.same) in
        after_round st mid t.top (λ k. rw (serve_namespaces, some_left, popped, got) refl)
          (Ends-map
            (serve_namespace-Progress env universe sane keyed mid t.top
              (with_namespaces env universe st rest r))
            λ st' (r', p). next mid st' refl less r' p)
  ]
    where
      over :
          (k : ℕ)
          → (length st.namespaces.items == 0) ≡ true
          → 1 ≤ k
          → Ends IsOver (serve_namespaces k env st)
      over zero e h = absurd (omega arith)
      over (suc k) e h = rw (serve_namespaces, e) (Ends-done st (r, ground arith))

  -- Every round visits a job for the first time, or makes what is left less.
  pub serve_namespaces-EndsLater :
      (u w : ℕ) (st : AllocateState P)
      → IsReady env universe st
      → missing universe st.pending_tasks ≤ u
      → size st ≤ w
      → EndsLater st
  serve_namespaces-EndsLater zero zero st r few small =
      round-EndsLater st r λ mid st' same less r' p. absurd (omega arith)
  serve_namespaces-EndsLater zero (suc w) st r few small =
      round-EndsLater st r λ mid st' same less r' p.
        let count = ap (missing universe) same in
        elim p [
          | inl fewer ↦ absurd (omega (arith, count))
          | inr (no_more, smaller) ↦
              serve_namespaces-EndsLater zero w st' r' (omega (arith, count)) (omega arith)
        ]
  serve_namespaces-EndsLater (suc u) zero st r few small =
      round-EndsLater st r λ mid st' same less r' p. absurd (omega arith)
  serve_namespaces-EndsLater (suc u) (suc w) st r few small =
      round-EndsLater st r λ mid st' same less r' p.
        let count = ap (missing universe) same in
        elim p [
          | inl fewer ↦
              serve_namespaces-EndsLater u (size st') st' r' (omega (arith, count)) (omega arith)
          | inr (no_more, smaller) ↦
              serve_namespaces-EndsLater (suc u) w st' r' (omega (arith, count)) (omega arith)
        ]
