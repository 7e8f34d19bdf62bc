-- ===== src/Allocate/Choice.antt =====
-- The choice of a queue: the queues that are left, and the one that is chosen.
use k8s_simulator.Common.{
  ℕ, ◌+◌, ◌≡◌, refl, sym, ap, ◌∙◌, subst, inl, inr, Bool, true, false, ◌==◌, Option, none, some,
  Option-cases, List, [], ◌∷◌, All, ◌≤◌, arith, Dict, Distinct, lookup, delete, lookup-delete,
  delete-Distinct, length, if◌then◌else◌,
}
use mathlib.Core.List.{Mem}
use k8s_simulator.Common.Runs.{Ends, Ends-done, Ends-map, Ends-if}
use k8s_simulator.Common.Sums.{is_found, sum_of, sum_of-delete-le, All-delete, contains}
use k8s_simulator.Job.{JobInfo}
use k8s_simulator.Job.Books.{IsBooked}
use k8s_simulator.Session.{QueueInfo}
use k8s_simulator.Session.Ballot.{overused}
use k8s_simulator.Queue.{PriorityQueue}
use k8s_simulator.Statement.{SessionState}
use k8s_simulator.Allocate.{AllocateSession}
use k8s_simulator.Allocate.Tasks.{session_of}
use k8s_simulator.Allocate.Rounds.{select_queue, has_no_jobs, better_queue}

-- A queue of jobs weighs one more than it has jobs.
abbrev pub queue_weight : PriorityQueue JobInfo → ℕ
queue_weight q = 1 + length q.items

abbrev pub weight_of : Dict (PriorityQueue JobInfo) → ℕ
weight_of m = sum_of queue_weight m

module _ {P : Type 0} (env : AllocateSession P) (universe : List ℕ) where
  -- The jobs in a queue are of the session that the action began with, and their books are kept.
  abbrev pub AreQueued : List JobInfo → Type 0
  AreQueued js = (j : JobInfo) → Mem j js → (contains j.uid universe ≡ true) × ∥ IsBooked j ∥₁

  abbrev pub IsEntry : ℕ × PriorityQueue JobInfo → Type 0
  IsEntry e = (is_found (lookup e.0 env.queues) ≡ true) × AreQueued e.1.items

  -- The map of a namespace.
  abbrev pub IsQueueMap : Dict (PriorityQueue JobInfo) → Type 0
  IsQueueMap m = Distinct m × All IsEntry m

  -- A queue that was chosen is in the map, and the loop does not come to it again.
  abbrev pub IsChoice :
      Dict (PriorityQueue JobInfo) → Dict (PriorityQueue JobInfo) → Option QueueInfo → Type 0
  IsChoice left m none = Unit
  IsChoice left m (some q) = (lookup q.uid left ≡ none) × (is_found (lookup q.uid m) ≡ true)

  still_found :
      (id k : ℕ) (m : Dict (PriorityQueue JobInfo))
      → Distinct m
      → (id == k) ≡ false
      → is_found (lookup k m) ≡ true
      → is_found (lookup k (delete id m)) ≡ true
  still_found id k m d other h = ap is_found (lookup-delete id k m d ∙ rw other refl) ∙ h

  All-found :
      (id : ℕ) (left m : Dict (PriorityQueue JobInfo))
      → Distinct m
      → lookup id left ≡ none
      → All (λ (e : ℕ × PriorityQueue JobInfo). is_found (lookup e.0 m) ≡ true) left
      → All (λ (e : ℕ × PriorityQueue JobInfo). is_found (lookup e.0 (delete id m)) ≡ true) left
  unfolding lookup
  All-found id [] m d e h = tt
  All-found id ((k, q) ∷ left) m d e h =
      let other : (id == k) ≡ false = ground arith in
      let rest : lookup id left ≡ none = ground arith in
      (still_found id k m d other h.0, All-found id left m d rest h.1)

  IsChoice-next :
      (id : ℕ) (q : PriorityQueue JobInfo) (left m : Dict (PriorityQueue JobInfo))
      (best : Option QueueInfo)
      → IsChoice ((id, q) ∷ left) m best
      → IsChoice left m best
  unfolding lookup
  IsChoice-next id q left m none h = tt
  IsChoice-next id q left m (some b) h = (ground arith, h.1)

  IsChoice-deleted :
      (id : ℕ) (q : PriorityQueue JobInfo) (left m : Dict (PriorityQueue JobInfo))
      (best : Option QueueInfo)
      → Distinct m
      → IsChoice ((id, q) ∷ left) m best
      → IsChoice left (delete id m) best
  unfolding lookup
  IsChoice-deleted id q left m none d h = tt
  IsChoice-deleted id q left m (some b) d h =
      let other : (id == b.uid) ≡ false = ground arith in
      (ground arith, still_found id b.uid m d other h.1)

  IsChoice-kept :
      (test : Bool) (left m : Dict (PriorityQueue JobInfo)) (best other : Option QueueInfo)
      → IsChoice left m best
      → IsChoice left m other
      → IsChoice left m (if test then best else other)
  IsChoice-kept true left m best other h g = h
  IsChoice-kept false left m best other h g = g

  -- Every queue of the session is listed under its UID.
  module _ (keyed : (k : ℕ) (q : QueueInfo) → lookup k env.queues ≡ some q → q.uid ≡ k)
      (ssn : SessionState P) where
    -- The loop leaves a map that is no heavier, and chooses a queue of it, if it chooses one.
    pub select_queue-IsChoice :
        (left m : Dict (PriorityQueue JobInfo)) (best : Option QueueInfo)
        → IsQueueMap m
        → Distinct left
        → All (λ (e : ℕ × PriorityQueue JobInfo). is_found (lookup e.0 env.queues) ≡ true) left
        → All (λ (e : ℕ × PriorityQueue JobInfo). is_found (lookup e.0 m) ≡ true) left
        → IsChoice left m best
        → Ends
            (λ (r : Dict (PriorityQueue JobInfo) × Option QueueInfo).
              IsQueueMap r.0 × (weight_of r.0 ≤ weight_of m) × IsChoice [] r.0 r.1)
            (select_queue env ssn left m best)
    unfolding select_queue
    select_queue-IsChoice [] m best ok d known there c = Ends-done _ (ok, omega arith, c)
    select_queue-IsChoice ((id, q) ∷ left) m best ok d known there c =
        elim (Option-cases (lookup id env.queues)) [
          | inl missing ↦ absurd (not_known missing known.0)
          | inr (current, e) ↦
              let uid : current.uid ≡ id = keyed id current e in
              let next = IsChoice-next id q left m best c in
              let itself : IsChoice left m (some current) = (
                subst (λ k. lookup k left ≡ none) (sym uid) d.0,
                subst (λ k. is_found (lookup k m) ≡ true) (sym uid) there.0,
              ) in
              rw (select_queue, e)
                (Ends-if (overused (session_of env ssn) current)
                  (λ over.
                    Ends-map
                      (select_queue-IsChoice left (delete id m) best
                        (delete-Distinct id m ok.0, All-delete _ id m ok.1) d.1 known.1
                        (All-found id left m ok.0 d.0 there.1)
                        (IsChoice-deleted id q left m best ok.0 c))
                      λ r (a, w, b). (a, omega (arith, sum_of-delete-le queue_weight id m), b))
                  λ fine. select_queue-IsChoice left m _ ok d.1 known.1 there.1 (
                    IsChoice-kept (has_no_jobs m current.uid) left m best _ next (
                      IsChoice-kept (better_queue env ssn current best) left m (some current) best
                        itself next)))
        ]
      where
        not_known : lookup id env.queues ≡ none → is_found (lookup id env.queues) ≡ true → ⊥
        not_known e f = let lost : false ≡ true = sym (ap is_found e) ∙ f in cc
