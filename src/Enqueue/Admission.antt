-- ===== src/Enqueue/Admission.antt =====
-- The enqueue action as a whole.
use k8s_simulator.Common.{
  ℕ, suc, ◌≡◌, ap, ◌∙◌, inl, some, arith, length, ℤ, Dict, lookup, Distinct, Returns, Returns-bind,
  Returns-map,
}
use k8s_simulator.Job.{JobInfo}
use k8s_simulator.Enqueue.{EnqueueSession, EnqueueState, execute, start, rounds}
use k8s_simulator.Enqueue.Phases.{HaveGroups, Outcome}
use k8s_simulator.Enqueue.Collect.{collect-Offers, visited}
use k8s_simulator.Enqueue.Loop.{serve-IsServing}

module _ {P : Type 0} (ssn : EnqueueSession P) (now : ℕ → ℤ) (jobs : Dict JobInfo) (p : P) where
  -- Execute on jobs that each have a PodGroup and stand once in the map, under their UID: it returns, with no
  -- queue left to serve, and every job has then started to wait and is otherwise as it was, or it was
  -- pending and its phase is now Inqueue.
  pub execute-Outcome :
      Distinct jobs
      → ((k : ℕ) (j : JobInfo) → lookup k jobs ≡ some j → j.uid ≡ k)
      → HaveGroups jobs
      → Returns
          (λ (st : EnqueueState P).
            ((k : ℕ) (j : JobInfo) → lookup k jobs ≡ some j → ∥ Outcome st.jobs now k j ∥₁)
            × (length st.queues.items ≡ 0))
          (execute ssn now jobs p)
  unfolding execute start lookup
  execute-Outcome u keyed g =
      Returns-bind
        (collect-Offers ssn jobs now jobs (start ssn jobs p) u (λ k j e. (keyed k j e, e))
          λ k q e. absurd (ground arith))
        λ st (offers, after).
          Returns-map
            (serve-IsServing ssn jobs now (suc (rounds st)) st g
              (record {
                offered = offers;
                outcome = λ k j e.
                    ∣ inl (after k ∙ ap (λ o. visited ssn jobs now o (lookup k jobs)) e) ∣₁;
              })
              (omega arith))
            λ st' (v, none_left). (v.outcome, none_left)
