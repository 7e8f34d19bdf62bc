-- ===== src/Statement/Assignment.antt =====
-- An assignment through the pointer of an operation keeps the books of its session.
use k8s_simulator.Common.{◌≡◌, refl, sym, subst, inl, inr, some, Option-cases, lookup}
use k8s_simulator.Resource.Exact.{IsRequest}
use k8s_simulator.Task.{TaskInfo, generate_last_tx_context, clear_last_tx_context}
use k8s_simulator.Statement.{SessionState, write_task}
use k8s_simulator.Statement.Nodes.{IsSameTask}
use k8s_simulator.Statement.Operations.{assign}
use k8s_simulator.Statement.Soundness.{IsSound, insert_job-IsSound, write_held}

pub generated : (t : TaskInfo) → IsSameTask t (generate_last_tx_context t)
unfolding generate_last_tx_context
generated t = record { same_uid = refl; same_job = refl; same_status = refl; same_req = refl }

pub cleared : (t : TaskInfo) → IsSameTask t (clear_last_tx_context t)
unfolding clear_last_tx_context
cleared t = record { same_uid = refl; same_job = refl; same_status = refl; same_req = refl }

module _ {P : Type 0} (f : TaskInfo → TaskInfo) (same : (t : TaskInfo) → IsSameTask t (f t)) where
  pub assign-IsSound :
      (ssn : SessionState P) (t : TaskInfo)
      → IsSound ssn
      → IsRequest t.resreq
      → IsSound (assign f ssn t).0 × IsRequest (assign f ssn t).1.resreq
  unfolding assign
  assign-IsSound ssn t h q = elim (Option-cases (lookup t.job ssn.jobs)) [
    | inl missing ↦ rw (assign, missing) (h, subst IsRequest (sym (same t).same_req) q)
    | inr (job, e) ↦ elim (Option-cases (lookup t.uid job.tasks)) [
      | inl missing ↦ rw (assign, e, missing) (h, subst IsRequest (sym (same t).same_req) q)
      | inr (u, g) ↦
          let b = h.booked t.job job e in
          let there : lookup u.uid job.tasks ≡ some u =
            subst (λ i. lookup i job.tasks ≡ some u) (sym (b.keyed t.uid u g)) g in
          rw (assign, e, g)
            (
              insert_job-IsSound ssn t.job (write_task job (f u)) h
                  (write_held job u (f u) (b, there) (same u)),
              subst IsRequest (sym (same u).same_req) (b.requests t.uid u g),
            )
    ]
  ]
