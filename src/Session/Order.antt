-- ===== src/Session/Order.antt =====
-- pkg/scheduler/framework/session_plugins.go: the order of jobs, queues, namespaces and tasks.
use k8s_simulator.Common.{
  ℕ, Bool, not, none, some, List, [], ◌∷◌, ltb, if◌then◌else◌, ℤ, pos, ltb_ℤ, eqb_ℤ,
}
use k8s_simulator.Task.{TaskInfo}
use k8s_simulator.Job.{JobInfo}
use k8s_simulator.Session.{QueueInfo, Session, all_voters}

-- The loops of the order functions: the first comparison that is not 0.
unfoldable pub compare_fns {ℓ} : {A : Type ℓ} → List (A → A → ℤ) → A → A → ℤ
compare_fns [] l r = pos 0
compare_fns (f ∷ fs) l r = if eqb_ℤ (f l r) (pos 0) then compare_fns fs l r else f l r

-- The order that the code falls back to: by time of creation, then by UID.
unfoldable pub by_creation : ℤ → ℤ → ℕ → ℕ → Bool
by_creation lt rt lu ru = if eqb_ℤ lt rt then ltb lu ru else ltb_ℤ lt rt

-- `if j := ...; j != 0 { return j < 0 }`, then the fallback.
unfoldable pub precedes : ℤ → Bool → Bool
precedes j fallback = if eqb_ℤ j (pos 0) then fallback else ltb_ℤ j (pos 0)

-- CompareTask: by the index of the pod, or by its time of creation.
unfoldable pub compare_task : TaskInfo → TaskInfo → Bool
compare_task lv rv =
    let earlier = ltb_ℤ lv.pod.creation_timestamp rv.pod.creation_timestamp in
    elim lv.pod.index_under_task [
      | none ↦ earlier
      | some l_index ↦ elim rv.pod.index_under_task [
        | none ↦ earlier
        | some r_index ↦ if eqb_ℤ l_index r_index then earlier else not (ltb_ℤ r_index l_index)
      ]
    ]

-- JobOrderFn, QueueOrderFn, NamespaceOrderFn, TaskCompareFns and TaskOrderFn
unfoldable pub job_order_fn : Session → JobInfo → JobInfo → Bool
job_order_fn ssn l r =
    precedes (compare_fns (all_voters (λ p. p.enabled_job_order) ssn.job_order_fns ssn.tiers) l r)
      (by_creation l.creation_timestamp r.creation_timestamp l.uid r.uid)

unfoldable pub queue_order_fn : Session → QueueInfo → QueueInfo → Bool
queue_order_fn ssn l r =
    precedes
      (compare_fns (all_voters (λ p. p.enabled_queue_order) ssn.queue_order_fns ssn.tiers) l r)
      (by_creation l.creation_timestamp r.creation_timestamp l.uid r.uid)

unfoldable pub namespace_order_fn : Session → ℕ → ℕ → Bool
namespace_order_fn ssn l r =
    precedes
      (compare_fns (all_voters (λ p. p.enabled_namespace_order) ssn.namespace_order_fns ssn.tiers) l
        r)
      (ltb l r)

unfoldable pub task_compare_fns : Session → TaskInfo → TaskInfo → ℤ
task_compare_fns ssn l r =
    compare_fns (all_voters (λ p. p.enabled_task_order) ssn.task_order_fns ssn.tiers) l r

unfoldable pub task_order_fn : Session → TaskInfo → TaskInfo → Bool
task_order_fn ssn l r = precedes (task_compare_fns ssn l r) (compare_task l r)
