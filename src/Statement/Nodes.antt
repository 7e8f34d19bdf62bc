-- ===== src/Statement/Nodes.antt =====
-- A node in a session: its books are kept, it has its node object, and it stands under its name.
use k8s_simulator.Common.{
  ℕ, ◌≡◌, refl, sym, ap, ◌∙◌, subst, inl, inr, Option, none, some, Option-cases, lookup, Returns,
}
use k8s_simulator.Resource.Exact.{IsRequest}
use k8s_simulator.Task.{Status, pipelined, Pod, TaskInfo, clone_task}
use k8s_simulator.Node.{NodeObject, NodeInfo, Error, store, add_task, remove_task}
use k8s_simulator.Node.Accounting.{IsAccounted}
use k8s_simulator.Node.Charge.{kept-charged}
use k8s_simulator.Node.Admission.{
  added, add_task-ok, add_task-error, add_task-ne-none, add_task-IsAccounted,
}
use k8s_simulator.Node.Discharge.{discharged, removed, removed-IsAccounted, remove_task-eq}

pub record IsNodeOf (k : ℕ) (ni : NodeInfo) : Type 0 where
  pub accounted : IsAccounted ni
  pub object : NodeObject
  pub has_object : ni.node ≡ some object
  pub named : ni.name ≡ k

pub kept-discharged_node :
    (ni : NodeInfo) (task : TaskInfo) (pod : Pod) (s : Status)
    → ((discharged ni task pod s).node ≡ ni.node) × ((discharged ni task pod s).name ≡ ni.name)
unfolding discharged
kept-discharged_node ni task pod pipelined = (refl, refl)
kept-discharged_node ni task pod _ = (refl, refl)

still_node :
    (k : ℕ) (ni ni' : NodeInfo)
    → IsNodeOf k ni
    → IsAccounted ni'
    → ni'.node ≡ ni.node
    → ni'.name ≡ ni.name
    → IsNodeOf k ni'
still_node k ni ni' n a e f = record {
  accounted = a;
  object = n.object;
  has_object = e ∙ n.has_object;
  named = f ∙ n.named;
}

-- RemoveTask does not panic and leaves such a node.
pub remove_task-IsNodeOf :
    (k : ℕ) (ni : NodeInfo) (ti : TaskInfo)
    → IsNodeOf k ni
    → Returns (IsNodeOf k) (remove_task ni ti)
unfolding removed
remove_task-IsNodeOf k ni ti n =
    let eq = remove_task-eq ni ti n.object n.has_object n.accounted in
    elim (Option-cases (lookup ti.pod.key ni.tasks)) [
      | inl e ↦ (ni, rw e at eq, n)
      | inr (task, e) ↦
          let (node, name) = kept-discharged_node ni task ti.pod task.status in
          (
            removed ni task ti.pod,
            rw e at eq,
            still_node k ni (removed ni task ti.pod) n
                (removed-IsAccounted ni ti n.object n.has_object n.accounted task e) node name,
          )
    ]

-- AddTask does not panic; whether it fails or not, it leaves such a node, and a task with the status,
-- the request and the identifiers of the one it was given.
pub record IsSameTask (t u : TaskInfo) : Type 0 where
  pub same_uid : u.uid ≡ t.uid
  pub same_job : u.job ≡ t.job
  pub same_status : u.status ≡ t.status
  pub same_req : u.resreq ≡ t.resreq

pub add_task-IsNodeOf :
    (k : ℕ) (ni : NodeInfo) (t : TaskInfo)
    → IsNodeOf k ni
    → IsRequest t.resreq
    → Returns
        (λ (r : (NodeInfo × TaskInfo) × Option Error). IsNodeOf k r.0.0 × IsSameTask t r.0.1)
        (add_task ni t)
unfolding added store
add_task-IsNodeOf k ni t n q = elim (Option-cases (add_task ni t)) [
  | inl e ↦ absurd (add_task-ne-none ni t n.object n.has_object e)
  | inr (((ni', t'), some err), e) ↦
      let (same, same_task) = add_task-error ni t n.object n.has_object ni' t' err e in
      (
        ((ni', t'), some err),
        e,
        (
          subst (IsNodeOf k) (sym same) n,
          subst (IsSameTask t) (sym same_task)
              (record { same_uid = refl; same_job = refl; same_status = refl; same_req = refl }),
        ),
      )
  | inr (((ni', t'), none), e) ↦
      let (same, same_task, _, _) = add_task-ok ni t n.object n.has_object ni' t' e in
      let (_, _, name, node) = kept-charged ni (clone_task t) t.status in
      let a = add_task-IsAccounted ni t n.object n.has_object ni' t' n.accounted q e in
      (
        ((ni', t'), none),
        e,
        (
          still_node k ni ni' n a (ap (λ (u : NodeInfo). u.node) same ∙ node)
              (ap (λ (u : NodeInfo). u.name) same ∙ name),
          subst (IsSameTask t) (sym same_task)
              (record { same_uid = refl; same_job = refl; same_status = refl; same_req = refl }),
        ),
      )
]
