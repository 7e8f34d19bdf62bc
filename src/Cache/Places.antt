-- ===== src/Cache/Places.antt =====
-- A node in the cache: one that has no node object yet lists tasks, but its amounts are not counted.
use k8s_simulator.Common.{
  ℕ, ◌≡◌, refl, ap, ◌⊎◌, inl, inr, Option, none, some, arith, Bool-cases, Option-cases, lookup,
  delete, Distinct, insert-Distinct, delete-Distinct, Returns, Returns-some, Returns-map,
}
use k8s_simulator.Resource.Exact.{IsRequest}
use k8s_simulator.Task.{Pod, TaskInfo, set_node_name, clone_task}
use k8s_simulator.Node.{NodeObject, NodeInfo, Error, store, add_task, remove_task}
use k8s_simulator.Node.Accounting.{IsAccounted}
use k8s_simulator.Task.Totals.{AreRequests, delete-AreRequests}
use k8s_simulator.Resource.Delta.{clone_lem}
use k8s_simulator.Node.Charge.{stored_requests}
use k8s_simulator.Statement.Steps.{itself, renamed}
use k8s_simulator.Node.{
  on_other_node, different_node, already_on_node, charge_node, finish_add, discharge_node,
}
use k8s_simulator.Statement.Nodes.{IsNodeOf, IsSameTask, add_task-IsNodeOf, remove_task-IsNodeOf}

pub record IsCacheNode (k : ℕ) (ni : NodeInfo) : Type 0 where
  pub distinct : Distinct ni.tasks
  pub requests : AreRequests ni.tasks
  pub counted : (v : NodeObject) → ni.node ≡ some v → IsAccounted ni
  pub named : ni.name ≡ k

of_node : (k : ℕ) (ni : NodeInfo) → IsNodeOf k ni → IsCacheNode k ni
of_node k ni n = record {
  distinct = n.accounted.distinct;
  requests = n.accounted.requests;
  counted = λ v e. n.accounted;
  named = n.named;
}

pub no_object : {v : NodeObject} {o : Option NodeObject} {Q : Type 0} → o ≡ none → o ≡ some v → Q
no_object e f = cc

as_node :
    (k : ℕ) (ni : NodeInfo) → IsCacheNode k ni → (v : NodeObject) → ni.node ≡ some v → IsNodeOf k ni
as_node k ni n v e = record {
  accounted = n.counted v e;
  object = v;
  has_object = e;
  named = n.named;
}

charge_node-empty :
    (ni : NodeInfo) (t : TaskInfo) (o : Option NodeObject)
    → o ≡ none
    → charge_node ni t o ≡ some (ni, none)
unfolding charge_node
charge_node-empty ni t none e = refl
charge_node-empty ni t (some v) e = cc

discharge_node-empty :
    (ni : NodeInfo) (t : TaskInfo) (pod : Pod) (o : Option NodeObject)
    → o ≡ none
    → discharge_node ni t pod o ≡ some ni
unfolding discharge_node
discharge_node-empty ni t pod none e = refl
discharge_node-empty ni t pod (some v) e = cc

-- AddTask on a node with no node object.
add_task-empty :
    (ni : NodeInfo) (t : TaskInfo)
    → ni.node ≡ none
    → (add_task ni t ≡ some ((store (clone_task t) ni, set_node_name t ni.name), none))
      ⊎ ((e : Error) × (add_task ni t ≡ some ((ni, t), some e)))
unfolding add_task finish_add
add_task-empty ni t e = elim (Bool-cases (on_other_node ni t)) [
  | inl other ↦ inr (different_node, ground arith)
  | inr fits ↦ elim (Option-cases (lookup t.pod.key ni.tasks)) [
    | inl free ↦ inl (
        rw (add_task, fits, free)
          (ap (finish_add t) (charge_node-empty ni (clone_task t) ni.node e)))
    | inr (u, there) ↦ inr (already_on_node, ground arith)
  ]
]

pub add_task-IsCacheNode :
    (k : ℕ) (ni : NodeInfo) (t : TaskInfo)
    → IsCacheNode k ni
    → IsRequest t.resreq
    → Returns
        (λ (r : (NodeInfo × TaskInfo) × Option Error). IsCacheNode k r.0.0 × IsSameTask t r.0.1)
        (add_task ni t)
unfolding store clone_task
add_task-IsCacheNode k ni t n q = elim (Option-cases ni.node) [
  | inl empty ↦ elim (add_task-empty ni t empty) [
    | inl stored ↦ (
      _,
      stored,
      (
        record {
          distinct = insert-Distinct t.pod.key _ ni.tasks n.distinct;
          requests =
              stored_requests ni.tasks _ t.pod.key n.requests
                (rw (clone_lem t.resreq q.formed.distinct) q);
          counted = λ v e. no_object empty e;
          named = n.named;
        },
        renamed t ni.name,
      ),
    )
    | inr (err, refused) ↦ (_, refused, (n, itself t))
  ]
  | inr (v, e) ↦
      Returns-map (add_task-IsNodeOf k ni t (as_node k ni n v e) q)
        λ r (m, same). (of_node k r.0.0 m, same)
]

pub remove_task-IsCacheNode :
    (k : ℕ) (ni : NodeInfo) (t : TaskInfo)
    → IsCacheNode k ni
    → Returns (IsCacheNode k) (remove_task ni t)
unfolding remove_task
remove_task-IsCacheNode k ni t n = elim (Option-cases ni.node) [
  | inl empty ↦ elim (Option-cases (lookup t.pod.key ni.tasks)) [
    | inl missing ↦ rw (remove_task, missing) (Returns-some ni n)
    | inr (u, there) ↦
        rw (remove_task, there, discharge_node-empty ni u t.pod ni.node empty)
          (Returns-some (record ni { tasks = delete t.pod.key ni.tasks })
            (record {
              distinct = delete-Distinct t.pod.key ni.tasks n.distinct;
              requests = delete-AreRequests t.pod.key ni.tasks n.distinct n.requests;
              counted = λ v e. no_object empty e;
              named = n.named;
            }))
  ]
  | inr (v, e) ↦ Returns-map (remove_task-IsNodeOf k ni t (as_node k ni n v e)) (of_node k)
]
