-- ===== src/Node/Admission.antt =====
-- AddTask as a whole: its outcome on every branch, and the books after it.
use k8s_simulator.Common.{
  ◌≡◌, refl, ap, ◌∙◌, ◌≢◌, Bool, true, false, Option, none, some, arith, if◌then◌else◌, lookup,
}
use k8s_simulator.Resource.Exact.{IsRequest}
use k8s_simulator.Resource.Delta.{clone_lem}
use k8s_simulator.Task.{TaskInfo, clone_task, set_node_name}
use k8s_simulator.Node.{
  NodeObject, NodeInfo, Error, different_node, already_on_node, insufficient_idle, Result, charge,
  charge_node, store, on_other_node, finish_add, add_task,
}
use k8s_simulator.Node.Accounting.{IsAccounted}
use k8s_simulator.Node.Charge.{charged, fits, charge-eq, store-IsAccounted, kept-charged}

-- The node after a successful AddTask.
unfoldable pub added : NodeInfo → TaskInfo → NodeInfo
added ni task = store (clone_task task) (charged ni (clone_task task) task.status)

-- The outcome for a task that no check on names and keys turns away.
unfoldable pub admitted : NodeInfo → TaskInfo → Result (NodeInfo × TaskInfo)
admitted ni task =
    if fits ni (clone_task task) task.status
    then some ((added ni task, set_node_name task ni.name), none)
    else some ((ni, task), some insufficient_idle)

charge_node-some :
    (ni : NodeInfo) (ti : TaskInfo) (v : NodeObject) (o : Option NodeObject)
    → o ≡ some v
    → charge_node ni ti o ≡ charge ni ti ti.status
unfolding charge_node
charge_node-some ni ti v none e = cc
charge_node-some ni ti v (some w) e = refl

finish_if :
    (ni : NodeInfo) (task : TaskInfo) (b : Bool)
    → finish_add task (
        if b
        then some (charged ni (clone_task task) task.status, none)
        else some (ni, some insufficient_idle))
      ≡ (if b
          then some ((added ni task, set_node_name task ni.name), none)
          else some ((ni, task), some insufficient_idle))
unfolding finish_add added
finish_if ni task true =
    ap (λ name. some ((added ni task, set_node_name task name), none))
      (kept-charged ni (clone_task task) task.status).2
finish_if ni task false = refl

-- The switch and the rest of AddTask, on a node that has its node object.
finish-charge :
    (ni : NodeInfo) (task : TaskInfo) (v : NodeObject)
    → ni.node ≡ some v
    → finish_add task (charge_node ni (clone_task task) ni.node) ≡ admitted ni task
unfolding admitted clone_task
finish-charge ni task v e =
    ap (finish_add task) (
      charge_node-some ni (clone_task task) v ni.node e
      ∙ charge-eq ni (clone_task task) task.status)
    ∙ finish_if ni task (fits ni (clone_task task) task.status)

-- On a node that has its node object AddTask has four outcomes: it refuses a task of another node,
-- a task whose pod is there already, and a task that the idle resources do not cover (where its
-- status needs them), each time with node and task as they were; otherwise it stores the task.
pub add_task-eq :
    (ni : NodeInfo) (task : TaskInfo) (v : NodeObject)
    → ni.node ≡ some v
    → add_task ni task ≡ (
        if on_other_node ni task
        then some ((ni, task), some different_node)
        else elim (lookup task.pod.key ni.tasks) [
          | some _ ↦ some ((ni, task), some already_on_node)
          | none ↦ admitted ni task
        ])
unfolding add_task
add_task-eq ni task v e = ground (arith, finish-charge ni task v e)

module _ (ni : NodeInfo) (task : TaskInfo) (v : NodeObject) (has_node : ni.node ≡ some v) where
  -- AddTask on a node that has its node object does not panic.
  pub add_task-ne-none : add_task ni task ≢ none
  unfolding admitted
  add_task-ne-none e = ground (arith, add_task-eq ni task v has_node)

  -- An error of AddTask, on a node that has its node object, leaves the node and the task as they were.
  pub add_task-error :
      (ni' : NodeInfo) (task' : TaskInfo) (err : Error)
      → add_task ni task ≡ some ((ni', task'), some err)
      → (ni' ≡ ni) × (task' ≡ task)
  unfolding admitted
  add_task-error ni' task' err e = ground (arith, add_task-eq ni task v has_node)

  -- A success: the checks have passed, and the node is the one with the task's resources taken.
  pub add_task-ok :
      (ni' : NodeInfo) (task' : TaskInfo)
      → add_task ni task ≡ some ((ni', task'), none)
      → (ni' ≡ added ni task)
        × (task' ≡ set_node_name task ni.name)
        × (lookup task.pod.key ni.tasks ≡ none)
        × (fits ni (clone_task task) task.status ≡ true)
  unfolding admitted
  add_task-ok ni' task' e = ground (arith, add_task-eq ni task v has_node)

  -- A successful AddTask of a task with a whole request, on a node that has its node object and whose
  -- books are kept, keeps the books.
  pub add_task-IsAccounted :
      (ni' : NodeInfo) (task' : TaskInfo)
      → IsAccounted ni
      → IsRequest task.resreq
      → add_task ni task ≡ some ((ni', task'), none)
      → IsAccounted ni'
  unfolding added clone_task
  add_task-IsAccounted ni' task' a q e =
      let (same, _, free, f) = add_task-ok ni' task' e in
      rw same (
        store-IsAccounted ni (clone_task task) a (rw (clone_lem task.resreq q.formed.distinct) q)
          free f)
