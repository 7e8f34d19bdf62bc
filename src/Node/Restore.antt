-- ===== src/Node/Restore.antt =====
-- Taking a task off a node again gives back what placing it took.
use k8s_simulator.Common.{
  ℕ, ◌≡◌, sym, ap, ◌∙◌, subst, none, some, ℤ, ◌+ℤ◌, ◌-ℤ◌, +ℤ_cancel, lookup, insert, delete,
  delete-insert, lookup-insert_self,
}
use k8s_simulator.Resource.{get}
use k8s_simulator.Resource.Exact.{IsRequest}
use k8s_simulator.Task.{TaskInfo, clone_task, set_node_name}
use k8s_simulator.Node.{NodeObject, NodeInfo, store, add_task, remove_task}
use k8s_simulator.Task.Totals.{holds, is_releasing, is_pipelined, total}
use k8s_simulator.Node.Accounting.{IsAccounted}
use k8s_simulator.Node.Charge.{charged, kept-charged}
use k8s_simulator.Node.Admission.{added, add_task-ok, add_task-IsAccounted}
use k8s_simulator.Node.Discharge.{kept-discharged, removed, remove_task-eq, removed-IsAccounted}

-- Two nodes agree on their amounts, in every dimension.
pub record SameAmounts (a b : NodeInfo) : Type 0 where
  pub idle_same : (n : ℕ) → get a.idle n ≡ get b.idle n
  pub used_same : (n : ℕ) → get a.used n ≡ get b.used n
  pub releasing_same : (n : ℕ) → get a.releasing_res n ≡ get b.releasing_res n
  pub pipelined_same : (n : ℕ) → get a.pipelined_res n ≡ get b.pipelined_res n

cancel_right : (a b t c : ℤ) → a +ℤ t ≡ c → b +ℤ t ≡ c → a ≡ b
cancel_right a b t c p q = sym (+ℤ_cancel a t) ∙ ap (λ x. x -ℤ t) (p ∙ sym q) ∙ +ℤ_cancel b t

-- The books determine the amounts: kept books, the same tasks and the same allocatable resources.
pub accounted-SameAmounts :
    (a b : NodeInfo)
    → IsAccounted a
    → IsAccounted b
    → a.tasks ≡ b.tasks
    → a.allocatable ≡ b.allocatable
    → SameAmounts a b
accounted-SameAmounts a b x y t al = record {
  idle_same = λ n.
      cancel_right (get a.idle n) (get b.idle n) (total holds n b.tasks) (get b.allocatable n)
        (subst (λ r. get a.idle n +ℤ total holds n b.tasks ≡ get r n) al
          (subst (λ d. get a.idle n +ℤ total holds n d ≡ get a.allocatable n) t (x.idle_eq n)))
        (y.idle_eq n);
  used_same = λ n. x.used_eq n ∙ ap (total holds n) t ∙ sym (y.used_eq n);
  releasing_same = λ n. x.releasing_eq n ∙ ap (total is_releasing n) t ∙ sym (y.releasing_eq n);
  pipelined_same = λ n. x.pipelined_eq n ∙ ap (total is_pipelined n) t ∙ sym (y.pipelined_eq n);
}

tasks-added :
    (ni : NodeInfo) (task : TaskInfo)
    → (v : TaskInfo) × ((added ni task).tasks ≡ insert task.pod.key v ni.tasks)
unfolding added store clone_task
tasks-added ni task = (
  set_node_name (clone_task task) (charged ni (clone_task task) task.status).name,
  ap (insert task.pod.key _) (kept-charged ni (clone_task task) task.status).0,
)

kept-added :
    (ni : NodeInfo) (task : TaskInfo)
    → ((added ni task).allocatable ≡ ni.allocatable)
      × ((added ni task).node ≡ ni.node)
      × ((added ni task).name ≡ ni.name)
unfolding added store
kept-added ni task =
    let (_, alloc, name, node) = kept-charged ni (clone_task task) task.status in
    (alloc, node, name)

-- What RemoveTask does to the tasks and the allocatable resources, if it finds the task.
kept-removed :
    (ni : NodeInfo) (stored task : TaskInfo)
    → ((removed ni stored task.pod).tasks ≡ delete task.pod.key ni.tasks)
      × ((removed ni stored task.pod).allocatable ≡ ni.allocatable)
unfolding removed
kept-removed ni stored task =
    let (tasks, alloc) = kept-discharged ni stored task.pod stored.status in
    (ap (delete task.pod.key) tasks, alloc)

-- On a node that has its node object and whose books are kept, a task with a whole request that
-- AddTask placed can be taken off by RemoveTask with no panic. The node then lists the tasks that it
-- listed before, and has the idle, used, releasing and pipelined amounts that it had, in every dimension.
pub remove_task-add_task :
    (ni ni' : NodeInfo) (task task' : TaskInfo) (v : NodeObject)
    → ni.node ≡ some v
    → IsAccounted ni
    → IsRequest task.resreq
    → add_task ni task ≡ some ((ni', task'), none)
    → (after : NodeInfo) × (remove_task ni' task' ≡ some after)
      × (after.tasks ≡ ni.tasks)
      × SameAmounts after ni
remove_task-add_task ni ni' task task' v has a q e =
    let (same, same_task, free, _) = add_task-ok ni task v has ni' task' e in
    let books = add_task-IsAccounted ni task v has ni' task' a q e in
    rw same_task (restored ni' same books free)
  where
    restored :
        (m : NodeInfo)
        → m ≡ added ni task
        → IsAccounted m
        → lookup task.pod.key ni.tasks ≡ none
        → (after : NodeInfo) × (remove_task m (set_node_name task ni.name) ≡ some after)
          × (after.tasks ≡ ni.tasks)
          × SameAmounts after ni
    restored m same books free =
        let (stored, listed) = tasks-added ni task in
        let (alloc, node, _) = kept-added ni task in
        let listed' : m.tasks ≡ insert task.pod.key stored ni.tasks =
          ap (λ (x : NodeInfo). x.tasks) same ∙ listed in
        let found : lookup task.pod.key m.tasks ≡ some stored =
          ap (lookup task.pod.key) listed' ∙ lookup-insert_self task.pod.key stored ni.tasks in
        let has' : m.node ≡ some v = ap (λ (x : NodeInfo). x.node) same ∙ node ∙ has in
        let (tasks, alloc') = kept-removed m stored task in
        let tasks' : (removed m stored task.pod).tasks ≡ ni.tasks =
          tasks
          ∙ ap (delete task.pod.key) listed'
          ∙ delete-insert task.pod.key stored ni.tasks free in
        let alloc'' : (removed m stored task.pod).allocatable ≡ ni.allocatable =
          alloc' ∙ ap (λ (x : NodeInfo). x.allocatable) same ∙ alloc in
        let gone = remove_task-eq m (set_node_name task ni.name) v has' books in
        (
          removed m stored task.pod,
          rw found at gone,
          tasks',
          accounted-SameAmounts _ ni
              (removed-IsAccounted m (set_node_name task ni.name) v has' books stored found) a
              tasks' alloc'',
        )
