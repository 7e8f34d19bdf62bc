-- ===== src/Node/Outcomes.antt =====
-- What AddTask does on every branch, in terms of the node's tasks and amounts.
use k8s_simulator.Common.{
  ℕ, ◌≡◌, ◌≢◌, refl, ap, ◌∙◌, sym, subst, not, ◌||◌, ◌⊎◌, inl, inr, true, false, Bool-cases, Option,
  Option-cases, none, some, arith, if◌then◌else◌, pos, ◌+ℤ◌, ◌-ℤ◌, ◌≤ℤ◌, lookup, lookup-insert,
  lookup-insert_self, Returns, Returns-some,
}
use k8s_simulator.Resource.{clone, get, zero_default}
use k8s_simulator.Resource.Order.{less_equal}
use k8s_simulator.Resource.Exact.{IsRequest, less_equal-iff-le}
use k8s_simulator.Resource.Delta.{clone_lem}
use k8s_simulator.Task.{TaskInfo, clone_task, set_node_name}
use k8s_simulator.Task.Totals.{holds, is_releasing, is_pipelined}
use k8s_simulator.Node.{
  NodeObject, NodeInfo, Error, different_node, already_on_node, insufficient_idle, on_other_node,
  store, add_task,
}
use k8s_simulator.Node.Charge.{
  charged, fits, idle-charged, used-charged, releasing-charged, pipelined-charged, kept-charged,
}
use k8s_simulator.Node.Admission.{added, admitted, add_task-eq}

module _ (ni : NodeInfo) (task : TaskInfo) where
  -- In every dimension the request is no more than what is idle.
  abbrev pub IsCovered : Type 0
  IsCovered = (n : ℕ) → get task.resreq n ≤ℤ get ni.idle n

  -- Why AddTask refuses a task: both names are known and differ, its pod has a task on the node, or its
  -- status needs idle resources that are not there.
  abbrev pub Reason : Error → Type 0
  Reason different_node = (task.node_name ≢ 0) × (ni.name ≢ 0) × (task.node_name ≢ ni.name)
  Reason already_on_node = (t : TaskInfo) × (lookup task.pod.key ni.tasks ≡ some t)
  Reason insufficient_idle = (holds task.status ≡ true) × (¬ IsCovered)

  -- The node and the task after a success: the node lists a copy of the task with its name under the
  -- pod's key, which was free, and the other tasks as before; each amount has moved by the request if the
  -- status is of its kind.
  pub record IsPlaced (ni' : NodeInfo) (task' : TaskInfo) : Type 0 where
    pub same_host : (task.node_name ≡ 0) ⊎ ((ni.name ≡ 0) ⊎ (task.node_name ≡ ni.name))
    pub free : lookup task.pod.key ni.tasks ≡ none
    pub covered : holds task.status ≡ true → IsCovered
    pub task_eq : task' ≡ set_node_name task ni.name
    pub listed : lookup task.pod.key ni'.tasks ≡ some (set_node_name (clone_task task) ni.name)
    pub others : (k : ℕ) → k ≢ task.pod.key → lookup k ni'.tasks ≡ lookup k ni.tasks
    pub idle_eq :
        (n : ℕ)
        → get ni'.idle n ≡ get ni.idle n -ℤ (if holds task.status then get task.resreq n else pos 0)
    pub used_eq :
        (n : ℕ)
        → get ni'.used n ≡ get ni.used n +ℤ (if holds task.status then get task.resreq n else pos 0)
    pub releasing_eq :
        (n : ℕ)
        → get ni'.releasing_res n
          ≡ get ni.releasing_res n
            +ℤ (if is_releasing task.status then get task.resreq n else pos 0)
    pub pipelined_eq :
        (n : ℕ)
        → get ni'.pipelined_res n
          ≡ get ni.pipelined_res n
            +ℤ (if is_pipelined task.status then get task.resreq n else pos 0)

  abbrev pub Outcome : (NodeInfo × TaskInfo) × Option Error → Type 0
  Outcome ((ni', task'), none) = IsPlaced ni' task'
  Outcome ((ni', task'), some err) = (ni' ≡ ni) × (task' ≡ task) × Reason err

  module _ (q : IsRequest task.resreq) (w : IsRequest ni.idle) where
    copied : clone task.resreq ≡ task.resreq
    copied = clone_lem task.resreq q.formed.distinct

    fits_iff :
        fits ni (clone_task task) task.status
        ≡ not (holds task.status) || less_equal task.resreq ni.idle zero_default
    unfolding fits clone_task
    fits_iff = ap (λ r. not (holds task.status) || less_equal r ni.idle zero_default) copied

    covers : fits ni (clone_task task) task.status ≡ true → holds task.status ≡ true → IsCovered
    covers f h = (less_equal-iff-le task.resreq ni.idle q w).0 (ground (arith, fits_iff))

    refuses : fits ni (clone_task task) task.status ≡ false → Reason insufficient_idle
    refuses f = (
      ground (arith, fits_iff),
      λ c.
          let enough = (less_equal-iff-le task.resreq ni.idle q w).1 c in
          absurd (ground (arith, fits_iff)),
    )

    is_placed :
        on_other_node ni task ≡ false
        → lookup task.pod.key ni.tasks ≡ none
        → fits ni (clone_task task) task.status ≡ true
        → IsPlaced (added ni task) (set_node_name task ni.name)
    unfolding added store clone_task
    is_placed other free f =
        let copy = clone_task task in
        let (same, alloc, name, obj) = kept-charged ni copy task.status in
        let q' : IsRequest copy.resreq = subst IsRequest (sym copied) q in
        record {
          same_host = ground arith;
          free = free;
          covered = covers f;
          task_eq = refl;
          listed = rw (same, name) (lookup-insert_self task.pod.key _ ni.tasks);
          others = λ k different. rw same (
              ground (
                arith,
                lookup-insert task.pod.key k (set_node_name copy (charged ni copy task.status).name)
                    ni.tasks,
              ));
          idle_eq = λ n.
              idle-charged ni copy q' n task.status f
              ∙ ap (λ r. get ni.idle n -ℤ (if holds task.status then get r n else pos 0)) copied;
          used_eq = λ n.
              used-charged ni copy q' n task.status
              ∙ ap (λ r. get ni.used n +ℤ (if holds task.status then get r n else pos 0)) copied;
          releasing_eq = λ n.
              releasing-charged ni copy q' n task.status
              ∙ ap
                  (λ r.
                    get ni.releasing_res n +ℤ (if is_releasing task.status then get r n else pos 0))
                  copied;
          pipelined_eq = λ n.
              pipelined-charged ni copy q' n task.status
              ∙ ap
                  (λ r.
                    get ni.pipelined_res n +ℤ (if is_pipelined task.status then get r n else pos 0))
                  copied;
        }

    -- AddTask of a task with a whole request to a node that has its node object and whole idle amounts does
    -- not panic. It refuses the task only if the names of the task's node and of this one are known and
    -- differ, if the node has a task of its pod, or if the task's status needs idle resources and not every
    -- dimension has enough; then node and task are as they were. Otherwise no such reason is there, a copy of
    -- the task is listed under its pod's key with the node's name, the other tasks stay, the task gets the
    -- node's name, and in every dimension the idle, used, releasing and pipelined amounts have moved by the
    -- request, each if the status is of its kind.
    pub add_task-Outcome : (v : NodeObject) → ni.node ≡ some v → Returns Outcome (add_task ni task)
    unfolding admitted
    add_task-Outcome v e = elim (Bool-cases (on_other_node ni task)) [
      | inl other ↦ rw (add_task-eq ni task v e, other) (Returns-some _ (refl, refl, ground arith))
      | inr same ↦ elim (Option-cases (lookup task.pod.key ni.tasks)) [
        | inr (t, found) ↦
            rw (add_task-eq ni task v e, same, found) (Returns-some _ (refl, refl, (t, found)))
        | inl free ↦ elim (Bool-cases (fits ni (clone_task task) task.status)) [
          | inl enough ↦
              rw (add_task-eq ni task v e, same, free, enough)
                (Returns-some _ (is_placed same free enough))
          | inr short ↦
              rw (add_task-eq ni task v e, same, free, short)
                (Returns-some _ (refl, refl, refuses short))
        ]
      ]
    ]
