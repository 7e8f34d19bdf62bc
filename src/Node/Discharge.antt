-- ===== src/Node/Discharge.antt =====
-- What RemoveTask gives back, and the books of the node after it.
use k8s_simulator.Common.{
  ℕ, ◌≡◌, refl, sym, inl, inr, true, Option, none, some, arith, if◌then◌else◌, Option-cases, pos,
  ◌+ℤ◌, ◌-ℤ◌, take_share, return_share, +ℤ-zero, -ℤ-zero, lookup, delete, delete-Distinct,
}
use k8s_simulator.Resource.{zero_default, get, add, sub_unchecked}
use k8s_simulator.Resource.Order.{less_equal, sub}
use k8s_simulator.Resource.Amounts.{get-add, get-sub_unchecked}
use k8s_simulator.Resource.Exact.{IsRequest, less_equal-Covers, less_equal_of_le}
use k8s_simulator.Task.{Status, releasing, pipelined, Pod, TaskInfo}
use k8s_simulator.Task.Gpu.{sub_gpu_resource}
use k8s_simulator.Node.{NodeObject, NodeInfo, discharge, discharge_node, remove_task}
use k8s_simulator.Task.Totals.{
  holds, is_releasing, is_pipelined, share, total-delete, share-le-total, delete-AreRequests,
}
use k8s_simulator.Node.Accounting.{IsAccounted}

-- The node with a task's resources given back, by status.
unfoldable pub discharged : NodeInfo → TaskInfo → Pod → Status → NodeInfo
discharged ni task pod releasing = record ni {
  releasing_res = sub_unchecked ni.releasing_res task.resreq;
  idle = add ni.idle task.resreq;
  used = sub_unchecked ni.used task.resreq;
  gpu_devices = sub_gpu_resource ni.gpu_devices pod;
}
discharged ni task pod pipelined = record ni {
  pipelined_res = sub_unchecked ni.pipelined_res task.resreq;
}
discharged ni task pod _ = record ni {
  idle = add ni.idle task.resreq;
  used = sub_unchecked ni.used task.resreq;
  gpu_devices = sub_gpu_resource ni.gpu_devices pod;
}

-- The assertions of Sub hold for what the status makes RemoveTask subtract.
pub record IsCovered (ni : NodeInfo) (task : TaskInfo) (s : Status) : Type 0 where
  pub used_ok : holds s ≡ true → less_equal task.resreq ni.used zero_default ≡ true
  releasing_ok : is_releasing s ≡ true → less_equal task.resreq ni.releasing_res zero_default ≡ true
  pipelined_ok : is_pipelined s ≡ true → less_equal task.resreq ni.pipelined_res zero_default ≡ true

discharge-eq :
    (ni : NodeInfo) (task : TaskInfo) (pod : Pod) (s : Status)
    → IsCovered ni task s
    → discharge ni task pod s ≡ some (discharged ni task pod s)
unfolding discharge discharged sub holds is_releasing is_pipelined
discharge-eq ni task pod releasing c = rw (c.releasing_ok refl, c.used_ok refl, discharge)
discharge-eq ni task pod pipelined c = rw (c.pipelined_ok refl, discharge)
discharge-eq ni task pod _ c = rw (c.used_ok refl, discharge)

module _ (ni : NodeInfo) (task : TaskInfo) (pod : Pod) (q : IsRequest task.resreq) (n : ℕ) where
  idle-discharged :
      (s : Status)
      → get (discharged ni task pod s).idle n
        ≡ get ni.idle n +ℤ (if holds s then get task.resreq n else pos 0)
  unfolding discharged holds
  idle-discharged pipelined = sym (+ℤ-zero (get ni.idle n))
  idle-discharged _ = get-add ni.idle task.resreq n q.formed.distinct

  used-discharged :
      (s : Status)
      → IsCovered ni task s
      → get (discharged ni task pod s).used n
        ≡ get ni.used n -ℤ (if holds s then get task.resreq n else pos 0)
  unfolding discharged holds
  used-discharged pipelined c = sym (-ℤ-zero (get ni.used n))
  used-discharged s c =
      get-sub_unchecked ni.used task.resreq n q.formed.distinct
        (less_equal-Covers task.resreq ni.used q (c.used_ok refl))

  releasing-discharged :
      (s : Status)
      → IsCovered ni task s
      → get (discharged ni task pod s).releasing_res n
        ≡ get ni.releasing_res n -ℤ (if is_releasing s then get task.resreq n else pos 0)
  unfolding discharged is_releasing
  releasing-discharged releasing c =
      get-sub_unchecked ni.releasing_res task.resreq n q.formed.distinct
        (less_equal-Covers task.resreq ni.releasing_res q (c.releasing_ok refl))
  releasing-discharged _ c = sym (-ℤ-zero (get ni.releasing_res n))

  pipelined-discharged :
      (s : Status)
      → IsCovered ni task s
      → get (discharged ni task pod s).pipelined_res n
        ≡ get ni.pipelined_res n -ℤ (if is_pipelined s then get task.resreq n else pos 0)
  unfolding discharged is_pipelined
  pipelined-discharged pipelined c =
      get-sub_unchecked ni.pipelined_res task.resreq n q.formed.distinct
        (less_equal-Covers task.resreq ni.pipelined_res q (c.pipelined_ok refl))
  pipelined-discharged _ c = sym (-ℤ-zero (get ni.pipelined_res n))

pub kept-discharged :
    (ni : NodeInfo) (task : TaskInfo) (pod : Pod) (s : Status)
    → ((discharged ni task pod s).tasks ≡ ni.tasks)
      × ((discharged ni task pod s).allocatable ≡ ni.allocatable)
unfolding discharged
kept-discharged ni task pod releasing = (refl, refl)
kept-discharged ni task pod _ = (refl, refl)

-- On a node whose books are kept, a task that it lists is covered.
pub accounted-IsCovered :
    (ni : NodeInfo) (k : ℕ) (task : TaskInfo)
    → IsAccounted ni
    → lookup k ni.tasks ≡ some task
    → IsCovered ni task task.status
unfolding share
accounted-IsCovered ni k task a e = record {
  used_ok = λ h. less_equal_of_le task.resreq ni.used (a.requests k task e) (λ n.
      rw (a.used_eq n) (rw h at (share-le-total holds n k task ni.tasks a.distinct a.requests e)));
  releasing_ok = λ h. less_equal_of_le task.resreq ni.releasing_res (a.requests k task e) (λ n.
      rw (a.releasing_eq n)
        (rw h at (share-le-total is_releasing n k task ni.tasks a.distinct a.requests e)));
  pipelined_ok = λ h. less_equal_of_le task.resreq ni.pipelined_res (a.requests k task e) (λ n.
      rw (a.pipelined_eq n)
        (rw h at (share-le-total is_pipelined n k task ni.tasks a.distinct a.requests e)));
}

-- The node after RemoveTask found the task.
unfoldable pub removed : NodeInfo → TaskInfo → Pod → NodeInfo
removed ni task pod = record (discharged ni task pod task.status) {
  tasks = delete pod.key (discharged ni task pod task.status).tasks;
}

discharge_node-eq :
    (ni : NodeInfo) (task : TaskInfo) (pod : Pod) (v : NodeObject) (o : Option NodeObject)
    → o ≡ some v
    → IsCovered ni task task.status
    → discharge_node ni task pod o ≡ some (discharged ni task pod task.status)
unfolding discharge_node
discharge_node-eq ni task pod v none e c = cc
discharge_node-eq ni task pod v (some w) e c = discharge-eq ni task pod task.status c

module _ (ni : NodeInfo) (ti : TaskInfo) (v : NodeObject) (has_node : ni.node ≡ some v)
    (a : IsAccounted ni) where
  -- On a node whose books are kept RemoveTask does not panic: it leaves the node alone if it does
  -- not list the task's pod, and gives the stored task's resources back if it does.
  pub remove_task-eq :
      remove_task ni ti
      ≡ some (elim (lookup ti.pod.key ni.tasks) [ none ↦ ni | some task ↦ removed ni task ti.pod ])
  unfolding remove_task removed
  remove_task-eq = elim (Option-cases (lookup ti.pod.key ni.tasks)) [
    | inl e ↦ rw (e, remove_task)
    | inr (task, e) ↦
        let done =
          discharge_node-eq ni task ti.pod v ni.node has_node
            (accounted-IsCovered ni ti.pod.key task a e) in
        ground arith
  ]

  pub removed-IsAccounted :
      (task : TaskInfo)
      → lookup ti.pod.key ni.tasks ≡ some task
      → IsAccounted (removed ni task ti.pod)
  unfolding removed share
  removed-IsAccounted task e =
      let (same, alloc) = kept-discharged ni task ti.pod task.status in
      let q = a.requests ti.pod.key task e in
      let c = accounted-IsCovered ni ti.pod.key task a e in
      let k = ti.pod.key in
      rw same (record {
        distinct = delete-Distinct k ni.tasks a.distinct;
        requests = delete-AreRequests k ni.tasks a.distinct a.requests;
        idle_eq = λ n.
            rw (alloc, idle-discharged ni task ti.pod q n task.status)
              (return_share _ _ _ _ (rw (total-delete holds n k task ni.tasks e) at (a.idle_eq n)));
        used_eq = λ n.
            rw (used-discharged ni task ti.pod q n task.status c)
              (take_share _ _ _ (rw (total-delete holds n k task ni.tasks e) at (a.used_eq n)));
        releasing_eq = λ n. rw (releasing-discharged ni task ti.pod q n task.status c) (
            take_share _ _ _
              (rw (total-delete is_releasing n k task ni.tasks e) at (a.releasing_eq n)));
        pipelined_eq = λ n. rw (pipelined-discharged ni task ti.pod q n task.status c) (
            take_share _ _ _
              (rw (total-delete is_pipelined n k task ni.tasks e) at (a.pipelined_eq n)));
      })

  -- RemoveTask, on a node that has its node object and whose books are kept, does not panic and keeps
  -- the books.
  pub remove_task-IsAccounted : (ni' : NodeInfo) × (remove_task ni ti ≡ some ni') × IsAccounted ni'
  remove_task-IsAccounted = elim (Option-cases (lookup ti.pod.key ni.tasks)) [
    | inl e ↦ (ni, rw e at remove_task-eq, a)
    | inr (task, e) ↦ (removed ni task ti.pod, rw e at remove_task-eq, removed-IsAccounted task e)
  ]
