-- ===== src/Node/Charge.antt =====
-- What AddTask charges to a node.
use k8s_simulator.Common.{
  ℕ, ◌≡◌, refl, sym, inl, inr, Bool, true, not, ◌||◌, none, some, arith, ◌==◌, if◌then◌else◌,
  Bool-cases, pos, ◌+ℤ◌, ◌-ℤ◌, move_share, +ℤ-zero, -ℤ-zero, Dict, lookup, insert, lookup-insert,
  insert-Distinct,
}
use k8s_simulator.Resource.{zero_default, get, sub_unchecked}
use k8s_simulator.Resource.Order.{less_equal, sub}
use k8s_simulator.Resource.Amounts.{Covers, get-add, get-sub_unchecked}
use k8s_simulator.Resource.Exact.{IsRequest, less_equal-Covers}
use k8s_simulator.Task.{Status, releasing, pipelined, TaskInfo}
use k8s_simulator.Node.{
  NodeInfo, insufficient_idle, allocate_idle_resource, use_releasing, use_idle, use_pipelined,
  charge, store,
}
use k8s_simulator.Task.Totals.{holds, is_releasing, is_pipelined, share, total-insert}
use k8s_simulator.Node.Accounting.{IsAccounted}

-- The node with a task's resources taken, by status.
unfoldable pub charged : NodeInfo → TaskInfo → Status → NodeInfo
charged ni ti releasing = use_releasing ti (record ni { idle = sub_unchecked ni.idle ti.resreq })
charged ni ti pipelined = use_pipelined ti ni
charged ni ti _ = use_idle ti (record ni { idle = sub_unchecked ni.idle ti.resreq })

-- Idle resources suffice for the task, if its status needs them.
unfoldable pub fits : NodeInfo → TaskInfo → Status → Bool
fits ni ti s = not (holds s) || less_equal ti.resreq ni.idle zero_default

pub charge-eq :
    (ni : NodeInfo) (ti : TaskInfo) (s : Status)
    → charge ni ti s
      ≡ (if fits ni ti s then some (charged ni ti s, none) else some (ni, some insufficient_idle))
unfolding charge charged fits allocate_idle_resource sub holds
charge-eq ni ti releasing = ground arith
charge-eq ni ti pipelined = ground arith
charge-eq ni ti _ = ground arith

module _ (ni : NodeInfo) (ti : TaskInfo) (q : IsRequest ti.resreq) (n : ℕ) where
  fits-Covers : (s : Status) → fits ni ti s ≡ true → holds s ≡ true → Covers ni.idle ti.resreq
  unfolding fits
  fits-Covers s f h = less_equal-Covers ti.resreq ni.idle q (ground arith)

  pub idle-charged :
      (s : Status)
      → fits ni ti s ≡ true
      → get (charged ni ti s).idle n ≡ get ni.idle n -ℤ (if holds s then get ti.resreq n else pos 0)
  unfolding charged use_releasing use_pipelined use_idle holds
  idle-charged releasing f =
      get-sub_unchecked ni.idle ti.resreq n q.formed.distinct (fits-Covers releasing f refl)
  idle-charged pipelined f = sym (-ℤ-zero (get ni.idle n))
  idle-charged s f = get-sub_unchecked ni.idle ti.resreq n q.formed.distinct (fits-Covers s f refl)

  pub used-charged :
      (s : Status)
      → get (charged ni ti s).used n ≡ get ni.used n +ℤ (if holds s then get ti.resreq n else pos 0)
  unfolding charged use_releasing use_pipelined use_idle holds
  used-charged releasing = get-add ni.used ti.resreq n q.formed.distinct
  used-charged pipelined = sym (+ℤ-zero (get ni.used n))
  used-charged _ = get-add ni.used ti.resreq n q.formed.distinct

  pub releasing-charged :
      (s : Status)
      → get (charged ni ti s).releasing_res n
        ≡ get ni.releasing_res n +ℤ (if is_releasing s then get ti.resreq n else pos 0)
  unfolding charged use_releasing use_pipelined use_idle is_releasing
  releasing-charged releasing = get-add ni.releasing_res ti.resreq n q.formed.distinct
  releasing-charged _ = sym (+ℤ-zero (get ni.releasing_res n))

  pub pipelined-charged :
      (s : Status)
      → get (charged ni ti s).pipelined_res n
        ≡ get ni.pipelined_res n +ℤ (if is_pipelined s then get ti.resreq n else pos 0)
  unfolding charged use_releasing use_pipelined use_idle is_pipelined
  pipelined-charged pipelined = get-add ni.pipelined_res ti.resreq n q.formed.distinct
  pipelined-charged _ = sym (+ℤ-zero (get ni.pipelined_res n))

pub kept-charged :
    (ni : NodeInfo) (ti : TaskInfo) (s : Status)
    → ((charged ni ti s).tasks ≡ ni.tasks)
      × ((charged ni ti s).allocatable ≡ ni.allocatable)
      × ((charged ni ti s).name ≡ ni.name)
      × ((charged ni ti s).node ≡ ni.node)
unfolding charged use_releasing use_pipelined use_idle
kept-charged ni ti releasing = (refl, refl, refl, refl)
kept-charged ni ti _ = (refl, refl, refl, refl)

-- The tasks that a node lists after one more was stored.
pub stored_requests :
    (d : Dict TaskInfo) (v : TaskInfo) (key : ℕ)
    → ((k : ℕ) (t : TaskInfo) → lookup k d ≡ some t → IsRequest t.resreq)
    → IsRequest v.resreq
    → (k : ℕ) (t : TaskInfo) → lookup k (insert key v d) ≡ some t
    → IsRequest t.resreq
stored_requests d v key old q k t e = elim (Bool-cases (key == k)) [
  | inl same ↦ let e' : t ≡ v = ground (arith, lookup-insert key k v d) in rw e' q
  | inr other ↦ old k t (ground (arith, lookup-insert key k v d))
]

pub store-IsAccounted :
    (ni : NodeInfo) (ti : TaskInfo)
    → IsAccounted ni
    → IsRequest ti.resreq
    → lookup ti.pod.key ni.tasks ≡ none
    → fits ni ti ti.status ≡ true
    → IsAccounted (store ti (charged ni ti ti.status))
unfolding store share
store-IsAccounted ni ti a q free f =
    let (same, alloc, _, _) = kept-charged ni ti ti.status in
    rw same (record {
      distinct = insert-Distinct ti.pod.key _ ni.tasks a.distinct;
      requests = stored_requests ni.tasks _ ti.pod.key a.requests q;
      idle_eq = λ n.
          rw
            (
              alloc,
              total-insert holds n ti.pod.key _ ni.tasks free,
              idle-charged ni ti q n ti.status f,
            )
            (move_share _ _ _ _ (a.idle_eq n));
      used_eq = λ n.
          rw (total-insert holds n ti.pod.key _ ni.tasks free, ← a.used_eq n)
            (used-charged ni ti q n ti.status);
      releasing_eq = λ n.
          rw (total-insert is_releasing n ti.pod.key _ ni.tasks free, ← a.releasing_eq n)
            (releasing-charged ni ti q n ti.status);
      pipelined_eq = λ n.
          rw (total-insert is_pipelined n ti.pod.key _ ni.tasks free, ← a.pipelined_eq n)
            (pipelined-charged ni ti q n ti.status);
    })
