-- ===== src/Node/Recount.antt =====
-- Counting the amounts of a node anew from its tasks.
use k8s_simulator.Common.{
  ℕ, ◌≡◌, refl, sym, ap, ◌∙◌, ◌≢◌, inl, inr, Bool, none, [], ◌∷◌, arith, if◌then◌else◌,
  Option-cases, ℤ, pos, ◌+ℤ◌, int_laws, +ℤ-zero, +ℤ_comm, +ℤ_assoc, Dict, Distinct, lookup-cons_old,
  lookup-cons_self,
}
use k8s_simulator.Resource.{Resource, get, sub_unchecked, empty_resource}
use k8s_simulator.Resource.Amounts.{get-add, get-sub_unchecked, get-empty_resource}
use k8s_simulator.Resource.Exact.{IsRequest}
use k8s_simulator.Task.{Status, releasing, pipelined, TaskInfo}
use k8s_simulator.Task.Totals.{holds, is_releasing, is_pipelined, share, total, AreRequests}
use k8s_simulator.Node.{NodeObject, NodeInfo}
use k8s_simulator.Node.Accounting.{IsAccounted}
use k8s_simulator.Node.Lifecycle.{
  recharge, recharge_all, reset_node, fill_node, set_revocable_zone, set_node_gpu_info,
  set_oversubscription,
}

-- The scalar map of a resource is not nil.
abbrev pub HasScalars : Resource → Type 0
HasScalars r = r.scalars ≢ none

module _ (ni : NodeInfo) (t : TaskInfo) (q : IsRequest t.resreq) (n : ℕ) where
  idle-recharge :
      (s : Status)
      → HasScalars ni.idle
      → get (recharge ni t s).idle n +ℤ (if holds s then get t.resreq n else pos 0) ≡ get ni.idle n
  unfolding recharge holds
  idle-recharge pipelined h = +ℤ-zero _
  idle-recharge _ h =
      let e = get-sub_unchecked ni.idle t.resreq n q.formed.distinct (λ x. absurd (h x)) in
      rw e (omega int_laws)

  used-recharge :
      (s : Status)
      → get (recharge ni t s).used n ≡ get ni.used n +ℤ (if holds s then get t.resreq n else pos 0)
  unfolding recharge holds
  used-recharge pipelined = sym (+ℤ-zero _)
  used-recharge _ = get-add ni.used t.resreq n q.formed.distinct

  releasing-recharge :
      (s : Status)
      → get (recharge ni t s).releasing_res n
        ≡ get ni.releasing_res n +ℤ (if is_releasing s then get t.resreq n else pos 0)
  unfolding recharge is_releasing
  releasing-recharge releasing = get-add ni.releasing_res t.resreq n q.formed.distinct
  releasing-recharge _ = sym (+ℤ-zero _)

  pipelined-recharge :
      (s : Status)
      → get (recharge ni t s).pipelined_res n
        ≡ get ni.pipelined_res n +ℤ (if is_pipelined s then get t.resreq n else pos 0)
  unfolding recharge is_pipelined
  pipelined-recharge pipelined = get-add ni.pipelined_res t.resreq n q.formed.distinct
  pipelined-recharge _ = sym (+ℤ-zero _)

sub_unchecked-HasScalars : (r rr : Resource) → HasScalars r → HasScalars (sub_unchecked r rr)
unfolding sub_unchecked
sub_unchecked-HasScalars r rr h e = elim (Option-cases r.scalars) [
  | inl none_there ↦ h none_there
  | inr (d, there) ↦ ground arith
]

kept-recharge :
    (ni : NodeInfo) (t : TaskInfo) (s : Status)
    → ((recharge ni t s).tasks ≡ ni.tasks)
      × ((recharge ni t s).allocatable ≡ ni.allocatable)
      × (HasScalars ni.idle → HasScalars (recharge ni t s).idle)
unfolding recharge
kept-recharge ni t pipelined = (refl, refl, λ h. h)
kept-recharge ni t s = (refl, refl, sub_unchecked-HasScalars ni.idle t.resreq)

idle_step : (a a' f x r : ℤ) → a' +ℤ x ≡ a → f +ℤ r ≡ a' → f +ℤ (x +ℤ r) ≡ a
idle_step a a' f x r e h =
    ap (λ y. f +ℤ y) (+ℤ_comm x r) ∙ sym (+ℤ_assoc f r x) ∙ ap (λ y. y +ℤ x) h ∙ e

sum_step : (a a' f x r : ℤ) → a' ≡ a +ℤ x → f ≡ a' +ℤ r → f ≡ a +ℤ (x +ℤ r)
sum_step a a' f x r e h = h ∙ ap (λ y. y +ℤ r) e ∙ +ℤ_assoc a x r

-- The loop over the tasks.
record Recounted (ni after : NodeInfo) (d : Dict TaskInfo) : Type 0 where
  idle_eq : (n : ℕ) → get after.idle n +ℤ total holds n d ≡ get ni.idle n
  used_eq : (n : ℕ) → get after.used n ≡ get ni.used n +ℤ total holds n d
  releasing_eq :
      (n : ℕ) → get after.releasing_res n ≡ get ni.releasing_res n +ℤ total is_releasing n d
  pipelined_eq :
      (n : ℕ) → get after.pipelined_res n ≡ get ni.pipelined_res n +ℤ total is_pipelined n d
  same_tasks : after.tasks ≡ ni.tasks
  same_allocatable : after.allocatable ≡ ni.allocatable

recharge_all-Recounted :
    (ni : NodeInfo) (d : Dict TaskInfo)
    → Distinct d
    → AreRequests d
    → HasScalars ni.idle
    → Recounted ni (recharge_all ni d) d
unfolding recharge_all total share
recharge_all-Recounted ni [] h q s = record {
  idle_eq = λ n. +ℤ-zero _;
  used_eq = λ n. sym (+ℤ-zero _);
  releasing_eq = λ n. sym (+ℤ-zero _);
  pipelined_eq = λ n. sym (+ℤ-zero _);
  same_tasks = refl;
  same_allocatable = refl;
}
recharge_all-Recounted ni ((k, t) ∷ d) h q s =
    let (tasks, alloc, scalars) = kept-recharge ni t t.status in
    let qt = q k t (lookup-cons_self k t d) in
    let r =
      recharge_all-Recounted (recharge ni t t.status) d h.1
        (λ j u e. q j u (lookup-cons_old k j t u d h.0 e)) (scalars s) in
    record {
      idle_eq = λ n. idle_step _ _ _ _ _ (idle-recharge ni t qt n t.status s) (r.idle_eq n);
      used_eq = λ n. sum_step _ _ _ _ _ (used-recharge ni t qt n t.status) (r.used_eq n);
      releasing_eq =
          λ n. sum_step _ _ _ _ _ (releasing-recharge ni t qt n t.status) (r.releasing_eq n);
      pipelined_eq =
          λ n. sum_step _ _ _ _ _ (pipelined-recharge ni t qt n t.status) (r.pipelined_eq n);
      same_tasks = r.same_tasks ∙ tasks;
      same_allocatable = r.same_allocatable ∙ alloc;
    }

recharge_all-allocatable :
    (ni : NodeInfo) (d : Dict TaskInfo) → (recharge_all ni d).allocatable ≡ ni.allocatable
unfolding recharge_all
recharge_all-allocatable ni [] = refl
recharge_all-allocatable ni ((k, t) ∷ d) =
    recharge_all-allocatable (recharge ni t t.status) d ∙ (kept-recharge ni t t.status).1

-- A loop that starts with nothing in use and everything idle leaves the books kept.
recount-IsAccounted :
    (start : NodeInfo)
    → Distinct start.tasks
    → AreRequests start.tasks
    → HasScalars (recharge_all start start.tasks).allocatable
    → start.idle ≡ start.allocatable
    → start.used ≡ empty_resource
    → start.releasing_res ≡ empty_resource
    → start.pipelined_res ≡ empty_resource
    → IsAccounted (recharge_all start start.tasks)
recount-IsAccounted start h q s idle used rel pip =
    let r =
      recharge_all-Recounted start start.tasks h q
        (rw (idle, ← recharge_all-allocatable start start.tasks) s) in
    record {
      distinct = rw r.same_tasks h;
      requests = rw r.same_tasks q;
      idle_eq = λ n. rw (r.same_tasks, r.same_allocatable) (r.idle_eq n ∙ ap (λ x. get x n) idle);
      used_eq = λ n. rw r.same_tasks (r.used_eq n ∙ from_nothing n _ _ used);
      releasing_eq = λ n. rw r.same_tasks (r.releasing_eq n ∙ from_nothing n _ _ rel);
      pipelined_eq = λ n. rw r.same_tasks (r.pipelined_eq n ∙ from_nothing n _ _ pip);
    }
  where
    from_nothing : (n : ℕ) (x : Resource) (c : ℤ) → x ≡ empty_resource → get x n +ℤ c ≡ c
    from_nothing n x c e =
        let zero_amount : get x n ≡ pos 0 = ap (λ y. get y n) e ∙ get-empty_resource n in
        rw zero_amount (+ℤ_comm (pos 0) c ∙ +ℤ-zero c)

-- setNode counts the amounts anew, so that the books are kept whatever the amounts were before: for a
-- node whose tasks have distinct keys and whole requests, if the allocatable resources that the node
-- object gives have a scalar map (from a nil map the loop would not subtract).
pub reset_node-IsAccounted :
    (is_scalar_resource_name : ℕ → Bool) (ni : NodeInfo) (node : NodeObject)
    → Distinct ni.tasks
    → AreRequests ni.tasks
    → HasScalars (reset_node is_scalar_resource_name ni node).allocatable
    → IsAccounted (reset_node is_scalar_resource_name ni node)
unfolding reset_node fill_node set_revocable_zone set_node_gpu_info set_oversubscription
reset_node-IsAccounted is_scalar_resource_name ni node h q s =
    recount-IsAccounted _ h q s refl refl refl refl
