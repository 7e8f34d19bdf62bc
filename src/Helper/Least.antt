-- ===== src/Helper/Least.antt =====
-- GetMinInt.
use k8s_simulator.Common.{
  ◌≡◌, sym, ap, subst, Bool, true, false, List, [], ◌∷◌, arith, if◌then◌else◌, All, ℤ, ◌≤ℤ◌, ltb_ℤ,
}
use mathlib.Core.Logic.Or
use mathlib.Core.List.{Mem, Mem-prop, eq-or-mem_of_mem-cons, mem-cons_self, mem-cons_of_mem}
use k8s_simulator.Helper.{min_from, get_min_int}

min_from-least : (m : ℤ) (vs : List ℤ) → (min_from m vs ≤ℤ m) × All (λ v. min_from m vs ≤ℤ v) vs
unfolding min_from
min_from-least m [] = (omega arith, tt)
min_from-least m (v ∷ vs) =
    let (h, rest) = min_from-least (if ltb_ℤ m v then m else v) vs in
    (ground (arith, h), (ground (arith, h), rest))

one_of :
    (b : Bool) (x m v : ℤ) (vs : List ℤ) → Mem x ((if b then m else v) ∷ vs) → Mem x (m ∷ v ∷ vs)
one_of false x m v vs k = mem-cons_of_mem m k
one_of true x m v vs k =
    Or.elim Mem-prop (eq-or-mem_of_mem-cons k)
      (λ e. subst (λ y. Mem y (m ∷ v ∷ vs)) (sym e) mem-cons_self)
      λ rest. mem-cons_of_mem m (mem-cons_of_mem v rest)

min_from-Mem : (m : ℤ) (vs : List ℤ) → Mem (min_from m vs) (m ∷ vs)
unfolding min_from
min_from-Mem m [] = mem-cons_self
min_from-Mem m (v ∷ vs) = one_of (ltb_ℤ m v) _ m v vs (min_from-Mem (if ltb_ℤ m v then m else v) vs)

-- GetMinInt of one value or more returns one of them that is at most each of the others.
pub get_min_int-least :
    (v : ℤ) (vs : List ℤ)
    → Mem (get_min_int (v ∷ vs)) (v ∷ vs) × All (λ w. get_min_int (v ∷ vs) ≤ℤ w) (v ∷ vs)
unfolding get_min_int min_from
get_min_int-least v vs =
    let again : (b : Bool) → (if b then v else v) ≡ v = λ b. ground arith in
    let first : min_from v (v ∷ vs) ≡ min_from v vs = ap (λ m. min_from m vs) (again (ltb_ℤ v v)) in
    (subst (λ m. Mem m (v ∷ vs)) (sym first) (min_from-Mem v vs), (min_from-least v (v ∷ vs)).1)
