-- ===== src/Helper.antt =====
-- pkg/scheduler/util/scheduler_helper.go: how many nodes to look at, and which one to take.
-- A float64 score is an integer in thousandths; a map over scores is a list of its entries, in the order
-- in which `range` visits them.
pub mod Grouping
pub mod Ranking
pub mod Bounds
pub mod Best
pub mod Scoring
pub mod Predicates
pub mod Fitting
pub mod Least
use k8s_simulator.Common.{
  ℕ, zero, suc, ◌+◌, ◌-◌, ◌*◌, ◌^◌, ◌≤◌, ◌<◌, ◌≡◌, refl, sym, ap, ◌∙◌, subst, ◌≢◌, ◌↔◌, ◌⊎◌, inl,
  inr, Bool, true, false, not, ◌&&◌, ◌||◌, Option, none, some, List, [], ◌∷◌, ◌++◌, map, arith, ltb,
  leb, ◌==◌, if◌then◌else◌, ==_refl, ==_ne, ==_iff, Bool-cases, Option-cases, length, count_if, All,
  length-append, ℤ, pos, negsuc, pos_part, neg_part, ◌+ℤ◌, ◌-ℤ◌, ◌*ℤ◌, ◌≤ℤ◌, ◌<ℤ◌, ltb_ℤ, eqb_ℤ,
  abs, min_ℤ, max_ℤ, +ℤ_parts, -ℤ_parts, eq_of_parts, int_laws, move_share, take_share,
  return_share, +ℤ-zero, -ℤ-zero, +ℤ_comm, +ℤ_assoc, +ℤ_cancel, ltb_ℤ_iff, eqb_ℤ_iff, Dict, lookup,
  insert, delete, Distinct, lookup-insert, lookup-delete, insert-Distinct, delete-Distinct,
  lookup-cons_old, lookup-cons_self, delete-insert, lookup-insert_self,
}
use Prim.Native.Nat.{◌/◌, ◌%◌}
use k8s_simulator.Resource.{Resource, add, zero_default}
use k8s_simulator.Resource.Order.{less_equal}
use k8s_simulator.Task.{TaskInfo}
use k8s_simulator.Node.{NodeInfo, future_idle}

-- The options of the scheduler that CalculateNumOfFeasibleNodesToFind reads.
pub record ServerOption : Type 0 where
  pub min_nodes_to_find : ℤ
  pub percentage_of_nodes_to_find : ℤ
  pub min_percentage_of_nodes_to_find : ℤ

-- An int32 from the low 32 bits of a number.
unfoldable pub of_bits : ℕ → ℤ
of_bits r = if ltb r (2 ^ 31) then pos r else negsuc (2 ^ 32 - 1 - r)

-- The int32 that a product comes to, with its wrap-around.
unfoldable pub int32 : ℤ → ℤ
int32 (pos n) = of_bits (n % 2 ^ 32)
int32 (negsuc n) = of_bits (2 ^ 32 - 1 - n % 2 ^ 32)

-- Go's division by a positive constant rounds to 0.
unfoldable pub div_ℤ : ℤ → ℕ → ℤ
div_ℤ (pos n) k = pos (n / k)
div_ℤ (negsuc n) k = pos 0 -ℤ pos (suc n / k)

abbrev pub baseline_percentage : ℕ
baseline_percentage = 50

unfoldable pub adaptive_percentage : ServerOption → ℕ → ℤ
adaptive_percentage opts n =
    if ltb_ℤ (pos 0) opts.percentage_of_nodes_to_find
    then opts.percentage_of_nodes_to_find
    else let adaptive = pos baseline_percentage -ℤ pos (n / 125) in
      if ltb_ℤ adaptive opts.min_percentage_of_nodes_to_find
      then opts.min_percentage_of_nodes_to_find
      else adaptive

-- CalculateNumOfFeasibleNodesToFind of a number of nodes, which is not negative.
unfoldable pub calculate_num_of_feasible_nodes_to_find : ServerOption → ℕ → ℤ
calculate_num_of_feasible_nodes_to_find opts n =
    if not (ltb_ℤ opts.min_nodes_to_find (pos n))
      || not (ltb_ℤ opts.percentage_of_nodes_to_find (pos 100))
    then pos n
    else let num_nodes = div_ℤ (int32 (pos n *ℤ adaptive_percentage opts n)) 100 in
      if ltb_ℤ num_nodes opts.min_nodes_to_find then opts.min_nodes_to_find else num_nodes

-- The two loops of SelectBestNode: the first entry that beats -1 and all before it.
unfoldable pub best_of {ℓ} : {A : Type ℓ} → (A → ℤ) → ℤ → Option A → List A → Option A
best_of score max chosen [] = chosen
best_of score max chosen (x ∷ xs) =
    if ltb_ℤ max (score x) then best_of score (score x) (some x) xs else best_of score max chosen xs

-- -1.0
abbrev pub minus_one : ℤ
minus_one = negsuc 999

unfoldable pub select_best_node : List (ℤ × List NodeInfo) → Option NodeInfo
select_best_node node_scores =
    elim (best_of (λ (e : ℤ × List NodeInfo). e.0) minus_one none node_scores) [
      | none ↦ none
      | some (score, nodes) ↦
          best_of (λ (n : NodeInfo). n.allocatable.milli_cpu) minus_one none nodes
    ]

-- GetNodeList
unfoldable pub get_node_list : Dict NodeInfo → List ℕ → List NodeInfo
get_node_list nodes [] = []
get_node_list nodes (name ∷ names) =
    let rest = get_node_list nodes names in
    elim (lookup name nodes) [ none ↦ rest | some ni ↦ ni ∷ rest ]

-- ValidateVictims
pub data VictimError : Type 0 where
  no_victims not_enough_resources : VictimError

unfoldable pub add_victims : Resource → List TaskInfo → Resource
add_victims r [] = r
add_victims r (v ∷ vs) = add_victims (add r v.resreq) vs

-- Its result, `none` for nil; FutureIdle may panic.
unfoldable pub validate_victims : TaskInfo → NodeInfo → List TaskInfo → Option (Option VictimError)
validate_victims preemptor node [] = some (some no_victims)
validate_victims preemptor node (v ∷ vs) = elim (future_idle node) [
  | none ↦ none
  | some idle ↦ some (
      if less_equal preemptor.init_resreq (add_victims idle (v ∷ vs)) zero_default
      then none
      else some not_enough_resources)
]

-- GetMinInt
unfoldable pub min_from : ℤ → List ℤ → ℤ
min_from min [] = min
min_from min (v ∷ vs) = min_from (if ltb_ℤ min v then min else v) vs

unfoldable pub get_min_int : List ℤ → ℤ
get_min_int [] = pos 0
get_min_int (v ∷ vs) = min_from v (v ∷ vs)
