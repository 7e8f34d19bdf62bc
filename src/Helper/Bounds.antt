-- ===== src/Helper/Bounds.antt =====
-- The bounds of CalculateNumOfFeasibleNodesToFind, and when its int32 product does not overflow.
use k8s_simulator.Common.{
  ℕ, zero, suc, ◌*◌, ◌^◌, ◌≤◌, ◌<◌, ◌≡◌, refl, ◌⊎◌, inl, inr, arith, Bool-cases, ℤ, pos, negsuc,
  ◌*ℤ◌, ◌≤ℤ◌, ◌<ℤ◌, ltb_ℤ, -ℤ_parts,
}
use Prim.Native.Nat.{◌/◌}
use k8s_simulator.Helper.{
  ServerOption, of_bits, int32, div_ℤ, adaptive_percentage, calculate_num_of_feasible_nodes_to_find,
}

-- A percentage that is one.
abbrev IsPercentage : ℤ → Type 0
IsPercentage a = (p : ℕ) × (a ≡ pos p) × (p ≤ 100)

adaptive-IsPercentage :
    (opts : ServerOption) (n : ℕ)
    → pos 0 <ℤ opts.min_percentage_of_nodes_to_find
    → opts.min_percentage_of_nodes_to_find ≤ℤ pos 100
    → opts.percentage_of_nodes_to_find <ℤ pos 100
    → IsPercentage (adaptive_percentage opts n)
unfolding adaptive_percentage
adaptive-IsPercentage opts n low high below =
    let a = adaptive_percentage opts n in
    let positive : pos 0 <ℤ a = ground (arith, -ℤ_parts (pos 50) (pos (n / 125))) in
    let at_most : a ≤ℤ pos 100 = ground (arith, -ℤ_parts (pos 50) (pos (n / 125))) in
    as_ℕ a positive at_most
  where
    as_ℕ : (b : ℤ) → pos 0 <ℤ b → b ≤ℤ pos 100 → IsPercentage b
    as_ℕ (pos p) l h = (p, refl, omega arith)
    as_ℕ (negsuc p) l h = absurd (omega arith)

times_le : (n p q : ℕ) → p ≤ q → n * p ≤ n * q
times_le zero p q h = omega arith
times_le (suc n) p q h = omega (arith, times_le n p q h)

-- The product with a percentage fits an int32.
share_of :
    (n p : ℕ) → p ≤ 100 → n * 100 < 2 ^ 31 → div_ℤ (int32 (pos n *ℤ pos p)) 100 ≡ pos (n * p / 100)
unfolding div_ℤ int32 of_bits ◌*ℤ◌
share_of n p h small = ground (arith, times_le n p 100 h)

-- If MinPercentageOfNodesToFind is from 1 to 100 and there are fewer than 2 ^ 31 / 100 nodes, the number
-- of feasible nodes to find is at most the number of nodes. It is at least MinNodesToFind, unless it is the
-- number of nodes itself.
pub calculate_num-bounds :
    (opts : ServerOption) (n : ℕ)
    → pos 0 <ℤ opts.min_percentage_of_nodes_to_find
    → opts.min_percentage_of_nodes_to_find ≤ℤ pos 100
    → n * 100 < 2 ^ 31
    → (calculate_num_of_feasible_nodes_to_find opts n ≤ℤ pos n)
      × ((calculate_num_of_feasible_nodes_to_find opts n ≡ pos n)
          ⊎ (opts.min_nodes_to_find ≤ℤ calculate_num_of_feasible_nodes_to_find opts n))
unfolding calculate_num_of_feasible_nodes_to_find
calculate_num-bounds opts n low high small =
    elim (Bool-cases (ltb_ℤ opts.percentage_of_nodes_to_find (pos 100))) [
      | inl below ↦
          let (p, e, h) = adaptive-IsPercentage opts n low high (ground arith) in
          let share = share_of n p h small in rw (e, share) (ground (arith, times_le n p 100 h))
      | inr all_nodes ↦ ground arith
    ]
