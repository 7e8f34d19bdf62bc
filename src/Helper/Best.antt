-- ===== src/Helper/Best.antt =====
-- The node that SelectBestNode takes.
use k8s_simulator.Common.{
  ◌≡◌, refl, ◌⊎◌, inl, inr, Bool, true, false, not, Option, none, some, List, [], ◌∷◌, arith,
  Bool-cases, All, ℤ, pos, ◌≤ℤ◌, ◌<ℤ◌, ltb_ℤ,
}
use mathlib.Core.Bool.{Bool-set}
use mathlib.Core.List.{Mem, not-mem-nil, forall_mem-cons, mem-cons_self, mem-cons_of_mem}
use k8s_simulator.Node.{NodeInfo}
use k8s_simulator.Helper.{best_of, minus_one, select_best_node}

module _ {ℓ} {A : Type ℓ} (score : A → ℤ) where
  abbrev NoneAbove : ℤ → List A → Type 0
  NoneAbove max xs = All (λ x. score x ≤ℤ max) xs

  weaken : (a b : ℤ) (xs : List A) → a ≤ℤ b → NoneAbove a xs → NoneAbove b xs
  weaken a b [] h v = tt
  weaken a b (x ∷ xs) h v = (omega (arith, v.0), weaken a b xs h v.1)

  -- The loop keeps what it starts with if nothing beats it, and else ends with an element of the list.
  pub best_of-cases :
      (max : ℤ) (chosen : Option A) (xs : List A)
      → ((best_of score max chosen xs ≡ chosen) × NoneAbove max xs)
        ⊎ ((x : A) × (best_of score max chosen xs ≡ some x)
            × Mem x xs
            × (max <ℤ score x)
            × NoneAbove (score x) xs)
  unfolding best_of
  best_of-cases max chosen [] = inl (refl, tt)
  best_of-cases max chosen (y ∷ ys) = elim (Bool-cases (ltb_ℤ max (score y))) [
    | inl above ↦ rw above (elim (best_of-cases (score y) (some y) ys) [
      | inl (e, v) ↦ inr (y, e, mem-cons_self, ground arith, (omega arith, v))
      | inr (x, e, m, h, v) ↦ inr (x, e, mem-cons_of_mem y m, ground arith, (omega (arith, h), v))
    ])
    | inr below ↦ rw below (elim (best_of-cases max chosen ys) [
      | inl (e, v) ↦ inl (e, (ground arith, v))
      | inr (x, e, m, h, v) ↦ inr (x, e, mem-cons_of_mem y m, h, (ground arith, v))
    ])
  ]

-- A node of the best group, with the most CPU in it.
abbrev pub IsBestNode : List (ℤ × List NodeInfo) → NodeInfo → Type 0
IsBestNode groups node =
    (score : ℤ) × (nodes : List NodeInfo) × Mem (score, nodes) groups
    × All (λ (g : ℤ × List NodeInfo). g.0 ≤ℤ score) groups
    × Mem node nodes
    × All (λ (n : NodeInfo). n.allocatable.milli_cpu ≤ℤ node.allocatable.milli_cpu) nodes

-- A group with nodes, the first of which has CPU that is not negative.
abbrev pub is_offered : ℤ × List NodeInfo → Bool
is_offered (score, []) = false
is_offered (score, n ∷ ns) = not (ltb_ℤ n.allocatable.milli_cpu (pos 0))

All-offered :
    (gs : List (ℤ × List NodeInfo))
    → All (λ g. is_offered g ≡ true) gs
    → (g : ℤ × List NodeInfo) → Mem g gs
    → is_offered g ≡ true
All-offered [] v = λ g m. absurd (not-mem-nil m)
All-offered (h ∷ hs) v =
    (forall_mem-cons λ g. Bool-set (is_offered g) true).1 (v.0, All-offered hs v.1)

some_above :
    (score : ℤ) (nodes : List NodeInfo)
    → is_offered (score, nodes) ≡ true
    → All (λ (n : NodeInfo). n.allocatable.milli_cpu ≤ℤ minus_one) nodes
    → ⊥
some_above score [] e v = cc
some_above score (n ∷ ns) e v = let here = v.0 in ground arith

-- If every score is at least 0 and comes with nodes, the first of which has CPU that is not negative, and
-- there is a score at all, SelectBestNode returns a node: of the group with the highest score, it is one with
-- the most allocatable CPU.
pub select_best_node-IsBestNode :
    (g : ℤ × List NodeInfo) (gs : List (ℤ × List NodeInfo))
    → All (λ (h : ℤ × List NodeInfo). pos 0 ≤ℤ h.0) (g ∷ gs)
    → All (λ h. is_offered h ≡ true) (g ∷ gs)
    → (node : NodeInfo) × (select_best_node (g ∷ gs) ≡ some node) × IsBestNode (g ∷ gs) node
unfolding select_best_node
select_best_node-IsBestNode g gs scored offered =
    elim (best_of-cases (λ (e : ℤ × List NodeInfo). e.0) minus_one none (g ∷ gs)) [
      | inl (e, v) ↦ absurd (omega (arith, v.0, scored.0))
      | inr ((score, nodes), e, m, h, v) ↦
          elim (best_of-cases (λ (n : NodeInfo). n.allocatable.milli_cpu) minus_one none nodes) [
            | inl (f, w) ↦
                absurd (some_above score nodes (All-offered (g ∷ gs) offered (score, nodes) m) w)
            | inr (node, f, k, i, w) ↦
                (node, rw (select_best_node, e, f) refl, (score, nodes, m, v, k, w))
          ]
    ]
