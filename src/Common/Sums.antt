-- ===== src/Common/Sums.antt =====
-- Sums over maps, and how many keys a map does not have yet.
use Prim.Native.Nat.{ℕ, ◌+◌, ◌≤◌, ◌<◌}
use mathlib.Core.Path.{◌≡◌, sym, subst}
use mathlib.Core.Bool.{Bool, true, false, ◌||◌}
use mathlib.Core.Option.{Option, none, some}
use mathlib.Core.List.{List, [], ◌∷◌}
use mathlib.Core.Logic.{inl, inr}
use native.Mathlib.Omega.{arith}
use k8s_simulator.Common.Tests.{◌==◌, if◌then◌else◌, Bool-cases}
use k8s_simulator.Common.Lists.{All}
use k8s_simulator.Common.Maps.{Dict, lookup, insert, delete, lookup-insert}

abbrev pub is_found {ℓ} : {A : Type ℓ} → Option A → Bool
is_found none = false
is_found (some a) = true

module _ {ℓ} {V : Type ℓ} where
  unfoldable pub sum_of : (V → ℕ) → Dict V → ℕ
  sum_of f [] = 0
  sum_of f ((k, v) ∷ d) = f v + sum_of f d

  pub sum_of-insert :
      (f : V → ℕ) (k : ℕ) (v w : V) (d : Dict V)
      → lookup k d ≡ some v
      → sum_of f (insert k w d) + f v ≡ sum_of f d + f w
  unfolding sum_of lookup insert
  sum_of-insert f k v w [] e = cc
  sum_of-insert f k v w ((j, u) ∷ d) e = ground (arith, sum_of-insert f k v w d)

  pub sum_of-delete :
      (f : V → ℕ) (k : ℕ) (v : V) (d : Dict V)
      → lookup k d ≡ some v
      → sum_of f (delete k d) + f v ≡ sum_of f d
  unfolding sum_of lookup delete
  sum_of-delete f k v [] e = cc
  sum_of-delete f k v ((j, u) ∷ d) e = ground (arith, sum_of-delete f k v d)

  pub sum_of-delete-le : (f : V → ℕ) (k : ℕ) (d : Dict V) → sum_of f (delete k d) ≤ sum_of f d
  unfolding sum_of delete
  sum_of-delete-le f k [] = omega arith
  sum_of-delete-le f k ((j, u) ∷ d) = ground (arith, sum_of-delete-le f k d)

  module _ {κ} (Q : ℕ × V → Type κ) where
    pub All-lookup : (k : ℕ) (v : V) (d : Dict V) → All Q d → lookup k d ≡ some v → Q (k, v)
    unfolding lookup
    All-lookup k v [] h e = absurd cc
    All-lookup k v ((j, u) ∷ d) h e = elim (Bool-cases (j == k)) [
      | inl here ↦
          let same_key : j ≡ k = ground arith in
          let same : u ≡ v = ground arith in
          subst (λ i. Q (i, v)) same_key (subst (λ w. Q (j, w)) same h.0)
      | inr other ↦ All-lookup k v d h.1 (rw other at e)
    ]

    pub All-insert : (k : ℕ) (v : V) (d : Dict V) → All Q d → Q (k, v) → All Q (insert k v d)
    unfolding insert
    All-insert k v [] h q = (q, tt)
    All-insert k v ((j, u) ∷ d) h q = elim (Bool-cases (j == k)) [
      | inl here ↦ rw here (q, h.1)
      | inr other ↦ rw other (h.0, All-insert k v d h.1 q)
    ]

    pub All-delete : (k : ℕ) (d : Dict V) → All Q d → All Q (delete k d)
    unfolding delete
    All-delete k [] h = tt
    All-delete k ((j, u) ∷ d) h = elim (Bool-cases (j == k)) [
      | inl here ↦ rw here h.1
      | inr other ↦ rw other (h.0, All-delete k d h.1)
    ]

abbrev pub contains : ℕ → List ℕ → Bool
contains k [] = false
contains k (x ∷ xs) = x == k || contains k xs

module _ {ℓ} {V : Type ℓ} where
  -- How many of the keys are not in the map.
  unfoldable pub missing : List ℕ → Dict V → ℕ
  missing [] d = 0
  missing (k ∷ ks) d = (if is_found (lookup k d) then 0 else 1) + missing ks d

  pub missing-insert-le :
      (ks : List ℕ) (k : ℕ) (v : V) (d : Dict V) → missing ks (insert k v d) ≤ missing ks d
  unfolding missing
  missing-insert-le [] k v d = omega arith
  missing-insert-le (j ∷ ks) k v d =
      ground (arith, missing-insert-le ks k v d, lookup-insert k j v d)

  pub missing-insert-lt :
      (ks : List ℕ) (k : ℕ) (v : V) (d : Dict V)
      → contains k ks ≡ true
      → lookup k d ≡ none
      → missing ks (insert k v d) < missing ks d
  unfolding missing
  missing-insert-lt [] k v d c e = absurd cc
  missing-insert-lt (j ∷ ks) k v d c e = elim (Bool-cases (j == k)) [
    | inl here ↦
        let same_key : j ≡ k = ground arith in
        let gone : lookup j d ≡ none = subst (λ i. lookup i d ≡ none) (sym same_key) e in
        ground (arith, missing-insert-le ks k v d, lookup-insert k j v d)
    | inr other ↦ ground (arith, missing-insert-lt ks k v d, lookup-insert k j v d)
  ]
