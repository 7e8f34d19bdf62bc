-- ===== src/Common/Maps.antt =====
-- Go maps as association lists. `for k, v := range m` visits the entries in the order of the list;
-- identifiers (strings that are only compared) and enumerations are numbers.
use Prim.Native.Nat.{ℕ}
use mathlib.Core.Path.{◌≡◌, refl}
use mathlib.Core.Option.{Option, none, some}
use mathlib.Core.List.{List, [], ◌∷◌}
use native.Mathlib.Omega.{arith}
use k8s_simulator.Common.Tests.{◌==◌, if◌then◌else◌}

abbrev pub Dict {ℓ} : Type ℓ → Type ℓ
Dict V = List (ℕ × V)

module _ {ℓ} {V : Type ℓ} where
  -- `m[k]`, with `ok`
  unfoldable pub lookup : ℕ → Dict V → Option V
  lookup k [] = none
  lookup k ((j, v) ∷ d) = if j == k then some v else lookup k d

  -- `m[k] = v`
  unfoldable pub insert : ℕ → V → Dict V → Dict V
  insert k v [] = (k, v) ∷ []
  insert k v ((j, w) ∷ d) = if j == k then (k, v) ∷ d else (j, w) ∷ insert k v d

  -- `delete(m, k)`
  unfoldable pub delete : ℕ → Dict V → Dict V
  delete k [] = []
  delete k ((j, w) ∷ d) = if j == k then d else (j, w) ∷ delete k d

  -- A map has one entry for each key.
  abbrev pub Distinct : Dict V → Type ℓ
  Distinct [] = Unit
  Distinct ((k, v) ∷ d) = (lookup k d ≡ none) × Distinct d

  pub lookup-insert :
      (k j : ℕ) (v : V) (d : Dict V)
      → lookup j (insert k v d) ≡ (if k == j then some v else lookup j d)
  unfolding lookup insert
  lookup-insert k j v [] = refl
  lookup-insert k j v ((i, w) ∷ d) = ground (arith, lookup-insert k j v d)

  pub lookup-delete :
      (k j : ℕ) (d : Dict V)
      → Distinct d
      → lookup j (delete k d) ≡ (if k == j then none else lookup j d)
  unfolding lookup delete
  lookup-delete k j [] h = ground arith
  lookup-delete k j ((i, w) ∷ d) h = ground (arith, lookup-delete k j d)

  pub insert-Distinct : (k : ℕ) (v : V) (d : Dict V) → Distinct d → Distinct (insert k v d)
  unfolding lookup insert
  insert-Distinct k v [] h = (refl, tt)
  insert-Distinct k v ((i, w) ∷ d) h = ground (arith, insert-Distinct k v d, lookup-insert k i v d)

  pub delete-Distinct : (k : ℕ) (d : Dict V) → Distinct d → Distinct (delete k d)
  unfolding lookup delete
  delete-Distinct k [] h = tt
  delete-Distinct k ((i, w) ∷ d) h = ground (arith, delete-Distinct k d, lookup-delete k i d)

  pub lookup-cons_old :
      (j k : ℕ) (v w : V) (d : Dict V)
      → lookup j d ≡ none
      → lookup k d ≡ some w
      → lookup k ((j, v) ∷ d) ≡ some w
  unfolding lookup
  lookup-cons_old j k v w d h e = ground arith

  pub lookup-cons_self : (k : ℕ) (v : V) (d : Dict V) → lookup k ((k, v) ∷ d) ≡ some v
  unfolding lookup
  lookup-cons_self k v d = ground arith

  -- A new key is taken out again.
  pub delete-insert : (k : ℕ) (v : V) (d : Dict V) → lookup k d ≡ none → delete k (insert k v d) ≡ d
  unfolding lookup insert delete
  delete-insert k v [] h = ground arith
  delete-insert k v ((j, w) ∷ d) h = ground (arith, delete-insert k v d)

  pub lookup-insert_self : (k : ℕ) (v : V) (d : Dict V) → lookup k (insert k v d) ≡ some v
  lookup-insert_self k v d = rw (lookup-insert k k v d) (ground arith)
