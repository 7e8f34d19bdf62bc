-- ===== src/Queue/Order.antt =====
-- The calls on a slice whose indices are in range, and the order of a heap.
use k8s_simulator.Common.{
  ℕ, zero, suc, ◌≡◌, inl, inr, refl, ◌<◌, Bool, true, false, Bool-cases, Option, none, some, List,
  arith, ltb, ◌==◌, length, entry, exchange, get_elem?-entry,
}
use k8s_simulator.Queue.{less, swap, parent}

-- No element is before itself or before one that it is behind: `f x y` says that x goes before y.
pub record IsOrder {A : Type 0} (f : A → A → Bool) : Type 0 where
  pub asym : (x y : A) → f x y ≡ true → f y x ≡ false
  pub trans : (x y z : A) → f y x ≡ false → f z y ≡ false → f z x ≡ false

module _ {A : Type 0} (d : A) where
  -- What Less answers in range.
  unfoldable pub before : Option (A → A → Bool) → List A → ℕ → ℕ → Bool
  before none a i j = ltb i j
  before (some f) a i j = f (entry d a i) (entry d a j)

  module _ (i j : ℕ) (a : List A) (hi : i < length a) (hj : j < length a) where
    pub less-before : (f : Option (A → A → Bool)) → less f a i j ≡ some (before f a i j)
    unfolding less before
    less-before none = refl
    less-before (some f) = rw (get_elem?-entry d i a hi, get_elem?-entry d j a hj) refl

    pub swap-exchange : swap a i j ≡ some (exchange d a i j)
    unfolding swap exchange
    swap-exchange = rw (get_elem?-entry d j a hj, get_elem?-entry d i a hi) refl

  module _ (f : A → A → Bool) where
    -- The edges of the first n entries, from a child to its parent, are in order.
    abbrev pub IsHeapTo : ℕ → List A → Type 0
    IsHeapTo n a = (c : ℕ) → 0 < c → c < n → before (some f) a c (parent c) ≡ false

    root_first_below :
        (k n : ℕ) (a : List A)
        → IsOrder f
        → IsHeapTo n a
        → (i : ℕ) → i < k
        → 0 < i
        → i < n
        → before (some f) a i 0 ≡ false
    unfolding before
    root_first_below zero n a o h i p q r = absurd (omega arith)
    root_first_below (suc k) n a o h i p q r = elim (Bool-cases (parent i == 0)) [
      | inl top ↦ let e : parent i ≡ 0 = ground arith in rw e at (h i q r)
      | inr inner ↦
          o.trans (entry d a 0) (entry d a (parent i)) (entry d a i)
            (root_first_below k n a o h (parent i) (ground arith) (ground arith) (ground arith))
            (h i q r)
    ]

    -- In a heap no entry goes before the root.
    pub root_first :
        (n : ℕ) (a : List A)
        → IsOrder f
        → IsHeapTo n a
        → (i : ℕ) → 0 < i
        → i < n
        → before (some f) a i 0 ≡ false
    root_first n a o h i q r = root_first_below (suc i) n a o h i (omega arith) q r
