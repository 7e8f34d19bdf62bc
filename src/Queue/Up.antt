-- ===== src/Queue/Up.antt =====
-- The loop of container/heap that lets an entry rise.
use k8s_simulator.Common.{
  ℕ, zero, suc, ◌≡◌, ◌≢◌, refl, ◌<◌, Bool, true, false, Option, some, List, arith, ◌==◌,
  if◌then◌else◌, length, entry, exchange, entry-exchange, exchange-Perm, length-exchange, Returns,
  Returns-some, Returns-map, Returns-if,
}
use mathlib.Core.List.{Perm}
use mathlib.Core.List.Perm
use k8s_simulator.Queue.{parent, up_loop}
use k8s_simulator.Queue.Order.{IsOrder, before, less-before, swap-exchange, IsHeapTo}

module _ {A : Type 0} (d : A) where
  -- One round of `up`, in range.
  up_round :
      (k : ℕ) (f : Option (A → A → Bool)) (a : List A) (j : ℕ)
      → j < length a
      → up_loop (suc k) f a j ≡ (
          if parent j == j
          then some a
          else if before d f a j (parent j)
          then up_loop k f (exchange d a (parent j) j) (parent j)
          else some a)
  unfolding up_loop
  up_round k f a j h =
      let above : parent j < length a = omega arith in
      rw (less-before d j (parent j) a h above f, swap-exchange d (parent j) j a above h) refl

  pub up_loop-Perm :
      (k : ℕ) (f : Option (A → A → Bool)) (a : List A) (j : ℕ)
      → j < k
      → j < length a
      → Returns (λ b. Perm b a) (up_loop k f a j)
  up_loop-Perm zero f a j p h = absurd (omega arith)
  up_loop-Perm (suc k) f a j p h =
      let above : parent j < length a = omega arith in
      rw (up_round k f a j h) (
        Returns-if (parent j == j) (λ top. Returns-some a Perm.rfl)
          λ inner.
            Returns-if (before d f a j (parent j))
              (λ rises.
                Returns-map
                  (up_loop-Perm k f (exchange d a (parent j) j) (parent j) (ground arith)
                    (omega (arith, length-exchange d (parent j) j a)))
                  λ b same. Perm.trans same (exchange-Perm d (parent j) j a above h))
              λ stays. Returns-some a Perm.rfl)

  module _ (f : A → A → Bool) where
    -- Only the edge above `j` may be out of order.
    pub record CanRise (a : List A) (j : ℕ) : Type 0 where
      pub edges : (c : ℕ) → 0 < c → c < length a → c ≢ j → before d (some f) a c (parent c) ≡ false
      pub bridged :
          (c : ℕ)
          → 0 < c
          → c < length a
          → parent c ≡ j
          → 0 < j
          → before d (some f) a c (parent j) ≡ false

    exchange-CanRise :
        (a : List A) (j : ℕ)
        → IsOrder f
        → j < length a
        → 0 < j
        → CanRise a j
        → before d (some f) a j (parent j) ≡ true
        → CanRise (exchange d a (parent j) j) (parent j)
    unfolding before
    exchange-CanRise a j o h p v rises =
        let at = entry-exchange d (parent j) j a (omega arith) h in
        let size = length-exchange d (parent j) j a in
        let behind = o.asym (entry d a j) (entry d a (parent j)) rises in
        record {
          edges = λ c q r s. ground (
            arith,
            size,
            at c,
            at (parent c),
            v.edges c,
            v.bridged c,
            behind,
            o.trans (entry d a j) (entry d a (parent j)) (entry d a c),
          );
          bridged = λ c q r s t. ground (
            arith,
            size,
            at c,
            at (parent (parent j)),
            v.edges c,
            v.edges (parent j),
            o.trans (entry d a (parent (parent j))) (entry d a (parent j)) (entry d a c),
          );
        }

    pub up_loop-IsHeapTo :
        (k : ℕ) (a : List A) (j : ℕ)
        → IsOrder f
        → j < k
        → j < length a
        → CanRise a j
        → Returns (IsHeapTo d f (length a)) (up_loop k (some f) a j)
    up_loop-IsHeapTo zero a j o p h v = absurd (omega arith)
    up_loop-IsHeapTo (suc k) a j o p h v = rw (up_round k (some f) a j h) (
        Returns-if (parent j == j) (λ top. Returns-some a λ c q r. v.edges c q r (ground arith))
          λ inner.
            Returns-if (before d (some f) a j (parent j))
              (λ rises.
                let b = exchange d a (parent j) j in
                let size : length b ≡ length a = length-exchange d (parent j) j a in
                rw size at (
                  up_loop-IsHeapTo k b (parent j) o (ground arith) (omega (arith, size))
                    (exchange-CanRise a j o h (ground arith) v rises)))
              λ stays. Returns-some a λ c q r. ground (arith, v.edges c))
