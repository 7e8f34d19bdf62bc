-- ===== src/Queue/Sink.antt =====
-- The heap order after an entry has sunk.
use k8s_simulator.Common.{
  ℕ, zero, suc, ◌+◌, ◌-◌, ◌*◌, ◌≡◌, ◌≢◌, inl, inr, subst, ◌<◌, ◌≤◌, Bool, true, false, Bool-cases,
  some, List, arith, ltb, leb, ◌==◌, length, entry, exchange, entry-exchange, length-exchange,
  Returns, Returns-some, Returns-if,
}
use k8s_simulator.Queue.{parent, select_child, down_loop}
use k8s_simulator.Queue.Order.{IsOrder, before, less-before, IsHeapTo}
use k8s_simulator.Queue.Down.{IsSelected, select_child-IsSelected, down_round, down_leaf}

module _ {A : Type 0} (d : A) (f : A → A → Bool) where
  -- Only the edges below `i` may be out of order.
  pub record CanSink (n : ℕ) (a : List A) (i : ℕ) : Type 0 where
    pub edges : (c : ℕ) → 0 < c → c < n → parent c ≢ i → before d (some f) a c (parent c) ≡ false
    pub bridged :
        (c : ℕ) → 0 < c → c < n → parent c ≡ i → 0 < i → before d (some f) a c (parent i) ≡ false

  -- No child of `i` goes before `m`.
  abbrev IsFirstChild : List A → ℕ → ℕ → ℕ → Type 0
  IsFirstChild a n i m = (c : ℕ) → 0 < c → c < n → parent c ≡ i → before d (some f) a c m ≡ false

  pub irrefl : IsOrder f → (x : A) → f x x ≡ false
  irrefl o x = ground (arith, o.asym x x)

  select_child-IsFirstChild :
      (a : List A) (n i : ℕ)
      → IsOrder f
      → n ≤ length a
      → 2 * i + 1 < n
      → Returns (IsFirstChild a n i) (select_child (some f) a n i)
  unfolding select_child before
  select_child-IsFirstChild a n i o h p =
      let left = entry d a (2 * i + 1) in
      let right = entry d a (2 * i + 1 + 1) in
      Returns-if (ltb (2 * i + 1 + 1) n)
        (λ two.
          rw (less-before d (2 * i + 1 + 1) (2 * i + 1) a (ground arith) (ground arith) (some f))
            (elim (Bool-cases (f right left)) [
              | inl e ↦ rw e (
                  Returns-some (2 * i + 1 + 1) λ c q r s. elim (Bool-cases (c == 2 * i + 1)) [
                    | inl l ↦ let l' : c ≡ 2 * i + 1 = ground arith in rw l' (o.asym right left e)
                    | inr l ↦ let l' : c ≡ 2 * i + 1 + 1 = ground arith in rw l' (irrefl o right)
                  ])
              | inr e ↦ rw e (
                  Returns-some (2 * i + 1) λ c q r s. elim (Bool-cases (c == 2 * i + 1)) [
                    | inl l ↦ let l' : c ≡ 2 * i + 1 = ground arith in rw l' (irrefl o left)
                    | inr l ↦ let l' : c ≡ 2 * i + 1 + 1 = ground arith in rw l' e
                  ])
            ]))
        λ one.
          Returns-some (2 * i + 1)
            λ c q r s. let l' : c ≡ 2 * i + 1 = ground arith in rw l' (irrefl o left)

  exchange-CanSink :
      (n : ℕ) (a : List A) (i m : ℕ)
      → IsOrder f
      → n ≤ length a
      → CanSink n a i
      → IsSelected d (some f) a n i m
      → IsFirstChild a n i m
      → before d (some f) a m i ≡ true
      → CanSink n (exchange d a i m) m
  unfolding before
  exchange-CanSink n a i m o h v s first sinks =
      let inside = s.inside in
      let child = s.child in
      let at = entry-exchange d i m a (omega arith) (omega arith) in
      let behind = o.asym (entry d a m) (entry d a i) sinks in
      record {
        edges =
            λ c q r t. ground (arith, at c, at (parent c), v.edges c, v.bridged m, first c, behind);
        bridged = λ c q r t u. ground (arith, at c, at (parent m), v.edges c);
      }

  pub down_loop-IsHeapTo :
      (k : ℕ) (a : List A) (i n : ℕ)
      → IsOrder f
      → n - i < k
      → n ≤ length a
      → CanSink n a i
      → Returns (IsHeapTo d f n) (down_loop k (some f) a i n)
  unfolding before
  down_loop-IsHeapTo zero a i n o p h v = absurd (omega arith)
  down_loop-IsHeapTo (suc k) a i n o p h v = elim (Bool-cases (leb n (2 * i + 1))) [
    | inl leaf ↦
        rw (down_leaf d k (some f) a i n (ground arith))
          (Returns-some a λ c q r. v.edges c q r (ground arith))
    | inr inner ↦
        let (m, e, s) = select_child-IsSelected d (some f) a n i h (ground arith) in
        let (m', e', first') = select_child-IsFirstChild a n i o h (ground arith) in
        let same : m' ≡ m = cc in
        let first = subst (IsFirstChild a n i) same first' in
        let inside = s.inside in
        let child = s.child in
        let below : i < m = grind arith in
        rw (down_round d k (some f) a i n m h below inside e) (
          Returns-if (leb n (2 * i + 1)) (λ leaf. absurd (ground arith))
            λ _.
              Returns-if (before d (some f) a m i)
                (λ sinks.
                  down_loop-IsHeapTo k (exchange d a i m) m n o (omega arith)
                    (omega (arith, length-exchange d i m a))
                    (exchange-CanSink n a i m o h v s first sinks))
                λ stays. Returns-some a λ c q r. elim (Bool-cases (parent c == i)) [
                  | inl under ↦
                      let above : parent c ≡ i = ground arith in
                      rw above (
                        o.trans (entry d a i) (entry d a m) (entry d a c) stays (first c q r above))
                  | inr other ↦ v.edges c q r (ground arith)
                ])
  ]
