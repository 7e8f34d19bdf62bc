-- ===== src/Queue/Down.antt =====
-- The loop of container/heap that lets an entry sink, below the bound n.
use k8s_simulator.Common.{
  ℕ, zero, suc, ◌+◌, ◌-◌, ◌*◌, ◌≡◌, ◌⊎◌, inl, inr, refl, ◌<◌, ◌≤◌, Bool, Bool-cases, Option, some,
  List, arith, ltb, leb, if◌then◌else◌, length, entry, exchange, entry-exchange, exchange-Perm,
  length-exchange, Returns, Returns-some, Returns-map, Returns-if,
}
use mathlib.Core.List.{Perm}
use mathlib.Core.List.Perm
use k8s_simulator.Queue.{select_child, down_loop}
use k8s_simulator.Queue.Order.{before, less-before, swap-exchange}

module _ {A : Type 0} (d : A) where
  -- The child is in range, and the other one does not go before it.
  pub record IsSelected (f : Option (A → A → Bool)) (a : List A) (n i m : ℕ) : Type 0 where
    pub inside : m < n
    pub child : (m ≡ 2 * i + 1) ⊎ (m ≡ 2 * i + 2)

  pub select_child-IsSelected :
      (f : Option (A → A → Bool)) (a : List A) (n i : ℕ)
      → n ≤ length a
      → 2 * i + 1 < n
      → Returns (IsSelected f a n i) (select_child f a n i)
  unfolding select_child
  select_child-IsSelected f a n i h p =
      Returns-if (ltb (2 * i + 1 + 1) n)
        (λ two.
          rw (less-before d (2 * i + 1 + 1) (2 * i + 1) a (ground arith) (ground arith) f)
            (Returns-some _ (ground arith)))
        λ one. Returns-some _ (record { inside = p; child = inl refl })

  -- One round of `down` with the child `m`, in range.
  pub down_round :
      (k : ℕ) (f : Option (A → A → Bool)) (a : List A) (i n m : ℕ)
      → n ≤ length a
      → i < m
      → m < n
      → select_child f a n i ≡ some m
      → down_loop (suc k) f a i n ≡ (
          if leb n (2 * i + 1)
          then some a
          else if before d f a m i
          then down_loop k f (exchange d a i m) m n
          else some a)
  unfolding down_loop
  down_round k f a i n m h p q e =
      rw
        (
          e,
          less-before d m i a (omega arith) (omega arith) f,
          swap-exchange d i m a (omega arith) (omega arith),
        )
        refl

  pub down_leaf :
      (k : ℕ) (f : Option (A → A → Bool)) (a : List A) (i n : ℕ)
      → n ≤ 2 * i + 1
      → down_loop (suc k) f a i n ≡ some a
  unfolding down_loop
  down_leaf k f a i n h = ground arith

  -- The result holds the same entries, and those from `n` on are where they were.
  pub record IsSunk (n : ℕ) (a b : List A) : Type 0 where
    pub same : Perm b a
    pub kept : (c : ℕ) → n ≤ c → entry d b c ≡ entry d a c

  same-IsSunk : (n : ℕ) (a : List A) → IsSunk n a a
  same-IsSunk n a = record { same = Perm.rfl; kept = λ c h. refl }

  pub down_loop-IsSunk :
      (k : ℕ) (f : Option (A → A → Bool)) (a : List A) (i n : ℕ)
      → n - i < k
      → n ≤ length a
      → Returns (IsSunk n a) (down_loop k f a i n)
  down_loop-IsSunk zero f a i n p h = absurd (omega arith)
  down_loop-IsSunk (suc k) f a i n p h = elim (Bool-cases (leb n (2 * i + 1))) [
    | inl leaf ↦ rw (down_leaf k f a i n (ground arith)) (Returns-some a (same-IsSunk n a))
    | inr inner ↦
        let (m, e, s) = select_child-IsSelected f a n i h (ground arith) in
        let inside = s.inside in
        let below : i < m = grind (arith, s.child) in
        let b = exchange d a i m in
        rw (down_round k f a i n m h below inside e) (
          Returns-if (leb n (2 * i + 1)) (λ leaf. Returns-some a (same-IsSunk n a))
            λ _.
              Returns-if (before d f a m i)
                (λ sinks.
                  Returns-map
                    (down_loop-IsSunk k f b m n (omega arith)
                      (omega (arith, length-exchange d i m a)))
                    λ r t. record {
                      same = Perm.trans t.same (exchange-Perm d i m a (omega arith) (omega arith));
                      kept = λ c q.
                          ground
                            (arith, t.kept c, entry-exchange d i m a (omega arith) (omega arith) c);
                    })
                λ stays. Returns-some a (same-IsSunk n a))
  ]
