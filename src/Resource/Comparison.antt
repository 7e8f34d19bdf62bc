-- ===== src/Resource/Comparison.antt =====
-- What the comparisons of resources decide, dimension by dimension.
use k8s_simulator.Common.{
  ℕ, ◌≡◌, refl, ◌↔◌, ◌⊎◌, inl, inr, Bool, true, not, ◌&&◌, some, [], ◌∷◌, arith, ◌==◌, Option-cases,
  ℤ, pos, ◌+ℤ◌, ◌-ℤ◌, ◌≤ℤ◌, ◌<ℤ◌, abs, Dict, lookup, Distinct, lookup-cons_old, lookup-cons_self,
}
use k8s_simulator.Resource.{
  Resource, Default, min_resource, cpu, memory, entries, value, get, IsWellFormed, IsNonneg,
}
use k8s_simulator.Resource.Order.{less_equal_func, is_unbounded, every_scalar, less_equal}
use k8s_simulator.Resource.Amounts.{value_missing, value_found}

pub less_equal_func_iff : (l r : ℤ) → (less_equal_func l r ≡ true) ↔ (l <ℤ r +ℤ min_resource)
unfolding less_equal_func abs ◌-ℤ◌ ◌+ℤ◌
less_equal_func_iff l r = ground arith

-- An entry of the left map passes: its name is unbounded on the right, or it passes the test.
abbrev Passes : (ℤ → ℤ → Bool) → Default → Dict ℤ → ℕ → ℤ → Type 0
Passes test dflt right k q =
    (is_unbounded dflt (lookup k right) ≡ true) ⊎ (test q (value k right) ≡ true)

every_scalar-Passes :
    (test : ℤ → ℤ → Bool) (dflt : Default) (right d : Dict ℤ)
    → every_scalar test dflt right d ≡ true
    → (k : ℕ) (q : ℤ) → lookup k d ≡ some q
    → Passes test dflt right k q
unfolding every_scalar lookup
every_scalar-Passes test dflt right [] h k q e = cc
every_scalar-Passes test dflt right ((j, l) ∷ d) h k q e =
    ground (arith, every_scalar-Passes test dflt right d (ground arith) k q)

Passes-every_scalar :
    (test : ℤ → ℤ → Bool) (dflt : Default) (right d : Dict ℤ)
    → Distinct d
    → ((k : ℕ) (q : ℤ) → lookup k d ≡ some q → Passes test dflt right k q)
    → every_scalar test dflt right d ≡ true
unfolding every_scalar
Passes-every_scalar test dflt right [] h p = refl
Passes-every_scalar test dflt right ((j, l) ∷ d) h p =
    let rest =
      Passes-every_scalar test dflt right d h.1
        (λ k q e. p k q (lookup-cons_old j k l q d h.0 e)) in
    let first = p j l (lookup-cons_self j l d) in ground arith

-- A dimension that the right side does not name, when what is not named counts as infinite.
abbrev pub is_free : Default → Resource → ℕ → Bool
is_free dflt rr n =
    not (n == cpu) && (not (n == memory) && is_unbounded dflt (lookup n (entries rr.scalars)))

-- The amount on the left is below the one on the right with the tolerance added.
abbrev pub Within : Resource → Resource → ℕ → Type 0
Within r rr n = get r n <ℤ get rr n +ℤ min_resource

within_tolerance : (r : ℤ) → pos 0 ≤ℤ r → pos 0 <ℤ r +ℤ min_resource
unfolding ◌+ℤ◌
within_tolerance r h = ground arith

pub less_equal_parts :
    (r rr : Resource) (dflt : Default)
    → less_equal r rr dflt ≡ true
    → (r.milli_cpu <ℤ rr.milli_cpu +ℤ min_resource)
      × (r.memory_bytes <ℤ rr.memory_bytes +ℤ min_resource)
      × (every_scalar less_equal_func dflt (entries rr.scalars) (entries r.scalars) ≡ true)
unfolding less_equal
less_equal_parts r rr dflt h = (
  (less_equal_func_iff r.milli_cpu rr.milli_cpu).0 (ground arith),
  (less_equal_func_iff r.memory_bytes rr.memory_bytes).0 (ground arith),
  ground arith,
)

less_equal_of_parts :
    (r rr : Resource) (dflt : Default)
    → r.milli_cpu <ℤ rr.milli_cpu +ℤ min_resource
    → r.memory_bytes <ℤ rr.memory_bytes +ℤ min_resource
    → every_scalar less_equal_func dflt (entries rr.scalars) (entries r.scalars) ≡ true
    → less_equal r rr dflt ≡ true
unfolding less_equal
less_equal_of_parts r rr dflt c m s =
    let c' = (less_equal_func_iff r.milli_cpu rr.milli_cpu).1 c in
    let m' = (less_equal_func_iff r.memory_bytes rr.memory_bytes).1 m in ground arith

pub scalar_within :
    (dflt : Default) (left right : Dict ℤ) (n : ℕ)
    → every_scalar less_equal_func dflt right left ≡ true
    → pos 0 ≤ℤ value n right
    → (is_unbounded dflt (lookup n right) ≡ true) ⊎ (value n left <ℤ value n right +ℤ min_resource)
scalar_within dflt left right n h p = elim (Option-cases (lookup n left)) [
  | inl e ↦ inr (rw (value_missing n left e) (within_tolerance (value n right) p))
  | inr (q, e) ↦ elim (every_scalar-Passes less_equal_func dflt right left h n q e) [
    | inl u ↦ inl u
    | inr t ↦ inr (rw (value_found n q left e) ((less_equal_func_iff q (value n right)).0 t))
  ]
]

-- LessEqual holds exactly when every dimension that is not free on the right lies within the
-- tolerance, the left map having one entry for each name and the right side no negative amount.
pub less_equal-iff-Within :
    (r rr : Resource) (dflt : Default)
    → IsWellFormed r
    → IsNonneg rr
    → (less_equal r rr dflt ≡ true) ↔ ((n : ℕ) → (is_free dflt rr n ≡ true) ⊎ Within r rr n)
unfolding get
less_equal-iff-Within r rr dflt w p = (to, from)
  where
    to : less_equal r rr dflt ≡ true → (n : ℕ) → (is_free dflt rr n ≡ true) ⊎ Within r rr n
    to h n = ground (
      arith,
      less_equal_parts r rr dflt h,
      p n,
      scalar_within dflt (entries r.scalars) (entries rr.scalars) n,
    )

    passes :
        ((n : ℕ) → (is_free dflt rr n ≡ true) ⊎ Within r rr n)
        → (k : ℕ) (q : ℤ) → lookup k (entries r.scalars) ≡ some q
        → Passes less_equal_func dflt (entries rr.scalars) k q
    passes h k q e = ground (
      arith,
      h k,
      w,
      value_found k q (entries r.scalars) e,
      less_equal_func_iff q (value k (entries rr.scalars)),
    )

    from : ((n : ℕ) → (is_free dflt rr n ≡ true) ⊎ Within r rr n) → less_equal r rr dflt ≡ true
    from h = less_equal_of_parts r rr dflt (ground (arith, h cpu)) (ground (arith, h memory)) (
        Passes-every_scalar less_equal_func dflt (entries rr.scalars) (entries r.scalars) w.distinct
          (passes h))
