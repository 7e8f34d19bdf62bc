-- ===== src/Resource/Exact.antt =====
-- Whole amounts: what requests are made of, and what the tolerance of the comparisons means for them.
use k8s_simulator.Common.{
  ℕ, ◌*◌, ◌≤◌, ◌≡◌, refl, ap, ◌↔◌, ◌⊎◌, inl, inr, true, [], arith, ◌==◌, ==_iff, Bool-cases, pos,
  ◌+ℤ◌, ◌≤ℤ◌, ◌<ℤ◌, int_laws, lookup,
}
use k8s_simulator.Resource.{
  Resource, zero_default, min_resource, unit, cpu, memory, entries, value, get, IsWellFormed,
  IsNonneg, empty_resource,
}
use k8s_simulator.Resource.Order.{less_equal, less_equal_func, every_scalar}
use k8s_simulator.Resource.Amounts.{value_missing, Covers}
use k8s_simulator.Resource.Comparison.{
  less_equal_parts, scalar_within, is_free, Within, less_equal-iff-Within,
}

-- Each amount is a whole number of units, as NewResource makes it from a quantity.
pub record IsRequest (r : Resource) : Type 0 where
  pub formed : IsWellFormed r
  pub whole : (n : ℕ) → (m : ℕ) × (get r n ≡ pos (unit * m))

pub IsRequest-IsNonneg : {r : Resource} → IsRequest r → IsNonneg r
IsRequest-IsNonneg q n = let (m, e) = q.whole n in rw e (omega arith)

whole_within : (a b : ℕ) → (pos (unit * a) <ℤ pos (unit * b) +ℤ min_resource) ↔ (a ≤ b)
whole_within a b = (λ h. omega int_laws, λ h. omega int_laws)

whole_le : (a b : ℕ) → (pos (unit * a) ≤ℤ pos (unit * b)) ↔ (a ≤ b)
whole_le a b = (λ h. omega arith, λ h. omega arith)

Within-le :
    {r rr : Resource} (n : ℕ) → IsRequest r → IsRequest rr → (Within r rr n) ↔ (get r n ≤ℤ get rr n)
Within-le {r} {rr} n q p =
    let (a, e) = q.whole n in
    let (b, f) = p.whole n in
    rw (e, f)
      (
        λ h. (whole_le a b).1 ((whole_within a b).0 h),
        λ h. (whole_within a b).1 ((whole_le a b).0 h),
      )

is_free_zero : (rr : Resource) (n : ℕ) → is_free zero_default rr n ≡ true → ⊥
is_free_zero rr n h = ground arith

-- On whole amounts LessEqual with the default Zero is the exact order in every dimension.
pub less_equal-iff-le :
    (r rr : Resource)
    → IsRequest r
    → IsRequest rr
    → (less_equal r rr zero_default ≡ true) ↔ ((n : ℕ) → get r n ≤ℤ get rr n)
less_equal-iff-le r rr q p = (to, from)
  where
    within :
        less_equal r rr zero_default ≡ true
        → (n : ℕ) → (is_free zero_default rr n ≡ true) ⊎ Within r rr n
    within h = (less_equal-iff-Within r rr zero_default q.formed (IsRequest-IsNonneg p)).0 h

    to : less_equal r rr zero_default ≡ true → (n : ℕ) → get r n ≤ℤ get rr n
    to h n = elim (within h n) [
      | inl free ↦ absurd (is_free_zero rr n free)
      | inr w ↦ (Within-le n q p).0 w
    ]

    from : ((n : ℕ) → get r n ≤ℤ get rr n) → less_equal r rr zero_default ≡ true
    from h =
        (less_equal-iff-Within r rr zero_default q.formed (IsRequest-IsNonneg p)).1
          (λ n. inr ((Within-le n q p).1 (h n)))

small_whole : (m : ℕ) → pos (unit * m) <ℤ pos 0 +ℤ min_resource → pos (unit * m) ≡ pos 0
small_whole m h = ap pos (omega int_laws)

-- An entry of a request is a whole number of units too.
pub value_whole :
    {r : Resource} (k : ℕ) → IsRequest r → (m : ℕ) × (value k (entries r.scalars) ≡ pos (unit * m))
unfolding get
value_whole {r} k q =
    let (m, e) = q.whole k in
    elim (Bool-cases (k == cpu)) [
      | inl c ↦ (0, value_missing k _ (rw ((==_iff k cpu).0 c) q.formed.no_cpu))
      | inr not_cpu ↦ elim (Bool-cases (k == memory)) [
        | inl c ↦ (0, value_missing k _ (rw ((==_iff k memory).0 c) q.formed.no_memory))
        | inr not_memory ↦ (m, ground arith)
      ]
    ]

-- What fits a resource with a nil map asks for no scalar.
pub less_equal-Covers :
    (r rr : Resource) → IsRequest r → less_equal r rr zero_default ≡ true → Covers rr r
unfolding value lookup
less_equal-Covers r rr q h e k =
    let (m, f) = value_whole k q in
    let s = (less_equal_parts r rr zero_default h).2 in
    let nil : every_scalar less_equal_func zero_default [] (entries r.scalars) ≡ true = rw e at s in
    elim (scalar_within zero_default (entries r.scalars) [] k nil (omega arith)) [
      | inl free ↦ cc
      | inr w ↦ rw f (small_whole m (rw f at w))
    ]

empty-IsRequest : IsRequest empty_resource
unfolding get value lookup
empty-IsRequest = record {
  formed = record { distinct = tt; no_cpu = refl; no_memory = refl };
  whole = λ n. (0, ground arith);
}

-- What is at most as much in every dimension fits.
pub less_equal_of_le :
    (r rr : Resource)
    → IsRequest r
    → ((n : ℕ) → get r n ≤ℤ get rr n)
    → less_equal r rr zero_default ≡ true
less_equal_of_le r rr q h =
    (less_equal-iff-Within r rr zero_default q.formed nonneg).1 (λ n. inr (within n))
  where
    nonneg : IsNonneg rr
    nonneg n = let low = IsRequest-IsNonneg q n in let up = h n in omega arith

    within : (n : ℕ) → Within r rr n
    within n = let up = h n in omega int_laws
