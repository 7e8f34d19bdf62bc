-- ===== src/Resource/Extrema.antt =====
-- The dimensions of a maximum and of a minimum of two resources.
use k8s_simulator.Common.{
  ℕ, ◌≡◌, refl, sym, inl, inr, Bool, Option, none, some, [], ◌∷◌, arith, ◌==◌, if◌then◌else◌,
  Option-cases, ℤ, pos, ◌≤ℤ◌, ltb_ℤ, min_ℤ, max_ℤ, Dict, lookup, insert, Distinct, lookup-cons_old,
  lookup-cons_self,
}
use k8s_simulator.Resource.{Resource, Default, zero_default, infinity, entries, value, get}
use k8s_simulator.Resource.Difference.{
  max_scalars, set_max_scalars, set_max_resource, min_scalars, zero_scalars, min_dimension_scalars,
  min_dimension_resource,
}
use k8s_simulator.Resource.Order.{is_unbounded}
use k8s_simulator.Resource.Comparison.{is_free}
use k8s_simulator.Resource.Amounts.{value_missing, value_found, value-insert, value-cons, value-nil}

abbrev NonnegMap : Dict ℤ → Type 0
NonnegMap d = (k : ℕ) → pos 0 ≤ℤ value k d

max_step : ℕ → ℤ → Dict ℤ → Dict ℤ
max_step k q s = elim (lookup k s) [
  | none ↦ insert k q s
  | some p ↦ if ltb_ℤ p q then insert k q s else s
]

value-max_step :
    (k n : ℕ) (q : ℤ) (s : Dict ℤ)
    → pos 0 ≤ℤ q
    → value n (max_step k q s) ≡ (if k == n then max_ℤ (value k s) q else value n s)
unfolding max_step max_ℤ
value-max_step k n q s h = elim (Option-cases (lookup k s)) [
  | inl e ↦ ground (arith, value-insert k n q s, value_missing k s e)
  | inr (p, e) ↦ ground (arith, value-insert k n q s, value_found k p s e)
]

max_ℤ-zero : (a : ℤ) → pos 0 ≤ℤ a → max_ℤ a (pos 0) ≡ a
unfolding max_ℤ
max_ℤ-zero a h = ground arith

zero-max_ℤ : (a : ℤ) → pos 0 ≤ℤ a → max_ℤ (pos 0) a ≡ a
unfolding max_ℤ
zero-max_ℤ a h = ground arith

max_nonneg : (a b : ℤ) → pos 0 ≤ℤ a → pos 0 ≤ℤ max_ℤ a b
unfolding max_ℤ
max_nonneg a b h = ground arith

max_step-nonneg :
    (k : ℕ) (q : ℤ) (s : Dict ℤ) → pos 0 ≤ℤ q → NonnegMap s → NonnegMap (max_step k q s)
max_step-nonneg k q s h p n =
    ground (arith, value-max_step k n q s h, p n, max_nonneg (value k s) q (p k))

value-max_scalars :
    (s d : Dict ℤ) (n : ℕ)
    → Distinct d
    → NonnegMap s
    → ((k : ℕ) (q : ℤ) → lookup k d ≡ some q → pos 0 ≤ℤ q)
    → value n (max_scalars s d) ≡ max_ℤ (value n s) (value n d)
unfolding max_scalars max_step
value-max_scalars s [] n h p g = simp (value-nil, max_ℤ-zero (value n s) (p n))
value-max_scalars s ((k, q) ∷ d) n h p g = ground (
  arith,
  value-max_scalars (max_step k q s) d n h.1
      (max_step-nonneg k q s (g k q (lookup-cons_self k q d)) p)
      (λ j r e. g j r (lookup-cons_old k j q r d h.0 e)),
  value-max_step k n q s (g k q (lookup-cons_self k q d)),
  value-cons k n q d,
  value_missing k d h.0,
  max_ℤ-zero (max_ℤ (value k s) q) (max_nonneg (value k s) q (p k)),
)

set_max-nonneg : (d : Dict ℤ) (k : ℕ) (q : ℤ) → NonnegMap d → lookup k d ≡ some q → pos 0 ≤ℤ q
set_max-nonneg d k q h e = rw (value_found k q d e) at (h k)

value-set_max_scalars :
    (s : Option (Dict ℤ)) (d : Dict ℤ) (n : ℕ)
    → Distinct d
    → NonnegMap (entries s)
    → NonnegMap d
    → value n (entries (set_max_scalars s d)) ≡ max_ℤ (value n (entries s)) (value n d)
unfolding set_max_scalars value lookup
value-set_max_scalars (some s) d n h p g =
    value-max_scalars s d n h p (λ k q. set_max-nonneg d k q g)
value-set_max_scalars none [] n h p g = sym (max_ℤ-zero (value n []) (g n))
value-set_max_scalars none (e ∷ d) n h p g =
    rw (value-nil n) (sym (zero-max_ℤ (value n (e ∷ d)) (g n)))

max_field : (a b : ℤ) → (if ltb_ℤ a b then b else a) ≡ max_ℤ a b
unfolding max_ℤ
max_field a b = refl

-- SetMaxResource takes the larger amount in every dimension, where no scalar is negative and the map
-- on the right has one entry for each name.
pub get-set_max_resource :
    (r rr : Resource) (n : ℕ)
    → Distinct (entries rr.scalars)
    → NonnegMap (entries r.scalars)
    → NonnegMap (entries rr.scalars)
    → get (set_max_resource r rr) n ≡ max_ℤ (get r n) (get rr n)
unfolding get set_max_resource
get-set_max_resource r rr n h p g = ground (
  arith,
  value-set_max_scalars r.scalars (entries rr.scalars) n h p g,
  max_field r.milli_cpu rr.milli_cpu,
  max_field r.memory_bytes rr.memory_bytes,
)

min_entry : Default → ℤ → Option ℤ → ℤ
min_entry dflt q o = elim o [
  | some p ↦ min_ℤ q p
  | none ↦ elim dflt [ infinity ↦ q | zero_default ↦ pos 0 ]
]

lookup-min_scalars :
    (dflt : Default) (right d : Dict ℤ) (n : ℕ)
    → lookup n (min_scalars dflt right d)
      ≡ elim (lookup n d) [ none ↦ none | some q ↦ some (min_entry dflt q (lookup n right)) ]
unfolding min_scalars lookup min_entry
lookup-min_scalars dflt right [] n = refl
lookup-min_scalars dflt right ((k, q) ∷ d) n = ground (arith, lookup-min_scalars dflt right d n)

lookup-zero_scalars :
    (d : Dict ℤ) (n : ℕ)
    → lookup n (zero_scalars d) ≡ elim (lookup n d) [ none ↦ none | some q ↦ some (pos 0) ]
unfolding zero_scalars lookup
lookup-zero_scalars [] n = refl
lookup-zero_scalars ((k, q) ∷ d) n = ground (arith, lookup-zero_scalars d n)

zero-min_ℤ : (a : ℤ) → pos 0 ≤ℤ a → min_ℤ (pos 0) a ≡ pos 0
unfolding min_ℤ
zero-min_ℤ a h = ground arith

min_ℤ-zero : (a : ℤ) → pos 0 ≤ℤ a → min_ℤ a (pos 0) ≡ pos 0
unfolding min_ℤ
min_ℤ-zero a h = ground arith

min_field : (a b : ℤ) → (if ltb_ℤ b a then b else a) ≡ min_ℤ a b
unfolding min_ℤ
min_field a b = ground arith

-- The smaller amount of the two, unless the right side leaves the dimension free.
abbrev min_or_left : Bool → ℤ → ℤ → ℤ
min_or_left free a b = if free then a else min_ℤ a b

value-min_scalars :
    (dflt : Default) (right d : Dict ℤ) (n : ℕ)
    → NonnegMap d
    → NonnegMap right
    → value n (min_scalars dflt right d)
      ≡ min_or_left (is_unbounded dflt (lookup n right)) (value n d) (value n right)
unfolding value min_entry
value-min_scalars dflt right d n p g = ground (
  arith,
  lookup-min_scalars dflt right d n,
  p n,
  g n,
  zero-min_ℤ (value n right) (g n),
  min_ℤ-zero (value n d) (p n),
)

value-min_dimension_scalars :
    (dflt : Default) (right s : Option (Dict ℤ)) (n : ℕ)
    → NonnegMap (entries s)
    → NonnegMap (entries right)
    → value n (entries (min_dimension_scalars dflt right s))
      ≡ min_or_left
          (is_unbounded dflt (lookup n (entries right)))
          (value n (entries s))
          (value n (entries right))
unfolding min_dimension_scalars value lookup
value-min_dimension_scalars dflt right none n p g =
    ground (arith, g n, zero-min_ℤ (value n (entries right)) (g n))
value-min_dimension_scalars infinity none (some d) n p g = refl
value-min_dimension_scalars zero_default none (some d) n p g =
    ground (arith, lookup-zero_scalars d n, p n, min_ℤ-zero (value n d) (p n))
value-min_dimension_scalars dflt (some right) (some d) n p g = value-min_scalars dflt right d n p g

-- MinDimensionResource takes the smaller amount in every dimension that is not free on the right,
-- and leaves the others, where no scalar is negative.
pub get-min_dimension_resource :
    (r rr : Resource) (dflt : Default) (n : ℕ)
    → NonnegMap (entries r.scalars)
    → NonnegMap (entries rr.scalars)
    → get (min_dimension_resource r rr dflt) n
      ≡ (if is_free dflt rr n then get r n else min_ℤ (get r n) (get rr n))
unfolding get min_dimension_resource
get-min_dimension_resource r rr dflt n p g = ground (
  arith,
  value-min_dimension_scalars dflt rr.scalars r.scalars n p g,
  min_field r.milli_cpu rr.milli_cpu,
  min_field r.memory_bytes rr.memory_bytes,
)
