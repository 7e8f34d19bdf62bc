-- ===== src/Resource/Order.antt =====
-- pkg/scheduler/api/resource_info.go: the comparisons of two resources.
use k8s_simulator.Common.{
  Bool, true, false, not, ◌||◌, Option, none, some, [], ◌∷◌, if◌then◌else◌, ℤ, ◌-ℤ◌, ℕ, ◌==◌, ltb_ℤ,
  eqb_ℤ, abs, Dict, lookup,
}
use k8s_simulator.Resource.{
  Resource, Default, zero_default, infinity, min_resource, entries, value, sub_unchecked, cpu,
  memory,
}

-- The local functions `lessFunc`, `lessEqualFunc` and `equalFunc`.
abbrev pub less_func : ℤ → ℤ → Bool
less_func l r = ltb_ℤ l r

unfoldable pub less_equal_func : ℤ → ℤ → Bool
less_equal_func l r = if ltb_ℤ l r || ltb_ℤ (abs (l -ℤ r)) min_resource then true else false

unfoldable pub equal_func : ℤ → ℤ → Bool
equal_func l r = eqb_ℤ l r || ltb_ℤ (abs (l -ℤ r)) min_resource

-- `!ok && defaultValue == Infinity`
abbrev pub is_unbounded : Default → Option ℤ → Bool
is_unbounded zero_default o = false
is_unbounded infinity none = true
is_unbounded infinity (some q) = false

-- The loop of Less and LessEqual over the left map: every entry passes the test.
unfoldable pub every_scalar : (ℤ → ℤ → Bool) → Default → Dict ℤ → Dict ℤ → Bool
every_scalar test dflt right [] = true
every_scalar test dflt right ((k, l) ∷ d) =
    let rest = every_scalar test dflt right d in
    if is_unbounded dflt (lookup k right)
    then rest
    else if not (test l (value k right))
    then false
    else rest

-- The loop of LessPartly and LessEqualPartly: some entry passes the test.
unfoldable pub some_scalar : (ℤ → ℤ → Bool) → Default → Dict ℤ → Dict ℤ → Bool
some_scalar test dflt right [] = false
some_scalar test dflt right ((k, l) ∷ d) =
    let rest = some_scalar test dflt right d in
    if is_unbounded dflt (lookup k right)
    then true
    else if test l (value k right)
    then true
    else rest

unfoldable pub less : Resource → Resource → Default → Bool
less r rr dflt =
    if not (less_func r.milli_cpu rr.milli_cpu)
    then false
    else if not (less_func r.memory_bytes rr.memory_bytes)
    then false
    else every_scalar less_func dflt (entries rr.scalars) (entries r.scalars)

unfoldable pub less_equal : Resource → Resource → Default → Bool
less_equal r rr dflt =
    if not (less_equal_func r.milli_cpu rr.milli_cpu)
    then false
    else if not (less_equal_func r.memory_bytes rr.memory_bytes)
    then false
    else every_scalar less_equal_func dflt (entries rr.scalars) (entries r.scalars)

unfoldable pub less_partly : Resource → Resource → Default → Bool
less_partly r rr dflt =
    if less_func r.milli_cpu rr.milli_cpu || less_func r.memory_bytes rr.memory_bytes
    then true
    else some_scalar less_func dflt (entries rr.scalars) (entries r.scalars)

unfoldable pub less_equal_partly : Resource → Resource → Default → Bool
less_equal_partly r rr dflt =
    if less_equal_func r.milli_cpu rr.milli_cpu || less_equal_func r.memory_bytes rr.memory_bytes
    then true
    else some_scalar less_equal_func dflt (entries rr.scalars) (entries r.scalars)

-- Equal looks the right value up with no default, so its loop is that of `zero_default`.
unfoldable pub equal : Resource → Resource → Default → Bool
equal r rr dflt =
    if not (equal_func r.milli_cpu rr.milli_cpu) || not (equal_func r.memory_bytes rr.memory_bytes)
    then false
    else every_scalar equal_func zero_default (entries rr.scalars) (entries r.scalars)

-- assert.Assertf under the default setting: a failed assertion panics, and `none` is the panic.
abbrev pub assertf {ℓ} : {A : Type ℓ} → Bool → A → Option A
assertf true a = some a
assertf false a = none

-- Sub asserts that the right side fits, up to the tolerance of LessEqual, and then subtracts.
unfoldable pub sub : Resource → Resource → Option Resource
sub r rr = assertf (less_equal rr r zero_default) (sub_unchecked r rr)

-- IsZero asserts that a scalar's name is known, unless the map is nil.
is_zero_scalar : Option (Dict ℤ) → ℕ → Option Bool
is_zero_scalar none rn = some true
is_zero_scalar (some d) rn =
    assertf (elim (lookup rn d) [ none ↦ false | some _ ↦ true ]) (ltb_ℤ (value rn d) min_resource)

unfoldable pub is_zero : Resource → ℕ → Option Bool
unfolding is_zero_scalar
is_zero r rn =
    if rn == cpu
    then some (ltb_ℤ r.milli_cpu min_resource)
    else if rn == memory
    then some (ltb_ℤ r.memory_bytes min_resource)
    else is_zero_scalar r.scalars rn
