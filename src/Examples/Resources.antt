-- ===== src/Examples/Resources.antt =====
-- Runs of the arithmetic on resources, and the theorems on resources applied to them.
use k8s_simulator.Common.{
  ℕ, ◌*◌, ◌≡◌, refl, ◌↔◌, ◌⊎◌, true, false, [], ◌∷◌, arith, pos, ◌+ℤ◌, ◌-ℤ◌, ◌≤ℤ◌, ◌<ℤ◌, abs,
  lookup,
}
use k8s_simulator.Resource.{Resource, zero_default, infinity, memory, get, value, min_resource}
use k8s_simulator.Resource.Order.{less_equal, less_equal_func, every_scalar}
use k8s_simulator.Resource.Difference.{fit_delta}
use k8s_simulator.Resource.Comparison.{is_free, Within, less_equal-iff-Within}
use k8s_simulator.Resource.Exact.{less_equal-iff-le, IsRequest-IsNonneg}
use k8s_simulator.Resource.Delta.{fit_delta-negative}
use k8s_simulator.Examples.Data.{gpu, resource, resource-IsRequest}

abbrev small : Resource
small = resource 2 5 1

abbrev large : Resource
large = resource 4 3 2

-- Whole units are compared exactly, less than a tenth of one is tolerated.
compare_small :
    (less_equal small large zero_default ≡ false) × (less_equal small small zero_default ≡ true)
unfolding less_equal less_equal_func every_scalar value lookup abs ◌-ℤ◌
compare_small = (refl, refl)

scalars_nonneg : (g k : ℕ) → pos 0 ≤ℤ value k ((gpu, pos (1000 * g)) ∷ [])
unfolding value lookup
scalars_nonneg g k = ground arith

less_equal-iff-Within_example :
    (less_equal small large infinity ≡ true)
    ↔ ((n : ℕ) → (is_free infinity large n ≡ true) ⊎ Within small large n)
less_equal-iff-Within_example =
    less_equal-iff-Within small large infinity (resource-IsRequest 2 5 1).formed
      (IsRequest-IsNonneg (resource-IsRequest 4 3 2))

less_equal-iff-le_example :
    (less_equal small large zero_default ≡ true) ↔ ((n : ℕ) → get small n ≤ℤ get large n)
less_equal-iff-le_example =
    less_equal-iff-le small large (resource-IsRequest 2 5 1) (resource-IsRequest 4 3 2)

fit_delta-negative_example :
    (get (fit_delta small large) memory <ℤ pos 0)
    ↔ (get small memory <ℤ get large memory +ℤ min_resource)
unfolding lookup get
fit_delta-negative_example = fit_delta-negative small large memory (refl, tt) (omega arith)
