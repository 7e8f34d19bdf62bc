-- ===== src/Resource/Truth.antt =====
-- Being a whole request is a proposition.
use k8s_simulator.Common.{ℕ, ◌*◌, ◌≡◌, Option, ℤ, pos, arith, Dict, Distinct, [], ◌∷◌}
use std.HLevel.{Σ_prop_path}
use k8s_simulator.Resource.{Resource, get, unit, entries}
use k8s_simulator.Resource.Exact.{IsRequest}

ℤ_set : IsSet ℤ
ℤ_set = hlevel

found_prop : (o p : Option ℤ) → IsProp (o ≡ p)
found_prop o p = hlevel ℤ_set

Distinct-prop : (d : Dict ℤ) → IsProp (Distinct d)
Distinct-prop [] = hlevel
Distinct-prop ((k, v) ∷ d) = let rest = Distinct-prop d in hlevel (ℤ_set, rest)

module _ (z : ℤ) where
  same_number : (m n : ℕ) → z ≡ pos (unit * m) → z ≡ pos (unit * n) → m ≡ n
  same_number m n e f = ground arith

  whole_prop : IsProp ((m : ℕ) × (z ≡ pos (unit * m)))
  whole_prop (m, e) (n, f) = Σ_prop_path (λ k. hlevel ℤ_set) (same_number m n e f)

pub IsRequest-prop : (r : Resource) → IsProp (IsRequest r)
IsRequest-prop r p q = λ i. record {
  formed = record {
    distinct = Distinct-prop (entries r.scalars) p.formed.distinct q.formed.distinct i;
    no_cpu = found_prop _ _ p.formed.no_cpu q.formed.no_cpu i;
    no_memory = found_prop _ _ p.formed.no_memory q.formed.no_memory i;
  };
  whole = λ n. whole_prop (get r n) (p.whole n) (q.whole n) i;
}
