-- ===== src/Resource/Difference.antt =====
-- pkg/scheduler/api/resource_info.go: maxima, minima and differences of two resources.
use k8s_simulator.Common.{
  Option, none, some, [], ◌∷◌, if◌then◌else◌, ℤ, pos, negsuc, ◌+ℤ◌, ◌-ℤ◌, ltb_ℤ, eqb_ℤ, min_ℤ, Dict,
  lookup, insert,
}
use k8s_simulator.Resource.{
  Resource, Default, zero_default, infinity, min_resource, entries, value, clone, empty_resource,
}

-- The loop of SetMaxResource, once both maps are there.
unfoldable pub max_scalars : Dict ℤ → Dict ℤ → Dict ℤ
max_scalars s [] = s
max_scalars s ((k, q) ∷ d) =
    max_scalars
      (elim (lookup k s) [ none ↦ insert k q s | some p ↦ if ltb_ℤ p q then insert k q s else s ]) d

-- A nil map becomes a copy of the other one, at the first entry of the loop.
unfoldable pub set_max_scalars : Option (Dict ℤ) → Dict ℤ → Option (Dict ℤ)
set_max_scalars (some s) d = some (max_scalars s d)
set_max_scalars none [] = none
set_max_scalars none (e ∷ d) = some (e ∷ d)

unfoldable pub set_max_resource : Resource → Resource → Resource
set_max_resource r rr = record r {
  milli_cpu = if ltb_ℤ r.milli_cpu rr.milli_cpu then rr.milli_cpu else r.milli_cpu;
  memory_bytes = if ltb_ℤ r.memory_bytes rr.memory_bytes then rr.memory_bytes else r.memory_bytes;
  scalars = set_max_scalars r.scalars (entries rr.scalars);
}

-- FitDelta: what is asked for is taken off with `minResource` on top; a missing scalar starts at 0.
unfoldable pub fit_delta_scalars : Dict ℤ → Dict ℤ → Dict ℤ
fit_delta_scalars s [] = s
fit_delta_scalars s ((k, q) ∷ d) =
    fit_delta_scalars (if ltb_ℤ (pos 0) q then insert k (value k s -ℤ (q +ℤ min_resource)) s else s)
      d

unfoldable pub fit_delta : Resource → Resource → Resource
fit_delta r rr = record r {
  milli_cpu =
      if ltb_ℤ (pos 0) rr.milli_cpu
      then r.milli_cpu -ℤ (rr.milli_cpu +ℤ min_resource)
      else r.milli_cpu;
  memory_bytes =
      if ltb_ℤ (pos 0) rr.memory_bytes
      then r.memory_bytes -ℤ (rr.memory_bytes +ℤ min_resource)
      else r.memory_bytes;
  scalars = some (fit_delta_scalars (entries r.scalars) (entries rr.scalars));
}

-- MinDimensionResource over the left map, `right` being the other map when it is not nil.
unfoldable pub min_scalars : Default → Dict ℤ → Dict ℤ → Dict ℤ
min_scalars dflt right [] = []
min_scalars dflt right ((k, q) ∷ d) =
    (
      k,
      elim (lookup k right) [
        | some p ↦ min_ℤ q p
        | none ↦ elim dflt [ infinity ↦ q | zero_default ↦ pos 0 ]
      ],
    )
    ∷ min_scalars dflt right d

unfoldable pub zero_scalars : Dict ℤ → Dict ℤ
zero_scalars [] = []
zero_scalars ((k, q) ∷ d) = (k, pos 0) ∷ zero_scalars d

unfoldable pub min_dimension_scalars : Default → Option (Dict ℤ) → Option (Dict ℤ) → Option (Dict ℤ)
min_dimension_scalars dflt right none = none
min_dimension_scalars infinity none (some d) = some d
min_dimension_scalars zero_default none (some d) = some (zero_scalars d)
min_dimension_scalars dflt (some right) (some d) = some (min_scalars dflt right d)

unfoldable pub min_dimension_resource : Resource → Resource → Default → Resource
min_dimension_resource r rr dflt = record r {
  milli_cpu = if ltb_ℤ rr.milli_cpu r.milli_cpu then rr.milli_cpu else r.milli_cpu;
  memory_bytes = if ltb_ℤ rr.memory_bytes r.memory_bytes then rr.memory_bytes else r.memory_bytes;
  scalars = min_dimension_scalars dflt rr.scalars r.scalars;
}

-- `Infinity` is marked as -1, one unit below zero.
abbrev pub infinite : ℤ
infinite = negsuc 999

unfoldable pub default_value : Default → ℤ
default_value zero_default = pos 0
default_value infinity = infinite

-- One loop of setDefaultValue: each name of the first map that the second lacks gets the default.
unfoldable pub fill_default : Default → Dict ℤ → Dict ℤ → Dict ℤ
fill_default dflt [] target = target
fill_default dflt ((k, q) ∷ d) target =
    fill_default dflt d
      (elim (lookup k target) [ some _ ↦ target | none ↦ insert k (default_value dflt) target ])

unfoldable pub set_default_value : Default → Dict ℤ → Dict ℤ → Dict ℤ × Dict ℤ
set_default_value dflt left right =
    let right' = fill_default dflt left right in (fill_default dflt right' left, right')

-- The loop of Diff: the maps of what grew and of what shrank.
unfoldable pub diff_scalars : Dict ℤ → Dict ℤ → Dict ℤ → Dict ℤ → Dict ℤ × Dict ℤ
diff_scalars right [] inc dec = (inc, dec)
diff_scalars right ((k, l) ∷ d) inc dec =
    let r = value k right in
    let inc' =
      if eqb_ℤ l infinite
      then insert k infinite inc
      else if eqb_ℤ r infinite
      then inc
      else if ltb_ℤ r l
      then insert k (l -ℤ r) inc
      else inc in
    let dec' =
      if eqb_ℤ l infinite
      then dec
      else if eqb_ℤ r infinite
      then insert k infinite dec
      else if ltb_ℤ r l
      then dec
      else insert k (r -ℤ l) dec in
    diff_scalars right d inc' dec'

unfoldable pub diff : Resource → Resource → Default → Resource × Resource
diff r rr dflt =
    let left = clone r in
    let right = clone rr in
    let (ls, rs) = set_default_value dflt (entries left.scalars) (entries right.scalars) in
    let (inc, dec) = diff_scalars rs ls [] [] in
    (
      record empty_resource {
        milli_cpu =
            if ltb_ℤ right.milli_cpu left.milli_cpu
            then left.milli_cpu -ℤ right.milli_cpu
            else pos 0;
        memory_bytes =
            if ltb_ℤ right.memory_bytes left.memory_bytes
            then left.memory_bytes -ℤ right.memory_bytes
            else pos 0;
        scalars = some inc;
      },
      record empty_resource {
        milli_cpu =
            if ltb_ℤ right.milli_cpu left.milli_cpu
            then pos 0
            else right.milli_cpu -ℤ left.milli_cpu;
        memory_bytes =
            if ltb_ℤ right.memory_bytes left.memory_bytes
            then pos 0
            else right.memory_bytes -ℤ left.memory_bytes;
        scalars = some dec;
      },
    )
