-- ===== src/Resource.antt =====
-- pkg/scheduler/api/resource_info.go: the vector of resources and its arithmetic.
-- An amount is a float64 in the source and an integer here, in thousandths of the source's unit
-- (a millicore, a byte). A scalar map that is nil is `none`.
pub mod Order
pub mod Difference
pub mod Request
pub mod Amounts
pub mod Comparison
pub mod Exact
pub mod Truth
pub mod Extrema
pub mod Delta
use k8s_simulator.Common.{
  ℕ, ◌*◌, ◌≡◌, Bool, true, false, not, ◌&&◌, Option, none, some, List, [], ◌∷◌, ◌++◌, ◌==◌,
  if◌then◌else◌, ℤ, pos, ◌+ℤ◌, ◌-ℤ◌, ltb_ℤ, Dict, lookup, insert, Distinct, ◌≤ℤ◌,
}

-- v1.ResourceName; the names of scalar resources are the other numbers.
abbrev pub cpu : ℕ
cpu = 0

abbrev pub memory : ℕ
memory = 1

abbrev pub pods : ℕ
pods = 2

-- One unit of the source, and `minResource`, 0.1 of it.
abbrev pub unit : ℕ
unit = 1000

abbrev pub min_resource : ℤ
min_resource = pos 100

-- DimensionDefaultValue
pub data Default : Type 0 where
  zero_default infinity : Default

pub record Resource : Type 0 where
  pub milli_cpu : ℤ
  pub memory_bytes : ℤ
  pub scalars : Option (Dict ℤ)
  pub max_task_num : ℤ

abbrev pub empty_resource : Resource
empty_resource = record {
  milli_cpu = pos 0;
  memory_bytes = pos 0;
  scalars = none;
  max_task_num = pos 0;
}

-- What a loop over the scalar map visits: nothing, if the map is nil.
abbrev pub entries : Option (Dict ℤ) → Dict ℤ
entries none = []
entries (some d) = d

-- `m[k]`, which is 0 for a missing key.
unfoldable pub value : ℕ → Dict ℤ → ℤ
value k d = elim (lookup k d) [ none ↦ pos 0 | some q ↦ q ]

unfoldable pub get : Resource → ℕ → ℤ
get r n =
    if n == cpu
    then r.milli_cpu
    else if n == memory
    then r.memory_bytes
    else value n (entries r.scalars)

-- Clone: a new map is filled entry by entry.
unfoldable pub copy_map : Dict ℤ → Dict ℤ → Dict ℤ
copy_map target [] = target
copy_map target ((k, q) ∷ d) = copy_map (insert k q target) d

unfoldable pub clone : Resource → Resource
clone r = record r { scalars = elim r.scalars [ none ↦ none | some d ↦ some (copy_map [] d) ] }

unfoldable pub add_scalars : Option (Dict ℤ) → Dict ℤ → Option (Dict ℤ)
add_scalars s [] = s
add_scalars s ((k, q) ∷ d) = add_scalars (some (insert k (value k (entries s) +ℤ q) (entries s))) d

unfoldable pub add : Resource → Resource → Resource
add r rr = record r {
  milli_cpu = r.milli_cpu +ℤ rr.milli_cpu;
  memory_bytes = r.memory_bytes +ℤ rr.memory_bytes;
  scalars = add_scalars r.scalars (entries rr.scalars);
}

unfoldable pub sub_scalars : Dict ℤ → Dict ℤ → Dict ℤ
sub_scalars s [] = s
sub_scalars s ((k, q) ∷ d) = sub_scalars (insert k (value k s -ℤ q) s) d

-- `sub`, without the assertion of `Sub`.
unfoldable pub sub_unchecked : Resource → Resource → Resource
sub_unchecked r rr = record r {
  milli_cpu = r.milli_cpu -ℤ rr.milli_cpu;
  memory_bytes = r.memory_bytes -ℤ rr.memory_bytes;
  scalars = elim r.scalars [ none ↦ none | some d ↦ some (sub_scalars d (entries rr.scalars)) ];
}

-- SetScalar and AddScalar
unfoldable pub set_scalar : Resource → ℕ → ℤ → Resource
set_scalar r name quantity = record r { scalars = some (insert name quantity (entries r.scalars)) }

unfoldable pub add_scalar : Resource → ℕ → ℤ → Resource
add_scalar r name quantity = set_scalar r name (value name (entries r.scalars) +ℤ quantity)

any_at_least : Dict ℤ → Bool
any_at_least [] = false
any_at_least ((k, q) ∷ d) = if not (ltb_ℤ q min_resource) then true else any_at_least d

unfoldable pub is_empty : Resource → Bool
unfolding any_at_least
is_empty r =
    if not (ltb_ℤ r.milli_cpu min_resource && ltb_ℤ r.memory_bytes min_resource)
    then false
    else not (any_at_least (entries r.scalars))

names_at_least : Dict ℤ → List ℕ
names_at_least [] = []
names_at_least ((k, q) ∷ d) =
    if not (ltb_ℤ q min_resource) then k ∷ names_at_least d else names_at_least d

unfoldable pub resource_names : Resource → List ℕ
unfolding names_at_least
resource_names r =
    (if not (ltb_ℤ r.milli_cpu min_resource) then cpu ∷ [] else [])
    ++ (if not (ltb_ℤ r.memory_bytes min_resource) then memory ∷ [] else [])
    ++ names_at_least (entries r.scalars)

-- A scalar map has one entry for each name, and none for the two dimensions with a field.
pub record IsWellFormed (r : Resource) : Type 0 where
  pub distinct : Distinct (entries r.scalars)
  pub no_cpu : lookup cpu (entries r.scalars) ≡ none
  pub no_memory : lookup memory (entries r.scalars) ≡ none

-- No amount is negative.
abbrev pub IsNonneg : Resource → Type 0
IsNonneg r = (n : ℕ) → pos 0 ≤ℤ get r n
