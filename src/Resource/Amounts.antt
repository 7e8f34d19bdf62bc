-- ===== src/Resource/Amounts.antt =====
-- What the arithmetic of resources does to each dimension, for every name of a dimension.
use k8s_simulator.Common.{
  ℕ, ◌≡◌, refl, ◌∙◌, Option, none, some, [], ◌∷◌, arith, ◌==◌, if◌then◌else◌, ℤ, pos, ◌+ℤ◌, ◌-ℤ◌,
  +ℤ-zero, -ℤ-zero, +ℤ_cancel, Dict, lookup, insert, Distinct, lookup-insert, insert-Distinct,
}
use k8s_simulator.Resource.{
  Resource, entries, value, get, add_scalars, add, sub_scalars, sub_unchecked, empty_resource,
}

pub value-insert :
    (k n : ℕ) (q : ℤ) (d : Dict ℤ) → value n (insert k q d) ≡ (if k == n then q else value n d)
unfolding value
value-insert k n q d = rw (lookup-insert k n q d, value) (ground arith)

pub value_missing : (k : ℕ) (d : Dict ℤ) → lookup k d ≡ none → value k d ≡ pos 0
unfolding value
value_missing k d h = ground arith

pub value_found : (k : ℕ) (q : ℤ) (d : Dict ℤ) → lookup k d ≡ some q → value k d ≡ q
unfolding value
value_found k q d h = ground arith

pub value-cons :
    (k n : ℕ) (q : ℤ) (d : Dict ℤ) → value n ((k, q) ∷ d) ≡ (if k == n then q else value n d)
unfolding value lookup
value-cons k n q d = ground arith

pub value-nil : (k : ℕ) → value k [] ≡ pos 0
unfolding value lookup
value-nil k = refl

pub value-add_scalars :
    (s : Option (Dict ℤ)) (d : Dict ℤ) (n : ℕ)
    → Distinct d
    → value n (entries (add_scalars s d)) ≡ value n (entries s) +ℤ value n d
unfolding add_scalars
value-add_scalars s [] n h = simp (value-nil, +ℤ-zero)
value-add_scalars s ((k, q) ∷ d) n h = ground (
  arith,
  value-add_scalars (some (insert k (value k (entries s) +ℤ q) (entries s))) d n h.1,
  value-insert k n (value k (entries s) +ℤ q) (entries s),
  value-cons k n q d,
  value_missing k d h.0,
  +ℤ-zero (value k (entries s) +ℤ q),
)

pub value-sub_scalars :
    (s d : Dict ℤ) (n : ℕ) → Distinct d → value n (sub_scalars s d) ≡ value n s -ℤ value n d
unfolding sub_scalars
value-sub_scalars s [] n h = simp (value-nil, -ℤ-zero)
value-sub_scalars s ((k, q) ∷ d) n h = ground (
  arith,
  value-sub_scalars (insert k (value k s -ℤ q) s) d n h.1,
  value-insert k n (value k s -ℤ q) s,
  value-cons k n q d,
  value_missing k d h.0,
  -ℤ-zero (value k s -ℤ q),
)

-- Adding a resource adds its amount in every dimension.
pub get-add :
    (r rr : Resource) (n : ℕ)
    → Distinct (entries rr.scalars)
    → get (add r rr) n ≡ get r n +ℤ get rr n
unfolding get add
get-add r rr n h = ground (arith, value-add_scalars r.scalars (entries rr.scalars) n h)

-- A nil map is left alone by `sub`, so the amounts to subtract have to be 0 there.
abbrev pub Covers : Resource → Resource → Type 0
Covers r rr = r.scalars ≡ none → (k : ℕ) → value k (entries rr.scalars) ≡ pos 0

sub_map : Option (Dict ℤ) → Dict ℤ → Option (Dict ℤ)
sub_map s d = elim s [ none ↦ none | some m ↦ some (sub_scalars m d) ]

value-sub_map :
    (s : Option (Dict ℤ)) (d : Dict ℤ) (n : ℕ)
    → Distinct d
    → (s ≡ none → value n d ≡ pos 0)
    → value n (entries (sub_map s d)) ≡ value n (entries s) -ℤ value n d
unfolding sub_map
value-sub_map none d n h c = simp (value-nil, c refl, -ℤ-zero)
value-sub_map (some m) d n h c = value-sub_scalars m d n h

-- Subtracting takes the amount off in every dimension that the left side covers.
pub get-sub_unchecked :
    (r rr : Resource) (n : ℕ)
    → Distinct (entries rr.scalars)
    → Covers r rr
    → get (sub_unchecked r rr) n ≡ get r n -ℤ get rr n
unfolding get sub_unchecked sub_map
get-sub_unchecked r rr n h c =
    ground (arith, value-sub_map r.scalars (entries rr.scalars) n h (λ e. c e n))

add_scalars-none :
    (s : Option (Dict ℤ)) (d : Dict ℤ) (n : ℕ) → add_scalars s d ≡ none → value n d ≡ pos 0
unfolding add_scalars
add_scalars-none s [] n e = value-nil n
add_scalars-none s ((k, q) ∷ d) n e =
    absurd (some_stays (insert k (value k (entries s) +ℤ q) (entries s)) d e)
  where
    some_stays : (m d : Dict ℤ) → add_scalars (some m) d ≡ none → ⊥
    some_stays m [] e = cc
    some_stays m ((k, q) ∷ d) e = some_stays (insert k (value k m +ℤ q) m) d e

-- What was added can be subtracted.
pub add-Covers : (r rr : Resource) → Covers (add r rr) rr
unfolding add
add-Covers r rr e k = add_scalars-none r.scalars (entries rr.scalars) k e

-- Subtracting a resource that was added gives every amount back, where the map of that resource has
-- one entry for each name.
pub get-sub_unchecked-add :
    (r rr : Resource) (n : ℕ)
    → Distinct (entries rr.scalars)
    → get (sub_unchecked (add r rr) rr) n ≡ get r n
get-sub_unchecked-add r rr n h =
    get-sub_unchecked (add r rr) rr n h (add-Covers r rr)
    ∙ rw (get-add r rr n h) (+ℤ_cancel (get r n) (get rr n))

add_scalars-Distinct :
    (s : Option (Dict ℤ)) (d : Dict ℤ) → Distinct (entries s) → Distinct (entries (add_scalars s d))
unfolding add_scalars
add_scalars-Distinct s [] h = h
add_scalars-Distinct s ((k, q) ∷ d) h =
    add_scalars-Distinct (some (insert k (value k (entries s) +ℤ q) (entries s))) d
      (insert-Distinct k _ (entries s) h)

sub_scalars-Distinct : (s d : Dict ℤ) → Distinct s → Distinct (sub_scalars s d)
unfolding sub_scalars
sub_scalars-Distinct s [] h = h
sub_scalars-Distinct s ((k, q) ∷ d) h =
    sub_scalars-Distinct (insert k (value k s -ℤ q) s) d (insert-Distinct k _ s h)

pub add-Distinct :
    (r rr : Resource) → Distinct (entries r.scalars) → Distinct (entries (add r rr).scalars)
unfolding add
add-Distinct r rr h = add_scalars-Distinct r.scalars (entries rr.scalars) h

pub sub_unchecked-Distinct :
    (r rr : Resource)
    → Distinct (entries r.scalars)
    → Distinct (entries (sub_unchecked r rr).scalars)
unfolding sub_unchecked sub_map
sub_unchecked-Distinct r rr h = go r.scalars h
  where
    go :
        (s : Option (Dict ℤ))
        → Distinct (entries s)
        → Distinct (entries (sub_map s (entries rr.scalars)))
    go none h = tt
    go (some m) h = sub_scalars-Distinct m (entries rr.scalars) h

pub get-empty_resource : (n : ℕ) → get empty_resource n ≡ pos 0
unfolding get value lookup
get-empty_resource n = ground arith
