-- ===== src/Resource/Delta.antt =====
-- Differences of resources: FitDelta and Diff, dimension by dimension.
use k8s_simulator.Common.{
  ℕ, ◌≡◌, refl, sym, ap, ◌∙◌, ◌↔◌, Option, none, some, [], ◌∷◌, ◌++◌, arith, if◌then◌else◌, ℤ, pos,
  ◌+ℤ◌, ◌-ℤ◌, ◌<ℤ◌, ltb_ℤ, int_laws, ltb_ℤ_iff, Dict, lookup, insert, Distinct, lookup-insert,
  lookup-cons_old, lookup-cons_self,
}
use mathlib.Core.List.{append-nil, append_assoc}
use k8s_simulator.Resource.{Resource, min_resource, entries, value, get, copy_map, clone}
use k8s_simulator.Resource.Difference.{fit_delta_scalars, fit_delta}
use k8s_simulator.Resource.Amounts.{value_missing, value-insert, value-cons, value-nil}

-- What FitDelta leaves of an amount.
delta : ℤ → ℤ → ℤ
delta a b = if ltb_ℤ (pos 0) b then a -ℤ (b +ℤ min_resource) else a

delta_negative : (a b : ℤ) → pos 0 <ℤ b → (delta a b <ℤ pos 0) ↔ (a <ℤ b +ℤ min_resource)
unfolding delta
delta_negative a b p = rw ((ltb_ℤ_iff (pos 0) b).1 p) (λ h. omega int_laws, λ h. omega int_laws)

value-fit_delta_scalars :
    (s d : Dict ℤ) (n : ℕ)
    → Distinct d
    → value n (fit_delta_scalars s d) ≡ delta (value n s) (value n d)
unfolding fit_delta_scalars delta
value-fit_delta_scalars s [] n h = simp value-nil
value-fit_delta_scalars s ((k, q) ∷ d) n h = ground (
  arith,
  value-fit_delta_scalars
      (if ltb_ℤ (pos 0) q then insert k (value k s -ℤ (q +ℤ min_resource)) s else s) d n h.1,
  value-insert k n (value k s -ℤ (q +ℤ min_resource)) s,
  value-cons k n q d,
  value_missing k d h.0,
)

get-fit_delta :
    (r rr : Resource) (n : ℕ)
    → Distinct (entries rr.scalars)
    → get (fit_delta r rr) n ≡ delta (get r n) (get rr n)
unfolding get fit_delta delta
get-fit_delta r rr n h =
    ground (arith, value-fit_delta_scalars (entries r.scalars) (entries rr.scalars) n h)

-- A dimension that is asked for is negative after FitDelta exactly when what is there, on the left,
-- exceeds the request by less than the tolerance or falls short of it, where the map of the request has
-- one entry for each name.
pub fit_delta-negative :
    (r rr : Resource) (n : ℕ)
    → Distinct (entries rr.scalars)
    → pos 0 <ℤ get rr n
    → (get (fit_delta r rr) n <ℤ pos 0) ↔ (get r n <ℤ get rr n +ℤ min_resource)
fit_delta-negative r rr n h p = rw (get-fit_delta r rr n h) (delta_negative (get r n) (get rr n) p)

-- The clone of a map is the map.
insert-fresh : (k : ℕ) (q : ℤ) (d : Dict ℤ) → lookup k d ≡ none → insert k q d ≡ d ++ (k, q) ∷ []
unfolding insert lookup
insert-fresh k q [] h = refl
insert-fresh k q ((j, l) ∷ d) h = ground (arith, insert-fresh k q d)

copy_map-append :
    (target d : Dict ℤ)
    → Distinct d
    → ((k : ℕ) (q : ℤ) → lookup k d ≡ some q → lookup k target ≡ none)
    → copy_map target d ≡ target ++ d
unfolding copy_map
copy_map-append target [] h f = sym (append-nil target)
copy_map-append target ((k, q) ∷ d) h f =
    copy_map-append (insert k q target) d h.1 rest
    ∙ rw (insert-fresh k q target (f k q (lookup-cons_self k q d)))
        (append_assoc target ((k, q) ∷ []) d)
  where
    rest : (j : ℕ) (r : ℤ) → lookup j d ≡ some r → lookup j (insert k q target) ≡ none
    rest j r e =
        ground (arith, lookup-insert k j q target, f j r (lookup-cons_old k j q r d h.0 e), h.0)

clone_map :
    (s : Option (Dict ℤ))
    → Distinct (entries s)
    → elim s [ none ↦ none | some d ↦ some (copy_map [] d) ] ≡ s
unfolding lookup
clone_map none h = refl
clone_map (some d) h = ap some (copy_map-append [] d h (λ k q e. refl))

-- Clone returns an equal resource, where the map has one entry for each name.
pub clone_lem : (r : Resource) → Distinct (entries r.scalars) → clone r ≡ r
unfolding clone
clone_lem r h = λ i. record r { scalars = clone_map r.scalars h i }
