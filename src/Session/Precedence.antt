-- ===== src/Session/Precedence.antt =====
-- The order in which jobs and queues are taken.
use k8s_simulator.Common.{
  ℕ, ◌≡◌, refl, ◌≢◌, Bool, true, false, not, List, [], ◌∷◌, arith, if◌then◌else◌, All, ℤ, pos, ◌-ℤ◌,
  eqb_ℤ, -ℤ_parts, int_laws,
}
use k8s_simulator.Job.{JobInfo}
use k8s_simulator.Session.{Session, all_voters}
use k8s_simulator.Session.Order.{compare_fns, by_creation, precedes, job_order_fn}

-- A comparison is opposite to itself with its arguments exchanged.
abbrev pub IsOpposite : {A : Type 0} → A → A → (A → A → ℤ) → Type 0
IsOpposite l r f = f r l ≡ pos 0 -ℤ f l r

is_zero_opposite : (a : ℤ) → eqb_ℤ (pos 0 -ℤ a) (pos 0) ≡ eqb_ℤ a (pos 0)
is_zero_opposite a = ground (arith, -ℤ_parts (pos 0) a)

choose-opposite :
    (a b : ℤ)
    → (if eqb_ℤ (pos 0 -ℤ a) (pos 0) then pos 0 -ℤ b else pos 0 -ℤ a)
      ≡ pos 0 -ℤ (if eqb_ℤ a (pos 0) then b else a)
choose-opposite a b = rw (is_zero_opposite a) (by_cases (eqb_ℤ a (pos 0)))
  where
    by_cases : (c : Bool) → (if c then pos 0 -ℤ b else pos 0 -ℤ a) ≡ pos 0 -ℤ (if c then b else a)
    by_cases true = refl
    by_cases false = refl

compare_fns-opposite :
    {A : Type 0} (fs : List (A → A → ℤ)) (l r : A)
    → All (IsOpposite l r) fs
    → compare_fns fs r l ≡ pos 0 -ℤ compare_fns fs l r
unfolding compare_fns
compare_fns-opposite [] l r h = omega int_laws
compare_fns-opposite (f ∷ fs) l r h =
    let rest = compare_fns-opposite fs l r h.1 in
    let here = h.0 in rw (here, rest) (choose-opposite (f l r) (compare_fns fs l r))

by_creation-not :
    (lt rt : ℤ) (lu ru : ℕ) → lu ≢ ru → by_creation rt lt ru lu ≡ not (by_creation lt rt lu ru)
unfolding by_creation
by_creation-not lt rt lu ru h = ground arith

precedes-not : (j : ℤ) (a b : Bool) → b ≡ not a → precedes (pos 0 -ℤ j) b ≡ not (precedes j a)
unfolding precedes
precedes-not j a b h = ground (arith, -ℤ_parts (pos 0) j)

-- Of two jobs with different UIDs exactly one comes first in JobOrderFn, whatever enabled plugins
-- compare them, provided that each of their comparisons changes sign when its arguments are
-- exchanged.
pub job_order_fn-not :
    (ssn : Session) (l r : JobInfo)
    → l.uid ≢ r.uid
    → All (IsOpposite l r) (all_voters (λ p. p.enabled_job_order) ssn.job_order_fns ssn.tiers)
    → job_order_fn ssn r l ≡ not (job_order_fn ssn l r)
unfolding job_order_fn
job_order_fn-not ssn l r h opp =
    let fs = all_voters (λ p. p.enabled_job_order) ssn.job_order_fns ssn.tiers in
    rw (compare_fns-opposite fs l r opp) (
      precedes-not (compare_fns fs l r) _ _
        (by_creation-not l.creation_timestamp r.creation_timestamp l.uid r.uid h))
