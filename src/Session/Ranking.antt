-- ===== src/Session/Ranking.antt =====
-- JobOrderFn is an order that a priority queue can work with.
use k8s_simulator.Common.{
  ◌≡◌, sym, ap, ◌∙◌, Bool, List, [], ◌∷◌, arith, if◌then◌else◌, All, ℤ, pos, ◌-ℤ◌, ◌≤ℤ◌, ltb_ℤ,
  eqb_ℤ, -ℤ_parts, int_laws,
}
use k8s_simulator.Job.{JobInfo}
use k8s_simulator.Session.{Session, all_voters}
use k8s_simulator.Session.Order.{compare_fns, by_creation, precedes, job_order_fn}
use k8s_simulator.Queue.Order.{IsOrder}

-- What a plugin's comparison promises: it changes sign with its arguments, and `not after` is transitive.
pub record IsComparison {A : Type 0} (f : A → A → ℤ) : Type 0 where
  pub opposite : (x y : A) → f y x ≡ pos 0 -ℤ f x y
  pub trans : (x y z : A) → pos 0 ≤ℤ f y x → pos 0 ≤ℤ f z y → pos 0 ≤ℤ f z x

module _ {A : Type 0} where
  lexical :
      (f g : A → A → ℤ)
      → IsComparison f
      → IsComparison g
      → IsComparison (λ x y. if eqb_ℤ (f x y) (pos 0) then g x y else f x y)
  lexical f g p q = record {
    opposite = λ x y. ground (arith, p.opposite x y, q.opposite x y, -ℤ_parts (pos 0) (f x y));
    trans = λ x y z h i. ground (
      arith,
      p.trans x y z,
      q.trans x y z,
      p.trans y z x,
      p.trans z x y,
      p.opposite x y,
      p.opposite x z,
      p.opposite y z,
      -ℤ_parts (pos 0) (f x y),
      -ℤ_parts (pos 0) (f x z),
      -ℤ_parts (pos 0) (f y z),
    );
  }

  compare_fns-IsComparison :
      (fs : List (A → A → ℤ)) → All IsComparison fs → IsComparison (compare_fns fs)
  unfolding compare_fns
  compare_fns-IsComparison [] h = record {
    opposite = λ x y. omega int_laws;
    trans = λ x y z p q. omega arith;
  }
  compare_fns-IsComparison (f ∷ fs) h =
      lexical f (compare_fns fs) h.0 (compare_fns-IsComparison fs h.1)

  IsComparison-IsOrder : (f : A → A → ℤ) → IsComparison f → IsOrder (λ x y. ltb_ℤ (f x y) (pos 0))
  IsComparison-IsOrder f c = record {
    asym = λ x y e. ground (arith, c.opposite x y, -ℤ_parts (pos 0) (f x y));
    trans = λ x y z e i. ground (arith, c.trans x y z);
  }

  difference-IsComparison : (h : A → ℤ) → IsComparison (λ x y. h x -ℤ h y)
  difference-IsComparison h = record {
    opposite = λ x y.
        omega (int_laws, -ℤ_parts (h x) (h y), -ℤ_parts (h y) (h x), -ℤ_parts (pos 0) (h x -ℤ h y));
    trans = λ x y z p q.
        omega (arith, -ℤ_parts (h y) (h x), -ℤ_parts (h z) (h y), -ℤ_parts (h z) (h x));
  }

-- The fallback as a comparison: the time of creation, then the UID.
abbrev by_time : JobInfo → JobInfo → ℤ
by_time x y =
    if eqb_ℤ (x.creation_timestamp -ℤ y.creation_timestamp) (pos 0)
    then pos x.uid -ℤ pos y.uid
    else x.creation_timestamp -ℤ y.creation_timestamp

by_creation-by_time :
    (x y : JobInfo)
    → by_creation x.creation_timestamp y.creation_timestamp x.uid y.uid
      ≡ ltb_ℤ (by_time x y) (pos 0)
unfolding by_creation
by_creation-by_time x y =
    ground
      (arith, -ℤ_parts x.creation_timestamp y.creation_timestamp, -ℤ_parts (pos x.uid) (pos y.uid))

precedes-lexical :
    (a b : ℤ) → precedes a (ltb_ℤ b (pos 0)) ≡ ltb_ℤ (if eqb_ℤ a (pos 0) then b else a) (pos 0)
unfolding precedes
precedes-lexical a b = ground arith

IsOrder-same :
    {A : Type 0} (f g : A → A → Bool) → ((x y : A) → g x y ≡ f x y) → IsOrder f → IsOrder g
IsOrder-same f g e o = record {
  asym = λ x y p. e y x ∙ o.asym x y (sym (e x y) ∙ p);
  trans = λ x y z p q. e z x ∙ o.trans x y z (sym (e y x) ∙ p) (sym (e z y) ∙ q);
}

-- If the comparisons of the enabled plugins keep their promises, JobOrderFn puts no job before itself or
-- before one that it stands behind, and `not before` is transitive.
pub job_order_fn-IsOrder :
    (ssn : Session)
    → All IsComparison (all_voters (λ p. p.enabled_job_order) ssn.job_order_fns ssn.tiers)
    → IsOrder (job_order_fn ssn)
unfolding job_order_fn
job_order_fn-IsOrder ssn h =
    let fs = all_voters (λ p. p.enabled_job_order) ssn.job_order_fns ssn.tiers in
    let fallback =
      lexical (λ (x y : JobInfo). x.creation_timestamp -ℤ y.creation_timestamp)
        (λ x y. pos x.uid -ℤ pos y.uid) (difference-IsComparison _) (difference-IsComparison _) in
    IsOrder-same _ (job_order_fn ssn)
      (λ x y.
        ap (precedes (compare_fns fs x y)) (by_creation-by_time x y)
        ∙ precedes-lexical (compare_fns fs x y) (by_time x y))
      (IsComparison-IsOrder _
        (lexical (compare_fns fs) by_time (compare_fns-IsComparison fs h) fallback))
