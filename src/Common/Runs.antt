-- ===== src/Common/Runs.antt =====
-- Runs of the actions: a run is done, or it stops at a fault.
use k8s_simulator.Common.Tests.{if◌then◌else◌}
use k8s_simulator.Common.Calls.{Returns, Ensures}
use mathlib.Core.Bool.{Bool, true, false}
use mathlib.Core.Logic.{◌⊎◌, inl, inr}
use mathlib.Core.Path.{◌≡◌, refl}
use mathlib.Core.Option.{Option, none, some}

-- The faults: the assertion in FutureIdle fails, no node is selected and its pointer is nil, any other panic,
-- and a loop that is cut off.
pub data Fault : Type 0 where
  overdrawn no_node panic cut_off : Fault

pub data Run {ℓ} (A : Type ℓ) : Type ℓ where
  done : A → Run A
  fault : Fault → Run A

infixl 5 ◌>>=◌
abbrev pub ◌>>=◌ {ℓ κ} : {A : Type ℓ} {B : Type κ} → Run A → (A → Run B) → Run B
done a >>= k = k a
fault e >>= k = fault e

abbrev pub of_option {ℓ} : {A : Type ℓ} → Fault → Option A → Run A
of_option e none = fault e
of_option e (some a) = done a

-- The run ends: it is done with such a result, or it stops for want of a node or at a failed assertion of
-- FutureIdle.
abbrev pub Ends {ℓ κ} : {A : Type ℓ} → (A → Type κ) → Run A → Type (ℓ ⊔ κ)
Ends {A = A} P r = ((a : A) × (r ≡ done a) × P a) ⊎ ((r ≡ fault overdrawn) ⊎ (r ≡ fault no_node))

module _ {ℓ κ} {A : Type ℓ} {P : A → Type κ} where
  pub Ends-done : (a : A) → P a → Ends P (done a)
  Ends-done a p = inl (a, refl, p)

  pub Ends-bind {ℓ' κ'} :
      {B : Type ℓ'} {Q : B → Type κ'} {r : Run A} {k : A → Run B}
      → Ends P r
      → ((a : A) → P a → Ends Q (k a))
      → Ends Q (r >>= k)
  Ends-bind (inl (a, e, p)) h = rw e (h a p)
  Ends-bind (inr (inl e)) h = rw e (inr (inl refl))
  Ends-bind (inr (inr e)) h = rw e (inr (inr refl))

  pub Ends-map {κ'} : {Q : A → Type κ'} {r : Run A} → Ends P r → ((a : A) → P a → Q a) → Ends Q r
  Ends-map (inl (a, e, p)) h = inl (a, e, h a p)
  Ends-map (inr f) h = inr f

  pub Ends-of_option : (e : Fault) {o : Option A} → Returns P o → Ends P (of_option e o)
  Ends-of_option e (a, same, p) = inl (a, rw same refl, p)

  pub Ends-if :
      (test : Bool) {r s : Run A}
      → (test ≡ true → Ends P r)
      → (test ≡ false → Ends P s)
      → Ends P (if test then r else s)
  Ends-if false p q = q refl
  Ends-if true p q = p refl

-- The run ends, or it panics; it is not cut off.
abbrev pub Stops {ℓ κ} : {A : Type ℓ} → (A → Type κ) → Run A → Type (ℓ ⊔ κ)
Stops P r = Ends P r ⊎ (r ≡ fault panic)

module _ {ℓ κ} {A : Type ℓ} {P : A → Type κ} where
  pub Stops-done : (a : A) → P a → Stops P (done a)
  Stops-done a p = inl (Ends-done a p)

  pub Stops-bind {ℓ' κ'} :
      {B : Type ℓ'} {Q : B → Type κ'} {r : Run A} {k : A → Run B}
      → Stops P r
      → ((a : A) → P a → Stops Q (k a))
      → Stops Q (r >>= k)
  Stops-bind (inl (inl (a, e, p))) h = rw e (h a p)
  Stops-bind (inl (inr (inl e))) h = rw e (inl (inr (inl refl)))
  Stops-bind (inl (inr (inr e))) h = rw e (inl (inr (inr refl)))
  Stops-bind (inr e) h = rw e (inr refl)

  pub Stops-map {κ'} : {Q : A → Type κ'} {r : Run A} → Stops P r → ((a : A) → P a → Q a) → Stops Q r
  Stops-map (inl ends) h = inl (Ends-map ends h)
  Stops-map (inr panics) h = inr panics

  pub Stops-of_option : (o : Option A) → Ensures P o → Stops P (of_option panic o)
  Stops-of_option none p = inr refl
  Stops-of_option (some a) p = Stops-done a (p a refl)

  pub Stops-if :
      (test : Bool) {r s : Run A}
      → (test ≡ true → Stops P r)
      → (test ≡ false → Stops P s)
      → Stops P (if test then r else s)
  Stops-if false p q = q refl
  Stops-if true p q = p refl
