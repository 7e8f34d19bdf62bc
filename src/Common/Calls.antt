-- ===== src/Common/Calls.antt =====
-- Calls that may panic: `none` is a panic (or a loop cut off), and the rules for calls that return.
use mathlib.Core.Path.{◌≡◌, refl, subst}
use mathlib.Core.Bool.{Bool, true, false}
use mathlib.Core.Option.{Option, none, some}
use k8s_simulator.Common.Tests.{if◌then◌else◌}

infixl 5 ◌>>=◌
abbrev pub ◌>>=◌ {ℓ κ} : {A : Type ℓ} {B : Type κ} → Option A → (A → Option B) → Option B
none >>= f = none
some a >>= f = f a

-- The call returns, and its result satisfies `P`.
abbrev pub Returns {ℓ κ} : {A : Type ℓ} → (A → Type κ) → Option A → Type (ℓ ⊔ κ)
Returns {A = A} P r = (a : A) × (r ≡ some a) × P a

module _ {ℓ κ} {A : Type ℓ} {P : A → Type κ} where
  pub Returns-some : (a : A) → P a → Returns P (some a)
  Returns-some a p = (a, refl, p)

  pub Returns-bind {ℓ' κ'} :
      {B : Type ℓ'} {Q : B → Type κ'} {run : Option A} {next : A → Option B}
      → Returns P run
      → ((x : A) → P x → Returns Q (next x))
      → Returns Q (run >>= next)
  Returns-bind (a, e, p) k = rw e (k a p)

  pub Returns-map {κ'} :
      {Q : A → Type κ'} {r : Option A} → Returns P r → ((a : A) → P a → Q a) → Returns Q r
  Returns-map (a, e, p) k = (a, e, k a p)

  pub Returns-if :
      (test : Bool) {yes_run no_run : Option A}
      → (test ≡ true → Returns P yes_run)
      → (test ≡ false → Returns P no_run)
      → Returns P (if test then yes_run else no_run)
  Returns-if false p q = q refl
  Returns-if true p q = p refl

-- If the call returns, its result satisfies `P`.
abbrev pub Ensures {ℓ κ} : {A : Type ℓ} → (A → Type κ) → Option A → Type (ℓ ⊔ κ)
Ensures {A} P r = (a : A) → r ≡ some a → P a

module _ {ℓ κ} {A : Type ℓ} {P : A → Type κ} where
  pub Ensures-Returns : {r : Option A} → Returns P r → Ensures P r
  Ensures-Returns (a, e, p) b h = let same : a ≡ b = cc in subst P same p

  pub Ensures-bind {ℓ' κ'} :
      {B : Type ℓ'} {Q : B → Type κ'} (r : Option A) {f : A → Option B}
      → Ensures P r
      → ((a : A) → P a → Ensures Q (f a))
      → Ensures Q (r >>= f)
  Ensures-bind none p k = λ b h. cc
  Ensures-bind (some a) p k = k a (p a refl)
