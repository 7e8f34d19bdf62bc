-- ===== src/Common/Arrays.antt =====
-- Go slices as lists under native indices. `entry` reads a slice where the index is known to be in range.
use Prim.Native.Nat.{ℕ, zero, suc, ◌<◌}
use mathlib.Core.Path.{◌≡◌, refl, ap, ◌∙◌}
use mathlib.Core.Logic.{∥∥₁_elim}
use mathlib.Core.Option.{Option, none, some}
use mathlib.Core.List.{List, [], ◌∷◌, ◌++◌, Perm, Permᴰ, perm_middle, append-nil}
use mathlib.Core.List.Perm
use native.Mathlib.Nat.{ℕ_set}
use native.Mathlib.Omega.{arith}
use k8s_simulator.Common.Tests.{◌==◌, if◌then◌else◌}
use k8s_simulator.Common.Lists.{length}

module _ {ℓ} {A : Type ℓ} where
  -- `a[0:n]`
  abbrev pub take : ℕ → List A → List A
  take zero xs = []
  take (suc n) [] = []
  take (suc n) (y ∷ ys) = y ∷ take n ys

  unfoldable pub entry : A → List A → ℕ → A
  entry d [] k = d
  entry d (y ∷ ys) zero = y
  entry d (y ∷ ys) (suc k) = entry d ys k

  -- `a[k]`, where it is in range
  abbrev pub get_elem? : List A → ℕ → Option A
  get_elem? [] k = none
  get_elem? (y ∷ ys) zero = some y
  get_elem? (y ∷ ys) (suc k) = get_elem? ys k

  -- `a[k] = w`
  abbrev pub set : List A → ℕ → A → List A
  set [] k w = []
  set (y ∷ ys) zero w = w ∷ ys
  set (y ∷ ys) (suc k) w = y ∷ set ys k w

  unfoldable pub exchange : A → List A → ℕ → ℕ → List A
  exchange d a i j = set (set a i (entry d a j)) j (entry d a i)

  pub length-set : (i : ℕ) (v : A) (a : List A) → length (set a i v) ≡ length a
  length-set i v [] = refl
  length-set zero v (x ∷ a) = refl
  length-set (suc i) v (x ∷ a) = ap suc (length-set i v a)

  same_length : {a b : List A} → Permᴰ a b → length a ≡ length b
  same_length Permᴰ.nil = refl
  same_length (Permᴰ.cons x p) = ap suc (same_length p)
  same_length (Permᴰ.swap x y) = refl
  same_length (Permᴰ.trans p q) = same_length p ∙ same_length q

  pub length-Perm : {a b : List A} → Perm a b → length a ≡ length b
  length-Perm p = ∥∥₁_elim p (ℕ_set _ _) same_length

  pub snoc-Perm : (x : A) (a : List A) → Perm (a ++ x ∷ []) (x ∷ a)
  snoc-Perm x a = rw (append-nil a) at (perm_middle {a = x} a [])

  pub entry-default : (d e : A) (i : ℕ) (a : List A) → i < length a → entry d a i ≡ entry e a i
  unfolding entry
  entry-default d e i [] h = absurd (omega arith)
  entry-default d e zero (x ∷ a) h = refl
  entry-default d e (suc i) (x ∷ a) h = entry-default d e i a (omega arith)

  module _ (d : A) where
    pub get_elem?-entry : (i : ℕ) (a : List A) → i < length a → get_elem? a i ≡ some (entry d a i)
    unfolding entry
    get_elem?-entry i [] h = absurd (omega arith)
    get_elem?-entry zero (x ∷ a) h = refl
    get_elem?-entry (suc i) (x ∷ a) h = get_elem?-entry i a (omega arith)

    pub entry-set :
        (i j : ℕ) (v : A) (a : List A)
        → i < length a
        → entry d (set a i v) j ≡ (if i == j then v else entry d a j)
    unfolding entry
    entry-set i j v [] h = absurd (omega arith)
    entry-set zero zero v (x ∷ a) h = refl
    entry-set (suc i) (suc j) v (x ∷ a) h = ground (arith, entry-set i j v a)
    entry-set i j v (x ∷ a) h = ground arith

    pub entry-append : (i : ℕ) (a b : List A) → i < length a → entry d (a ++ b) i ≡ entry d a i
    unfolding entry
    entry-append i [] b h = absurd (omega arith)
    entry-append zero (x ∷ a) b h = refl
    entry-append (suc i) (x ∷ a) b h = entry-append i a b (omega arith)

    pub entry-take : (n i : ℕ) (a : List A) → i < n → entry d (take n a) i ≡ entry d a i
    unfolding entry
    entry-take zero i a h = absurd (omega arith)
    entry-take (suc n) i [] h = refl
    entry-take (suc n) zero (x ∷ a) h = refl
    entry-take (suc n) (suc i) (x ∷ a) h = entry-take n i a (omega arith)

    pub take-snoc : (n : ℕ) (a : List A) → length a ≡ suc n → take n a ++ entry d a n ∷ [] ≡ a
    unfolding entry
    take-snoc n [] h = absurd (omega arith)
    take-snoc zero (x ∷ []) h = refl
    take-snoc (suc n) (x ∷ a) h = ap (◌∷◌ x) (take-snoc n a (omega arith))
    take-snoc n a h = absurd (omega arith)

    -- What `set` writes takes the place of what was there.
    set-Perm : (i : ℕ) (v : A) (a : List A) → i < length a → Perm (entry d a i ∷ set a i v) (v ∷ a)
    unfolding entry
    set-Perm i v [] h = absurd (omega arith)
    set-Perm zero v (x ∷ a) h = Perm.swap v x a
    set-Perm (suc i) v (x ∷ a) h =
        Perm.trans (Perm.swap x _ _)
          (Perm.trans (Perm.cons x (set-Perm i v a (omega arith))) (Perm.swap v x a))

    pub length-exchange : (i j : ℕ) (a : List A) → length (exchange d a i j) ≡ length a
    unfolding exchange
    length-exchange i j a =
        length-set j (entry d a i) (set a i (entry d a j)) ∙ length-set i (entry d a j) a

    module _ (i j : ℕ) (a : List A) (hi : i < length a) (hj : j < length a) where
      pub entry-exchange :
          (c : ℕ)
          → entry d (exchange d a i j) c
            ≡ (if j == c then entry d a i else if i == c then entry d a j else entry d a c)
      unfolding exchange
      entry-exchange c = ground (
        arith,
        length-set i (entry d a j) a,
        entry-set j c (entry d a i) (set a i (entry d a j)),
        entry-set i c (entry d a j) a,
      )

      pub exchange-Perm : Perm (exchange d a i j) a
      unfolding exchange
      exchange-Perm =
          let b = set a i (entry d a j) in
          let size = length-set i (entry d a j) a in
          let kept : entry d b j ≡ entry d a j = ground (arith, entry-set i j (entry d a j) a) in
          let second = rw kept at (set-Perm j (entry d a i) b (omega arith)) in
          Perm.cons_inv (Perm.trans second (set-Perm i (entry d a j) a hi))
