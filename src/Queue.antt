-- ===== src/Queue.antt =====
-- pkg/scheduler/util/priority_queue.go: a priority queue, over Go's container/heap.
-- An index out of range panics (`none`). The loops of container/heap run on fuel; it is enough,
-- since the results below exclude `none`. Indices stay far below 2 ^ 62, where `int` is exact.
pub mod Order
pub mod Up
pub mod Down
pub mod Sink
pub mod Laws
pub mod Take
use k8s_simulator.Common.{
  ℕ, zero, suc, ◌+◌, ◌-◌, ◌*◌, ◌≡◌, refl, ◌<◌, Bool, true, false, Option, none, some, List, [], ◌∷◌,
  ◌++◌, ltb, leb, ◌==◌, if◌then◌else◌, length, get_elem?, set, take, entry, exchange,
  get_elem?-entry, ◌>>=◌,
}
use Prim.Native.Nat.{◌/◌}

-- PriorityQueue and the priorityQueue in it
pub record PriorityQueue (A : Type 0) : Type 0 where
  pub items : List A
  pub less_fn : Option (A → A → Bool)

abbrev pub parent : ℕ → ℕ
parent j = (j - 1) / 2

module _ {A : Type 0} where
  -- NewPriorityQueue
  unfoldable pub new_priority_queue : Option (A → A → Bool) → PriorityQueue A
  new_priority_queue less_fn = record { items = []; less_fn = less_fn }

  -- Less, Swap, Push and Pop of priorityQueue
  unfoldable pub less : Option (A → A → Bool) → List A → ℕ → ℕ → Option Bool
  less none a i j = some (ltb i j)
  less (some f) a i j = do x ← get_elem? a i; y ← get_elem? a j; some (f x y)

  unfoldable pub swap : List A → ℕ → ℕ → Option (List A)
  swap a i j = do y ← get_elem? a j; x ← get_elem? a i; some (set (set a i y) j x)

  unfoldable pub push_item : List A → A → List A
  push_item a x = a ++ x ∷ []

  unfoldable pub pop_item : List A → Option (A × List A)
  pop_item a = do x ← get_elem? a (length a - 1); some (x, take (length a - 1) a)

  -- `up` of container/heap
  unfoldable pub up_loop : ℕ → Option (A → A → Bool) → List A → ℕ → Option (List A)
  up_loop zero f a j = none
  up_loop (suc k) f a j =
      let rise = swap a (parent j) j >>= λ b. up_loop k f b (parent j) in
      if parent j == j
      then some a
      else (do above ← less f a j (parent j); if above then rise else some a)

  unfoldable pub up : Option (A → A → Bool) → List A → ℕ → Option (List A)
  up f a j = up_loop (suc j) f a j

  -- The child that `down` compares with; `&&` reads the right one only if it is below `n`.
  unfoldable pub select_child : Option (A → A → Bool) → List A → ℕ → ℕ → Option ℕ
  select_child f a n i =
      let left = 2 * i + 1 in
      let right = left + 1 in
      if ltb right n
      then (do better ← less f a right left; some (if better then right else left))
      else some left

  -- `down` of container/heap
  unfoldable pub down_loop : ℕ → Option (A → A → Bool) → List A → ℕ → ℕ → Option (List A)
  down_loop zero f a i n = none
  down_loop (suc k) f a i n =
      let step : Option (List A) = do
        child ← select_child f a n i
        above ← less f a child i
        let sink = swap a i child >>= λ b. down_loop k f b child n
        if above then sink else some a
      in if leb n (2 * i + 1) then some a else step

  unfoldable pub down : Option (A → A → Bool) → List A → ℕ → ℕ → Option (List A)
  down f a i n = down_loop (suc n) f a i n

  -- Push, through heap.Push
  unfoldable pub push : PriorityQueue A → A → Option (PriorityQueue A)
  push q x = do
    let grown = push_item q.items x
    a ← up q.less_fn grown (length grown - 1)
    some (record q { items = a })

  -- heap.Pop
  unfoldable pub heap_pop : PriorityQueue A → Option (A × PriorityQueue A)
  heap_pop q = do
    let n = length q.items - 1
    a ← swap q.items 0 n
    b ← down q.less_fn a 0 n
    (x, rest) ← pop_item b
    some (x, record q { items = rest })

  -- Empty and Len
  unfoldable pub empty : PriorityQueue A → Bool
  empty q = length q.items == 0

  unfoldable pub len : PriorityQueue A → ℕ
  len q = length q.items

  -- Pop; an empty queue gives nil.
  unfoldable pub pop : PriorityQueue A → Option (Option A × PriorityQueue A)
  pop q = if len q == 0 then some (none, q) else (do (x, q') ← heap_pop q; some (some x, q'))
