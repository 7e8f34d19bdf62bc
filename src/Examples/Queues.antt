-- ===== src/Examples/Queues.antt =====
-- A priority queue of numbers, the enqueue action on one job, and the choice of a node.
use k8s_simulator.Common.{
  ℕ, zero, suc, ◌-◌, ◌<◌, ◌≡◌, refl, false, some, [], ◌∷◌, arith, ltb, Returns, entry,
}
use Prim.Native.Nat.{◌/◌}
use mathlib.Core.List.{Mem}
use k8s_simulator.Queue.{
  PriorityQueue, less, swap, push_item, pop_item, up_loop, up, select_child, down_loop, down, push,
  heap_pop, empty, len, pop,
}
use k8s_simulator.Queue.Order.{IsOrder, before}
use k8s_simulator.Queue.Laws.{IsHeap, IsPushed, push-IsHeap}
use k8s_simulator.Queue.Take.{IsTaken, pop-IsHeap}

program : Unit {0}
unfolding less swap push_item pop_item up_loop up select_child down_loop down push heap_pop empty
    len pop
program = tt

abbrev three : PriorityQueue ℕ
three = record { items = 2 ∷ 5 ∷ 4 ∷ []; less_fn = some ltb }

pushed : push three 1 ≡ some (record { items = 1 ∷ 2 ∷ 4 ∷ 5 ∷ []; less_fn = some ltb })
unfolding program
pushed = refl

popped : pop three ≡ some (some 2, record { items = 4 ∷ 5 ∷ []; less_fn = some ltb })
unfolding program
popped = refl

ltb-IsOrder : IsOrder ltb
ltb-IsOrder = record { asym = λ x y h. ground arith; trans = λ x y z h i. ground arith }

edges : (d c : ℕ) → 0 < c → c < 3 → before d (some ltb) (2 ∷ 5 ∷ 4 ∷ []) c ((c - 1) / 2) ≡ false
unfolding before entry
edges d zero p q = absurd (omega arith)
edges d (suc zero) p q = refl
edges d (suc (suc zero)) p q = refl
edges d (suc (suc (suc c))) p q = absurd (omega arith)

three-IsHeap : IsHeap ltb three
three-IsHeap = record { by_f = refl; ordered = edges }

push-IsHeap_example : Returns (λ q. IsPushed three 1 q × IsHeap ltb q) (push three 1)
push-IsHeap_example = push-IsHeap ltb three 1 ltb-IsOrder three-IsHeap

pop-IsHeap_example :
    Returns
      (λ r.
        (t : IsTaken three r) × IsHeap ltb r.1
        × ((y : ℕ) → Mem y three.items → ltb y t.top ≡ false))
      (pop three)
pop-IsHeap_example = pop-IsHeap ltb three ltb-IsOrder three-IsHeap (omega arith)
