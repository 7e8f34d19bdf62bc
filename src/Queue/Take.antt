-- ===== src/Queue/Take.antt =====
-- Pop: what it returns, and the order that it keeps.
use k8s_simulator.Common.{
  ℕ, zero, suc, ◌-◌, ◌≡◌, inl, inr, refl, sym, ap, ◌∙◌, ◌<◌, ◌≤◌, Bool, false, Bool-cases, Option,
  none, some, List, [], ◌∷◌, ◌++◌, arith, ◌==◌, length, take, entry, exchange, get_elem?-entry,
  entry-exchange, exchange-Perm, length-exchange, length-Perm, entry-default, entry-take, take-snoc,
  snoc-Perm, Returns,
}
use mathlib.Core.List.{Perm}
use mathlib.Core.List.Perm
use k8s_simulator.Queue.{PriorityQueue, pop_item, parent, down, heap_pop, len, pop}
use k8s_simulator.Queue.Order.{IsOrder, before, swap-exchange, IsHeapTo, root_first}
use mathlib.Core.List.{Mem, not-mem-nil, forall_mem-cons}
use mathlib.Core.Bool.{Bool-set}
use k8s_simulator.Queue.Down.{down_loop-IsSunk}
use k8s_simulator.Queue.Sink.{CanSink, down_loop-IsHeapTo, irrefl}
use k8s_simulator.Queue.Laws.{IsHeap}

module _ {A : Type 0} where
  -- What heap.Pop computes on a queue that is not empty.
  record IsPopped (q : PriorityQueue A) (d : A) (n : ℕ) : Type 0 where
    sunk : List A
    run : down q.less_fn (exchange d q.items 0 n) 0 n ≡ some sunk
    size : length sunk ≡ suc n
    out :
        pop q ≡ some (some (entry d q.items 0), record { items = take n sunk; less_fn = q.less_fn })
    same : Perm (entry d q.items 0 ∷ take n sunk) q.items

  pop-eq :
      (q : PriorityQueue A) (d : A) (n : ℕ) (b : List A)
      → length q.items ≡ suc n
      → down q.less_fn (exchange d q.items 0 n) 0 n ≡ some b
      → length b ≡ suc n
      → entry d b n ≡ entry d q.items 0
      → pop q ≡ some (some (entry d q.items 0), record { items = take n b; less_fn = q.less_fn })
  unfolding pop heap_pop pop_item len
  pop-eq q d n b size run size_b last =
      let index : suc n - 1 ≡ n = omega arith in
      let filled : (suc n == 0) ≡ false = ground arith in
      rw
        (
          size,
          index,
          filled,
          swap-exchange d 0 n q.items (omega arith) (omega arith),
          run,
          size_b,
          index,
          get_elem?-entry d n b (omega arith),
          last,
        )
        refl

  pop-IsPopped : (q : PriorityQueue A) (d : A) (n : ℕ) → length q.items ≡ suc n → IsPopped q d n
  unfolding down pop heap_pop pop_item len
  pop-IsPopped q d n size =
      let a = exchange d q.items 0 n in
      let size_a : length a ≡ suc n = length-exchange d 0 n q.items ∙ size in
      let (b, run, t) = down_loop-IsSunk d (suc n) q.less_fn a 0 n (omega arith) (omega arith) in
      let size_b : length b ≡ suc n = length-Perm t.same ∙ size_a in
      let last : entry d b n ≡ entry d q.items 0 =
        ground (arith, t.kept n, entry-exchange d 0 n q.items (omega arith) (omega arith) n) in
      let whole : take n b ++ entry d q.items 0 ∷ [] ≡ b = rw last at (take-snoc d n b size_b) in
      record {
        sunk = b;
        run = run;
        size = size_b;
        out = pop-eq q d n b size run size_b last;
        same = Perm.trans (Perm.symm (snoc-Perm (entry d q.items 0) (take n b))) (
            rw whole (Perm.trans t.same (exchange-Perm d 0 n q.items (omega arith) (omega arith))));
      }

  -- What Pop of a queue that is not empty returns: one of its elements, and the queue without it.
  pub record IsTaken (q : PriorityQueue A) (r : Option A × PriorityQueue A) : Type 0 where
    pub top : A
    pub got : r.0 ≡ some top
    pub same : Perm (top ∷ r.1.items) q.items
    pub same_fn : r.1.less_fn ≡ q.less_fn

  IsTaken-items :
      (a : List A) (q : PriorityQueue A) → q.items ≡ a → 0 < length a → Returns (IsTaken q) (pop q)
  IsTaken-items [] q e h = absurd (omega arith)
  IsTaken-items (d ∷ a) q e h =
      let size : length q.items ≡ suc (length a) = rw e refl in
      let p = pop-IsPopped q d (length a) size in
      (_, p.out, record { top = entry d q.items 0; got = refl; same = p.same; same_fn = refl })

  -- Pop of a queue that is not empty does not panic and its loop ends: it takes one element out.
  pub pop-IsTaken : (q : PriorityQueue A) → 0 < length q.items → Returns (IsTaken q) (pop q)
  pop-IsTaken q h = IsTaken-items q.items q refl h

  root-CanSink :
      (d : A) (f : A → A → Bool) (a : List A) (n : ℕ)
      → length a ≡ suc n
      → IsHeapTo d f (length a) a
      → CanSink d f n (exchange d a 0 n) 0
  unfolding before
  root-CanSink d f a n size h =
      let at = entry-exchange d 0 n a (omega arith) (omega arith) in
      record {
        edges = λ c p q r. ground (arith, h c, at c, at (parent c));
        bridged = λ c p q r s. absurd (omega arith);
      }

  take-IsHeapTo :
      (d : A) (f : A → A → Bool) (b : List A) (n : ℕ) → IsHeapTo d f n b → IsHeapTo d f n (take n b)
  unfolding before
  take-IsHeapTo d f b n h c p q =
      ground (arith, h c, entry-take d n c b, entry-take d n (parent c) b)

  first_of_entries :
      (d x : A) (f : A → A → Bool) (a : List A)
      → ((i : ℕ) → i < length a → f (entry d a i) x ≡ false)
      → (y : A) → Mem y a
      → f y x ≡ false
  unfolding entry
  first_of_entries d x f [] h = λ y m. absurd (not-mem-nil m)
  first_of_entries d x f (z ∷ a) h =
      (forall_mem-cons λ y. Bool-set (f y x) false).1
        (h 0 (omega arith), first_of_entries d x f a λ i p. h (suc i) (omega arith))

  length-take : (n : ℕ) (b : List A) → length b ≡ suc n → length (take n b) ≡ n
  length-take zero b h = refl
  length-take (suc n) [] h = absurd (omega arith)
  length-take (suc n) (x ∷ b) h = ap suc (length-take n b (omega arith))

  any_default :
      (d e : A) (f : A → A → Bool) (n : ℕ) (a : List A)
      → n ≤ length a
      → IsHeapTo d f n a
      → IsHeapTo e f n a
  unfolding before
  any_default d e f n a h v c p q =
      rw (entry-default e d c a (omega arith), entry-default e d (parent c) a (omega arith))
        (v c p q)

  pop-empty : (q : PriorityQueue A) → q.items ≡ [] → pop q ≡ some (none, q)
  unfolding pop len
  pop-empty q e = rw e refl

  ordered_pop :
      (f : A → A → Bool) (q q' : PriorityQueue A) (x : A) (a : List A)
      → q.items ≡ a
      → IsOrder f
      → IsHeap f q
      → pop q ≡ some (some x, q')
      → IsHeap f q' × ((y : A) → Mem y q.items → f y x ≡ false)
  unfolding before down
  ordered_pop f q q' x [] e o h run =
      let nil : Option (Option A × PriorityQueue A) = some (none, q) in
      let no : nil ≡ some (some x, q') = sym (pop-empty q e) ∙ run in cc
  ordered_pop f q q' x (z ∷ a) e o h run =
      let n = length a in
      let size : length q.items ≡ suc n = rw e refl in
      let p = pop-IsPopped q x n size in
      let fn = h.by_f in
      let rest : PriorityQueue A = record { items = take n p.sunk; less_fn = q.less_fn } in
      let left : Option (Option A × PriorityQueue A) = some (some (entry x q.items 0), rest) in
      let out : left ≡ some (some x, q') = sym p.out ∙ run in
      let same_top : entry x q.items 0 ≡ x = cc in
      let same_rest : rest ≡ q' = cc in
      let cut = length-take n p.sunk p.size in
      let size_a : length (exchange x q.items 0 n) ≡ suc n = length-exchange x 0 n q.items ∙ size in
      let (b, sink_run, heap) =
        down_loop-IsHeapTo x f (suc n) (exchange x q.items 0 n) 0 n o (omega arith) (omega arith)
          (root-CanSink x f q.items n size (h.ordered x)) in
      let down_run : down (some f) (exchange x q.items 0 n) 0 n ≡ some p.sunk =
        sym (ap (λ g. down g (exchange x q.items 0 n) 0 n) fn) ∙ p.run in
      let heap_run : b ≡ p.sunk = cc in
      (
        rw (← same_rest) (record {
          by_f = fn;
          ordered = λ d. rw cut (
              any_default x d f n (take n p.sunk) (omega arith)
                (take-IsHeapTo x f p.sunk n (rw heap_run at heap)));
        }),
        first_of_entries x x f q.items λ i r. elim (Bool-cases (i == 0)) [
          | inl top ↦ let root : i ≡ 0 = ground arith in rw (root, same_top) (irrefl x f o x)
          | inr below ↦
              rw same_top at
                (root_first x f (length q.items) q.items o (h.ordered x) i (ground arith) r)
        ],
      )

  -- Pop of a heap that is not empty, under an order: it does not panic and its loop ends. It returns an
  -- element that no other goes before, and leaves the other elements, as a heap.
  pub pop-IsHeap :
      (f : A → A → Bool) (q : PriorityQueue A)
      → IsOrder f
      → IsHeap f q
      → 0 < length q.items
      → Returns
          (λ r. (t : IsTaken q r) × IsHeap f r.1 × ((y : A) → Mem y q.items → f y t.top ≡ false))
          (pop q)
  pop-IsHeap f q o h filled =
      let ((top, rest), run, t) = pop-IsTaken q filled in
      let got : top ≡ some t.top = t.got in
      let run' : pop q ≡ some (some t.top, rest) =
        run ∙ ap (λ (u : Option A). some (u, rest)) got in
      let (heap, first) = ordered_pop f q rest t.top q.items refl o h run' in
      ((top, rest), run, (t, heap, first))
