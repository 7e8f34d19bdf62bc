-- ===== src/Queue/Laws.antt =====
-- Push and Pop: what they return, and the order that they keep.
use k8s_simulator.Common.{
  suc, ◌-◌, ◌≡◌, refl, ap, ◌∙◌, Bool, some, List, [], ◌∷◌, arith, length, length-Perm, entry-append,
  snoc-Perm, Returns, Returns-some, Returns-bind,
}
use mathlib.Core.List.{Perm}
use mathlib.Core.List.Perm
use k8s_simulator.Queue.{PriorityQueue, push_item, parent, up, push}
use k8s_simulator.Queue.Order.{IsOrder, before, IsHeapTo}
use k8s_simulator.Queue.Up.{up_loop-Perm, CanRise, up_loop-IsHeapTo}

module _ {A : Type 0} where
  -- Every entry goes at most as early as its parent.
  pub record IsHeap (f : A → A → Bool) (q : PriorityQueue A) : Type 0 where
    pub by_f : q.less_fn ≡ some f
    pub ordered : (d : A) → IsHeapTo d f (length q.items) q.items

  -- The queue after Push of `x`.
  pub record IsPushed (q : PriorityQueue A) (x : A) (q' : PriorityQueue A) : Type 0 where
    pub same : Perm q'.items (x ∷ q.items)
    pub same_fn : q'.less_fn ≡ q.less_fn

  grown-length : (a : List A) (x : A) → length (push_item a x) ≡ suc (length a)
  unfolding push_item
  grown-length [] x = refl
  grown-length (y ∷ a) x = ap suc (grown-length a x)

  push_item-Perm : (y : A) (a : List A) → Perm (push_item a y) (y ∷ a)
  unfolding push_item
  push_item-Perm y a = snoc-Perm y a

  -- Push does not panic and its loop ends: the queue then holds the element and what it held before.
  pub push-IsPushed : (q : PriorityQueue A) (x : A) → Returns (IsPushed q x) (push q x)
  unfolding push up
  push-IsPushed q x =
      let grown = push_item q.items x in
      let size = grown-length q.items x in
      Returns-bind
        (up_loop-Perm x (suc (length grown - 1)) q.less_fn grown (length grown - 1) (omega arith)
          (omega (arith, size)))
        λ b same.
          Returns-some _
            (record { same = Perm.trans same (push_item-Perm x q.items); same_fn = refl })

  -- The new element, at the end, may rise.
  grown-CanRise :
      (d x : A) (f : A → A → Bool) (a : List A)
      → IsHeapTo d f (length a) a
      → CanRise d f (push_item a x) (length (push_item a x) - 1)
  unfolding push_item before
  grown-CanRise d x f a h =
      let size = grown-length a x in
      record {
        edges = λ c p q r.
            ground
              (arith, size, h c, entry-append d c a (x ∷ []), entry-append d (parent c) a (x ∷ []));
        bridged = λ c p q r s. ground (arith, size);
      }

  kept_by_push :
      (f : A → A → Bool) (q q' : PriorityQueue A) (x : A)
      → IsOrder f
      → IsHeap f q
      → push q x ≡ some q'
      → IsHeap f q'
  unfolding push up
  kept_by_push f q q' x o h e =
      let grown = push_item q.items x in
      let size = grown-length q.items x in
      let (p, run, pushed) = push-IsPushed q x in
      let same : p ≡ q' = cc in
      let fn = h.by_f in
      record {
        by_f = rw (← same) (pushed.same_fn ∙ fn);
        ordered = λ d.
            let (b, up_run, heap) =
              up_loop-IsHeapTo d f (suc (length grown - 1)) grown (length grown - 1) o (omega arith)
                (omega (arith, size)) (grown-CanRise d x f q.items (h.ordered d)) in
            let after : PriorityQueue A = record { items = b; less_fn = some f } in
            let out : some after ≡ some q' = rw (fn, up_run) at e in
            let same_queue : after ≡ q' = cc in
            let kept : length q'.items ≡ length grown =
              rw (← same) (omega (arith, length-Perm pushed.same, size)) in
            rw kept (rw (← same_queue) heap);
      }

  -- Push on a heap, under an order: it does not panic and its loop ends; the queue then holds the new
  -- element and what it held before, and it is a heap.
  pub push-IsHeap :
      (f : A → A → Bool) (q : PriorityQueue A) (x : A)
      → IsOrder f
      → IsHeap f q
      → Returns (λ q'. IsPushed q x q' × IsHeap f q') (push q x)
  push-IsHeap f q x o h =
      let (q', run, pushed) = push-IsPushed q x in
      (q', run, (pushed, kept_by_push f q q' x o h run))
