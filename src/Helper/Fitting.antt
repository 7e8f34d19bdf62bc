-- ===== src/Helper/Fitting.antt =====
-- PredicateNodes finds nodes that pass the predicate, and no more than it looks for.
use k8s_simulator.Common.{
  ℕ, zero, suc, ◌+◌, ◌<◌, ◌≡◌, refl, ◌∙◌, inl, inr, Bool, true, false, Bool-cases, none, some,
  Option-cases, List, [], ◌∷◌, ◌++◌, arith, ℤ, pos, ◌≤ℤ◌, ltb_ℤ, ltb_ℤ_iff, All, length,
  length-append, get_elem?, if◌then◌else◌, Dict,
}
use Prim.Native.Nat.{◌%◌}
use k8s_simulator.Common.Runs.{done, Ends, Ends-done, Ends-bind, Ends-if}
use k8s_simulator.Task.{TaskInfo}
use k8s_simulator.Node.{NodeInfo}
use k8s_simulator.Helper.{ServerOption, calculate_num_of_feasible_nodes_to_find}
use k8s_simulator.Helper.Predicates.{
  PredicateHelper, PredicateFn, CheckState, known_error, check_node, check_nodes, predicate_nodes,
}

All-snoc :
    {A : Type 0} (Q : A → Type 0) (xs : List A) (y : A) → All Q xs → Q y → All Q (xs ++ y ∷ [])
All-snoc Q [] y h q = (q, tt)
All-snoc Q (x ∷ xs) y h q = (h.0, All-snoc Q xs y h.1 q)

length-snoc : {A : Type 0} (xs : List A) (y : A) → length (xs ++ y ∷ []) ≡ suc (length xs)
length-snoc xs y = length-append xs (y ∷ []) ∙ omega arith

get_elem?-below :
    {A : Type 0} (xs : List A) (i : ℕ) → i < length xs → (x : A) × (get_elem? xs i ≡ some x)
get_elem?-below [] i h = absurd (omega arith)
get_elem?-below (x ∷ xs) zero h = (x, refl)
get_elem?-below (x ∷ xs) (suc i) h = get_elem?-below xs i (omega arith)

module _ (fn : PredicateFn) (task : TaskInfo)
    (total : (n : NodeInfo) → Ends (λ err. fn task n ≡ done err) (fn task n)) where
  -- The nodes found so far.
  abbrev pub IsFitting : ℤ → CheckState → Type 0
  IsFitting limit st =
      (pos (length st.predicate_nodes) ≤ℤ limit)
      × All (λ n. fn task n ≡ done none) st.predicate_nodes

  check_node-IsFitting :
      (limit : ℤ) (before : Bool) (node : NodeInfo) (st : CheckState)
      → IsFitting limit st
      → Ends
          (λ (r : CheckState × Bool). IsFitting limit r.0)
          (check_node fn task limit before node st)
  unfolding check_node
  check_node-IsFitting limit before node st h = elim (Option-cases (known_error before node st)) [
    | inl e ↦
        rw (check_node, e)
          (Ends-bind (total node) λ err ran. elim (Option-cases err) [
            | inl f ↦ rw f (found_or_full limit before node st h (rw f at ran))
            | inr (err', f) ↦ rw f (Ends-done _ h)
          ])
    | inr (err, e) ↦ rw (check_node, e) (Ends-done _ h)
  ]
    where
      found_or_full :
          (limit : ℤ) (before : Bool) (node : NodeInfo) (st : CheckState)
          → IsFitting limit st
          → fn task node ≡ done none
          → Ends
              (λ (r : CheckState × Bool). IsFitting limit r.0)
              (done (
                if ltb_ℤ limit (pos (suc (length st.predicate_nodes)))
                then (st, false)
                else (record st { predicate_nodes = st.predicate_nodes ++ node ∷ [] }, true)))
      found_or_full limit before node st h ran =
          elim (Bool-cases (ltb_ℤ limit (pos (suc (length st.predicate_nodes))))) [
            | inl full ↦ rw full (Ends-done _ h)
            | inr room ↦ rw room (
                Ends-done _ (
                  ground (
                    arith,
                    ltb_ℤ_iff limit (pos (suc (length st.predicate_nodes))),
                    length-snoc st.predicate_nodes node,
                  ),
                  All-snoc _ st.predicate_nodes node h.1 ran,
                ))
          ]

  check_nodes-IsFitting :
      (limit : ℤ) (before : Bool) (node : NodeInfo) (nodes : List NodeInfo) (start k : ℕ)
      (st : CheckState)
      → IsFitting limit st
      → Ends (IsFitting limit) (check_nodes fn task limit before (node ∷ nodes) start k st)
  unfolding check_nodes
  check_nodes-IsFitting limit before node nodes start zero st h = Ends-done _ h
  check_nodes-IsFitting limit before node nodes start (suc k) st h =
      let i = (start + st.processed_nodes) % length (node ∷ nodes) in
      let (n, e) = get_elem?-below (node ∷ nodes) i (omega arith) in
      rw e (
        Ends-bind (check_node-IsFitting limit before n _ h) λ (st', more) h'.
          elim (Bool-cases more) [
            | inl goes_on ↦
                rw goes_on (check_nodes-IsFitting limit before node nodes start k st' h')
            | inr ends ↦ rw ends (Ends-done _ h')
          ])

  -- The number to find is not negative if MinNodesToFind is not.
  limit_nonneg :
      (opts : ServerOption) (n : ℕ)
      → pos 0 ≤ℤ opts.min_nodes_to_find
      → pos 0 ≤ℤ calculate_num_of_feasible_nodes_to_find opts n
  unfolding calculate_num_of_feasible_nodes_to_find
  limit_nonneg opts n h = ground arith

  -- If MinNodesToFind is not negative and the predicate ends, PredicateNodes ends. Every node that it returns
  -- passes the predicate, and they are no more than the number of nodes to find.
  pub predicate_nodes-IsFitting :
      (opts : ServerOption) (nodes : List NodeInfo) (ph : PredicateHelper)
      → pos 0 ≤ℤ opts.min_nodes_to_find
      → Ends
          (λ (r : List NodeInfo × Dict ℕ × PredicateHelper).
            (pos (length r.0) ≤ℤ calculate_num_of_feasible_nodes_to_find opts (length nodes))
            × All (λ n. fn task n ≡ done none) r.0)
          (predicate_nodes opts fn task nodes ph)
  unfolding predicate_nodes
  predicate_nodes-IsFitting opts [] ph h = Ends-done _ (limit_nonneg opts 0 h, tt)
  predicate_nodes-IsFitting opts (n ∷ ns) ph h =
      let some_limit = limit_nonneg opts (length (n ∷ ns)) h in
      Ends-if (ltb_ℤ (calculate_num_of_feasible_nodes_to_find opts (length (n ∷ ns))) (pos 0))
        (λ negative. absurd (
          ground (
            arith,
            ltb_ℤ_iff (calculate_num_of_feasible_nodes_to_find opts (length (n ∷ ns))) (pos 0),
          )))
        λ ok.
          Ends-bind (check_nodes-IsFitting _ _ n ns _ _ _ (some_limit, tt)) λ st f. Ends-done _ f
