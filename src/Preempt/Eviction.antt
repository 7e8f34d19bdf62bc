-- ===== src/Preempt/Eviction.antt =====
-- The preemption as a whole is a sequence of attempts, each with evictions that the plugins were asked for.
use k8s_simulator.Common.{
  ℕ, subst, ◌≡◌, refl, sym, inl, inr, ◌⊎◌, false, Bool, true, Option-cases, Option, some, none,
  List, [], ◌∷◌, All, pos, ◌≤ℤ◌, lookup,
}
use k8s_simulator.Common.Runs.{done, Ends-done, Stops, Stops-done, Stops-map, Stops-bind}
use k8s_simulator.Resource.Exact.{IsRequest}
use k8s_simulator.Task.{TaskInfo}
use k8s_simulator.Node.{NodeInfo}
use k8s_simulator.Session.{EvictableFn}
use k8s_simulator.Session.Victims.{listed}
use k8s_simulator.Session.Eviction.{preemptable_tasks}
use k8s_simulator.Session.Ballot.{predicate_fn}
use k8s_simulator.Helper.{get_node_list, validate_victims}
use k8s_simulator.Helper.Predicates.{PredicateHelper}
use k8s_simulator.Helper.Fitting.{predicate_nodes-IsFitting}
use k8s_simulator.Statement.{SessionState}
use k8s_simulator.Statement.Operations.{StatementState}
use k8s_simulator.Allocate.{AllocateSession, task_now}
use k8s_simulator.Allocate.Tasks.{session_of}
use k8s_simulator.Allocate.Steps.{IsOpen, no_node_or, overdrawn_or, task_now-IsRequest}
use k8s_simulator.Preempt.{preemptees_of, fits_node_now, try_node, try_nodes, preempt}
use k8s_simulator.Preempt.Victims.{KeepsRequests, preemptees_of-All, preemptable_tasks-All}
use k8s_simulator.Preempt.Replacement.{
  Evictions, Attempts, exhausted, passes, assigns, not_yet, IsReplaced, replace_on-IsReplaced,
}
use k8s_simulator.Helper.Scoring.{prioritize_nodes, sort_nodes}
use k8s_simulator.Session.Scores.{batch_node_order_fn, node_order_map_fn, node_order_reduce_fn}

passed : {o : Option ℕ} → done o ≡ done none → o ≡ none
passed e = cc

passed_all :
    (test : NodeInfo → Option ℕ) (ns : List NodeInfo)
    → All (λ n. done (test n) ≡ done none) ns
    → All (λ n. test n ≡ none) ns
passed_all test [] h = tt
passed_all test (n ∷ ns) h = (passed h.0, passed_all test ns h.1)

module _ {P : Type 0} (env : AllocateSession P) where
  -- The nodes in the order in which PrioritizeNodes and SortNodes put them for a task.
  abbrev pub ranked : SessionState P → TaskInfo → List NodeInfo → List NodeInfo
  ranked ssn task nodes =
      let s = session_of env ssn in
      sort_nodes (
        prioritize_nodes (batch_node_order_fn s) (node_order_map_fn s) (node_order_reduce_fn s) task
          nodes)

module _ {P : Type 0} (env : AllocateSession P) (filter : SessionState P → TaskInfo → Bool)
    (preemptor : TaskInfo) (May : SessionState P → NodeInfo → ℕ → Type 0)
    (may : (asked : SessionState P) (node : NodeInfo) (u : ℕ)
      → listed u (
          preemptable_tasks
            (session_of env asked)
            preemptor
            (preemptees_of (filter asked) node.tasks))
        ≡ true
      → May asked node u)
    (q : IsRequest preemptor.resreq)
    (keep : (p : P)
      → All (λ (e : ℕ × EvictableFn). KeepsRequests e.1) (env.session p).preemptable_fns) where
  -- A turn at a node: nothing is done there, or the preemptor takes the place of victims.
  abbrev IsTurn : ℕ → StatementState P → StatementState P × Bool → Type 0
  IsTurn host s r =
      (node : NodeInfo) × (lookup host s.ssn.nodes ≡ some node)
      × (((r.1 ≡ false) × (r.0 ≡ s) × IsOpen r.0)
          ⊎ IsReplaced env preemptor May s.ssn node host s r)

  try_node-IsTurn :
      (host : ℕ) (s : StatementState P)
      → IsOpen s
      → Stops (IsTurn host s) (try_node env filter preemptor host s)
  unfolding try_node session_of
  try_node-IsTurn host s h = Stops-bind (inl (no_node_or (lookup host s.ssn.nodes))) λ node e.
      let session = session_of env s.ssn in
      let among = preemptees_of (filter s.ssn) node.tasks in
      let victims = preemptable_tasks session preemptor among in
      let books = (h.0.kept host node e).accounted in
      let whole =
        preemptable_tasks-All session preemptor among (keep s.ssn.plugins)
          (preemptees_of-All (filter s.ssn) node.tasks books.distinct books.requests) in
      Stops-bind (inl (overdrawn_or (validate_victims preemptor node victims))) λ err v.
        elim (Option-cases err) [
          | inl enough ↦ rw enough (
              Stops-map
                (replace_on-IsReplaced env preemptor May s.ssn node host s victims (may s.ssn node)
                  h q whole)
                λ r replaced. (node, e, inr replaced))
          | inr (e', short) ↦ rw short (Stops-done _ (node, e, inl (refl, refl, h)))
        ]

  -- The attempts, and the open statement that they leave.
  abbrev IsTried : StatementState P → List NodeInfo → StatementState P × Bool → Type 0
  IsTried s ns r = IsOpen r.0 × Attempts env preemptor May s ns r.0 r.1

  abbrev EvictionsAt : StatementState P → NodeInfo → NodeInfo → StatementState P → Type 0
  EvictionsAt s node n r = Evictions env preemptor May s.ssn node n.name s r

  try_nodes-IsTried :
      (ns : List NodeInfo) (s : StatementState P)
      → IsOpen s
      → Stops (IsTried s ns) (try_nodes env filter preemptor ns s)
  unfolding try_nodes
  try_nodes-IsTried [] s h = Stops-done _ (h, exhausted)
  try_nodes-IsTried (n ∷ ns) s h =
      Stops-bind (try_node-IsTurn n.name s h) λ (r', assigned) (node, e, turn). elim turn [
        | inl (not_taken, same, o) ↦ rw not_taken (
            Stops-map (try_nodes-IsTried ns r' o) λ r'' (o'', rest). (
              o'',
              passes node e (subst (λ x. EvictionsAt s node n x) (sym same) not_yet) (inl same)
                  rest,
            ))
        | inr (o, r, gone, inl (taken, fits, placed)) ↦
            rw taken (Stops-done _ (o, assigns node e gone fits placed))
        | inr (o, r, gone, inr (not_taken, same, no_fit)) ↦ rw not_taken (
            Stops-map (try_nodes-IsTried ns r' o) λ r'' (o'', rest). (
              o'',
              passes node e (subst (λ x. EvictionsAt s node n x) (sym same) gone)
                  (inr (
                    subst
                      (λ (x : StatementState P). fits_node_now x.ssn preemptor n.name ≡ done false)
                      (sym same) no_fit))
                  rest,
            ))
      ]

module _ {P : Type 0} (env : AllocateSession P) (May : SessionState P → NodeInfo → ℕ → Type 0)
    (t : TaskInfo) (stmt : StatementState P) where
  -- What preempt leaves: an open statement, after attempts on the ranked nodes that pass the predicates.
  abbrev pub IsTraced : StatementState P × Bool × PredicateHelper → Type 0
  IsTraced (stmt', assigned, helper') =
      let preemptor = task_now stmt.ssn t in
      IsOpen stmt'
      × (nodes : List NodeInfo) × All
          (λ n. predicate_fn (session_of env stmt.ssn) preemptor n ≡ none) nodes
      × Attempts env preemptor May stmt (ranked env stmt.ssn preemptor nodes) stmt' assigned

module _ {P : Type 0} (env : AllocateSession P) (filter : SessionState P → TaskInfo → Bool)
    (t : TaskInfo) (stmt : StatementState P) (May : SessionState P → NodeInfo → ℕ → Type 0)
    (may : (asked : SessionState P) (node : NodeInfo) (u : ℕ)
      → listed u (
          preemptable_tasks
            (session_of env asked)
            (task_now stmt.ssn t)
            (preemptees_of (filter asked) node.tasks))
        ≡ true
      → May asked node u) where
  pub preempt-IsTraced :
      (helper : PredicateHelper)
      → pos 0 ≤ℤ env.opts.min_nodes_to_find
      → ((p : P) → All (λ (e : ℕ × EvictableFn). KeepsRequests e.1) (env.session p).preemptable_fns)
      → IsRequest t.resreq
      → IsOpen stmt
      → Stops (IsTraced env May t stmt) (preempt env stmt t filter helper)
  unfolding preempt
  preempt-IsTraced helper sane keep q h =
      let preemptor = task_now stmt.ssn t in
      let ssn = session_of env stmt.ssn in
      Stops-bind
        (inl (
          predicate_nodes-IsFitting (λ task node. done (predicate_fn ssn task node)) preemptor
            (λ n. Ends-done _ refl) env.opts (get_node_list stmt.ssn.nodes env.node_list) helper
            sane))
        λ (nodes, fe, helper') f.
          Stops-bind
            (try_nodes-IsTried env filter preemptor May may (task_now-IsRequest stmt.ssn t h.0 q)
              keep (ranked env stmt.ssn preemptor nodes) stmt h)
            λ (stmt', assigned) (o, tried).
              Stops-done _ (o, nodes, passed_all (predicate_fn ssn preemptor) nodes f.1, tried)
