-- ===== src/Session/Scores.antt =====
-- pkg/scheduler/framework/session_plugins.go: the scores of nodes and the plugins' choice of a node. A
-- plugin's function gives a score and an error, which is its code.
use k8s_simulator.Common.{
  ℕ, List, [], ◌∷◌, ◌++◌, Option, none, some, ℤ, pos, ◌+ℤ◌, ◌*ℤ◌, Dict, lookup, insert,
  if◌then◌else◌,
}
use k8s_simulator.Task.{TaskInfo}
use k8s_simulator.Node.{NodeInfo}
use k8s_simulator.Session.{PluginOption, Session, NodeScores, is_enabled, all_voters}

-- NodeOrderFn
unfoldable pub sum_scores :
    List (TaskInfo → NodeInfo → ℤ × Option ℕ) → TaskInfo → NodeInfo → ℤ → ℤ × Option ℕ
sum_scores [] task node total = (total, none)
sum_scores (f ∷ fs) task node total =
    let (score, err) = f task node in
    elim err [ some e ↦ (pos 0, some e) | none ↦ sum_scores fs task node (total +ℤ score) ]

unfoldable pub node_order_fn : Session → TaskInfo → NodeInfo → ℤ × Option ℕ
node_order_fn ssn task node =
    sum_scores (all_voters (λ p. p.enabled_node_order) ssn.node_order_fns ssn.tiers) task node
      (pos 0)

-- `priorityScore[nodeName] += score`
unfoldable pub add_score : ℕ → ℤ → Dict ℤ → Dict ℤ
add_score n score totals = elim (lookup n totals) [
  | none ↦ insert n score totals
  | some old ↦ insert n (old +ℤ score) totals
]

unfoldable pub add_scores : Dict ℤ → Dict ℤ → Dict ℤ
add_scores [] totals = totals
add_scores ((n, score) ∷ d) totals = add_scores d (add_score n score totals)

-- BatchNodeOrderFn, with no map beside an error
unfoldable pub batch_scores :
    List (TaskInfo → List NodeInfo → Dict ℤ × Option ℕ)
    → TaskInfo
    → List NodeInfo
    → Dict ℤ
    → Option (Dict ℤ) × Option ℕ
batch_scores [] task nodes totals = (some totals, none)
batch_scores (f ∷ fs) task nodes totals =
    let (scores, err) = f task nodes in
    elim err [
      | some e ↦ (none, some e)
      | none ↦ batch_scores fs task nodes (add_scores scores totals)
    ]

unfoldable pub batch_node_order_fn : Session → TaskInfo → List NodeInfo → Option (Dict ℤ) × Option ℕ
batch_node_order_fn ssn task nodes =
    batch_scores (all_voters (λ p. p.enabled_node_order) ssn.batch_node_order_fns ssn.tiers) task
      nodes []

-- NodeOrderMapFn: the scores by plugin and the sum so far, which an error leaves as they are.
unfoldable pub map_score :
    Session → TaskInfo → NodeInfo → PluginOption → Dict ℤ → ℤ → Dict ℤ × ℤ × Option ℕ
map_score ssn task node p scores total =
    let mapped : ℤ → Dict ℤ × ℤ × Option ℕ = λ sum. elim (lookup p.name ssn.node_map_fns) [
      | none ↦ (scores, sum, none)
      | some f ↦
          let (score, err) = f task node in
          elim err [
            | some e ↦ (scores, sum, some e)
            | none ↦ (insert p.name score scores, sum, none)
          ]
    ] in
    elim (lookup p.name ssn.node_order_fns) [
      | none ↦ mapped total
      | some f ↦
          let (score, err) = f task node in
          elim err [ some e ↦ (scores, total, some e) | none ↦ mapped (total +ℤ score) ]
    ]

unfoldable pub map_scores :
    Session → TaskInfo → NodeInfo → List PluginOption → Dict ℤ → ℤ → Dict ℤ × ℤ × Option ℕ
map_scores ssn task node [] scores total = (scores, total, none)
map_scores ssn task node (p ∷ ps) scores total =
    if is_enabled p.enabled_node_order
    then (let (scores', total', err) = map_score ssn task node p scores total in
        elim err [
          | some e ↦ (scores', total', some e)
          | none ↦ map_scores ssn task node ps scores' total'
        ])
    else map_scores ssn task node ps scores total

-- The plugins of all tiers, in their order.
unfoldable pub all_plugins : List (List PluginOption) → List PluginOption
all_plugins [] = []
all_plugins (tier ∷ tiers) = tier ++ all_plugins tiers

unfoldable pub node_order_map_fn : Session → TaskInfo → NodeInfo → Dict ℤ × ℤ × Option ℕ
node_order_map_fn ssn task node = map_scores ssn task node (all_plugins ssn.tiers) [] (pos 0)

-- NodeOrderReduceFn: an int64 score is a float64 in thousandths.
unfoldable pub add_reduced : List (ℕ × ℤ) → Dict ℤ → Dict ℤ
add_reduced [] totals = totals
add_reduced ((n, score) ∷ l) totals = add_reduced l (add_score n (pos 1000 *ℤ score) totals)

unfoldable pub reduce_scores :
    Session → TaskInfo → List PluginOption → Dict (List (ℕ × ℤ)) → Dict ℤ → Dict ℤ × Option ℕ
reduce_scores ssn task [] lists totals = (totals, none)
reduce_scores ssn task (p ∷ ps) lists totals =
    let list : List (ℕ × ℤ) = elim (lookup p.name lists) [ none ↦ [] | some l ↦ l ] in
    if is_enabled p.enabled_node_order
    then elim (lookup p.name ssn.node_reduce_fns) [
      | none ↦ reduce_scores ssn task ps lists totals
      | some f ↦
          let (list', err) = f task list in
          elim err [
            | some e ↦ (totals, some e)
            | none ↦
                reduce_scores ssn task ps (insert p.name list' lists) (add_reduced list' totals)
          ]
    ]
    else reduce_scores ssn task ps lists totals

unfoldable pub node_order_reduce_fn : Session → TaskInfo → Dict (List (ℕ × ℤ)) → Dict ℤ × Option ℕ
node_order_reduce_fn ssn task lists = reduce_scores ssn task (all_plugins ssn.tiers) lists []

-- BestNodeFn
unfoldable pub first_node :
    List (TaskInfo → NodeScores → Option NodeInfo) → TaskInfo → NodeScores → Option NodeInfo
first_node [] task scores = none
first_node (f ∷ fs) task scores = elim (f task scores) [
  | none ↦ first_node fs task scores
  | some node ↦ some node
]

unfoldable pub best_node_fn : Session → TaskInfo → NodeScores → Option NodeInfo
best_node_fn ssn task scores =
    first_node (all_voters (λ p. p.enabled_best_node) ssn.best_node_fns ssn.tiers) task scores
