-- ===== src/Helper/Scoring.antt =====
-- pkg/scheduler/util/scheduler_helper.go: PrioritizeNodes, SortNodes. The workers of PrioritizeNodes take
-- the nodes in their order.
use k8s_simulator.Common.{
  ℕ, List, [], ◌∷◌, ◌++◌, Option, none, some, ℤ, pos, negsuc, ◌+ℤ◌, ltb_ℤ, eqb_ℤ, Dict, lookup,
  insert, if◌then◌else◌,
}
use Prim.Native.Nat.{◌/◌}
use k8s_simulator.Task.{TaskInfo}
use k8s_simulator.Node.{NodeInfo}
use k8s_simulator.Session.{NodeScores}

-- The functions of a session that it is given.
abbrev pub BatchNodeOrderFn : Type 0
BatchNodeOrderFn = TaskInfo → List NodeInfo → Option (Dict ℤ) × Option ℕ

abbrev pub NodeOrderMapFn : Type 0
NodeOrderMapFn = TaskInfo → NodeInfo → Dict ℤ × ℤ × Option ℕ

abbrev pub NodeOrderReduceFn : Type 0
NodeOrderReduceFn = TaskInfo → Dict (List (ℕ × ℤ)) → Dict ℤ × Option ℕ

-- `int64(math.Floor(score))` of a score in thousandths
unfoldable pub floor_score : ℤ → ℤ
floor_score (pos n) = pos (n / 1000)
floor_score (negsuc n) = negsuc (n / 1000)

-- pluginNodeScoreMap and nodeOrderScoreMap
pub record ScoreMaps : Type 0 where
  pub plugin_scores : Dict (List (ℕ × ℤ))
  pub order_scores : Dict ℤ

unfoldable pub append_scores : ℕ → Dict ℤ → Dict (List (ℕ × ℤ)) → Dict (List (ℕ × ℤ))
append_scores name [] m = m
append_scores name ((plugin, score) ∷ d) m =
    let list : List (ℕ × ℤ) = elim (lookup plugin m) [ none ↦ [] | some l ↦ l ] in
    append_scores name d (insert plugin (list ++ (name, floor_score score) ∷ []) m)

-- scoreNode; a node whose score fails is left out.
unfoldable pub score_node : NodeOrderMapFn → TaskInfo → NodeInfo → ScoreMaps → ScoreMaps
score_node map_fn task node m =
    let (map_scores, order_score, err) = map_fn task node in
    elim err [
      | some e ↦ m
      | none ↦ record {
        plugin_scores = append_scores node.name map_scores m.plugin_scores;
        order_scores = insert node.name order_score m.order_scores;
      }
    ]

unfoldable pub score_nodes : NodeOrderMapFn → TaskInfo → List NodeInfo → ScoreMaps → ScoreMaps
score_nodes map_fn task [] m = m
score_nodes map_fn task (n ∷ ns) m = score_nodes map_fn task ns (score_node map_fn task n m)

unfoldable pub score_in : ℕ → Dict ℤ → ℤ
score_in name d = elim (lookup name d) [ none ↦ pos 0 | some s ↦ s ]

-- `nodeScores[score] = append(nodeScores[score], node)`
unfoldable pub add_to_group : ℤ → NodeInfo → NodeScores → NodeScores
add_to_group score node [] = (score, node ∷ []) ∷ []
add_to_group score node ((s, ns) ∷ groups) =
    if eqb_ℤ s score
    then (s, ns ++ node ∷ []) ∷ groups
    else (s, ns) ∷ add_to_group score node groups

unfoldable pub group_nodes : (NodeInfo → ℤ) → List NodeInfo → NodeScores → NodeScores
group_nodes score [] groups = groups
group_nodes score (n ∷ ns) groups = group_nodes score ns (add_to_group (score n) n groups)

-- PrioritizeNodes; an error gives no scores at all. A nil map reads as an empty one.
unfoldable pub prioritize_nodes :
    BatchNodeOrderFn → NodeOrderMapFn → NodeOrderReduceFn → TaskInfo → List NodeInfo → NodeScores
prioritize_nodes batch_fn map_fn reduce_fn task nodes =
    let m = score_nodes map_fn task nodes (record { plugin_scores = []; order_scores = [] }) in
    let (reduced, reduce_err) = reduce_fn task m.plugin_scores in
    let (batch, batch_err) = batch_fn task nodes in
    let batch_scores : Dict ℤ = elim batch [ none ↦ [] | some d ↦ d ] in
    elim reduce_err [
      | some e ↦ []
      | none ↦ elim batch_err [
        | some e ↦ []
        | none ↦
            group_nodes
              (λ n.
                (score_in n.name reduced +ℤ score_in n.name m.order_scores)
                +ℤ score_in n.name batch_scores)
              nodes []
      ]
    ]

-- SortNodes: the groups from the highest score to the lowest.
unfoldable pub insert_group : ℤ × List NodeInfo → NodeScores → NodeScores
insert_group (s, ns) [] = (s, ns) ∷ []
insert_group (s, ns) ((r, ms) ∷ groups) =
    if ltb_ℤ s r then (r, ms) ∷ insert_group (s, ns) groups else (s, ns) ∷ (r, ms) ∷ groups

unfoldable pub sort_groups : NodeScores → NodeScores
sort_groups [] = []
sort_groups (g ∷ groups) = insert_group g (sort_groups groups)

unfoldable pub join_groups : NodeScores → List NodeInfo
join_groups [] = []
join_groups ((s, ns) ∷ groups) = ns ++ join_groups groups

unfoldable pub sort_nodes : NodeScores → List NodeInfo
sort_nodes groups = join_groups (sort_groups groups)
