-- ===== src/Helper/Ranking.antt =====
-- SortNodes lists the nodes that PrioritizeNodes was given by their scores.
use k8s_simulator.Common.{
  ℕ, ◌≡◌, refl, subst, inl, inr, false, Bool-cases, none, some, List, [], ◌∷◌, ◌++◌, All, arith, ℤ,
  ◌+ℤ◌, ltb_ℤ, eqb_ℤ, Dict,
}
use mathlib.Core.List.{append-nil, perm_middle, Perm}
use mathlib.Core.List.Perm
use k8s_simulator.Task.{TaskInfo}
use k8s_simulator.Node.{NodeInfo}
use k8s_simulator.Session.{NodeScores}
use k8s_simulator.Helper.Scoring.{
  BatchNodeOrderFn, NodeOrderMapFn, NodeOrderReduceFn, score_nodes, score_in, add_to_group,
  group_nodes, prioritize_nodes, insert_group, sort_groups, join_groups, sort_nodes,
}
use k8s_simulator.Helper.Grouping.{add_to_group-Perm, sort_groups-Perm}

-- The groups from the highest score to the lowest.
abbrev Descends : NodeScores → Type 0
Descends [] = Unit
Descends (g ∷ groups) =
    All (λ (h : ℤ × List NodeInfo). ltb_ℤ g.0 h.0 ≡ false) groups × Descends groups

All-insert_group :
    (Q : ℤ × List NodeInfo → Type 0) (s : ℤ) (ns : List NodeInfo) (groups : NodeScores)
    → Q (s, ns)
    → All Q groups
    → All Q (insert_group (s, ns) groups)
unfolding insert_group
All-insert_group Q s ns [] q h = (q, tt)
All-insert_group Q s ns ((r, ms) ∷ groups) q h = elim (Bool-cases (ltb_ℤ s r)) [
  | inl below ↦ rw (insert_group, below) (h.0, All-insert_group Q s ns groups q h.1)
  | inr above ↦ rw (insert_group, above) (q, h)
]

lower :
    (s r : ℤ) (groups : NodeScores)
    → ltb_ℤ s r ≡ false
    → All (λ (h : ℤ × List NodeInfo). ltb_ℤ r h.0 ≡ false) groups
    → All (λ (h : ℤ × List NodeInfo). ltb_ℤ s h.0 ≡ false) groups
lower s r [] e h = tt
lower s r ((q, ns) ∷ groups) e h = let first = h.0 in (ground arith, lower s r groups e h.1)

insert_group-Descends :
    (s : ℤ) (ns : List NodeInfo) (groups : NodeScores)
    → Descends groups
    → Descends (insert_group (s, ns) groups)
unfolding insert_group
insert_group-Descends s ns [] d = (tt, tt)
insert_group-Descends s ns ((r, ms) ∷ groups) d = elim (Bool-cases (ltb_ℤ s r)) [
  | inl below ↦
      rw (insert_group, below)
        (
          All-insert_group (λ (h : ℤ × List NodeInfo). ltb_ℤ r h.0 ≡ false) s ns groups
              (ground arith) d.0,
          insert_group-Descends s ns groups d.1,
        )
  | inr above ↦ rw (insert_group, above) ((above, lower s r groups above d.0), d)
]

sort_groups-Descends : (groups : NodeScores) → Descends (sort_groups groups)
unfolding sort_groups
sort_groups-Descends [] = tt
sort_groups-Descends ((s, ns) ∷ groups) =
    insert_group-Descends s ns (sort_groups groups) (sort_groups-Descends groups)

module _ (score : NodeInfo → ℤ) where
  -- No node is before one with a higher score.
  abbrev pub IsRanked : List NodeInfo → Type 0
  IsRanked [] = Unit
  IsRanked (n ∷ ns) = All (λ m. ltb_ℤ (score n) (score m) ≡ false) ns × IsRanked ns

  -- Each group holds nodes of its score.
  abbrev IsOfScore : ℤ × List NodeInfo → Type 0
  IsOfScore g = All (λ n. score n ≡ g.0) g.1

  group_of :
      (s : ℤ) (ns : List NodeInfo) (n : NodeInfo)
      → IsOfScore (s, ns)
      → score n ≡ s
      → IsOfScore (s, ns ++ n ∷ [])
  group_of s [] n h e = (e, tt)
  group_of s (m ∷ ns) n h e = (h.0, group_of s ns n h.1 e)

  add_to_group-IsOfScore :
      (n : NodeInfo) (groups : NodeScores)
      → All IsOfScore groups
      → All IsOfScore (add_to_group (score n) n groups)
  unfolding add_to_group
  add_to_group-IsOfScore n [] h = ((refl, tt), tt)
  add_to_group-IsOfScore n ((r, ns) ∷ groups) h = elim (Bool-cases (eqb_ℤ r (score n))) [
    | inl same ↦ rw (add_to_group, same) (group_of r ns n h.0 (ground arith), h.1)
    | inr other ↦ rw (add_to_group, other) (h.0, add_to_group-IsOfScore n groups h.1)
  ]

  group_nodes-IsOfScore :
      (nodes : List NodeInfo) (groups : NodeScores)
      → All IsOfScore groups
      → All IsOfScore (group_nodes score nodes groups)
  unfolding group_nodes
  group_nodes-IsOfScore [] groups h = h
  group_nodes-IsOfScore (n ∷ ns) groups h =
      group_nodes-IsOfScore ns _ (add_to_group-IsOfScore n groups h)

  group_nodes-Perm :
      (nodes : List NodeInfo) (groups : NodeScores)
      → Perm (join_groups (group_nodes score nodes groups)) (nodes ++ join_groups groups)
  unfolding group_nodes
  group_nodes-Perm [] groups = Perm.refl (join_groups groups)
  group_nodes-Perm (n ∷ ns) groups =
      Perm.trans (group_nodes-Perm ns (add_to_group (score n) n groups)) (
        Perm.trans (Perm.append_left ns (add_to_group-Perm (score n) n groups))
          (perm_middle ns (join_groups groups)))

  sort_groups-IsOfScore :
      (groups : NodeScores) → All IsOfScore groups → All IsOfScore (sort_groups groups)
  unfolding sort_groups
  sort_groups-IsOfScore [] h = tt
  sort_groups-IsOfScore ((s, ns) ∷ groups) h =
      All-insert_group IsOfScore s ns (sort_groups groups) h.0 (sort_groups-IsOfScore groups h.1)

  -- What follows a group comes after all nodes of the group.
  join-IsRanked :
      (s : ℤ) (ns rest : List NodeInfo)
      → IsOfScore (s, ns)
      → All (λ m. ltb_ℤ s (score m) ≡ false) rest
      → IsRanked rest
      → IsRanked (ns ++ rest)
  join-IsRanked s [] rest h below r = r
  join-IsRanked s (n ∷ ns) rest h below r =
      (after n ns rest h.0 h.1 below, join-IsRanked s ns rest h.1 below r)
    where
      after :
          (n : NodeInfo) (ns rest : List NodeInfo)
          → score n ≡ s
          → All (λ m. score m ≡ s) ns
          → All (λ m. ltb_ℤ s (score m) ≡ false) rest
          → All (λ m. ltb_ℤ (score n) (score m) ≡ false) (ns ++ rest)
      after n [] [] e h below = tt
      after n [] (m ∷ ms) e h below = (rw e below.0, after n [] ms e tt below.1)
      after n (m ∷ ms) rest e h below =
          let same = h.0 in (ground arith, after n ms rest e h.1 below)

  lower_nodes :
      (s r : ℤ) (ns rest : List NodeInfo)
      → IsOfScore (r, ns)
      → ltb_ℤ s r ≡ false
      → All (λ m. ltb_ℤ s (score m) ≡ false) rest
      → All (λ m. ltb_ℤ s (score m) ≡ false) (ns ++ rest)
  lower_nodes s r [] rest h e below = below
  lower_nodes s r (n ∷ ns) rest h e below =
      let same = h.0 in (ground arith, lower_nodes s r ns rest h.1 e below)

  all_lower :
      (s : ℤ) (groups : NodeScores)
      → All IsOfScore groups
      → All (λ (h : ℤ × List NodeInfo). ltb_ℤ s h.0 ≡ false) groups
      → All (λ m. ltb_ℤ s (score m) ≡ false) (join_groups groups)
  unfolding join_groups
  all_lower s [] h d = tt
  all_lower s ((r, ns) ∷ groups) h d =
      lower_nodes s r ns (join_groups groups) h.0 d.0 (all_lower s groups h.1 d.1)

  join_groups-IsRanked :
      (groups : NodeScores) → All IsOfScore groups → Descends groups → IsRanked (join_groups groups)
  unfolding join_groups
  join_groups-IsRanked [] h d = tt
  join_groups-IsRanked ((s, ns) ∷ groups) h d =
      join-IsRanked s ns (join_groups groups) h.0 (all_lower s groups h.1 d.0)
        (join_groups-IsRanked groups h.1 d.1)

module _ (batch_fn : BatchNodeOrderFn) (map_fn : NodeOrderMapFn) (reduce_fn : NodeOrderReduceFn)
    (task : TaskInfo) (nodes : List NodeInfo) where
  -- The sum of what the plugins give to a node: the reduced score, the order score and the batch score.
  abbrev pub total_score : NodeInfo → ℤ
  total_score n =
      let m = score_nodes map_fn task nodes (record { plugin_scores = []; order_scores = [] }) in
      (score_in n.name (reduce_fn task m.plugin_scores).0 +ℤ score_in n.name m.order_scores)
      +ℤ score_in n.name (elim (batch_fn task nodes).0 [ none ↦ [] | some d ↦ d ])

  -- If the reduce and the batch functions report no error, SortNodes of what PrioritizeNodes returns lists
  -- every node that PrioritizeNodes was given as often as it was given, and none before one with a higher
  -- total score.
  pub sort_nodes-prioritize_nodes :
      ((m : Dict (List (ℕ × ℤ))) → (reduce_fn task m).1 ≡ none)
      → (batch_fn task nodes).1 ≡ none
      → Perm (sort_nodes (prioritize_nodes batch_fn map_fn reduce_fn task nodes)) nodes
        × IsRanked total_score (sort_nodes (prioritize_nodes batch_fn map_fn reduce_fn task nodes))
  unfolding prioritize_nodes sort_nodes join_groups
  sort_nodes-prioritize_nodes r b =
      let groups = group_nodes total_score nodes [] in
      let of_score = group_nodes-IsOfScore total_score nodes [] tt in
      let m = score_nodes map_fn task nodes (record { plugin_scores = []; order_scores = [] }) in
      let quiet = r m.plugin_scores in
      rw (prioritize_nodes, quiet, b)
        (
          Perm.trans (sort_groups-Perm groups) (
              subst (λ l. Perm (join_groups groups) l) (append-nil nodes)
                (group_nodes-Perm total_score nodes [])),
          join_groups-IsRanked total_score (sort_groups groups)
              (sort_groups-IsOfScore total_score groups of_score) (sort_groups-Descends groups),
        )
