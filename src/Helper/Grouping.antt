-- ===== src/Helper/Grouping.antt =====
-- Grouping nodes by their scores and sorting the groups.
use k8s_simulator.Common.{sym, inl, inr, Bool-cases, List, [], ◌∷◌, ◌++◌, ℤ, ltb_ℤ, eqb_ℤ}
use mathlib.Core.List.{append-nil, append_assoc, perm_middle, Perm}
use mathlib.Core.List.Perm
use k8s_simulator.Node.{NodeInfo}
use k8s_simulator.Session.{NodeScores}
use k8s_simulator.Helper.Scoring.{add_to_group, insert_group, sort_groups, join_groups}

-- Grouping and sorting lose and double no node.
pub add_to_group-Perm :
    (s : ℤ) (n : NodeInfo) (groups : NodeScores)
    → Perm (join_groups (add_to_group s n groups)) (n ∷ join_groups groups)
unfolding add_to_group join_groups
add_to_group-Perm s n [] = Perm.refl (n ∷ [])
add_to_group-Perm s n ((r, ns) ∷ groups) = elim (Bool-cases (eqb_ℤ r s)) [
  | inl same ↦
      rw (add_to_group, same, append_assoc ns (n ∷ []) (join_groups groups))
        (perm_middle ns (join_groups groups))
  | inr other ↦
      rw (add_to_group, other)
        (Perm.trans (Perm.append_left ns (add_to_group-Perm s n groups))
          (perm_middle ns (join_groups groups)))
]

swapped : (ns ms : List NodeInfo) → Perm (ns ++ ms) (ms ++ ns)
swapped [] ms = rw (append-nil ms) (Perm.refl ms)
swapped (n ∷ ns) ms = Perm.trans (Perm.cons n (swapped ns ms)) (Perm.symm (perm_middle ms ns))

insert_group-Perm :
    (s : ℤ) (ns : List NodeInfo) (groups : NodeScores)
    → Perm (join_groups (insert_group (s, ns) groups)) (ns ++ join_groups groups)
unfolding insert_group join_groups
insert_group-Perm s ns [] = Perm.refl (ns ++ [])
insert_group-Perm s ns ((r, ms) ∷ groups) = elim (Bool-cases (ltb_ℤ s r)) [
  | inl below ↦
      rw (insert_group, below)
        (Perm.trans (Perm.append_left ms (insert_group-Perm s ns groups)) (
          rw
            (
              sym (append_assoc ms ns (join_groups groups)),
              sym (append_assoc ns ms (join_groups groups)),
            )
            (Perm.append_right (join_groups groups) (swapped ms ns))))
  | inr above ↦ rw (insert_group, above) (Perm.refl (ns ++ (ms ++ join_groups groups)))
]

pub sort_groups-Perm :
    (groups : NodeScores) → Perm (join_groups (sort_groups groups)) (join_groups groups)
unfolding sort_groups join_groups
sort_groups-Perm [] = Perm.refl []
sort_groups-Perm ((s, ns) ∷ groups) =
    Perm.trans (insert_group-Perm s ns (sort_groups groups))
      (Perm.append_left ns (sort_groups-Perm groups))
