-- ===== src/Helper/Predicates.antt =====
-- pkg/scheduler/util/predicate_helper.go: the nodes that a task fits. The work is done by one worker, which
-- takes the nodes in their order and stops where the context is cancelled.
use k8s_simulator.Common.{
  ℕ, zero, suc, ◌+◌, List, [], ◌∷◌, ◌++◌, Bool, true, false, Option, none, some, ℤ, pos, ltb_ℤ,
  Dict, lookup, insert, length, get_elem?, if◌then◌else◌,
}
use Prim.Native.Nat.{◌%◌}
use k8s_simulator.Common.Runs.{Run, done, fault, panic, of_option, ◌>>=◌}
use k8s_simulator.Task.{TaskInfo}
use k8s_simulator.Node.{NodeInfo}
use k8s_simulator.Helper.{ServerOption, calculate_num_of_feasible_nodes_to_find}

-- predicateHelper with the global lastProcessedNodeIndex: the errors of a node, by the task's job and
-- template (taskGroupID) and by the node's name.
pub record PredicateHelper : Type 0 where
  pub task_predicate_error_cache : Dict (Dict (Dict ℕ))
  pub last_processed_node_index : ℕ

abbrev pub PredicateFn : Type 0
PredicateFn = TaskInfo → NodeInfo → Run (Option ℕ)

-- The variables that checkNode shares: predicateNodes, the fit errors, nodeErrorCache and its being stored, and
-- processedNodes.
pub record CheckState : Type 0 where
  pub predicate_nodes : List NodeInfo
  pub fit_errors : Dict ℕ
  pub node_error_cache : Dict ℕ
  pub stored : Bool
  pub processed_nodes : ℕ

-- An error of a node that was recorded before.
unfoldable pub known_error : Bool → NodeInfo → CheckState → Option ℕ
known_error failed_before node st =
    if failed_before then lookup node.name st.node_error_cache else none

-- checkNode, and whether the work goes on.
unfoldable pub check_node :
    PredicateFn → TaskInfo → ℤ → Bool → NodeInfo → CheckState → Run (CheckState × Bool)
check_node fn task limit failed_before node st = elim (known_error failed_before node st) [
  | some e ↦ done (record st { fit_errors = insert node.name e st.fit_errors }, true)
  | none ↦ do
    err ← fn task node
    elim err [
      | some e ↦ done (
        record st {
          node_error_cache = insert node.name e st.node_error_cache;
          stored = true;
          fit_errors = insert node.name e st.fit_errors;
        },
        true,
      )
      | none ↦ done (
          if ltb_ℤ limit (pos (suc (length st.predicate_nodes)))
          then (st, false)
          else (record st { predicate_nodes = st.predicate_nodes ++ node ∷ [] }, true))
    ]
]

unfoldable pub check_nodes :
    PredicateFn → TaskInfo → ℤ → Bool → List NodeInfo → ℕ → ℕ → CheckState → Run CheckState
check_nodes fn task limit failed_before nodes start zero st = done st
check_nodes fn task limit failed_before nodes start (suc k) st = do
  node ← of_option panic (get_elem? nodes ((start + st.processed_nodes) % length nodes))
  (st', more) ←
      check_node fn task limit failed_before node
        (record st { processed_nodes = suc st.processed_nodes })
  elim more [ true ↦ check_nodes fn task limit failed_before nodes start k st' | false ↦ done st' ]

unfoldable pub group_errors : PredicateHelper → TaskInfo → Option (Dict ℕ)
group_errors ph task = elim (lookup task.job ph.task_predicate_error_cache) [
  | none ↦ none
  | some m ↦ lookup task.pod.task_spec m
]

unfoldable pub store_errors : PredicateHelper → TaskInfo → Dict ℕ → Dict (Dict (Dict ℕ))
store_errors ph task errors =
    let m : Dict (Dict ℕ) = elim (lookup task.job ph.task_predicate_error_cache) [
      | none ↦ []
      | some m ↦ m
    ] in
    insert task.job (insert task.pod.task_spec errors m) ph.task_predicate_error_cache

-- PredicateNodes. `make` panics at a negative length.
unfoldable pub predicate_nodes :
    ServerOption
    → PredicateFn
    → TaskInfo
    → List NodeInfo
    → PredicateHelper
    → Run (List NodeInfo × Dict ℕ × PredicateHelper)
predicate_nodes opts fn task [] ph = done ([], [], ph)
predicate_nodes opts fn task (n ∷ ns) ph =
    let nodes = n ∷ ns in
    let limit = calculate_num_of_feasible_nodes_to_find opts (length nodes) in
    let cached = group_errors ph task in
    let first : CheckState = record {
      predicate_nodes = [];
      fit_errors = [];
      node_error_cache = elim cached [ none ↦ [] | some m ↦ m ];
      stored = false;
      processed_nodes = 0;
    } in
    if ltb_ℤ limit (pos 0) then fault panic else (do
      st ←
          check_nodes fn task limit (elim cached [ none ↦ false | some m ↦ true ]) nodes
            ph.last_processed_node_index (length nodes) first
      done (
        st.predicate_nodes,
        st.fit_errors,
        record {
          task_predicate_error_cache =
              if st.stored
              then store_errors ph task st.node_error_cache
              else ph.task_predicate_error_cache;
          last_processed_node_index =
              (ph.last_processed_node_index + st.processed_nodes) % length nodes;
        },
      ))
