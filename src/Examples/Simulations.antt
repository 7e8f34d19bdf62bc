-- ===== src/Examples/Simulations.antt =====
-- Rounds of the simulation, and the theorems on them applied to a node with a running task.
use k8s_simulator.Common.{
  ℕ, ◌*◌, ◌-ℤ◌, insert, ◌≡◌, refl, sym, subst, none, some, [], ◌∷◌, true, not, ◌&&◌, arith, pos,
  ltb_ℤ, lookup, Distinct, Dict, Returns,
}
use k8s_simulator.Task.{TaskInfo, binding, new_task_info, set_status, clone_task, get_task_status}
use k8s_simulator.Job.{JobInfo, new_job_info, add_all, add_task_info}
use k8s_simulator.Resource.{clone, copy_map}
use k8s_simulator.Node.{NodeInfo, remove_task, store, use_idle}
use k8s_simulator.Node.Admission.{added}
use k8s_simulator.Node.Charge.{charged}
use k8s_simulator.Statement.Nodes.{IsNodeOf}
use k8s_simulator.Simulation.{
  give_back, is_running, has_failed, complete_on_node, fail_on_node, select_task, count_down_tasks,
  count_down_task, is_created,
}
use k8s_simulator.Statement.Commit.{is_binding}
use k8s_simulator.Simulation.Endings.{give_back-remove_task}
use k8s_simulator.Simulation.Records.{has_task, KeepsTasks}
use k8s_simulator.Simulation.Rounds.{left, AreToVisit, complete_on_node-fail_on_node}
use k8s_simulator.Examples.Data.{task, node_object}
use k8s_simulator.Examples.Nodes.{busy_node, placed, busy_node-IsAccounted}
use k8s_simulator.Examples.Jobs.{pair_job}

-- Two tasks whose containers are being created, and a longer wait.
abbrev creating : ℕ → TaskInfo
creating n = record (set_status (task n) binding) { ctn_creation_count_down = pos (1000 * n) }

first_created :
    select_task none (count_down_tasks ((1, creating 1) ∷ (2, creating 2) ∷ []))
    ≡ some (1, count_down_task (creating 1))
unfolding select_task count_down_tasks count_down_task is_created is_binding ◌-ℤ◌
first_created = refl

busy_node-IsNodeOf : IsNodeOf 9 busy_node
unfolding added charged store use_idle
busy_node-IsNodeOf = record {
  accounted = busy_node-IsAccounted;
  object = node_object;
  has_object = refl;
  named = refl;
}

abbrev jobs : Dict JobInfo
jobs = (1, pair_job) ∷ []

lookup-one : (k i : ℕ) (u t : TaskInfo) → lookup i ((k, u) ∷ []) ≡ some t → (k ≡ i) × (u ≡ t)
unfolding lookup
lookup-one k i u t e = ground arith

busy_tasks : busy_node.tasks ≡ (1, placed) ∷ []
unfolding lookup is_running new_task_info added charged clone_task store get_task_status insert
    use_idle clone copy_map
busy_tasks = refl

only_task : (i : ℕ) (t : TaskInfo) → lookup i busy_node.tasks ≡ some t → (1 ≡ i) × (placed ≡ t)
only_task i t e = lookup-one 1 i placed t (subst (λ d. lookup i d ≡ some t) busy_tasks e)

busy_node-AreToVisit : AreToVisit busy_node.tasks jobs busy_node
unfolding lookup new_task_info new_job_info add_all add_task_info insert
busy_node-AreToVisit = record {
  distinct = subst (λ d. Distinct d) (sym busy_tasks) (refl, tt);
  keyed = λ i t e. let (key, same) = only_task i t e in subst (λ u. u.pod.key ≡ i) same key;
  there = λ i t e. e;
  recorded = λ i t e.
      let (key, same) = only_task i t e in subst (λ u. has_task jobs u.job u.uid ≡ true) same refl;
}

give_back-remove_task_example :
    (after : NodeInfo) × (remove_task busy_node placed ≡ some after)
    × (give_back busy_node placed ≡ some (record after { gpu_devices = busy_node.gpu_devices }))
    × IsNodeOf 9 (record after { gpu_devices = busy_node.gpu_devices })
unfolding lookup is_running new_task_info added charged clone_task store get_task_status insert
    use_idle clone copy_map
give_back-remove_task_example =
    give_back-remove_task 9 busy_node placed busy_node-IsNodeOf refl refl

complete_on_node-fail_on_node_example :
    Returns
      (λ (r : Dict JobInfo × NodeInfo).
        KeepsTasks jobs r.0
        × IsNodeOf 9 r.1
        × ((i : ℕ)
            → lookup i r.1.tasks
              ≡ left
                  (λ t. true && (is_running t.status && not (ltb_ℤ (pos 100) t.sim_end_timestamp)))
                  (lookup i busy_node.tasks)
                  (lookup i busy_node.tasks)))
      (complete_on_node (pos 100) (λ t. true) jobs busy_node)
    × Returns
        (λ (r : Dict JobInfo × NodeInfo).
          KeepsTasks jobs r.0
          × IsNodeOf 9 r.1
          × ((i : ℕ)
              → lookup i r.1.tasks
                ≡ left
                    (λ t. has_failed t.status)
                    (lookup i busy_node.tasks)
                    (lookup i busy_node.tasks)))
        (fail_on_node (pos 100) jobs busy_node)
complete_on_node-fail_on_node_example =
    complete_on_node-fail_on_node (pos 100) (λ t. true) 9 jobs busy_node busy_node-IsNodeOf
      busy_node-AreToVisit
