-- ===== src/Examples/Reaching.antt =====
-- A session that an allocation reaches, and Discard in it.
use k8s_simulator.Common.{
  ℕ, ◌≡◌, refl, sym, subst, none, List, [], ◌∷◌, arith, pos, lookup, Returns,
}
use k8s_simulator.Resource.Exact.{IsRequest}
use k8s_simulator.Task.{new_task_info}
use k8s_simulator.Statement.Operations.{Operation, allocate_op, pipeline_op, discard}
use k8s_simulator.Statement.Soundness.{IsSound}
use k8s_simulator.Job.Books.{IsBooked}
use k8s_simulator.Statement.Nodes.{IsNodeOf}
use k8s_simulator.Statement.Reach.{Reach, Reach-IsSound, discard-IsSound, here, next, allocates}
use k8s_simulator.Examples.Data.{
  resource-IsRequest, task, node_object, free_node, free_node-IsAccounted,
}
use k8s_simulator.Examples.Jobs.{pair_job, pair_job-IsBooked}
use k8s_simulator.Examples.Statements.{ssn, handlers, outcome, result_of, allocated_once}

pub free_node-IsNodeOf : IsNodeOf 9 free_node
free_node-IsNodeOf = record {
  accounted = free_node-IsAccounted;
  object = node_object;
  has_object = refl;
  named = refl;
}

pub ssn-IsSound : IsSound ssn
unfolding lookup
ssn-IsSound = record {
  booked = λ k job e.
      let same : job ≡ pair_job = ground arith in subst IsBooked (sym same) pair_job-IsBooked;
  kept = λ k ni e.
      let same : ni ≡ free_node = ground arith in
      let key : k ≡ 9 = ground arith in
      subst (λ h. IsNodeOf h ni) (sym key) (subst (IsNodeOf 9) (sym same) free_node-IsNodeOf);
}

pub task-IsRequest : (n : ℕ) → IsRequest (task n).resreq
unfolding new_task_info
task-IsRequest n = resource-IsRequest 2 5 1

pub reached : Reach handlers (pos 50) ssn (result_of outcome).0
reached =
    next here (allocates (task 1) (result_of outcome).1 9 none (task-IsRequest 1) allocated_once)

Reach-IsSound_example : IsSound (result_of outcome).0
Reach-IsSound_example =
    Reach-IsSound handlers (pos 50) ssn (result_of outcome).0 ssn-IsSound reached

abbrev operations : List Operation
operations =
    record { name = allocate_op; task = task 1 } ∷ record { name = pipeline_op; task = task 2 } ∷ []

discard-IsSound_example : Returns IsSound (discard handlers (pos 50) ssn operations)
discard-IsSound_example =
    discard-IsSound handlers (pos 50) ssn operations ssn-IsSound
      (task-IsRequest 1, (task-IsRequest 2, tt))
