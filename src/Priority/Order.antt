-- ===== src/Priority/Order.antt =====
-- The comparisons of the priority plugin.
use k8s_simulator.Common.{arith, ◌-ℤ◌, ltb_ℤ_iff}
use k8s_simulator.Priority.{task_order_fn, job_order_fn}
use k8s_simulator.Session.Ranking.{IsComparison}

-- The comparisons of jobs and of tasks keep the promises of a comparison.
pub job_order_fn-IsComparison : IsComparison job_order_fn
unfolding job_order_fn ◌-ℤ◌
job_order_fn-IsComparison = record {
  opposite =
      λ x y. ground (arith, ltb_ℤ_iff x.priority y.priority, ltb_ℤ_iff y.priority x.priority);
  trans = λ x y z p q. ground arith;
}

pub task_order_fn-IsComparison : IsComparison task_order_fn
unfolding task_order_fn ◌-ℤ◌
task_order_fn-IsComparison = record {
  opposite = λ x y. ground arith;
  trans = λ x y z p q. ground arith;
}
