-- ===== src/Gang/Order.antt =====
-- The comparison of the gang plugin, as one of those that the session asks.
use k8s_simulator.Common.{arith, ◌-ℤ◌}
use k8s_simulator.Job.{JobInfo}
use k8s_simulator.Gang.{job_order_fn}
use k8s_simulator.Session.Precedence.{IsOpposite}

pub job_order_fn-IsOpposite : (l r : JobInfo) → IsOpposite l r job_order_fn
unfolding job_order_fn ◌-ℤ◌
job_order_fn-IsOpposite l r = ground arith
