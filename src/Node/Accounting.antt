-- ===== src/Node/Accounting.antt =====
-- The books of a node: idle, used, releasing and pipelined resources against its tasks.

use k8s_simulator.Common.{ℕ, ◌≡◌, some, ◌+ℤ◌, lookup, Distinct}
use k8s_simulator.Resource.{get}
use k8s_simulator.Resource.Exact.{IsRequest}
use k8s_simulator.Task.{TaskInfo}
use k8s_simulator.Node.{NodeInfo}
use k8s_simulator.Task.Totals.{holds, is_releasing, is_pipelined, total}

-- What the four resource vectors of a node owe to its tasks, in every dimension.
pub record IsAccounted (ni : NodeInfo) : Type 0 where
  pub distinct : Distinct ni.tasks
  pub requests : (k : ℕ) (t : TaskInfo) → lookup k ni.tasks ≡ some t → IsRequest t.resreq
  pub idle_eq : (n : ℕ) → get ni.idle n +ℤ total holds n ni.tasks ≡ get ni.allocatable n
  pub used_eq : (n : ℕ) → get ni.used n ≡ total holds n ni.tasks
  pub releasing_eq : (n : ℕ) → get ni.releasing_res n ≡ total is_releasing n ni.tasks
  pub pipelined_eq : (n : ℕ) → get ni.pipelined_res n ≡ total is_pipelined n ni.tasks
