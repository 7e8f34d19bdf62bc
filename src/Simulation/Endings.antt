-- ===== src/Simulation/Endings.antt =====
-- Tasks that end: what their node gets back.
use k8s_simulator.Common.{arith, ℕ, ◌≡◌, refl, ◌∙◌, Bool, true, ◌||◌, some, Dict, lookup, delete}
use k8s_simulator.Task.{Status, running, TaskInfo}
use k8s_simulator.Node.{NodeInfo, remove_task}
use k8s_simulator.Node.Accounting.{IsAccounted}
use k8s_simulator.Node.Discharge.{
  discharged, removed, removed-IsAccounted, accounted-IsCovered, remove_task-eq,
}
use k8s_simulator.Resource.{sub_unchecked, zero_default}
use k8s_simulator.Resource.Order.{less_equal, sub}
use k8s_simulator.Task.Gpu.{GpuDevice}
use k8s_simulator.Task.Totals.{holds}
use k8s_simulator.Task.{failed}
use k8s_simulator.Statement.Nodes.{IsNodeOf, kept-discharged_node}
use k8s_simulator.Simulation.{give_back, is_running, has_failed}

-- The statuses with which a task ends.
abbrev is_ending : Status → Bool
is_ending s = is_running s || has_failed s

-- A node with other GPU cards.
with_devices :
    (ni : NodeInfo) (g : Dict GpuDevice)
    → IsAccounted ni
    → IsAccounted (record ni { gpu_devices = g })
with_devices ni g a = record {
  distinct = a.distinct;
  requests = a.requests;
  idle_eq = a.idle_eq;
  used_eq = a.used_eq;
  releasing_eq = a.releasing_eq;
  pipelined_eq = a.pipelined_eq;
}

-- The simulator gives back what RemoveTask does, but for the GPU memory.
given :
    (ni : NodeInfo) (t : TaskInfo) (s : Status)
    → is_ending s ≡ true
    → sub ni.used t.resreq ≡ some (sub_unchecked ni.used t.resreq)
    → give_back ni t
      ≡ some (record (discharged ni t t.pod s) {
        gpu_devices = ni.gpu_devices;
        tasks = delete t.pod.key (discharged ni t t.pod s).tasks;
      })
unfolding give_back discharged is_running has_failed
given ni t running e f = rw f refl
given ni t failed e f = rw f refl
given ni t _ e f = cc

holds_ending : (s : Status) → is_ending s ≡ true → holds s ≡ true
unfolding is_running has_failed holds
holds_ending running e = refl
holds_ending failed e = refl
holds_ending _ e = cc

-- A task with the status Running or Failed that ends on a node which lists it, whose books are kept, has its
-- resources given back without a panic: the node is then the one that RemoveTask leaves, except that the
-- GPU memory of the task is still taken, and its books are kept.
pub give_back-remove_task :
    (k : ℕ) (ni : NodeInfo) (t : TaskInfo)
    → IsNodeOf k ni
    → lookup t.pod.key ni.tasks ≡ some t
    → is_running t.status || has_failed t.status ≡ true
    → (after : NodeInfo) × (remove_task ni t ≡ some after)
      × (give_back ni t ≡ some (record after { gpu_devices = ni.gpu_devices }))
      × IsNodeOf k (record after { gpu_devices = ni.gpu_devices })
unfolding removed sub
give_back-remove_task k ni t n there ending =
    let c = accounted-IsCovered ni t.pod.key t n.accounted there in
    let fits : less_equal t.resreq ni.used zero_default ≡ true =
      c.used_ok (holds_ending t.status ending) in
    let eq = remove_task-eq ni t n.object n.has_object n.accounted in
    let (node, name) = kept-discharged_node ni t t.pod t.status in
    (
      removed ni t t.pod,
      rw there at eq,
      given ni t t.status ending (rw fits refl),
      record {
        accounted =
            with_devices (removed ni t t.pod) ni.gpu_devices
              (removed-IsAccounted ni t n.object n.has_object n.accounted t there);
        object = n.object;
        has_object = node ∙ n.has_object;
        named = name ∙ n.named;
      },
    )

pub give_back-tasks :
    (ni : NodeInfo) (t : TaskInfo) (ni' : NodeInfo)
    → give_back ni t ≡ some ni'
    → ni'.tasks ≡ delete t.pod.key ni.tasks
unfolding give_back
give_back-tasks ni t ni' e = ground arith
