-- ===== src/Statement.antt =====
-- pkg/scheduler/framework/statement.go: placing a task in a session, and taking that back.
-- The job's two maps and the caller hold one task: an assignment to it is a write to the job too.
use k8s_simulator.Common.{
  ℕ, zero, suc, ◌+◌, ◌-◌, ◌*◌, ◌≤◌, ◌<◌, ◌≡◌, refl, sym, ap, ◌∙◌, subst, ◌≢◌, ◌↔◌, ◌⊎◌, inl, inr,
  Bool, true, false, not, ◌&&◌, ◌||◌, Option, none, some, List, [], ◌∷◌, ◌++◌, map, arith, ltb, leb,
  ◌==◌, if◌then◌else◌, ==_refl, ==_ne, ==_iff, Bool-cases, Option-cases, length, count_if, All,
  length-append, ℤ, pos, negsuc, pos_part, neg_part, ◌+ℤ◌, ◌-ℤ◌, ◌*ℤ◌, ◌≤ℤ◌, ◌<ℤ◌, ltb_ℤ, eqb_ℤ,
  abs, min_ℤ, max_ℤ, +ℤ_parts, -ℤ_parts, eq_of_parts, int_laws, move_share, take_share,
  return_share, +ℤ-zero, -ℤ-zero, +ℤ_comm, +ℤ_assoc, +ℤ_cancel, ltb_ℤ_iff, eqb_ℤ_iff, Dict, lookup,
  insert, delete, Distinct, lookup-insert, lookup-delete, insert-Distinct, delete-Distinct,
  lookup-cons_old, lookup-cons_self, delete-insert, lookup-insert_self,
}
use k8s_simulator.Task.{Status, pending, allocated, pipelined, empty_name, TaskInfo, set_node_name}
use k8s_simulator.Job.{JobInfo, add_task_index, update_task_status}
use k8s_simulator.Node.{NodeInfo, Error, add_task, remove_task}
pub mod Sharing
pub mod Withdrawal
pub mod Undo
pub mod Nodes
pub mod Operations
pub mod Commit
pub mod Assignment
pub mod Binding
pub mod Soundness
pub mod Steps
pub mod Reach

-- An EventHandler: what it does to the state of its plugin, where it has the function.
pub record EventHandler (P : Type 0) : Type 0 where
  pub allocate_func : Option (P → TaskInfo → P)
  pub deallocate_func : Option (P → TaskInfo → P)

-- The part of a Session that a statement changes; `plugins` is the state of its plugins.
pub record SessionState (P : Type 0) : Type 0 where
  pub jobs : Dict JobInfo
  pub nodes : Dict NodeInfo
  pub plugins : P

pub data Failure : Type 0 where
  no_job no_task no_node : Failure
  node_error : Error → Failure

-- An assignment to a task shows in the job that holds it.
unfoldable pub write_task : JobInfo → TaskInfo → JobInfo
write_task ji t = record ji {
  tasks = insert t.uid t ji.tasks;
  task_status_index = add_task_index t ji.task_status_index;
}

unfoldable pub write_back : Dict JobInfo → Option JobInfo → TaskInfo → Dict JobInfo
write_back jobs none t = jobs
write_back jobs (some ji) t = insert t.job (write_task ji t) jobs

module _ {P : Type 0} where
  unfoldable pub notify_allocate : List (EventHandler P) → TaskInfo → P → P
  notify_allocate [] t p = p
  notify_allocate (eh ∷ ehs) t p =
      notify_allocate ehs t (elim eh.allocate_func [ none ↦ p | some f ↦ f p t ])

  unfoldable pub notify_deallocate : List (EventHandler P) → TaskInfo → P → P
  notify_deallocate [] t p = p
  notify_deallocate (eh ∷ ehs) t p =
      notify_deallocate ehs t (elim eh.deallocate_func [ none ↦ p | some f ↦ f p t ])

module _ {P : Type 0} (handlers : List (EventHandler P)) (now : ℤ) where
  -- The second half of AllocateV2: `task` has its new status and the node's name, and is in `job`.
  unfoldable pub place_task :
      SessionState P
      → JobInfo
      → TaskInfo
      → ℕ
      → Option ((SessionState P × TaskInfo) × Option Failure)
  place_task ssn job task hostname = elim (lookup hostname ssn.nodes) [
    | none ↦ some ((record ssn { jobs = insert task.job job ssn.jobs }, task), some no_node)
    | some node ↦ elim (add_task node task) [
      | none ↦ none
      | some ((node', task'), some e) ↦ some (
        (
          record ssn {
            jobs = insert task.job job ssn.jobs;
            nodes = insert hostname node' ssn.nodes;
          },
          task',
        ),
        some (node_error e),
      )
      | some ((node', task'), none) ↦ some (
        (
          record ssn {
            jobs = insert task.job (write_task job task') ssn.jobs;
            nodes = insert hostname node' ssn.nodes;
            plugins = notify_allocate handlers task' ssn.plugins;
          },
          task',
        ),
        none,
      )
    ]
  ]

  -- AllocateV2
  unfoldable pub allocate_v2 :
      SessionState P → TaskInfo → ℕ → Option ((SessionState P × TaskInfo) × Option Failure)
  allocate_v2 ssn task hostname = elim (lookup task.job ssn.jobs) [
    | none ↦ some ((ssn, task), some no_job)
    | some job ↦ elim (update_task_status now job task allocated) [
      | none ↦ none
      | some (job', task') ↦
          let named = set_node_name task' hostname in
          place_task ssn (write_task job' named) named hostname
    ]
  ]

  -- The second half of unallocateV2: a missing node is no error, nor is a missing job.
  unfoldable pub withdraw_task :
      SessionState P → Option JobInfo → TaskInfo → Option (SessionState P × TaskInfo)
  withdraw_task ssn job task =
      let cleared = set_node_name task empty_name in
      let jobs' = write_back ssn.jobs job cleared in
      let plugins' = notify_deallocate handlers task ssn.plugins in
      elim (lookup task.node_name ssn.nodes) [
        | none ↦ some (record ssn { jobs = jobs'; plugins = plugins' }, cleared)
        | some node ↦ elim (remove_task node task) [
          | none ↦ none
          | some node' ↦ some (
            record ssn {
              jobs = jobs';
              nodes = insert task.node_name node' ssn.nodes;
              plugins = plugins';
            },
            cleared,
          )
        ]
      ]

  -- unallocateV2, and unpipeline, which does the same
  unfoldable pub unallocate_v2 : SessionState P → TaskInfo → Option (SessionState P × TaskInfo)
  unallocate_v2 ssn task = elim (lookup task.job ssn.jobs) [
    | none ↦ withdraw_task ssn none task
    | some job ↦ elim (update_task_status now job task pending) [
      | none ↦ none
      | some (job', task') ↦ withdraw_task ssn (some job') task'
    ]
  ]
