-- ===== src/Preempt/Rounds.antt =====
-- pkg/scheduler/actions/preempt/preempt.go: the loops of Execute over the pending tasks of a job that wants
-- more, and what becomes of their statements.
use k8s_simulator.Common.{
  ℕ, zero, suc, Bool, true, false, not, ◌||◌, some, List, [], ◌∷◌, Dict, if◌then◌else◌,
}
use k8s_simulator.Common.Runs.{Run, done, fault, panic, cut_off, of_option, ◌>>=◌}
use k8s_simulator.Task.{TaskInfo, pending}
use k8s_simulator.Job.{JobInfo, bucket}
use k8s_simulator.Session.Ballot.{job_starving, job_pipelined}
use k8s_simulator.Queue.{PriorityQueue, new_priority_queue, pop, empty}
use k8s_simulator.Helper.Predicates.{PredicateHelper}
use k8s_simulator.Statement.{SessionState}
use k8s_simulator.Statement.Operations.{StatementState, discard}
use k8s_simulator.Statement.Commit.{Cluster, commit}
use k8s_simulator.Allocate.{AllocateSession, sorted_by, job_now, task_order, push_job}
use k8s_simulator.Allocate.Tasks.{session_of}
use k8s_simulator.Allocate.Rounds.{push_tasks}
use k8s_simulator.Preempt.{of_same_job, of_other_job, preempt}

-- The variables of the loop over a job's tasks.
pub record Turn (P : Type 0) : Type 0 where
  pub stmt : StatementState P
  pub tasks : PriorityQueue TaskInfo
  pub helper : PredicateHelper
  pub assigned : Bool

unfoldable pub tasks_in : Dict TaskInfo → List TaskInfo
tasks_in [] = []
tasks_in ((k, t) ∷ d) = t ∷ tasks_in d

module _ {P : Type 0} where
  -- preemptorTasks of a job
  unfoldable pub preemptor_tasks :
      AllocateSession P → SessionState P → JobInfo → Run (PriorityQueue TaskInfo)
  preemptor_tasks env ssn j =
      push_tasks env ssn (tasks_in (bucket pending (job_now ssn j).task_status_index))
        (new_priority_queue (some (task_order env ssn)))

  -- Preemption between jobs: the tasks of one job, until it does not starve.
  unfoldable pub preempt_others : ℕ → AllocateSession P → JobInfo → Turn P → Run (Turn P)
  preempt_others zero env j v = fault cut_off
  preempt_others (suc k) env j v =
      let ssn = v.stmt.ssn in
      let step : Run (Turn P) = do
        (top, rest) ← of_option panic (pop (sorted_by (task_order env ssn) v.tasks))
        t ← of_option panic top
        (stmt', preempted, helper') ← preempt env v.stmt t (of_other_job j t) v.helper
        preempt_others k env j (record {
          stmt = stmt';
          tasks = rest;
          helper = helper';
          assigned = preempted || v.assigned;
        })
      in if not (job_starving (session_of env ssn) (job_now ssn j))
        then done v
        else if empty v.tasks
        then done v
        else step

  -- The statement is committed if the job is pipelined, and the job waits in its queue again if a task was
  -- assigned; otherwise the statement is discarded.
  unfoldable pub settle_preemptor :
      AllocateSession P
      → Cluster
      → PriorityQueue JobInfo
      → JobInfo
      → Turn P
      → Run (Cluster × SessionState P × PriorityQueue JobInfo)
  settle_preemptor env cluster preemptors j v =
      let ssn = v.stmt.ssn in
      if job_pipelined (session_of env ssn) (job_now ssn j)
      then (do
        (cluster', ssn') ← of_option panic (commit env.now cluster ssn v.stmt.operations)
        preemptors' ← if v.assigned then push_job env ssn' preemptors j else done preemptors
        done (cluster', ssn', preemptors'))
      else (do
        ssn' ← of_option panic (discard env.handlers env.now ssn v.stmt.operations)
        done (cluster, ssn', preemptors))

  -- Preemption between tasks within a job, each in a statement of its own.
  unfoldable pub preempt_within :
      ℕ
      → AllocateSession P
      → Cluster
      → SessionState P
      → PriorityQueue TaskInfo
      → PredicateHelper
      → Run (Cluster × SessionState P × PriorityQueue TaskInfo × PredicateHelper)
  preempt_within zero env cluster ssn tasks helper = fault cut_off
  preempt_within (suc k) env cluster ssn tasks helper =
      let step : Run (Cluster × SessionState P × PriorityQueue TaskInfo × PredicateHelper) = do
        (top, rest) ← of_option panic (pop (sorted_by (task_order env ssn) tasks))
        t ← of_option panic top
        (stmt, assigned, helper') ←
            preempt env (record { operations = []; ssn = ssn }) t (λ s task. of_same_job t task)
              helper
        (cluster', ssn') ← of_option panic (commit env.now cluster stmt.ssn stmt.operations)
        elim assigned [
          | true ↦ preempt_within k env cluster' ssn' rest helper'
          | false ↦ done (cluster', ssn', rest, helper')
        ]
      in if empty tasks then done (cluster, ssn, tasks, helper) else step
