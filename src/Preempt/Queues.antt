-- ===== src/Preempt/Queues.antt =====
-- pkg/scheduler/actions/preempt/preempt.go: the loop of Execute over the jobs of a queue that want more.
use k8s_simulator.Common.{ℕ, zero, suc, false, [], length, Dict, lookup, insert, if◌then◌else◌}
use k8s_simulator.Common.Runs.{Run, done, fault, panic, cut_off, of_option, ◌>>=◌}
use k8s_simulator.Task.{TaskInfo}
use k8s_simulator.Job.{JobInfo}
use k8s_simulator.Queue.{PriorityQueue, pop, empty}
use k8s_simulator.Helper.Predicates.{PredicateHelper}
use k8s_simulator.Statement.{SessionState}
use k8s_simulator.Statement.Commit.{Cluster}
use k8s_simulator.Allocate.{AllocateSession, sorted_by, job_order}
use k8s_simulator.Preempt.Rounds.{preempt_others, settle_preemptor}

-- What the loop changes, but for the queue itself. preemptor_queues is preemptorTasks.
pub record Contest (P : Type 0) : Type 0 where
  pub cluster : Cluster
  pub ssn : SessionState P
  pub preemptor_queues : Dict (PriorityQueue TaskInfo)
  pub helper : PredicateHelper

module _ {P : Type 0} where
  unfoldable pub preempt_in_queue :
      ℕ → AllocateSession P → Contest P → PriorityQueue JobInfo → Run (Contest P)
  preempt_in_queue zero env st preemptors = fault cut_off
  preempt_in_queue (suc k) env st preemptors =
      let step : Run (Contest P) = do
        (top, rest) ← of_option panic (pop (sorted_by (job_order env st.ssn) preemptors))
        j ← of_option panic top
        tasks ← of_option panic (lookup j.uid st.preemptor_queues)
        v ← preempt_others (suc (length tasks.items)) env j (record {
          stmt = record { operations = []; ssn = st.ssn };
          tasks = tasks;
          helper = st.helper;
          assigned = false;
        })
        (cluster', ssn', preemptors') ← settle_preemptor env st.cluster rest j v
        preempt_in_queue k env
            (record {
              cluster = cluster';
              ssn = ssn';
              preemptor_queues = insert j.uid v.tasks st.preemptor_queues;
              helper = v.helper;
            })
            preemptors'
      in if empty preemptors then done st else step
