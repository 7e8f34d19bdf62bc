-- ===== src/Preempt/Chosen.antt =====
-- The eviction of the tasks that the plugins choose by themselves.
use k8s_simulator.Common.{◌≡◌, refl, inl, Option, none, some, List, [], ◌∷◌, All}
use k8s_simulator.Common.Runs.{
  panic, Ends-of_option, Stops, Stops-done, Stops-bind, Stops-of_option,
}
use k8s_simulator.Task.{TaskInfo, clone_task}
use k8s_simulator.Job.Copy.{clone-IsRequest}
use k8s_simulator.Session.Eviction.{victim_tasks}
use k8s_simulator.Statement.{SessionState}
use k8s_simulator.Statement.Operations.{StatementState}
use k8s_simulator.Statement.Commit.{Cluster}
use k8s_simulator.Statement.Soundness.{IsSound}
use k8s_simulator.Statement.Binding.{as_session, commit-AreSound}
use k8s_simulator.Allocate.{AllocateSession}
use k8s_simulator.Allocate.Tasks.{session_of}
use k8s_simulator.Allocate.Steps.{IsOpen}
use k8s_simulator.Preempt.{evict_all, evict_victim_tasks}
use k8s_simulator.Preempt.Victims.{HasRequest}
use k8s_simulator.Preempt.Replacement.{evict-IsOpen}

module _ {P : Type 0} (env : AllocateSession P) where
  evict_all-IsOpen :
      (victims : List TaskInfo) (stmt : StatementState P)
      → All HasRequest victims
      → IsOpen stmt
      → Stops IsOpen (evict_all env victims stmt)
  unfolding evict_all
  evict_all-IsOpen [] stmt w h = Stops-done _ h
  evict_all-IsOpen (t ∷ ts) stmt w h =
      Stops-bind
        (Stops-of_option _ (evict-IsOpen env stmt (clone_task t) h (clone-IsRequest t w.0)))
        λ stmt' h'. evict_all-IsOpen ts stmt' w.1 h'

  chosen-All :
      (o : Option (List TaskInfo))
      → ((victims : List TaskInfo) → o ≡ some victims → All HasRequest victims)
      → All HasRequest (elim o [ none ↦ [] | some victims ↦ victims ])
  chosen-All none w = tt
  chosen-All (some victims) w = w victims refl

  -- If the victims that the plugins choose have whole requests, victimTasks stops at a panic, or it is done and
  -- keeps the books of the cluster and of the session.
  pub evict_victim_tasks-AreSound :
      (cluster : Cluster) (ssn : SessionState P)
      → ((victims : List TaskInfo)
          → victim_tasks (session_of env ssn) ≡ some victims
          → All HasRequest victims)
      → IsSound (as_session cluster)
      → IsSound ssn
      → Stops
          (λ (r : Cluster × SessionState P). IsSound (as_session r.0) × IsSound r.1)
          (evict_victim_tasks env cluster ssn)
  unfolding evict_victim_tasks
  evict_victim_tasks-AreSound cluster ssn w c s =
      Stops-bind
        (evict_all-IsOpen _ (record { operations = []; ssn = ssn })
          (chosen-All (victim_tasks (session_of env ssn)) w) (s, tt))
        λ stmt h. inl (
          Ends-of_option panic (commit-AreSound env.now cluster stmt.ssn stmt.operations c h.0 h.1))
