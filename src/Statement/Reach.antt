-- ===== src/Statement/Reach.antt =====
-- What holds in every session that the operations reach, and after Discard.
use k8s_simulator.Common.{
  ℕ, ◌≡◌, sym, subst, Option, some, List, [], ◌∷◌, All, ℤ, ◌>>=◌, Returns, Returns-some,
  Returns-bind, Ensures-Returns,
}
use k8s_simulator.Resource.Exact.{IsRequest}
use k8s_simulator.Task.{TaskInfo, generate_last_tx_context, clear_last_tx_context}
use k8s_simulator.Statement.{EventHandler, SessionState, Failure, allocate_v2, unallocate_v2}
use k8s_simulator.Statement.Operations.{
  OperationName, Operation, evict_op, pipeline_op, allocate_op, evict_task, unevict, pipeline_task,
  assign, undo, discard,
}
use k8s_simulator.Statement.Commit.{bind_in_session}
use k8s_simulator.Statement.Binding.{bind_in_session-IsSound}
use k8s_simulator.Statement.Soundness.{IsSound}
use k8s_simulator.Statement.Assignment.{assign-IsSound, generated, cleared}
use k8s_simulator.Statement.Steps.{
  evict_task-IsSound, unevict-IsSound, pipeline_task-IsSound, allocate_v2-IsSound,
  unallocate_v2-IsSound,
}

module _ {P : Type 0} (handlers : List (EventHandler P)) (now : ℤ) where
  -- A statement changes its session by one of these calls, each for a task with a whole request: in Discard
  -- and Commit these are also assignments to the task of an operation.
  pub data Step (s s' : SessionState P) : Type 0 where
    allocates :
        (t t' : TaskInfo) (host : ℕ) (e : Option Failure)
        → IsRequest t.resreq
        → allocate_v2 handlers now s t host ≡ some ((s', t'), e)
        → Step s s'
    pipelines :
        (t t' : TaskInfo) (host : ℕ)
        → IsRequest t.resreq
        → pipeline_task handlers now s t host ≡ some (s', t')
        → Step s s'
    evicts :
        (t t' : TaskInfo)
        → IsRequest t.resreq
        → evict_task handlers now s t ≡ some (s', t')
        → Step s s'
    unevicts :
        (t t' : TaskInfo)
        → IsRequest t.resreq
        → unevict handlers now s t ≡ some (s', t')
        → Step s s'
    withdraws :
        (t t' : TaskInfo)
        → IsRequest t.resreq
        → unallocate_v2 handlers now s t ≡ some (s', t')
        → Step s s'
    generates :
        (t : TaskInfo)
        → IsRequest t.resreq
        → s' ≡ (assign generate_last_tx_context s t).0
        → Step s s'
    clears :
        (t : TaskInfo) → IsRequest t.resreq → s' ≡ (assign clear_last_tx_context s t).0 → Step s s'
    binds :
        (t : TaskInfo) (e : Option Failure)
        → IsRequest t.resreq
        → bind_in_session now s t ≡ some (s', e)
        → Step s s'

  pub data Reach (s : SessionState P) : SessionState P → Type 0 where
    here : Reach s s
    next : {r r' : SessionState P} → Reach s r → Step r r' → Reach s r'

  Step-IsSound : (s s' : SessionState P) → IsSound s → Step s s' → IsSound s'
  Step-IsSound s s' h (allocates t t' host e q run) =
      (Ensures-Returns (allocate_v2-IsSound now handlers s t h q host) _ run).0
  Step-IsSound s s' h (pipelines t t' host q run) =
      (Ensures-Returns (pipeline_task-IsSound now handlers s t h q host) _ run).0
  Step-IsSound s s' h (evicts t t' q run) = (evict_task-IsSound now handlers s t h q _ run).0
  Step-IsSound s s' h (unevicts t t' q run) = unevict-IsSound now handlers s t h q _ run
  Step-IsSound s s' h (withdraws t t' q run) =
      Ensures-Returns (unallocate_v2-IsSound now handlers s t h q) _ run
  Step-IsSound s s' h (generates t q same) =
      subst IsSound (sym same) (assign-IsSound generate_last_tx_context generated s t h q).0
  Step-IsSound s s' h (clears t q same) =
      subst IsSound (sym same) (assign-IsSound clear_last_tx_context cleared s t h q).0
  Step-IsSound s s' h (binds t e q run) =
      Ensures-Returns (bind_in_session-IsSound now s t h q) _ run

  -- If the books of all jobs and all nodes of a session are kept and every node has its node object and stands
  -- under its name, so it is in every session that is reached from it by calls for tasks with whole requests
  -- that do not panic: AllocateV2, Pipeline, Evict, unevict, unallocateV2, the change of status in Commit,
  -- and the assignments of Discard and Commit to a task's last transaction.
  pub Reach-IsSound : (s s' : SessionState P) → IsSound s → Reach s s' → IsSound s'
  Reach-IsSound s s' h here = h
  Reach-IsSound s s' h (next {r} before step) = Step-IsSound r s' (Reach-IsSound s r h before) step

  generated-IsSound :
      (ssn : SessionState P) (t : TaskInfo)
      → IsSound ssn
      → IsRequest t.resreq
      → IsSound (assign generate_last_tx_context ssn t).0
        × IsRequest (assign generate_last_tx_context ssn t).1.resreq
  generated-IsSound = assign-IsSound generate_last_tx_context generated

  taken_back :
      (s : SessionState P) (t : TaskInfo)
      → IsSound s
      → IsRequest t.resreq
      → Returns IsSound (do (s', u) ← unallocate_v2 handlers now s t; some s')
  taken_back s t a b =
      Returns-bind (unallocate_v2-IsSound now handlers s t a b) λ r a'. Returns-some _ a'

  undo-IsSound :
      (ssn : SessionState P) (name : OperationName) (t : TaskInfo)
      → IsSound ssn
      → IsRequest t.resreq
      → Returns IsSound (undo handlers now ssn (record { name = name; task = t }))
  unfolding undo
  undo-IsSound ssn evict_op t h q = Returns-some _ (generated-IsSound ssn t h q).0
  undo-IsSound ssn pipeline_op t h q =
      let (h', q') = generated-IsSound ssn t h q in taken_back _ _ h' q'
  undo-IsSound ssn allocate_op t h q =
      let (h', q') = generated-IsSound ssn t h q in taken_back _ _ h' q'

  -- Discard of operations whose tasks have whole requests, in a session with all books kept, does not panic
  -- and leaves a session with all books kept.
  pub discard-IsSound :
      (ssn : SessionState P) (ops : List Operation)
      → IsSound ssn
      → All (λ (op : Operation). IsRequest op.task.resreq) ops
      → Returns IsSound (discard handlers now ssn ops)
  unfolding discard
  discard-IsSound ssn [] h q = Returns-some ssn h
  discard-IsSound ssn (op ∷ ops) h q =
      Returns-bind (discard-IsSound ssn ops h q.1)
        λ ssn' h'. undo-IsSound ssn' op.name op.task h' q.0
