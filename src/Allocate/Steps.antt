-- ===== src/Allocate/Steps.antt =====
-- The parts of the allocate action that look for a node and place a task.
use k8s_simulator.Common.{
  ℕ, ◌≡◌, refl, inl, inr, Option, none, some, Option-cases, List, [], ◌∷◌, ◌++◌, All, Dict, lookup,
  Returns, Returns-some, Returns-bind,
}
use k8s_simulator.Common.Runs.{
  Run, done, overdrawn, no_node, panic, of_option, Ends, Ends-done, Ends-bind, Ends-of_option,
  Ends-if,
}
use k8s_simulator.Resource.{zero_default}
use k8s_simulator.Resource.Order.{less_equal}
use k8s_simulator.Resource.Exact.{IsRequest}
use k8s_simulator.Task.{TaskInfo}
use k8s_simulator.Job.{JobInfo}
use k8s_simulator.Node.{NodeInfo, future_idle}
use k8s_simulator.Session.{Session}
use k8s_simulator.Statement.{SessionState, Failure}
use k8s_simulator.Statement.Operations.{Operation, StatementState, allocate, pipeline, allocate_op}
use k8s_simulator.Statement.Soundness.{IsSound, insert_job-IsSound}
use k8s_simulator.Statement.Steps.{allocate_v2-IsSound, pipeline_task-IsSound}
use k8s_simulator.Job.Books.{IsBooked}
use k8s_simulator.Allocate.{
  AllocateSession, job_now, task_now, fits_future, resource_predicate, fits_node, candidate_nodes,
}
use k8s_simulator.Allocate.Tasks.{record_fit_errors, allocate_on, pipeline_on, place_on}

-- The calls that give nothing where the assertion of FutureIdle fails, or where there is no node.
pub overdrawn_or : {A : Type 0} (o : Option A) → Ends (λ a. o ≡ some a) (of_option overdrawn o)
overdrawn_or none = inr (inl refl)
overdrawn_or (some a) = Ends-done a refl

pub no_node_or : {A : Type 0} (o : Option A) → Ends (λ a. o ≡ some a) (of_option no_node o)
no_node_or none = inr (inr refl)
no_node_or (some a) = Ends-done a refl

pub with_run : {A : Type 0} {Q : A → Type 0} (r : Run A) → Ends Q r → Ends (λ a. r ≡ done a) r
with_run r (inl (a, e, q)) = inl (a, e, e)
with_run r (inr f) = inr f

pub fits_future-Ends : (t : TaskInfo) (n : NodeInfo) → Ends (λ b. Unit {0}) (fits_future t n)
unfolding fits_future
fits_future-Ends t n = Ends-bind (overdrawn_or (future_idle n)) λ idle e. Ends-done _ tt

pub resource_predicate-Ends :
    (ssn : Session) (t : TaskInfo) (n : NodeInfo)
    → Ends (λ err. resource_predicate ssn t n ≡ done err) (resource_predicate ssn t n)
unfolding resource_predicate
resource_predicate-Ends ssn t n =
    with_run (resource_predicate ssn t n)
      (Ends-bind {Q = λ err. Unit {0}} (fits_future-Ends t n) λ fits u. Ends-done _ tt)

fits_node-Ends : (t : TaskInfo) (n : NodeInfo) → Ends (λ b. Unit {0}) (fits_node t n)
unfolding fits_node
fits_node-Ends t n =
    Ends-if (less_equal t.init_resreq n.idle zero_default) (λ e. Ends-done _ tt)
      λ e. fits_future-Ends t n

pub candidate_nodes-Ends :
    (t : TaskInfo) (ns : List NodeInfo) → Ends (λ ms. Unit {0}) (candidate_nodes t ns)
unfolding candidate_nodes
candidate_nodes-Ends t [] = Ends-done _ tt
candidate_nodes-Ends t (n ∷ ns) =
    Ends-bind (fits_node-Ends t n)
      λ fits u. Ends-bind (candidate_nodes-Ends t ns) λ rest w. Ends-done _ tt

pub All-append_one :
    {A : Type 0} (Q : A → Type 0) (xs : List A) (y : A) → All Q xs → Q y → All Q (xs ++ y ∷ [])
All-append_one Q [] y h q = (q, tt)
All-append_one Q (x ∷ xs) y h q = (h.0, All-append_one Q xs y h.1 q)

-- The tasks of the operations have whole requests.
abbrev pub AreRecorded : List Operation → Type 0
AreRecorded ops = All (λ (op : Operation). IsRequest op.task.resreq) ops

fit_errors-IsBooked :
    (job : JobInfo) (m : Dict (Dict ℕ))
    → IsBooked job
    → IsBooked (record job { nodes_fit_errors = m })
fit_errors-IsBooked job m b = record {
  distinct = b.distinct;
  index_distinct = b.index_distinct;
  keyed = b.keyed;
  filed = b.filed;
  tallied = b.tallied;
  requests = b.requests;
  total_eq = b.total_eq;
  allocated_eq = b.allocated_eq;
}

module _ {P : Type 0} where
  -- A statement in a session with all books kept.
  abbrev pub IsOpen : StatementState P → Type 0
  IsOpen s = IsSound s.ssn × AreRecorded s.operations

  -- What the pointer to a task shows has a whole request.
  pub task_now-IsRequest :
      (ssn : SessionState P) (t : TaskInfo)
      → IsSound ssn
      → IsRequest t.resreq
      → IsRequest (task_now ssn t).resreq
  unfolding task_now
  task_now-IsRequest ssn t s q = elim (Option-cases (lookup t.job ssn.jobs)) [
    | inl missing ↦ rw (task_now, missing) q
    | inr (job, e) ↦ elim (Option-cases (lookup t.uid job.tasks)) [
      | inl missing ↦ rw (task_now, e, missing) q
      | inr (u, f) ↦ rw (task_now, e, f) ((s.booked t.job job e).requests t.uid u f)
    ]
  ]

  -- To record why a task does not fit keeps the books.
  pub record_fit_errors-IsSound :
      (ssn : SessionState P) (j : JobInfo) (uid : ℕ) (fe : Dict ℕ)
      → IsSound ssn
      → IsSound (record_fit_errors ssn j uid fe)
  unfolding record_fit_errors
  record_fit_errors-IsSound ssn j uid fe s = elim (Option-cases (lookup j.uid ssn.jobs)) [
    | inl missing ↦ rw (record_fit_errors, missing) s
    | inr (job, e) ↦
        rw (record_fit_errors, e)
          (insert_job-IsSound ssn j.uid _ s (fit_errors-IsBooked job _ (s.booked j.uid job e)))
  ]

  pub job_now-IsBooked :
      (ssn : SessionState P) (j : JobInfo) → IsSound ssn → IsBooked j → IsBooked (job_now ssn j)
  unfolding job_now
  job_now-IsBooked ssn j s b = elim (Option-cases (lookup j.uid ssn.jobs)) [
    | inl missing ↦ rw (job_now, missing) b
    | inr (job, e) ↦ rw (job_now, e) (s.booked j.uid job e)
  ]

  module _ (env : AllocateSession P) where
    recorded :
        (s : StatementState P) (ssn' : SessionState P) (u : TaskInfo) (e : Option Failure)
        → IsOpen s
        → IsSound ssn'
        → IsRequest u.resreq
        → Returns
            (λ (r : StatementState P × Option Failure). IsOpen r.0)
            (some (elim e [
              | some err ↦ (record s { ssn = ssn' }, some err)
              | none ↦ (
                record {
                  operations = s.operations ++ record { name = allocate_op; task = u } ∷ [];
                  ssn = ssn';
                },
                none,
              )
            ]))
    recorded s ssn' u (some err) h h' q' = Returns-some _ (h', h.1)
    recorded s ssn' u none h h' q' = Returns-some _ (h', All-append_one _ s.operations _ h.1 q')

    allocate_on-IsOpen :
        (s : StatementState P) (t : TaskInfo) (n : NodeInfo)
        → IsOpen s
        → IsRequest t.resreq
        → Ends IsOpen (allocate_on env s t n)
    unfolding allocate_on allocate
    allocate_on-IsOpen s t n h q =
        Ends-bind
          (Ends-of_option panic (
            Returns-bind (allocate_v2-IsSound env.now env.handlers s.ssn t h.0 q n.name)
              λ ((ssn', u), e) (h', q'). recorded s ssn' u e h h' q'))
          λ (s', e) h'. Ends-done _ h'

    pipeline_on-IsOpen :
        (s : StatementState P) (t : TaskInfo) (n : NodeInfo)
        → IsOpen s
        → IsRequest t.resreq
        → Ends IsOpen (pipeline_on env s t n)
    unfolding pipeline_on pipeline
    pipeline_on-IsOpen s t n h q = Ends-bind (fits_future-Ends t n) λ fits u.
        Ends-if fits
          (λ e. Ends-of_option panic (
            Returns-bind (pipeline_task-IsSound env.now env.handlers s.ssn t h.0 q n.name)
              λ (ssn', v) (h', q', same).
                Returns-some _ (h', All-append_one _ s.operations _ h.1 q')))
          λ e. Ends-done _ h

    pub place_on-IsOpen :
        (s : StatementState P) (t : TaskInfo) (n : NodeInfo)
        → IsOpen s
        → IsRequest t.resreq
        → Ends IsOpen (place_on env s t n)
    unfolding place_on
    place_on-IsOpen s t n h q =
        Ends-if (less_equal t.init_resreq n.idle zero_default) (λ e. allocate_on-IsOpen s t n h q)
          λ e. pipeline_on-IsOpen s t n h q
