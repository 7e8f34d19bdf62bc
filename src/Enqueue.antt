-- ===== src/Enqueue.antt =====
-- pkg/scheduler/actions/enqueue/enqueue.go: the action that lets pending jobs into the session's queues.
-- A panic is `none`. A plugin's functions read and change its own state, here `P`; the order of jobs and
-- queues does not read what JobEnqueued changes.
pub mod Loop
pub mod Admission
pub mod Collect
pub mod Phases
use k8s_simulator.Common.{
  ℕ, zero, suc, ◌+◌, ◌-◌, ◌*◌, ◌≤◌, ◌<◌, ◌≡◌, refl, sym, ap, ◌∙◌, subst, ◌≢◌, ◌↔◌, ◌⊎◌, inl, inr,
  Bool, true, false, not, ◌&&◌, ◌||◌, Option, none, some, List, [], ◌∷◌, ◌++◌, map, arith, ltb, leb,
  ◌==◌, if◌then◌else◌, ==_refl, ==_ne, ==_iff, Bool-cases, Option-cases, length, count_if, All,
  length-append, ℤ, pos, negsuc, pos_part, neg_part, ◌+ℤ◌, ◌-ℤ◌, ◌*ℤ◌, ◌≤ℤ◌, ◌<ℤ◌, ltb_ℤ, eqb_ℤ,
  abs, min_ℤ, max_ℤ, +ℤ_parts, -ℤ_parts, eq_of_parts, int_laws, move_share, take_share,
  return_share, +ℤ-zero, -ℤ-zero, +ℤ_comm, +ℤ_assoc, +ℤ_cancel, ltb_ℤ_iff, eqb_ℤ_iff, Dict, lookup,
  insert, delete, Distinct, lookup-insert, lookup-delete, insert-Distinct, delete-Distinct,
  lookup-cons_old, lookup-cons_self, delete-insert, lookup-insert_self, ◌>>=◌,
}
use k8s_simulator.Job.{JobInfo, PodGroup, group_inqueue, is_pending}
use k8s_simulator.Session.{Session, QueueInfo, all_voters}
use k8s_simulator.Session.Order.{job_order_fn, queue_order_fn}
use k8s_simulator.Session.Ballot.{job_enqueueable}
use k8s_simulator.Queue.{PriorityQueue, new_priority_queue, push, pop, empty}

-- The part of a session that the action reads: the queues, and the plugins' functions by their state.
pub record EnqueueSession (P : Type 0) : Type 0 where
  pub session : Session
  pub queues : Dict QueueInfo
  pub job_enqueueable_fns : P → Dict (JobInfo → ℤ)
  pub job_enqueued_fns : Dict (JobInfo → P → P)

-- What it changes: ssn.Jobs, the plugins' state, and its own maps.
pub record EnqueueState (P : Type 0) : Type 0 where
  pub jobs : Dict JobInfo
  pub plugins : P
  pub queues : PriorityQueue QueueInfo
  pub queue_map : Dict QueueInfo
  pub jobs_map : Dict (PriorityQueue JobInfo)

-- A job that was not seen before starts to wait. The clock is read once for each job: `now` by its UID.
unfoldable pub start_waiting : (ℕ → ℤ) → JobInfo → JobInfo
start_waiting now job = elim job.schedule_start_timestamp [
  | none ↦ record job { schedule_start_timestamp = some (now job.uid) }
  | some t ↦ job
]

unfoldable pub set_inqueue : JobInfo → PodGroup → JobInfo
set_inqueue job pg = record job { pod_group = some (record pg { phase = group_inqueue }) }

-- How many rounds are left at most: a round takes a job out of its queue, or a queue out of them all.
unfoldable pub jobs_left : Dict (PriorityQueue JobInfo) → ℕ
jobs_left [] = 0
jobs_left ((k, q) ∷ d) = length q.items + jobs_left d

module _ {P : Type 0} where
  -- JobEnqueued
  unfoldable pub run_all : List (JobInfo → P → P) → JobInfo → P → P
  run_all [] job p = p
  run_all (f ∷ fs) job p = run_all fs job (f job p)

  unfoldable pub job_enqueued : EnqueueSession P → JobInfo → P → P
  job_enqueued ssn job p =
      run_all (all_voters (λ o. o.enabled_job_enqueued) ssn.job_enqueued_fns ssn.session.tiers) job
        p

  -- JobEnqueueable, at the present state of the plugins
  unfoldable pub may_enqueue : EnqueueSession P → P → JobInfo → Bool
  may_enqueue ssn p job =
      job_enqueueable (record (ssn.session) { job_enqueueable_fns = ssn.job_enqueueable_fns p }) job

  -- `jobsMap[job.Queue].Push(job)`, with a new priority queue where there is none.
  unfoldable pub file_job : EnqueueSession P → EnqueueState P → JobInfo → Option (EnqueueState P)
  file_job ssn st job = do
    let fresh = new_priority_queue (some (job_order_fn ssn.session))
    filed ← push (elim (lookup job.queue st.jobs_map) [ none ↦ fresh | some q ↦ q ]) job
    some (record st { jobs_map = insert job.queue filed st.jobs_map })

  -- The queue of a job is pushed the first time that it is met.
  unfoldable pub file_queue : EnqueueState P → QueueInfo → Option (EnqueueState P)
  file_queue st queue = elim (lookup queue.uid st.queue_map) [
    | some _ ↦ some st
    | none ↦ do
      qs ← push st.queues queue
      some (record st { queue_map = insert queue.uid queue st.queue_map; queues = qs })
  ]

  -- The body of the loop over ssn.Jobs, which holds each job under its UID.
  unfoldable pub collect_job :
      EnqueueSession P → (ℕ → ℤ) → EnqueueState P → JobInfo → Option (EnqueueState P)
  collect_job ssn now st j =
      let job = start_waiting now j in
      let seen = record st { jobs = insert job.uid job st.jobs } in
      elim (lookup job.queue ssn.queues) [
        | none ↦ some seen
        | some queue ↦ do
          st' ← file_queue seen queue
          if is_pending job then file_job ssn st' job else some st'
      ]

  unfoldable pub collect :
      EnqueueSession P → (ℕ → ℤ) → Dict JobInfo → EnqueueState P → Option (EnqueueState P)
  collect ssn now [] st = some st
  collect ssn now ((k, j) ∷ d) st = do st' ← collect_job ssn now st j; collect ssn now d st'

  -- `MinResources == nil || JobEnqueueable(job)`
  unfoldable pub is_enqueueable : EnqueueSession P → P → JobInfo → PodGroup → Bool
  is_enqueueable ssn p job pg = elim pg.min_resources [
    | none ↦ true
    | some _ ↦ may_enqueue ssn p job
  ]

  unfoldable pub enqueue_job :
      EnqueueSession P → EnqueueState P → JobInfo → PodGroup → EnqueueState P
  enqueue_job ssn st job pg = record st {
    plugins = job_enqueued ssn job st.plugins;
    jobs = insert job.uid (set_inqueue job pg) st.jobs;
  }

  -- One job of the second loop. A job without a PodGroup is a nil pointer.
  unfoldable pub admit_job : EnqueueSession P → EnqueueState P → JobInfo → Option (EnqueueState P)
  admit_job ssn st job = elim job.pod_group [
    | none ↦ none
    | some pg ↦
        some (if is_enqueueable ssn st.plugins job pg then enqueue_job ssn st job pg else st)
  ]

  -- What a queue that was popped has to offer: the queue stays out once it has no more jobs.
  unfoldable pub serve_queue :
      EnqueueSession P → EnqueueState P → QueueInfo → Option (EnqueueState P)
  serve_queue ssn st queue = elim (lookup queue.uid st.jobs_map) [
    | none ↦ some st
    | some jobs ↦ if empty jobs then some st else (do
      (top, rest) ← pop jobs
      job ← top
      st' ← admit_job ssn (record st { jobs_map = insert queue.uid rest st.jobs_map }) job
      qs ← push st'.queues queue
      some (record st' { queues = qs }))
  ]

  -- The second loop, on fuel.
  unfoldable pub serve : ℕ → EnqueueSession P → EnqueueState P → Option (EnqueueState P)
  serve zero ssn st = none
  serve (suc k) ssn st =
      let step : Option (EnqueueState P) = do
        (top, rest) ← pop st.queues
        queue ← top
        st' ← serve_queue ssn (record st { queues = rest }) queue
        serve k ssn st'
      in if empty st.queues then some st else step

  unfoldable pub start : EnqueueSession P → Dict JobInfo → P → EnqueueState P
  start ssn jobs p = record {
    jobs = jobs;
    plugins = p;
    queues = new_priority_queue (some (queue_order_fn ssn.session));
    queue_map = [];
    jobs_map = [];
  }

  unfoldable pub rounds : EnqueueState P → ℕ
  rounds st = length st.queues.items + jobs_left st.jobs_map

  -- Execute
  unfoldable pub execute : EnqueueSession P → (ℕ → ℤ) → Dict JobInfo → P → Option (EnqueueState P)
  execute ssn now jobs p = do
    st ← collect ssn now jobs (start ssn jobs p)
    serve (suc (rounds st)) ssn st
