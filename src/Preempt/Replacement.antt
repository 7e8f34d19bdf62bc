-- ===== src/Preempt/Replacement.antt =====
-- The steps of a preemption: which tasks it evicts in which session, for which node, and when it goes on.
use k8s_simulator.Common.{
  ℕ, zero, suc, ◌<◌, ◌==◌, ◌≡◌, refl, ◌⊎◌, inl, inr, Bool, true, Bool-cases, Option, some, false,
  List, [], ◌∷◌, All, arith, length, length-Perm, lookup, Returns-some, Returns-bind, Ensures,
  Ensures-Returns, Ensures-bind,
}
use mathlib.Core.List.{Mem, mem-cons_self, mem-cons_of_mem, not-mem-nil}
use mathlib.Core.List.Perm
use k8s_simulator.Common.Runs.{
  done, Ends, Ends-bind, Stops, Stops-done, Stops-bind, Stops-of_option, Stops-if,
}
use k8s_simulator.Resource.Exact.{IsRequest}
use k8s_simulator.Resource.Truth.{IsRequest-prop}
use k8s_simulator.Task.{TaskInfo}
use k8s_simulator.Node.{NodeInfo}
use k8s_simulator.Session.Victims.{listed}
use k8s_simulator.Queue.{PriorityQueue, new_priority_queue, empty}
use k8s_simulator.Queue.Take.{pop-IsTaken}
use k8s_simulator.Statement.{SessionState}
use k8s_simulator.Statement.Operations.{StatementState, evict, pipeline}
use k8s_simulator.Statement.Steps.{evict_task-IsSound, pipeline_task-IsSound}
use k8s_simulator.Allocate.{AllocateSession, sorted_by, task_now}
use k8s_simulator.Allocate.Steps.{
  with_run, IsOpen, no_node_or, fits_future-Ends, All-append_one, task_now-IsRequest,
}
use k8s_simulator.Allocate.Pending.{Every, Every-All, push_tasks-Every}
use k8s_simulator.Preempt.{victim_order, fits_node_now, evict_victims, replace_on}
use k8s_simulator.Preempt.Victims.{HasRequest, All-listed}

module _ {P : Type 0} (env : AllocateSession P) (preemptor : TaskInfo)
    (May : SessionState P → NodeInfo → ℕ → Type 0) where
  -- Evictions for a node, which was `node` in the session `asked` in which the plugins were asked: each of a
  -- task that may go, and at a time when the preemptor does not fit the node.
  pub data Evictions (asked : SessionState P) (node : NodeInfo) (host : ℕ) (s : StatementState P)
      : StatementState P → Type 0 where
    not_yet : Evictions asked node host s s
    evicts :
        {r r' : StatementState P} (t : TaskInfo)
        → Evictions asked node host s r
        → May asked node t.uid
        → fits_node_now r.ssn preemptor host ≡ done false
        → evict env.handlers env.now r t ≡ some r'
        → Evictions asked node host s r'

  -- The attempts on some nodes in their order, each in the session that the one before it left. The preemptor
  -- is pipelined on the first node that it fits after the evictions there, and then no node is tried any more.
  pub data Attempts : StatementState P → List NodeInfo → StatementState P → Bool → Type 0 where
    exhausted : {s : StatementState P} → Attempts s [] s false
    passes :
        {s r r' : StatementState P} {n : NodeInfo} {ns : List NodeInfo} {b : Bool} (node : NodeInfo)
        → lookup n.name s.ssn.nodes ≡ some node
        → Evictions s.ssn node n.name s r
        → (r ≡ s) ⊎ (fits_node_now r.ssn preemptor n.name ≡ done false)
        → Attempts r ns r' b
        → Attempts s (n ∷ ns) r' b
    assigns :
        {s r r' : StatementState P} {n : NodeInfo} {ns : List NodeInfo} (node : NodeInfo)
        → lookup n.name s.ssn.nodes ≡ some node
        → Evictions s.ssn node n.name s r
        → fits_node_now r.ssn preemptor n.name ≡ done true
        → pipeline env.handlers env.now r (task_now r.ssn preemptor) n.name ≡ some r'
        → Attempts s (n ∷ ns) r' true

-- The outcome with the equation of the call.
noted :
    {A : Type 0} {Q : A → Type 0} (o : Option A) → Ensures Q o → Ensures (λ a. Q a × (o ≡ some a)) o
noted o h a e = (h a e, e)

module _ {P : Type 0} (env : AllocateSession P) where
  pub evict-IsOpen :
      (stmt : StatementState P) (t : TaskInfo)
      → IsOpen stmt
      → IsRequest t.resreq
      → Ensures IsOpen (evict env.handlers env.now stmt t)
  unfolding evict
  evict-IsOpen stmt t h q =
      Ensures-bind _ (evict_task-IsSound env.now env.handlers stmt.ssn t h.0 q)
        λ (ssn', u) (s', r, same).
          Ensures-Returns (Returns-some _ (s', All-append_one _ stmt.operations _ h.1 r))

  pipeline-IsOpen :
      (stmt : StatementState P) (t : TaskInfo) (host : ℕ)
      → IsOpen stmt
      → IsRequest t.resreq
      → Ensures IsOpen (pipeline env.handlers env.now stmt t host)
  unfolding pipeline
  pipeline-IsOpen stmt t host h q = Ensures-Returns (
      Returns-bind (pipeline_task-IsSound env.now env.handlers stmt.ssn t h.0 q host)
        λ (ssn', u) (s', r, same). Returns-some _ (s', All-append_one _ stmt.operations _ h.1 r))

  fits_node_now-Ends :
      (ssn : SessionState P) (t : TaskInfo) (host : ℕ)
      → Ends (λ b. fits_node_now ssn t host ≡ done b) (fits_node_now ssn t host)
  unfolding fits_node_now
  fits_node_now-Ends ssn t host = with_run _ (
      Ends-bind {Q = λ b. Unit {0}} (no_node_or (lookup host ssn.nodes))
        λ node e. fits_future-Ends t node)

module _ {P : Type 0} (env : AllocateSession P) (preemptor : TaskInfo)
    (May : SessionState P → NodeInfo → ℕ → Type 0) (asked : SessionState P) (node : NodeInfo)
    (host : ℕ) (s : StatementState P) where
  -- After the evictions the preemptor is pipelined if it fits the node, or else it does not fit it.
  abbrev pub IsReplaced : StatementState P × Bool → Type 0
  IsReplaced (r', assigned) =
      IsOpen r'
      × (r : StatementState P) × Evictions env preemptor May asked node host s r
      × (((assigned ≡ true)
            × (fits_node_now r.ssn preemptor host ≡ done true)
            × (pipeline env.handlers env.now r (task_now r.ssn preemptor) host ≡ some r'))
          ⊎ ((assigned ≡ false) × (r' ≡ r) × (fits_node_now r.ssn preemptor host ≡ done false)))

module _ {P : Type 0} (env : AllocateSession P) (preemptor : TaskInfo)
    (May : SessionState P → NodeInfo → ℕ → Type 0) (asked : SessionState P) (node : NodeInfo)
    (host : ℕ) (s : StatementState P) (victims : List TaskInfo)
    (may : (u : ℕ) → listed u victims ≡ true → May asked node u) where
  abbrev IsVictim : TaskInfo → Type 0
  IsVictim t = IsRequest t.resreq × (listed t.uid victims ≡ true)

  IsVictim-prop : (t : TaskInfo) → IsProp (IsVictim t)
  IsVictim-prop t = let request = IsRequest-prop t.resreq in hlevel request

  -- An open statement that the evictions lead to.
  abbrev IsCleared : StatementState P → Type 0
  IsCleared r = IsOpen r × Evictions env preemptor May asked node host s r

  evict_victims-IsCleared :
      (k : ℕ) (r : StatementState P) (q : PriorityQueue TaskInfo)
      → length q.items < k
      → IsCleared r
      → Every IsVictim q.items
      → Stops IsCleared (evict_victims k env host preemptor r q)
  unfolding evict_victims sorted_by empty
  evict_victims-IsCleared zero r q small h w = absurd (omega arith)
  evict_victims-IsCleared (suc k) r q small h w =
      Stops-if (length q.items == 0) (λ e. Stops-done _ h)
        λ some_left. Stops-bind (inl (fits_node_now-Ends env r.ssn preemptor host)) λ fits ran.
          elim (Bool-cases fits) [
            | inl enough ↦ rw enough (Stops-done _ h)
            | inr more ↦ rw more (
                let sorted = sorted_by (victim_order env r.ssn) q in
                let ((top, rest), popped, t) = pop-IsTaken sorted (ground arith) in
                let got = t.got in
                let inside = λ (y : TaskInfo) (m : Mem y (t.top ∷ rest.items)).
                  w y ((Perm.mem_iff t.same).0 m) in
                let fewer : length rest.items < length q.items =
                  omega (arith, length-Perm t.same) in
                let (request, is_listed) = inside t.top mem-cons_self in
                rw (popped, got)
                  (Stops-bind (Stops-of_option _ (noted _ (evict-IsOpen env r t.top h.0 request)))
                    λ r' (o, gone).
                      evict_victims-IsCleared k r' rest (omega arith)
                        (o, evicts t.top h.1 (may t.top.uid is_listed) (rw more at ran) gone)
                        λ y m. inside y (mem-cons_of_mem t.top m)))
          ]

  all_victims : All HasRequest victims → Every IsVictim victims
  all_victims whole =
      Every-All IsVictim IsVictim-prop victims (zipped victims whole (All-listed victims))
    where
      zipped :
          (ts : List TaskInfo)
          → All HasRequest ts
          → All (λ (t : TaskInfo). listed t.uid victims ≡ true) ts
          → All IsVictim ts
      zipped [] a b = tt
      zipped (t ∷ ts) a b = ((a.0, b.0), zipped ts a.1 b.1)

  pub replace_on-IsReplaced :
      IsOpen s
      → IsRequest preemptor.resreq
      → All HasRequest victims
      → Stops
          (IsReplaced env preemptor May asked node host s)
          (replace_on env host preemptor victims s)
  unfolding replace_on new_priority_queue
  replace_on-IsReplaced h q whole =
      Stops-bind
        (inl (
          push_tasks-Every IsVictim IsVictim-prop env s.ssn victims
            (new_priority_queue (some (victim_order env s.ssn))) (all_victims whole)
            λ t m. absurd (not-mem-nil m)))
        λ queue w.
          Stops-bind
            (evict_victims-IsCleared (suc (length queue.items)) s queue (omega arith) (h, not_yet)
              w)
            λ r (o, gone).
              Stops-bind (inl (fits_node_now-Ends env r.ssn preemptor host)) λ fits ran.
                elim (Bool-cases fits) [
                  | inl yes_fits ↦ rw yes_fits (
                      Stops-bind
                        (Stops-of_option _ (
                          noted _ (
                            pipeline-IsOpen env r (task_now r.ssn preemptor) host o
                              (task_now-IsRequest r.ssn preemptor o.0 q))))
                        λ r' (o', placed).
                          Stops-done _ (o', r, gone, inl (refl, rw yes_fits at ran, placed)))
                  | inr no_fit ↦
                      rw no_fit (Stops-done _ (o, r, gone, inr (refl, refl, rw no_fit at ran)))
                ]
