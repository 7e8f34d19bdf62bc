-- ===== src/Preempt/Warrants.antt =====
-- What warrants an eviction: the plugins' agreement, and the filter's.
use k8s_simulator.Common.{
  ℕ, ◌≡◌, refl, ◌∙◌, sym, Bool, true, false, ◌&&◌, ◌||◌, ◌==◌, Bool-cases, inl, inr, Option, List,
  [], ◌∷◌, All, arith, pos, ◌≤ℤ◌, Dict,
}
use k8s_simulator.Common.Runs.{Stops}
use k8s_simulator.Resource.Exact.{IsRequest}
use k8s_simulator.Task.{TaskInfo, clone_task}
use k8s_simulator.Node.{NodeInfo}
use k8s_simulator.Session.{PluginOption, EvictableFn, voters}
use k8s_simulator.Session.Victims.{listed, proposes, some_pass, agrees, preemptable_tasks-agreed}
use k8s_simulator.Helper.Predicates.{PredicateHelper}
use k8s_simulator.Statement.{SessionState}
use k8s_simulator.Statement.Operations.{StatementState}
use k8s_simulator.Allocate.{AllocateSession, task_now}
use k8s_simulator.Allocate.Tasks.{session_of}
use k8s_simulator.Allocate.Steps.{IsOpen}
use k8s_simulator.Preempt.{preemptees_of, preempt}
use k8s_simulator.Preempt.Victims.{KeepsRequests, voters-All}
use k8s_simulator.Preempt.Eviction.{IsTraced, preempt-IsTraced}

-- A plugin's function names only tasks that it was given.
abbrev pub NamesGiven : EvictableFn → Type 0
NamesGiven f =
    (t : TaskInfo) (ts : List TaskInfo) (u : ℕ) → listed u (f t ts).0 ≡ true → listed u ts ≡ true

-- Whether a node's tasks have one with a UID that passes a filter.
abbrev pub stands_on : (TaskInfo → Bool) → ℕ → Dict TaskInfo → Bool
stands_on filter u [] = false
stands_on filter u ((k, t) ∷ d) = (filter t && t.uid == u) || stands_on filter u d

listed-preemptees_of :
    (filter : TaskInfo → Bool) (u : ℕ) (d : Dict TaskInfo)
    → listed u (preemptees_of filter d) ≡ stands_on filter u d
unfolding preemptees_of clone_task
listed-preemptees_of filter u [] = refl
listed-preemptees_of filter u ((k, t) ∷ d) = elim (Bool-cases (filter t)) [
  | inl passes ↦ let rest = listed-preemptees_of filter u d in rw passes (ground arith)
  | inr fails ↦ let rest = listed-preemptees_of filter u d in rw fails (ground arith)
]

module _ (t : TaskInfo) (others : List TaskInfo) (u : ℕ) where
  proposed-listed :
      (fs : List EvictableFn)
      → All NamesGiven fs
      → some_pass (proposes t others u) fs ≡ true
      → listed u others ≡ true
  proposed-listed [] g h = absurd cc
  proposed-listed (f ∷ fs) g h = elim (Bool-cases (listed u (f t others).0)) [
    | inl named ↦ g.0 t others u named
    | inr other ↦ proposed-listed fs g.1 (ground arith)
  ]

  agreed-listed :
      (flag : PluginOption → Option Bool) (fns : Dict EvictableFn)
      (tiers : List (List PluginOption))
      → All (λ (e : ℕ × EvictableFn). NamesGiven e.1) fns
      → some_pass (agrees flag fns t others u) tiers ≡ true
      → listed u others ≡ true
  agreed-listed flag fns [] g h = absurd cc
  agreed-listed flag fns (tier ∷ tiers) g h =
      elim (Bool-cases (some_pass (proposes t others u) (voters flag fns tier))) [
        | inl named ↦
            proposed-listed (voters flag fns tier) (voters-All NamesGiven flag fns tier g) named
        | inr other ↦ agreed-listed flag fns tiers g (ground arith)
      ]

module _ {P : Type 0} (env : AllocateSession P) (filter : SessionState P → TaskInfo → Bool)
    (preemptor : TaskInfo) where
  -- A task with this UID that passes the filter is on the node, and some tier of plugins agreed to evict it,
  -- asked for victims among the tasks of the node that pass the filter.
  abbrev pub IsWarranted : SessionState P → NodeInfo → ℕ → Type 0
  IsWarranted asked node u =
      (stands_on (filter asked) u node.tasks ≡ true)
      × (some_pass
            (agrees (λ p. p.enabled_preemptable) (session_of env asked).preemptable_fns preemptor
              (preemptees_of (filter asked) node.tasks) u)
            (session_of env asked).tiers
          ≡ true)

module _ {P : Type 0} (env : AllocateSession P) (filter : SessionState P → TaskInfo → Bool)
    (t : TaskInfo) where
  -- From a statement in a session whose books are kept and whose operations have tasks with whole requests,
  -- if MinNodesToFind is not negative, the preemptor has a whole request, and each plugin's function names
  -- only tasks that it was given and answers tasks with whole requests by such tasks, preempt is not cut
  -- off: it stops at a panic or is done. Then the same holds of the statement and its session, and what
  -- preempt did is a sequence of attempts on nodes that pass the predicates, in the order of SortNodes, each
  -- in the session that the one before it left. At each node every eviction is of a task that was on that
  -- node and passed the filter when the attempt began, that a tier of plugins then agreed to give up, and it
  -- is done when the preemptor does not fit the node. On a node that is passed by, nothing was evicted or
  -- the preemptor still does not fit; on the first other one it fits after the evictions, is pipelined there
  -- and no further node is tried, and just then preempt returns true.
  pub preempt-IsWarranted :
      (stmt : StatementState P) (helper : PredicateHelper)
      → pos 0 ≤ℤ env.opts.min_nodes_to_find
      → ((p : P) → All (λ (e : ℕ × EvictableFn). KeepsRequests e.1) (env.session p).preemptable_fns)
      → ((p : P) → All (λ (e : ℕ × EvictableFn). NamesGiven e.1) (env.session p).preemptable_fns)
      → IsRequest t.resreq
      → IsOpen stmt
      → Stops
          (IsTraced env (IsWarranted env filter (task_now stmt.ssn t)) t stmt)
          (preempt env stmt t filter helper)
  unfolding session_of
  preempt-IsWarranted stmt helper sane keep given q h =
      let preemptor = task_now stmt.ssn t in
      preempt-IsTraced env filter t stmt (IsWarranted env filter preemptor)
        (λ asked node u l.
          let session = session_of env asked in
          let among = preemptees_of (filter asked) node.tasks in
          let agreed = preemptable_tasks-agreed session preemptor among u l in
          (
            sym (listed-preemptees_of (filter asked) u node.tasks)
                ∙ agreed-listed preemptor among u (λ p. p.enabled_preemptable)
                    session.preemptable_fns session.tiers (given asked.plugins) agreed,
            agreed,
          ))
        helper sane keep q h
