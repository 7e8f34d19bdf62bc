-- ===== src/Session.antt =====
-- pkg/scheduler/framework/session_plugins.go: how a session asks its plugins, tier after tier.
-- A function that a plugin registered is a parameter of the session: its value in the map of its
-- extension point, under the plugin's name. A nil slice and an empty one are told apart only where
-- the code's result depends on it.
use k8s_simulator.Common.{
  ℕ, zero, suc, ◌+◌, ◌-◌, ◌*◌, ◌≤◌, ◌<◌, ◌≡◌, refl, sym, ap, ◌∙◌, subst, ◌≢◌, ◌↔◌, ◌⊎◌, inl, inr,
  Bool, true, false, not, ◌&&◌, ◌||◌, Option, none, some, List, [], ◌∷◌, ◌++◌, map, arith, ltb, leb,
  ◌==◌, if◌then◌else◌, ==_refl, ==_ne, ==_iff, Bool-cases, Option-cases, length, count_if, All,
  length-append, ℤ, pos, negsuc, pos_part, neg_part, ◌+ℤ◌, ◌-ℤ◌, ◌*ℤ◌, ◌≤ℤ◌, ◌<ℤ◌, ltb_ℤ, eqb_ℤ,
  abs, min_ℤ, max_ℤ, +ℤ_parts, -ℤ_parts, eq_of_parts, int_laws, move_share, take_share,
  return_share, +ℤ-zero, -ℤ-zero, +ℤ_comm, +ℤ_assoc, +ℤ_cancel, ltb_ℤ_iff, eqb_ℤ_iff, Dict, lookup,
  insert, delete, Distinct, lookup-insert, lookup-delete, insert-Distinct, delete-Distinct,
  lookup-cons_old, lookup-cons_self, delete-insert, lookup-insert_self,
}
use k8s_simulator.Task.{TaskInfo}
use k8s_simulator.Job.{JobInfo}
use k8s_simulator.Node.{NodeInfo}
pub mod Eviction
pub mod Ballot
pub mod Order
pub mod Scores
pub mod Victims
pub mod Verdicts
pub mod Precedence
pub mod Ranking

-- PluginOption: the flags of the extension points below.
pub record PluginOption : Type 0 where
  pub name : ℕ
  pub enabled_job_order : Option Bool
  pub enabled_namespace_order : Option Bool
  pub enabled_job_ready : Option Bool
  pub enabled_job_pipelined : Option Bool
  pub enabled_task_order : Option Bool
  pub enabled_preemptable : Option Bool
  pub enabled_reclaimable : Option Bool
  pub enabled_queue_order : Option Bool
  pub enabled_predicate : Option Bool
  pub enabled_job_starving : Option Bool
  pub enabled_job_enqueued : Option Bool
  pub enabled_target_job : Option Bool
  pub enabled_victim : Option Bool
  pub enabled_best_node : Option Bool
  pub enabled_node_order : Option Bool

-- QueueInfo, as far as queues are ordered.
pub record QueueInfo : Type 0 where
  pub uid : ℕ
  pub creation_timestamp : ℤ

-- ValidateResult
pub record ValidateResult : Type 0 where
  pub pass : Bool
  pub reason : ℕ

-- An EvictableFn: the tasks that may go, and 0 for an abstention.
abbrev pub EvictableFn : Type 0
EvictableFn = TaskInfo → List TaskInfo → List TaskInfo × ℤ

-- Some nodes under their scores, a nodeScores of BestNodeFn.
abbrev pub NodeScores : Type 0
NodeScores = List (ℤ × List NodeInfo)

-- The maps of a Session: the functions that the plugins registered. An error is its code.
pub record Session : Type 0 where
  pub tiers : List (List PluginOption)
  pub job_order_fns : Dict (JobInfo → JobInfo → ℤ)
  pub queue_order_fns : Dict (QueueInfo → QueueInfo → ℤ)
  pub namespace_order_fns : Dict (ℕ → ℕ → ℤ)
  pub task_order_fns : Dict (TaskInfo → TaskInfo → ℤ)
  pub predicate_fns : Dict (TaskInfo → NodeInfo → Option ℕ)
  pub preemptable_fns : Dict EvictableFn
  pub reclaimable_fns : Dict EvictableFn
  pub overused_fns : Dict (QueueInfo → Bool)
  pub allocatable_fns : Dict (QueueInfo → TaskInfo → Bool)
  pub job_ready_fns : Dict (JobInfo → Bool)
  pub job_pipelined_fns : Dict (JobInfo → ℤ)
  pub job_valid_fns : Dict (JobInfo → Option ValidateResult)
  pub job_enqueueable_fns : Dict (JobInfo → ℤ)
  pub job_starving_fns : Dict (JobInfo → Bool)
  pub target_job_fns : Dict (List JobInfo → Option JobInfo)
  pub victim_tasks_fns : Dict (Option (List TaskInfo))
  pub best_node_fns : Dict (TaskInfo → NodeScores → Option NodeInfo)
  pub node_order_fns : Dict (TaskInfo → NodeInfo → ℤ × Option ℕ)
  pub batch_node_order_fns : Dict (TaskInfo → List NodeInfo → Dict ℤ × Option ℕ)
  pub node_map_fns : Dict (TaskInfo → NodeInfo → ℤ × Option ℕ)
  -- What NormalizeScore makes of a list of scores, which it changes in place.
  pub node_reduce_fns : Dict (TaskInfo → List (ℕ × ℤ) → List (ℕ × ℤ) × Option ℕ)

-- isEnabled
unfoldable pub is_enabled : Option Bool → Bool
is_enabled none = false
is_enabled (some b) = b

-- The two tests at the head of every inner loop: the functions of the enabled plugins of a tier that
-- have registered one, in the order of the tier.
unfoldable pub voters {ℓ} :
    {F : Type ℓ} → (PluginOption → Option Bool) → Dict F → List PluginOption → List F
voters flag fns [] = []
voters flag fns (p ∷ ps) =
    let rest = voters flag fns ps in
    if is_enabled (flag p)
    then elim (lookup p.name fns) [ none ↦ rest | some f ↦ f ∷ rest ]
    else rest

-- Where the code has no flag.
abbrev pub always : PluginOption → Option Bool
always _ = some true

-- The voters of all tiers, for the loops that treat a plugin the same in whichever tier it stands.
unfoldable pub all_voters {ℓ} :
    {F : Type ℓ} → (PluginOption → Option Bool) → Dict F → List (List PluginOption) → List F
all_voters flag fns [] = []
all_voters flag fns (tier ∷ tiers) = voters flag fns tier ++ all_voters flag fns tiers

unfoldable pub all_pass {ℓ} : {F : Type ℓ} → (F → Bool) → List F → Bool
all_pass test [] = true
all_pass test (f ∷ fs) = if test f then all_pass test fs else false
