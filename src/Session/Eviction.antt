-- ===== src/Session/Eviction.antt =====
-- pkg/scheduler/framework/session_plugins.go: Preemptable, Reclaimable and VictimTasks.
use k8s_simulator.Common.{
  Bool, true, false, Option, none, some, List, [], ◌∷◌, ◌==◌, if◌then◌else◌, pos, eqb_ℤ, Dict,
}
use k8s_simulator.Task.{TaskInfo}
use k8s_simulator.Session.{PluginOption, EvictableFn, Session, voters}

-- The intersection of two lists of tasks: a victim once for each candidate with its UID.
unfoldable pub keep_matches : TaskInfo → List TaskInfo → List TaskInfo → List TaskInfo
keep_matches v [] rest = rest
keep_matches v (c ∷ cs) rest =
    let more = keep_matches v cs rest in if v.uid == c.uid then v ∷ more else more

unfoldable pub intersection : List TaskInfo → List TaskInfo → List TaskInfo
intersection [] cs = []
intersection (v ∷ vs) cs = keep_matches v cs (intersection vs cs)

-- The inner loop of Reclaimable and Preemptable: `victims` and `init` after a tier. A plugin with no
-- candidates ends the tier with no victims.
unfoldable pub evictable_tier :
    List EvictableFn → TaskInfo → List TaskInfo → List TaskInfo → Bool → List TaskInfo × Bool
evictable_tier [] task others victims init = (victims, init)
evictable_tier (f ∷ fs) task others victims init = elim (eqb_ℤ (f task others).1 (pos 0)) [
  | true ↦ evictable_tier fs task others victims init
  | false ↦ elim (f task others).0 [
    | [] ↦ ([], init)
    | c ∷ cs ↦
        evictable_tier fs task others (if init then intersection victims (c ∷ cs) else c ∷ cs) true
  ]
]

-- The outer loop. At the head of a tier `victims` is nil, since the loop returns otherwise.
unfoldable pub evictable :
    (PluginOption → Option Bool)
    → Dict EvictableFn
    → List (List PluginOption)
    → TaskInfo
    → List TaskInfo
    → Bool
    → List TaskInfo
evictable flag fns [] task others init = []
evictable flag fns (tier ∷ tiers) task others init =
    let voted = evictable_tier (voters flag fns tier) task others [] init in
    elim voted.0 [ [] ↦ evictable flag fns tiers task others voted.1 | v ∷ vs ↦ v ∷ vs ]

-- Preemptable
unfoldable pub preemptable_tasks : Session → TaskInfo → List TaskInfo → List TaskInfo
preemptable_tasks ssn preemptor preemptees =
    evictable (λ p. p.enabled_preemptable) ssn.preemptable_fns ssn.tiers preemptor preemptees false

-- Reclaimable
unfoldable pub reclaimable_tasks : Session → TaskInfo → List TaskInfo → List TaskInfo
reclaimable_tasks ssn reclaimer reclaimees =
    evictable (λ p. p.enabled_reclaimable) ssn.reclaimable_fns ssn.tiers reclaimer reclaimees false

-- VictimTasks; here a slice may be empty and not nil.
unfoldable pub meet : Option (List TaskInfo) → Option (List TaskInfo) → Option (List TaskInfo)
meet victims candidates =
    elim (intersection (elim victims [ none ↦ [] | some vs ↦ vs ])
      (elim candidates [ none ↦ [] | some cs ↦ cs ])) [ [] ↦ none | v ∷ vs ↦ some (v ∷ vs) ]

unfoldable pub victim_tier :
    List (Option (List TaskInfo)) → Option (List TaskInfo) → Bool → Option (List TaskInfo) × Bool
victim_tier [] victims init = (victims, init)
victim_tier (cs ∷ rest) victims init = victim_tier rest (if init then meet victims cs else cs) true

unfoldable pub victim_tiers :
    Dict (Option (List TaskInfo)) → List (List PluginOption) → Bool → Option (List TaskInfo)
victim_tiers fns [] init = none
victim_tiers fns (tier ∷ tiers) init =
    let voted = victim_tier (voters (λ p. p.enabled_victim) fns tier) none init in
    elim voted.0 [ none ↦ victim_tiers fns tiers voted.1 | some vs ↦ some vs ]

unfoldable pub victim_tasks : Session → Option (List TaskInfo)
victim_tasks ssn = victim_tiers ssn.victim_tasks_fns ssn.tiers false
