-- ===== src/Preempt/Victims.antt =====
-- The victims of a preemption have whole requests, if each plugin is given such tasks and gives such ones.
use k8s_simulator.Common.{
  ℕ, ◌≡◌, Bool, true, false, if◌then◌else◌, subst, sym, Bool-cases, inl, inr, Option, Option-cases,
  ==_refl, ◌==◌, List, [], ◌∷◌, All, arith, Dict, Distinct, lookup, lookup-cons_self,
  lookup-cons_old,
}
use k8s_simulator.Common.Sums.{All-lookup}
use k8s_simulator.Resource.Exact.{IsRequest}
use k8s_simulator.Task.{TaskInfo}
use k8s_simulator.Task.Totals.{AreRequests}
use k8s_simulator.Session.{PluginOption, EvictableFn, Session, is_enabled, voters}
use k8s_simulator.Session.Eviction.{
  keep_matches, intersection, evictable_tier, evictable, preemptable_tasks,
}
use k8s_simulator.Session.Victims.{listed, tier_step}
use k8s_simulator.Job.Copy.{clone-IsRequest}
use k8s_simulator.Preempt.{preemptees_of}

abbrev pub HasRequest : TaskInfo → Type 0
HasRequest t = IsRequest t.resreq

-- A plugin's function that is given tasks with whole requests gives such tasks.
abbrev pub KeepsRequests : EvictableFn → Type 0
KeepsRequests f =
    (t : TaskInfo) (ts : List TaskInfo) → All HasRequest ts → All HasRequest (f t ts).0

listed_more :
    (c : TaskInfo) (vs us : List TaskInfo)
    → All (λ (t : TaskInfo). listed t.uid vs ≡ true) us
    → All (λ (t : TaskInfo). listed t.uid (c ∷ vs) ≡ true) us
listed_more c vs [] h = tt
listed_more c vs (u ∷ us) h = let first = h.0 in (ground arith, listed_more c vs us h.1)

pub All-listed : (ts : List TaskInfo) → All (λ (t : TaskInfo). listed t.uid ts ≡ true) ts
All-listed [] = tt
All-listed (t ∷ ts) = (ground (arith, ==_refl t.uid), listed_more t ts ts (All-listed ts))

-- The copies of tasks that pass a filter.
pub preemptees_of-All :
    (filter : TaskInfo → Bool) (d : Dict TaskInfo)
    → Distinct d
    → AreRequests d
    → All HasRequest (preemptees_of filter d)
unfolding preemptees_of
preemptees_of-All filter [] u r = tt
preemptees_of-All filter ((k, t) ∷ d) u r =
    let rest = preemptees_of-All filter d u.1 (λ i j e. r i j (lookup-cons_old k i t j d u.0 e)) in
    elim (Bool-cases (filter t)) [
      | inl passes ↦ rw passes (clone-IsRequest t (r k t (lookup-cons_self k t d)), rest)
      | inr fails ↦ rw fails rest
    ]

keep_matches-All :
    (v : TaskInfo) (cs rest : List TaskInfo)
    → HasRequest v
    → All HasRequest rest
    → All HasRequest (keep_matches v cs rest)
unfolding keep_matches
keep_matches-All v [] rest q h = h
keep_matches-All v (c ∷ cs) rest q h =
    let more = keep_matches-All v cs rest q h in
    elim (Bool-cases (v.uid == c.uid)) [ inl same ↦ rw same (q, more) | inr other ↦ rw other more ]

intersection-All : (vs cs : List TaskInfo) → All HasRequest vs → All HasRequest (intersection vs cs)
unfolding intersection
intersection-All [] cs h = tt
intersection-All (v ∷ vs) cs h =
    keep_matches-All v cs (intersection vs cs) h.0 (intersection-All vs cs h.1)

pub voters-All :
    (Q : EvictableFn → Type 0) (flag : PluginOption → Option Bool) (fns : Dict EvictableFn)
    (tier : List PluginOption)
    → All (λ (e : ℕ × EvictableFn). Q e.1) fns
    → All Q (voters flag fns tier)
unfolding voters
voters-All Q flag fns [] h = tt
voters-All Q flag fns (p ∷ ps) h =
    let rest = voters-All Q flag fns ps h in
    elim (Bool-cases (is_enabled (flag p))) [
      | inr off ↦ rw (voters, off) rest
      | inl on ↦ elim (Option-cases (lookup p.name fns)) [
        | inl missing ↦ rw (voters, on, missing) rest
        | inr (f, e) ↦
            rw (voters, on, e) (All-lookup (λ (e : ℕ × EvictableFn). Q e.1) p.name f fns h e, rest)
      ]
    ]

met :
    (init : Bool) (vs cs : List TaskInfo)
    → All HasRequest vs
    → All HasRequest cs
    → All HasRequest (if init then intersection vs cs else cs)
met true vs cs h k = intersection-All vs cs h
met false vs cs h k = k

settle :
    (vs rest : List TaskInfo)
    → All HasRequest vs
    → All HasRequest rest
    → All HasRequest (elim vs [ [] ↦ rest | w ∷ ws ↦ w ∷ ws ])
settle [] rest h k = k
settle (v ∷ vs) rest h k = h

module _ (task : TaskInfo) (others : List TaskInfo) (whole : All HasRequest others) where
  tier-All :
      (fs : List EvictableFn) (victims : List TaskInfo) (init : Bool)
      → All KeepsRequests fs
      → All HasRequest victims
      → All HasRequest (evictable_tier fs task others victims init).0
  unfolding evictable_tier
  tier-All [] victims init k h = h
  tier-All (f ∷ fs) victims init k h =
      let answer = k.0 task others whole in
      elim (tier_step task others 0 f fs victims init) [
        | inl (e, same) ↦
            subst (λ r. All HasRequest r.0) (sym same) (tier-All fs victims init k.1 h)
        | inr (inl (e, same)) ↦ subst (λ r. All HasRequest r.0) (sym same) tt
        | inr (inr (e, same)) ↦
            subst (λ r. All HasRequest r.0) (sym same)
              (tier-All fs _ true k.1 (met init victims (f task others).0 h answer))
      ]

  evictable-All :
      (flag : PluginOption → Option Bool) (fns : Dict EvictableFn)
      (tiers : List (List PluginOption)) (init : Bool)
      → All (λ (e : ℕ × EvictableFn). KeepsRequests e.1) fns
      → All HasRequest (evictable flag fns tiers task others init)
  unfolding evictable
  evictable-All flag fns [] init k = tt
  evictable-All flag fns (tier ∷ tiers) init k =
      let voted = evictable_tier (voters flag fns tier) task others [] init in
      settle voted.0 _
        (tier-All (voters flag fns tier) [] init (voters-All KeepsRequests flag fns tier k) tt)
        (evictable-All flag fns tiers voted.1 k)

pub preemptable_tasks-All :
    (ssn : Session) (preemptor : TaskInfo) (preemptees : List TaskInfo)
    → All (λ (e : ℕ × EvictableFn). KeepsRequests e.1) ssn.preemptable_fns
    → All HasRequest preemptees
    → All HasRequest (preemptable_tasks ssn preemptor preemptees)
unfolding preemptable_tasks
preemptable_tasks-All ssn preemptor preemptees k h =
    evictable-All preemptor preemptees h (λ p. p.enabled_preemptable) ssn.preemptable_fns ssn.tiers
      false k
