-- ===== src/Session/Victims.antt =====
-- Which plugins have agreed to a victim of Preemptable and Reclaimable.
use k8s_simulator.Common.{
  ℕ, ◌≡◌, refl, subst, ◌⊎◌, inl, inr, Bool, true, false, not, ◌&&◌, ◌||◌, Option, List, [], ◌∷◌,
  arith, ◌==◌, if◌then◌else◌, pos, eqb_ℤ, Dict,
}
use k8s_simulator.Task.{TaskInfo}
use k8s_simulator.Session.{PluginOption, EvictableFn, Session, voters, all_pass}
use k8s_simulator.Session.Eviction.{
  keep_matches, intersection, evictable_tier, evictable, preemptable_tasks, reclaimable_tasks,
}

-- Whether a list has a task with a UID.
abbrev pub listed : ℕ → List TaskInfo → Bool
listed u [] = false
listed u (t ∷ ts) = (t.uid == u) || listed u ts

-- Whether a plugin votes for a task, and whether it does not object to it.
abbrev pub proposes : TaskInfo → List TaskInfo → ℕ → EvictableFn → Bool
proposes task others u f = not (eqb_ℤ (f task others).1 (pos 0)) && listed u (f task others).0

abbrev pub consents : TaskInfo → List TaskInfo → ℕ → EvictableFn → Bool
consents task others u f = eqb_ℤ (f task others).1 (pos 0) || listed u (f task others).0

abbrev pub some_pass {ℓ} : {F : Type ℓ} → (F → Bool) → List F → Bool
some_pass test [] = false
some_pass test (f ∷ fs) = test f || some_pass test fs

listed-keep_matches :
    (u : ℕ) (v : TaskInfo) (cs rest : List TaskInfo)
    → listed u (keep_matches v cs rest) ≡ ((v.uid == u) && listed u cs) || listed u rest
unfolding keep_matches
listed-keep_matches u v [] rest = ground arith
listed-keep_matches u v (c ∷ cs) rest = ground (arith, listed-keep_matches u v cs rest)

listed-intersection :
    (u : ℕ) (vs cs : List TaskInfo) → listed u (intersection vs cs) ≡ listed u vs && listed u cs
unfolding intersection
listed-intersection u [] cs = refl
listed-intersection u (v ∷ vs) cs =
    ground (arith, listed-intersection u vs cs, listed-keep_matches u v cs (intersection vs cs))

-- A tier agrees to a task: every plugin with a vote there consents, and some plugin proposes it.
abbrev pub agrees :
    (PluginOption → Option Bool)
    → Dict EvictableFn
    → TaskInfo
    → List TaskInfo
    → ℕ
    → List PluginOption
    → Bool
agrees flag fns task others u tier =
    all_pass (consents task others u) (voters flag fns tier)
    && some_pass (proposes task others u) (voters flag fns tier)

module _ (task : TaskInfo) (others : List TaskInfo) (u : ℕ) where
  -- The three ways in which a plugin's answer can go.
  pub tier_step :
      (f : EvictableFn) (fs : List EvictableFn) (victims : List TaskInfo) (init : Bool)
      → ((eqb_ℤ (f task others).1 (pos 0) ≡ true)
          × (evictable_tier (f ∷ fs) task others victims init
              ≡ evictable_tier fs task others victims init))
        ⊎ (((eqb_ℤ (f task others).1 (pos 0) ≡ false)
              × (evictable_tier (f ∷ fs) task others victims init ≡ ([], init)))
            ⊎ ((eqb_ℤ (f task others).1 (pos 0) ≡ false)
                × (evictable_tier (f ∷ fs) task others victims init
                    ≡ evictable_tier fs task others
                        (if init then intersection victims (f task others).0 else (f task others).0)
                        true)))
  unfolding evictable_tier
  tier_step f fs victims init = ground arith

  tier_kept :
      (fs : List EvictableFn) (victims : List TaskInfo)
      → listed u (evictable_tier fs task others victims true).0 ≡ true
      → listed u victims ≡ true
  unfolding evictable_tier
  tier_kept [] victims h = h
  tier_kept (f ∷ fs) victims h = ground (
    arith,
    tier_step f fs victims true,
    tier_kept fs victims,
    tier_kept fs (intersection victims (f task others).0),
    listed-intersection u victims (f task others).0,
  )

  tier_consents :
      (fs : List EvictableFn) (victims : List TaskInfo) (init : Bool)
      → listed u (evictable_tier fs task others victims init).0 ≡ true
      → all_pass (consents task others u) fs ≡ true
  unfolding evictable_tier all_pass
  tier_consents [] victims init h = refl
  tier_consents (f ∷ fs) victims init h =
      let cs = (f task others).0 in
      elim (tier_step f fs victims init) [
        | inl (e, same) ↦
            let rest = tier_consents fs victims init (subst (λ r. listed u r.0 ≡ true) same h) in
            rw (e, rest) refl
        | inr (inl (e, same)) ↦ ground (arith, subst (λ r. listed u r.0 ≡ true) same h)
        | inr (inr (e, same)) ↦
            let h' = subst (λ r. listed u r.0 ≡ true) same h in
            let rest = tier_consents fs (if init then intersection victims cs else cs) true h' in
            let kept = tier_kept fs (if init then intersection victims cs else cs) h' in
            ground (arith, listed-intersection u victims cs)
      ]

  -- A victim of a tier was one before or is proposed in the tier.
  tier_proposes :
      (fs : List EvictableFn) (victims : List TaskInfo) (init : Bool)
      → listed u (evictable_tier fs task others victims init).0 ≡ true
      → listed u victims || some_pass (proposes task others u) fs ≡ true
  unfolding evictable_tier
  tier_proposes [] victims init h = ground arith
  tier_proposes (f ∷ fs) victims init h =
      let cs = (f task others).0 in
      elim (tier_step f fs victims init) [
        | inl (e, same) ↦
            let rest = tier_proposes fs victims init (subst (λ r. listed u r.0 ≡ true) same h) in
            ground arith
        | inr (inl (e, same)) ↦ ground (arith, subst (λ r. listed u r.0 ≡ true) same h)
        | inr (inr (e, same)) ↦
            let kept =
              tier_kept fs (if init then intersection victims cs else cs)
                (subst (λ r. listed u r.0 ≡ true) same h) in
            ground (arith, listed-intersection u victims cs)
      ]

  settled :
      (vs rest : List TaskInfo)
      → listed u (elim vs [ [] ↦ rest | w ∷ ws ↦ w ∷ ws ]) ≡ true
      → (listed u vs ≡ true) ⊎ (listed u rest ≡ true)
  settled [] rest h = inr h
  settled (w ∷ ws) rest h = inl h

  -- The outer loop: a victim was settled by one of the tiers.
  evictable-agreed :
      (flag : PluginOption → Option Bool) (fns : Dict EvictableFn)
      (tiers : List (List PluginOption)) (init : Bool)
      → listed u (evictable flag fns tiers task others init) ≡ true
      → some_pass (agrees flag fns task others u) tiers ≡ true
  unfolding evictable
  evictable-agreed flag fns [] init h = ground arith
  evictable-agreed flag fns (tier ∷ tiers) init h =
      let fs = voters flag fns tier in
      let voted = evictable_tier fs task others [] init in
      elim (settled voted.0 (evictable flag fns tiers task others voted.1) h) [
        | inl here ↦
            let all = tier_consents fs [] init here in
            let some_vote = tier_proposes fs [] init here in ground arith
        | inr there ↦ let rest = evictable-agreed flag fns tiers voted.1 there in ground arith
      ]

-- Every task that Preemptable returns was settled within one tier: there every enabled plugin with a
-- function for it either abstained or listed the task's UID, and at least one did list it.
pub preemptable_tasks-agreed :
    (ssn : Session) (preemptor : TaskInfo) (preemptees : List TaskInfo) (u : ℕ)
    → listed u (preemptable_tasks ssn preemptor preemptees) ≡ true
    → some_pass
        (agrees (λ p. p.enabled_preemptable) ssn.preemptable_fns preemptor preemptees u)
        ssn.tiers
      ≡ true
unfolding preemptable_tasks
preemptable_tasks-agreed ssn preemptor preemptees u h =
    evictable-agreed preemptor preemptees u (λ p. p.enabled_preemptable) ssn.preemptable_fns
      ssn.tiers false h

-- Every task that Reclaimable returns was settled within one tier: there every enabled plugin with a
-- function for it either abstained or listed the task's UID, and at least one did list it.
pub reclaimable_tasks-agreed :
    (ssn : Session) (reclaimer : TaskInfo) (reclaimees : List TaskInfo) (u : ℕ)
    → listed u (reclaimable_tasks ssn reclaimer reclaimees) ≡ true
    → some_pass
        (agrees (λ p. p.enabled_reclaimable) ssn.reclaimable_fns reclaimer reclaimees u)
        ssn.tiers
      ≡ true
unfolding reclaimable_tasks
reclaimable_tasks-agreed ssn reclaimer reclaimees u h =
    evictable-agreed reclaimer reclaimees u (λ p. p.enabled_reclaimable) ssn.reclaimable_fns
      ssn.tiers false h
