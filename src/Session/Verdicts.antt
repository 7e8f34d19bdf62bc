-- ===== src/Session/Verdicts.antt =====
-- How the votes on a job decide whether it is pipelined or enqueued.
use k8s_simulator.Common.{
  ◌≡◌, refl, Bool, true, false, ◌||◌, Option, none, some, List, [], ◌∷◌, map, arith, if◌then◌else◌,
  ℤ, pos, ltb_ℤ, Dict,
}
use k8s_simulator.Job.{JobInfo}
use k8s_simulator.Session.{PluginOption, Session, voters}
use k8s_simulator.Session.Ballot.{vote_tier, vote, job_pipelined}

-- The votes of a tier: whether some plugin is against, and whether some plugin is for.
abbrev pub some_against : List (JobInfo → ℤ) → JobInfo → Bool
some_against [] obj = false
some_against (f ∷ fs) obj = ltb_ℤ (f obj) (pos 0) || some_against fs obj

abbrev pub some_for : List (JobInfo → ℤ) → JobInfo → Bool
some_for [] obj = false
some_for (f ∷ fs) obj = ltb_ℤ (pos 0) (f obj) || some_for fs obj

-- The first tier in which not all abstain decides, and one vote against is enough there.
abbrev pub first_verdict : List (List (JobInfo → ℤ)) → JobInfo → Bool
first_verdict [] obj = true
first_verdict (fs ∷ tiers) obj =
    if some_against fs obj then false else if some_for fs obj then true else first_verdict tiers obj

vote_tier-eq :
    (fs : List (JobInfo → ℤ)) (obj : JobInfo) (has_found : Bool)
    → vote_tier fs obj has_found
      ≡ (if some_against fs obj then none else some (some_for fs obj || has_found))
unfolding vote_tier
vote_tier-eq [] obj has_found = refl
vote_tier-eq (f ∷ fs) obj has_found =
    rw (vote_tier-eq fs obj (ltb_ℤ (pos 0) (f obj) || has_found)) (
      by_cases (ltb_ℤ (f obj) (pos 0)) (some_against fs obj) (ltb_ℤ (pos 0) (f obj))
        (some_for fs obj))
  where
    by_cases :
        (against against' for for' : Bool)
        → (if against then none else (if against' then none else some (for' || (for || has_found))))
          ≡ (if against || against' then none else some ((for || for') || has_found))
    by_cases against against' for for' = ground arith

vote-eq :
    (flag : PluginOption → Option Bool) (fns : Dict (JobInfo → ℤ))
    (tiers : List (List PluginOption)) (obj : JobInfo)
    → vote flag fns tiers obj ≡ first_verdict (map (voters flag fns) tiers) obj
unfolding vote
vote-eq flag fns [] obj = refl
vote-eq flag fns (tier ∷ tiers) obj =
    ground (arith, vote_tier-eq (voters flag fns tier) obj false, vote-eq flag fns tiers obj)

-- JobPipelined: the first tier in which some enabled plugin does not abstain decides. The job may be
-- pipelined if no plugin of that tier is against, and also if all plugins of all tiers abstain.
pub job_pipelined-eq :
    (ssn : Session) (obj : JobInfo)
    → job_pipelined ssn obj
      ≡ first_verdict
          (map (voters (λ p. p.enabled_job_pipelined) ssn.job_pipelined_fns) ssn.tiers)
          obj
unfolding job_pipelined
job_pipelined-eq ssn obj = vote-eq _ ssn.job_pipelined_fns ssn.tiers obj
