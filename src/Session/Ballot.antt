-- ===== src/Session/Ballot.antt =====
-- pkg/scheduler/framework/session_plugins.go: the questions that the plugins answer by yes or no, by a
-- vote, by a verdict or by an error.
use k8s_simulator.Common.{
  ℕ, Bool, true, false, not, ◌||◌, Option, none, some, List, [], ◌∷◌, if◌then◌else◌, ℤ, pos, ltb_ℤ,
  Dict,
}
use k8s_simulator.Task.{TaskInfo}
use k8s_simulator.Job.{JobInfo}
use k8s_simulator.Node.{NodeInfo}
use k8s_simulator.Session.{
  PluginOption, QueueInfo, ValidateResult, Session, voters, always, all_voters, all_pass,
}

-- Overused, Allocatable and JobReady
unfoldable pub overused : Session → QueueInfo → Bool
overused ssn queue =
    not (all_pass (λ f. not (f queue)) (all_voters always ssn.overused_fns ssn.tiers))

unfoldable pub allocatable : Session → QueueInfo → TaskInfo → Bool
allocatable ssn queue candidate =
    all_pass (λ f. f queue candidate) (all_voters always ssn.allocatable_fns ssn.tiers)

unfoldable pub job_ready : Session → JobInfo → Bool
job_ready ssn obj =
    all_pass (λ f. f obj) (all_voters (λ p. p.enabled_job_ready) ssn.job_ready_fns ssn.tiers)

-- The inner loop of JobPipelined and JobEnqueueable: no value where the function returns false, and
-- `hasFound` otherwise.
unfoldable pub vote_tier : List (JobInfo → ℤ) → JobInfo → Bool → Option Bool
vote_tier [] obj has_found = some has_found
vote_tier (f ∷ fs) obj has_found =
    if ltb_ℤ (f obj) (pos 0) then none else vote_tier fs obj (ltb_ℤ (pos 0) (f obj) || has_found)

unfoldable pub vote :
    (PluginOption → Option Bool) → Dict (JobInfo → ℤ) → List (List PluginOption) → JobInfo → Bool
vote flag fns [] obj = true
vote flag fns (tier ∷ tiers) obj = elim (vote_tier (voters flag fns tier) obj false) [
  | none ↦ false
  | some has_found ↦ if has_found then true else vote flag fns tiers obj
]

unfoldable pub job_pipelined : Session → JobInfo → Bool
job_pipelined ssn obj = vote (λ p. p.enabled_job_pipelined) ssn.job_pipelined_fns ssn.tiers obj

unfoldable pub job_enqueueable : Session → JobInfo → Bool
job_enqueueable ssn obj = vote (λ p. p.enabled_job_enqueued) ssn.job_enqueueable_fns ssn.tiers obj

-- JobStarving: the first tier with a voter decides.
unfoldable pub starving_tiers : Dict (JobInfo → Bool) → List (List PluginOption) → JobInfo → Bool
starving_tiers fns [] obj = false
starving_tiers fns (tier ∷ tiers) obj = elim (voters (λ p. p.enabled_job_starving) fns tier) [
  | [] ↦ starving_tiers fns tiers obj
  | f ∷ fs ↦ all_pass (λ (g : JobInfo → Bool). g obj) (f ∷ fs)
]

unfoldable pub job_starving : Session → JobInfo → Bool
job_starving ssn obj = starving_tiers ssn.job_starving_fns ssn.tiers obj

-- JobValid
unfoldable pub first_invalid :
    List (JobInfo → Option ValidateResult) → JobInfo → Option ValidateResult
first_invalid [] obj = none
first_invalid (f ∷ fs) obj = elim (f obj) [
  | none ↦ first_invalid fs obj
  | some vr ↦ if not vr.pass then some vr else first_invalid fs obj
]

unfoldable pub job_valid : Session → JobInfo → Option ValidateResult
job_valid ssn obj = first_invalid (all_voters always ssn.job_valid_fns ssn.tiers) obj

-- TargetJob
unfoldable pub target_job : Session → List JobInfo → Option JobInfo
target_job ssn jobs = elim (all_voters (λ p. p.enabled_target_job) ssn.target_job_fns ssn.tiers) [
  | [] ↦ none
  | f ∷ fs ↦ f jobs
]

-- PredicateFn
unfoldable pub first_error : List (TaskInfo → NodeInfo → Option ℕ) → TaskInfo → NodeInfo → Option ℕ
first_error [] task node = none
first_error (f ∷ fs) task node = elim (f task node) [
  | none ↦ first_error fs task node
  | some err ↦ some err
]

unfoldable pub predicate_fn : Session → TaskInfo → NodeInfo → Option ℕ
predicate_fn ssn task node =
    first_error (all_voters (λ p. p.enabled_predicate) ssn.predicate_fns ssn.tiers) task node
