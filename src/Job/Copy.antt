-- ===== src/Job/Copy.antt =====
-- The clone of a job.
use k8s_simulator.Common.{
  ℕ, ◌≡◌, refl, Option, none, some, [], ◌∷◌, arith, pos, Dict, lookup, insert, Distinct,
  lookup-insert, lookup-cons_old, lookup-cons_self,
}
use k8s_simulator.Resource.{empty_resource}
use k8s_simulator.Resource.Exact.{IsRequest}
use k8s_simulator.Resource.Delta.{clone_lem}
use k8s_simulator.Resource.Amounts.{get-empty_resource}
use k8s_simulator.Task.{TaskInfo, clone_task}
use k8s_simulator.Task.Totals.{AreRequests, total}
use k8s_simulator.Job.{JobInfo, add_task_info, add_all, clone_tasks, clone_job}
use k8s_simulator.Job.Index.{at, of_code}
use k8s_simulator.Job.Tally.{tally, weigh_tasks}
use k8s_simulator.Job.Books.{IsBooked}
use k8s_simulator.Job.Creation.{AreNew, AllRequests, add_all-IsBooked}

pub clone-IsRequest : (t : TaskInfo) → IsRequest t.resreq → IsRequest (clone_task t).resreq
unfolding clone_task
clone-IsRequest t q = rw (clone_lem t.resreq q.formed.distinct) q

clone_tasks-AllRequests :
    (d : Dict TaskInfo) → Distinct d → AreRequests d → AllRequests (clone_tasks d)
unfolding clone_tasks
clone_tasks-AllRequests [] h q = tt
clone_tasks-AllRequests ((k, t) ∷ d) h q = (
  clone-IsRequest t (q k t (lookup-cons_self k t d)),
  clone_tasks-AllRequests d h.1 (λ j u e. q j u (lookup-cons_old k j t u d h.0 e)),
)

-- Each task is filed under its identifier, and none of them is in the map that they go to.
abbrev AreKeyed : Dict TaskInfo → Type 0
AreKeyed d = (k : ℕ) (t : TaskInfo) → lookup k d ≡ some t → t.uid ≡ k

abbrev AreFree : Dict TaskInfo → Dict TaskInfo → Type 0
AreFree target d = (k : ℕ) (t : TaskInfo) → lookup k d ≡ some t → lookup k target ≡ none

insert-AreFree :
    (target d : Dict TaskInfo) (k : ℕ) (t : TaskInfo)
    → lookup k d ≡ none
    → AreKeyed ((k, t) ∷ d)
    → AreFree target ((k, t) ∷ d)
    → AreFree (insert t.uid (clone_task t) target) d
insert-AreFree target d k t h keyed free j u e = ground (
  arith,
  lookup-insert t.uid j (clone_task t) target,
  keyed k t (lookup-cons_self k t d),
  free j u (lookup-cons_old k j t u d h e),
  h,
)

clone_tasks-AreNew :
    (target d : Dict TaskInfo)
    → Distinct d
    → AreKeyed d
    → AreFree target d
    → AreNew target (clone_tasks d)
unfolding clone_tasks clone_task
clone_tasks-AreNew target [] h keyed free = tt
clone_tasks-AreNew target ((k, t) ∷ d) h keyed free =
    let uid : t.uid ≡ k = keyed k t (lookup-cons_self k t d) in
    (
      rw uid (free k t (lookup-cons_self k t d)),
      clone_tasks-AreNew (insert t.uid (clone_task t) target) d h.1
          (λ j u e. keyed j u (lookup-cons_old k j t u d h.0 e))
          (insert-AreFree target d k t h.0 keyed free),
    )

-- The clones are found where the tasks were.
abbrev pub found_clone : Option TaskInfo → Option TaskInfo → Option TaskInfo
found_clone none old = old
found_clone (some t) old = some (clone_task t)

lookup-add_all :
    (k : ℕ) (ji : JobInfo) (d : Dict TaskInfo)
    → Distinct d
    → AreKeyed d
    → AreFree ji.tasks d
    → lookup k (add_all ji (clone_tasks d)).tasks ≡ found_clone (lookup k d) (lookup k ji.tasks)
unfolding clone_tasks add_all add_task_info lookup clone_task
lookup-add_all k ji [] h keyed free = refl
lookup-add_all k ji ((j, t) ∷ d) h keyed free =
    let rest =
      lookup-add_all k (add_task_info ji (clone_task t)) d h.1
        (λ i u e. keyed i u (lookup-cons_old j i t u d h.0 e))
        (insert-AreFree ji.tasks d j t h.0 keyed free) in
    let uid : t.uid ≡ j = keyed j t (lookup-cons_self j t d) in
    ground (arith, lookup-insert t.uid k (clone_task t) ji.tasks, h.0)

blank_copy : JobInfo → JobInfo
blank_copy ji = record ji {
  allocated_res = empty_resource;
  total_request = empty_resource;
  task_status_index = [];
  tasks = [];
  restart_num = pos 0;
  schedule_start_timestamp = none;
  nodes_fit_errors = [];
}

-- Clone of a job whose books are kept has its books kept, and lists under each identifier the clone of
-- the task that the job lists there.
pub clone_job-IsBooked :
    (ji : JobInfo)
    → IsBooked ji
    → IsBooked (clone_job ji)
      × ((k : ℕ) → lookup k (clone_job ji).tasks ≡ found_clone (lookup k ji.tasks) none)
unfolding clone_job blank_copy lookup total at of_code tally weigh_tasks
clone_job-IsBooked ji b = (
  add_all-IsBooked (blank_copy ji) (clone_tasks ji.tasks)
      (record {
        distinct = tt;
        index_distinct = tt;
        keyed = λ k t e. cc;
        filed = λ c. refl;
        tallied = λ w. refl;
        requests = λ k t e. cc;
        total_eq = get-empty_resource;
        allocated_eq = get-empty_resource;
      })
      (clone_tasks-AllRequests ji.tasks b.distinct b.requests)
      (clone_tasks-AreNew [] ji.tasks b.distinct b.keyed (λ k t e. refl)),
  λ k. lookup-add_all k (blank_copy ji) ji.tasks b.distinct b.keyed (λ j t e. refl),
)
