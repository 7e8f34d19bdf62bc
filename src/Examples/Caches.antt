-- ===== src/Examples/Caches.antt =====
-- Tasks that come into the cache, and change there.
use k8s_simulator.Common.{
  ℕ, ◌≡◌, refl, sym, subst, true, Option, [], ◌∷◌, arith, lookup, insert, Returns,
}
use k8s_simulator.Task.{TaskInfo, set_node_name, new_task_info}
use k8s_simulator.Job.Books.{IsBooked}
use k8s_simulator.Cache.{SchedulerCache, CacheError, add_task_to_cache, update_task_in_cache}
use k8s_simulator.Cache.Places.{IsCacheNode}
use k8s_simulator.Cache.Pods.{IsKept, IsNew}
use k8s_simulator.Cache.Updates.{add_task_to_cache-IsKept, update_task_in_cache-IsKept}
use k8s_simulator.Job.{new_job_info, add_all, add_task_info}
use k8s_simulator.Examples.Data.{task, free_node, free_node-IsAccounted}
use k8s_simulator.Examples.Jobs.{pair_job, pair_job-IsBooked}
use k8s_simulator.Examples.Reaching.{task-IsRequest}

abbrev sc : SchedulerCache
sc = record { jobs = (1, pair_job) ∷ []; nodes = (9, free_node) ∷ []; deleted_jobs = [] }

free_node-IsCacheNode : IsCacheNode 9 free_node
free_node-IsCacheNode = record {
  distinct = free_node-IsAccounted.distinct;
  requests = free_node-IsAccounted.requests;
  counted = λ v e. free_node-IsAccounted;
  named = refl;
}

sc-IsKept : IsKept sc
unfolding lookup
sc-IsKept = record {
  booked = λ k job e.
      let same : job ≡ pair_job = ground arith in subst IsBooked (sym same) pair_job-IsBooked;
  placed = λ k ni e.
      let same : ni ≡ free_node = ground arith in
      let key : k ≡ 9 = ground arith in
      subst (λ h. IsCacheNode h ni) (sym key)
        (subst (IsCacheNode 9) (sym same) free_node-IsCacheNode);
}

abbrev placed : ℕ → TaskInfo
placed n = set_node_name (task n) 9

placed-IsNew : IsNew sc (placed 3)
unfolding lookup new_task_info new_job_info add_all add_task_info insert
placed-IsNew job owned e = let same : job ≡ pair_job = ground arith in rw same refl

add_task_to_cache-IsKept_example :
    Returns
      (λ (r : SchedulerCache × Option CacheError). IsKept r.0)
      (add_task_to_cache (λ n. true) sc (placed 3))
add_task_to_cache-IsKept_example =
    add_task_to_cache-IsKept (λ n. true) sc (placed 3) sc-IsKept (task-IsRequest 3) placed-IsNew

update_task_in_cache-IsKept_example :
    Returns
      (λ (r : SchedulerCache × Option CacheError). IsKept r.0)
      (update_task_in_cache (λ n. true) sc (task 1) (placed 1))
update_task_in_cache-IsKept_example =
    update_task_in_cache-IsKept (λ n. true) sc (task 1) (placed 1) sc-IsKept (task-IsRequest 1) refl
      refl
