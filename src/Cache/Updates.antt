-- ===== src/Cache/Updates.antt =====
-- addTask and updateTask in the cache.
use k8s_simulator.Common.{
  ℕ, ◌≡◌, refl, sym, subst, inl, inr, Bool, false, Option, none, some, ◌==◌, Bool-cases,
  Option-cases, Dict, lookup, insert, Returns, Returns-some, Returns-bind,
}
use k8s_simulator.Resource.Exact.{IsRequest}
use k8s_simulator.Task.{TaskInfo, empty_name}
use k8s_simulator.Node.{
  NodeInfo, Error, insufficient_idle, different_node, already_on_node, add_task,
}
use k8s_simulator.Node.Lifecycle.{new_node_info, set_node_state}
use k8s_simulator.Statement.Nodes.{IsSameTask}
use k8s_simulator.Cache.{
  SchedulerCache, CacheError, mark_out_of_sync, node_of, add_task_to_cache, update_task_in_cache,
  is_terminated,
}
use k8s_simulator.Cache.Places.{IsCacheNode, no_object, add_task-IsCacheNode}
use k8s_simulator.Cache.Pods.{
  IsKept, IsNew, insert_node-IsKept, file_task-IsKept, delete_task-IsKept,
}

mark_out_of_sync-IsCacheNode :
    (k : ℕ) (ni : NodeInfo) (e : Error) → IsCacheNode k ni → IsCacheNode k (mark_out_of_sync ni e)
unfolding mark_out_of_sync
mark_out_of_sync-IsCacheNode k ni different_node n = n
mark_out_of_sync-IsCacheNode k ni already_on_node n = n
mark_out_of_sync-IsCacheNode k ni insufficient_idle n = record {
  distinct = n.distinct;
  requests = n.requests;
  counted = λ v e.
      let a = n.counted v e in
      record {
        distinct = a.distinct;
        requests = a.requests;
        idle_eq = a.idle_eq;
        used_eq = a.used_eq;
        releasing_eq = a.releasing_eq;
        pipelined_eq = a.pipelined_eq;
      };
  named = n.named;
}

module _ (is_scalar_resource_name : ℕ → Bool) where
  node_of-IsCacheNode :
      (sc : SchedulerCache) (k : ℕ)
      → IsKept sc
      → IsCacheNode k (node_of is_scalar_resource_name sc k)
  unfolding node_of new_node_info set_node_state lookup
  node_of-IsCacheNode sc k s = elim (Option-cases (lookup k sc.nodes)) [
    | inl missing ↦
        rw (node_of, missing)
          (record {
            distinct = tt;
            requests = λ i t e. cc;
            counted = λ v e. no_object refl e;
            named = refl;
          })
    | inr (ni, e) ↦ rw (node_of, e) (s.placed k ni e)
  ]

  same-IsNew :
      (sc : SchedulerCache) (t u : TaskInfo) (nodes : Dict NodeInfo)
      → IsSameTask t u
      → IsNew sc t
      → IsNew (record sc { nodes = nodes }) u
  same-IsNew sc t u nodes same new job owned e =
      let in_job : lookup t.job sc.jobs ≡ some job =
        subst (λ j. lookup j sc.jobs ≡ some job) same.same_job e in
      let free = new job (subst (λ j. (j == empty_name) ≡ false) same.same_job owned) in_job in
      subst (λ i. lookup i job.tasks ≡ none) (sym same.same_uid) free

  placed_task :
      (sc : SchedulerCache) (t u : TaskInfo) (node : NodeInfo) (err : Option Error)
      → IsKept sc
      → IsRequest t.resreq
      → IsNew sc t
      → IsCacheNode t.node_name node
      → IsSameTask t u
      → (t.node_name == empty_name) ≡ false
      → is_terminated t.status ≡ false
      → add_task (node_of is_scalar_resource_name sc t.node_name) t ≡ some ((node, u), err)
      → Returns
          (λ (r : SchedulerCache × Option CacheError). IsKept r.0)
          (add_task_to_cache is_scalar_resource_name sc t)
  unfolding add_task_to_cache
  placed_task sc t u node none s q new n same placed live run =
      rw (add_task_to_cache, placed, live, run)
        (Returns-some _ (
          file_task-IsKept _ u (insert_node-IsKept sc t.node_name node s n)
            (subst IsRequest (sym same.same_req) q)
            (same-IsNew sc t u (insert t.node_name node sc.nodes) same new)))
  placed_task sc t u node (some e) s q new n same placed live run =
      rw (add_task_to_cache, placed, live, run)
        (Returns-some _ (
          insert_node-IsKept sc t.node_name (mark_out_of_sync node e) s
            (mark_out_of_sync-IsCacheNode t.node_name node e n)))

  -- addTask of a task that is new to the cache, with a whole request, in a cache with all books kept, does not
  -- panic and keeps them, whether the node takes the task or not.
  pub add_task_to_cache-IsKept :
      (sc : SchedulerCache) (t : TaskInfo)
      → IsKept sc
      → IsRequest t.resreq
      → IsNew sc t
      → Returns
          (λ (r : SchedulerCache × Option CacheError). IsKept r.0)
          (add_task_to_cache is_scalar_resource_name sc t)
  unfolding add_task_to_cache
  add_task_to_cache-IsKept sc t s q new =
      let n = node_of-IsCacheNode sc t.node_name s in
      elim (Bool-cases (t.node_name == empty_name)) [
        | inl nowhere ↦
            rw (add_task_to_cache, nowhere) (Returns-some _ (file_task-IsKept sc t s q new))
        | inr placed ↦ elim (Bool-cases (is_terminated t.status)) [
          | inl ended ↦
              rw (add_task_to_cache, placed, ended)
                (Returns-some _
                  (file_task-IsKept _ t (insert_node-IsKept sc t.node_name _ s n) q new))
          | inr live ↦
              let (((node, u), err), run, (m, same)) =
                add_task-IsCacheNode t.node_name (node_of is_scalar_resource_name sc t.node_name) t
                  n q in
              placed_task sc t u node err s q new m same placed live run
        ]
      ]

  -- updateTask in a cache with all books kept does not panic and keeps them, whether the old task was there or
  -- not and whether its node takes the new one or not, if the new task has the old one's identifier and job,
  -- and a whole request.
  pub update_task_in_cache-IsKept :
      (sc : SchedulerCache) (old_task new_task : TaskInfo)
      → IsKept sc
      → IsRequest new_task.resreq
      → new_task.uid ≡ old_task.uid
      → new_task.job ≡ old_task.job
      → Returns
          (λ (r : SchedulerCache × Option CacheError). IsKept r.0)
          (update_task_in_cache is_scalar_resource_name sc old_task new_task)
  unfolding update_task_in_cache
  update_task_in_cache-IsKept sc old_task new_task s q same_uid same_job =
      Returns-bind (delete_task-IsKept sc old_task s) λ (sc', e) (s', new).
        add_task_to_cache-IsKept sc' new_task s' q λ job owned f.
          let found = subst (λ j. lookup j sc'.jobs ≡ some job) same_job f in
          let named = subst (λ j. (j == empty_name) ≡ false) same_job owned in
          subst (λ u. lookup u job.tasks ≡ none) (sym same_uid) (new job named found)
