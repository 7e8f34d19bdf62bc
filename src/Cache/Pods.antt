-- ===== src/Cache/Pods.antt =====
-- The cache as pods come and go: the books of its jobs and nodes are kept.
use k8s_simulator.Common.{
  ℕ, ◌≡◌, refl, sym, ap, ◌∙◌, subst, inl, inr, Bool, true, false, Option, none, some, [], arith,
  ◌==◌, if◌then◌else◌, Bool-cases, Option-cases, lookup, insert, lookup-insert, Returns,
  Returns-some, Returns-bind,
}
use k8s_simulator.Resource.Exact.{IsRequest}
use k8s_simulator.Task.{TaskInfo, empty_name}
use k8s_simulator.Job.{JobInfo, new_job_info, add_all, add_task_info, delete_task_info}
use k8s_simulator.Job.Books.{IsBooked, add_task_info-IsBooked}
use k8s_simulator.Job.Creation.{new_job_info-IsBooked}
use k8s_simulator.Job.Update.{without, found-eq, without-IsBooked, without_free}
use k8s_simulator.Node.{NodeInfo}
use k8s_simulator.Cache.{
  SchedulerCache, CacheError, no_cached_job, no_cached_task, get_or_create_job, file_task,
  unfile_task, leave_node, delete_task_from_cache,
}
use k8s_simulator.Cache.Places.{IsCacheNode, remove_task-IsCacheNode}

pub record IsKept (sc : SchedulerCache) : Type 0 where
  pub booked : (k : ℕ) (job : JobInfo) → lookup k sc.jobs ≡ some job → IsBooked job
  pub placed : (k : ℕ) (ni : NodeInfo) → lookup k sc.nodes ≡ some ni → IsCacheNode k ni

-- If the task names a job that the cache has, that job does not list the task's identifier.
abbrev pub IsNew : SchedulerCache → TaskInfo → Type 0
IsNew sc t =
    (job : JobInfo)
    → (t.job == empty_name) ≡ false
    → lookup t.job sc.jobs ≡ some job
    → lookup t.uid job.tasks ≡ none

pub insert_node-IsKept :
    (sc : SchedulerCache) (k : ℕ) (node : NodeInfo)
    → IsKept sc
    → IsCacheNode k node
    → IsKept (record sc { nodes = insert k node sc.nodes })
insert_node-IsKept sc k node s n = record {
  booked = s.booked;
  placed = λ i w e. elim (Bool-cases (k == i)) [
    | inl here ↦
        let same : w ≡ node = ground (arith, lookup-insert k i node sc.nodes) in
        let same_key : k ≡ i = ground arith in
        subst (λ h. IsCacheNode h w) same_key (subst (IsCacheNode k) (sym same) n)
    | inr other ↦ s.placed i w (ground (arith, lookup-insert k i node sc.nodes))
  ];
}

insert_job-IsKept :
    (sc : SchedulerCache) (k : ℕ) (job : JobInfo)
    → IsKept sc
    → IsBooked job
    → IsKept (record sc { jobs = insert k job sc.jobs })
insert_job-IsKept sc k job s b = record {
  booked = λ i j e. elim (Bool-cases (k == i)) [
    | inl here ↦
        let same : j ≡ job = ground (arith, lookup-insert k i job sc.jobs) in
        subst IsBooked (sym same) b
    | inr other ↦ s.booked i j (ground (arith, lookup-insert k i job sc.jobs))
  ];
  placed = s.placed;
}

job_for-IsBooked :
    (sc : SchedulerCache) (t : TaskInfo)
    → IsKept sc
    → IsNew sc t
    → (t.job == empty_name) ≡ false
    → IsBooked (get_or_create_job sc.jobs t.job)
      × (lookup t.uid (get_or_create_job sc.jobs t.job).tasks ≡ none)
unfolding new_job_info add_all lookup get_or_create_job
job_for-IsBooked sc t s new owned = elim (Option-cases (lookup t.job sc.jobs)) [
  | inl missing ↦ rw (get_or_create_job, missing) (new_job_info-IsBooked t.job [] tt tt, refl)
  | inr (job, e) ↦ rw (get_or_create_job, e) (s.booked t.job job e, new job owned e)
]

pub file_task-IsKept :
    (sc : SchedulerCache) (t : TaskInfo)
    → IsKept sc
    → IsRequest t.resreq
    → IsNew sc t
    → IsKept (file_task sc t)
unfolding file_task
file_task-IsKept sc t s q new = elim (Bool-cases (t.job == empty_name)) [
  | inl orphan ↦ rw (file_task, orphan) s
  | inr owned ↦
      let (b, free) = job_for-IsBooked sc t s new owned in
      rw (file_task, owned)
        (insert_job-IsKept sc t.job (add_task_info (get_or_create_job sc.jobs t.job) t) s
          (add_task_info-IsBooked (get_or_create_job sc.jobs t.job) t b q free))
]

delete_task_info-missing :
    (job : JobInfo) (t : TaskInfo)
    → lookup t.uid job.tasks ≡ none
    → delete_task_info job t ≡ some (job, false)
unfolding delete_task_info
delete_task_info-missing job t e = ground arith

-- DeleteTaskInfo, whether the job lists the task or not.
deleted-IsBooked :
    (job : JobInfo) (t : TaskInfo)
    → IsBooked job
    → Returns
        (λ (r : JobInfo × Bool). IsBooked r.0 × (lookup t.uid r.0.tasks ≡ none))
        (delete_task_info job t)
deleted-IsBooked job t b = elim (Option-cases (lookup t.uid job.tasks)) [
  | inl missing ↦ ((job, false), delete_task_info-missing job t missing, (b, missing))
  | inr (old, e) ↦ (
    (without job t.uid, true),
    found-eq job b t.uid t old refl e,
    (without-IsBooked job b t.uid, without_free job b t.uid),
  )
]

unfile_task-IsKept :
    (sc : SchedulerCache) (t : TaskInfo)
    → IsKept sc
    → Returns
        (λ (r : SchedulerCache × Option CacheError). IsKept r.0 × IsNew r.0 t)
        (unfile_task sc t)
unfolding unfile_task
unfile_task-IsKept sc t s = elim (Bool-cases (t.job == empty_name)) [
  | inl orphan ↦ rw (unfile_task, orphan) (Returns-some (sc, none) (s, λ job owned e. cc))
  | inr owned ↦ elim (Option-cases (lookup t.job sc.jobs)) [
    | inl missing ↦
        rw (unfile_task, owned, missing) (Returns-some (sc, some no_cached_job) (s, λ job o e. cc))
    | inr (job, e) ↦
        let ((job', found), run, (b, free)) = deleted-IsBooked job t (s.booked t.job job e) in
        rw (unfile_task, owned, e, run)
          (Returns-some
            (
              record sc { jobs = insert t.job job' sc.jobs },
              if found then none else some no_cached_task,
            )
            (
              insert_job-IsKept sc t.job job' s b,
              λ j o f.
                  let same : j ≡ job' = ground (arith, lookup-insert t.job t.job job' sc.jobs) in
                  subst (λ (w : JobInfo). lookup t.uid w.tasks ≡ none) (sym same) free,
            ))
  ]
]

leave_node-IsKept :
    (sc : SchedulerCache) (t : TaskInfo)
    → IsKept sc
    → Returns (λ (r : SchedulerCache). IsKept r × (r.jobs ≡ sc.jobs)) (leave_node sc t)
unfolding leave_node
leave_node-IsKept sc t s = elim (Bool-cases (t.node_name == empty_name)) [
  | inl nowhere ↦ rw (leave_node, nowhere) (Returns-some sc (s, refl))
  | inr somewhere ↦ elim (Option-cases (lookup t.node_name sc.nodes)) [
    | inl missing ↦ rw (leave_node, somewhere, missing) (Returns-some sc (s, refl))
    | inr (node, e) ↦
        let (node', run, n) =
          remove_task-IsCacheNode t.node_name node t (s.placed t.node_name node e) in
        rw (leave_node, somewhere, e, run)
          (Returns-some _ (insert_node-IsKept sc t.node_name node' s n, refl))
  ]
]

-- deleteTask in a cache with all books kept does not panic, keeps them, and leaves no task under the
-- identifier in its job.
pub delete_task-IsKept :
    (sc : SchedulerCache) (t : TaskInfo)
    → IsKept sc
    → Returns
        (λ (r : SchedulerCache × Option CacheError). IsKept r.0 × IsNew r.0 t)
        (delete_task_from_cache sc t)
unfolding delete_task_from_cache
delete_task-IsKept sc t s = Returns-bind (unfile_task-IsKept sc t s) λ (sc', e) (s', new).
    Returns-bind (leave_node-IsKept sc' t s') λ sc'' (s'', same).
      Returns-some (sc'', e) (s'', λ job o f. new job o (sym (ap (lookup t.job) same) ∙ f))
