-- ===== src/Enqueue/Collect.antt =====
-- The first loop of the enqueue action: queues and pending jobs are filed.
use k8s_simulator.Common.{
  ℕ, ◌≡◌, refl, sym, ap, ◌∙◌, subst, ◌≢◌, inl, inr, Option, none, some, [], ◌∷◌, arith, ◌==◌,
  Bool-cases, Option-cases, ℤ, Dict, lookup, insert, Distinct, lookup-insert, lookup-cons_old,
  lookup-cons_self, Returns, Returns-some, Returns-bind, Returns-map, Returns-if,
}
use mathlib.Core.Logic.{∥∥₁_prop}
use mathlib.Core.Logic.Or
use mathlib.Core.List.{Mem, eq-or-mem_of_mem-cons, not-mem-nil}
use mathlib.Core.List.Perm
use k8s_simulator.Job.{JobInfo, is_pending}
use k8s_simulator.Session.{QueueInfo}
use k8s_simulator.Queue.{PriorityQueue, new_priority_queue}
use k8s_simulator.Queue.Laws.{IsPushed, push-IsPushed}
use k8s_simulator.Enqueue.{
  EnqueueSession, EnqueueState, start_waiting, file_job, file_queue, collect_job, collect,
}
use k8s_simulator.Enqueue.Phases.{IsOffer}

pub uid-start_waiting : (now : ℕ → ℤ) (j : JobInfo) → (start_waiting now j).uid ≡ j.uid
unfolding start_waiting
uid-start_waiting now j = ground arith

pending-start_waiting :
    (now : ℕ → ℤ) (j : JobInfo) → is_pending (start_waiting now j) ≡ is_pending j
unfolding start_waiting is_pending
pending-start_waiting now j = elim (Option-cases j.schedule_start_timestamp) [
  | inl new ↦ rw new refl
  | inr (t, seen) ↦ rw seen refl
]

placed : (u k : ℕ) (x : JobInfo) (jobs : Dict JobInfo) → u ≡ k → lookup k (insert u x jobs) ≡ some x
placed u k x jobs e = rw (lookup-insert u k x jobs) (ground arith)

passed :
    (u k : ℕ) (x : JobInfo) (jobs : Dict JobInfo)
    → u ≢ k
    → lookup k (insert u x jobs) ≡ lookup k jobs
passed u k x jobs h = rw (lookup-insert u k x jobs) (ground arith)

module _ {P : Type 0} (ssn : EnqueueSession P) (old : Dict JobInfo) (now : ℕ → ℤ) where
  -- Every job that is filed may be admitted.
  abbrev pub Offers : EnqueueState P → Type 0
  Offers st =
      (k : ℕ) (q : PriorityQueue JobInfo)
      → lookup k st.jobs_map ≡ some q
      → (x : JobInfo) → Mem x q.items
      → ∥ IsOffer old now x ∥₁

  pushed-offers :
      (q q' : PriorityQueue JobInfo) (x : JobInfo)
      → IsPushed q x q'
      → ((y : JobInfo) → Mem y q.items → ∥ IsOffer old now y ∥₁)
      → ∥ IsOffer old now x ∥₁
      → (y : JobInfo) → Mem y q'.items
      → ∥ IsOffer old now y ∥₁
  pushed-offers q q' x p h o y m =
      Or.elim ∥∥₁_prop (eq-or-mem_of_mem-cons ((Perm.mem_iff p.same).0 m))
        (λ e. subst (λ z. ∥ IsOffer old now z ∥₁) (sym e) o) (h y)

  file_job-Offers :
      (st : EnqueueState P) (x : JobInfo)
      → Offers st
      → ∥ IsOffer old now x ∥₁
      → Returns (λ (st' : EnqueueState P). Offers st' × (st'.jobs ≡ st.jobs)) (file_job ssn st x)
  unfolding file_job new_priority_queue
  file_job-Offers st x h o = elim (Option-cases (lookup x.queue st.jobs_map)) [
    | inl missing ↦
        rw (file_job, missing)
          (Returns-bind (push-IsPushed _ x) λ q p.
            Returns-some _
              (insert_offers q (pushed-offers _ q x p (λ y m. absurd (not-mem-nil m)) o), refl))
    | inr (r, there) ↦
        rw (file_job, there)
          (Returns-bind (push-IsPushed r x) λ q p.
            Returns-some _ (insert_offers q (pushed-offers r q x p (h x.queue r there) o), refl))
  ]
    where
      insert_offers :
          (q : PriorityQueue JobInfo)
          → ((y : JobInfo) → Mem y q.items → ∥ IsOffer old now y ∥₁)
          → Offers (record st { jobs_map = insert x.queue q st.jobs_map })
      insert_offers q f i r e y m = elim (Bool-cases (x.queue == i)) [
        | inl here ↦
            let same : r ≡ q = ground (arith, lookup-insert x.queue i q st.jobs_map) in
            f y (rw same at m)
        | inr other ↦ h i r (ground (arith, lookup-insert x.queue i q st.jobs_map)) y m
      ]

  file_queue-kept :
      (st : EnqueueState P) (queue : QueueInfo)
      → Returns
          (λ (st' : EnqueueState P). (st'.jobs_map ≡ st.jobs_map) × (st'.jobs ≡ st.jobs))
          (file_queue st queue)
  unfolding file_queue
  file_queue-kept st queue = elim (Option-cases (lookup queue.uid st.queue_map)) [
    | inl new ↦
        rw (file_queue, new)
          (Returns-bind (push-IsPushed st.queues queue) λ qs p. Returns-some _ (refl, refl))
    | inr (w, seen) ↦ rw (file_queue, seen) (Returns-some st (refl, refl))
  ]

  collect_job-Offers :
      (st : EnqueueState P) (j : JobInfo)
      → Offers st
      → lookup j.uid old ≡ some j
      → Returns
          (λ (st' : EnqueueState P).
            Offers st' × (st'.jobs ≡ insert j.uid (start_waiting now j) st.jobs))
          (collect_job ssn now st j)
  unfolding collect_job
  collect_job-Offers st j h found =
      let x = start_waiting now j in
      let same_uid = uid-start_waiting now j in
      let seen = record st { jobs = insert x.uid x st.jobs } in
      elim (Option-cases (lookup x.queue ssn.queues)) [
        | inl missing ↦
            rw (collect_job, missing) (Returns-some seen (h, ap (λ u. insert u x st.jobs) same_uid))
        | inr (queue, there) ↦
            rw (collect_job, there)
              (Returns-bind (file_queue-kept seen queue) λ st' (same_map, same_jobs).
                let jobs_eq : st'.jobs ≡ insert j.uid x st.jobs =
                  same_jobs ∙ ap (λ u. insert u x st.jobs) same_uid in
                let kept : Offers st' = λ i q e. h i q (sym (ap (lookup i) same_map) ∙ e) in
                Returns-if (is_pending x)
                  (λ pending.
                    Returns-map
                      (file_job-Offers st' x kept ∣ record {
                        job = j;
                        found = rw same_uid found;
                        waiting = refl;
                        is_new = sym (pending-start_waiting now j) ∙ pending;
                      } ∣₁)
                      λ st'' (offers, same). (offers, same ∙ jobs_eq))
                  λ decided. Returns-some st' (kept, jobs_eq))
      ]

  -- What the loop leaves under a key, for a map of jobs that it visits.
  abbrev pub visited : Option JobInfo → Option JobInfo → Option JobInfo
  visited none before = before
  visited (some j) before = some (start_waiting now j)

  pub collect-Offers :
      (d : Dict JobInfo) (st : EnqueueState P)
      → Distinct d
      → ((k : ℕ) (j : JobInfo) → lookup k d ≡ some j → (j.uid ≡ k) × (lookup k old ≡ some j))
      → Offers st
      → Returns
          (λ (st' : EnqueueState P).
            Offers st' × ((k : ℕ) → lookup k st'.jobs ≡ visited (lookup k d) (lookup k st.jobs)))
          (collect ssn now d st)
  unfolding collect lookup
  collect-Offers [] st u keyed h = Returns-some st (h, λ k. refl)
  collect-Offers ((i, j) ∷ d) st u keyed h =
      let (same, found) = keyed i j (lookup-cons_self i j d) in
      Returns-bind (collect_job-Offers st j h (subst (λ k. lookup k old ≡ some j) (sym same) found))
        λ st' (h', jobs_eq).
          Returns-map
            (collect-Offers d st' u.1 (λ k w e. keyed k w (lookup-cons_old i k j w d u.0 e)) h')
            λ st'' (h'', after). (
              h'',
              λ k. elim (Bool-cases (i == k)) [
                | inl here ↦
                    let same_key : i ≡ k = ground arith in
                    let gone : lookup k d ≡ none = rw same_key at u.0 in
                    let now_at : lookup k st'.jobs ≡ some (start_waiting now j) =
                      ap (lookup k) jobs_eq
                      ∙ placed j.uid k (start_waiting now j) st.jobs (same ∙ same_key) in
                    simp (here, gone, now_at, after k)
                | inr other ↦
                    let kept : lookup k st'.jobs ≡ lookup k st.jobs =
                      ap (lookup k) jobs_eq
                      ∙ passed j.uid k (start_waiting now j) st.jobs (λ e. ground arith) in
                    simp (other, kept, after k)
              ],
            )
