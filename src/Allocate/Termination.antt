-- ===== src/Allocate/Termination.antt =====
-- The allocate action ends.
use k8s_simulator.Common.{
  ℕ, ◌≤◌, ◌≡◌, refl, inl, inr, Bool, true, ==_refl, some, List, [], ◌∷◌, All, arith, pos, ◌≤ℤ◌,
  Dict, Distinct, lookup, lookup-cons_self, lookup-cons_old, length,
}
use k8s_simulator.Common.Runs.{Ends, Ends-map}
use k8s_simulator.Common.Sums.{contains, missing}
use k8s_simulator.Job.{JobInfo}
use k8s_simulator.Job.Books.{IsBooked}
use k8s_simulator.Session.{QueueInfo}
use k8s_simulator.Queue.{new_priority_queue}
use k8s_simulator.Statement.{SessionState}
use k8s_simulator.Statement.Commit.{Cluster}
use k8s_simulator.Statement.Soundness.{IsSound}
use k8s_simulator.Statement.Binding.{as_session}
use k8s_simulator.Allocate.{AllocateSession, AllocateState, namespace_order}
use k8s_simulator.Allocate.Progress.{size, IsReady}
use k8s_simulator.Allocate.Rounds.{execute}
use k8s_simulator.Allocate.Execution.{serve_namespaces-EndsLater}
use k8s_simulator.Allocate.Filing.{file_jobs-IsReady}

-- The identifiers of the jobs of a session.
abbrev pub uids : Dict JobInfo → List ℕ
uids [] = []
uids ((k, job) ∷ d) = job.uid ∷ uids d

contains-cons : (x u : ℕ) (us : List ℕ) → contains u us ≡ true → contains u (x ∷ us) ≡ true
contains-cons x u us h = ground arith

more_uids :
    (x : ℕ) (us : List ℕ) (d : Dict JobInfo)
    → All (λ (e : ℕ × JobInfo). contains e.1.uid us ≡ true) d
    → All (λ (e : ℕ × JobInfo). contains e.1.uid (x ∷ us) ≡ true) d
more_uids x us [] h = tt
more_uids x us ((k, job) ∷ d) h = (contains-cons x job.uid us h.0, more_uids x us d h.1)

All-uids : (d : Dict JobInfo) → All (λ (e : ℕ × JobInfo). contains e.1.uid (uids d) ≡ true) d
All-uids [] = tt
All-uids ((k, job) ∷ d) =
    (ground (arith, ==_refl job.uid), more_uids job.uid (uids d) d (All-uids d))

All-offered :
    (us : List ℕ) (d : Dict JobInfo)
    → Distinct d
    → ((k : ℕ) (job : JobInfo) → lookup k d ≡ some job → IsBooked job)
    → All (λ (e : ℕ × JobInfo). contains e.1.uid us ≡ true) d
    → All (λ (e : ℕ × JobInfo). (contains e.1.uid us ≡ true) × ∥ IsBooked e.1 ∥₁) d
All-offered us [] u b h = tt
All-offered us ((k, job) ∷ d) u b h = (
  (h.0, ∣ b k job (lookup-cons_self k job d) ∣₁),
  All-offered us d u.1 (λ i j e. b i j (lookup-cons_old k i job j d u.0 e)) h.1,
)

module _ {P : Type 0} (env : AllocateSession P) where
  -- What the action leaves.
  abbrev pub IsServed : AllocateState P → Type 0
  IsServed st = IsSound (as_session st.cluster) × IsSound st.ssn × (length st.namespaces.items ≡ 0)

  fresh-IsReady :
      (cluster : Cluster) (ssn : SessionState P) (last : ℕ) (f : ℕ → ℕ → Bool)
      → IsSound (as_session cluster)
      → IsSound ssn
      → IsReady env (uids ssn.jobs) (record {
        cluster = cluster;
        ssn = ssn;
        last_processed_node_index = last;
        namespaces = new_priority_queue (some f);
        jobs_map = [];
        pending_tasks = [];
      })
  unfolding lookup
  fresh-IsReady cluster ssn last f c s = record {
    cluster_sound = c;
    sound = s;
    whole = λ k q e. absurd cc;
    maps = tt;
  }

  -- The allocate action ends, from some number of rounds on whatever their bound is, if MinNodesToFind is not
  -- negative, every queue is listed under its UID, the session lists each job once, and the books of the
  -- session and of the cluster are kept. It stops at a failed assertion of FutureIdle or at a nil node, or it is
  -- done: no namespace is left, and the books of the session and of the cluster are kept. No other
  -- panic is possible.
  pub execute-IsServed :
      (cluster : Cluster) (ssn : SessionState P) (last : ℕ)
      → pos 0 ≤ℤ env.opts.min_nodes_to_find
      → ((k : ℕ) (q : QueueInfo) → lookup k env.queues ≡ some q → q.uid ≡ k)
      → Distinct ssn.jobs
      → IsSound (as_session cluster)
      → IsSound ssn
      → (n : ℕ) × ((fuel : ℕ) → n ≤ fuel → Ends IsServed (execute fuel env cluster ssn last))
  unfolding execute
  execute-IsServed cluster ssn last sane keyed u c s =
      let universe = uids ssn.jobs in
      let offered = All-offered universe ssn.jobs u s.booked (All-uids ssn.jobs) in
      elim (file_jobs-IsReady env universe ssn.jobs _
        (fresh-IsReady cluster ssn last (namespace_order env ssn) c s) offered) [
          | inl (st, e, r) ↦
              let (n, later) =
                serve_namespaces-EndsLater env universe sane keyed
                  (missing universe st.pending_tasks) (size st) st r (omega arith) (omega arith) in
              (
                n,
                λ fuel h.
                    rw e (
                      Ends-map (later fuel h) λ st' (r', over). (r'.cluster_sound, r'.sound, over)),
              )
          | inr (inl e) ↦ (0, λ fuel h. rw e (inr (inl refl)))
          | inr (inr e) ↦ (0, λ fuel h. rw e (inr (inr refl)))
        ]
