-- ===== src/Job/Creation.antt =====
-- A new job.
use k8s_simulator.Common.{ℕ, ◌≡◌, none, List, [], ◌∷◌, All, Dict, lookup, insert}
use k8s_simulator.Resource.Exact.{IsRequest}
use k8s_simulator.Task.{TaskInfo}
use k8s_simulator.Job.{JobInfo, add_task_info, add_all, blank_job, new_job_info}
use k8s_simulator.Job.Books.{IsBooked, blank_job-IsBooked, add_task_info-IsBooked}

-- No task of the list has the identifier of another one, or of one that is there.
abbrev pub AreNew : Dict TaskInfo → List TaskInfo → Type 0
AreNew d [] = Unit
AreNew d (t ∷ ts) = (lookup t.uid d ≡ none) × AreNew (insert t.uid t d) ts

abbrev pub AllRequests : List TaskInfo → Type 0
AllRequests ts = All (λ t. IsRequest t.resreq) ts

pub add_all-IsBooked :
    (ji : JobInfo) (ts : List TaskInfo)
    → IsBooked ji
    → AllRequests ts
    → AreNew ji.tasks ts
    → IsBooked (add_all ji ts)
unfolding add_all add_task_info
add_all-IsBooked ji [] b q new = b
add_all-IsBooked ji (t ∷ ts) b q new =
    add_all-IsBooked (add_task_info ji t) ts (add_task_info-IsBooked ji t b q.0 new.0) q.1 new.1

-- NewJobInfo makes a job whose books are kept, of tasks with different identifiers and whole requests.
pub new_job_info-IsBooked :
    (uid : ℕ) (ts : List TaskInfo) → AllRequests ts → AreNew [] ts → IsBooked (new_job_info uid ts)
unfolding new_job_info
new_job_info-IsBooked uid ts q new =
    add_all-IsBooked (blank_job uid) ts (blank_job-IsBooked uid) q new
