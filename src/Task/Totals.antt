-- ===== src/Task/Totals.antt =====
-- Sums over the tasks of a node or of a job, one dimension at a time.
use k8s_simulator.Common.{
  ℕ, ◌≡◌, Bool, true, false, none, some, [], ◌∷◌, arith, if◌then◌else◌, ℤ, pos, ◌+ℤ◌, ◌≤ℤ◌,
  int_laws, +ℤ_comm, +ℤ_assoc, Dict, lookup, insert, delete, Distinct, lookup-delete,
  delete-Distinct, lookup-cons_old, lookup-cons_self,
}
use k8s_simulator.Resource.{get}
use k8s_simulator.Resource.Exact.{IsRequest, IsRequest-IsNonneg}
use k8s_simulator.Task.{Status, releasing, pipelined, TaskInfo}

-- Whose resources count as used, as releasing and as pipelined.
unfoldable pub holds : Status → Bool
holds pipelined = false
holds _ = true

unfoldable pub is_releasing : Status → Bool
is_releasing releasing = true
is_releasing _ = false

unfoldable pub is_pipelined : Status → Bool
is_pipelined pipelined = true
is_pipelined _ = false

-- What one task adds to the sum in dimension `n`.
unfoldable pub share : (Status → Bool) → ℕ → TaskInfo → ℤ
share p n t = if p t.status then get t.resreq n else pos 0

unfoldable pub total : (Status → Bool) → ℕ → Dict TaskInfo → ℤ
total p n [] = pos 0
total p n ((k, t) ∷ d) = share p n t +ℤ total p n d

pub total-insert :
    (p : Status → Bool) (n k : ℕ) (t : TaskInfo) (d : Dict TaskInfo)
    → lookup k d ≡ none
    → total p n (insert k t d) ≡ total p n d +ℤ share p n t
unfolding total insert lookup
total-insert p n k t [] h = +ℤ_comm (share p n t) (pos 0)
total-insert p n k t ((j, u) ∷ d) h =
    ground (arith, total-insert p n k t d, +ℤ_assoc (share p n u) (total p n d) (share p n t))

pub total-delete :
    (p : Status → Bool) (n k : ℕ) (t : TaskInfo) (d : Dict TaskInfo)
    → lookup k d ≡ some t
    → total p n d ≡ total p n (delete k d) +ℤ share p n t
unfolding total delete lookup
total-delete p n k t [] h = cc
total-delete p n k t ((j, u) ∷ d) h = ground (
  arith,
  total-delete p n k t d,
  +ℤ_assoc (share p n u) (total p n (delete k d)) (share p n t),
  +ℤ_comm (share p n u) (total p n d),
)

abbrev pub AreRequests : Dict TaskInfo → Type 0
AreRequests d = (k : ℕ) (t : TaskInfo) → lookup k d ≡ some t → IsRequest t.resreq

pub delete-AreRequests :
    (k : ℕ) (d : Dict TaskInfo) → Distinct d → AreRequests d → AreRequests (delete k d)
delete-AreRequests k d distinct old j t e = old j t (ground (arith, lookup-delete k j d distinct))

pub share_nonneg :
    (p : Status → Bool) (n : ℕ) (t : TaskInfo) → IsRequest t.resreq → pos 0 ≤ℤ share p n t
unfolding share
share_nonneg p n t q = let h = IsRequest-IsNonneg q n in ground arith

pub total_nonneg :
    (p : Status → Bool) (n : ℕ) (d : Dict TaskInfo)
    → Distinct d
    → AreRequests d
    → pos 0 ≤ℤ total p n d
unfolding total
total_nonneg p n [] h q = omega arith
total_nonneg p n ((k, t) ∷ d) h q =
    let first = share_nonneg p n t (q k t (lookup-cons_self k t d)) in
    let rest = total_nonneg p n d h.1 (λ j u e. q j u (lookup-cons_old k j t u d h.0 e)) in
    omega int_laws

-- No task has a larger share than all tasks together.
pub share-le-total :
    (p : Status → Bool) (n k : ℕ) (t : TaskInfo) (d : Dict TaskInfo)
    → Distinct d
    → AreRequests d
    → lookup k d ≡ some t
    → share p n t ≤ℤ total p n d
share-le-total p n k t d h q e =
    let rest = total_nonneg p n (delete k d) (delete-Distinct k d h) (delete-AreRequests k d h q) in
    rw (total-delete p n k t d e) (omega int_laws)
