-- ===== src/Web/HttpSession/Jobs.antt =====
-- The limit on WHEP requests that wait or run.
use skai_edge_native.Common.{ℕ, suc, ◌+◌, ◌≤◌, ◌≡◌, true, false, leb, if◌then◌else◌, arith}
use skai_edge_native.Web.HttpSession.{Signaling, make_signaling, enter, refuse, finish}

-- The atomic operations, from the event loop and the threads of the pool. The event loop is one thread,
-- so a request is refused before the next one is read.
pub data Step : Signaling → Signaling → Type 0 where
  enters : (s : Signaling) → s.refusing ≡ 0 → Step s (enter s).1
  refuses : (n : ℕ) (s : Signaling) → s.refusing ≡ suc n → Step s (refuse s)
  finishes : (n : ℕ) (s : Signaling) → s.running ≡ suc n → Step s (finish s)

pub data Reached (max_peers : ℕ) : Signaling → Type 0 where
  begins : Reached max_peers (make_signaling max_peers)
  follows : (s t : Signaling) → Reached max_peers s → Step s t → Reached max_peers t

-- The counter counts, and the jobs are within the limit.
pub record IsLimited (s : Signaling) : Type 0 where
  pub positive : 1 ≤ s.limit
  pub counted : s.signaling_jobs ≡ s.running + s.refusing
  pub limited : s.running ≤ s.limit
  pub alone : s.refusing ≤ 1

Step-IsLimited : (s t : Signaling) → Step s t → IsLimited s → IsLimited t
unfolding enter refuse finish
Step-IsLimited _ _ (enters s e) v = ground arith
Step-IsLimited _ _ (refuses n s e) v = ground arith
Step-IsLimited _ _ (finishes n s e) v = ground arith

-- However requests come and jobs end: the counter is the number of jobs in the pool and of the one
-- refusal under way, and the jobs are never more than the limit, which is at least 1.
pub Reached-IsLimited : (max_peers : ℕ) (s : Signaling) → Reached max_peers s → IsLimited s
unfolding make_signaling
Reached-IsLimited max_peers _ begins = ground arith
Reached-IsLimited max_peers _ (follows s t r e) =
    Step-IsLimited s t e (Reached-IsLimited max_peers s r)

-- Between requests, a request is taken exactly when there are fewer jobs in the pool than the limit.
pub enter_lem :
    (max_peers : ℕ) (s : Signaling)
    → Reached max_peers s
    → s.refusing ≡ 0
    → (enter s).0 ≡ (if leb s.limit s.running then false else true)
unfolding enter
enter_lem max_peers s r e = let v = Reached-IsLimited max_peers s r in ground (arith, v.counted)
