-- ===== src/Service/Limiter.antt =====
-- authz_service/middleware.py, `_SlidingWindowLimiter`. Times are milliseconds; the lock makes each
-- call one step. A bucket has the times of the requests that were let pass, the oldest first.
pub mod Window
pub mod Guarantee
use authz.Base.{
  ℕ, zero, ◌+◌, ◌-◌, String, Bool, true, false, List, [], ◌∷◌, ◌++◌, Result, ok, err, Dict, insert,
  get_or, leb, string_eq, if◌then◌else◌,
}
use authz.Policies.Value.{PyError, index_error}

pub record SlidingWindowLimiter : Type 0 where
  pub limit : ℕ
  pub window : ℕ
  pub buckets : Dict String (List ℕ)

unfoldable pub sliding_window_limiter : (limit window : ℕ) → SlidingWindowLimiter
sliding_window_limiter limit window = record { limit = limit; window = window; buckets = [] }

unfoldable pub length : List ℕ → ℕ
length [] = 0
length (t ∷ ts) = 1 + length ts

-- `while bucket and bucket[0] <= cutoff: bucket.popleft()`, with the cutoff `now - window`
unfoldable pub expire : (window now : ℕ) → List ℕ → List ℕ
expire window now [] = []
expire window now (t ∷ ts) =
    let rest = expire window now ts in if leb (t + window) now then rest else t ∷ ts

-- `max(0.001, bucket[0] + self.window - now)`
unfoldable pub retry_after : (window now : ℕ) → List ℕ → Result PyError ℕ
retry_after window now [] = err index_error
retry_after window now (t ∷ ts) = ok (if leb 1 (t + window - now) then t + window - now else 1)

-- What the caller learns: may it pass, how many more may, and when to come back.
pub record Answer : Type 0 where
  pub allowed : Bool
  pub remaining : ℕ
  pub retry : ℕ

abbrev pub refused : Result PyError ℕ → Result PyError Answer
refused (ok t) = ok (record { allowed = false; remaining = 0; retry = t })
refused (err e) = err e

-- `allow`
unfoldable pub allow :
    (now : ℕ) → String → SlidingWindowLimiter → Result PyError Answer × SlidingWindowLimiter
allow now key l =
    let bucket = expire l.window now (get_or key [] l.buckets) in
    if leb l.limit (length bucket)
    then (
      refused (retry_after l.window now bucket),
      record l { buckets = insert key bucket l.buckets },
    )
    else (
      ok (record { allowed = true; remaining = l.limit - length (bucket ++ now ∷ []); retry = 0 }),
      record l { buckets = insert key (bucket ++ now ∷ []) l.buckets },
    )
