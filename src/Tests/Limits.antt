-- ===== src/Tests/Limits.antt =====
-- The rate limiter: two requests in a window of ten, at most.
use authz.Base.{◌≤◌, false, [], ◌∷◌, ok, ◌≡◌, refl, keep, arith, insert, get_or, lookup, string_eq}
use authz.Service.Limiter.{
  SlidingWindowLimiter, sliding_window_limiter, length, expire, retry_after, allow,
}
use authz.Service.Limiter.Window.{passed, Used, new, call, in_window}
use authz.Service.Limiter.Guarantee.{passed-le-limit}

abbrev fresh : SlidingWindowLimiter
fresh = sliding_window_limiter 2 10

abbrev after_three : SlidingWindowLimiter
after_three = (allow 5 "ann" (allow 4 "ann" (allow 3 "ann" fresh).1).1).1

-- The third request within the window is refused, and may come back when the first leaves it.
third :
    (allow 5 "ann" (allow 4 "ann" (allow 3 "ann" fresh).1).1).0
    ≡ ok (record { allowed = false; remaining = 0; retry = 8 })
unfolding sliding_window_limiter allow length expire retry_after insert get_or lookup
third = refl

after_three-Used : Used 2 10 5 (("ann", 3) ∷ ("ann", 4) ∷ []) after_three
unfolding sliding_window_limiter allow length expire retry_after insert get_or lookup
after_three-Used =
    call 5 "ann" (call 4 "ann" (call 3 "ann" new (omega arith)) (omega arith)) (omega arith)

passed-le-limit_example :
    length (keep (in_window 10 5) (passed "ann" (("ann", 3) ∷ ("ann", 4) ∷ []))) ≤ 2
passed-le-limit_example =
    passed-le-limit 2 10 5 5 (("ann", 3) ∷ ("ann", 4) ∷ []) after_three "ann" after_three-Used
      (omega arith)
