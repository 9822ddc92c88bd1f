-- ===== src/Service/Limiter/Guarantee.antt =====
-- authz_service/middleware.py, `_SlidingWindowLimiter`: the limiter against the history of its calls.
use authz.Base.{
  ℕ, ◌≤◌, ◌<◌, String, false, ◌≡◌, refl, [], ◌∷◌, ◌++◌, Result, ok, err, sym, ◌∙◌, insert, get_or,
  lookup, get_or-insert, keep, leb, string_eq, eq_iff, ◌==◌, arith, if◌then◌else◌, Bool-cases, inl,
  inr,
}
use mathlib.Core.Path.{subst}
use authz.Policies.Value.{PyError}
use authz.Service.Limiter.{
  refused, SlidingWindowLimiter, sliding_window_limiter, length, expire, retry_after, allow,
}
use authz.Service.Limiter.Window.{
  History, passed, lets_pass, Used, new, call, in_window, Remembers, expired, later_on, noted,
  noted_elsewhere, length-keep,
}

refused_blocks : (r : Result PyError ℕ) → lets_pass (refused r) ≡ false
refused_blocks (ok t) = refl
refused_blocks (err e) = refl

record Keeps (limit window last : ℕ) (h : History) (l : SlidingWindowLimiter) : Type 0 where
  buckets : (k : String) → Remembers limit window last h k (get_or k [] l.buckets)

new-Keeps : (limit window : ℕ) → Keeps limit window 0 [] (sliding_window_limiter limit window)
unfolding sliding_window_limiter get_or lookup length passed keep
new-Keeps limit window = record {
  buckets = λ k. record { rises = tt; bounded = omega arith; faithful = λ now after. refl };
}

-- The new limiter of a call that passes, and of one that does not.
passing :
    (limit window last now : ℕ) (h : History) (l : SlidingWindowLimiter) (key : String)
    → last ≤ now
    → Keeps limit window last h l
    → length (expire window now (get_or key [] l.buckets)) < limit
    → Keeps limit window now (h ++ (key, now) ∷ []) (record l {
      buckets = insert key (expire window now (get_or key [] l.buckets) ++ now ∷ []) l.buckets;
    })
passing limit window last now h l key later kept room = record {
  buckets = λ k. elim (Bool-cases (key == k)) [
    | inl same ↦
        rw
          (
            get_or-insert key k (expire window now (get_or key [] l.buckets) ++ now ∷ []) []
                l.buckets,
            same,
            ← (eq_iff key k).0 same,
          )
          (noted limit window now h key (expire window now (get_or key [] l.buckets)) room (
            expired limit window last now h key (get_or key [] l.buckets) later (kept.buckets key)))
    | inr other ↦
        rw
          (
            get_or-insert key k (expire window now (get_or key [] l.buckets) ++ now ∷ []) []
                l.buckets,
            other,
          )
          (noted_elsewhere limit window now h k key (get_or k [] l.buckets) other
            (later_on limit window last now h k (get_or k [] l.buckets) later (kept.buckets k)))
  ];
}

blocked :
    (limit window last now : ℕ) (h : History) (l : SlidingWindowLimiter) (key : String)
    → last ≤ now
    → Keeps limit window last h l
    → Keeps limit window now h
        (record l { buckets = insert key (expire window now (get_or key [] l.buckets)) l.buckets })
blocked limit window last now h l key later kept = record {
  buckets = λ k. elim (Bool-cases (key == k)) [
    | inl same ↦
        rw
          (
            get_or-insert key k (expire window now (get_or key [] l.buckets)) [] l.buckets,
            same,
            ← (eq_iff key k).0 same,
          )
          (expired limit window last now h key (get_or key [] l.buckets) later (kept.buckets key))
    | inr other ↦
        rw (get_or-insert key k (expire window now (get_or key [] l.buckets)) [] l.buckets, other)
          (later_on limit window last now h k (get_or k [] l.buckets) later (kept.buckets k))
  ];
}

call-Keeps :
    (last now : ℕ) (h : History) (l : SlidingWindowLimiter) (key : String)
    → last ≤ now
    → Keeps l.limit l.window last h l
    → Keeps l.limit l.window now
        (if lets_pass (allow now key l).0 then h ++ (key, now) ∷ [] else h)
        (allow now key l).1
unfolding allow
call-Keeps last now h l key later kept =
    let bucket = expire l.window now (get_or key [] l.buckets) in
    elim (Bool-cases (leb l.limit (length bucket))) [
      | inr room ↦
          rw (room, allow) (passing l.limit l.window last now h l key later kept (ground arith))
      | inl full ↦
          rw (full, allow)
            (rw (refused_blocks (retry_after l.window now bucket))
              (blocked l.limit l.window last now h l key later kept))
    ]

allow-same :
    (now : ℕ) (key : String) (l : SlidingWindowLimiter)
    → ((allow now key l).1.limit ≡ l.limit) × ((allow now key l).1.window ≡ l.window)
unfolding allow
allow-same now key l = ground arith

new-same :
    (limit window : ℕ)
    → ((sliding_window_limiter limit window).limit ≡ limit)
      × ((sliding_window_limiter limit window).window ≡ window)
unfolding sliding_window_limiter
new-same limit window = (refl, refl)

Used-Keeps :
    (limit window : ℕ) {last : ℕ} {h : History} {l : SlidingWindowLimiter}
    → Used limit window last h l
    → (l.limit ≡ limit) × (l.window ≡ window) × Keeps limit window last h l
Used-Keeps limit window new =
    ((new-same limit window).0, (new-same limit window).1, new-Keeps limit window)
Used-Keeps limit window (call {last} {h} {l} now key used later) =
    let (a, b, kept) = Used-Keeps limit window used in
    let (c, d) = allow-same now key l in
    let after = (if lets_pass (allow now key l).0 then h ++ (key, now) ∷ [] else h) in
    (
      c ∙ a,
      d ∙ b,
      subst (λ (x : ℕ). Keeps x window now after (allow now key l).1) a
          (subst (λ (x : ℕ). Keeps l.limit x now after (allow now key l).1) b
            (call-Keeps last now h l key later (
              subst (λ (x : ℕ). Keeps x l.window last h l) (sym a)
                (subst (λ (x : ℕ). Keeps limit x last h l) (sym b) kept)))),
    )

-- The rate limit: of a limiter that has been used by calls at times that do not fall, whatever keys
-- they were for, at any time from the last call on, no more requests of a key than the limit have
-- passed within the window that ends then.
pub passed-le-limit :
    (limit window last now : ℕ) (h : History) (l : SlidingWindowLimiter) (key : String)
    → Used limit window last h l
    → last ≤ now
    → length (keep (in_window window now) (passed key h)) ≤ limit
passed-le-limit limit window last now h l key used later =
    let (_, _, kept) = Used-Keeps limit window used in
    let m = kept.buckets key in
    rw (← m.faithful now later)
      (ground (arith, length-keep (in_window window now) (get_or key [] l.buckets), m.bounded))
