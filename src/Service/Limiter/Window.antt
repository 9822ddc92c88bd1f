-- ===== src/Service/Limiter/Window.antt =====
-- authz_service/middleware.py, `_SlidingWindowLimiter`: histories of calls, and buckets in a window.
use authz.Base.{
  ℕ, ◌+◌, ◌≤◌, ◌<◌, String, Bool, false, ◌≡◌, refl, List, [], ◌∷◌, ◌++◌, Result, ok, err, ==-refl,
  ◌∙◌, keep, leb, ltb, string_eq, ◌==◌, arith, if◌then◌else◌, keep-append, Bool-cases, inl, inr,
}
use authz.Policies.Value.{PyError}
use authz.Service.Limiter.{
  SlidingWindowLimiter, sliding_window_limiter, Answer, length, expire, allow,
}

-- The times rise, and none is later than `last`.
abbrev pub Rises : (last : ℕ) → List ℕ → Type 0
Rises last [] = Unit {0}
Rises last (t ∷ []) = t ≤ last
Rises last (t ∷ u ∷ ts) = (t ≤ u) × Rises last (u ∷ ts)

pub in_window : (window now : ℕ) → ℕ → Bool
in_window window now t = ltb now (t + window)

-- The requests that were let pass: who, and when, the earliest first.
abbrev pub History : Type 0
History = List (String × ℕ)

-- The times of one key's.
unfoldable pub passed : String → History → List ℕ
passed k [] = []
passed k ((j, t) ∷ h) = let rest = passed k h in if j == k then t ∷ rest else rest

abbrev pub lets_pass : Result PyError Answer → Bool
lets_pass (ok a) = a.allowed
lets_pass (err e) = false

-- A limiter that has been used up to a time, by calls at times that do not fall.
pub data Used (limit window : ℕ) : ℕ → History → SlidingWindowLimiter → Type 0 where
  new : Used limit window 0 [] (sliding_window_limiter limit window)
  call :
      {last : ℕ} {h : History} {l : SlidingWindowLimiter} (now : ℕ) (key : String)
      → Used limit window last h l
      → last ≤ now
      → Used limit window now
          (if lets_pass (allow now key l).0 then h ++ (key, now) ∷ [] else h)
          (allow now key l).1

length-append : (ts : List ℕ) (t : ℕ) → length (ts ++ t ∷ []) ≡ length ts + 1
unfolding length
length-append [] t = refl
length-append (u ∷ ts) t = ground (arith, length-append ts t)

Rises-later : (last now : ℕ) (ts : List ℕ) → last ≤ now → Rises last ts → Rises now ts
Rises-later last now [] h r = tt
Rises-later last now (t ∷ []) h r = omega arith
Rises-later last now (t ∷ u ∷ ts) h (o, r) = (o, Rises-later last now (u ∷ ts) h r)

Rises-tail : (last t : ℕ) (ts : List ℕ) → Rises last (t ∷ ts) → Rises last ts
Rises-tail last t [] r = tt
Rises-tail last t (u ∷ ts) (o, r) = r

Rises-append : (last : ℕ) (ts : List ℕ) → Rises last ts → Rises last (ts ++ last ∷ [])
Rises-append last [] r = omega arith
Rises-append last (t ∷ []) r = (r, omega arith)
Rises-append last (t ∷ u ∷ ts) (o, r) = (o, Rises-append last (u ∷ ts) r)

Rises-expire :
    (window now last : ℕ) (ts : List ℕ) → Rises last ts → Rises last (expire window now ts)
unfolding expire
Rises-expire window now last [] r = tt
Rises-expire window now last (t ∷ ts) r = elim (Bool-cases (leb (t + window) now)) [
  | inl old ↦ rw (old, expire) (Rises-expire window now last ts (Rises-tail last t ts r))
  | inr fresh ↦ rw (fresh, expire) r
]

length-expire : (window now : ℕ) (ts : List ℕ) → length (expire window now ts) ≤ length ts
unfolding expire length
length-expire window now [] = omega arith
length-expire window now (t ∷ ts) = ground (arith, length-expire window now ts)

keep-all :
    (window now last t : ℕ) (ts : List ℕ)
    → Rises last (t ∷ ts)
    → now < t + window
    → keep (in_window window now) (t ∷ ts) ≡ t ∷ ts
unfolding keep in_window
keep-all window now last t [] r h = ground arith
keep-all window now last t (u ∷ ts) (o, r) h =
    ground (arith, keep-all window now last u ts r (omega arith))

-- Dropping old times at the front drops all of them.
expire-keep :
    (window now last : ℕ) (ts : List ℕ)
    → Rises last ts
    → expire window now ts ≡ keep (in_window window now) ts
unfolding expire keep in_window
expire-keep window now last [] r = refl
expire-keep window now last (t ∷ ts) r = elim (Bool-cases (leb (t + window) now)) [
  | inl old ↦ ground (arith, expire-keep window now last ts (Rises-tail last t ts r))
  | inr fresh ↦ ground (arith, keep-all window now last t ts r)
]

keep-keep :
    (window now then_ : ℕ) (ts : List ℕ)
    → now ≤ then_
    → keep (in_window window then_) (keep (in_window window now) ts)
      ≡ keep (in_window window then_) ts
unfolding keep in_window
keep-keep window now then_ [] h = refl
keep-keep window now then_ (t ∷ ts) h = ground (arith, keep-keep window now then_ ts)

pub length-keep : (p : ℕ → Bool) (ts : List ℕ) → length (keep p ts) ≤ length ts
unfolding keep length
length-keep p [] = omega arith
length-keep p (t ∷ ts) = ground (arith, length-keep p ts)

passed-append :
    (k j : String) (t : ℕ) (h : History)
    → passed k (h ++ (j, t) ∷ []) ≡ (if j == k then passed k h ++ t ∷ [] else passed k h)
unfolding passed
passed-append k j t [] = ground arith
passed-append k j t ((i, u) ∷ h) = ground (arith, passed-append k j t h)

-- What a bucket has to do with the history.
pub record Remembers (limit window last : ℕ) (h : History) (k : String) (bucket : List ℕ)
    : Type 0 where
  pub rises : Rises last bucket
  pub bounded : length bucket ≤ limit
  pub faithful :
      (now : ℕ)
      → last ≤ now
      → keep (in_window window now) bucket ≡ keep (in_window window now) (passed k h)

-- A call at `now` first drops what has left the window.
pub expired :
    (limit window last now : ℕ) (h : History) (k : String) (bucket : List ℕ)
    → last ≤ now
    → Remembers limit window last h k bucket
    → Remembers limit window now h k (expire window now bucket)
expired limit window last now h k bucket later m = record {
  rises = Rises-expire window now now bucket (Rises-later last now bucket later m.rises);
  bounded = ground (arith, length-expire window now bucket, m.bounded);
  faithful = λ then_ after.
      rw (expire-keep window now last bucket m.rises)
        (keep-keep window now then_ bucket after ∙ m.faithful then_ (omega arith));
}

pub later_on :
    (limit window last now : ℕ) (h : History) (k : String) (bucket : List ℕ)
    → last ≤ now
    → Remembers limit window last h k bucket
    → Remembers limit window now h k bucket
later_on limit window last now h k bucket later m = record {
  rises = Rises-later last now bucket later m.rises;
  bounded = m.bounded;
  faithful = λ then_ after. m.faithful then_ (omega arith);
}

-- It lets a request pass.
pub noted :
    (limit window now : ℕ) (h : History) (k : String) (bucket : List ℕ)
    → length bucket < limit
    → Remembers limit window now h k bucket
    → Remembers limit window now (h ++ (k, now) ∷ []) k (bucket ++ now ∷ [])
noted limit window now h k bucket room m = record {
  rises = Rises-append now bucket m.rises;
  bounded = ground (arith, length-append bucket now);
  faithful = λ then_ after.
      rw
        (
          passed-append k k now h,
          ==-refl k,
          keep-append (in_window window then_) bucket (now ∷ []),
          keep-append (in_window window then_) (passed k h) (now ∷ []),
          m.faithful then_ after,
        )
        refl;
}

-- A request of another key passes.
pub noted_elsewhere :
    (limit window now : ℕ) (h : History) (k j : String) (bucket : List ℕ)
    → (j == k) ≡ false
    → Remembers limit window now h k bucket
    → Remembers limit window now (h ++ (j, now) ∷ []) k bucket
noted_elsewhere limit window now h k j bucket other m = record {
  rises = m.rises;
  bounded = m.bounded;
  faithful = λ then_ after. rw (passed-append k j now h, other) (m.faithful then_ after);
}
