-- ===== src/Api/RateLimit/Redis/Counts.antt =====
-- apps/api/src/rate-limit.ts: the count that a script keeps under a key, and the time that the key has
-- left, through calls and waits.
use ntauth.Common.{
  ℕ, zero, suc, ◌+◌, ◌-◌, ◌*◌, ◌<◌, ◌≡◌, refl, ap, sym, ◌∙◌, false, some, List, [], ◌∷◌, length,
  arith, ◌==◌,
}
use ntauth.Text.{Text}
use ntauth.Api.RateLimit.Redis.{Commands, Laws, IsLifetime, greatest, counted}

-- The milliseconds of several waits.
abbrev pub total : List ℕ → ℕ
total [] = 0
total (t ∷ waits) = t + total waits

pub total_none : (waits : List ℕ) → length waits ≡ 0 → total waits ≡ 0
total_none [] e = refl
total_none (t ∷ waits) e = omega (arith, e)

module _ {S : Type 0} (redis : Commands S) (laws : Laws redis) where
  -- The key has the count `n`, and `left` milliseconds if it has one.
  abbrev pub Counts : Text → ℕ → ℕ → S → Type 0
  Counts key zero left s = laws.value key s ≡ 0
  Counts key (suc n) left s = (laws.value key s ≡ suc n) × (laws.life key s ≡ some left)

  pub Counts-value : (key : Text) (n left : ℕ) (s : S) → Counts key n left s → laws.value key s ≡ n
  Counts-value key zero left s h = h
  Counts-value key (suc n) left s h = h.0

  pub incr-Counts :
      (key : Text) (n left : ℕ) (s : S)
      → n < greatest
      → Counts key n left s
      → (redis.incr key s).0 ≡ suc n
  incr-Counts key n left s small h =
      let held = Counts-value key n left s h in
      omega (arith, laws.incr-result key s (omega (arith, held)), held)

  pub counted-Counts :
      (key : Text) (window_seconds n left : ℕ) (s : S)
      → IsLifetime window_seconds
      → n < greatest
      → (n ≡ 0 → left ≡ window_seconds * 1000)
      → Counts key n left s
      → Counts key (suc n) left (counted redis key window_seconds s)
  counted-Counts key window_seconds zero left s positive small whole h =
      let s1 = (redis.incr key s).1 in
      let one : laws.value key s1 ≡ 1 =
        omega (arith, laws.incr-value key s (omega (arith, h, small)), h) in
      rw (incr-Counts key zero left s small h) (
        laws.expire-value key window_seconds s1 positive ∙ one,
        laws.expire-life key window_seconds s1 positive (omega (arith, one))
            ∙ ap some (sym (whole refl)),
      )
  counted-Counts key window_seconds (suc n) left s positive small whole h =
      let later : ((redis.incr key s).0 == 1) ≡ false =
        ground (arith, incr-Counts key (suc n) left s small h) in
      let below : laws.value key s < greatest = omega (arith, h.0, small) in
      rw later (
        laws.incr-value key s below ∙ ap suc h.0,
        laws.incr-life key s (omega (arith, h.0)) below ∙ h.1,
      )

  pub elapse-Counts :
      (key : Text) (n left t : ℕ) (s : S)
      → t < left
      → Counts key (suc n) left s
      → Counts key (suc n) (left - t) (redis.elapse t s)
  elapse-Counts key n left t s early h =
      (laws.elapse-value key t left s h.1 early ∙ h.0, laws.elapse-life key t left s h.1 early)

  -- One more call and a wait after it, in a window that has not ended then.
  pub waited-Counts :
      (key : Text) (window_seconds t : ℕ) (waits : List ℕ) (s : S)
      → IsLifetime window_seconds
      → t + total waits < window_seconds * 1000
      → length waits < greatest
      → Counts key (length waits) (window_seconds * 1000 - total waits) s
      → Counts key
          (suc (length waits))
          (window_seconds * 1000 - (t + total waits))
          (redis.elapse t (counted redis key window_seconds s))
  waited-Counts key window_seconds t waits s positive within small h =
      let left = window_seconds * 1000 - total waits in
      let rest : window_seconds * 1000 - (t + total waits) ≡ left - t = omega arith in
      rw rest (
        elapse-Counts key (length waits) left t (counted redis key window_seconds s) (omega arith) (
          counted-Counts key window_seconds (length waits) left s positive small
            (λ none_yet. omega (arith, total_none waits none_yet)) h))

  -- One more call and a wait to the end of the window.
  pub ended :
      (key : Text) (window_seconds t : ℕ) (waits : List ℕ) (s : S)
      → IsLifetime window_seconds
      → total waits < window_seconds * 1000
      → window_seconds * 1000 < t + total waits
      → length waits < greatest
      → Counts key (length waits) (window_seconds * 1000 - total waits) s
      → laws.value key (redis.elapse t (counted redis key window_seconds s)) ≡ 0
  ended key window_seconds t waits s positive within over small h =
      let left = window_seconds * 1000 - total waits in
      let alive =
        counted-Counts key window_seconds (length waits) left s positive small
          (λ none_yet. omega (arith, total_none waits none_yet)) h in
      laws.elapse-expired key t left (counted redis key window_seconds s) alive.1 (omega arith)
