-- ===== src/Api/RateLimit/Redis/Lock.antt =====
-- apps/api/src/rate-limit.ts: the lock after failures, by `FAILURE_SCRIPT`.
use ntauth.Common.{
  ℕ, suc, ◌+◌, ◌-◌, ◌*◌, ◌≤◌, ◌<◌, ◌≡◌, ◌≢◌, refl, sym, subst, ◌∙◌, ◌⊎◌, inl, inr, true, false,
  some, List, [], ◌∷◌, length, arith, Bool-cases, ltb, leb, ◌==◌,
}
use ntauth.Text.{Text}
use ntauth.Api.RateLimit.Redis.{Commands, Laws, IsLifetime, greatest, failure_script, counted}
use ntauth.Api.RateLimit.Redis.Counts.{
  Counts, Counts-value, counted-Counts, waited-Counts, ended, total, total_none,
}

below_or_reached : (n threshold : ℕ) → n < threshold → (suc n < threshold) ⊎ (suc n ≡ threshold)
below_or_reached n threshold below = elim (Bool-cases (ltb (suc n) threshold)) [
  | inl e ↦ inl (ground (arith, e))
  | inr e ↦ inr (ground (arith, e, below))
]

module _ {S : Type 0} (redis : Commands S) where
  -- Failures under one key, each with a wait after it; the last one stands first.
  abbrev pub failed : Text → Text → ℕ → ℕ → ℕ → List ℕ → S → S
  failed failures lock threshold window_seconds lock_seconds [] s = s
  failed failures lock threshold window_seconds lock_seconds (t ∷ waits) s =
      let before = failed failures lock threshold window_seconds lock_seconds waits s in
      redis.elapse t
        (failure_script redis failures lock threshold window_seconds lock_seconds before).1

  module _ (laws : Laws redis) where
    -- A failure below the threshold is counted, and no more.
    failure_script-below :
        (failures lock : Text) (threshold window_seconds lock_seconds n : ℕ) (s : S)
        → n < greatest
        → laws.value failures s ≡ n
        → suc n < threshold
        → failure_script redis failures lock threshold window_seconds lock_seconds s
          ≡ (0, counted redis failures window_seconds s)
    unfolding failure_script
    failure_script-below failures lock threshold window_seconds lock_seconds n s small held below =
        let open_yet : leb threshold (redis.incr failures s).0 ≡ false =
          ground (arith, laws.incr-result failures s (omega (arith, held, small)), held, below) in
        rw open_yet refl

    -- The failure that reaches the threshold.
    failure_script-full :
        (failures lock : Text) (threshold window_seconds lock_seconds n : ℕ) (s : S)
        → n < greatest
        → laws.value failures s ≡ n
        → suc n ≡ threshold
        → failure_script redis failures lock threshold window_seconds lock_seconds s ≡ (
          lock_seconds,
          redis.del failures
              (redis.set_ex lock 1 lock_seconds (counted redis failures window_seconds s)),
        )
    unfolding failure_script
    failure_script-full failures lock threshold window_seconds lock_seconds n s small held reached =
        let full : leb threshold (redis.incr failures s).0 ≡ true =
          ground (arith, laws.incr-result failures s (omega (arith, held, small)), held, reached) in
        rw full refl

    failed-Counts :
        (failures lock : Text) (threshold window_seconds lock_seconds : ℕ) (waits : List ℕ) (s : S)
        → IsLifetime window_seconds
        → laws.value failures s ≡ 0
        → total waits < window_seconds * 1000
        → length waits < threshold
        → threshold ≤ greatest
        → Counts redis laws failures
            (length waits)
            (window_seconds * 1000 - total waits)
            (failed failures lock threshold window_seconds lock_seconds waits s)
    failed-Counts failures lock threshold window_seconds lock_seconds [] s positive free within
          below bounded =
        free
    failed-Counts failures lock threshold window_seconds lock_seconds (t ∷ waits) s positive free
          within below bounded =
        let before = failed failures lock threshold window_seconds lock_seconds waits s in
        let h =
          failed-Counts failures lock threshold window_seconds lock_seconds waits s positive free
            (omega arith) (omega arith) bounded in
        let counts =
          failure_script-below failures lock threshold window_seconds lock_seconds (length waits)
            before (omega arith) (Counts-value redis laws failures (length waits) _ before h)
            below in
        subst
          (λ r.
            Counts redis laws failures (suc (length waits))
              (window_seconds * 1000 - (t + total waits)) (redis.elapse t r.1))
          (sym counts)
          (waited-Counts redis laws failures window_seconds t waits before positive within
            (omega arith) h)

    counted-ttl :
        (key other : Text) (window_seconds : ℕ) (s : S)
        → key ≢ other
        → redis.ttl other (counted redis key window_seconds s) ≡ redis.ttl other s
    counted-ttl key other window_seconds s apart = elim (Bool-cases ((redis.incr key s).0 == 1)) [
      | inl e ↦ rw e (
          laws.expire-ttl key other window_seconds (redis.incr key s).1 apart
          ∙ laws.incr-ttl key other s apart)
      | inr e ↦ rw e (laws.incr-ttl key other s apart)
    ]

    -- Failures under a key that has none yet, in the window of at least one second that the first of
    -- them opens, with no other commands between them, and a lock of at least one second: the next one in
    -- the window reports no lock, leaves the lock's key as it is and is counted, if it stays below the
    -- threshold; if it reaches the threshold, it locks for the given time, and the count starts again.
    -- After a wait until the window is over, no failure is counted any more. Window and lock have at most
    -- 2 ^ 31 - 1 seconds, and the threshold is at most the greatest number that a key holds.
    pub failure_iff :
        (failures lock : Text) (threshold window_seconds lock_seconds : ℕ) (waits : List ℕ)
        (last : ℕ) (s : S)
        → failures ≢ lock
        → IsLifetime window_seconds
        → IsLifetime lock_seconds
        → laws.value failures s ≡ 0
        → total waits < window_seconds * 1000
        → window_seconds * 1000 < last + total waits
        → length waits < threshold
        → threshold ≤ greatest
        → let before = failed failures lock threshold window_seconds lock_seconds waits s in
          let result =
            failure_script redis failures lock threshold window_seconds lock_seconds before in
          (((suc (length waits) < threshold)
              × (result.0 ≡ 0)
              × (redis.ttl lock result.1 ≡ redis.ttl lock before)
              × (laws.value failures result.1 ≡ suc (length waits)))
            ⊎ ((suc (length waits) ≡ threshold)
                × (result.0 ≡ lock_seconds)
                × (redis.ttl lock result.1 ≡ some lock_seconds)
                × (laws.value failures result.1 ≡ 0)))
          × (laws.value failures (redis.elapse last result.1) ≡ 0)
    failure_iff failures lock threshold window_seconds lock_seconds waits last s apart positive
          locking free within over below bounded =
        let before = failed failures lock threshold window_seconds lock_seconds waits s in
        let n = length waits in
        let h =
          failed-Counts failures lock threshold window_seconds lock_seconds waits s positive free
            within below bounded in
        let held = Counts-value redis laws failures n _ before h in
        let small : n < greatest = omega (arith, below, bounded) in
        let after = counted redis failures window_seconds before in
        let locked_state = redis.set_ex lock 1 lock_seconds after in
        elim (below_or_reached n threshold below) [
          | inl early ↦
              rw
                (failure_script-below failures lock threshold window_seconds lock_seconds n before
                  small held early)
                (
                  inl (
                    early,
                    refl,
                    counted-ttl failures lock window_seconds before apart,
                    (counted-Counts redis laws failures window_seconds n _ before positive small
                        (λ none_yet. omega (arith, total_none waits none_yet)) h).0,
                  ),
                  ended redis laws failures window_seconds last waits before positive within over
                      small h,
                )
          | inr reached ↦
              rw
                (failure_script-full failures lock threshold window_seconds lock_seconds n before
                  small held reached)
                (
                  inr (
                    reached,
                    refl,
                    laws.del-ttl failures lock locked_state apart
                        ∙ laws.set_ex-ttl lock 1 lock_seconds after locking,
                    laws.del-value failures locked_state,
                  ),
                  laws.elapse-missing failures last _ (laws.del-value failures locked_state),
                )
        ]
