-- ===== src/Api/RateLimit/Redis/Limit.antt =====
-- apps/api/src/rate-limit.ts: the limit on the calls of a window, by `CONSUME_SCRIPT`.
use ntauth.Common.{
  ℕ, suc, ◌+◌, ◌-◌, ◌*◌, ◌≤◌, ◌<◌, ◌≡◌, refl, ◌↔◌, true, Option, none, some, List, [], ◌∷◌, length,
  arith,
}
use ntauth.Text.{Text}
use ntauth.Api.RateLimit.{RateLimitDecision}
use ntauth.Api.RateLimit.Redis.{
  Commands, Laws, IsLifetime, greatest, consume, consume_script, at_least,
}
use ntauth.Api.RateLimit.Redis.Counts.{Counts, Counts-value, waited-Counts, ended, total}

-- What the call of `consume` answers that has `n` others before it in its window.
abbrev pub IsCounted : ℕ → ℕ → RateLimitDecision → Type 0
IsCounted max_requests n decision =
    ((decision.allowed ≡ true) ↔ (n < max_requests))
    × (decision.remaining ≡ max_requests - suc n)
    × (1 ≤ decision.retry_after)

at_least_lem : (n : ℕ) (ttl : Option ℕ) → n ≤ at_least n ttl
at_least_lem n none = omega arith
at_least_lem n (some m) = omega arith

module _ {S : Type 0} (redis : Commands S) where
  -- Calls of `consume` for one key, each with a wait after it; the last call stands first.
  abbrev pub consumed : Text → ℕ → ℕ → List ℕ → S → S
  consumed key max_requests window_seconds [] s = s
  consumed key max_requests window_seconds (t ∷ waits) s =
      let before = consumed key max_requests window_seconds waits s in
      redis.elapse t (consume_script redis key max_requests window_seconds before).1

  module _ (laws : Laws redis) where
    consumed-Counts :
        (key : Text) (max_requests window_seconds : ℕ) (waits : List ℕ) (s : S)
        → IsLifetime window_seconds
        → laws.value key s ≡ 0
        → total waits < window_seconds * 1000
        → length waits < greatest
        → Counts redis laws key
            (length waits)
            (window_seconds * 1000 - total waits)
            (consumed key max_requests window_seconds waits s)
    unfolding consume_script
    consumed-Counts key max_requests window_seconds [] s positive free within small = free
    consumed-Counts key max_requests window_seconds (t ∷ waits) s positive free within small =
        waited-Counts redis laws key window_seconds t waits
          (consumed key max_requests window_seconds waits s) positive within (omega arith)
          (consumed-Counts key max_requests window_seconds waits s positive free (omega arith)
            (omega arith))

    consume-IsCounted :
        (key : Text) (max_requests window_seconds n : ℕ) (s : S)
        → n < greatest
        → laws.value key s ≡ n
        → IsCounted max_requests n (consume redis key max_requests window_seconds s).0
    unfolding consume_script
    consume-IsCounted key max_requests window_seconds n s small held =
        let count : (redis.incr key s).0 ≡ suc n =
          omega (arith, laws.incr-result key s (omega (arith, held, small)), held) in
        (
          rw count (ground arith),
          rw count refl,
          at_least_lem 1 (redis.ttl key (consume_script redis key max_requests window_seconds s).1),
        )

    -- Calls of `consume` for a key that is not in use, in the window of at least one second that the
    -- first of them opens, with no other commands between them: the next call in the window is
    -- allowed exactly if fewer than `max` came before it, reports how many are left, and names at least
    -- one second to wait; but after a wait, from the last call on, until the window is over, the next
    -- call is again the first of a window. The window has at most 2 ^ 31 - 1 seconds, and the calls in it
    -- are less than the greatest number that a key holds.
    pub consume_iff :
        (key : Text) (max_requests window_seconds : ℕ) (waits : List ℕ) (last : ℕ) (s : S)
        → IsLifetime window_seconds
        → laws.value key s ≡ 0
        → total waits < window_seconds * 1000
        → window_seconds * 1000 < last + total waits
        → length waits < greatest
        → let before = consumed key max_requests window_seconds waits s in
          let later = consumed key max_requests window_seconds (last ∷ waits) s in
          IsCounted max_requests
            (length waits)
            (consume redis key max_requests window_seconds before).0
          × IsCounted max_requests 0 (consume redis key max_requests window_seconds later).0
    unfolding consume_script
    consume_iff key max_requests window_seconds waits last s positive free within over small =
        let before = consumed key max_requests window_seconds waits s in
        let h =
          consumed-Counts key max_requests window_seconds waits s positive free within small in
        (
          consume-IsCounted key max_requests window_seconds (length waits) before small
              (Counts-value redis laws key (length waits) _ before h),
          consume-IsCounted key max_requests window_seconds 0
              (consumed key max_requests window_seconds (last ∷ waits) s) (omega arith)
              (ended redis laws key window_seconds last waits before positive within over small h),
        )
