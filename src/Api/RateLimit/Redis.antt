-- ===== src/Api/RateLimit/Redis.antt =====
-- apps/api/src/rate-limit.ts: the two scripts, and the store that runs them on Redis. Redis is not
-- part of the repository: its commands are an argument, and their documented laws a record of
-- hypotheses. A script runs alone and takes no time; time passes between the calls, and keys expire
-- then.
pub mod Counts
pub mod Limit
pub mod Lock
use ntauth.Common.{
  ℕ, zero, suc, ◌+◌, ◌-◌, ◌*◌, ◌≤◌, ◌<◌, max, ◌≡◌, ◌≢◌, refl, ap, sym, subst, ◌∙◌, ◌↔◌, ◌⊎◌, inl,
  inr, true, false, Option, none, some, List, [], ◌∷◌, length, arith, Bool-cases, if◌then◌else◌,
  ltb, leb, ◌==◌, ◌++◌,
}
use ntauth.Text.{Text, text}
use ntauth.Api.RateLimit.{RateLimitDecision, RateLimitStore}

-- The commands, and the passing of milliseconds in which no command runs; `ttl` gives `none` for a
-- negative answer, of a key that is missing or never expires.
pub record Commands (S : Type 0) : Type 0 where
  pub incr : Text → S → ℕ × S
  pub expire : Text → ℕ → S → S
  pub ttl : Text → S → Option ℕ
  pub set_ex : Text → ℕ → ℕ → S → S
  pub del : Text → S → S
  pub elapse : ℕ → S → S

-- The greatest number that a key holds.
abbrev pub greatest : ℕ
greatest = 9223372036854775807

-- A time to live in seconds, of at most 2 ^ 31 - 1, about 68 years.
abbrev pub IsLifetime : ℕ → Type 0
IsLifetime seconds = (1 ≤ seconds) × (seconds ≤ 2147483647)

-- What the commands do, by the number that a key holds, which is 0 for a missing key, and by the
-- milliseconds that it has left. Nothing is said of a time to live of 0 seconds, of one
-- that is too long, of a count beyond the greatest number, nor of the millisecond at which a key
-- expires.
pub record Laws {S : Type 0} (redis : Commands S) : Type 0 where
  pub value : Text → S → ℕ
  pub life : Text → S → Option ℕ
  pub incr-result :
      (key : Text) (s : S) → value key s < greatest → (redis.incr key s).0 ≡ suc (value key s)
  pub incr-value :
      (key : Text) (s : S)
      → value key s < greatest
      → value key (redis.incr key s).1 ≡ suc (value key s)
  pub incr-life :
      (key : Text) (s : S)
      → 1 ≤ value key s
      → value key s < greatest
      → life key (redis.incr key s).1 ≡ life key s
  pub incr-ttl :
      (key other : Text) (s : S)
      → key ≢ other
      → redis.ttl other (redis.incr key s).1 ≡ redis.ttl other s
  pub expire-value :
      (key : Text) (seconds : ℕ) (s : S)
      → IsLifetime seconds
      → value key (redis.expire key seconds s) ≡ value key s
  pub expire-life :
      (key : Text) (seconds : ℕ) (s : S)
      → IsLifetime seconds
      → 1 ≤ value key s
      → life key (redis.expire key seconds s) ≡ some (seconds * 1000)
  pub expire-ttl :
      (key other : Text) (seconds : ℕ) (s : S)
      → key ≢ other
      → redis.ttl other (redis.expire key seconds s) ≡ redis.ttl other s
  pub elapse-value :
      (key : Text) (t n : ℕ) (s : S)
      → life key s ≡ some n
      → t < n
      → value key (redis.elapse t s) ≡ value key s
  pub elapse-life :
      (key : Text) (t n : ℕ) (s : S)
      → life key s ≡ some n
      → t < n
      → life key (redis.elapse t s) ≡ some (n - t)
  pub elapse-expired :
      (key : Text) (t n : ℕ) (s : S)
      → life key s ≡ some n
      → n < t
      → value key (redis.elapse t s) ≡ 0
  pub elapse-missing :
      (key : Text) (t : ℕ) (s : S) → value key s ≡ 0 → value key (redis.elapse t s) ≡ 0
  pub set_ex-ttl :
      (key : Text) (n seconds : ℕ) (s : S)
      → IsLifetime seconds
      → redis.ttl key (redis.set_ex key n seconds s) ≡ some seconds
  pub del-value : (key : Text) (s : S) → value key (redis.del key s) ≡ 0
  pub del-ttl :
      (key other : Text) (s : S)
      → key ≢ other
      → redis.ttl other (redis.del key s) ≡ redis.ttl other s

abbrev pub at_least : ℕ → Option ℕ → ℕ
at_least n none = n
at_least n (some m) = max n m

module _ {S : Type 0} (redis : Commands S) where
  -- `if count == 1 then redis.call('EXPIRE', …) end`
  abbrev pub expire_first : ℕ → Text → ℕ → S → S
  expire_first count key seconds s = if count == 1 then redis.expire key seconds s else s

  -- `CONSUME_SCRIPT`
  unfoldable pub consume_script : Text → ℕ → ℕ → S → (ℕ × Option ℕ × ℕ) × S
  consume_script key max_requests window_seconds s =
      let (count, s1) = redis.incr key s in
      let s2 = expire_first count key window_seconds s1 in
      let ttl = redis.ttl key s2 in ((if ltb max_requests count then 0 else 1, ttl, count), s2)

  -- `FAILURE_SCRIPT`
  unfoldable pub failure_script : Text → Text → ℕ → ℕ → ℕ → S → ℕ × S
  failure_script failures lock threshold window_seconds lock_seconds s =
      let (count, s1) = redis.incr failures s in
      let s2 = expire_first count failures window_seconds s1 in
      if leb threshold count
      then (lock_seconds, redis.del failures (redis.set_ex lock 1 lock_seconds s2))
      else (0, s2)

  abbrev pub failures_key : Text → Text
  failures_key key = key ++ text ":failures"

  abbrev pub lock_key : Text → Text
  lock_key key = key ++ text ":lock"

  -- `createRedisRateLimitStore`, connected
  abbrev pub consume : Text → ℕ → ℕ → S → RateLimitDecision × S
  consume key max_requests window_seconds s =
      let (result, s1) = consume_script key max_requests window_seconds s in
      (
        record {
          allowed = result.0 == 1;
          remaining = max_requests - result.2;
          retry_after = at_least 1 result.1;
        },
        s1,
      )

  unfoldable pub redis_store : RateLimitStore S
  unfolding consume_script failure_script
  redis_store = record {
    clear_failures = λ key s. (some tt, redis.del (lock_key key) (redis.del (failures_key key) s));
    consume = λ key max_requests window_seconds s.
        let (decision, s1) = consume key max_requests window_seconds s in (some decision, s1);
    lock_retry_after = λ key s. (some (at_least 0 (redis.ttl (lock_key key) s)), s);
    record_failure = λ failures lock threshold window_seconds lock_seconds s.
        let (seconds, s1) =
          failure_script (failures_key failures) (lock_key lock) threshold window_seconds
            lock_seconds s in
        (some seconds, s1);
  }

  -- The counter of a key after one more call.
  abbrev pub counted : Text → ℕ → S → S
  counted key window_seconds s =
      let (count, s1) = redis.incr key s in expire_first count key window_seconds s1
