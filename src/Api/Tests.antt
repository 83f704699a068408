-- ===== src/Api/Tests.antt =====
-- Runs of the request limits on a Redis that is a function from keys to numbers and times to live,
-- and the theorems on the limits at such runs.
use ntauth.Common.{
  ℕ, zero, suc, ◌+◌, ◌-◌, ◌*◌, ◌/◌, ◌≤◌, ◌<◌, ◌≡◌, ◌≢◌, ◌↔◌, refl, ap, ◌∙◌, ◌⊎◌, true, false, ltb,
  Option, none, some, List, [], ◌∷◌, arith, if◌then◌else◌, Bool-cases, inl, inr,
}
use ntauth.Text.{Text, text, ◌===◌, trim, split}
use ntauth.Text.Laws.{===_iff, ===_refl}
use ntauth.Json.{get, string}
use ntauth.Database.Rows.{find}
use ntauth.Api.RateLimit.{
  Rule, Request, passed, default_rate_limit_configuration, rules, applies, check, check_rule,
  locked_for, consume_both, client_address, normalized_subject, observe, RateLimitStore,
}
use ntauth.Api.RateLimit.Check.{IsUnlocked, BothAllow, check_passed_iff}
use ntauth.Api.RateLimit.Redis.{
  Commands, Laws, redis_store, consume_script, failure_script, consume,
}
use ntauth.Api.RateLimit.Redis.Limit.{IsCounted, consumed, consume_iff}
use ntauth.Api.RateLimit.Redis.Lock.{failed, failure_iff}

-- A key holds a number, which is 0 if the key is missing, and the milliseconds that it has left.
abbrev Entry : Type 0
Entry = ℕ × Option ℕ

abbrev Memory : Type 0
Memory = Text → Entry

abbrev put : Text → Entry → Memory → Memory
put key entry s other = if key === other then entry else s other

-- A time to live of 0 seconds deletes the key; a missing key gets none.
abbrev expiring : ℕ → Entry → Entry
expiring zero entry = (0, none)
expiring (suc n) (zero, life) = (zero, life)
expiring (suc n) (suc v, life) = (suc v, some (suc n * 1000))

-- `SET` with 0 seconds is refused.
abbrev stored : ℕ → ℕ → Entry → Entry
stored n zero entry = entry
stored n (suc seconds) entry = (n, some (suc seconds * 1000))

abbrev seconds_left : Option ℕ → Option ℕ
seconds_left none = none
seconds_left (some n) = some ((n + 500) / 1000)

abbrev aged : ℕ → Entry → Entry
aged t (v, none) = (v, none)
aged t (v, some n) = if ltb t n then (v, some (n - t)) else (0, none)

abbrev commands : Commands Memory
commands = record {
  incr = λ key s. (suc (s key).0, put key (suc (s key).0, (s key).1) s);
  expire = λ key seconds s. put key (expiring seconds (s key)) s;
  ttl = λ key s. seconds_left (s key).1;
  set_ex = λ key n seconds s. put key (stored n seconds (s key)) s;
  del = λ key s. put key (0, none) s;
  elapse = λ t s key. aged t (s key);
}

put_here : (key : Text) (entry : Entry) (s : Memory) → put key entry s key ≡ entry
put_here key entry s = rw (===_refl key) refl

put_there :
    (key other : Text) (entry : Entry) (s : Memory) → key ≢ other → put key entry s other ≡ s other
put_there key other entry s apart = elim (Bool-cases (key === other)) [
  | inl e ↦ absurd (apart ((===_iff key other).0 e))
  | inr e ↦ rw e refl
]

expiring-value : (seconds : ℕ) (entry : Entry) → 1 ≤ seconds → (expiring seconds entry).0 ≡ entry.0
expiring-value zero entry h = ground (arith, h)
expiring-value (suc n) (zero, life) h = refl
expiring-value (suc n) (suc v, life) h = refl

expiring-life :
    (seconds : ℕ) (entry : Entry)
    → 1 ≤ seconds
    → 1 ≤ entry.0
    → (expiring seconds entry).1 ≡ some (seconds * 1000)
expiring-life zero entry h held = ground (arith, h)
expiring-life (suc n) (zero, life) h held = ground (arith, held)
expiring-life (suc n) (suc v, life) h held = refl

stored-ttl :
    (n seconds : ℕ) (entry : Entry)
    → 1 ≤ seconds
    → seconds_left (stored n seconds entry).1 ≡ some seconds
stored-ttl n zero entry h = ground (arith, h)
stored-ttl n (suc seconds) entry h = ap some (omega arith)

aged-early :
    (t n : ℕ) (entry : Entry) → entry.1 ≡ some n → t < n → aged t entry ≡ (entry.0, some (n - t))
aged-early t n (v, life) e early =
    let still : ltb t n ≡ true = ground (arith, early) in rw e (rw still refl)

aged-late : (t n : ℕ) (entry : Entry) → entry.1 ≡ some n → n < t → (aged t entry).0 ≡ 0
aged-late t n (v, life) e late =
    let gone : ltb t n ≡ false = ground (arith, late) in rw e (rw gone refl)

aged-missing : (t : ℕ) (entry : Entry) → entry.0 ≡ 0 → (aged t entry).0 ≡ 0
aged-missing t (v, none) e = e
aged-missing t (v, some n) e = elim (Bool-cases (ltb t n)) [
  | inl early ↦ rw early e
  | inr late ↦ rw late refl
]

abbrev commands_laws : Laws commands
commands_laws = record {
  value = λ key s. (s key).0;
  life = λ key s. (s key).1;
  incr-result = λ key s small. refl;
  incr-value = λ key s small. ap (λ e. e.0) (put_here key (suc (s key).0, (s key).1) s);
  incr-life = λ key s h small. ap (λ e. e.1) (put_here key (suc (s key).0, (s key).1) s);
  incr-ttl = λ key other s apart.
      ap (λ e. seconds_left e.1) (put_there key other (suc (s key).0, (s key).1) s apart);
  expire-value = λ key seconds s h.
      ap (λ e. e.0) (put_here key (expiring seconds (s key)) s)
      ∙ expiring-value seconds (s key) h.0;
  expire-life = λ key seconds s h held.
      ap (λ e. e.1) (put_here key (expiring seconds (s key)) s)
      ∙ expiring-life seconds (s key) h.0 held;
  expire-ttl = λ key other seconds s apart.
      ap (λ e. seconds_left e.1) (put_there key other (expiring seconds (s key)) s apart);
  elapse-value = λ key t n s e early. ap (λ e. e.0) (aged-early t n (s key) e early);
  elapse-life = λ key t n s e early. ap (λ e. e.1) (aged-early t n (s key) e early);
  elapse-expired = λ key t n s e late. aged-late t n (s key) e late;
  elapse-missing = λ key t s e. aged-missing t (s key) e;
  set_ex-ttl = λ key n seconds s h.
      ap (λ e. seconds_left e.1) (put_here key (stored n seconds (s key)) s)
      ∙ stored-ttl n seconds (s key) h.0;
  del-value = λ key s. ap (λ e. e.0) (put_here key (0, none) s);
  del-ttl = λ key other s apart. ap (λ e. seconds_left e.1) (put_there key other (0, none) s apart);
}

abbrev empty : Memory
empty key = (0, none)

-- Two calls within a minute, of which the second is the last that is allowed, and one after it.
consume_iff_example :
    let before = consumed commands (text "k") 2 60 (7000 ∷ []) empty in
    let later = consumed commands (text "k") 2 60 (60000 ∷ 7000 ∷ []) empty in
    IsCounted 2 1 (consume commands (text "k") 2 60 before).0
    × IsCounted 2 0 (consume commands (text "k") 2 60 later).0
consume_iff_example =
    consume_iff commands commands_laws (text "k") 2 60 (7000 ∷ []) 60000 empty
      (omega arith, omega arith) refl (omega arith) (omega arith) (omega arith)

-- The third failure locks for 900 seconds.
failure_iff_example :
    let before =
      failed commands (text "k:failures") (text "k:lock") 3 60 900 (7000 ∷ 20000 ∷ []) empty in
    let result = failure_script commands (text "k:failures") (text "k:lock") 3 60 900 before in
    (((suc 2 < 3)
        × (result.0 ≡ 0)
        × (commands.ttl (text "k:lock") result.1 ≡ commands.ttl (text "k:lock") before)
        × ((result.1 (text "k:failures")).0 ≡ 3))
      ⊎ ((suc 2 ≡ 3)
          × (result.0 ≡ 900)
          × (commands.ttl (text "k:lock") result.1 ≡ some 900)
          × ((result.1 (text "k:failures")).0 ≡ 0)))
    × ((commands.elapse 60000 result.1 (text "k:failures")).0 ≡ 0)
failure_iff_example =
    failure_iff commands commands_laws (text "k:failures") (text "k:lock") 3 60 900
      (7000 ∷ 20000 ∷ []) 60000 empty (λ e. cc) (omega arith, omega arith)
      (omega arith, omega arith) refl (omega arith) (omega arith) (omega arith) (omega arith)

abbrev itself : Text → Text
itself s = s

abbrev sign_in : Request
sign_in = record {
  method = text "POST";
  path = text "/api/auth/sign-in/email";
  forwarded_for = some (text "10.0.0.1, 10.0.0.2");
  real_ip = none;
  input = (text "email", string (text "ann")) ∷ [];
}

run : Unit {0}
unfolding ◌===◌ trim split get client_address normalized_subject locked_for consume_both check_rule
    check observe redis_store consume_script failure_script
run = tt

abbrev strict : List Rule
strict = rules default_rate_limit_configuration

abbrev store : RateLimitStore Memory
unfolding redis_store
store = redis_store commands

-- The rule for a sign-in.
abbrev login : Rule
login = record {
  id = text "login";
  lockout = some record { seconds = 900; threshold = 8; window_seconds = 900 };
  max_requests = 10;
  method = text "POST";
  path = text "/api/auth/sign-in/email";
  subject = text "email";
  window_seconds = 60;
}

login_found : find (applies itself itself sign_in) strict ≡ some login
unfolding run
login_found = refl

-- A first sign-in passes; when it fails once, the next one still passes.
sign_in_passes : (check itself itself store strict sign_in true empty).0.0 ≡ passed
unfolding run
sign_in_passes = refl

check_passed_iff_example : ((check itself itself store strict sign_in true empty).0.0 ≡ passed) ↔ (
    (after : Memory) × IsUnlocked itself itself store sign_in true login login.lockout empty after
    × BothAllow itself itself store sign_in true login after)
check_passed_iff_example =
    check_passed_iff itself itself store sign_in true strict login empty login_found
