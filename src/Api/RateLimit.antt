-- ===== src/Api/RateLimit.antt =====
-- apps/api/src/rate-limit.ts: the limits on requests that authenticate, and the lock after failures.
-- `requestInput` and `keyedHash` give their results as arguments, and so does the lower case of a text.
-- A store answers a call or throws; either way its state may have changed.
pub mod Check
pub mod Redis
use ntauth.Common.{
  ℕ, ◌+◌, ◌*◌, max, Bool, true, false, not, ◌&&◌, ◌||◌, Option, none, some, List, [], ◌∷◌, ◌++◌,
  if◌then◌else◌, all, leb, ltb, ◌==◌, length,
}
use ntauth.Text.{Text, text, ◌===◌, split, trim}
use ntauth.Json.{Value, undefined, null, bool, number, string, array, object, get}
use ntauth.Database.Rows.{find}

pub record RateLimitDecision : Type 0 where
  pub allowed : Bool
  pub remaining : ℕ
  pub retry_after : ℕ

-- The interface `RateLimitStore`, over a state `S`; `none` is a rejected promise.
pub record RateLimitStore (S : Type 0) : Type 0 where
  pub clear_failures : Text → S → Option (Unit {0}) × S
  pub consume : Text → ℕ → ℕ → S → Option RateLimitDecision × S
  pub lock_retry_after : Text → S → Option ℕ × S
  pub record_failure : Text → Text → ℕ → ℕ → ℕ → S → Option ℕ × S

pub record Lockout : Type 0 where
  pub seconds : ℕ
  pub threshold : ℕ
  pub window_seconds : ℕ

pub record Rule : Type 0 where
  pub id : Text
  pub lockout : Option Lockout
  pub max_requests : ℕ
  pub method : Text
  pub path : Text
  pub subject : Text
  pub window_seconds : ℕ

pub record RateLimitConfiguration : Type 0 where
  pub lockout_seconds : ℕ
  pub lockout_threshold : ℕ
  pub login_max : ℕ
  pub login_window_seconds : ℕ
  pub oauth_max : ℕ
  pub oauth_window_seconds : ℕ
  pub recovery_max : ℕ
  pub recovery_window_seconds : ℕ

-- `DEFAULT_RATE_LIMIT_CONFIGURATION`
abbrev pub default_rate_limit_configuration : RateLimitConfiguration
default_rate_limit_configuration = record {
  lockout_seconds = 15 * 60;
  lockout_threshold = 8;
  login_max = 10;
  login_window_seconds = 60;
  oauth_max = 30;
  oauth_window_seconds = 60;
  recovery_max = 5;
  recovery_window_seconds = 5 * 60;
}

-- A rule without a lockout.
abbrev pub plain_rule : Text → ℕ → Text → Text → Text → ℕ → Rule
plain_rule id max_requests method path subject window_seconds = record {
  id = id;
  lockout = none;
  max_requests = max_requests;
  method = method;
  path = path;
  subject = subject;
  window_seconds = window_seconds;
}

-- `rules`
abbrev pub rules : RateLimitConfiguration → List Rule
rules c =
    record {
      id = text "login";
      lockout = some record {
        seconds = c.lockout_seconds;
        threshold = c.lockout_threshold;
        window_seconds = c.lockout_seconds;
      };
      max_requests = c.login_max;
      method = text "POST";
      path = text "/api/auth/sign-in/email";
      subject = text "email";
      window_seconds = c.login_window_seconds;
    }
    ∷ plain_rule (text "password-forgot") c.recovery_max (text "POST")
        (text "/api/v1/password/forgot") (text "email") c.recovery_window_seconds
    ∷ plain_rule (text "password-reset") (c.recovery_max * 2) (text "POST")
        (text "/api/v1/password/reset") (text "token") c.recovery_window_seconds
    ∷ plain_rule (text "invitation-validate") (c.recovery_max * 4) (text "GET")
        (text "/api/v1/invitations/validate") (text "token") c.recovery_window_seconds
    ∷ plain_rule (text "invitation-accept") c.recovery_max (text "POST")
        (text "/api/v1/invitations/accept") (text "token") c.recovery_window_seconds
    ∷ plain_rule (text "oauth-authorize") c.oauth_max (text "GET")
        (text "/api/auth/oauth2/authorize") (text "client_id") c.oauth_window_seconds
    ∷ plain_rule (text "oauth-token") c.oauth_max (text "POST") (text "/api/auth/oauth2/token")
        (text "client_id") c.oauth_window_seconds
    ∷ []

pub record RequestScope : Type 0 where
  pub composite_key : Text
  pub lockout : Option Lockout
  pub rule_id : Text

pub record Request : Type 0 where
  pub method : Text
  pub path : Text
  pub forwarded_for : Option Text
  pub real_ip : Option Text
  -- `requestInput(request)`
  pub input : List (Text × Value)

-- What a request gets: it passes on, or a response with the status 429 or 503 is made.
pub data Answer : Type 0 where
  passed unavailable : Answer
  locked rate_limited : ℕ → Answer

-- `rateLimitProblem`, whose number of seconds is a whole number already
abbrev pub whole_seconds : ℕ → ℕ
whole_seconds retry_after = max 1 retry_after

-- `[0-9a-f:.]`, in either case
abbrev pub address_unit : ℕ → Bool
address_unit c =
    (leb 48 c && leb c 57)
    || (leb 97 c && leb c 102)
    || (leb 65 c && leb c 70)
    || c == 58
    || c == 46

abbrev pub is_address : Text → Bool
is_address s = leb 2 (length s) && leb (length s) 45 && all address_unit s

-- `split(",")[0]`
abbrev pub first_of : List Text → Text
first_of [] = []
first_of (s ∷ parts) = s

-- `header?.…`, and `||`, for which an empty text is no value
abbrev pub header_or : Option Text → (Text → Text) → Text → Text
header_or none f other = other
header_or (some s) f other = if f s === [] then other else f s

module _ (to_lower_case : Text → Text) (keyed_hash : Text → Text) where
  -- `clientAddress`
  unfoldable pub client_address : Request → Bool → Text
  unfolding split trim
  client_address request trust_proxy_headers =
      let value =
        header_or request.forwarded_for (λ s. trim (first_of (split 44 s)))
          (header_or request.real_ip trim []) in
      if not trust_proxy_headers
      then text "direct"
      else if is_address value
      then to_lower_case value
      else text "unknown"

  -- `normalizedSubject`
  unfoldable pub normalized_subject : Value → Text
  unfolding trim
  normalized_subject (string s) =
      if leb (length s) 2048 then to_lower_case (trim s) else text "unknown"
  normalized_subject _ = text "unknown"

  abbrev pub applies : Request → Rule → Bool
  applies request rule = rule.method === request.method && rule.path === request.path

  abbrev pub prefix : Rule → Text
  prefix rule = text "ntauth:rate-limit:" ++ rule.id

  abbrev pub subject_hash : Request → Rule → Text
  subject_hash request rule = keyed_hash (normalized_subject (get rule.subject request.input))

  abbrev pub ip_hash : Request → Bool → Text
  ip_hash request trust_proxy_headers = keyed_hash (client_address request trust_proxy_headers)

  -- `compositeKey`
  abbrev pub composite_key : Request → Bool → Rule → Text
  composite_key request trust_proxy_headers rule =
      prefix rule
      ++ text ":lock:"
      ++ subject_hash request rule
      ++ text ":"
      ++ ip_hash request trust_proxy_headers

  abbrev pub ip_key : Request → Bool → Rule → Text
  ip_key request trust_proxy_headers rule =
      prefix rule ++ text ":ip:" ++ ip_hash request trust_proxy_headers

  abbrev pub subject_key : Request → Rule → Text
  subject_key request rule = prefix rule ++ text ":subject:" ++ subject_hash request rule

  abbrev pub scope_of : Request → Bool → Rule → RequestScope
  scope_of request trust_proxy_headers rule = record {
    composite_key = composite_key request trust_proxy_headers rule;
    lockout = rule.lockout;
    rule_id = rule.id;
  }

  module _ {S : Type 0} (store : RateLimitStore S) where
    -- The two answers of `consume`, which `Promise.all` waits for.
    abbrev pub both_allow : Option RateLimitDecision → Option RateLimitDecision → Answer
    both_allow (some ip) (some subject) =
        if not ip.allowed || not subject.allowed
        then rate_limited (whole_seconds (max ip.retry_after subject.retry_after))
        else passed
    both_allow _ _ = unavailable

    abbrev pub lock_of : Request → Bool → Rule → S → Option Lockout → Option ℕ × S
    lock_of request trust_proxy_headers rule s none = (some 0, s)
    lock_of request trust_proxy_headers rule s (some lockout) =
        store.lock_retry_after (composite_key request trust_proxy_headers rule) s

    -- `lockedFor`
    unfoldable pub locked_for : Request → Bool → Rule → S → Option ℕ × S
    locked_for request trust_proxy_headers rule s =
        lock_of request trust_proxy_headers rule s rule.lockout

    -- The body of the `try` from the two limits on.
    unfoldable pub consume_both : Request → Bool → Rule → S → Answer × S
    consume_both request trust_proxy_headers rule s =
        let (ip, s1) =
          store.consume (ip_key request trust_proxy_headers rule) rule.max_requests
            rule.window_seconds s in
        let (subject, s2) =
          store.consume (subject_key request rule) (rule.max_requests * 3) rule.window_seconds s1 in
        (both_allow ip subject, s2)

    abbrev pub unless_locked : Request → Bool → Rule → Option ℕ → S → Answer × S
    unless_locked request trust_proxy_headers rule none s = (unavailable, s)
    unless_locked request trust_proxy_headers rule (some seconds) s =
        if ltb 0 seconds
        then (locked (whole_seconds seconds), s)
        else consume_both request trust_proxy_headers rule s

    -- `check` of a request to which a rule applies
    unfoldable pub check_rule : Request → Bool → Rule → S → Answer × S
    unfolding locked_for consume_both
    check_rule request trust_proxy_headers rule s =
        let (seconds, s1) = locked_for request trust_proxy_headers rule s in
        unless_locked request trust_proxy_headers rule seconds s1

    -- The scope stays in the map if the request passes on.
    abbrev pub scope_after : RequestScope → Answer → Option RequestScope
    scope_after scope passed = some scope
    scope_after scope _ = none

    abbrev pub check_found : Request → Bool → S → Option Rule → (Answer × Option RequestScope) × S
    check_found request trust_proxy_headers s none = ((passed, none), s)
    check_found request trust_proxy_headers s (some rule) =
        let (answer, s1) = check_rule request trust_proxy_headers rule s in
        ((answer, scope_after (scope_of request trust_proxy_headers rule) answer), s1)

    -- `check`, with the scope that the request has then
    unfoldable pub check : List Rule → Request → Bool → S → (Answer × Option RequestScope) × S
    check configured_rules request trust_proxy_headers s =
        check_found request trust_proxy_headers s (find (applies request) configured_rules)

    -- `observe`; a store that rejects changes nothing about the response
    unfoldable pub observe : Option RequestScope → ℕ → S → S
    observe none status s = s
    observe (some scope) status s = elim scope.lockout [
      | none ↦ s
      | some lockout ↦
          if ltb status 400
          then (store.clear_failures scope.composite_key s).1
          else (store.record_failure scope.composite_key scope.composite_key lockout.threshold
              lockout.window_seconds lockout.seconds s).1
    ]
