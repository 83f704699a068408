-- ===== src/Api/RateLimit/Check.antt =====
-- apps/api/src/rate-limit.ts: which requests pass the check, and what the others get.
use ntauth.Common.{
  ℕ, ◌≤◌, ◌*◌, ◌≡◌, refl, ◌↔◌, inl, inr, Bool, true, false, not, ◌&&◌, ◌||◌, ◌++◌, Option, none,
  some, List, arith, Bool-cases, ap, sym, subst, ltb,
}
use ntauth.Text.{Text, text, ◌===◌}
use ntauth.Json.{get}
use ntauth.Database.Rows.{find}
use ntauth.Api.RateLimit.{
  RateLimitDecision, RateLimitStore, Lockout, Rule, RequestScope, Request, Answer, passed,
  unavailable, locked, rate_limited, applies, ip_key, subject_key, composite_key, scope_of,
  scope_after, both_allow, client_address, normalized_subject, lock_of, locked_for, consume_both,
  unless_locked, check_rule, check,
}

not_positive : (n : ℕ) → ltb 0 n ≡ false → n ≡ 0
not_positive n e = ground arith

module _ (to_lower_case keyed_hash : Text → Text) {S : Type 0} (store : RateLimitStore S)
    (request : Request) (trust : Bool) where
  -- The store answers, and allows the request.
  abbrev pub Allows : Option RateLimitDecision → Type 0
  Allows none = ⊥
  Allows (some decision) = decision.allowed ≡ true

  -- What the keys of a rule in the store begin with.
  abbrev pub namespace : Rule → Text
  namespace rule = text "ntauth:rate-limit:" ++ rule.id

  abbrev pub address : Text
  address = keyed_hash (client_address to_lower_case keyed_hash request trust)

  abbrev pub subject_of : Rule → Text
  subject_of rule =
      keyed_hash (normalized_subject to_lower_case keyed_hash (get rule.subject request.input))

  -- The store says that the subject is not locked for the address, and is in the state `after` then;
  -- it is not asked where the rule has no lockout.
  abbrev pub IsUnlocked : Rule → Option Lockout → S → S → Type 0
  IsUnlocked rule none s after = after ≡ s
  IsUnlocked rule (some lockout) s after =
      store.lock_retry_after
        (namespace rule ++ text ":lock:" ++ subject_of rule ++ text ":" ++ address) s
      ≡ (some 0, after)

  -- The two limits, of the address and of the subject, in this order.
  abbrev pub BothAllow : Rule → S → Type 0
  BothAllow rule s =
      let first =
        store.consume (namespace rule ++ text ":ip:" ++ address) rule.max_requests
          rule.window_seconds s in
      Allows first.0
      × Allows
          (store.consume (namespace rule ++ text ":subject:" ++ subject_of rule)
            (rule.max_requests * 3) rule.window_seconds first.1).0

  both_allow_iff :
      (ip subject : Option RateLimitDecision)
      → (both_allow to_lower_case keyed_hash store ip subject ≡ passed)
        ↔ (Allows ip × Allows subject)
  both_allow_iff none subject = ground arith
  both_allow_iff (some ip) none = ground arith
  both_allow_iff (some ip) (some subject) = ground arith

  unless_locked_iff :
      (rule : Rule) (seconds : Option ℕ) (s : S)
      → ((unless_locked to_lower_case keyed_hash store request trust rule seconds s).0 ≡ passed)
        ↔ ((seconds ≡ some 0) × BothAllow rule s)
  unfolding consume_both
  unless_locked_iff rule none s = ground arith
  unless_locked_iff rule (some n) s =
      let first =
        store.consume (ip_key to_lower_case keyed_hash request trust rule) rule.max_requests
          rule.window_seconds s in
      let second =
        store.consume (subject_key to_lower_case keyed_hash request rule) (rule.max_requests * 3)
          rule.window_seconds first.1 in
      let both = both_allow_iff first.0 second.0 in
      elim (Bool-cases (ltb 0 n)) [
        | inl e ↦ rw e (ground (arith, e))
        | inr e ↦
            rw e (λ h. (ap some (omega (arith, not_positive n e)), both.0 h), λ (z, h). both.1 h)
      ]

  -- The lock of a rule, asked for or not.
  lock_of_lem :
      (rule : Rule) (o : Option Lockout) (s : S)
      → let lock = lock_of to_lower_case keyed_hash store request trust rule s o in
        ((lock.0 ≡ some 0) × BothAllow rule lock.1)
        ↔ ((after : S) × IsUnlocked rule o s after × BothAllow rule after)
  lock_of_lem rule none s = (
    λ (e, both). (s, refl, both),
    λ (after, same, both). (refl, subst (BothAllow rule) same both),
  )
  lock_of_lem rule (some lockout) s =
      let lock =
        store.lock_retry_after (composite_key to_lower_case keyed_hash request trust rule) s in
      (
        λ (e, both). (lock.1, ap (λ o. (o, lock.1)) e, both),
        λ (after, answer, both).
            (ap (λ r. r.0) answer, subst (BothAllow rule) (sym (ap (λ r. r.1) answer)) both),
      )

  -- A request passes exactly if the store answers every call, the subject is not locked for the
  -- address where the rule has a lockout, and then the limits of the address and of the subject, which
  -- is three times that of the address, both allow it; the rule is the first that has the request's
  -- method and path. In particular no such request passes when the store fails.
  pub check_passed_iff :
      (configured_rules : List Rule) (rule : Rule) (s : S)
      → find (λ r. r.method === request.method && r.path === request.path) configured_rules
        ≡ some rule
      → ((check to_lower_case keyed_hash store configured_rules request trust s).0.0 ≡ passed)
        ↔ ((after : S) × IsUnlocked rule rule.lockout s after × BothAllow rule after)
  unfolding check check_rule locked_for
  check_passed_iff configured_rules rule s found =
      let lock = lock_of to_lower_case keyed_hash store request trust rule s rule.lockout in
      let answer = unless_locked_iff rule lock.0 lock.1 in
      let unlocked = lock_of_lem rule rule.lockout s in
      rw found (λ h. unlocked.0 (answer.0 h), λ h. answer.1 (unlocked.1 h))

  -- A refusal names at least one second to wait.
  abbrev pub IsPolite : Answer → Type 0
  IsPolite (locked seconds) = 1 ≤ seconds
  IsPolite (rate_limited seconds) = 1 ≤ seconds
  IsPolite _ = Unit

  both_allow-IsPolite :
      (ip subject : Option RateLimitDecision)
      → IsPolite (both_allow to_lower_case keyed_hash store ip subject)
  both_allow-IsPolite none subject = tt
  both_allow-IsPolite (some ip) none = tt
  both_allow-IsPolite (some ip) (some subject) =
      elim (Bool-cases (not ip.allowed || not subject.allowed)) [
        | inl e ↦ rw e (omega arith)
        | inr e ↦ rw e tt
      ]

  unless_locked-IsPolite :
      (rule : Rule) (seconds : Option ℕ) (s : S)
      → IsPolite (unless_locked to_lower_case keyed_hash store request trust rule seconds s).0
  unfolding consume_both
  unless_locked-IsPolite rule none s = tt
  unless_locked-IsPolite rule (some n) s = elim (Bool-cases (ltb 0 n)) [
    | inl e ↦ rw e (omega arith)
    | inr e ↦ rw e (both_allow-IsPolite _ _)
  ]

  -- The scope by which the outcome of a request is counted afterwards.
  abbrev pub IsScoped : Rule → Answer → Option RequestScope → Type 0
  IsScoped rule passed scope = scope ≡ some (scope_of to_lower_case keyed_hash request trust rule)
  IsScoped rule _ scope = scope ≡ none

  scope_after-IsScoped :
      (rule : Rule) (answer : Answer)
      → IsScoped rule answer (
          scope_after to_lower_case keyed_hash store
            (scope_of to_lower_case keyed_hash request trust rule)
            answer)
  scope_after-IsScoped rule passed = refl
  scope_after-IsScoped rule unavailable = refl
  scope_after-IsScoped rule (locked n) = refl
  scope_after-IsScoped rule (rate_limited n) = refl

  -- A request to which a rule applies keeps its scope, by which its outcome is counted, exactly if
  -- it passes; a refusal that is not for a failing store names at least one second to wait.
  check-IsScoped :
      (configured_rules : List Rule) (rule : Rule) (s : S)
      → find (applies to_lower_case keyed_hash request) configured_rules ≡ some rule
      → let result = (check to_lower_case keyed_hash store configured_rules request trust s).0 in
        IsScoped rule result.0 result.1 × IsPolite result.0
  unfolding check check_rule
  check-IsScoped configured_rules rule s found =
      let lock = locked_for to_lower_case keyed_hash store request trust rule s in
      rw found (
        scope_after-IsScoped rule
            (unless_locked to_lower_case keyed_hash store request trust rule lock.0 lock.1).0,
        unless_locked-IsPolite rule lock.0 lock.1,
      )
