-- ===== src/Permissions/Evaluator.antt =====
-- packages/permissions/src/evaluator.ts: the decision on a request.
pub mod Matching
pub mod Outcome
pub mod Decision
pub mod Permuted
use ntauth.Common.{
  ℕ, suc, Bool, true, false, not, ◌&&◌, ◌||◌, Option, none, some, List, [], ◌∷◌, ◌++◌, ltb,
  if◌then◌else◌, length, any,
}
use ntauth.Text.{Text, text, ◌===◌, has_unit, starts_with, ends_with, drop_last, decimal, text_leb}
use ntauth.Text.Sort.{sort}
use ntauth.Json.{Value}
use ntauth.Permissions.Identifier.{IdentifierKind, action, resource, is_policy_identifier}
use ntauth.Permissions.Conditions.{Context, evaluate_policy_conditions}

-- A statement as the evaluator reads it. `none` is a list that is not an array, or an absent field;
-- the effect is any string, since the code tests it at run time.
pub record PolicyStatement : Type 0 where
  pub sid : Option Text
  pub effect : Text
  pub actions : Option (List Text)
  pub resources : Option (List Text)
  pub conditions : Option (List (Text × Value))

pub data PolicyDecisionReason : Type 0 where
  explicit_allow explicit_deny implicit_deny : PolicyDecisionReason

pub record PolicyDecision : Type 0 where
  pub allowed : Bool
  pub matched_allow_statements : List Text
  pub matched_deny_statements : List Text
  pub reason : PolicyDecisionReason

-- `PolicyEvaluationRequest` without its statements
pub record Query : Type 0 where
  pub action_id : Text
  pub context : Context
  pub resource_id : Text

abbrev pub allow_effect : Text
allow_effect = text "Allow"

abbrev pub deny_effect : Text
deny_effect = text "Deny"

abbrev pub wildcard_end : Text
wildcard_end = text ":*"

-- `concreteIdentifier`
pub concrete_identifier : Text → IdentifierKind → Bool
concrete_identifier value kind = not (has_unit b'*' value) && is_policy_identifier value kind none

-- `matchesPolicyIdentifier`
unfoldable pub matches_policy_identifier : Text → Text → Bool
unfolding ends_with starts_with drop_last
matches_policy_identifier pattern value =
    if pattern === value
    then true
    else if not (ends_with pattern wildcard_end)
    then false
    else (let prefix = drop_last pattern in
        starts_with value prefix && ltb (length prefix) (length value))

-- `Array.isArray(list) && list.some((pattern) => matchesPolicyIdentifier(pattern, value))`
abbrev pub some_matches : Option (List Text) → Text → Bool
some_matches none value = false
some_matches (some patterns) value =
    any (λ pattern. matches_policy_identifier pattern value) patterns

-- `statementMatches`
pub statement_matches : PolicyStatement → Query → Bool
unfolding matches_policy_identifier
statement_matches statement query =
    (statement.effect === allow_effect || statement.effect === deny_effect)
    && (some_matches statement.actions query.action_id
        && (some_matches statement.resources query.resource_id
            && evaluate_policy_conditions statement.conditions query.context))

-- `statement.sid ?? `statement:${index}``
abbrev pub identifier : PolicyStatement → ℕ → Text
identifier statement index = elim (statement.sid) [
  | none ↦ text "statement:" ++ decimal index
  | some sid ↦ sid
]

-- The two lists that the loop fills, `allow` and `deny`.
abbrev pub Found : Type 0
Found = List Text × List Text

-- One round of the loop.
pub record_match : Query → PolicyStatement → ℕ → Found → Found
unfolding statement_matches
record_match query statement index (allow, deny) =
    if not (statement_matches statement query)
    then (allow, deny)
    else if statement.effect === deny_effect
    then (allow, deny ++ identifier statement index ∷ [])
    else (allow ++ identifier statement index ∷ [], deny)

pub collect : Query → ℕ → List PolicyStatement → Found → Found
unfolding record_match
collect query index [] found = found
collect query index (statement ∷ rest) found =
    collect query (suc index) rest (record_match query statement index found)

abbrev pub implicit : PolicyDecision
implicit = record {
  allowed = false;
  matched_allow_statements = [];
  matched_deny_statements = [];
  reason = implicit_deny;
}

-- The tests after the loop, on the sorted lists.
pub decide : List Text → List Text → PolicyDecision
decide allow deny =
    if ltb 0 (length deny)
    then record {
      allowed = false;
      matched_allow_statements = allow;
      matched_deny_statements = deny;
      reason = explicit_deny;
    }
    else if ltb 0 (length allow)
    then record {
      allowed = true;
      matched_allow_statements = allow;
      matched_deny_statements = [];
      reason = explicit_allow;
    }
    else implicit

pub decide_found : Found → PolicyDecision
unfolding decide sort
decide_found (allow, deny) = decide (sort allow) (sort deny)

unfoldable pub evaluate_policy : Query → List PolicyStatement → PolicyDecision
unfolding concrete_identifier collect decide_found
evaluate_policy query statements =
    if not (concrete_identifier query.action_id action)
      || not (concrete_identifier query.resource_id resource)
    then implicit
    else decide_found (collect query 0 statements ([], []))
