-- ===== src/Permissions/Tests.antt =====
-- Runs of the policy code on small inputs, and the theorems of packages/permissions at such inputs.
use mathlib.Core.List.{Permᴰ}
use ntauth.Common.{
  ℕ, ◌≤◌, ◌≡◌, refl, ◌↔◌, ◌≢◌, true, false, Option, none, some, List, [], ◌∷◌, arith, All, Among,
}
use ntauth.Text.{
  Text, text, code_points, split, ◌===◌, starts_with, ends_with, drop_last, decimal, text_leb,
}
use ntauth.Text.Sort.{sort}
use ntauth.Json.{
  Value, bool, string, array, object, no_items, item, no_fields, field, Fields, get, same_value,
}
use ntauth.Permissions.Identifier.{action, resource, is_policy_identifier, document_bytes}
use ntauth.Permissions.Identifier.Grammar.{IsIdentifier}
use ntauth.Permissions.Identifier.Decision.{is_policy_identifier_iff}
use ntauth.Permissions.Conditions.{
  Context, evaluate_policy_conditions, policy_condition_variable_type, is_policy_condition_variable,
  context_value,
}
use ntauth.Permissions.Conditions.Wildcard.{
  Inline, InlineToken, like, matches, wildcard_pattern, like-Inline,
}
use ntauth.Permissions.Conditions.Meaning.{OperatorHolds, evaluate_policy_conditions_iff}
use ntauth.Permissions.Evaluator.{
  PolicyStatement, Query, allow_effect, deny_effect, explicit_deny, matches_policy_identifier,
  evaluate_policy,
}
use ntauth.Permissions.Evaluator.Matching.{Covers, matches_policy_identifier_iff}
use ntauth.Permissions.Evaluator.Outcome.{IsConcrete}
use ntauth.Permissions.Evaluator.Decision.{
  AnyApplies, evaluate_policy_allowed_iff, evaluate_policy_denied_iff, IsExplained,
  evaluate_policy-IsExplained,
}
use ntauth.Permissions.Evaluator.Permuted.{evaluate_policy-perm}
use ntauth.Permissions.Document.{
  ValidationContext, validate_policy_document, accepted, parse_policy_document, add_issue, add_if,
}
use ntauth.Permissions.Document.Conditions.{validate_conditions}
use ntauth.Permissions.Document.WellFormed.{ValidDocument}
use ntauth.Permissions.Document.Accepted.{validate_policy_document_iff}
use ntauth.Permissions.Scopes.{filter_oauth_scopes, filter_oauth_scopes_iff, oauth_scopes}

abbrev any_report : Text
any_report = text "ntscout:report:*"

abbrev read_report : Text
read_report = text "ntscout:report:read"

abbrev report_7 : Text
report_7 = text "ntscout:report:r-7"

-- What a run has to see through.
run : Unit {0}
unfolding split ◌===◌ starts_with ends_with drop_last decimal text_leb code_points get same_value
    sort is_policy_identifier policy_condition_variable_type is_policy_condition_variable
    context_value evaluate_policy_conditions like matches wildcard_pattern matches_policy_identifier
    evaluate_policy validate_policy_document parse_policy_document filter_oauth_scopes
    validate_conditions add_issue add_if
run = tt

is_policy_identifier_tests :
    (is_policy_identifier any_report action none ≡ true)
    × (is_policy_identifier (text "ntscout:*:read") action none ≡ false)
    × (is_policy_identifier (text "ntscout") action none ≡ false)
    × (is_policy_identifier (text "ntscout:Report") resource (some (text "ntscout")) ≡ true)
    × (is_policy_identifier (text "ntscout:Report") action none ≡ false)
    × (is_policy_identifier any_report action (some (text "other")) ≡ false)
unfolding run
is_policy_identifier_tests = (refl, refl, refl, refl, refl, refl)

is_policy_identifier_iff_example :
    (is_policy_identifier any_report action none ≡ true) ↔ IsIdentifier action any_report
is_policy_identifier_iff_example = is_policy_identifier_iff action any_report

like_tests :
    (like (text "al*@*.test") (text "alice@example.test") ≡ true)
    × (like (text "a?c") (text "abc") ≡ true)
    × (like (text "a.c") (text "abc") ≡ false)
    × (like (text "*") (b'a' ∷ 10 ∷ b'b' ∷ []) ≡ false)
    × (like (text "?") (0xD83D ∷ 0xDE00 ∷ []) ≡ true)
unfolding run
like_tests = (refl, refl, refl, refl, refl)

al_tokens : All InlineToken (wildcard_pattern (text "al*"))
unfolding run
al_tokens = omega arith

like-Inline_example : All Inline (code_points (text "alice"))
unfolding run
like-Inline_example = like-Inline (text "al*") (text "alice") al_tokens refl

abbrev alice : Context
alice =
    (text "organization", (text "id", string (text "org_1")) ∷ [])
    ∷ (text "user", (text "email_verified", bool true) ∷ (text "name", string (text "Alice")) ∷ [])
    ∷ []

abbrev verified : List (Text × Value)
verified =
    (text "Bool", object (field (text "user.email_verified") (bool true) no_fields))
    ∷ (text "StringLike", object (field (text "user.name") (string (text "A*")) no_fields))
    ∷ []

evaluate_policy_conditions_tests :
    (evaluate_policy_conditions (some verified) alice ≡ true)
    × (evaluate_policy_conditions (some verified) [] ≡ false)
    × (evaluate_policy_conditions (some ((text "Bool", object no_fields) ∷ [])) alice ≡ false)
unfolding run
evaluate_policy_conditions_tests = (refl, refl, refl)

evaluate_policy_conditions_iff_example :
    (evaluate_policy_conditions (some verified) alice ≡ true) ↔ All (OperatorHolds alice) verified
evaluate_policy_conditions_iff_example = evaluate_policy_conditions_iff alice verified

matches_policy_identifier_tests :
    (matches_policy_identifier any_report read_report ≡ true)
    × (matches_policy_identifier any_report (text "ntscout:reports:read") ≡ false)
    × (matches_policy_identifier any_report (text "ntscout:report:") ≡ false)
    × (matches_policy_identifier (text "ntscout:*:read") read_report ≡ false)
unfolding run
matches_policy_identifier_tests = (refl, refl, refl, refl)

matches_policy_identifier_iff_example :
    (matches_policy_identifier any_report read_report ≡ true) ↔ Covers any_report read_report
matches_policy_identifier_iff_example = matches_policy_identifier_iff any_report read_report

abbrev allow_reports : PolicyStatement
allow_reports = record {
  sid = some (text "AllowReports");
  effect = allow_effect;
  actions = some (any_report ∷ []);
  resources = some (any_report ∷ []);
  conditions = none;
}

abbrev deny_report_7 : PolicyStatement
deny_report_7 = record {
  sid = some (text "DenyReport7");
  effect = deny_effect;
  actions = some (read_report ∷ []);
  resources = some (report_7 ∷ []);
  conditions = some verified;
}

abbrev ask : Query
ask = record { action_id = read_report; context = alice; resource_id = report_7 }

evaluate_policy_tests :
    ((evaluate_policy ask (allow_reports ∷ [])).allowed ≡ true)
    × ((evaluate_policy ask (allow_reports ∷ deny_report_7 ∷ [])) ≡ record {
      allowed = false;
      matched_allow_statements = text "AllowReports" ∷ [];
      matched_deny_statements = text "DenyReport7" ∷ [];
      reason = explicit_deny;
    })
    × ((evaluate_policy ask (record allow_reports { sid = none } ∷ [])).matched_allow_statements
        ≡ text "statement:0" ∷ [])
    × ((evaluate_policy (record ask { action_id = any_report }) (allow_reports ∷ [])).allowed
        ≡ false)
unfolding run
evaluate_policy_tests = (refl, refl, refl, refl)

evaluate_policy_allowed_iff_example :
    ((evaluate_policy ask (allow_reports ∷ [])).allowed ≡ true) ↔ (
      IsConcrete action read_report
      × IsConcrete resource report_7
      × AnyApplies allow_effect ask (allow_reports ∷ [])
      × (¬ AnyApplies deny_effect ask (allow_reports ∷ [])))
evaluate_policy_allowed_iff_example = evaluate_policy_allowed_iff ask (allow_reports ∷ [])

evaluate_policy_denied_iff_example :
    ((evaluate_policy ask (allow_reports ∷ deny_report_7 ∷ [])).reason ≡ explicit_deny) ↔ (
      IsConcrete action read_report
      × IsConcrete resource report_7
      × AnyApplies deny_effect ask (allow_reports ∷ deny_report_7 ∷ []))
evaluate_policy_denied_iff_example =
    evaluate_policy_denied_iff ask (allow_reports ∷ deny_report_7 ∷ [])

IsConcrete-ask : IsConcrete action read_report × IsConcrete resource report_7
unfolding run
IsConcrete-ask = let h = (evaluate_policy_allowed_iff ask (allow_reports ∷ [])).0 refl in (h.0, h.1)

evaluate_policy-IsExplained_example :
    let answer = evaluate_policy ask (allow_reports ∷ deny_report_7 ∷ []) in
    IsExplained ask
      (allow_reports ∷ deny_report_7 ∷ [])
      answer.matched_allow_statements
      answer.matched_deny_statements
evaluate_policy-IsExplained_example =
    evaluate_policy-IsExplained ask (allow_reports ∷ deny_report_7 ∷ []) IsConcrete-ask.0
      IsConcrete-ask.1

evaluate_policy-perm_example :
    evaluate_policy ask (allow_reports ∷ deny_report_7 ∷ [])
    ≡ evaluate_policy ask (deny_report_7 ∷ allow_reports ∷ [])
evaluate_policy-perm_example =
    evaluate_policy-perm ask (allow_reports ∷ deny_report_7 ∷ [])
      (deny_report_7 ∷ allow_reports ∷ []) (λ e. cc, (λ e. cc, tt)) ∣ Permᴰ.swap refl refl ∣₁

abbrev statement : Fields → Value
statement conditions = object (
    field (text "sid") (string (text "AllowReports")) (
      field (text "effect") (string (text "Allow")) (
        field (text "actions") (array (item (string any_report) no_items)) (
          field (text "resources") (array (item (string any_report) no_items))
            (field (text "conditions") (object conditions) no_fields)))))

abbrev document : Fields → Value
document conditions = object (
    field (text "version") (string (text "2026-01-01"))
      (field (text "statements") (array (item (statement conditions) no_items)) no_fields))

abbrev one_condition : Fields
one_condition =
    field (text "Bool") (object (field (text "user.email_verified") (bool true) no_fields))
      no_fields

abbrev anything : ValidationContext
anything = record { actions = none; expected_service = some (text "ntscout"); resources = none }

abbrev small : Value → Option ℕ
small input = some 200

validate_policy_document_tests :
    (validate_policy_document small anything (document one_condition)
      ≡ accepted (document one_condition))
    × (validate_policy_document small anything (document no_fields) ≢ accepted (document no_fields))
unfolding run
validate_policy_document_tests = (refl, λ e. cc)

validate_policy_document_iff_example :
    (validate_policy_document small anything (document one_condition)
      ≡ accepted (document one_condition))
    ↔ ((bytes : ℕ) × (small (document one_condition) ≡ some bytes)
        × (bytes ≤ document_bytes)
        × ValidDocument anything (document one_condition))
validate_policy_document_iff_example =
    validate_policy_document_iff small anything (document one_condition)

filter_oauth_scopes_iff_example :
    Among
      (text "email")
      (filter_oauth_scopes (text "email" ∷ text "root" ∷ []) (text "email" ∷ text "openid" ∷ []))
    ↔ (Among (text "email") (text "email" ∷ text "root" ∷ [])
        × Among (text "email") (text "email" ∷ text "openid" ∷ [])
        × Among (text "email") oauth_scopes)
filter_oauth_scopes_iff_example =
    filter_oauth_scopes_iff (text "email" ∷ text "root" ∷ []) (text "email" ∷ text "openid" ∷ [])
      (text "email")
