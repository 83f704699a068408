-- ===== src/Permissions/Document.antt =====
-- packages/permissions/src/iam.ts: the validation of a policy document. The array of issues that the
-- functions push to is passed along.
mod Reports
pub mod Conditions
pub mod WellFormed
pub mod Checks
pub mod ConditionChecks
pub mod OperatorChecks
pub mod StatementChecks
pub mod Accepted
unfoldable pub use Reports.*
use Conditions.{validate_conditions}
use ntauth.Common.{
  ℕ, suc, ◌⊎◌, inl, inr, Bool, true, false, not, ◌&&◌, ◌||◌, Option, none, some, List, [], ◌∷◌,
  ◌++◌, ltb, leb, ◌==◌, if◌then◌else◌, length, any, all,
}
use ntauth.Text.{Text, text, ◌===◌, includes, decimal}
use ntauth.Json.{Value, undefined, string, array, object, items, entries, get, same_value}
use ntauth.Permissions.Identifier.{
  IdentifierKind, action, resource, is_policy_identifier, service_of, identifier_length, length_ok,
  actions_per_statement, resources_per_statement, sid_length, statements_limit, document_bytes,
  is_lower, is_upper, is_digit,
}

-- `PolicyValidationContext`
pub record ValidationContext : Type 0 where
  pub actions : Option (List Text)
  pub expected_service : Option Text
  pub resources : Option (List Text)

abbrev pub kind_name : IdentifierKind → Text
kind_name action = text "action"
kind_name resource = text "resource"

-- `context.expectedService && service !== context.expectedService`
abbrev pub is_foreign : Option Text → Text → Bool
is_foreign none service = false
is_foreign (some []) service = false
is_foreign (some (c ∷ s)) service = not (service === (c ∷ s))

abbrev pub catalogue_of : IdentifierKind → ValidationContext → Option (List Text)
catalogue_of action context = context.actions
catalogue_of resource context = context.resources

-- `catalogue && !catalogue.has(value)`
abbrev pub is_undeclared : Option (List Text) → Text → Bool
is_undeclared none value = false
is_undeclared (some names) value = not (includes names value)

-- `validateIdentifier`
pub validate_identifier : Value → IdentifierKind → Text → ValidationContext → Issues → Issues
validate_identifier (string value) kind path context issues =
    if not (length_ok value)
    then add_issue issues path limit (kind_name kind ++ text " length is invalid")
    else if not (is_policy_identifier value kind none)
    then add_issue issues path format (kind_name kind ++ text " identifier or wildcard is invalid")
    else if is_foreign context.expected_service (service_of value)
    then add_issue issues path scope (kind_name kind ++ text " belongs to another service")
    else add_if (is_undeclared (catalogue_of kind context) value) issues path catalogue
        (kind_name kind ++ text " is not declared in the service catalogue")
validate_identifier _ kind path context issues =
    add_issue issues path wrong_type (kind_name kind ++ text " must be a string")

-- `${path}[${index}]`
abbrev pub at_index : Text → ℕ → Text
at_index path index = path ++ text "[" ++ decimal index ++ text "]"

-- The loop of `validateStringArray`; `seen` holds the entries before this one.
pub validate_entries :
    IdentifierKind → Text → ValidationContext → List Value → ℕ → List Value → Issues → Issues
unfolding validate_identifier
validate_entries kind path context [] index seen issues = issues
validate_entries kind path context (entry ∷ rest) index seen issues =
    let checked = validate_identifier entry kind (at_index path index) context issues in
    validate_entries kind path context rest (suc index) (entry ∷ seen) (
      add_if (any (λ v. same_value v entry) seen) checked (at_index path index) duplicate
        (text "duplicate " ++ kind_name kind))

-- `validateStringArray`
pub validate_string_array : Value → Text → ℕ → IdentifierKind → ValidationContext → Issues → Issues
unfolding validate_entries
validate_string_array (array vs) path maximum kind context issues =
    let entries = items vs in
    let nonempty =
      add_if (length entries == 0) issues path required (path ++ text " must not be empty") in
    let bounded =
      add_if (ltb maximum (length entries)) nonempty path limit
        (path ++ text " exceeds its limit") in
    validate_entries kind path context entries 0 [] bounded
validate_string_array _ path maximum kind context issues =
    add_issue issues path wrong_type (path ++ text " must be an array")

-- `rejectUnknownKeys`
pub reject_unknown_keys : List (Text × Value) → List Text → Text → Issues → Issues
reject_unknown_keys [] allowed path issues = issues
reject_unknown_keys ((key, v) ∷ rest) allowed path issues = reject_unknown_keys rest allowed path (
    add_if (not (includes allowed key)) issues (path ++ text "." ++ key) unknown
      (text "unknown field"))

-- `[A-Za-z0-9_-]`
abbrev pub sid_unit : ℕ → Bool
sid_unit c = is_upper c || is_lower c || is_digit c || c == b'_' || c == b'-'

-- `/^[A-Za-z0-9_-]+$/.test(sid)` and the test of the length
abbrev pub sid_ok : Text → Bool
sid_ok sid = ltb 0 (length sid) && all sid_unit sid && leb (length sid) sid_length

-- The `sid`s seen so far, and the issues.
abbrev pub Progress : Type 0
Progress = List Text × Issues

-- The test of a statement's `sid`.
pub validate_sid : Value → Text → Progress → Progress
validate_sid undefined path (seen, issues) = (seen, issues)
validate_sid (string sid) path (seen, issues) =
    if not (sid_ok sid)
    then (seen, add_issue issues (path ++ text ".sid") format (text "sid is invalid"))
    else if includes seen sid
    then (seen, add_issue issues (path ++ text ".sid") duplicate (text "sid must be unique"))
    else (sid ∷ seen, issues)
validate_sid _ path (seen, issues) =
    (seen, add_issue issues (path ++ text ".sid") format (text "sid is invalid"))

abbrev pub is_text : Value → Text → Bool
is_text (string s) t = s === t
is_text _ t = false

abbrev pub statement_keys : List Text
statement_keys =
    text "sid" ∷ text "effect" ∷ text "actions" ∷ text "resources" ∷ text "conditions" ∷ []

abbrev pub document_keys : List Text
document_keys = text "version" ∷ text "statements" ∷ []

-- `if (statement.conditions !== undefined) validateConditions(...)`
pub validate_optional_conditions : Value → Text → Issues → Issues
unfolding validate_conditions
validate_optional_conditions undefined path issues = issues
validate_optional_conditions value path issues = validate_conditions value path issues

-- One round of the loop over the statements.
pub validate_statement : ValidationContext → Value → Text → Progress → Progress
unfolding reject_unknown_keys validate_sid validate_string_array validate_optional_conditions
validate_statement context (object fields) path (seen, issues) =
    let fs = entries fields in
    let effect = get (text "effect") fs in
    let known = reject_unknown_keys fs statement_keys path issues in
    let effective =
      add_if (not (is_text effect (text "Allow")) && not (is_text effect (text "Deny"))) known
        (path ++ text ".effect") format (text "effect must be Allow or Deny") in
    let (seen', named) = validate_sid (get (text "sid") fs) path (seen, effective) in
    let acted =
      validate_string_array (get (text "actions") fs) (path ++ text ".actions")
        actions_per_statement action context named in
    let placed =
      validate_string_array (get (text "resources") fs) (path ++ text ".resources")
        resources_per_statement resource context acted in
    (
      seen',
      validate_optional_conditions (get (text "conditions") fs) (path ++ text ".conditions") placed,
    )
validate_statement context _ path (seen, issues) =
    (seen, add_issue issues path wrong_type (text "statement must be an object"))

pub validate_statements : ValidationContext → List Value → ℕ → Progress → Progress
unfolding validate_statement
validate_statements context [] index progress = progress
validate_statements context (statement ∷ rest) index progress =
    validate_statements context rest (suc index)
      (validate_statement context statement (at_index (text "$.statements") index) progress)

-- The part of `validatePolicyDocument` that reads `input.statements`.
pub validate_statement_list : ValidationContext → Value → Issues → Issues
unfolding validate_statements
validate_statement_list context (array vs) issues =
    let statements = items vs in
    let nonempty =
      add_if (length statements == 0) issues (text "$.statements") required
        (text "statements must not be empty") in
    let bounded =
      add_if (ltb statements_limit (length statements)) nonempty (text "$.statements") limit
        (text "statements exceed their limit") in
    (validate_statements context statements 0 ([], bounded)).1
validate_statement_list context _ issues =
    add_issue issues (text "$.statements") wrong_type (text "statements must be an array")

abbrev pub policy_document_version : Text
policy_document_version = text "2026-01-01"

-- The issues of an input whose encoding has `bytes` bytes.
pub document_issues : ValidationContext → Value → ℕ → Issues
unfolding reject_unknown_keys validate_statement_list
document_issues context (object fields) bytes =
    let fs = entries fields in
    let fitting =
      add_if (ltb document_bytes bytes) [] (text "$") limit
        (text "policy document exceeds its byte limit") in
    let known = reject_unknown_keys fs document_keys (text "$") fitting in
    let versioned =
      add_if (not (is_text (get (text "version") fs) policy_document_version)) known
        (text "$.version") format (text "version must be " ++ policy_document_version) in
    validate_statement_list context (get (text "statements") fs) versioned
document_issues context _ bytes =
    add_issue
      (add_if (ltb document_bytes bytes) [] (text "$") limit
        (text "policy document exceeds its byte limit"))
      (text "$") wrong_type (text "policy document must be an object")

-- `PolicyValidationResult`
pub data ValidationResult : Type 0 where
  accepted : Value → ValidationResult
  rejected : Issues → ValidationResult

abbrev pub result_of : Value → Issues → ValidationResult
result_of input [] = accepted input
result_of input (issue ∷ issues) = rejected (issue ∷ issues)

-- `validatePolicyDocument`. `encoded_bytes` gives the number of bytes of `JSON.stringify(input)` in
-- UTF-8, and `none` for an input that it throws on.
unfoldable pub validate_policy_document :
    (Value → Option ℕ) → ValidationContext → Value → ValidationResult
unfolding document_issues
validate_policy_document encoded_bytes context input = elim (encoded_bytes input) [
  | none ↦ rejected (add_issue [] (text "$") wrong_type (text "policy must be JSON serializable"))
  | some bytes ↦ result_of input (document_issues context input bytes)
]

-- `parsePolicyDocument`: the document, or the issues that `PolicyValidationError` carries
unfoldable pub parse_policy_document :
    (Value → Option ℕ) → ValidationContext → Value → Value ⊎ Issues
unfolding validate_policy_document
parse_policy_document encoded_bytes context input =
    elim (validate_policy_document encoded_bytes context input) [
      | accepted value ↦ inl value
      | rejected issues ↦ inr issues
    ]
