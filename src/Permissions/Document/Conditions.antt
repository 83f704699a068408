-- ===== src/Permissions/Document/Conditions.antt =====
-- packages/permissions/src/iam.ts: `validateConditionValue` and `validateConditions`.
use ntauth.Common.{
  ℕ, ◌+◌, Bool, true, false, not, ◌&&◌, ◌||◌, Option, none, some, List, [], ◌∷◌, ◌++◌, ltb, ◌==◌,
  if◌then◌else◌, length, any,
}
use ntauth.Text.{Text, text, ◌===◌, includes}
use ntauth.Json.{Value, bool, string, array, object, items, entries, same_value}
use ntauth.Permissions.Identifier.{
  condition_keys_per_statement, condition_values_per_key, identifier_length,
}
use ntauth.Permissions.Conditions.{
  VariableType, boolean_type, string_type, policy_condition_variable_type, op_bool, string_equals,
  string_like, string_not_equals,
}
use ntauth.Permissions.Document.Reports.{
  Issues, add_issue, add_if, duplicate, format, limit, required, wrong_type, unknown,
}

-- `conditionOperators`
abbrev pub condition_operators : List Text
condition_operators = string_equals ∷ string_like ∷ string_not_equals ∷ op_bool ∷ []

-- `Array.isArray(value) ? value : [value]`
abbrev pub values_of : Value → List Value
values_of (array vs) = items vs
values_of v = v ∷ []

-- `new Set(values).size`, with the elements that the set has already
abbrev pub set_size : List Value → List Value → ℕ
set_size seen [] = length seen
set_size seen (v ∷ vs) = set_size (if any (λ w. same_value w v) seen then seen else v ∷ seen) vs

abbrev pub is_bool : Value → Bool
is_bool (bool b) = true
is_bool _ = false

-- The test of `values.some(...)`.
abbrev pub is_bad_text : Value → Bool
is_bad_text (string s) = length s == 0 || ltb identifier_length (length s)
is_bad_text _ = true

-- `validateConditionValue`
unfoldable pub validate_condition_value : Text → Value → Text → Issues → Issues
validate_condition_value operator value path issues =
    let values = values_of value in
    let counted =
      add_if (length values == 0 || ltb condition_values_per_key (length values)) issues path limit
        (text "condition value count is invalid") in
    let typed =
      add_if (any is_bad_text values) counted path wrong_type
        (operator ++ text " requires a string or non-empty string array") in
    let unique =
      add_if (not (set_size [] values == length values)) typed path duplicate
        (text "condition values must be unique") in
    if operator === op_bool
    then add_if (not (is_bool value)) issues path wrong_type (text "Bool requires a boolean")
    else unique

abbrev pub is_type : VariableType → Option VariableType → Bool
is_type boolean_type (some boolean_type) = true
is_type string_type (some string_type) = true
is_type _ _ = false

-- The tests of a condition's variable.
unfoldable pub validate_variable : Text → Text → Text → Issues → Issues
validate_variable operator key path issues =
    let declared = policy_condition_variable_type key in
    elim declared [
      | none ↦ add_issue issues path format (text "condition variable is not declared")
      | some t ↦
          add_if
            (operator === op_bool && not (is_type boolean_type (some t))
              || not (operator === op_bool) && not (is_type string_type (some t)))
            issues path wrong_type (text "condition operator is invalid for this variable")
    ]

-- One round of the inner loop, without its counter.
unfoldable pub validate_entry : Text → Text → Text × Value → Issues → Issues
unfolding validate_variable validate_condition_value
validate_entry operator path (key, value) issues =
    let condition_path = path ++ text "." ++ operator ++ text "." ++ key in
    validate_condition_value operator value condition_path
      (validate_variable operator key condition_path issues)

unfoldable pub validate_condition_entries : Text → Text → List (Text × Value) → Issues → Issues
unfolding validate_entry
validate_condition_entries operator path [] issues = issues
validate_condition_entries operator path (e ∷ rest) issues =
    validate_condition_entries operator path rest (validate_entry operator path e issues)

-- The number of condition keys so far, and the issues.
abbrev pub Counted : Type 0
Counted = ℕ × Issues

-- One round of the outer loop.
unfoldable pub validate_operator : Text → Text × Value → Counted → Counted
unfolding validate_condition_entries
validate_operator path (operator, object fields) (count, issues) =
    let operator_path = path ++ text "." ++ operator in
    let es = entries fields in
    let nonempty =
      add_if (length es == 0) issues operator_path required
        (text "condition operator must not be empty") in
    if not (includes condition_operators operator)
    then (count, add_issue issues operator_path unknown (text "unsupported condition operator"))
    else (count + length es, validate_condition_entries operator path es nonempty)
validate_operator path (operator, _) (count, issues) =
    let operator_path = path ++ text "." ++ operator in
    if not (includes condition_operators operator)
    then (count, add_issue issues operator_path unknown (text "unsupported condition operator"))
    else (
      count,
      add_issue issues operator_path wrong_type (text "condition operator must contain an object"),
    )

unfoldable pub validate_operators : Text → List (Text × Value) → Counted → Counted
unfolding validate_operator
validate_operators path [] counted = counted
validate_operators path (e ∷ rest) counted =
    validate_operators path rest (validate_operator path e counted)

-- The two tests after the loops of `validateConditions`.
unfoldable pub validate_count : Text → Counted → Issues
validate_count path (count, issues) =
    add_if (ltb condition_keys_per_statement count)
      (add_if (count == 0) issues path required (text "conditions must not be empty")) path limit
      (text "conditions exceed their limit")

-- `validateConditions`
unfoldable pub validate_conditions : Value → Text → Issues → Issues
unfolding validate_operators validate_count
validate_conditions (object fields) path issues =
    validate_count path (validate_operators path (entries fields) (0, issues))
validate_conditions _ path issues =
    add_issue issues path wrong_type (text "conditions must be an object")
