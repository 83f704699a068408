-- ===== src/Permissions/Conditions.antt =====
-- packages/permissions/src/conditions.ts: the condition variables and the evaluation of conditions.
pub mod Wildcard
pub mod Meaning
use ntauth.Common.{
  ℕ, Bool, true, false, not, ◌&&◌, ◌||◌, Option, none, some, List, [], ◌∷◌, if◌then◌else◌, all, any,
}
use ntauth.Text.{Text, text, ◌===◌, includes, split}
use ntauth.Text.Split.{head_of, tail_of}
use ntauth.Json.{Value, undefined, bool, string, array, object, items, entries, indexed, get}
use Wildcard.{like}

pub data VariableType : Type 0 where
  boolean_type string_type : VariableType

-- `POLICY_CONDITION_VARIABLE_TYPES`
abbrev pub variable_types : List (Text × VariableType)
variable_types =
    (text "organization.id", string_type)
    ∷ (text "organization.role", string_type)
    ∷ (text "organization.slug", string_type)
    ∷ (text "service.environment", string_type)
    ∷ (text "service.key", string_type)
    ∷ (text "user.email", string_type)
    ∷ (text "user.email_verified", boolean_type)
    ∷ (text "user.id", string_type)
    ∷ (text "user.name", string_type)
    ∷ []

type_in : Text → List (Text × VariableType) → Option VariableType
type_in variable [] = none
type_in variable ((name, t) ∷ rest) = if name === variable then some t else type_in variable rest

-- `policyConditionVariableType`, `none` for a variable that is not declared
unfoldable pub policy_condition_variable_type : Text → Option VariableType
unfolding type_in
policy_condition_variable_type variable = type_in variable variable_types

abbrev pub is_some {ℓ} : {A : Type ℓ} → Option A → Bool
is_some none = false
is_some (some a) = true

-- `isPolicyConditionVariable`
unfoldable pub is_policy_condition_variable : Text → Bool
unfolding policy_condition_variable_type
is_policy_condition_variable variable = is_some (policy_condition_variable_type variable)

-- A context: the namespaces that are given, each with the values that it holds.
abbrev pub Context : Type 0
Context = List (Text × List (Text × Value))

namespace_values : Text → Context → List (Text × Value)
namespace_values name [] = []
namespace_values name ((n, vs) ∷ rest) = if n === name then vs else namespace_values name rest

-- `contextValue`
unfoldable pub context_value : Context → Text → Value
unfolding namespace_values get
context_value context variable =
    let parts = split b'.' variable in
    get (head_of (tail_of parts)) (namespace_values (head_of parts) context)

abbrev pub op_bool : Text
op_bool = text "Bool"

abbrev pub string_equals : Text
string_equals = text "StringEquals"

abbrev pub string_like : Text
string_like = text "StringLike"

abbrev pub string_not_equals : Text
string_not_equals = text "StringNotEquals"

-- `stringOperators`
abbrev pub string_operators : List Text
string_operators = string_equals ∷ string_like ∷ string_not_equals ∷ []

abbrev pub strings_of : List Value → Option (List Text)
strings_of [] = some []
strings_of (string s ∷ vs) = elim (strings_of vs) [ none ↦ none | some ss ↦ some (s ∷ ss) ]
strings_of (_ ∷ vs) = none

-- `expectedStrings`
pub expected_strings : Value → Option (List Text)
expected_strings (array no_values) = elim (strings_of (items no_values)) [
  | none ↦ none
  | some [] ↦ none
  | some (s ∷ ss) ↦ some (s ∷ ss)
]
expected_strings (string s) = some (s ∷ [])
expected_strings _ = none

-- The `Bool` branch of the loop; `false` stands for `return false`, `true` for `continue`.
pub bool_holds : Value → Value → Bool
bool_holds (bool true) (bool b) = b
bool_holds (bool false) (bool b) = not b
bool_holds _ _ = false

-- The last three tests of the loop.
pub strings_hold : Text → Text → List Text → Bool
strings_hold operator actual values =
    if operator === string_equals && not (includes values actual)
    then false
    else if operator === string_not_equals && includes values actual
    then false
    else if operator === string_like && not (any (λ pattern. like pattern actual) values)
    then false
    else true

pub string_holds : Text → Value → Value → Bool
unfolding strings_hold expected_strings
string_holds operator (string actual) expected = elim (expected_strings expected) [
  | none ↦ false
  | some values ↦ strings_hold operator actual values
]
string_holds operator _ expected = false

-- One round of the inner loop.
pub entry_holds : Context → Text → Text × Value → Bool
unfolding string_holds bool_holds context_value is_policy_condition_variable
entry_holds context operator (variable, expected) =
    if is_policy_condition_variable variable
    then (if operator === op_bool
        then bool_holds (context_value context variable) expected
        else string_holds operator (context_value context variable) expected)
    else false

-- `Object.entries(entries)` for what passes `typeof entries === "object"`, without `null`
abbrev pub entries_of : Value → List (Text × Value)
entries_of (object fs) = entries fs
entries_of (array vs) = indexed 0 (items vs)
entries_of _ = []

abbrev pub is_empty {ℓ} : {A : Type ℓ} → List A → Bool
is_empty [] = true
is_empty (x ∷ xs) = false

-- One round of the outer loop. A value that is no object has no entries, and fails as an empty one.
pub operator_holds : Context → Text × Value → Bool
unfolding entry_holds
operator_holds context (operator, value) =
    if not (operator === op_bool) && not (includes string_operators operator)
      || is_empty (entries_of value)
    then false
    else all (entry_holds context operator) (entries_of value)

-- `evaluatePolicyConditions`; an absent or empty condition object holds
unfoldable pub evaluate_policy_conditions : Option (List (Text × Value)) → Context → Bool
unfolding operator_holds
evaluate_policy_conditions none context = true
evaluate_policy_conditions (some conditions) context = all (operator_holds context) conditions
