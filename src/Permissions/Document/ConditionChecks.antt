-- ===== src/Permissions/Document/ConditionChecks.antt =====
-- Each check of a statement's conditions adds an issue exactly where the specification fails.
use ntauth.Common.{
  ◌+◌, ◌≤◌, ◌≡◌, ◌≢◌, ◌↔◌, ◌⊎◌, inl, inr, true, false, not, ◌&&◌, ◌||◌, some, List, [], ◌∷◌, ◌++◌,
  arith, All, any, Unrepeated, AllNew, AllNew-cons, AllNew-nil, Bool-cases, Option-cases, length,
  ltb, ◌==◌,
}
use ntauth.Text.{Text, text, ◌===◌}
use ntauth.Text.Laws.{===_iff}
use ntauth.Json.{Value, undefined, null, bool, number, string, array, object, same_value}
use ntauth.Permissions.Identifier.{condition_values_per_key}
use ntauth.Permissions.Conditions.{
  VariableType, boolean_type, string_type, policy_condition_variable_type, op_bool,
}
use ntauth.Permissions.Document.{Issues, IssueCode, add_if}
use ntauth.Permissions.Document.Conditions.{
  is_type, values_of, set_size, is_bool, is_bad_text, validate_condition_value, validate_variable,
  validate_entry, validate_condition_entries,
}
use ntauth.Permissions.Document.WellFormed.{
  GoodText, IsBoolean, ValidConditionValue, ValidVariable, ValidEntry,
}
use ntauth.Permissions.Document.Checks.{
  add_issue_iff, add_if_iff, seen_iff, nonempty_of, of_nonempty,
}

good_iff : (vs : List Value) → (any is_bad_text vs ≡ false) ↔ All GoodText vs
good_iff [] = ground arith
good_iff (undefined ∷ vs) = ground arith
good_iff (null ∷ vs) = ground arith
good_iff (bool b ∷ vs) = ground arith
good_iff (number n ∷ vs) = ground arith
good_iff (string [] ∷ vs) = ground arith
good_iff (string (c ∷ s) ∷ vs) = ground (arith, good_iff vs)
good_iff (array xs ∷ vs) = ground arith
good_iff (object fs ∷ vs) = ground arith

set_size-le : (seen vs : List Value) → set_size seen vs ≤ length seen + length vs
set_size-le seen [] = omega arith
set_size-le seen (v ∷ vs) = ground (arith, set_size-le seen vs, set_size-le (v ∷ seen) vs)

-- The set is as large as the list exactly if nothing is repeated.
set_size_iff :
    (seen vs : List Value)
    → All GoodText vs
    → (set_size seen vs ≡ length seen + length vs) ↔ (Unrepeated vs × AllNew seen vs)
set_size_iff seen [] h = ground arith
set_size_iff seen (string s ∷ vs) h = elim (Bool-cases (any (λ w. same_value w (string s)) seen)) [
  | inl e ↦ rw e (ground (arith, set_size-le seen vs, seen_iff seen s))
  | inr e ↦ rw e (
      ground (
        arith,
        set_size_iff (string s ∷ seen) vs h.1,
        seen_iff seen s,
        AllNew-cons (string s) seen vs,
      ))
]
set_size_iff seen (v ∷ vs) h = absurd h.0

set_size-Unrepeated :
    (vs : List Value)
    → All GoodText vs
    → (not (set_size [] vs == length vs) ≡ false) ↔ Unrepeated vs
set_size-Unrepeated vs h = ground (arith, set_size_iff [] vs h, AllNew-nil vs)

bool_iff : (v : Value) → (not (is_bool v) ≡ false) ↔ IsBoolean v
bool_iff (bool b) = ground arith
bool_iff undefined = ground arith
bool_iff _ = ground arith

-- The two branches of `validateConditionValue`, by the operator.
validate_condition_value_bool :
    (value : Value) (path : Text) (issues : Issues)
    → (validate_condition_value op_bool value path issues ≡ []) ↔ ((issues ≡ []) × IsBoolean value)
unfolding validate_condition_value ◌===◌
validate_condition_value_bool value path issues = ground (
  arith,
  add_if_iff (not (is_bool value)) issues path IssueCode.wrong_type
      (text "Bool requires a boolean"),
  bool_iff value,
)

strings_round :
    (values : List Value) (path typed : Text) (issues : Issues)
    → (add_if
          (not (set_size [] values == length values))
          (add_if
            (any is_bad_text values)
            (add_if
              (length values == 0 || ltb condition_values_per_key (length values))
              issues
              path
              IssueCode.limit
              (text "condition value count is invalid"))
            path
            IssueCode.wrong_type
            typed)
          path
          IssueCode.duplicate
          (text "condition values must be unique")
        ≡ [])
      ↔ ((issues ≡ [])
          × (values ≢ [])
          × (length values ≤ condition_values_per_key)
          × All GoodText values
          × Unrepeated values)
strings_round values path typed issues =
    let few = length values == 0 || ltb condition_values_per_key (length values) in
    let counted =
      add_if few issues path IssueCode.limit (text "condition value count is invalid") in
    let good = add_if (any is_bad_text values) counted path IssueCode.wrong_type typed in
    let a = add_if_iff few issues path IssueCode.limit (text "condition value count is invalid") in
    let b = add_if_iff (any is_bad_text values) counted path IssueCode.wrong_type typed in
    let c =
      add_if_iff (not (set_size [] values == length values)) good path IssueCode.duplicate
        (text "condition values must be unique") in
    let texts = good_iff values in
    (
      λ h.
          let (hb, once) = c.0 h in
          let (ha, all_good) = b.0 hb in
          let (clean, enough) = a.0 ha in
          let ok = texts.0 all_good in
          (
            clean,
            nonempty_of values (ground arith),
            ground arith,
            ok,
            (set_size-Unrepeated values ok).0 once,
          ),
      λ (clean, ne, few_enough, ok, once).
          let some_value = of_nonempty values ne in
          c.1 (b.1 (a.1 (clean, ground arith), texts.1 ok), (set_size-Unrepeated values ok).1 once),
    )

validate_condition_value_strings :
    (operator : Text) (value : Value) (path : Text) (issues : Issues)
    → (operator === op_bool) ≡ false
    → (validate_condition_value operator value path issues ≡ []) ↔ (
        (issues ≡ [])
        × (values_of value ≢ [])
        × (length (values_of value) ≤ condition_values_per_key)
        × All GoodText (values_of value)
        × Unrepeated (values_of value))
unfolding validate_condition_value
validate_condition_value_strings operator value path issues e = rw e (
    strings_round (values_of value) path
      (operator ++ text " requires a string or non-empty string array") issues)

-- `validateConditionValue` adds no issue exactly to what the operator may expect.
pub validate_condition_value_iff :
    (operator : Text) (value : Value) (path : Text) (issues : Issues)
    → (validate_condition_value operator value path issues ≡ [])
      ↔ ((issues ≡ []) × ValidConditionValue operator value)
validate_condition_value_iff operator value path issues = elim (Bool-cases (operator === op_bool)) [
  | inl e ↦
      let is_op = (===_iff operator op_bool).0 e in
      let parts = validate_condition_value_bool value path issues in
      rw is_op (ground (arith, parts))
  | inr e ↦
      let parts = validate_condition_value_strings operator value path issues e in
      ground (arith, parts, ===_iff operator op_bool)
]

validate_variable_iff :
    (operator key path : Text) (issues : Issues)
    → (validate_variable operator key path issues ≡ [])
      ↔ ((issues ≡ []) × ValidVariable operator key)
unfolding validate_variable
validate_variable_iff operator key path issues =
    elim (Option-cases (policy_condition_variable_type key)) [
      | inl e ↦
          rw (e, validate_variable)
            (ground (
              arith,
              add_issue_iff issues path IssueCode.format
                  (text "condition variable is not declared"),
            ))
      | inr (t, e) ↦ rw (e, validate_variable) (typed t)
    ]
  where
    typed :
        (t : VariableType)
        → (add_if
              (operator === op_bool && not (is_type boolean_type (some t))
                || not (operator === op_bool) && not (is_type string_type (some t)))
              issues
              path
              IssueCode.wrong_type
              (text "condition operator is invalid for this variable")
            ≡ [])
          ↔ ((issues ≡ [])
              × (((operator ≡ op_bool) × (some t ≡ some boolean_type))
                  ⊎ ((operator ≢ op_bool) × (some t ≡ some string_type))))
    typed boolean_type = ground (
      arith,
      add_if_iff (operator === op_bool && false || not (operator === op_bool) && true) issues path
          IssueCode.wrong_type (text "condition operator is invalid for this variable"),
      ===_iff operator op_bool,
    )
    typed string_type = ground (
      arith,
      add_if_iff (operator === op_bool && true || not (operator === op_bool) && false) issues path
          IssueCode.wrong_type (text "condition operator is invalid for this variable"),
      ===_iff operator op_bool,
    )

validate_entry_iff :
    (operator path : Text) (e : Text × Value) (issues : Issues)
    → (validate_entry operator path e issues ≡ []) ↔ ((issues ≡ []) × ValidEntry operator e)
unfolding validate_entry
validate_entry_iff operator path (key, value) issues =
    let condition_path = path ++ text "." ++ operator ++ text "." ++ key in
    let a = validate_variable_iff operator key condition_path issues in
    let b =
      validate_condition_value_iff operator value condition_path
        (validate_variable operator key condition_path issues) in
    (
      λ h. let (ha, ok) = b.0 h in let (clean, declared) = a.0 ha in (clean, (declared, ok)),
      λ (clean, (declared, ok)). b.1 (a.1 (clean, declared), ok),
    )

pub validate_condition_entries_iff :
    (operator path : Text) (es : List (Text × Value)) (issues : Issues)
    → (validate_condition_entries operator path es issues ≡ [])
      ↔ ((issues ≡ []) × All (ValidEntry operator) es)
unfolding validate_condition_entries
validate_condition_entries_iff operator path [] issues = (λ h. (h, tt), λ h. h.0)
validate_condition_entries_iff operator path (e ∷ es) issues =
    let a = validate_entry_iff operator path e issues in
    let b =
      validate_condition_entries_iff operator path es (validate_entry operator path e issues) in
    (
      λ h. let (ha, rest) = b.0 h in let (clean, ok) = a.0 ha in (clean, (ok, rest)),
      λ (clean, (ok, rest)). b.1 (a.1 (clean, ok), rest),
    )
