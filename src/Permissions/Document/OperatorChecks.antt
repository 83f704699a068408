-- ===== src/Permissions/Document/OperatorChecks.antt =====
-- The loop over a statement's condition operators, and the number of condition keys.
use ntauth.Common.{
  ℕ, ◌+◌, ◌≤◌, ◌≡◌, refl, ◌↔◌, inl, inr, true, not, List, [], ◌∷◌, ◌++◌, arith, All, Bool-cases,
  length, if◌then◌else◌, ltb, ◌==◌,
}
use ntauth.Text.{Text, text, includes}
use ntauth.Text.Laws.{includes_iff}
use ntauth.Json.{Value, undefined, null, bool, number, string, array, object, Fields, entries}
use ntauth.Permissions.Identifier.{condition_keys_per_statement}
use ntauth.Permissions.Conditions.{entries_of}
use ntauth.Permissions.Document.{Issues, IssueCode, add_issue, add_if}
use ntauth.Permissions.Document.Conditions.{
  condition_operators, validate_operator, validate_operators, validate_count, validate_conditions,
}
use ntauth.Permissions.Document.WellFormed.{
  IsConditionOperator, ValidOperator, key_count, ValidConditions,
}
use ntauth.Permissions.Document.Checks.{add_issue_iff, add_if_iff, nonempty_of, of_nonempty}
use ntauth.Permissions.Document.ConditionChecks.{validate_condition_entries_iff}

operator_iff : (op : Text) → (includes condition_operators op ≡ true) ↔ IsConditionOperator op
operator_iff op = ground (arith, includes_iff condition_operators op)

-- What one round of the outer loop has done, if it added no issue: the entry is valid, and its keys
-- are counted.
abbrev RoundOf : Text → Text × Value → ℕ → Issues → Type 0
RoundOf path e count issues =
    let after = validate_operator path e (count, issues) in
    ((after.1 ≡ []) ↔ ((issues ≡ []) × ValidOperator e))
    × (after.1 ≡ [] → after.0 ≡ count + length (entries_of e.1))

module _ (path operator : Text) (count : ℕ) (issues : Issues) where
  object_round : (fields : Fields) → RoundOf path (operator, object fields) count issues
  unfolding validate_operator
  object_round fields =
      let operator_path = path ++ text "." ++ operator in
      let es = entries fields in
      let nonempty =
        add_if (length es == 0) issues operator_path IssueCode.required
          (text "condition operator must not be empty") in
      let a =
        add_if_iff (length es == 0) issues operator_path IssueCode.required
          (text "condition operator must not be empty") in
      let b = validate_condition_entries_iff operator path es nonempty in
      let c =
        add_issue_iff issues operator_path IssueCode.unknown
          (text "unsupported condition operator") in
      elim (Bool-cases (includes condition_operators operator)) [
        | inr e ↦ rw e (ground (arith, c, operator_iff operator))
        | inl e ↦ rw e (
          (
            λ h.
                let (ha, ok) = b.0 h in
                let (clean, some_key) = a.0 ha in
                (clean, ((operator_iff operator).0 e, nonempty_of es some_key, ok)),
            λ (clean, (known, ne, ok)). b.1 (a.1 (clean, of_nonempty es ne), ok),
          ),
          λ h. refl,
        )
      ]

  other_round :
      (v : Value)
      → validate_operator path (operator, v) (count, issues) ≡ (
        count,
        (if not (includes condition_operators operator)
            then add_issue issues
                (path ++ text "." ++ operator)
                IssueCode.unknown
                (text "unsupported condition operator")
            else add_issue issues
                (path ++ text "." ++ operator)
                IssueCode.wrong_type
                (text "condition operator must contain an object")),
      )
      → (ValidOperator (operator, v) → ⊥)
      → RoundOf path (operator, v) count issues
  other_round v e invalid =
      let c =
        add_issue_iff issues (path ++ text "." ++ operator) IssueCode.unknown
          (text "unsupported condition operator") in
      let d =
        add_issue_iff issues (path ++ text "." ++ operator) IssueCode.wrong_type
          (text "condition operator must contain an object") in
      elim (Bool-cases (includes condition_operators operator)) [
        | inl t ↦
            rw (e, t) ((λ h. absurd (d.0 h).1, λ h. absurd (invalid h.1)), λ h. absurd (d.0 h).1)
        | inr t ↦
            rw (e, t) ((λ h. absurd (c.0 h).1, λ h. absurd (invalid h.1)), λ h. absurd (c.0 h).1)
      ]

operator_round :
    (path : Text) (e : Text × Value) (count : ℕ) (issues : Issues) → RoundOf path e count issues
unfolding validate_operator
operator_round path (operator, object fields) count issues =
    object_round path operator count issues fields
operator_round path (operator, undefined) count issues =
    other_round path operator count issues undefined (ground arith) (λ h. h)
operator_round path (operator, null) count issues =
    other_round path operator count issues null (ground arith) (λ h. h)
operator_round path (operator, bool b) count issues =
    other_round path operator count issues (bool b) (ground arith) (λ h. h)
operator_round path (operator, number n) count issues =
    other_round path operator count issues (number n) (ground arith) (λ h. h)
operator_round path (operator, string s) count issues =
    other_round path operator count issues (string s) (ground arith) (λ h. h)
operator_round path (operator, array vs) count issues =
    other_round path operator count issues (array vs) (ground arith) (λ h. h)

validate_operators_iff :
    (path : Text) (es : List (Text × Value)) (count : ℕ) (issues : Issues)
    → let after = validate_operators path es (count, issues) in
      ((after.1 ≡ []) ↔ ((issues ≡ []) × All ValidOperator es))
      × (after.1 ≡ [] → after.0 ≡ count + key_count es)
unfolding validate_operators
validate_operators_iff path [] count issues = ((λ h. (h, tt), λ h. h.0), λ h. omega arith)
validate_operators_iff path (e ∷ es) count issues =
    let mid = validate_operator path e (count, issues) in
    let (a, counted) = operator_round path e count issues in
    let (b, total) = validate_operators_iff path es mid.0 mid.1 in
    (
      (
        λ h. let (ha, rest) = b.0 h in let (clean, ok) = a.0 ha in (clean, (ok, rest)),
        λ (clean, (ok, rest)). b.1 (a.1 (clean, ok), rest),
      ),
      λ h. omega (arith, total h, counted (b.0 h).0),
    )

count_iff :
    (path : Text) (count : ℕ) (issues : Issues)
    → (validate_count path (count, issues) ≡ [])
      ↔ ((issues ≡ []) × (1 ≤ count) × (count ≤ condition_keys_per_statement))
unfolding validate_count
count_iff path count issues =
    let few =
      add_if (count == 0) issues path IssueCode.required (text "conditions must not be empty") in
    ground (
      arith,
      add_if_iff (count == 0) issues path IssueCode.required (text "conditions must not be empty"),
      add_if_iff (ltb condition_keys_per_statement count) few path IssueCode.limit
          (text "conditions exceed their limit"),
    )

-- `validateConditions` adds no issue exactly to an object of one to twenty condition keys under
-- known operators, each with a declared variable of the operator's type and a value that it accepts.
pub validate_conditions_iff :
    (value : Value) (path : Text) (issues : Issues)
    → (validate_conditions value path issues ≡ []) ↔ ((issues ≡ []) × ValidConditions value)
unfolding validate_conditions
validate_conditions_iff (object fields) path issues =
    let es = entries fields in
    let after = validate_operators path es (0, issues) in
    let (a, total) = validate_operators_iff path es 0 issues in
    let b = count_iff path after.0 after.1 in
    (
      λ h.
          let (ha, low, high) = b.0 h in
          let (clean, ok) = a.0 ha in
          let same = total ha in (clean, (ok, omega arith, omega arith)),
      λ (clean, (ok, low, high)).
          let ha = a.1 (clean, ok) in let same = total ha in b.1 (ha, omega arith, omega arith),
    )
validate_conditions_iff _ path issues = add_issue_iff issues path _ _
