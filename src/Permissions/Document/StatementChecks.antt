-- ===== src/Permissions/Document/StatementChecks.antt =====
-- Each check of a statement adds an issue exactly where the specification fails.
use ntauth.Common.{
  ℕ, ◌≡◌, refl, ap, ◌↔◌, ◌⊎◌, inl, inr, true, not, ◌&&◌, List, [], ◌∷◌, ◌++◌, arith, all_iff,
  AllNew, Bool-cases,
}
use ntauth.Text.{Text, text, includes}
use ntauth.Text.Laws.{===_iff, includes_iff}
use ntauth.Json.{Value, undefined, string, object, Fields, entries, get}
use ntauth.Permissions.Identifier.{action, resource, actions_per_statement, resources_per_statement}
use ntauth.Permissions.Document.{
  Issues, IssueCode, add_issue, add_if, ValidationContext, sid_unit, sid_ok, validate_sid, is_text,
  statement_keys, validate_optional_conditions, validate_statement, validate_string_array,
  reject_unknown_keys,
}
use ntauth.Permissions.Document.WellFormed.{
  SidUnit, ValidSid, sid_list, ValidOptionalConditions, ValidStatement, sid_of,
}
use ntauth.Permissions.Document.Checks.{
  add_issue_iff, add_if_iff, validate_string_array_iff, reject_unknown_keys_iff,
}
use ntauth.Permissions.Document.OperatorChecks.{validate_conditions_iff}

sid_unit_iff : (c : ℕ) → (sid_unit c ≡ true) ↔ SidUnit c
sid_unit_iff c = ground arith

sid_ok_iff : (sid : Text) → (sid_ok sid ≡ true) ↔ ValidSid (string sid)
sid_ok_iff [] = ground arith
sid_ok_iff (c ∷ s) = ground (arith, sid_unit_iff c, all_iff sid_unit SidUnit sid_unit_iff s)

-- What a check of a `sid` has done, if it added no issue.
abbrev SidRound : Value → Text → List Text → Issues → Type 0
SidRound v path seen issues =
    let after = validate_sid v path (seen, issues) in
    ((after.1 ≡ []) ↔ ((issues ≡ []) × ValidSid v × AllNew seen (sid_list v)))
    × (after.1 ≡ [] → after.0 ≡ sid_list v ++ seen)

sid_invalid :
    (v : Value) (path : Text) (seen : List Text) (issues : Issues)
    → validate_sid v path (seen, issues)
      ≡ (seen, add_issue issues (path ++ text ".sid") IssueCode.format (text "sid is invalid"))
    → ¬ ValidSid v
    → SidRound v path seen issues
sid_invalid v path seen issues e bad =
    let c = add_issue_iff issues (path ++ text ".sid") IssueCode.format (text "sid is invalid") in
    rw e ((λ h. absurd (c.0 h).1, λ h. absurd (bad h.1)), λ h. absurd (c.0 h).1)

sid_round :
    (v : Value) (path : Text) (seen : List Text) (issues : Issues) → SidRound v path seen issues
unfolding validate_sid
sid_round undefined path seen issues = ((λ h. (h, tt, tt), λ h. h.0), λ h. refl)
sid_round (string sid) path seen issues =
    let c = add_issue_iff issues (path ++ text ".sid") IssueCode.format (text "sid is invalid") in
    let d =
      add_issue_iff issues (path ++ text ".sid") IssueCode.duplicate (text "sid must be unique") in
    elim (Bool-cases (sid_ok sid)) [
      | inr e ↦ sid_invalid (string sid) path seen issues (rw e) (ground (arith, sid_ok_iff sid))
      | inl e ↦ elim (Bool-cases (includes seen sid)) [
        | inl f ↦
            rw (e, f)
              (
                (
                  λ h. absurd (d.0 h).1,
                  λ (clean, valid, new). absurd (new.0 ((includes_iff seen sid).0 f)),
                ),
                λ h. absurd (d.0 h).1,
              )
        | inr f ↦
            rw (e, f)
              (
                (
                  λ h. (h, (sid_ok_iff sid).0 e, (λ m. ground (arith, includes_iff seen sid), tt)),
                  λ (clean, valid, new). clean,
                ),
                λ h. refl,
              )
      ]
    ]
sid_round v path seen issues = sid_invalid v path seen issues refl (λ h. h)

pub is_text_iff : (v : Value) (t : Text) → (is_text v t ≡ true) ↔ (v ≡ string t)
is_text_iff (string s) t = (λ h. ap string ((===_iff s t).0 h), λ h. (===_iff s t).1 (cc))
is_text_iff undefined t = (λ h. cc, λ h. cc)
is_text_iff _ t = (λ h. cc, λ h. cc)

optional_conditions_iff :
    (v : Value) (path : Text) (issues : Issues)
    → (validate_optional_conditions v path issues ≡ [])
      ↔ ((issues ≡ []) × ValidOptionalConditions v)
unfolding validate_optional_conditions
optional_conditions_iff undefined path issues = (λ h. (h, tt), λ h. h.0)
optional_conditions_iff v path issues = validate_conditions_iff v path issues

effect_iff :
    (v : Value) (path : Text) (issues : Issues)
    → (add_if
          (not (is_text v (text "Allow")) && not (is_text v (text "Deny")))
          issues
          path
          IssueCode.format
          (text "effect must be Allow or Deny")
        ≡ [])
      ↔ ((issues ≡ []) × ((v ≡ string (text "Allow")) ⊎ (v ≡ string (text "Deny"))))
effect_iff v path issues = ground (
  arith,
  add_if_iff (not (is_text v (text "Allow")) && not (is_text v (text "Deny"))) issues path
      IssueCode.format (text "effect must be Allow or Deny"),
  is_text_iff v (text "Allow"),
  is_text_iff v (text "Deny"),
)

-- What one round of the loop over the statements has done, if it added no issue: the statement is
-- valid, its `sid` is new, and it is among those seen.
abbrev pub StatementRound : ValidationContext → Value → Text → List Text → Issues → Type 0
StatementRound context v path seen issues =
    let after = validate_statement context v path (seen, issues) in
    ((after.1 ≡ []) ↔ ((issues ≡ []) × ValidStatement context v × AllNew seen (sid_of v)))
    × (after.1 ≡ [] → after.0 ≡ sid_of v ++ seen)

object_round :
    (context : ValidationContext) (fields : Fields) (path : Text) (seen : List Text)
    (issues : Issues)
    → StatementRound context (object fields) path seen issues
unfolding validate_statement
object_round context fields path seen issues =
    let fs = entries fields in
    let effect = get (text "effect") fs in
    let known = reject_unknown_keys fs statement_keys path issues in
    let effective =
      add_if (not (is_text effect (text "Allow")) && not (is_text effect (text "Deny"))) known
        (path ++ text ".effect") IssueCode.format (text "effect must be Allow or Deny") in
    let named = validate_sid (get (text "sid") fs) path (seen, effective) in
    let acted =
      validate_string_array (get (text "actions") fs) (path ++ text ".actions")
        actions_per_statement action context named.1 in
    let placed =
      validate_string_array (get (text "resources") fs) (path ++ text ".resources")
        resources_per_statement resource context acted in
    let k = reject_unknown_keys_iff fs statement_keys path issues in
    let e = effect_iff effect (path ++ text ".effect") known in
    let (s, seen_after) = sid_round (get (text "sid") fs) path seen effective in
    let a =
      validate_string_array_iff (get (text "actions") fs) (path ++ text ".actions")
        actions_per_statement action context named.1 in
    let r =
      validate_string_array_iff (get (text "resources") fs) (path ++ text ".resources")
        resources_per_statement resource context acted in
    let c =
      optional_conditions_iff (get (text "conditions") fs) (path ++ text ".conditions") placed in
    (
      (
        λ h.
            let (hr, conditions) = c.0 h in
            let (ha, resources) = r.0 hr in
            let (hs, actions) = a.0 ha in
            let (he, sid, new) = s.0 hs in
            let (hk, is_effect) = e.0 he in
            let (clean, keys) = k.0 hk in
            (
              clean,
              record {
                keys = keys;
                effect = is_effect;
                sid = sid;
                actions = actions;
                resources = resources;
                conditions = conditions;
              },
              new,
            ),
        λ (clean, valid, new). c.1 (
          r.1 (
            a.1 (s.1 (e.1 (k.1 (clean, valid.keys), valid.effect), valid.sid, new), valid.actions),
            valid.resources,
          ),
          valid.conditions,
        ),
      ),
      λ h. seen_after (a.0 (r.0 (c.0 h).0).0).0,
    )

pub statement_round :
    (context : ValidationContext) (v : Value) (path : Text) (seen : List Text) (issues : Issues)
    → StatementRound context v path seen issues
unfolding validate_statement
statement_round context (object fields) path seen issues =
    object_round context fields path seen issues
statement_round context _ path seen issues =
    let c = add_issue_iff issues path IssueCode.wrong_type (text "statement must be an object") in
    ((λ h. absurd (c.0 h).1, λ h. absurd h.1), λ h. absurd (c.0 h).1)
