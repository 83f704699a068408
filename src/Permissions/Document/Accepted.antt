-- ===== src/Permissions/Document/Accepted.antt =====
-- A document is accepted exactly if it is well formed.
use ntauth.Common.{
  ℕ, suc, ◌≤◌, ◌≡◌, refl, subst, sym, ◌↔◌, ◌⊎◌, inl, inr, not, Option, some, List, [], ◌∷◌, ◌++◌,
  arith, All, Unrepeated, AllNew, AllNew-cons, AllNew-nil, Option-cases, length, ltb, ◌==◌,
}
use ntauth.Text.{Text, text}
use ntauth.Json.{Value, undefined, string, array, object, items, entries, get}
use ntauth.Permissions.Identifier.{statements_limit, document_bytes}
use ntauth.Permissions.Document.{
  Issues, IssueCode, add_if, ValidationContext, is_text, document_keys, validate_statement,
  validate_statements, at_index, validate_statement_list, policy_document_version, document_issues,
  accepted, result_of, validate_policy_document, reject_unknown_keys,
}
use ntauth.Permissions.Document.WellFormed.{
  sid_list, ValidStatement, sid_of, sids, ValidStatements, ValidDocument,
}
use ntauth.Permissions.Document.Checks.{
  add_issue_iff, add_if_iff, reject_unknown_keys_iff, nonempty_of, of_nonempty, within_of,
  of_within,
}
use ntauth.Permissions.Document.StatementChecks.{is_text_iff, statement_round}

abbrev IsShort : List Text → Type 0
IsShort l = (l ≡ []) ⊎ ((x : Text) × (l ≡ x ∷ []))

sid_list-IsShort : (v : Value) → IsShort (sid_list v)
sid_list-IsShort (string s) = inr (s, refl)
sid_list-IsShort undefined = inl refl
sid_list-IsShort _ = inl refl

sid_of-IsShort : (v : Value) → IsShort (sid_of v)
sid_of-IsShort (object fields) = sid_list-IsShort (get (text "sid") (entries fields))
sid_of-IsShort undefined = inl refl
sid_of-IsShort _ = inl refl

abbrev Rearranged : List Text → List Text → List Text → Type 0
Rearranged seen l r =
    (AllNew seen l × Unrepeated r × AllNew (l ++ seen) r)
    ↔ (Unrepeated (l ++ r) × AllNew seen (l ++ r))

rearranged : (seen l r : List Text) → IsShort l → Rearranged seen l r
rearranged seen l r (inl e) =
    subst (λ l. Rearranged seen l r) (sym e) ((λ h. (h.1, h.2)), (λ h. (tt, h.0, h.1)))
rearranged seen l r (inr (x, e)) =
    let fresh = AllNew-cons x seen r in
    subst (λ l. Rearranged seen l r) (sym e)
      (
        λ (new, distinct, later).
            let (not_later, new_rest) = fresh.0 later in ((not_later, distinct), (new.0, new_rest)),
        λ (distinct, new). ((new.0, tt), distinct.1, fresh.1 (distinct.0, new.1)),
      )

validate_statements_iff :
    (context : ValidationContext) (statements : List Value) (index : ℕ) (seen : List Text)
    (issues : Issues)
    → ((validate_statements context statements index (seen, issues)).1 ≡ []) ↔ (
        (issues ≡ [])
        × All (ValidStatement context) statements
        × Unrepeated (sids statements)
        × AllNew seen (sids statements))
unfolding validate_statements
validate_statements_iff context [] index seen issues = (λ h. (h, tt, tt, tt), λ h. h.0)
validate_statements_iff context (v ∷ rest) index seen issues =
    let path = at_index (text "$.statements") index in
    let mid = validate_statement context v path (seen, issues) in
    let (a, seen_after) = statement_round context v path seen issues in
    let b = validate_statements_iff context rest (suc index) mid.0 mid.1 in
    let c = rearranged seen (sid_of v) (sids rest) (sid_of-IsShort v) in
    (
      λ h.
          let (ha, valid, distinct, new) = b.0 h in
          let (clean, valid_v, new_v) = a.0 ha in
          let new_after = subst (λ s. AllNew s (sids rest)) (seen_after ha) new in
          let (all_distinct, all_new) = c.0 (new_v, distinct, new_after) in
          (clean, (valid_v, valid), all_distinct, all_new),
      λ (clean, valid, all_distinct, all_new).
          let (new_v, distinct, new_after) = c.1 (all_distinct, all_new) in
          let ha = a.1 (clean, valid.0, new_v) in
          b.1 (
            ha,
            valid.1,
            distinct,
            subst (λ s. AllNew s (sids rest)) (sym (seen_after ha)) new_after,
          ),
    )

statement_list_iff :
    (context : ValidationContext) (v : Value) (issues : Issues)
    → (validate_statement_list context v issues ≡ []) ↔ ((issues ≡ []) × ValidStatements context v)
unfolding validate_statement_list
statement_list_iff context (array vs) issues =
    let ss = items vs in
    let path = text "$.statements" in
    let nonempty =
      add_if (length ss == 0) issues path IssueCode.required
        (text "statements must not be empty") in
    let bounded =
      add_if (ltb statements_limit (length ss)) nonempty path IssueCode.limit
        (text "statements exceed their limit") in
    let a =
      add_if_iff (length ss == 0) issues path IssueCode.required
        (text "statements must not be empty") in
    let b =
      add_if_iff (ltb statements_limit (length ss)) nonempty path IssueCode.limit
        (text "statements exceed their limit") in
    let c = validate_statements_iff context ss 0 [] bounded in
    (
      λ h.
          let (hb, valid, distinct, _) = c.0 h in
          let (ha, within) = b.0 hb in
          let (clean, some_statement) = a.0 ha in
          (
            clean,
            (
              nonempty_of ss some_statement,
              within_of statements_limit (length ss) within,
              valid,
              distinct,
            ),
          ),
      λ (clean, (ne, within, valid, distinct)). c.1 (
        b.1 (a.1 (clean, of_nonempty ss ne), of_within statements_limit (length ss) within),
        valid,
        distinct,
        AllNew-nil (sids ss),
      ),
    )
statement_list_iff context _ issues =
    add_issue_iff issues (text "$.statements") IssueCode.wrong_type
      (text "statements must be an array")

version_iff :
    (v : Value) (issues : Issues)
    → (add_if
          (not (is_text v policy_document_version))
          issues
          (text "$.version")
          IssueCode.format
          (text "version must be " ++ policy_document_version)
        ≡ [])
      ↔ ((issues ≡ []) × (v ≡ string policy_document_version))
version_iff v issues = ground (
  arith,
  add_if_iff (not (is_text v policy_document_version)) issues (text "$.version") IssueCode.format
      (text "version must be " ++ policy_document_version),
  is_text_iff v policy_document_version,
)

size_iff :
    (bytes : ℕ)
    → (add_if
          (ltb document_bytes bytes)
          []
          (text "$")
          IssueCode.limit
          (text "policy document exceeds its byte limit")
        ≡ [])
      ↔ (bytes ≤ document_bytes)
size_iff bytes = ground (
  arith,
  add_if_iff (ltb document_bytes bytes) [] (text "$") IssueCode.limit
      (text "policy document exceeds its byte limit"),
)

document_issues_iff :
    (context : ValidationContext) (input : Value) (bytes : ℕ)
    → (document_issues context input bytes ≡ [])
      ↔ ((bytes ≤ document_bytes) × ValidDocument context input)
unfolding document_issues
document_issues_iff context (object fields) bytes =
    let fs = entries fields in
    let fitting =
      add_if (ltb document_bytes bytes) [] (text "$") IssueCode.limit
        (text "policy document exceeds its byte limit") in
    let known = reject_unknown_keys fs document_keys (text "$") fitting in
    let versioned =
      add_if (not (is_text (get (text "version") fs) policy_document_version)) known
        (text "$.version") IssueCode.format (text "version must be " ++ policy_document_version) in
    let b = size_iff bytes in
    let k = reject_unknown_keys_iff fs document_keys (text "$") fitting in
    let v = version_iff (get (text "version") fs) known in
    let s = statement_list_iff context (get (text "statements") fs) versioned in
    (
      λ h.
          let (hv, statements) = s.0 h in
          let (hk, version) = v.0 hv in
          let (hb, keys) = k.0 hk in
          (b.0 hb, record { keys = keys; version = version; statements = statements }),
      λ (fits, valid). s.1 (v.1 (k.1 (b.1 fits, valid.keys), valid.version), valid.statements),
    )
document_issues_iff context _ bytes =
    let c =
      add_issue_iff
        (add_if (ltb document_bytes bytes) [] (text "$") IssueCode.limit
          (text "policy document exceeds its byte limit"))
        (text "$") IssueCode.wrong_type (text "policy document must be an object") in
    (λ h. absurd (c.0 h).1, λ h. absurd h.1)

result_of_iff :
    (input : Value) (issues : Issues) → (result_of input issues ≡ accepted input) ↔ (issues ≡ [])
result_of_iff input [] = (λ h. refl, λ h. refl)
result_of_iff input (i ∷ issues) = (λ h. cc, λ h. cc)

-- `validatePolicyDocument` accepts an input exactly if it can be encoded, its encoding has at most
-- 64 KiB, and it is a well-formed policy document for the given service and catalogue.
pub validate_policy_document_iff :
    (encoded_bytes : Value → Option ℕ) (context : ValidationContext) (input : Value)
    → (validate_policy_document encoded_bytes context input ≡ accepted input) ↔ (
        (bytes : ℕ) × (encoded_bytes input ≡ some bytes)
        × (bytes ≤ document_bytes)
        × ValidDocument context input)
unfolding validate_policy_document
validate_policy_document_iff encoded_bytes context input =
    elim (Option-cases (encoded_bytes input)) [
      | inl e ↦ rw (e, validate_policy_document) (λ h. cc, λ (bytes, f, fits, valid). cc)
      | inr (bytes, e) ↦
          let a = document_issues_iff context input bytes in
          let r = result_of_iff input (document_issues context input bytes) in
          rw (e, validate_policy_document)
            (
              λ h. let (fits, valid) = a.0 (r.0 h) in (bytes, refl, fits, valid),
              λ (n, f, fits, valid).
                  let same : bytes ≡ n = cc in
                  r.1 (a.1 (subst (λ k. k ≤ document_bytes) (sym same) fits, valid)),
            )
    ]
