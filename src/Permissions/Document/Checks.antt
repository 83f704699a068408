-- ===== src/Permissions/Document/Checks.antt =====
-- Each check of identifiers and lists adds an issue exactly where the specification fails.
use ntauth.Common.{
  ℕ, suc, ◌≤◌, ◌≡◌, refl, ap, ◌≢◌, ◌↔◌, Bool, true, false, not, Option, none, some, List, [], ◌∷◌,
  ◌++◌, arith, All, any, any_iff, Among, Unrepeated, AllNew, AllNew-cons, AllNew-nil, length, ltb,
  ◌==◌,
}
use ntauth.Text.{Text, text, includes}
use ntauth.Text.Laws.{===_iff, includes_iff}
use ntauth.Json.{Value, undefined, null, bool, number, string, array, object, items, same_value}
use ntauth.Permissions.Identifier.{IdentifierKind, is_policy_identifier, length_ok, service_of}
use ntauth.Permissions.Identifier.Decision.{is_policy_identifier_iff}
use ntauth.Permissions.Document.{
  Issues, IssueCode, add_issue, add_if, ValidationContext, catalogue_of, is_foreign, is_undeclared,
  validate_identifier, validate_entries, validate_string_array, reject_unknown_keys, at_index,
  kind_name,
}
use ntauth.Permissions.Document.WellFormed.{
  InService, InCatalogue, ValidIdentifier, ValidArray, OnlyKeys,
}

pub add_issue-ne-nil :
    (issues : Issues) (path : Text) (code : IssueCode) (message : Text)
    → add_issue issues path code message ≢ []
unfolding add_issue
add_issue-ne-nil [] path code message = cc
add_issue-ne-nil (i ∷ issues) path code message = cc

pub add_issue_iff :
    (issues : Issues) (path : Text) (code : IssueCode) (message : Text)
    → (add_issue issues path code message ≡ []) ↔ ((issues ≡ []) × ⊥)
add_issue_iff issues path code message =
    (λ h. absurd (add_issue-ne-nil issues path code message h), λ h. absurd h.1)

pub add_if_iff :
    (condition : Bool) (issues : Issues) (path : Text) (code : IssueCode) (message : Text)
    → (add_if condition issues path code message ≡ []) ↔ ((issues ≡ []) × (condition ≡ false))
unfolding add_if
add_if_iff true issues path code message =
    (λ h. absurd (add_issue-ne-nil issues path code message h), λ h. cc)
add_if_iff false issues path code message = (λ h. (h, refl), λ h. h.0)

foreign_iff :
    (expected : Option Text) (value : Text)
    → (is_foreign expected (service_of value) ≡ false) ↔ InService expected value
foreign_iff none value = ground arith
foreign_iff (some []) value = ground arith
foreign_iff (some (c ∷ s)) value = ground (arith, ===_iff (service_of value) (c ∷ s))

undeclared_iff :
    (names : Option (List Text)) (value : Text)
    → (is_undeclared names value ≡ false) ↔ InCatalogue names value
undeclared_iff none value = ground arith
undeclared_iff (some names) value = ground (arith, includes_iff names value)

length_ok_of :
    (kind : IdentifierKind) (value : Text)
    → is_policy_identifier value kind none ≡ true
    → length_ok value ≡ true
unfolding is_policy_identifier
length_ok_of kind value h = ground arith

-- `validateIdentifier` adds no issue exactly to a valid identifier.
pub validate_identifier_iff :
    (v : Value) (kind : IdentifierKind) (path : Text) (context : ValidationContext)
    (issues : Issues)
    → (validate_identifier v kind path context issues ≡ [])
      ↔ ((issues ≡ []) × ValidIdentifier kind context v)
unfolding validate_identifier
validate_identifier_iff (string value) kind path context issues = ground (
  arith,
  length_ok_of kind value,
  is_policy_identifier_iff kind value,
  foreign_iff context.expected_service value,
  undeclared_iff (catalogue_of kind context) value,
  add_issue_iff issues path IssueCode.limit (kind_name kind ++ text " length is invalid"),
  add_issue_iff issues path IssueCode.format
      (kind_name kind ++ text " identifier or wildcard is invalid"),
  add_issue_iff issues path IssueCode.scope (kind_name kind ++ text " belongs to another service"),
  add_if_iff (is_undeclared (catalogue_of kind context) value) issues path IssueCode.catalogue
      (kind_name kind ++ text " is not declared in the service catalogue"),
)
validate_identifier_iff _ kind path context issues = add_issue_iff issues path _ _

pub same_value-string : (v : Value) (s : Text) → (same_value v (string s) ≡ true) ↔ (v ≡ string s)
unfolding same_value
same_value-string undefined s = (λ h. cc, λ h. cc)
same_value-string null s = (λ h. cc, λ h. cc)
same_value-string (bool true) s = (λ h. cc, λ h. cc)
same_value-string (bool false) s = (λ h. cc, λ h. cc)
same_value-string (number n) s = (λ h. cc, λ h. cc)
same_value-string (string t) s = (λ h. ap string ((===_iff t s).0 h), λ h. (===_iff t s).1 (cc))
same_value-string (array vs) s = (λ h. cc, λ h. cc)
same_value-string (object fs) s = (λ h. cc, λ h. cc)

pub seen_iff :
    (seen : List Value) (s : Text)
    → (any (λ v. same_value v (string s)) seen ≡ true) ↔ Among (string s) seen
seen_iff seen s =
    any_iff (λ v. same_value v (string s)) (λ v. v ≡ string s) (λ v. same_value-string v s) seen

-- One round of the loop adds no issue exactly to a valid entry that was not seen.
entry_round :
    (entry : Value) (kind : IdentifierKind) (path message : Text) (context : ValidationContext)
    (seen : List Value) (issues : Issues)
    → (add_if
          (any (λ v. same_value v entry) seen)
          (validate_identifier entry kind path context issues)
          path
          IssueCode.duplicate
          message
        ≡ [])
      ↔ ((issues ≡ []) × ValidIdentifier kind context entry × (¬ Among entry seen))
entry_round (string s) kind path message context seen issues = ground (
  arith,
  add_if_iff (any (λ v. same_value v (string s)) seen)
      (validate_identifier (string s) kind path context issues) path IssueCode.duplicate message,
  validate_identifier_iff (string s) kind path context issues,
  seen_iff seen s,
)
entry_round v kind path message context seen issues = ground (
  arith,
  add_if_iff (any (λ w. same_value w v) seen) (validate_identifier v kind path context issues) path
      IssueCode.duplicate message,
  validate_identifier_iff v kind path context issues,
)

validate_entries_iff :
    (kind : IdentifierKind) (path : Text) (context : ValidationContext) (vs : List Value)
    (index : ℕ) (seen : List Value) (issues : Issues)
    → (validate_entries kind path context vs index seen issues ≡ [])
      ↔ ((issues ≡ []) × All (ValidIdentifier kind context) vs × Unrepeated vs × AllNew seen vs)
unfolding validate_entries
validate_entries_iff kind path context [] index seen issues = (λ h. (h, tt, tt, tt), λ h. h.0)
validate_entries_iff kind path context (v ∷ vs) index seen issues =
    let checked =
      add_if (any (λ w. same_value w v) seen)
        (validate_identifier v kind (at_index path index) context issues) (at_index path index)
        IssueCode.duplicate (text "duplicate " ++ kind_name kind) in
    let round =
      entry_round v kind (at_index path index) (text "duplicate " ++ kind_name kind) context seen
        issues in
    let later = validate_entries_iff kind path context vs (suc index) (v ∷ seen) checked in
    let fresh = AllNew-cons v seen vs in
    (
      λ h.
          let (none_yet, valid, distinct, new) = later.0 h in
          let (clean, valid_v, new_v) = round.0 none_yet in
          let (not_later, new_rest) = fresh.0 new in
          (clean, (valid_v, valid), (not_later, distinct), (new_v, new_rest)),
      λ (clean, valid, distinct, new).
          later.1
            (round.1 (clean, valid.0, new.0), valid.1, distinct.1, fresh.1 (distinct.0, new.1)),
    )

pub nonempty_of {ℓ} : {A : Type ℓ} (l : List A) → (length l == 0) ≡ false → l ≢ []
nonempty_of [] h = λ e. cc
nonempty_of (x ∷ l) h = λ e. cc

pub of_nonempty {ℓ} : {A : Type ℓ} (l : List A) → l ≢ [] → (length l == 0) ≡ false
of_nonempty [] h = absurd (h refl)
of_nonempty (x ∷ l) h = ground arith

pub within_of : (m n : ℕ) → ltb m n ≡ false → n ≤ m
within_of m n h = ground arith

pub of_within : (m n : ℕ) → n ≤ m → ltb m n ≡ false
of_within m n h = ground arith

-- `validateStringArray` adds no issue exactly to a list of valid identifiers that is not empty,
-- within its limit and without repetition.
pub validate_string_array_iff :
    (v : Value) (path : Text) (maximum : ℕ) (kind : IdentifierKind) (context : ValidationContext)
    (issues : Issues)
    → (validate_string_array v path maximum kind context issues ≡ [])
      ↔ ((issues ≡ []) × ValidArray maximum kind context v)
unfolding validate_string_array
validate_string_array_iff (array vs) path maximum kind context issues =
    let es = items vs in
    let nonempty =
      add_if (length es == 0) issues path IssueCode.required (path ++ text " must not be empty") in
    let bounded =
      add_if (ltb maximum (length es)) nonempty path IssueCode.limit
        (path ++ text " exceeds its limit") in
    let a =
      add_if_iff (length es == 0) issues path IssueCode.required
        (path ++ text " must not be empty") in
    let b =
      add_if_iff (ltb maximum (length es)) nonempty path IssueCode.limit
        (path ++ text " exceeds its limit") in
    let c = validate_entries_iff kind path context es 0 [] bounded in
    (
      λ h.
          let (hb, valid, distinct, _) = c.0 h in
          let (ha, within) = b.0 hb in
          let (clean, some_entry) = a.0 ha in
          (
            clean,
            (nonempty_of es some_entry, within_of maximum (length es) within, valid, distinct),
          ),
      λ (clean, (ne, within, valid, distinct)). c.1 (
        b.1 (a.1 (clean, of_nonempty es ne), of_within maximum (length es) within),
        valid,
        distinct,
        AllNew-nil es,
      ),
    )
validate_string_array_iff _ path maximum kind context issues = add_issue_iff issues path _ _

-- `rejectUnknownKeys` adds no issue exactly where every key is allowed.
pub reject_unknown_keys_iff :
    (fs : List (Text × Value)) (allowed : List Text) (path : Text) (issues : Issues)
    → (reject_unknown_keys fs allowed path issues ≡ []) ↔ ((issues ≡ []) × OnlyKeys allowed fs)
unfolding reject_unknown_keys
reject_unknown_keys_iff [] allowed path issues = (λ h. (h, tt), λ h. h.0)
reject_unknown_keys_iff ((key, v) ∷ fs) allowed path issues =
    let a =
      add_if_iff (not (includes allowed key)) issues (path ++ text "." ++ key) IssueCode.unknown
        (text "unknown field") in
    let later = reject_unknown_keys_iff fs allowed path (
      add_if (not (includes allowed key)) issues (path ++ text "." ++ key) IssueCode.unknown
        (text "unknown field")) in
    let declared = includes_iff allowed key in ground (arith, a, later, declared)
