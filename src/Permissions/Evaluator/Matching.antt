-- ===== src/Permissions/Evaluator/Matching.antt =====
-- What a pattern of a statement covers, and when a statement applies to a request.
use ntauth.Common.{
  ℕ, ◌≡◌, ap, sym, ◌∙◌, ◌↔◌, ◌⊎◌, inl, inr, ◌<◌, true, Option, none, some, List, [], ◌∷◌, ◌++◌,
  arith, Any, any_iff, Bool-cases, All, length, length-append, append_assoc, append-nil,
}
use ntauth.Text.{Text, ◌===◌, starts_with, ends_with, drop_last}
use ntauth.Text.Laws.{===_iff, starts_with_iff, ends_with_iff, drop_last-append}
use ntauth.Json.{Value}
use ntauth.Permissions.Conditions.{Context, evaluate_policy_conditions}
use ntauth.Permissions.Conditions.Meaning.{OperatorHolds, evaluate_policy_conditions_iff}
use ntauth.Permissions.Evaluator.{
  PolicyStatement, Query, allow_effect, deny_effect, matches_policy_identifier, some_matches,
  statement_matches, wildcard_end,
}

-- A pattern covers itself, and a pattern that ends in `:*` whatever has at least one code unit more
-- after that colon.
pub data Covers (pattern value : Text) : Type 0 where
  same : pattern ≡ value → Covers pattern value
  below :
      (stem : Text) (c : ℕ) (rest : Text)
      → pattern ≡ stem ++ wildcard_end
      → value ≡ stem ++ b':' ∷ c ∷ rest
      → Covers pattern value

-- `startsWith` together with the test of the lengths asks for something after the prefix.
longer_sound :
    (value p : Text)
    → starts_with value p ≡ true
    → length p < length value
    → (c : ℕ) × (rest : Text) × (value ≡ p ++ c ∷ rest)
longer_sound value p h lt = let (r, e) = (starts_with_iff value p).0 h in nonempty r e
  where
    nonempty : (r : Text) → value ≡ p ++ r → (c : ℕ) × (rest : Text) × (value ≡ p ++ c ∷ rest)
    nonempty [] e = absurd (omega (arith, ap length (e ∙ append-nil p)))
    nonempty (c ∷ rest) e = (c, rest, e)

longer_complete :
    (value p : Text) (c : ℕ) (rest : Text)
    → value ≡ p ++ c ∷ rest
    → (starts_with value p ≡ true) × (length p < length value)
longer_complete value p c rest e = (
  (starts_with_iff value p).1 (c ∷ rest, e),
  omega (arith, ap length e, length-append p (c ∷ rest)),
)

prefix_eq :
    (pattern stem : Text) → pattern ≡ stem ++ wildcard_end → drop_last pattern ≡ stem ++ b':' ∷ []
prefix_eq pattern stem e =
    ap drop_last (e ∙ sym (append_assoc stem (b':' ∷ []) (b'*' ∷ [])))
    ∙ drop_last-append (stem ++ b':' ∷ []) b'*'

Covers-wild :
    (pattern value : Text)
    → ends_with pattern wildcard_end ≡ true
    → starts_with value (drop_last pattern) ≡ true
    → length (drop_last pattern) < length value
    → Covers pattern value
Covers-wild pattern value h start lt =
    let (stem, e) = (ends_with_iff pattern wildcard_end).0 h in
    let (c, rest, ev) = longer_sound value (drop_last pattern) start lt in
    below stem c rest e (
      ev
      ∙ ap (λ x. x ++ c ∷ rest) (prefix_eq pattern stem e)
      ∙ append_assoc stem (b':' ∷ []) (c ∷ rest))

Covers-sound :
    (pattern value : Text) → matches_policy_identifier pattern value ≡ true → Covers pattern value
unfolding matches_policy_identifier
Covers-sound pattern value h = elim (Bool-cases (pattern === value)) [
  | inl e ↦ same ((===_iff pattern value).0 e)
  | inr ne ↦ Covers-wild pattern value (ground arith) (ground arith) (ground arith)
]

Covers-complete :
    (pattern value : Text) → Covers pattern value → matches_policy_identifier pattern value ≡ true
unfolding matches_policy_identifier
Covers-complete pattern value (same e) = rw ((===_iff pattern value).1 e)
Covers-complete pattern value (below stem c rest e ev) =
    let wild = (ends_with_iff pattern wildcard_end).1 (stem, e) in
    let (start, lt) = longer_complete value (drop_last pattern) c rest (
      ev
      ∙ sym (append_assoc stem (b':' ∷ []) (c ∷ rest))
      ∙ ap (λ x. x ++ c ∷ rest) (sym (prefix_eq pattern stem e))) in
    ground arith

-- `matchesPolicyIdentifier(pattern, value)` tells exactly whether the pattern is the value, or ends
-- in `:*` and the value continues the part before the star by at least one code unit.
pub matches_policy_identifier_iff :
    (pattern value : Text) → (matches_policy_identifier pattern value ≡ true) ↔ Covers pattern value
matches_policy_identifier_iff pattern value =
    (Covers-sound pattern value, Covers-complete pattern value)

abbrev pub SomeCovers : Option (List Text) → Text → Type 0
SomeCovers none value = ⊥
SomeCovers (some patterns) value = Any (λ pattern. Covers pattern value) patterns

abbrev pub ConditionsHold : Option (List (Text × Value)) → Context → Type 0
ConditionsHold none context = Unit
ConditionsHold (some conditions) context = All (OperatorHolds context) conditions

-- A statement of one effect that applies to a query: an action pattern and a resource pattern cover
-- the query's identifiers, and its conditions hold.
pub record Applies (effect : Text) (query : Query) (statement : PolicyStatement) : Type 0 where
  pub is_effect : statement.effect ≡ effect
  pub on_action : SomeCovers statement.actions query.action_id
  pub on_resource : SomeCovers statement.resources query.resource_id
  pub under : ConditionsHold statement.conditions query.context

some_matches_iff :
    (patterns : Option (List Text)) (value : Text)
    → (some_matches patterns value ≡ true) ↔ SomeCovers patterns value
some_matches_iff none value = ground arith
some_matches_iff (some patterns) value =
    any_iff (λ p. matches_policy_identifier p value) (λ p. Covers p value)
      (λ p. matches_policy_identifier_iff p value) patterns

conditions_iff :
    (conditions : Option (List (Text × Value))) (context : Context)
    → (evaluate_policy_conditions conditions context ≡ true) ↔ ConditionsHold conditions context
unfolding evaluate_policy_conditions
conditions_iff none context = ground arith
conditions_iff (some conditions) context = evaluate_policy_conditions_iff context conditions

pub statement_matches_iff :
    (statement : PolicyStatement) (query : Query)
    → (statement_matches statement query ≡ true)
      ↔ (Applies allow_effect query statement ⊎ Applies deny_effect query statement)
unfolding statement_matches
statement_matches_iff statement query = ground (
  arith,
  ===_iff statement.effect allow_effect,
  ===_iff statement.effect deny_effect,
  some_matches_iff statement.actions query.action_id,
  some_matches_iff statement.resources query.resource_id,
  conditions_iff statement.conditions query.context,
)
