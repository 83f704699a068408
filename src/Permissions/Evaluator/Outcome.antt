-- ===== src/Permissions/Evaluator/Outcome.antt =====
-- The decision on a request: when it allows and denies, and which statements it names.
use ntauth.Common.{
  ℕ, suc, ◌≡◌, refl, ap₂, sym, subst, ◌∙◌, ◌≢◌, ◌↔◌, inl, inr, Bool, true, false, not, ◌&&◌, List,
  [], ◌∷◌, ◌++◌, arith, All, Bool-cases, if◌then◌else◌, append_assoc, append-nil, length, ltb, any,
  and_iff,
}
use ntauth.Text.{Text, ◌===◌, has_unit}
use ntauth.Text.Laws.{===_iff}
use ntauth.Text.Sort.{sort, length-sort}
use ntauth.Permissions.Identifier.{IdentifierKind, action, resource}
use ntauth.Permissions.Identifier.Grammar.{IsIdentifier}
use ntauth.Permissions.Identifier.Decision.{is_policy_identifier_iff}
use ntauth.Permissions.Evaluator.{
  PolicyStatement, PolicyDecisionReason, explicit_allow, explicit_deny, implicit_deny, Query,
  allow_effect, deny_effect, concrete_identifier, statement_matches, identifier, record_match,
  collect, decide, evaluate_policy, implicit,
}
use ntauth.Permissions.Evaluator.Matching.{Applies, statement_matches_iff}

-- An identifier in which no wildcard stands.
abbrev pub IsConcrete : IdentifierKind → Text → Type 0
IsConcrete kind value = All (λ c. c ≢ b'*') value × IsIdentifier kind value

lacks_star_iff : (value : Text) → (not (has_unit b'*' value) ≡ true) ↔ All (λ c. c ≢ b'*') value
lacks_star_iff [] = ground arith
lacks_star_iff (c ∷ value) = ground (arith, lacks_star_iff value)

pub concrete_identifier_iff :
    (value : Text) (kind : IdentifierKind)
    → (concrete_identifier value kind ≡ true) ↔ IsConcrete kind value
unfolding concrete_identifier
concrete_identifier_iff value kind =
    ground (arith, lacks_star_iff value, is_policy_identifier_iff kind value)

-- The identifiers that the loop pushes on one of its lists: those of the statements that a test
-- selects, in their order.
abbrev pub selected : (PolicyStatement → Bool) → ℕ → List PolicyStatement → List Text
selected test index [] = []
selected test index (statement ∷ rest) =
    let later = selected test (suc index) rest in
    if test statement then identifier statement index ∷ later else later

abbrev pub grants : Query → PolicyStatement → Bool
grants query statement = statement_matches statement query && not (statement.effect === deny_effect)

abbrev pub denies : Query → PolicyStatement → Bool
denies query statement = statement_matches statement query && statement.effect === deny_effect

pub grants_iff :
    (query : Query) (statement : PolicyStatement)
    → (grants query statement ≡ true) ↔ Applies allow_effect query statement
unfolding ◌===◌
grants_iff query statement = (
  λ h.
      let (matched, other) = (and_iff _ _).0 h in
      elim ((statement_matches_iff statement query).0 matched) [
        | inl a ↦ a
        | inr d ↦ absurd (ground (arith, ===_iff statement.effect deny_effect, d.is_effect))
      ],
  λ a. (and_iff _ _).1 (
    (statement_matches_iff statement query).1 (inl a),
    subst (λ e. not (e === deny_effect) ≡ true) (sym a.is_effect) refl,
  ),
)

pub denies_iff :
    (query : Query) (statement : PolicyStatement)
    → (denies query statement ≡ true) ↔ Applies deny_effect query statement
denies_iff query statement = (
  λ h.
      let (matched, is_deny) = (and_iff _ _).0 h in
      elim ((statement_matches_iff statement query).0 matched) [
        | inl a ↦ record {
          is_effect = (===_iff statement.effect deny_effect).0 is_deny;
          on_action = a.on_action;
          on_resource = a.on_resource;
          under = a.under;
        }
        | inr d ↦ d
      ],
  λ d. (and_iff _ _).1 (
    (statement_matches_iff statement query).1 (inr d),
    (===_iff statement.effect deny_effect).1 d.is_effect,
  ),
)

abbrev one_if : Bool → Text → List Text
one_if b x = if b then x ∷ [] else []

record_match_eq :
    (query : Query) (statement : PolicyStatement) (index : ℕ) (allow deny : List Text)
    → record_match query statement index (allow, deny) ≡ (
      allow ++ one_if (grants query statement) (identifier statement index),
      deny ++ one_if (denies query statement) (identifier statement index),
    )
unfolding record_match
record_match_eq query statement index allow deny =
    elim (Bool-cases (statement_matches statement query)) [
      | inr e ↦ rw (e, append-nil allow, append-nil deny)
      | inl e ↦ elim (Bool-cases (statement.effect === deny_effect)) [
        | inl d ↦ rw (e, d, append-nil allow)
        | inr d ↦ rw (e, d, append-nil deny)
      ]
    ]

append-one_if :
    (xs l : List Text) (b : Bool) (x : Text)
    → (xs ++ one_if b x) ++ l ≡ xs ++ (if b then x ∷ l else l)
append-one_if xs l true x = append_assoc xs (x ∷ []) l
append-one_if xs l false x = append_assoc xs [] l

collect-eq :
    (query : Query) (index : ℕ) (statements : List PolicyStatement) (allow deny : List Text)
    → collect query index statements (allow, deny) ≡ (
      allow ++ selected (grants query) index statements,
      deny ++ selected (denies query) index statements,
    )
unfolding collect
collect-eq query index [] allow deny = rw (append-nil allow, append-nil deny)
collect-eq query index (statement ∷ rest) allow deny =
    rw (record_match_eq query statement index allow deny) (
      collect-eq query (suc index) rest _ _
      ∙ ap₂ (λ a d. (a, d)) (append-one_if allow _ (grants query statement) _)
          (append-one_if deny _ (denies query statement) _))

-- The decision on a request whose identifiers are concrete.
pub evaluate-eq :
    (query : Query) (statements : List PolicyStatement)
    → IsConcrete action query.action_id
    → IsConcrete resource query.resource_id
    → evaluate_policy query statements
      ≡ decide
          (sort (selected (grants query) 0 statements))
          (sort (selected (denies query) 0 statements))
unfolding evaluate_policy
evaluate-eq query statements ca cr = rw (
  (concrete_identifier_iff query.action_id action).1 ca,
  (concrete_identifier_iff query.resource_id resource).1 cr,
  collect-eq query 0 statements [] [],
)

selected-pos :
    (test : PolicyStatement → Bool) (index : ℕ) (statements : List PolicyStatement)
    → ltb 0 (length (selected test index statements)) ≡ any test statements
selected-pos test index [] = ground arith
selected-pos test index (statement ∷ rest) = ground (arith, selected-pos test (suc index) rest)

sorted_pos :
    (test : PolicyStatement → Bool) (statements : List PolicyStatement)
    → ltb 0 (length (sort (selected test 0 statements))) ≡ any test statements
sorted_pos test statements =
    rw (length-sort (selected test 0 statements)) (selected-pos test 0 statements)

abbrev pub both_concrete : Query → Bool
both_concrete query =
    concrete_identifier query.action_id action && concrete_identifier query.resource_id resource

abbrev pub reason_of : Bool → Bool → Bool → PolicyDecisionReason
reason_of concrete denied granted =
    if not concrete
    then implicit_deny
    else if denied
    then explicit_deny
    else if granted
    then explicit_allow
    else implicit_deny

decide-reason :
    (allow deny : List Text)
    → (decide allow deny).reason ≡ reason_of true (ltb 0 (length deny)) (ltb 0 (length allow))
unfolding decide
decide-reason allow deny = ground arith

decide-allowed :
    (allow deny : List Text)
    → ((decide allow deny).allowed ≡ true) ↔ ((decide allow deny).reason ≡ explicit_allow)
unfolding decide
decide-allowed allow deny = ground arith

pub both_iff :
    (query : Query)
    → (both_concrete query ≡ true)
      ↔ (IsConcrete action query.action_id × IsConcrete resource query.resource_id)
both_iff query = ground (
  arith,
  concrete_identifier_iff query.action_id action,
  concrete_identifier_iff query.resource_id resource,
)

pub evaluate_malformed :
    (query : Query) (statements : List PolicyStatement)
    → both_concrete query ≡ false
    → evaluate_policy query statements ≡ implicit
unfolding evaluate_policy
evaluate_malformed query statements h = ground arith

pub evaluate-reason :
    (query : Query) (statements : List PolicyStatement)
    → (evaluate_policy query statements).reason
      ≡ reason_of
          (both_concrete query)
          (any (denies query) statements)
          (any (grants query) statements)
evaluate-reason query statements = elim (Bool-cases (both_concrete query)) [
  | inr e ↦ rw (evaluate_malformed query statements e, e)
  | inl e ↦
      let (ca, cr) = (both_iff query).0 e in
      rw (
        evaluate-eq query statements ca cr,
        decide-reason _ _,
        sorted_pos (denies query) statements,
        sorted_pos (grants query) statements,
        e,
      )
]

pub evaluate-allowed :
    (query : Query) (statements : List PolicyStatement)
    → ((evaluate_policy query statements).allowed ≡ true)
      ↔ ((evaluate_policy query statements).reason ≡ explicit_allow)
evaluate-allowed query statements = elim (Bool-cases (both_concrete query)) [
  | inr e ↦ rw (evaluate_malformed query statements e) (ground arith)
  | inl e ↦
      let (ca, cr) = (both_iff query).0 e in
      rw (evaluate-eq query statements ca cr) (decide-allowed _ _)
]
