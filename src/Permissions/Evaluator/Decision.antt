-- ===== src/Permissions/Evaluator/Decision.antt =====
-- What the evaluator promises: when a request is allowed or denied, and what the answer names.
use ntauth.Common.{
  ℕ, suc, ◌≡◌, sym, ◌↔◌, ◌⊎◌, Bool, true, Option, none, some, List, [], ◌∷◌, ◌++◌, arith, Any,
  any_iff, any,
}
use ntauth.Text.{Text, text, decimal}
use ntauth.Text.Sort.{sort, IsSorted, sort-IsSorted, sort_mem}
use ntauth.Permissions.Identifier.{action, resource}
use ntauth.Permissions.Evaluator.{
  PolicyStatement, Query, allow_effect, deny_effect, explicit_deny, identifier, evaluate_policy,
  decide,
}
use ntauth.Permissions.Evaluator.Matching.{Applies}
use ntauth.Permissions.Evaluator.Outcome.{
  IsConcrete, selected, grants, denies, grants_iff, denies_iff, both_iff, evaluate-reason,
  evaluate-allowed, evaluate-eq,
}

abbrev pub AnyApplies : Text → Query → List PolicyStatement → Type 0
AnyApplies effect query statements = Any (Applies effect query) statements

any-denies_iff :
    (query : Query) (statements : List PolicyStatement)
    → (any (denies query) statements ≡ true) ↔ AnyApplies deny_effect query statements
any-denies_iff query statements =
    any_iff (denies query) (Applies deny_effect query) (denies_iff query) statements

any-grants_iff :
    (query : Query) (statements : List PolicyStatement)
    → (any (grants query) statements ≡ true) ↔ AnyApplies allow_effect query statements
any-grants_iff query statements =
    any_iff (grants query) (Applies allow_effect query) (grants_iff query) statements

-- A request is allowed exactly when its action and resource are well-formed identifiers without a
-- wildcard, some Allow statement applies to it, and no Deny statement does.
pub evaluate_policy_allowed_iff :
    (query : Query) (statements : List PolicyStatement)
    → ((evaluate_policy query statements).allowed ≡ true) ↔ (
        IsConcrete action query.action_id
        × IsConcrete resource query.resource_id
        × AnyApplies allow_effect query statements
        × (¬ AnyApplies deny_effect query statements))
evaluate_policy_allowed_iff query statements = ground (
  arith,
  evaluate-allowed query statements,
  evaluate-reason query statements,
  both_iff query,
  any-denies_iff query statements,
  any-grants_iff query statements,
)

-- The reason is an explicit Deny exactly when the request's identifiers are concrete and some Deny
-- statement applies, whatever Allow statements there are.
pub evaluate_policy_denied_iff :
    (query : Query) (statements : List PolicyStatement)
    → ((evaluate_policy query statements).reason ≡ explicit_deny) ↔ (
        IsConcrete action query.action_id
        × IsConcrete resource query.resource_id
        × AnyApplies deny_effect query statements)
evaluate_policy_denied_iff query statements = ground (
  arith,
  evaluate-reason query statements,
  both_iff query,
  any-denies_iff query statements,
  any-grants_iff query statements,
)

-- A statement with a `sid` is named by it, and any other by its index in the policy.
abbrev pub IsNamed : Option Text → ℕ → Text → Type 0
IsNamed none index x = x ≡ text "statement:" ++ decimal index
IsNamed (some sid) index x = x ≡ sid

identifier_iff :
    (statement : PolicyStatement) (index : ℕ) (x : Text)
    → (identifier statement index ≡ x) ↔ IsNamed statement.sid index x
identifier_iff statement index x =
    elim (statement.sid)
      as (λ o.
        (elim o [ none ↦ text "statement:" ++ decimal index | some sid ↦ sid ] ≡ x)
        ↔ IsNamed o index x) [ none ↦ (sym, sym) | some sid ↦ (sym, sym) ]

-- `x` names a statement of one effect that applies: by its `sid`, or by its index.
abbrev pub Names : Text → Query → Text → ℕ → List PolicyStatement → Type 0
Names effect query x index [] = ⊥
Names effect query x index (statement ∷ rest) =
    (Applies effect query statement × IsNamed statement.sid index x)
    ⊎ Names effect query x (suc index) rest

selected_mem :
    (test : PolicyStatement → Bool) (effect : Text) (query : Query)
    → ((s : PolicyStatement) → (test s ≡ true) ↔ Applies effect query s)
    → (x : Text) (index : ℕ) (statements : List PolicyStatement)
    → Any (λ y. y ≡ x) (selected test index statements) ↔ Names effect query x index statements
selected_mem test effect query decides x index [] = ground arith
selected_mem test effect query decides x index (statement ∷ rest) = ground (
  arith,
  decides statement,
  identifier_iff statement index x,
  selected_mem test effect query decides x (suc index) rest,
)

decide_lists :
    (allow deny : List Text)
    → ((decide allow deny).matched_allow_statements ≡ allow)
      × ((decide allow deny).matched_deny_statements ≡ deny)
unfolding decide
decide_lists [] [] = ground arith
decide_lists (a ∷ allow) [] = ground arith
decide_lists [] (d ∷ deny) = ground arith
decide_lists (a ∷ allow) (d ∷ deny) = ground arith

-- What the two lists of an answer hold.
pub record IsExplained (query : Query) (statements : List PolicyStatement) (allow deny : List Text)
    : Type 0 where
  pub allow_named : (x : Text) → Any (λ y. y ≡ x) allow ↔ Names allow_effect query x 0 statements
  pub deny_named : (x : Text) → Any (λ y. y ≡ x) deny ↔ Names deny_effect query x 0 statements
  pub allow_sorted : IsSorted allow
  pub deny_sorted : IsSorted deny

sort_named :
    (test : PolicyStatement → Bool) (effect : Text) (query : Query)
    → ((s : PolicyStatement) → (test s ≡ true) ↔ Applies effect query s)
    → (statements : List PolicyStatement) (x : Text)
    → Any (λ y. y ≡ x) (sort (selected test 0 statements)) ↔ Names effect query x 0 statements
sort_named test effect query decides statements x =
    let kept = sort_mem x (selected test 0 statements) in
    let named = selected_mem test effect query decides x 0 statements in
    (λ h. named.0 (kept.0 h), λ h. kept.1 (named.1 h))

-- For a request whose identifiers are concrete, the answer lists in ascending order exactly the
-- statements that apply, the Allow statements in one list and the Deny statements in the other, each
-- by its `sid` or else by its index.
pub evaluate_policy-IsExplained :
    (query : Query) (statements : List PolicyStatement)
    → IsConcrete action query.action_id
    → IsConcrete resource query.resource_id
    → let answer = evaluate_policy query statements in
      IsExplained query statements answer.matched_allow_statements answer.matched_deny_statements
evaluate_policy-IsExplained query statements ca cr =
    let allow = sort (selected (grants query) 0 statements) in
    let deny = sort (selected (denies query) 0 statements) in
    let (same_allow, same_deny) = decide_lists allow deny in
    rw (evaluate-eq query statements ca cr, same_allow, same_deny)
      (record {
        allow_named = sort_named (grants query) allow_effect query (grants_iff query) statements;
        deny_named = sort_named (denies query) deny_effect query (denies_iff query) statements;
        allow_sorted = sort-IsSorted _;
        deny_sorted = sort-IsSorted _;
      })
