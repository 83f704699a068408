-- ===== src/Permissions/Conditions/Meaning.antt =====
-- What it means that conditions hold, stated without the loops, and that the evaluation decides it.
use ntauth.Common.{
  ◌≡◌, refl, ap, sym, subst, ◌≢◌, ◌↔◌, ◌⊎◌, inl, inr, Bool, true, false, none, some, List, [], ◌∷◌,
  arith, All, all, all_iff, Any, any_iff, Option-cases,
}
use ntauth.Text.{Text, ◌===◌, code_points, includes}
use ntauth.Text.Laws.{===_iff, includes_iff}
use ntauth.Json.{Value, bool, string}
use ntauth.Permissions.Conditions.{
  Context, context_value, policy_condition_variable_type, is_policy_condition_variable, op_bool,
  string_equals, string_like, string_not_equals, string_operators, expected_strings, bool_holds,
  strings_hold, string_holds, entry_holds, entries_of, operator_holds, evaluate_policy_conditions,
}
use ntauth.Permissions.Conditions.Wildcard.{like, Matches, matches_iff, wildcard_pattern}

abbrev pub Like : Text → Text → Type 0
Like pattern actual = Matches (wildcard_pattern pattern) (code_points actual)

-- How an operator is satisfied by the context's value of a variable and the expected value.
pub data Satisfied (context : Context) (operator variable : Text) (expected : Value) : Type 0 where
  truth :
      (b : Bool)
      → operator ≡ op_bool
      → context_value context variable ≡ bool b
      → expected ≡ bool b
      → Satisfied context operator variable expected
  equals :
      (actual : Text) (values : List Text)
      → operator ≡ string_equals
      → context_value context variable ≡ string actual
      → expected_strings expected ≡ some values
      → Any (λ value. value ≡ actual) values
      → Satisfied context operator variable expected
  resembles :
      (actual : Text) (values : List Text)
      → operator ≡ string_like
      → context_value context variable ≡ string actual
      → expected_strings expected ≡ some values
      → Any (λ pattern. Like pattern actual) values
      → Satisfied context operator variable expected
  differs :
      (actual : Text) (values : List Text)
      → operator ≡ string_not_equals
      → context_value context variable ≡ string actual
      → expected_strings expected ≡ some values
      → ¬ Any (λ value. value ≡ actual) values
      → Satisfied context operator variable expected

abbrev pub IsDeclared : Text → Type 0
IsDeclared variable = policy_condition_variable_type variable ≢ none

abbrev pub EntryHolds : Context → Text → Text × Value → Type 0
EntryHolds context operator (variable, expected) =
    IsDeclared variable × Satisfied context operator variable expected

abbrev pub OperatorHolds : Context → Text × Value → Type 0
OperatorHolds context (operator, value) =
    (entries_of value ≢ []) × All (EntryHolds context operator) (entries_of value)

IsDeclared-iff : (v : Text) → (is_policy_condition_variable v ≡ true) ↔ IsDeclared v
unfolding is_policy_condition_variable
IsDeclared-iff v = elim (Option-cases (policy_condition_variable_type v)) [
  | inl e ↦ rw e (ground arith)
  | inr (t, e) ↦ rw e (ground arith)
]

like_iff : (pattern actual : Text) → (like pattern actual ≡ true) ↔ Like pattern actual
unfolding like
like_iff pattern actual = matches_iff (wildcard_pattern pattern) (code_points actual)

bool_holds_sound : (a e : Value) → bool_holds a e ≡ true → (b : Bool) × (a ≡ bool b) × (e ≡ bool b)
unfolding bool_holds
bool_holds_sound (bool true) (bool b) h = (true, refl, ap bool h)
bool_holds_sound (bool false) (bool b) h = (false, refl, ground arith)
bool_holds_sound _ _ h = cc

bool_holds_complete : (b : Bool) → bool_holds (bool b) (bool b) ≡ true
unfolding bool_holds
bool_holds_complete true = refl
bool_holds_complete false = refl

-- What the three string operators test, by the operator.
strings_equal :
    (a : Text) (vs : List Text) → (strings_hold string_equals a vs ≡ true) ↔ Any (λ v. v ≡ a) vs
unfolding strings_hold ◌===◌
strings_equal a vs = ground (arith, includes_iff vs a)

strings_differ :
    (a : Text) (vs : List Text)
    → (strings_hold string_not_equals a vs ≡ true) ↔ (¬ Any (λ v. v ≡ a) vs)
unfolding strings_hold ◌===◌
strings_differ a vs = ground (arith, includes_iff vs a)

strings_resemble :
    (a : Text) (vs : List Text) → (strings_hold string_like a vs ≡ true) ↔ Any (λ p. Like p a) vs
unfolding strings_hold ◌===◌
strings_resemble a vs =
    ground (arith, any_iff (λ p. like p a) (λ p. Like p a) (λ p. like_iff p a) vs)

string_holds_sound :
    (operator : Text) (actual expected : Value)
    → string_holds operator actual expected ≡ true
    → (a : Text) × (vs : List Text) × (actual ≡ string a)
      × (expected_strings expected ≡ some vs)
      × (strings_hold operator a vs ≡ true)
unfolding string_holds
string_holds_sound operator (string a) expected h =
    elim (Option-cases (expected_strings expected)) [
      | inl e ↦ absurd (ground arith)
      | inr (vs, e) ↦ (a, vs, refl, e, ground arith)
    ]
string_holds_sound operator _ expected h = cc

string_holds_complete :
    (operator a : Text) (vs : List Text) (actual expected : Value)
    → actual ≡ string a
    → expected_strings expected ≡ some vs
    → strings_hold operator a vs ≡ true
    → string_holds operator actual expected ≡ true
unfolding string_holds
string_holds_complete operator a vs actual expected e es h = rw e (rw (es, string_holds) h)

entry_holds_iff_parts :
    (context : Context) (operator variable : Text) (expected : Value)
    → (entry_holds context operator (variable, expected) ≡ true) ↔ (
        IsDeclared variable
        × (((operator ≡ op_bool) × (bool_holds (context_value context variable) expected ≡ true))
            ⊎ ((operator ≢ op_bool)
                × (string_holds operator (context_value context variable) expected ≡ true))))
unfolding entry_holds
entry_holds_iff_parts context operator variable expected =
    ground (arith, IsDeclared-iff variable, ===_iff operator op_bool)

abbrev IsStringOperator : Text → Type 0
IsStringOperator op = (op ≡ string_equals) ⊎ (op ≡ string_like) ⊎ (op ≡ string_not_equals)

abbrev IsOperator : Text → Type 0
IsOperator op = (op ≡ op_bool) ⊎ IsStringOperator op

IsStringOperator-iff : (op : Text) → (includes string_operators op ≡ true) ↔ IsStringOperator op
IsStringOperator-iff op =
    ground (arith, ===_iff string_equals op, ===_iff string_like op, ===_iff string_not_equals op)

module _ (context : Context) (operator variable : Text) (expected : Value) where
  string-Satisfied :
      IsStringOperator operator
      → string_holds operator (context_value context variable) expected ≡ true
      → Satisfied context operator variable expected
  string-Satisfied (inl e) h =
      let (a, vs, ea, ev, test) = string_holds_sound operator _ expected h in
      equals a vs e ea ev
        ((strings_equal a vs).0 (subst (λ op. strings_hold op a vs ≡ true) e test))
  string-Satisfied (inr (inl e)) h =
      let (a, vs, ea, ev, test) = string_holds_sound operator _ expected h in
      resembles a vs e ea ev
        ((strings_resemble a vs).0 (subst (λ op. strings_hold op a vs ≡ true) e test))
  string-Satisfied (inr (inr e)) h =
      let (a, vs, ea, ev, test) = string_holds_sound operator _ expected h in
      differs a vs e ea ev
        ((strings_differ a vs).0 (subst (λ op. strings_hold op a vs ≡ true) e test))

  entry_sound :
      IsOperator operator
      → entry_holds context operator (variable, expected) ≡ true
      → EntryHolds context operator (variable, expected)
  entry_sound known h =
      let (declared, either) = (entry_holds_iff_parts context operator variable expected).0 h in
      (declared, satisfied known either)
    where
      satisfied :
          IsOperator operator
          → ((operator ≡ op_bool) × (bool_holds (context_value context variable) expected ≡ true))
            ⊎ ((operator ≢ op_bool)
                × (string_holds operator (context_value context variable) expected ≡ true))
          → Satisfied context operator variable expected
      satisfied _ (inl (e, test)) = let (b, ea, ee) = bool_holds_sound _ _ test in truth b e ea ee
      satisfied (inl e) (inr (ne, test)) = absurd (ne e)
      satisfied (inr s) (inr (ne, test)) = string-Satisfied s test

  not_bool : (op : Text) → (op === op_bool) ≡ false → operator ≡ op → operator ≢ op_bool
  not_bool op ne e eb = ground (arith, ===_iff op op_bool)

  Satisfied-complete :
      Satisfied context operator variable expected
      → ((operator ≡ op_bool) × (bool_holds (context_value context variable) expected ≡ true))
        ⊎ ((operator ≢ op_bool)
            × (string_holds operator (context_value context variable) expected ≡ true))
  unfolding ◌===◌
  Satisfied-complete (truth b e ea ee) = inl (e, rw (ea, ee) (bool_holds_complete b))
  Satisfied-complete (equals a vs e ea ev found) = inr (
    not_bool string_equals refl e,
    string_holds_complete operator a vs _ expected ea ev
        (subst (λ op. strings_hold op a vs ≡ true) (sym e) ((strings_equal a vs).1 found)),
  )
  Satisfied-complete (resembles a vs e ea ev found) = inr (
    not_bool string_like refl e,
    string_holds_complete operator a vs _ expected ea ev
        (subst (λ op. strings_hold op a vs ≡ true) (sym e) ((strings_resemble a vs).1 found)),
  )
  Satisfied-complete (differs a vs e ea ev found) = inr (
    not_bool string_not_equals refl e,
    string_holds_complete operator a vs _ expected ea ev
        (subst (λ op. strings_hold op a vs ≡ true) (sym e) ((strings_differ a vs).1 found)),
  )

  entry_complete :
      EntryHolds context operator (variable, expected)
      → entry_holds context operator (variable, expected) ≡ true
  entry_complete (declared, s) =
      (entry_holds_iff_parts context operator variable expected).1 (declared, Satisfied-complete s)

  Satisfied-IsOperator : Satisfied context operator variable expected → IsOperator operator
  Satisfied-IsOperator (truth b e ea ee) = inl e
  Satisfied-IsOperator (equals a vs e ea ev found) = inr (inl e)
  Satisfied-IsOperator (resembles a vs e ea ev found) = inr (inr (inl e))
  Satisfied-IsOperator (differs a vs e ea ev found) = inr (inr (inr e))

entry_iff :
    (context : Context) (operator : Text)
    → IsOperator operator
    → (e : Text × Value) → (entry_holds context operator e ≡ true) ↔ EntryHolds context operator e
entry_iff context operator known (variable, expected) = (
  entry_sound context operator variable expected known,
  entry_complete context operator variable expected,
)

All-IsOperator :
    (context : Context) (operator : Text) (es : List (Text × Value))
    → es ≢ []
    → All (EntryHolds context operator) es
    → IsOperator operator
All-IsOperator context operator [] ne h = absurd (ne refl)
All-IsOperator context operator ((v, e) ∷ es) ne h = Satisfied-IsOperator context operator v e h.0.1

operator_holds_iff_parts :
    (context : Context) (operator : Text) (value : Value)
    → (operator_holds context (operator, value) ≡ true) ↔ (
        IsOperator operator
        × (entries_of value ≢ [])
        × (all (entry_holds context operator) (entries_of value) ≡ true))
unfolding operator_holds
operator_holds_iff_parts context operator value =
    ground (arith, ===_iff operator op_bool, IsStringOperator-iff operator)

operator_iff :
    (context : Context) (e : Text × Value)
    → (operator_holds context e ≡ true) ↔ OperatorHolds context e
operator_iff context (operator, value) = (
  λ h.
      let (known, nonempty, each) = (operator_holds_iff_parts context operator value).0 h in
      (nonempty, (all_iff _ _ (entry_iff context operator known) (entries_of value)).0 each),
  λ (nonempty, each).
      let known = All-IsOperator context operator (entries_of value) nonempty each in
      (operator_holds_iff_parts context operator value).1 (
        known,
        nonempty,
        (all_iff _ _ (entry_iff context operator known) (entries_of value)).1 each,
      ),
)

-- Conditions hold exactly when each of their operators has at least one entry, and each entry names
-- a declared variable whose value in the context satisfies one of the four operators: so an unknown
-- operator, an unknown variable, a missing value and a value of another type all make them fail.
pub evaluate_policy_conditions_iff :
    (context : Context) (conditions : List (Text × Value))
    → (evaluate_policy_conditions (some conditions) context ≡ true)
      ↔ All (OperatorHolds context) conditions
unfolding evaluate_policy_conditions
evaluate_policy_conditions_iff context conditions =
    all_iff (operator_holds context) (OperatorHolds context) (operator_iff context) conditions
