-- ===== src/Permissions/Document/WellFormed.antt =====
-- The well-formed policy documents, stated without the validator's loops and issues.
use ntauth.Common.{
  ℕ, ◌+◌, ◌≤◌, ◌≡◌, ◌≢◌, ◌⊎◌, Option, none, some, List, [], ◌∷◌, ◌++◌, All, Among, Unrepeated,
  length,
}
use ntauth.Text.{Text, text}
use ntauth.Json.{Value, undefined, bool, string, array, object, items, entries, get}
use ntauth.Permissions.Identifier.{
  IdentifierKind, action, resource, service_of, identifier_length, actions_per_statement,
  resources_per_statement, sid_length, statements_limit, condition_keys_per_statement,
  condition_values_per_key,
}
use ntauth.Permissions.Identifier.Grammar.{IsIdentifier, Alphanumeric}
use ntauth.Permissions.Conditions.{
  boolean_type, string_type, policy_condition_variable_type, op_bool, string_equals, string_like,
  string_not_equals, entries_of,
}
use ntauth.Permissions.Document.{
  ValidationContext, catalogue_of, statement_keys, document_keys, policy_document_version,
}
use ntauth.Permissions.Document.Conditions.{values_of}

abbrev pub InService : Option Text → Text → Type 0
InService none value = Unit
InService (some []) value = Unit
InService (some (c ∷ s)) value = service_of value ≡ c ∷ s

abbrev pub InCatalogue : Option (List Text) → Text → Type 0
InCatalogue none value = Unit
InCatalogue (some names) value = Among value names

abbrev pub ValidIdentifier : IdentifierKind → ValidationContext → Value → Type 0
ValidIdentifier kind context (string value) =
    IsIdentifier kind value
    × InService context.expected_service value
    × InCatalogue (catalogue_of kind context) value
ValidIdentifier kind context _ = ⊥

-- A list of identifiers: not empty, within its limit, without repetition.
abbrev pub ValidArray : ℕ → IdentifierKind → ValidationContext → Value → Type 0
ValidArray maximum kind context (array vs) =
    (items vs ≢ [])
    × (length (items vs) ≤ maximum)
    × All (ValidIdentifier kind context) (items vs)
    × Unrepeated (items vs)
ValidArray maximum kind context _ = ⊥

abbrev pub OnlyKeys : List Text → List (Text × Value) → Type 0
OnlyKeys allowed fs = All (λ e. Among e.0 allowed) fs

abbrev pub SidUnit : ℕ → Type 0
SidUnit c = Alphanumeric c ⊎ (c ≡ b'_') ⊎ (c ≡ b'-')

-- A `sid` is optional.
abbrev pub ValidSid : Value → Type 0
ValidSid undefined = Unit
ValidSid (string sid) = (sid ≢ []) × All SidUnit sid × (length sid ≤ sid_length)
ValidSid _ = ⊥

abbrev pub sid_list : Value → List Text
sid_list (string sid) = sid ∷ []
sid_list _ = []

abbrev pub GoodText : Value → Type 0
GoodText (string s) = (s ≢ []) × (length s ≤ identifier_length)
GoodText _ = ⊥

abbrev pub IsBoolean : Value → Type 0
IsBoolean (bool b) = Unit
IsBoolean _ = ⊥

-- What `Bool` expects, and what the three string operators expect.
abbrev pub ValidConditionValue : Text → Value → Type 0
ValidConditionValue operator value =
    ((operator ≡ op_bool) × IsBoolean value)
    ⊎ ((operator ≢ op_bool)
        × (values_of value ≢ [])
        × (length (values_of value) ≤ condition_values_per_key)
        × All GoodText (values_of value)
        × Unrepeated (values_of value))

-- The variable is declared, and its type is the operator's.
abbrev pub ValidVariable : Text → Text → Type 0
ValidVariable operator key =
    ((operator ≡ op_bool) × (policy_condition_variable_type key ≡ some boolean_type))
    ⊎ ((operator ≢ op_bool) × (policy_condition_variable_type key ≡ some string_type))

abbrev pub ValidEntry : Text → Text × Value → Type 0
ValidEntry operator (key, value) = ValidVariable operator key × ValidConditionValue operator value

abbrev pub IsConditionOperator : Text → Type 0
IsConditionOperator op =
    (op ≡ string_equals) ⊎ (op ≡ string_like) ⊎ (op ≡ string_not_equals) ⊎ (op ≡ op_bool)

abbrev pub ValidOperator : Text × Value → Type 0
ValidOperator (operator, object fields) =
    IsConditionOperator operator
    × (entries fields ≢ [])
    × All (ValidEntry operator) (entries fields)
ValidOperator (operator, _) = ⊥

-- The number of condition keys under all operators.
abbrev pub key_count : List (Text × Value) → ℕ
key_count [] = 0
key_count ((operator, value) ∷ rest) = length (entries_of value) + key_count rest

-- Conditions are optional; where they are given, they have between one and twenty keys.
abbrev pub ValidConditions : Value → Type 0
ValidConditions (object fields) =
    All ValidOperator (entries fields)
    × (1 ≤ key_count (entries fields))
    × (key_count (entries fields) ≤ condition_keys_per_statement)
ValidConditions _ = ⊥

abbrev pub ValidOptionalConditions : Value → Type 0
ValidOptionalConditions undefined = Unit
ValidOptionalConditions value = ValidConditions value

pub record ValidStatementFields (context : ValidationContext) (fs : List (Text × Value))
    : Type 0 where
  pub keys : OnlyKeys statement_keys fs
  pub effect :
      (get (text "effect") fs ≡ string (text "Allow"))
      ⊎ (get (text "effect") fs ≡ string (text "Deny"))
  pub sid : ValidSid (get (text "sid") fs)
  pub actions : ValidArray actions_per_statement action context (get (text "actions") fs)
  pub resources : ValidArray resources_per_statement resource context (get (text "resources") fs)
  pub conditions : ValidOptionalConditions (get (text "conditions") fs)

abbrev pub ValidStatement : ValidationContext → Value → Type 0
ValidStatement context (object fields) = ValidStatementFields context (entries fields)
ValidStatement context _ = ⊥

-- The `sid` of a statement that has one, and those of a list of statements.
abbrev pub sid_of : Value → List Text
sid_of (object fields) = sid_list (get (text "sid") (entries fields))
sid_of _ = []

abbrev pub sids : List Value → List Text
sids [] = []
sids (statement ∷ rest) = sid_of statement ++ sids rest

abbrev pub ValidStatements : ValidationContext → Value → Type 0
ValidStatements context (array vs) =
    (items vs ≢ [])
    × (length (items vs) ≤ statements_limit)
    × All (ValidStatement context) (items vs)
    × Unrepeated (sids (items vs))
ValidStatements context _ = ⊥

pub record ValidDocumentFields (context : ValidationContext) (fs : List (Text × Value))
    : Type 0 where
  pub keys : OnlyKeys document_keys fs
  pub version : get (text "version") fs ≡ string policy_document_version
  pub statements : ValidStatements context (get (text "statements") fs)

abbrev pub ValidDocument : ValidationContext → Value → Type 0
ValidDocument context (object fields) = ValidDocumentFields context (entries fields)
ValidDocument context _ = ⊥
