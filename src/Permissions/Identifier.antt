-- ===== src/Permissions/Identifier.antt =====
-- packages/permissions/src/iam.ts: action and resource identifiers, `service:segment:...`.
pub mod Grammar
pub mod Decision
use mathlib.Core.Option
use ntauth.Common.{
  ℕ, suc, ◌-◌, Bool, true, false, ◌&&◌, ◌||◌, Option, none, some, List, [], ◌∷◌, ltb, leb, ◌==◌,
  if◌then◌else◌, length, all, filter,
}
use ntauth.Text.{Text, text, ◌===◌, split}
use ntauth.Text.Split.{head_of, tail_of}

pub data IdentifierKind : Type 0 where
  action resource : IdentifierKind

-- `POLICY_LIMITS`
abbrev pub actions_per_statement : ℕ
actions_per_statement = 50

abbrev pub condition_keys_per_statement : ℕ
condition_keys_per_statement = 20

abbrev pub condition_values_per_key : ℕ
condition_values_per_key = 20

abbrev pub document_bytes : ℕ
document_bytes = 65536

abbrev pub identifier_length : ℕ
identifier_length = 256

abbrev pub resources_per_statement : ℕ
resources_per_statement = 100

abbrev pub sid_length : ℕ
sid_length = 64

abbrev pub statements_limit : ℕ
statements_limit = 100

abbrev pub is_lower : ℕ → Bool
is_lower c = leb b'a' c && leb c b'z'

abbrev pub is_upper : ℕ → Bool
is_upper c = leb b'A' c && leb c b'Z'

abbrev pub is_digit : ℕ → Bool
is_digit c = leb b'0' c && leb c b'9'

-- `/^F[R]{0,most}$/` for a first class `F` and a class `R` of the rest
abbrev pub bounded_pattern : (ℕ → Bool) → (ℕ → Bool) → ℕ → Text → Bool
bounded_pattern first rest most [] = false
bounded_pattern first rest most (c ∷ s) = first c && (all rest s && leb (length s) most)

-- `[a-z0-9-]`
abbrev pub name_unit : ℕ → Bool
name_unit c = is_lower c || is_digit c || c == b'-'

-- `[A-Za-z0-9]`
abbrev pub resource_first : ℕ → Bool
resource_first c = is_upper c || is_lower c || is_digit c

-- `[A-Za-z0-9._/-]`
abbrev pub resource_unit : ℕ → Bool
resource_unit c = resource_first c || c == b'.' || c == b'_' || c == b'/' || c == b'-'

pub service_pattern : Text → Bool
service_pattern s = bounded_pattern is_lower name_unit 62 s

pub action_segment_pattern : Text → Bool
action_segment_pattern s = bounded_pattern is_lower name_unit 62 s

pub resource_segment_pattern : Text → Bool
resource_segment_pattern s = bounded_pattern resource_first resource_unit 127 s

pub segment_pattern : IdentifierKind → Text → Bool
unfolding action_segment_pattern resource_segment_pattern
segment_pattern action s = action_segment_pattern s
segment_pattern resource s = resource_segment_pattern s

abbrev pub star : Text
star = text "*"

-- `list.indexOf(s)`, with `none` for -1
pub index_of : Text → List Text → Option ℕ
index_of s [] = none
index_of s (x ∷ xs) =
    let later = Option.map suc (index_of s xs) in if x === s then some 0 else later

abbrev pub index_is : Option ℕ → ℕ → Bool
index_is none n = true
index_is (some i) n = i == n

-- `!expectedService || service === expectedService`: the empty string counts as absent
abbrev pub is_expected : Option Text → Text → Bool
is_expected none service = true
is_expected (some []) service = true
is_expected (some (c ∷ s)) service = service === (c ∷ s)

-- `splitIdentifier`
abbrev pub service_of : Text → Text
service_of value = head_of (split b':' value)

abbrev pub segments_of : Text → List Text
segments_of value = tail_of (split b':' value)

pub segments_ok : IdentifierKind → List Text → Bool
segments_ok kind segments =
    ltb 0 (length segments)
    && (all (λ s. s === star || segment_pattern kind s) segments
        && (index_is (index_of star segments) (length segments - 1)
            && leb (length (filter (λ s. s === star) segments)) 1))

abbrev pub length_ok : Text → Bool
length_ok value = ltb 0 (length value) && leb (length value) identifier_length

unfoldable pub is_policy_identifier : Text → IdentifierKind → Option Text → Bool
unfolding segments_ok segment_pattern index_of service_pattern
is_policy_identifier value kind expected =
    if length_ok value
    then service_pattern (service_of value)
      && (is_expected expected (service_of value) && segments_ok kind (segments_of value))
    else false
