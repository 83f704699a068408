-- ===== src/Audit/Cursor.antt =====
-- packages/db/src/audit-events.ts: the cursors of the pages.
use ntauth.Common.{
  ℕ, Bool, true, false, ◌&&◌, ◌||◌, Option, none, some, List, [], ◌∷◌, ◌++◌, if◌then◌else◌, leb,
  ◌==◌,
}
use ntauth.Text.{Text, split}

pub record AuditCursor : Type 0 where
  pub created_at : ℕ
  pub id : Text

abbrev is_digit : ℕ → Bool
is_digit c = leb 48 c && leb c 57

-- `[0-9a-f]`, in either case
abbrev is_hex : ℕ → Bool
is_hex c = is_digit c || (leb 97 c && leb c 102) || (leb 65 c && leb c 70)

abbrev is_dash : ℕ → Bool
is_dash c = c == 45

-- `[1-8]`
abbrev is_version : ℕ → Bool
is_version c = leb 49 c && leb c 56

-- `[89ab]`, in either case
abbrev is_variant : ℕ → Bool
is_variant c = c == 56 || c == 57 || c == 97 || c == 98 || c == 65 || c == 66

abbrev hex_3 : List (ℕ → Bool)
hex_3 = is_hex ∷ is_hex ∷ is_hex ∷ []

abbrev hex_4 : List (ℕ → Bool)
hex_4 = is_hex ∷ hex_3

-- the code units of an identifier, by their places
abbrev pub uuid_shape : List (ℕ → Bool)
uuid_shape =
    hex_4
    ++ hex_4
    ++ is_dash ∷ hex_4
    ++ is_dash ∷ is_version ∷ hex_3
    ++ is_dash ∷ is_variant ∷ hex_3
    ++ is_dash ∷ hex_4
    ++ hex_4
    ++ hex_4

abbrev pub conforms : List (ℕ → Bool) → Text → Bool
conforms [] [] = true
conforms [] (c ∷ s) = false
conforms (p ∷ ps) [] = false
conforms (p ∷ ps) (c ∷ s) = p c && conforms ps s

-- the regular expression of an identifier
unfoldable pub is_uuid : Text → Bool
is_uuid s = conforms uuid_shape s

abbrev pub bar : ℕ
bar = 124

-- `toISOString`, the parsing of a `Date`, which gives none where that is invalid, and the encodings of
-- `Buffer`.
module _ (iso : ℕ → Text) (parse_date : Text → Option ℕ) (to_base64 from_base64 : Text → Text) where
  -- `encodeAuditCursor`
  abbrev pub encode_audit_cursor : AuditCursor → Text
  encode_audit_cursor c = to_base64 (iso c.created_at ++ bar ∷ c.id)

  abbrev pub cursor_at : Text → Option ℕ → Option AuditCursor
  cursor_at id none = none
  cursor_at id (some date) = if is_uuid id then some record { created_at = date; id = id } else none

  -- `[timestamp, id, extra]` of the parts, none of which may be missing or be empty but the last, which
  -- must be missing
  abbrev pub cursor_of : List Text → Option AuditCursor
  cursor_of ((c ∷ timestamp) ∷ (d ∷ id) ∷ []) = cursor_at (d ∷ id) (parse_date (c ∷ timestamp))
  cursor_of _ = none

  -- `decodeAuditCursor`
  unfoldable pub decode_audit_cursor : Text → Option AuditCursor
  unfolding split is_uuid
  decode_audit_cursor value = cursor_of (split bar (from_base64 value))
