-- ===== src/Audit/Query/Page.antt =====
-- packages/db/src/audit-events.ts: a page of the log.
use ntauth.Common.{
  ℕ, zero, suc, Bool, true, false, not, Option, none, some, List, [], ◌∷◌, map, if◌then◌else◌,
  filter, ltb, length,
}
use ntauth.Text.{Text, text}
use ntauth.Json.{Value, string, get}
use ntauth.Database.{Actor, AuditOutcome}
use ntauth.Audit.{
  LoggedEvent, AuditTables, AuditAnswer, given, unauthorized_audit, invalid_input,
  audit_retention_days, created_date, public_iam_audit_metadata,
}
use ntauth.Audit.Cursor.{AuditCursor, encode_audit_cursor, decode_audit_cursor}
use ntauth.Audit.Query.{
  IamAuditQuery, can_read, comes_first, is_listed, is_there, limit_of, order_rows, query_ok, truthy,
}

-- `limit`, and `slice` from 0
abbrev pub take {ℓ} : {A : Type ℓ} → ℕ → List A → List A
take zero xs = []
take (suc n) [] = []
take (suc n) (x ∷ xs) = x ∷ take n xs

-- `page.at(-1)`
abbrev pub last {ℓ} : {A : Type ℓ} → List A → Option A
last [] = none
last (x ∷ []) = some x
last (x ∷ y ∷ xs) = last (y ∷ xs)

-- An event as the page gives it.
pub record PublicEvent : Type 0 where
  pub action : Text
  pub actor_id : Option Text
  pub actor_type : Text
  pub correlation_id : Text
  pub created_at : ℕ
  pub id : Text
  pub metadata : List (Text × Value)
  pub outcome : AuditOutcome
  pub scope_organization_id : Option Text
  pub scope_service : Option Text
  pub target_id : Option Text
  pub target_type : Text

abbrev pub service_of : Value → Option Text
service_of (string s) = some s
service_of _ = none

abbrev pub public_event : LoggedEvent → PublicEvent
public_event e = record {
  action = e.event.action;
  actor_id = e.event.actor_user_id;
  actor_type = if is_there (truthy e.event.actor_user_id) then text "user" else text "system";
  correlation_id = e.event.request_id;
  created_at = created_date e;
  id = e.id;
  metadata = public_iam_audit_metadata e.event.metadata;
  outcome = e.event.outcome;
  scope_organization_id = e.event.organization_id;
  scope_service = service_of (get (text "service") e.event.metadata);
  target_id = e.event.resource_id;
  target_type = e.event.resource_type;
}

pub record AuditPage : Type 0 where
  pub events : List PublicEvent
  pub next_cursor : Option Text
  pub retention_days : ℕ

abbrev pub cursor_at_event : LoggedEvent → AuditCursor
cursor_at_event e = record { created_at = created_date e; id = e.id }

module _ (iso : ℕ → Text) (parse_date : Text → Option ℕ) (to_base64 from_base64 : Text → Text) where
  abbrev pub next_of : Bool → Option LoggedEvent → Option Text
  next_of false o = none
  next_of true none = none
  next_of true (some e) =
      some (encode_audit_cursor iso parse_date to_base64 from_base64 (cursor_at_event e))

  abbrev pub page_of : ℕ → List LoggedEvent → AuditPage
  page_of limit rows = record {
    events = map public_event (take limit rows);
    next_cursor = next_of (ltb limit (length rows)) (last (take limit rows));
    retention_days = audit_retention_days;
  }

  abbrev pub rows_of : IamAuditQuery → Option AuditCursor → ℕ → AuditTables → List LoggedEvent
  rows_of q cursor now db =
      take (suc (limit_of q)) (order_rows (filter (is_listed q cursor now) db.log))

  abbrev pub page_or : IamAuditQuery → ℕ → AuditTables → Option AuditCursor → AuditAnswer AuditPage
  page_or q now db none = invalid_input
  page_or q now db (some c) = given (page_of (limit_of q) (rows_of q (some c) now db))

  -- from the cursor on
  abbrev pub list_from : IamAuditQuery → ℕ → AuditTables → Option Text → AuditAnswer AuditPage
  list_from q now db none = given (page_of (limit_of q) (rows_of q none now db))
  list_from q now db (some value) =
      page_or q now db (decode_audit_cursor iso parse_date to_base64 from_base64 value)

  -- `listIamAuditEvents`
  unfoldable pub list_iam_audit_events :
      IamAuditQuery → Actor → ℕ → AuditTables → AuditAnswer AuditPage
  unfolding query_ok can_read is_listed comes_first decode_audit_cursor
  list_iam_audit_events q actor now db =
      if not (query_ok q)
      then invalid_input
      else if not (can_read q actor db)
      then unauthorized_audit
      else list_from q now db (truthy q.cursor)
