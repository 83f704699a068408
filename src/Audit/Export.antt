-- ===== src/Audit/Export.antt =====
-- packages/db/src/audit-events.ts: exporting the pages of a query. The recursion runs on fuel, one more
-- for each page; the identifier and the time of the event that the export logs are arguments. All pages
-- of an export read one log, so an event that is logged while an export runs is not seen.
use ntauth.Common.{
  ℕ, zero, suc, Bool, Option, none, some, List, [], ◌∷◌, ◌++◌, if◌then◌else◌, ltb, length,
}
use ntauth.Text.{Text, text}
use ntauth.Json.{Value, number}
use ntauth.Database.{Actor, AuditOutcome, denied, success}
use ntauth.Grants.{or_null}
use ntauth.Audit.{
  LoggedEvent, AuditTables, AuditAnswer, given, unauthorized_audit, invalid_input,
  audit_page_max_size,
}
use ntauth.Audit.Query.{IamAuditQuery, truthy, is_there}
use ntauth.Audit.Query.Page.{PublicEvent, AuditPage, list_iam_audit_events}

-- How the recursion ends: with the events and the cursor that is left, with an error of a page, or
-- without fuel.
pub data Collected : Type 0 where
  ended : List PublicEvent → Option Text → Collected
  broken : AuditAnswer (Unit {0}) → Collected
  without_fuel : Collected

abbrev pub export_max_size : ℕ
export_max_size = 10000

-- the input of a page
abbrev pub page_query : IamAuditQuery → Option Text → IamAuditQuery
page_query q cursor = record q { cursor = cursor; limit = some audit_page_max_size }

abbrev pub proceed :
    (List PublicEvent → Option Text → Collected) → List PublicEvent → Option Text → Collected
proceed next events none = ended events none
proceed next events (some cursor) =
    if ltb (length events) export_max_size
    then next events (some cursor)
    else ended events (some cursor)

-- `collect` from the page on
abbrev pub collect_page :
    (List PublicEvent → Option Text → Collected)
    → List PublicEvent
    → AuditAnswer AuditPage
    → Collected
collect_page next events (given page) =
    proceed next (events ++ page.events) (truthy page.next_cursor)
collect_page next events unauthorized_audit = broken unauthorized_audit
collect_page next events invalid_input = broken invalid_input

abbrev pub export_event :
    Text → ℕ → AuditOutcome → IamAuditQuery → Actor → List (Text × Value) → LoggedEvent
export_event fresh at outcome q actor metadata = record {
  id = fresh;
  created_at = at;
  event = record {
    actor_user_id = some actor.user_id;
    action = text "iam.audit.export";
    resource_type = text "audit_export";
    resource_id = none;
    organization_id = q.organization_id;
    outcome = outcome;
    request_id = actor.request_id;
    metadata = metadata;
  };
}

abbrev pub log_event : LoggedEvent → AuditTables → AuditTables
log_event e db = record db { log = db.log ++ e ∷ [] }

pub record AuditExport : Type 0 where
  pub events : List PublicEvent
  pub truncated : Bool

-- `exportIamAuditEvents` from the pages on; `none` is an export that does not end.
abbrev pub finish_export :
    Text
    → ℕ
    → IamAuditQuery
    → Actor
    → AuditTables
    → Collected
    → Option (AuditAnswer AuditExport × AuditTables)
finish_export fresh at q actor db (ended events cursor) = some (
  given record { events = events; truncated = is_there cursor },
  log_event
      (export_event fresh at success q actor
        ((text "count", number (length events)) ∷ (text "service", or_null q.service) ∷ []))
      db,
)
finish_export fresh at q actor db (broken unauthorized_audit) = some (
  unauthorized_audit,
  log_event (export_event fresh at denied q actor ((text "service", or_null q.service) ∷ [])) db,
)
finish_export fresh at q actor db (broken _) = some (invalid_input, db)
finish_export fresh at q actor db without_fuel = none

module _ (iso : ℕ → Text) (parse_date : Text → Option ℕ) (to_base64 from_base64 : Text → Text) where
  -- `collect`
  abbrev pub collect :
      IamAuditQuery → Actor → ℕ → AuditTables → ℕ → List PublicEvent → Option Text → Collected
  collect q actor now db zero events cursor = without_fuel
  collect q actor now db (suc fuel) events cursor =
      collect_page (collect q actor now db fuel) events (
        list_iam_audit_events iso parse_date to_base64 from_base64 (page_query q cursor) actor now
          db)

  -- `exportIamAuditEvents`, with fuel for 100 pages
  abbrev pub export_iam_audit_events :
      Text
      → ℕ
      → IamAuditQuery
      → Actor
      → ℕ
      → AuditTables
      → Option (AuditAnswer AuditExport × AuditTables)
  export_iam_audit_events fresh at q actor now db =
      finish_export fresh at q actor db (collect q actor now db 100 [] none)
