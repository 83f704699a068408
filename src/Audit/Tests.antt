-- ===== src/Audit/Tests.antt =====
-- Runs of the calls of audit-events.ts on a small log, and the theorems at it.
use ntauth.Common.{
  ℕ, zero, suc, ◌≡◌, refl, true, false, Option, none, some, List, [], ◌∷◌, ◌++◌, arith, length, map,
}
use ntauth.Text.{Text, text, ◌===◌, starts_with, text_leb, split}
use ntauth.Json.{get, string}
use ntauth.Database.{platform_admin, Actor, success}
use ntauth.Database.Users.{is_platform_admin}
use ntauth.Grants.{can_manage_grants, valid_service}
use ntauth.Policies.{service_active}
use ntauth.Audit.{
  LoggedEvent, AuditTables, AuditAnswer, given, can_read_service_audit, purge_expired_audit_events,
}
use ntauth.Audit.Cursor.{AuditCursor, is_uuid, encode_audit_cursor, decode_audit_cursor}
use ntauth.Audit.Roundtrip.{decode_audit_cursor-encode}
use ntauth.Audit.Query.{IamAuditQuery, query_ok, can_read, is_listed, comes_first}
use ntauth.Audit.Query.Page.{AuditPage, cursor_at_event, list_iam_audit_events}
use ntauth.Audit.Visible.{IsAllowed, list_iam_audit_events-IsAllowed}
use ntauth.Audit.Purge.{list_iam_audit_events-purge}
use ntauth.Audit.Export.{export_iam_audit_events}
use ntauth.Audit.Bounded.{IsExported, export_iam_audit_events-IsExported}
use ntauth.Audit.Skipped.{is_listed_skips}

-- A date as so many zeros and one more.
abbrev zeros : ℕ → Text
zeros zero = []
zeros (suc n) = 48 ∷ zeros n

abbrev iso : ℕ → Text
iso date = 48 ∷ zeros date

abbrev parse_date : Text → Option ℕ
parse_date [] = none
parse_date (c ∷ s) = some (length s)

abbrev itself : Text → Text
itself s = s

abbrev root : Actor
root = record { request_id = text "r-1"; user_id = text "root" }

abbrev mail : Text
mail = text "mail"

abbrev uuid_1 : Text
uuid_1 = text "00000000-0000-4000-8000-000000000001"

abbrev uuid_2 : Text
uuid_2 = text "00000000-0000-4000-8000-000000000002"

abbrev logged : Text → ℕ → LoggedEvent
logged id created_at = record {
  id = id;
  created_at = created_at;
  event = record {
    actor_user_id = some (text "root");
    action = text "iam.policy.create";
    resource_type = text "iam_policy";
    resource_id = none;
    organization_id = none;
    outcome = success;
    request_id = text "r-1";
    metadata = (text "service", string mail) ∷ [];
  };
}

-- Two events of one millisecond.
abbrev db : AuditTables
db = record {
  tables = record {
    users = [];
    sessions = [];
    accounts = [];
    organizations = [];
    members = [];
    assignments = record { user_id = text "root"; role = platform_admin } ∷ [];
    audit_events = [];
  };
  services = record { key = mail; owner_user_id = text "ann"; status = service_active } ∷ [];
  log = logged uuid_1 2500 ∷ logged uuid_2 2900 ∷ [];
}

abbrev query : Option ℕ → Option Text → IamAuditQuery
query limit cursor = record {
  action = none;
  actor_user_id = none;
  cursor = cursor;
  from = none;
  limit = limit;
  organization_id = none;
  outcome = none;
  service = some mail;
  to = none;
}

abbrev ids_of : AuditAnswer AuditPage → List Text × Option Text
ids_of (given page) = (map (λ e. e.id) page.events, page.next_cursor)
ids_of _ = ([], none)

abbrev answer : Option ℕ → Option Text → AuditAnswer AuditPage
answer limit cursor =
    list_iam_audit_events iso parse_date itself itself (query limit cursor) root 10 db

run : Unit {0}
unfolding ◌===◌ starts_with text_leb split get is_platform_admin can_manage_grants valid_service
    can_read_service_audit is_uuid decode_audit_cursor query_ok can_read is_listed comes_first
    list_iam_audit_events
run = tt

-- One page shows both events, the later first.
both : ids_of (answer none none) ≡ (uuid_2 ∷ uuid_1 ∷ [], none)
unfolding run
both = refl

-- In pages of one event the other event is never shown: the cursor holds milliseconds, and the event is
-- later than that within its millisecond.
first_page : ids_of (answer (some 1) none) ≡ (uuid_2 ∷ [], some (iso 2 ++ 124 ∷ uuid_2))
unfolding run
first_page = refl

second_page : ids_of (answer (some 1) (some (iso 2 ++ 124 ∷ uuid_2))) ≡ ([], none)
unfolding run
second_page = refl

list_iam_audit_events-IsAllowed_example : IsAllowed (query none none) root 10 db (answer none none)
list_iam_audit_events-IsAllowed_example =
    list_iam_audit_events-IsAllowed iso parse_date itself itself (query none none) root 10 db

list_iam_audit_events-purge_example :
    list_iam_audit_events iso parse_date itself itself
      (query none none)
      root
      12
      (purge_expired_audit_events 10 db).1
    ≡ list_iam_audit_events iso parse_date itself itself (query none none) root 12 db
list_iam_audit_events-purge_example =
    list_iam_audit_events-purge iso parse_date itself itself (query none none) root 10 12 db
      (omega arith)

abbrev cursor : AuditCursor
cursor = record { created_at = 3; id = uuid_1 }

uuid_ok : is_uuid uuid_1 ≡ true
unfolding run
uuid_ok = refl

decode_audit_cursor-encode_example :
    decode_audit_cursor iso parse_date itself itself
      (encode_audit_cursor iso parse_date itself itself cursor)
    ≡ some cursor
decode_audit_cursor-encode_example =
    decode_audit_cursor-encode iso parse_date itself itself cursor refl refl
      (omega arith, (omega arith, (omega arith, (omega arith, tt)))) uuid_ok refl

is_listed_skips_example :
    is_listed
      (query none none)
      (some (cursor_at_event (logged uuid_2 2900)))
      10
      (logged uuid_1 2500)
    ≡ false
is_listed_skips_example =
    is_listed_skips (query none none) 10 (logged uuid_2 2900) (logged uuid_1 2500) refl
      (omega arith)

export_iam_audit_events-IsExported_example :
    IsExported (text "e-1") 10000 (query none none) root db (
      export_iam_audit_events iso parse_date itself itself
        (text "e-1")
        10000
        (query none none)
        root
        10
        db)
export_iam_audit_events-IsExported_example =
    export_iam_audit_events-IsExported iso parse_date itself itself (text "e-1") 10000
      (query none none) root 10 db
