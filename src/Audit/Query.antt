-- ===== src/Audit/Query.antt =====
-- packages/db/src/audit-events.ts: the pages of the log. A limit is a natural number here, and an
-- invalid `Date` is `none`.
pub mod Page
use ntauth.Common.{
  ℕ, zero, suc, Bool, true, false, not, ◌&&◌, ◌||◌, Option, none, some, List, [], ◌∷◌, map,
  if◌then◌else◌, all, filter, leb, ltb, length, ◌==◌,
}
use ntauth.Text.{Text, text, ◌===◌, starts_with, text_leb, drop}
use ntauth.Json.{Value, bool, string, get}
use ntauth.Database.{Actor, AuditEvent, AuditOutcome, denied, success}
use ntauth.Grants.{can_manage_grants, valid_service}
use ntauth.Audit.{
  LoggedEvent, AuditTables, AuditAnswer, given, unauthorized_audit, invalid_input,
  audit_retention_days, audit_page_max_size, in_micros, created_date, public_iam_audit_metadata,
  can_read_service_audit, is_old,
}
use ntauth.Audit.Cursor.{AuditCursor, is_uuid, encode_audit_cursor, decode_audit_cursor}

-- the type `IamAuditQuery`
pub record IamAuditQuery : Type 0 where
  pub action : Option Text
  pub actor_user_id : Option Text
  pub cursor : Option Text
  pub from : Option (Option ℕ)
  pub limit : Option ℕ
  pub organization_id : Option Text
  pub outcome : Option AuditOutcome
  pub service : Option Text
  pub to : Option (Option ℕ)

-- `value ? … : undefined`, where the empty text counts as missing
abbrev pub truthy : Option Text → Option Text
truthy none = none
truthy (some []) = none
truthy (some (c ∷ s)) = some (c ∷ s)

-- A condition on a value that may be missing.
abbrev pub if_there {ℓ} : {A : Type ℓ} → Option A → (A → Bool) → Bool
if_there none p = true
if_there (some x) p = p x

abbrev pub is_there {ℓ} : {A : Type ℓ} → Option A → Bool
is_there none = false
is_there (some x) = true

abbrev pub limit_of : IamAuditQuery → ℕ
limit_of q = elim q.limit [ none ↦ 50 | some n ↦ n ]

abbrev action_unit : ℕ → Bool
action_unit c = (leb 97 c && leb c 122) || c == 46 || c == 45

abbrev action_after : Text → Text → Bool
action_after prefix s =
    let rest = drop (length prefix) s in
    starts_with s prefix && leb 1 (length rest) && leb (length rest) 110 && all action_unit rest

-- the regular expression of an action
abbrev pub action_ok : Text → Bool
action_ok s = action_after (text "iam.") s || action_after (text "service-grant.") s

-- neither invalid nor in the wrong order
abbrev pub ordered : Option (Option ℕ) → Option (Option ℕ) → Bool
ordered (some none) to = false
ordered from (some none) = false
ordered (some (some a)) (some (some b)) = ltb a b
ordered _ _ = true

-- the input that `listIamAuditEvents` accepts
unfoldable pub query_ok : IamAuditQuery → Bool
unfolding is_uuid valid_service starts_with
query_ok q =
    leb 1 (limit_of q)
    && leb (limit_of q) audit_page_max_size
    && (is_there (truthy q.organization_id) || is_there (truthy q.service))
    && if_there q.organization_id is_uuid
    && if_there q.action action_ok
    && if_there q.actor_user_id (λ a. leb 1 (length a) && leb (length a) 128)
    && if_there q.service valid_service
    && ordered q.from q.to

-- `canReadOrganizationAudit` asks what `canManage` of the service grants asks.
unfoldable pub can_read : IamAuditQuery → Actor → AuditTables → Bool
unfolding can_manage_grants can_read_service_audit
can_read q actor db = elim (truthy q.organization_id) [
  | some organization_id ↦ can_manage_grants actor.user_id organization_id db.tables
  | none ↦ elim q.service [
    | none ↦ can_read_service_audit actor.user_id [] db
    | some service ↦ can_read_service_audit actor.user_id service db
  ]
]

abbrev pub is_text : Text → Option Text → Bool
is_text s none = false
is_text s (some t) = t === s

-- `metadata->>'service'`; the text of no other value is the key of a service.
abbrev pub json_text : Value → Option Text
json_text (string s) = some s
json_text (bool true) = some (text "true")
json_text (bool false) = some (text "false")
json_text _ = none

abbrev pub same_outcome : AuditOutcome → AuditOutcome → Bool
same_outcome denied denied = true
same_outcome success success = true
same_outcome _ _ = false

-- The event belongs to the organization, or to none if the query names none.
abbrev pub in_scope : Option Text → AuditEvent → Bool
in_scope none e = not (is_there e.organization_id)
in_scope (some organization_id) e = is_text organization_id e.organization_id

abbrev pub is_iam : AuditEvent → Bool
is_iam e = starts_with e.action (text "iam.") || starts_with e.action (text "service-grant.")

abbrev pub date_or : Bool → (ℕ → Bool) → Option (Option ℕ) → Bool
date_or b p (some (some date)) = p date
date_or b p _ = b

abbrev pub before_cursor : LoggedEvent → AuditCursor → Bool
before_cursor e c =
    ltb e.created_at (in_micros c.created_at)
    || (e.created_at == in_micros c.created_at && text_leb e.id c.id && not (e.id === c.id))

-- the conditions that the query asks for
abbrev pub is_asked : IamAuditQuery → Option AuditCursor → LoggedEvent → Bool
is_asked q cursor e =
    if_there (truthy q.action) (λ a. e.event.action === a)
    && if_there (truthy q.actor_user_id) (λ a. is_text a e.event.actor_user_id)
    && if_there q.outcome (same_outcome e.event.outcome)
    && if_there (truthy q.service)
        (λ s. is_text s (json_text (get (text "service") e.event.metadata)))
    && date_or true (λ date. leb (in_micros date) e.created_at) q.from
    && date_or true (λ date. ltb e.created_at (in_micros date)) q.to
    && if_there cursor (before_cursor e)

-- the `where` clause
unfoldable pub is_listed : IamAuditQuery → Option AuditCursor → ℕ → LoggedEvent → Bool
unfolding starts_with text_leb get
is_listed q cursor now e =
    in_scope (truthy q.organization_id) e.event
    && not (is_old now e)
    && is_iam e.event
    && is_asked q cursor e

-- the `order by` clause, by which the later event comes first
unfoldable pub comes_first : LoggedEvent → LoggedEvent → Bool
unfolding text_leb
comes_first a b =
    ltb b.created_at a.created_at || (b.created_at == a.created_at && text_leb b.id a.id)

abbrev pub insert_row : LoggedEvent → List LoggedEvent → List LoggedEvent
insert_row e [] = e ∷ []
insert_row e (f ∷ fs) =
    let rest = insert_row e fs in if comes_first e f then e ∷ f ∷ fs else f ∷ rest

abbrev pub order_rows : List LoggedEvent → List LoggedEvent
order_rows [] = []
order_rows (e ∷ es) = insert_row e (order_rows es)
