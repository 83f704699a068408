-- ===== src/Audit.antt =====
-- packages/db/src/audit-events.ts: reading the audit log of the policies and of the service grants, and
-- deleting what is too old. The table holds times in microseconds, and a `Date` those in milliseconds.
pub mod Cursor
pub mod Roundtrip
pub mod Query
pub mod Visible
pub mod Purge
pub mod Skipped
pub mod Export
pub mod Bounded
mod Tests
use ntauth.Common.{
  ℕ, zero, suc, ◌+◌, ◌-◌, ◌*◌, ◌/◌, Bool, true, false, not, ◌&&◌, ◌||◌, Option, none, some, List,
  [], ◌∷◌, ◌++◌, map, if◌then◌else◌, any, all, filter, leb, ltb, length, ◌==◌,
}
use ntauth.Text.{Text, text, ◌===◌, starts_with, text_leb, includes}
use ntauth.Json.{Value, undefined, null, bool, number, string, array, object, get}
use ntauth.Database.{Tables, AuditEvent, AuditOutcome, denied, success}
use ntauth.Database.Users.{is_platform_admin}
use ntauth.Policies.{ServiceStatus, is_active_service}

-- a row of `audit_events`, with its identifier and its time
pub record LoggedEvent : Type 0 where
  pub id : Text
  pub created_at : ℕ
  pub event : AuditEvent

-- a row of `services`, with its owner
pub record OwnedService : Type 0 where
  pub key : Text
  pub owner_user_id : Text
  pub status : ServiceStatus

-- The log stands here for the events of `tables`.
pub record AuditTables : Type 0 where
  pub tables : Tables
  pub services : List OwnedService
  pub log : List LoggedEvent

pub data AuditAnswer {ℓ} (A : Type ℓ) : Type ℓ where
  given : A → AuditAnswer A
  unauthorized_audit invalid_input : AuditAnswer A

-- `AUDIT_RETENTION_DAYS`
abbrev pub audit_retention_days : ℕ
audit_retention_days = 365

-- `AUDIT_PAGE_MAX_SIZE`
abbrev pub audit_page_max_size : ℕ
audit_page_max_size = 100

-- `retentionCutoff`, in milliseconds; no row is older than the time 0.
abbrev pub retention_cutoff : ℕ → ℕ
retention_cutoff now = now - audit_retention_days * 86400000

-- a time of the table against a `Date`
abbrev pub in_micros : ℕ → ℕ
in_micros date = date * 1000

-- `event.createdAt`, as the driver gives it
abbrev pub created_date : LoggedEvent → ℕ
created_date e = e.created_at / 1000

-- `IAM_METADATA_KEYS`
abbrev pub iam_metadata_keys : List Text
iam_metadata_keys =
    text "active"
    ∷ text "groupId"
    ∷ text "idempotent"
    ∷ text "identifier"
    ∷ text "policyId"
    ∷ text "principalId"
    ∷ text "principalType"
    ∷ text "service"
    ∷ text "targetUserId"
    ∷ text "version"
    ∷ []

abbrev pub is_plain : Value → Bool
is_plain null = true
is_plain (bool _) = true
is_plain (number _) = true
is_plain (string _) = true
is_plain _ = false

-- `publicIamAuditMetadata`
abbrev pub public_iam_audit_metadata : List (Text × Value) → List (Text × Value)
public_iam_audit_metadata metadata =
    filter (λ entry. includes iam_metadata_keys entry.0 && is_plain entry.1) metadata

-- `canReadServiceAudit`
unfoldable pub can_read_service_audit : Text → Text → AuditTables → Bool
unfolding is_platform_admin
can_read_service_audit actor_id service db =
    any
      (λ s.
        s.key === service
        && is_active_service s.status
        && (s.owner_user_id === actor_id || is_platform_admin actor_id db.tables))
      db.services

abbrev pub is_old : ℕ → LoggedEvent → Bool
is_old now e = ltb e.created_at (in_micros (retention_cutoff now))

-- `purgeExpiredAuditEvents`
abbrev pub purge_expired_audit_events : ℕ → AuditTables → List Text × AuditTables
purge_expired_audit_events now db = (
  map (λ e. e.id) (filter (is_old now) db.log),
  record db { log = filter (λ e. not (is_old now e)) db.log },
)
