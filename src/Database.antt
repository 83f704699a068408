-- ===== src/Database.antt =====
-- packages/db/src: the tables of schema.ts that the administration of users and organizations reads
-- and writes, and the transactions over them. A time is a number of milliseconds.
pub mod Rows
pub mod Users
pub mod Sessions
pub mod Organizations
pub mod History
mod Tests
use ntauth.Common.{ℕ, Bool, true, false, Option, List, [], ◌∷◌, ◌++◌}
use ntauth.Text.{Text, text}
use ntauth.Json.{Value}

pub data UserStatus : Type 0 where
  active deactivated deleted suspended : UserStatus

-- the text in the column
abbrev pub status_text : UserStatus → Text
status_text active = text "active"
status_text deactivated = text "deactivated"
status_text deleted = text "deleted"
status_text suspended = text "suspended"

-- the table `user`
pub record User : Type 0 where
  pub id : Text
  pub name : Text
  pub email : Text
  pub email_verified : Bool
  pub image : Option Text
  pub status : UserStatus
  pub status_changed_at : Option ℕ
  pub deleted_at : Option ℕ
  pub updated_at : ℕ

-- The table `session`, without the columns that only describe the client.
pub record Session : Type 0 where
  pub id : Text
  pub token : Text
  pub user_id : Text
  pub expires_at : ℕ

-- The table `account`, without the credentials.
pub record Account : Type 0 where
  pub id : Text
  pub provider_id : Text
  pub account_id : Text
  pub user_id : Text

pub data OrganizationStatus : Type 0 where
  organization_active organization_suspended : OrganizationStatus

pub record Organization : Type 0 where
  pub id : Text
  pub name : Text
  pub slug : Text
  pub status : OrganizationStatus
  pub updated_at : ℕ

pub data OrganizationRole : Type 0 where
  admin member owner : OrganizationRole

pub data MembershipStatus : Type 0 where
  member_active member_suspended : MembershipStatus

-- the table `organization_members`
pub record Membership : Type 0 where
  pub id : Text
  pub organization_id : Text
  pub user_id : Text
  pub role : OrganizationRole
  pub status : MembershipStatus
  pub updated_at : ℕ

pub data PlatformRole : Type 0 where
  platform_admin : PlatformRole

-- the table `platform_role_assignments`
pub record Assignment : Type 0 where
  pub user_id : Text
  pub role : PlatformRole

pub data AuditOutcome : Type 0 where
  denied success : AuditOutcome

-- The table `audit_events`, without the identifier and the time that the database generates.
pub record AuditEvent : Type 0 where
  pub actor_user_id : Option Text
  pub action : Text
  pub resource_type : Text
  pub resource_id : Option Text
  pub organization_id : Option Text
  pub outcome : AuditOutcome
  pub request_id : Text
  pub metadata : List (Text × Value)

pub record Tables : Type 0 where
  pub users : List User
  pub sessions : List Session
  pub accounts : List Account
  pub organizations : List Organization
  pub members : List Membership
  pub assignments : List Assignment
  -- in the order in which the events were inserted
  pub audit_events : List AuditEvent

pub record Actor : Type 0 where
  pub request_id : Text
  pub user_id : Text

-- The errors that the functions throw; a violated constraint is the driver's.
pub data Failure : Type 0 where
  unauthorized not_found conflict invalid_transition membership_missing constraint : Failure

pub data Result {ℓ} (A : Type ℓ) : Type ℓ where
  returned : A → Result A
  thrown : Failure → Result A

-- What a call gives, with the tables that it leaves.
abbrev pub Run {ℓ} : Type ℓ → Type ℓ
Run A = Result A × Tables

-- `insert into audit_events`
abbrev pub record_event : AuditEvent → Tables → Tables
record_event event db = record db { audit_events = db.audit_events ++ event ∷ [] }

-- A transaction that records why it does nothing else, after which the call throws.
abbrev pub deny {ℓ} : {A : Type ℓ} → AuditEvent → Tables → Run A
deny event db = (thrown unauthorized, record_event event db)

-- The call gives a value and throws nothing.
abbrev pub Returns {ℓ} : {A : Type ℓ} → Run A → Type 0
Returns (returned _, _) = Unit
Returns (thrown _, _) = ⊥
