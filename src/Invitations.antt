-- ===== src/Invitations.antt =====
-- packages/db/src/invitations.ts: inviting somebody to an organization by mail. Each function is one
-- transaction, which an error leaves without effect. The token, and the identifiers that are made for
-- new rows, are arguments.
pub mod Create
pub mod Accept
pub mod Joined
pub mod Lifecycle
pub mod Final
mod Tests
use ntauth.Common.{
  ℕ, ◌+◌, Bool, true, false, not, ◌&&◌, ◌||◌, Option, none, some, List, [], ◌∷◌, ◌++◌,
  if◌then◌else◌, any, leb, ltb, length, ◌==◌,
}
use ntauth.Text.{Text, text, ◌===◌, trim}
use ntauth.Json.{Value, string, object, field, no_fields}
use ntauth.Database.{
  User, active, Account, Organization, Membership, OrganizationRole, Tables, Actor, AuditEvent,
  AuditOutcome, denied, success, record_event,
}
use ntauth.Database.Rows.{find, update}
use ntauth.Database.Users.{is_platform_admin, has_id}
use ntauth.Database.Organizations.{can_manage, has_organization_id, in_organization}
use ntauth.Database.Organizations.Members.{role_text, membership_ok, new_membership}
use ntauth.Worker.Queue.{Job, NewJob, new_job, has_key, has_job_id}

pub data InvitationStatus : Type 0 where
  accepted cancelled pending : InvitationStatus

-- the table `invitations`
pub record Invitation : Type 0 where
  pub id : Text
  pub email : Text
  pub organization_id : Text
  pub role : OrganizationRole
  pub token_hash : Text
  pub status : InvitationStatus
  pub invited_by_user_id : Text
  pub expires_at : ℕ
  pub accepted_at : Option ℕ
  pub cancelled_at : Option ℕ
  pub created_at : ℕ

-- The column `password` of the accounts stands apart, with the identifiers of its rows.
pub record InvitationTables : Type 0 where
  pub tables : Tables
  pub passwords : List (Text × Text)
  pub invitations : List Invitation
  pub jobs : List Job

-- The errors: the two classes of the file, the driver's for a violated constraint, and that of `URL`.
pub data InvitationFailure : Type 0 where
  forbidden invalid_invitation violated invalid_url : InvitationFailure

pub data Answer {ℓ} (A : Type ℓ) : Type ℓ where
  answered : A → Answer A
  failed : InvitationFailure → Answer A

abbrev pub InvitationRun {ℓ} : Type ℓ → Type ℓ
InvitationRun A = Answer A × InvitationTables

-- `INVITATION_LIFETIME_MS`
abbrev pub invitation_lifetime_ms : ℕ
invitation_lifetime_ms = 259200000

abbrev pub is_pending : InvitationStatus → Bool
is_pending pending = true
is_pending _ = false

abbrev pub invitation_event :
    Text → AuditOutcome → Text → Option Text → Text → Text → List (Text × Value) → AuditEvent
invitation_event action outcome user_id resource_id organization_id request_id metadata = record {
  actor_user_id = some user_id;
  action = action;
  resource_type = text "invitation";
  resource_id = resource_id;
  organization_id = some organization_id;
  outcome = outcome;
  request_id = request_id;
  metadata = metadata;
}

abbrev pub record_invitation_event : AuditEvent → InvitationTables → InvitationTables
record_invitation_event event db = record db { tables = record_event event db.tables }

abbrev pub has_invitation_id : Text → Invitation → Bool
has_invitation_id invitation_id i = i.id === invitation_id

abbrev pub has_token_hash : Text → Invitation → Bool
has_token_hash token_hash i = i.token_hash === token_hash

abbrev pub has_email : Text → User → Bool
has_email email u = u.email === email

abbrev pub with_cancellation : ℕ → Invitation → Invitation
with_cancellation now i = record i { status = cancelled; cancelled_at = some now }

abbrev pub with_acceptance : ℕ → Invitation → Invitation
with_acceptance now i = record i { status = accepted; accepted_at = some now }

abbrev pub new_invitation : Text → Text → Text → OrganizationRole → Text → Text → ℕ → ℕ → Invitation
new_invitation fresh email organization_id role token_hash actor_id expires_at now = record {
  id = fresh;
  email = email;
  organization_id = organization_id;
  role = role;
  token_hash = token_hash;
  status = pending;
  invited_by_user_id = actor_id;
  expires_at = expires_at;
  accepted_at = none;
  cancelled_at = none;
  created_at = now;
}

abbrev pub cancel_event : AuditOutcome → Text → Actor → Invitation → AuditEvent
cancel_event outcome invitation_id actor i =
    invitation_event (text "invitation.cancel") outcome actor.user_id (some invitation_id)
      i.organization_id actor.request_id []

-- `cancelInvitation` from the row on
unfoldable pub cancel_found :
    Text → Actor → ℕ → InvitationTables → Option Invitation → InvitationRun (Unit {0})
unfolding can_manage
cancel_found invitation_id actor now db none = (failed invalid_invitation, db)
cancel_found invitation_id actor now db (some i) =
    if not (is_pending i.status)
    then (failed invalid_invitation, db)
    else if not (can_manage actor.user_id i.organization_id db.tables)
    then (failed forbidden, record_invitation_event (cancel_event denied invitation_id actor i) db)
    else (
      answered tt,
      record_invitation_event (cancel_event success invitation_id actor i) (record db {
        invitations =
            update (has_invitation_id invitation_id) (with_cancellation now) db.invitations;
      }),
    )

-- `cancelInvitation`
unfoldable pub cancel_invitation : Text → Actor → ℕ → InvitationTables → InvitationRun (Unit {0})
unfolding cancel_found
cancel_invitation invitation_id actor now db =
    cancel_found invitation_id actor now db (find (has_invitation_id invitation_id) db.invitations)
