-- ===== src/Invitations/Create.antt =====
-- packages/db/src/invitations.ts: creating an invitation, and showing it to who has its token.
use ntauth.Common.{
  ℕ, ◌+◌, Bool, not, ◌&&◌, ◌||◌, Option, none, some, List, [], ◌∷◌, ◌++◌, if◌then◌else◌, any, leb,
  ltb, length, ◌==◌,
}
use ntauth.Text.{Text, text, trim}
use ntauth.Json.{string, object, field, no_fields}
use ntauth.Database.{Organization, OrganizationRole, Actor, denied, success}
use ntauth.Database.Rows.{find}
use ntauth.Database.Users.{has_id}
use ntauth.Database.Organizations.{can_manage, has_organization_id}
use ntauth.Database.Organizations.Members.{role_text}
use ntauth.Worker.Queue.{Job, NewJob, new_job, has_key, has_job_id}
use ntauth.Invitations.{
  Invitation, InvitationTables, forbidden, invalid_invitation, violated, invalid_url, Answer,
  answered, failed, InvitationRun, invitation_lifetime_ms, is_pending, invitation_event,
  record_invitation_event, has_invitation_id, has_token_hash, new_invitation,
}

-- What `createInvitation` takes, and the identifiers of the rows that it inserts.
pub record InvitationInput : Type 0 where
  pub email : Text
  pub invitation_base_url : Text
  pub organization_id : Text
  pub role : OrganizationRole
  pub token : Text
  pub fresh_invitation : Text
  pub fresh_job : Text

pub record Created : Type 0 where
  pub expires_at : ℕ
  pub id : Text
  pub token : Text

pub record Preview : Type 0 where
  pub email : Text
  pub expires_at : ℕ
  pub organization_name : Text
  pub role : OrganizationRole

abbrev pub invitation_job : Text → Text → Text → NewJob
invitation_job invitation_id email url = record {
  type_name = text "email";
  deduplication_key = some (text "invitation:" ++ invitation_id);
  payload = object (
      field (text "subject") (string (text "Invitation NTAuth")) (
        field (text "text") (string (text "Accept your invitation: " ++ url))
          (field (text "to") (string email) no_fields)));
  max_attempts = some 5;
}

-- the indexes, the foreign keys and the checks of a new row
abbrev pub invitation_ok : Bool → Invitation → InvitationTables → Bool
invitation_ok normalized i db =
    not (any (λ j. has_invitation_id i.id j || has_token_hash i.token_hash j) db.invitations)
    && any (has_organization_id i.organization_id) db.tables.organizations
    && any (has_id i.invited_by_user_id) db.tables.users
    && normalized
    && leb (length i.email) 320
    && length i.token_hash == 64

-- the indexes of a new job
abbrev pub job_ok : Text → Text → List Job → Bool
job_ok fresh key jobs = not (any (λ j. has_job_id fresh j || has_key key j) jobs)

-- `createInvitation` from the address on; `new URL` throws where there is no address.
abbrev pub insert_with :
    InvitationInput
    → Invitation
    → Actor
    → ℕ
    → InvitationTables
    → Option Text
    → InvitationRun Created
insert_with input i actor now db none = (failed invalid_url, db)
insert_with input i actor now db (some address) =
    if not (job_ok input.fresh_job (text "invitation:" ++ i.id) db.jobs)
    then (failed violated, db)
    else (
      answered record { expires_at = i.expires_at; id = i.id; token = input.token },
      record_invitation_event
          (invitation_event (text "invitation.create") success actor.user_id (some i.id)
            i.organization_id actor.request_id
            ((text "email", string i.email) ∷ (text "role", string (role_text i.role)) ∷ []))
          (record db {
            invitations = db.invitations ++ i ∷ [];
            jobs =
                db.jobs ++ new_job input.fresh_job (invitation_job i.id i.email address) now ∷ [];
          }),
    )

-- `createInvitation` from the insertion on
abbrev pub insert_invitation :
    InvitationInput
    → Bool
    → Invitation
    → Actor
    → ℕ
    → InvitationTables
    → Option Text
    → InvitationRun Created
insert_invitation input normalized i actor now db url =
    if not (invitation_ok normalized i db)
    then (failed violated, db)
    else insert_with input i actor now db url

-- `hashInvitationToken` is SHA-256 in hexadecimal digits, `normalized` the check that an address is
-- `lower(trim(email))` of the database, and `accept_url` the address with the parameter `token`.
module _ (to_lower_case : Text → Text) (hash : Text → Text) (normalized : Text → Bool)
    (accept_url : Text → Text → Option Text) where
  -- `createInvitation`
  unfoldable pub create_invitation :
      InvitationInput → Actor → ℕ → InvitationTables → InvitationRun Created
  unfolding can_manage trim
  create_invitation input actor now db =
      let email = to_lower_case (trim input.email) in
      let row =
        new_invitation input.fresh_invitation email input.organization_id input.role
          (hash input.token) actor.user_id (now + invitation_lifetime_ms) now in
      if not (can_manage actor.user_id input.organization_id db.tables)
      then (
        failed forbidden,
        record_invitation_event
            (invitation_event (text "invitation.create") denied actor.user_id none
              input.organization_id actor.request_id ((text "email", string email) ∷ []))
            db,
      )
      else insert_invitation input (normalized email) row actor now db
          (accept_url input.invitation_base_url input.token)

-- `getInvitationPreview` from the row on
abbrev pub preview_of : Invitation → Option Organization → Answer Preview
preview_of i none = failed invalid_invitation
preview_of i (some o) =
    answered record {
      email = i.email;
      expires_at = i.expires_at;
      organization_name = o.name;
      role = i.role;
    }

-- The preview takes the same hash.
module _ (hash : Text → Text) where
  -- `getInvitationPreview`
  unfoldable pub get_invitation_preview : Text → ℕ → InvitationTables → Answer Preview
  get_invitation_preview token now db =
      elim (find (λ i. has_token_hash (hash token) i && is_pending i.status && ltb now i.expires_at)
        db.invitations) [
          | none ↦ failed invalid_invitation
          | some i ↦
              preview_of i (find (has_organization_id i.organization_id) db.tables.organizations)
        ]
