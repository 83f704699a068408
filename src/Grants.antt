-- ===== src/Grants.antt =====
-- packages/db/src/service-grants.ts: which members of an organization may use a service. Each
-- function is one transaction; the database's clock and the caller's are one argument, `now`, and the
-- identifier of a new row is an argument, `fresh`. Identifiers are compared in their canonical form.
pub mod Update
pub mod Calls
pub mod Outcome
pub mod Changes
pub mod Current
pub mod Revoked
mod Tests
use ntauth.Common.{
  ℕ, Bool, true, false, not, ◌&&◌, ◌||◌, Option, none, some, List, [], ◌∷◌, ◌++◌, if◌then◌else◌,
  any, all, filter, length, leb, ◌==◌,
}
use ntauth.Text.{Text, text, ◌===◌}
use ntauth.Json.{Value, string, bool, null}
use ntauth.Database.{
  Tables, Actor, Result, returned, thrown, unauthorized, not_found, conflict, constraint,
  AuditEvent, AuditOutcome, denied, success, record_event,
}
use ntauth.Database.Rows.{find, update}
use ntauth.Database.Users.{is_platform_admin, has_id}
use ntauth.Database.Organizations.{is_membership, is_active_status, is_administrator_role}
use ntauth.Policies.{
  Service, ServiceGrantStatus, grant_active, grant_inactive, grant_revoked, is_active_organization,
  is_active_service, is_active_grant,
}

-- the table `service_grants`
pub record ServiceGrant : Type 0 where
  pub id : Text
  pub organization_id : Text
  pub service : Text
  pub user_id : Text
  pub status : ServiceGrantStatus
  pub created_by_user_id : Text
  pub revoked_by_user_id : Option Text
  pub revoked_at : Option ℕ
  pub created_at : ℕ
  pub updated_at : ℕ

pub record GrantTables : Type 0 where
  pub tables : Tables
  pub services : List Service
  pub grants : List ServiceGrant

abbrev pub GrantRun {ℓ} : Type ℓ → Type ℓ
GrantRun A = Result A × GrantTables

abbrev lower : ℕ → Bool
lower c = leb 97 c && leb c 122

abbrev service_unit : ℕ → Bool
service_unit c = lower c || (leb 48 c && leb c 57) || c == 45

-- `validService`
unfoldable pub valid_service : Text → Bool
valid_service [] = false
valid_service (c ∷ rest) = lower c && all service_unit rest && leb (length rest) 62

-- The organization of a membership is active, as the joins ask.
abbrev pub active_organization : Text → Tables → Bool
active_organization organization_id db =
    any (λ o. o.id === organization_id && is_active_organization o.status) db.organizations

-- `canManage`
unfoldable pub can_manage_grants : Text → Text → Tables → Bool
unfolding is_platform_admin
can_manage_grants actor_id organization_id db =
    is_platform_admin actor_id db
    || any
        (λ m.
          active_organization m.organization_id db
          && is_membership organization_id actor_id m
          && is_active_status m.status
          && is_administrator_role m.role)
        db.members

-- `targetBelongsToOrganization`
unfoldable pub target_belongs_to_organization : Text → Text → Tables → Bool
target_belongs_to_organization organization_id user_id db =
    any
      (λ m.
        active_organization m.organization_id db
        && is_membership organization_id user_id m
        && is_active_status m.status)
      db.members

abbrev pub grant_event :
    Text → AuditOutcome → Text → Option Text → Actor → List (Text × Value) → AuditEvent
grant_event action outcome organization_id resource_id actor metadata = record {
  actor_user_id = some actor.user_id;
  action = action;
  resource_type = text "service_grant";
  resource_id = resource_id;
  organization_id = some organization_id;
  outcome = outcome;
  request_id = actor.request_id;
  metadata = metadata;
}

abbrev pub record_grant_event : AuditEvent → GrantTables → GrantTables
record_grant_event event db = record db { tables = record_event event db.tables }

abbrev pub or_null : Option Text → Value
or_null none = null
or_null (some s) = string s

-- `auditDenied`, and the error that the callers throw then
abbrev pub deny_grant {ℓ} :
    {A : Type ℓ}
    → Text
    → Option Text
    → Text
    → Option Text
    → Option Text
    → Actor
    → GrantTables
    → GrantRun A
deny_grant action grant_id organization_id service user_id actor db = (
  thrown unauthorized,
  record_grant_event
      (grant_event action denied organization_id grant_id actor
        ((text "service", or_null service) ∷ (text "targetUserId", or_null user_id) ∷ []))
      db,
)

abbrev pub is_revoked : ServiceGrantStatus → Bool
is_revoked grant_revoked = true
is_revoked _ = false

-- The grant is for the user, at the service, in the organization.
abbrev pub is_subject : Text → Text → Text → ServiceGrant → Bool
is_subject organization_id service user_id g =
    g.organization_id === organization_id && g.service === service && g.user_id === user_id

-- A row of the partial unique index.
abbrev pub is_current_grant : Text → Text → Text → ServiceGrant → Bool
is_current_grant organization_id service user_id g =
    is_subject organization_id service user_id g && not (is_revoked g.status)

-- `hasActiveServiceGrant`
unfoldable pub has_active_service_grant : Text → Text → Text → GrantTables → Bool
unfolding valid_service
has_active_service_grant organization_id service user_id db =
    valid_service service
    && any
        (λ g.
          is_subject organization_id service user_id g
          && is_active_grant g.status
          && any (λ m. is_membership g.organization_id g.user_id m && is_active_status m.status)
              db.tables.members
          && active_organization g.organization_id db.tables)
        db.grants

abbrev pub has_grant_id : Text → ServiceGrant → Bool
has_grant_id grant_id g = g.id === grant_id

-- the status that `createServiceGrant` inserts
abbrev pub initial_status : Option Bool → ServiceGrantStatus
initial_status (some false) = grant_inactive
initial_status _ = grant_active

abbrev pub new_grant : Text → Option Bool → Text → Text → Text → Actor → ℕ → ServiceGrant
new_grant fresh chosen organization_id service user_id actor now = record {
  id = fresh;
  organization_id = organization_id;
  service = service;
  user_id = user_id;
  status = initial_status chosen;
  created_by_user_id = actor.user_id;
  revoked_by_user_id = none;
  revoked_at = none;
  created_at = now;
  updated_at = now;
}

abbrev pub subject_data : Text → Text → List (Text × Value)
subject_data service user_id =
    (text "service", string service) ∷ (text "targetUserId", string user_id) ∷ []

-- `createServiceGrant`; a violated unique index is the code 23505, which it throws as a conflict.
unfoldable pub create_service_grant :
    Text → Option Bool → Text → Text → Text → Actor → ℕ → GrantTables → GrantRun ServiceGrant
unfolding valid_service can_manage_grants target_belongs_to_organization
create_service_grant fresh chosen organization_id service user_id actor now db =
    let row = new_grant fresh chosen organization_id service user_id actor now in
    if not (valid_service service)
    then (thrown conflict, db)
    else if not (can_manage_grants actor.user_id organization_id db.tables)
        || not (target_belongs_to_organization organization_id user_id db.tables)
    then deny_grant (text "service-grant.create") none organization_id (some service) (some user_id)
        actor db
    else if not (any (λ s. s.key === service && is_active_service s.status) db.services)
        || any (is_current_grant organization_id service user_id) db.grants
        || any (has_grant_id fresh) db.grants
    then (thrown conflict, db)
    else if not (any (has_id user_id) db.tables.users && any (has_id actor.user_id) db.tables.users)
    then (thrown constraint, db)
    else (
      returned row,
      record_grant_event
          (grant_event (text "service-grant.create") success organization_id (some fresh) actor
            (subject_data service user_id))
          (record db { grants = db.grants ++ row ∷ [] }),
    )

-- a condition that is `undefined` where its value is missing or empty
abbrev pub unless_given : Option Text → Text → Bool
unless_given none column = true
unless_given (some []) column = true
unless_given (some (c ∷ rest)) column = column === (c ∷ rest)

-- `listServiceGrants`
unfoldable pub list_service_grants :
    Text → Option Text → Option Text → Actor → GrantTables → GrantRun (List ServiceGrant)
unfolding can_manage_grants
list_service_grants organization_id service user_id actor db =
    if not (can_manage_grants actor.user_id organization_id db.tables)
    then deny_grant (text "service-grant.list") none organization_id service user_id actor db
    else (
      returned (
          filter
            (λ g.
              g.organization_id === organization_id
              && unless_given service g.service
              && unless_given user_id g.user_id)
            db.grants),
      db,
    )

-- The call gives a value and throws nothing.
abbrev pub ReturnsGrant {ℓ} : {A : Type ℓ} → GrantRun A → Type 0
ReturnsGrant (returned _, _) = Unit
ReturnsGrant (thrown _, _) = ⊥
