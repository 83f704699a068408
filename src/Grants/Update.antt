-- ===== src/Grants/Update.antt =====
-- packages/db/src/service-grants.ts: switching a grant on and off, and revoking it.
use ntauth.Common.{ℕ, Bool, not, Option, none, some, ◌∷◌, if◌then◌else◌, any}
use ntauth.Text.{Text, text}
use ntauth.Json.{bool}
use ntauth.Database.{Actor, returned, thrown, not_found, constraint, success}
use ntauth.Database.Rows.{find, update}
use ntauth.Database.Users.{has_id}
use ntauth.Policies.{grant_active, grant_inactive, grant_revoked}
use ntauth.Grants.{
  GrantRun, GrantTables, ServiceGrant, can_manage_grants, deny_grant, grant_event, has_grant_id,
  is_revoked, record_grant_event, subject_data,
}

abbrev pub with_active : Bool → ℕ → ServiceGrant → ServiceGrant
with_active chosen now g = record g {
  status = if chosen then grant_active else grant_inactive;
  updated_at = now;
}

-- `setServiceGrantActive` from the row that `loadGrant` gives on
unfoldable pub set_loaded_active :
    Bool → Text → Actor → ℕ → GrantTables → Option ServiceGrant → GrantRun ServiceGrant
unfolding can_manage_grants
set_loaded_active chosen grant_id actor now db none = (thrown not_found, db)
set_loaded_active chosen grant_id actor now db (some current) =
    if not (can_manage_grants actor.user_id current.organization_id db.tables)
    then deny_grant (text "service-grant.status.change") (some current.id) current.organization_id
        (some current.service) (some current.user_id) actor db
    else if is_revoked current.status
    then (thrown not_found, db)
    else (
      returned (with_active chosen now current),
      record_grant_event
          (grant_event (text "service-grant.status.change") success current.organization_id
            (some current.id) actor
            ((text "active", bool chosen) ∷ subject_data current.service current.user_id))
          (record db {
            grants = update (has_grant_id grant_id) (with_active chosen now) db.grants;
          }),
    )

-- `setServiceGrantActive`
unfoldable pub set_service_grant_active :
    Bool → Text → Actor → ℕ → GrantTables → GrantRun ServiceGrant
unfolding set_loaded_active
set_service_grant_active chosen grant_id actor now db =
    set_loaded_active chosen grant_id actor now db (find (has_grant_id grant_id) db.grants)

abbrev pub with_revocation : Actor → ℕ → ServiceGrant → ServiceGrant
with_revocation actor now g = record g {
  revoked_at = some now;
  revoked_by_user_id = some actor.user_id;
  status = grant_revoked;
  updated_at = now;
}

-- `revokeServiceGrant` from the row that `loadGrant` gives on
unfoldable pub revoke_loaded :
    Text → Actor → ℕ → GrantTables → Option ServiceGrant → GrantRun ServiceGrant
unfolding can_manage_grants
revoke_loaded grant_id actor now db none = (thrown not_found, db)
revoke_loaded grant_id actor now db (some current) =
    if not (can_manage_grants actor.user_id current.organization_id db.tables)
    then deny_grant (text "service-grant.revoke") (some current.id) current.organization_id
        (some current.service) (some current.user_id) actor db
    else if is_revoked current.status
    then (returned current, db)
    else if not (any (has_id actor.user_id) db.tables.users)
    then (thrown constraint, db)
    else (
      returned (with_revocation actor now current),
      record_grant_event
          (grant_event (text "service-grant.revoke") success current.organization_id
            (some current.id) actor (subject_data current.service current.user_id))
          (record db {
            grants = update (has_grant_id grant_id) (with_revocation actor now) db.grants;
          }),
    )

-- `revokeServiceGrant`
unfoldable pub revoke_service_grant : Text → Actor → ℕ → GrantTables → GrantRun ServiceGrant
unfolding revoke_loaded
revoke_service_grant grant_id actor now db =
    revoke_loaded grant_id actor now db (find (has_grant_id grant_id) db.grants)
