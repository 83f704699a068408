-- ===== src/Database/Organizations.antt =====
-- packages/db/src/organizations.ts: organizations and their members. Each function is one
-- transaction. The listing of organizations and their detail page are left out, and identifiers are
-- compared in their canonical form. The identifier of a new row is an argument, `fresh`.
pub mod Members
pub mod Administrators
use ntauth.Common.{
  ℕ, Bool, true, false, not, ◌&&◌, ◌||◌, Option, none, some, List, [], ◌∷◌, ◌++◌, if◌then◌else◌,
  any, all, filter, length, leb, ◌==◌,
}
use ntauth.Text.{Text, text, ◌===◌, trim, code_points, split}
use ntauth.Json.{Value, string}
use ntauth.Database.{
  Organization, OrganizationStatus, organization_active, organization_suspended, Membership, Actor,
  Tables, Run, returned, thrown, not_found, constraint, AuditEvent, AuditOutcome, denied, success,
  record_event, deny, OrganizationRole, admin, member, owner, MembershipStatus, member_active,
  member_suspended,
}
use ntauth.Database.Rows.{find, update}
use ntauth.Database.Users.{is_platform_admin}

abbrev pub is_administrator_role : OrganizationRole → Bool
is_administrator_role admin = true
is_administrator_role owner = true
is_administrator_role member = false

abbrev pub is_active_status : MembershipStatus → Bool
is_active_status member_active = true
is_active_status member_suspended = false

-- An active membership that administers its organization.
abbrev pub administers : Membership → Bool
administers m = is_active_status m.status && is_administrator_role m.role

abbrev pub in_organization : Text → Membership → Bool
in_organization organization_id m = m.organization_id === organization_id

abbrev pub administers_in : Text → Membership → Bool
administers_in organization_id m = in_organization organization_id m && administers m

-- The membership of a user in an organization, by the unique index on both.
abbrev pub is_membership : Text → Text → Membership → Bool
is_membership organization_id user_id m = in_organization organization_id m && m.user_id === user_id

-- `canManageOrganizationSql` with an organization, and `canManageOrganization` with a non-empty one
unfoldable pub can_manage : Text → Text → Tables → Bool
unfolding is_platform_admin
can_manage actor_id organization_id db =
    is_platform_admin actor_id db
    || any (λ m. is_membership organization_id actor_id m && administers m) db.members

-- `canManageOrganization`
unfoldable pub can_manage_organization : Text → Option Text → Tables → Bool
unfolding is_platform_admin can_manage
can_manage_organization actor_id none db = is_platform_admin actor_id db
can_manage_organization actor_id (some organization_id) db =
    if organization_id === []
    then is_platform_admin actor_id db
    else can_manage actor_id organization_id db

abbrev pub has_organization_id : Text → Organization → Bool
has_organization_id organization_id o = o.id === organization_id

abbrev pub organization_event :
    Text → AuditOutcome → Option Text → Actor → List (Text × Value) → AuditEvent
organization_event action outcome organization_id actor metadata = record {
  actor_user_id = some actor.user_id;
  action = action;
  resource_type = text "organization";
  resource_id = organization_id;
  organization_id = organization_id;
  outcome = outcome;
  request_id = actor.request_id;
  metadata = metadata;
}

abbrev pub organization_status_text : OrganizationStatus → Text
organization_status_text organization_active = text "active"
organization_status_text organization_suspended = text "suspended"

-- `organizations_name_check`, and the width of the column
unfoldable pub name_ok : Text → Bool
name_ok name = any (λ c. not (c == 32)) name && leb (length (code_points name)) 160

abbrev pub slug_unit : ℕ → Bool
slug_unit c = (leb 97 c && leb c 122) || (leb 48 c && leb c 57)

-- `organizations_slug_check`, and the width of the column
unfoldable pub slug_ok : Text → Bool
slug_ok slug =
    all (λ part. leb 1 (length part) && all slug_unit part) (split 45 slug) && leb (length slug) 80

abbrev pub with_organizations : List Organization → Tables → Tables
with_organizations rows db = record db { organizations = rows }

abbrev pub renamed : Text → OrganizationStatus → ℕ → Organization → Organization
renamed name status now o = record {
  id = o.id;
  name = name;
  slug = o.slug;
  status = status;
  updated_at = now;
}

unfoldable pub update_found :
    Text → Text → OrganizationStatus → Actor → ℕ → Tables → Option Organization → Run Organization
unfolding can_manage name_ok trim
update_found organization_id name status actor now db none = (thrown not_found, db)
update_found organization_id name status actor now db (some current) =
    if not (can_manage actor.user_id organization_id db)
    then deny
        (organization_event (text "organization.update") denied (some organization_id) actor []) db
    else if not (name_ok (trim name))
    then (thrown constraint, db)
    else (
      returned (renamed (trim name) status now current),
      record_event
          (organization_event (text "organization.update") success (some organization_id) actor
            ((text "status", string (organization_status_text status)) ∷ []))
          (with_organizations
            (update (has_organization_id organization_id) (renamed (trim name) status now)
              db.organizations)
            db),
    )

-- `updateOrganization`
unfoldable pub update_organization :
    Text → Text → OrganizationStatus → Actor → ℕ → Tables → Run Organization
unfolding update_found
update_organization organization_id name status actor now db =
    update_found organization_id name status actor now db
      (find (has_organization_id organization_id) db.organizations)

-- `createOrganization`
unfoldable pub create_organization : Text → Text → Text → Actor → ℕ → Tables → Run Organization
unfolding can_manage_organization name_ok slug_ok
create_organization fresh name slug actor now db =
    let row : Organization = record {
      id = fresh;
      name = name;
      slug = slug;
      status = organization_active;
      updated_at = now;
    } in
    let slug_data = (text "slug", string slug) ∷ [] in
    if not (can_manage_organization actor.user_id none db)
    then deny (organization_event (text "organization.create") denied none actor slug_data) db
    else if any (λ o. o.id === fresh || o.slug === slug) db.organizations
        || not (name_ok name && slug_ok slug)
    then (thrown constraint, db)
    else (
      returned row,
      record_event
          (organization_event (text "organization.create") success (some fresh) actor slug_data)
          (with_organizations (db.organizations ++ row ∷ []) db),
    )
