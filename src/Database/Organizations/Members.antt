-- ===== src/Database/Organizations/Members.antt =====
-- packages/db/src/organizations.ts: the members of an organization.
use ntauth.Common.{
  ℕ, Bool, not, ◌&&◌, ◌||◌, Option, none, some, List, [], ◌∷◌, ◌++◌, if◌then◌else◌, any, filter,
  length, leb,
}
use ntauth.Text.{Text, text, ◌===◌}
use ntauth.Json.{Value, string}
use ntauth.Database.{
  Membership, OrganizationRole, admin, member, owner, MembershipStatus, member_active,
  member_suspended, Actor, Tables, Run, returned, thrown, not_found, conflict, membership_missing,
  constraint, AuditEvent, AuditOutcome, denied, success, record_event, deny,
}
use ntauth.Database.Rows.{find, update}
use ntauth.Database.Users.{has_id}
use ntauth.Database.Organizations.{
  administers, administers_in, is_membership, is_active_status, is_administrator_role, can_manage,
  can_manage_organization, has_organization_id,
}

abbrev pub role_text : OrganizationRole → Text
role_text admin = text "admin"
role_text member = text "member"
role_text owner = text "owner"

abbrev pub membership_status_text : MembershipStatus → Text
membership_status_text member_active = text "active"
membership_status_text member_suspended = text "suspended"

abbrev pub member_event :
    Text → AuditOutcome → Text → Text → Actor → List (Text × Value) → AuditEvent
member_event action outcome resource_id organization_id actor metadata = record {
  actor_user_id = some actor.user_id;
  action = action;
  resource_type = text "organization_member";
  resource_id = some resource_id;
  organization_id = some organization_id;
  outcome = outcome;
  request_id = actor.request_id;
  metadata = metadata;
}

abbrev pub with_members : List Membership → Tables → Tables
with_members rows db = record db { members = rows }

abbrev pub with_role : OrganizationRole → MembershipStatus → ℕ → Membership → Membership
with_role role status now m = record {
  id = m.id;
  organization_id = m.organization_id;
  user_id = m.user_id;
  role = role;
  status = status;
  updated_at = now;
}

-- `removesAdministrator`
unfoldable pub removes_administrator : Membership → OrganizationRole → MembershipStatus → Bool
removes_administrator current role status =
    administers current && (not (is_active_status status) || not (is_administrator_role role))

-- `select count(*)` of the active administrators
abbrev pub administrators : Text → Tables → ℕ
administrators organization_id db = length (filter (administers_in organization_id) db.members)

-- `updateOrganizationMember` from the row of the membership on
unfoldable pub update_membership :
    Text
    → OrganizationRole
    → MembershipStatus
    → Text
    → Actor
    → ℕ
    → Tables
    → Option Membership
    → Run Membership
unfolding removes_administrator
update_membership organization_id role status user_id actor now db none = (thrown not_found, db)
update_membership organization_id role status user_id actor now db (some current) =
    if removes_administrator current role status && leb (administrators organization_id db) 1
    then (thrown conflict, db)
    else (
      returned (with_role role status now current),
      record_event
          (member_event (text "organization.member.update") success user_id organization_id actor (
            (text "role", string (role_text role))
            ∷ (text "status", string (membership_status_text status))
            ∷ []))
          (with_members
            (update (is_membership organization_id user_id) (with_role role status now) db.members)
            db),
    )

-- `updateOrganizationMember`
unfoldable pub update_organization_member :
    Text → OrganizationRole → MembershipStatus → Text → Actor → ℕ → Tables → Run Membership
unfolding can_manage update_membership
update_organization_member organization_id role status user_id actor now db =
    if not (any (has_organization_id organization_id) db.organizations)
    then (thrown not_found, db)
    else if not (can_manage actor.user_id organization_id db)
    then deny
        (member_event (text "organization.member.update") denied user_id organization_id actor [])
        db
    else update_membership organization_id role status user_id actor now db
        (find (is_membership organization_id user_id) db.members)

-- The metadata of `addOrganizationMember` and `changeOrganizationMemberRole`.
abbrev pub role_data : OrganizationRole → Text → List (Text × Value)
role_data role user_id =
    (text "role", string (role_text role)) ∷ (text "targetUserId", string user_id) ∷ []

-- The unique index, the primary key and the foreign keys of a new membership.
unfoldable pub membership_ok : Text → Text → Text → Tables → Bool
membership_ok fresh organization_id user_id db =
    not (any (λ m. m.id === fresh || is_membership organization_id user_id m) db.members)
    && any (has_organization_id organization_id) db.organizations
    && any (has_id user_id) db.users

-- The row that `addOrganizationMember` inserts; the status is the column's default.
abbrev pub new_membership : Text → Text → OrganizationRole → Text → ℕ → Membership
new_membership fresh organization_id role user_id now = record {
  id = fresh;
  organization_id = organization_id;
  user_id = user_id;
  role = role;
  status = member_active;
  updated_at = now;
}

-- `addOrganizationMember`
unfoldable pub add_organization_member :
    Text → Text → OrganizationRole → Text → Actor → ℕ → Tables → Run Membership
unfolding can_manage_organization membership_ok
add_organization_member fresh organization_id role user_id actor now db =
    let row = new_membership fresh organization_id role user_id now in
    let action = text "organization.member.add" in
    if not (can_manage_organization actor.user_id (some organization_id) db)
    then deny (member_event action denied user_id organization_id actor (role_data role user_id)) db
    else if not (membership_ok fresh organization_id user_id db)
    then (thrown constraint, db)
    else (
      returned row,
      record_event
          (member_event action success fresh organization_id actor (role_data role user_id))
          (with_members (db.members ++ row ∷ []) db),
    )

-- `changeOrganizationMemberRole` from the update on, which keeps the status
unfoldable pub change_membership :
    Text → OrganizationRole → Text → Actor → ℕ → Tables → Option Membership → Run Membership
change_membership organization_id role user_id actor now db none = (thrown membership_missing, db)
change_membership organization_id role user_id actor now db (some current) = (
  returned (with_role role current.status now current),
  record_event
      (member_event (text "organization.member.role.change") success current.id organization_id
        actor (role_data role user_id))
      (with_members
        (update (is_membership organization_id user_id) (λ m. with_role role m.status now m)
          db.members)
        db),
)

-- `changeOrganizationMemberRole`
unfoldable pub change_organization_member_role :
    Text → OrganizationRole → Text → Actor → ℕ → Tables → Run Membership
unfolding can_manage_organization change_membership
change_organization_member_role organization_id role user_id actor now db =
    if not (can_manage_organization actor.user_id (some organization_id) db)
    then deny
        (member_event (text "organization.member.role.change") denied user_id organization_id actor
          (role_data role user_id))
        db
    else change_membership organization_id role user_id actor now db
        (find (is_membership organization_id user_id) db.members)
