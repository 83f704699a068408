-- ===== src/Database/Tests.antt =====
-- Runs of the administration of users and organizations on small tables, and its theorems at such
-- tables.
use ntauth.Common.{◌≤◌, ◌≡◌, refl, true, none, some, [], ◌∷◌, arith}
use ntauth.Text.{Text, text, ◌===◌, code_points, split, trim}
use ntauth.Database.{
  User, active, organization_active, platform_admin, owner, member, member_active, Tables, Actor,
  thrown, conflict, Returns,
}
use ntauth.Database.Rows.{find}
use ntauth.Database.Users.{
  to_active, to_suspended, set_user_status, change_status, delete_user, erase_user,
  is_platform_admin, same_status, email_taken, audit_denied, has_id, is_user_active,
}
use ntauth.Database.Users.Deletion.{delete_user-IsErased, IsErased}
use ntauth.Database.Sessions.{revoke_user_sessions}
use ntauth.Database.Organizations.{
  can_manage, can_manage_organization, name_ok, slug_ok, update_found, update_organization,
  create_organization,
}
use ntauth.Database.Organizations.Members.{
  administrators, membership_ok, update_membership, change_membership, removes_administrator,
  update_organization_member, add_organization_member, change_organization_member_role,
}
use ntauth.Database.Organizations.Administrators.{
  IsIndexed, update_organization_member-administrators,
  change_organization_member_role-administrators,
}
use ntauth.Database.History.{
  Call, perform, start, later, IsAudited, add_member, change_user, erase, found_organization,
}
use ntauth.Database.History.Audit.{perform-IsAudited}
use ntauth.Database.History.Deleted.{IsDeleted, Reaches-IsDeleted}
use ntauth.Database.History.Indexed.{Reaches-IsIndexed}

abbrev root : Actor
root = record { request_id = text "r-1"; user_id = text "root" }

abbrev ann : Text
ann = text "ann"

abbrev acme : Text
acme = text "acme"

abbrev user_named : Text → User
user_named user_id = record {
  id = user_id;
  name = user_id;
  email = user_id;
  email_verified = true;
  image = none;
  status = active;
  status_changed_at = none;
  deleted_at = none;
  updated_at = 0;
}

-- Three users, of whom one is a platform administrator, and an organization without members.
abbrev base : Tables
base = record {
  users = user_named (text "root") ∷ user_named ann ∷ user_named (text "bob") ∷ [];
  sessions =
      record { id = text "s-1"; token = text "t-1"; user_id = ann; expires_at = 9 }
      ∷ record { id = text "s-2"; token = text "t-2"; user_id = text "bob"; expires_at = 9 }
      ∷ [];
  accounts = [];
  organizations =
      record { id = acme; name = acme; slug = acme; status = organization_active; updated_at = 0 }
      ∷ [];
  members = [];
  assignments = record { user_id = text "root"; role = platform_admin } ∷ [];
  audit_events = [];
}

-- Ann owns the organization.
abbrev add_ann : Call
add_ann = add_member (text "m-1") acme owner ann

abbrev owned : Tables
owned = (perform add_ann root 1 base).1

run : Unit {0}
unfolding ◌===◌ code_points split trim set_user_status change_status delete_user erase_user
    is_platform_admin same_status email_taken audit_denied is_user_active revoke_user_sessions
    can_manage can_manage_organization name_ok slug_ok update_found update_organization
    create_organization membership_ok update_membership change_membership removes_administrator
    update_organization_member add_organization_member change_organization_member_role perform
run = tt

owned_by_ann : administrators acme owned ≡ 1
unfolding run
owned_by_ann = refl

-- The last active administrator is neither suspended nor demoted by `updateOrganizationMember`.
kept : (update_organization_member acme member member_active ann root 2 owned).0 ≡ thrown conflict
unfolding run
kept = refl

founded :
    (perform (found_organization (text "o-2") (text "Two") (text "two-2")) root 2 owned).0
    ≡ (perform add_ann root 1 base).0
unfolding run
founded = refl

base-IsIndexed : IsIndexed base
base-IsIndexed organization_id user_id = omega arith

owned-IsIndexed : IsIndexed owned
owned-IsIndexed = Reaches-IsIndexed (later add_ann root 1 start) base-IsIndexed

update_organization_member-administrators_example :
    1
    ≤ administrators acme (update_organization_member acme member member_active ann root 2 owned).1
unfolding run
update_organization_member-administrators_example =
    update_organization_member-administrators owned owned-IsIndexed acme ann acme member
      member_active root 2 (omega arith)

change_organization_member_role-administrators_example :
    administrators acme (change_organization_member_role acme member ann root 2 owned).1 ≡ 0
unfolding run
change_organization_member_role-administrators_example =
    change_organization_member_role-administrators owned owned-IsIndexed acme ann root 2 _ refl refl
      refl refl

abbrev suspend_ann : Call
suspend_ann = change_user ann to_suspended

erased_ann : Returns (delete_user ann root 2 owned)
unfolding run
erased_ann = tt

delete_user-IsErased_example :
    (u : User) × (find (has_id ann) owned.users ≡ some u)
    × IsErased ann 2 owned (delete_user ann root 2 owned).1
delete_user-IsErased_example = delete_user-IsErased ann root 2 owned erased_ann

perform-IsAudited_example : IsAudited root owned (perform suspend_ann root 2 owned)
perform-IsAudited_example = perform-IsAudited suspend_ann root 2 owned

-- Ann is deleted.
abbrev erased : Tables
erased = (perform (erase ann) root 2 owned).1

erased-IsDeleted : IsDeleted ann erased
unfolding run
erased-IsDeleted = refl

Reaches-IsDeleted_example : IsDeleted ann (perform (change_user ann to_active) root 3 erased).1
Reaches-IsDeleted_example =
    Reaches-IsDeleted ann (later (change_user ann to_active) root 3 start) erased-IsDeleted
