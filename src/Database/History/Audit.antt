-- ===== src/Database/History/Audit.antt =====
-- packages/db/src: what the audit log holds of the calls.
use ntauth.Common.{ℕ, refl, inl, inr, not, ◌&&◌, ◌||◌, Option, none, some, Bool-cases, any, leb}
use ntauth.Text.{Text, ◌===◌, trim}
use ntauth.Database.{
  Actor, Tables, User, Organization, Membership, deleted, OrganizationStatus, OrganizationRole,
  MembershipStatus,
}
use ntauth.Database.Rows.{find}
use ntauth.Database.Users.{
  set_user_status, delete_user, change_status, erase_user, audit_denied, is_platform_admin, has_id,
  same_status, user_status, email_taken, ReversibleUserStatus,
}
use ntauth.Database.Sessions.{revoke_user_sessions}
use ntauth.Database.Organizations.{
  can_manage, can_manage_organization, name_ok, slug_ok, has_organization_id, is_membership,
  update_found, update_organization, create_organization,
}
use ntauth.Database.Organizations.Members.{
  update_membership, change_membership, removes_administrator, administrators, membership_ok,
  update_organization_member, add_organization_member, change_organization_member_role,
}
use ntauth.Database.History.{
  Call, forget, perform, IsAudited, change_user, erase, revoke, rename_organization,
  found_organization, change_member, add_member, change_role,
}

change_status-IsAudited :
    (target : Text) (status : ReversibleUserStatus) (actor : Actor) (now : ℕ) (db : Tables)
    (o : Option User)
    → IsAudited actor db (forget (change_status target status actor now db o))
unfolding change_status
change_status-IsAudited target status actor now db none = refl
change_status-IsAudited target status actor now db (some u) =
    elim (Bool-cases (same_status u.status deleted || same_status u.status (user_status status))) [
      | inl e ↦ rw e refl
      | inr e ↦ rw e (_, refl, refl, (refl, refl))
    ]

erase_user-IsAudited :
    (target : Text) (actor : Actor) (now : ℕ) (db : Tables) (o : Option User)
    → IsAudited actor db (forget (erase_user target actor now db o))
unfolding erase_user
erase_user-IsAudited target actor now db none = refl
erase_user-IsAudited target actor now db (some u) =
    elim (Bool-cases (same_status u.status deleted)) [
      | inl e ↦ rw e refl
      | inr e ↦ elim (Bool-cases (email_taken target db)) [
        | inl t ↦ rw e (rw t refl)
        | inr t ↦ rw e (rw t (_, refl, refl, (refl, refl)))
      ]
    ]

update_found-IsAudited :
    (organization_id name : Text) (status : OrganizationStatus) (actor : Actor) (now : ℕ)
    (db : Tables) (o : Option Organization)
    → IsAudited actor db (forget (update_found organization_id name status actor now db o))
unfolding update_found
update_found-IsAudited organization_id name status actor now db none = refl
update_found-IsAudited organization_id name status actor now db (some current) =
    elim (Bool-cases (can_manage actor.user_id organization_id db)) [
      | inl e ↦ elim (Bool-cases (name_ok (trim name))) [
        | inl k ↦ rw e (rw k (_, refl, refl, (refl, refl)))
        | inr k ↦ rw e (rw k refl)
      ]
      | inr e ↦ rw e (_, refl, refl, (refl, refl))
    ]

update_membership-IsAudited :
    (organization_id : Text) (role : OrganizationRole) (status : MembershipStatus) (user_id : Text)
    (actor : Actor) (now : ℕ) (db : Tables) (o : Option Membership)
    → IsAudited actor db
        (forget (update_membership organization_id role status user_id actor now db o))
unfolding update_membership
update_membership-IsAudited organization_id role status user_id actor now db none = refl
update_membership-IsAudited organization_id role status user_id actor now db (some current) =
    elim (Bool-cases
      (removes_administrator current role status && leb (administrators organization_id db) 1)) [
        | inl e ↦ rw e refl
        | inr e ↦ rw e (_, refl, refl, (refl, refl))
      ]

change_membership-IsAudited :
    (organization_id : Text) (role : OrganizationRole) (user_id : Text) (actor : Actor) (now : ℕ)
    (db : Tables) (o : Option Membership)
    → IsAudited actor db (forget (change_membership organization_id role user_id actor now db o))
unfolding change_membership
change_membership-IsAudited organization_id role user_id actor now db none = refl
change_membership-IsAudited organization_id role user_id actor now db (some current) =
    (_, refl, refl, (refl, refl))

-- Every call adds exactly one event to the audit log, which names the actor and the request, if it
-- succeeds or is refused for want of authorization; a refused call changes nothing else, and a call
-- that fails in another way changes nothing at all.
pub perform-IsAudited :
    (call : Call) (actor : Actor) (now : ℕ) (db : Tables)
    → IsAudited actor db (perform call actor now db)
unfolding perform set_user_status delete_user revoke_user_sessions update_organization
    create_organization update_organization_member add_organization_member
    change_organization_member_role audit_denied
perform-IsAudited (change_user target status) actor now db =
    elim (Bool-cases (is_platform_admin actor.user_id db)) [
      | inl e ↦
          rw e (change_status-IsAudited target status actor now db (find (has_id target) db.users))
      | inr e ↦ rw e (_, refl, refl, (refl, refl))
    ]
perform-IsAudited (erase target) actor now db =
    elim (Bool-cases (is_platform_admin actor.user_id db)) [
      | inl e ↦ rw e (erase_user-IsAudited target actor now db (find (has_id target) db.users))
      | inr e ↦ rw e (_, refl, refl, (refl, refl))
    ]
perform-IsAudited (revoke reason target) actor now db =
    elim (Bool-cases (is_platform_admin actor.user_id db)) [
      | inl e ↦ rw e (_, refl, refl, (refl, refl))
      | inr e ↦ rw e (_, refl, refl, (refl, refl))
    ]
perform-IsAudited (rename_organization organization_id name status) actor now db =
    update_found-IsAudited organization_id name status actor now db
      (find (has_organization_id organization_id) db.organizations)
perform-IsAudited (found_organization fresh name slug) actor now db =
    elim (Bool-cases (can_manage_organization actor.user_id none db)) [
      | inl e ↦
          elim (Bool-cases (
            any (λ o. o.id === fresh || o.slug === slug) db.organizations
            || not (name_ok name && slug_ok slug))) [
              | inl k ↦ rw e (rw k refl)
              | inr k ↦ rw e (rw k (_, refl, refl, (refl, refl)))
            ]
      | inr e ↦ rw e (_, refl, refl, (refl, refl))
    ]
perform-IsAudited (change_member organization_id role status user_id) actor now db =
    elim (Bool-cases (any (has_organization_id organization_id) db.organizations)) [
      | inl e ↦ elim (Bool-cases (can_manage actor.user_id organization_id db)) [
        | inl c ↦ rw e (
            rw c (
              update_membership-IsAudited organization_id role status user_id actor now db
                (find (is_membership organization_id user_id) db.members)))
        | inr c ↦ rw e (rw c (_, refl, refl, (refl, refl)))
      ]
      | inr e ↦ rw e refl
    ]
perform-IsAudited (add_member fresh organization_id role user_id) actor now db =
    elim (Bool-cases (can_manage_organization actor.user_id (some organization_id) db)) [
      | inl e ↦ elim (Bool-cases (membership_ok fresh organization_id user_id db)) [
        | inl k ↦ rw e (rw k (_, refl, refl, (refl, refl)))
        | inr k ↦ rw e (rw k refl)
      ]
      | inr e ↦ rw e (_, refl, refl, (refl, refl))
    ]
perform-IsAudited (change_role organization_id role user_id) actor now db =
    elim (Bool-cases (can_manage_organization actor.user_id (some organization_id) db)) [
      | inl e ↦ rw e (
          change_membership-IsAudited organization_id role user_id actor now db
            (find (is_membership organization_id user_id) db.members))
      | inr e ↦ rw e (_, refl, refl, (refl, refl))
    ]
