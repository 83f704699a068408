-- ===== src/Database/Organizations/Administrators.antt =====
-- packages/db/src/organizations.ts: whether an organization keeps an active administrator.
use ntauth.Common.{
  ℕ, ◌≤◌, ◌+◌, ◌≡◌, refl, inl, inr, true, false, ◌&&◌, Option, none, some, arith, Bool-cases, any,
  and_iff, sym, ap, ◌∙◌, leb,
}
use ntauth.Text.{Text, ◌===◌}
use ntauth.Text.Laws.{===_iff}
use ntauth.Database.{Membership, OrganizationRole, member, MembershipStatus, Actor, Tables}
use ntauth.Database.Rows.{find, update, count, count-update, one_if, find-true}
use ntauth.Database.Organizations.{
  can_manage_organization, has_organization_id, administers, administers_in, is_membership,
  can_manage,
}
use ntauth.Database.Organizations.Members.{
  administrators, update_organization_member, update_membership, removes_administrator,
  change_organization_member_role, change_membership, with_role,
}

-- The unique index of the memberships: a user is a member of an organization at most once.
abbrev pub IsIndexed : Tables → Type 0
IsIndexed db =
    (organization_id user_id : Text) → count (is_membership organization_id user_id) db.members ≤ 1

-- What an update of one membership does to the administrators of an organization.
administrators_after :
    (db : Tables) (indexed : IsIndexed db) (organization_id user_id elsewhere : Text)
    (role : OrganizationRole) (status : MembershipStatus) (now : ℕ) (current : Membership)
    (found : find (is_membership organization_id user_id) db.members ≡ some current)
    → count
          (administers_in elsewhere)
          (update (is_membership organization_id user_id) (with_role role status now) db.members)
        + one_if (administers_in elsewhere current)
      ≡ administrators elsewhere db
        + one_if (administers_in elsewhere (with_role role status now current))
administrators_after db indexed organization_id user_id elsewhere role status now current found =
    count-update (is_membership organization_id user_id) (administers_in elsewhere)
      (with_role role status now) db.members current (indexed organization_id user_id) found

-- The membership that was found belongs to the organization.
found_in :
    (db : Tables) (organization_id user_id : Text) (current : Membership)
    → find (is_membership organization_id user_id) db.members ≡ some current
    → current.organization_id ≡ organization_id
found_in db organization_id user_id current found =
    (===_iff current.organization_id organization_id).0
      ((and_iff _ _).0
        (find-true (is_membership organization_id user_id) db.members current found)).0

-- An update that the guard lets through leaves an administrator wherever there was one.
guarded :
    (db : Tables) (indexed : IsIndexed db) (organization_id user_id elsewhere : Text)
    (role : OrganizationRole) (status : MembershipStatus) (now : ℕ) (current : Membership)
    (found : find (is_membership organization_id user_id) db.members ≡ some current)
    → (removes_administrator current role status && leb (administrators organization_id db) 1)
      ≡ false
    → 1 ≤ administrators elsewhere db
    → 1
      ≤ count
          (administers_in elsewhere)
          (update (is_membership organization_id user_id) (with_role role status now) db.members)
unfolding removes_administrator
guarded db indexed organization_id user_id elsewhere role status now current found test h =
    let after =
      administrators_after db indexed organization_id user_id elsewhere role status now current
        found in
    let place = found_in db organization_id user_id current found in
    elim (Bool-cases (current.organization_id === elsewhere)) [
      | inl e ↦
          let here : organization_id ≡ elsewhere =
            sym place ∙ (===_iff current.organization_id elsewhere).0 e in
          let size : administrators organization_id db ≡ administrators elsewhere db =
            ap (λ o. administrators o db) here in
          ground (arith, after, e, size, test, h)
      | inr e ↦ ground (arith, after, e, h)
    ]

update_membership-keeps :
    (db : Tables) (indexed : IsIndexed db) (organization_id user_id elsewhere : Text)
    (role : OrganizationRole) (status : MembershipStatus) (actor : Actor) (now : ℕ)
    (o : Option Membership)
    → find (is_membership organization_id user_id) db.members ≡ o
    → 1 ≤ administrators elsewhere db
    → 1
      ≤ administrators elsewhere
          (update_membership organization_id role status user_id actor now db o).1
unfolding update_membership
update_membership-keeps db indexed organization_id user_id elsewhere role status actor now none
      found h =
    h
update_membership-keeps db indexed organization_id user_id elsewhere role status actor now
      (some current) found h =
    elim (Bool-cases
      (removes_administrator current role status && leb (administrators organization_id db) 1)) [
        | inl e ↦ rw e h
        | inr e ↦
            rw e (
              guarded db indexed organization_id user_id elsewhere role status now current found e
                h)
      ]

-- Under the unique index of the memberships, an update of a member by `updateOrganizationMember`
-- leaves every organization that has an active administrator with one.
pub update_organization_member-administrators :
    (db : Tables) (indexed : IsIndexed db) (organization_id user_id elsewhere : Text)
    (role : OrganizationRole) (status : MembershipStatus) (actor : Actor) (now : ℕ)
    → 1 ≤ administrators elsewhere db
    → 1
      ≤ administrators elsewhere
          (update_organization_member organization_id role status user_id actor now db).1
unfolding update_organization_member
update_organization_member-administrators db indexed organization_id user_id elsewhere role status
      actor now h =
    let kept =
      update_membership-keeps db indexed organization_id user_id elsewhere role status actor now
        (find (is_membership organization_id user_id) db.members) refl h in
    elim (Bool-cases (any (has_organization_id organization_id) db.organizations)) [
      | inl e ↦ rw e (elim (Bool-cases (can_manage actor.user_id organization_id db)) [
        | inl c ↦ rw c kept
        | inr c ↦ rw c h
      ])
      | inr e ↦ rw e h
    ]

-- A change of the role of an organization's only active administrator to `member`, by an actor who
-- may manage it, leaves the organization without one.
pub change_organization_member_role-administrators :
    (db : Tables) (indexed : IsIndexed db) (organization_id user_id : Text) (actor : Actor)
    (now : ℕ) (current : Membership)
    → can_manage_organization actor.user_id (some organization_id) db ≡ true
    → find (is_membership organization_id user_id) db.members ≡ some current
    → administers current ≡ true
    → administrators organization_id db ≡ 1
    → administrators organization_id
        (change_organization_member_role organization_id member user_id actor now db).1
      ≡ 0
unfolding change_organization_member_role change_membership
change_organization_member_role-administrators db indexed organization_id user_id actor now current
      allowed found only single =
    rw allowed (
      rw found (
        let place =
          (===_iff current.organization_id organization_id).1
            (found_in db organization_id user_id current found) in
        let after =
          count-update (is_membership organization_id user_id) (administers_in organization_id)
            (λ m. with_role member m.status now m) db.members current
            (indexed organization_id user_id) found in
        ground (arith, after, place, only, single)))
