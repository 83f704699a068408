-- ===== src/Database/History/Indexed.antt =====
-- packages/db/src/schema.ts: the unique index of the memberships, and the administrators of an
-- organization, through the calls.
use ntauth.Common.{
  ℕ, ◌≤◌, ◌≡◌, refl, inl, inr, and_iff, ap₂, true, Option, none, some, arith, Bool-cases, ap, List,
  [], ◌∷◌, ◌++◌,
}
use ntauth.Text.{Text, ◌===◌}
use ntauth.Text.Laws.{===_iff}
use ntauth.Database.{Actor, Tables, User, Membership, OrganizationRole, MembershipStatus}
use ntauth.Database.Rows.{
  count, count-update_kept, count-delete, count-append, any-count, any-or, find,
}
use ntauth.Database.Users.{
  ReversibleUserStatus, has_id, audit_denied, change_status, set_user_status, erase_user,
  delete_user,
}
use ntauth.Database.Sessions.{revoke_user_sessions}
use ntauth.Database.Organizations.{
  update_organization, update_found, create_organization, is_membership,
}
use ntauth.Database.Organizations.Members.{
  update_membership, change_membership, membership_ok, update_organization_member,
  add_organization_member, change_organization_member_role, with_role, new_membership,
}
use ntauth.Database.Organizations.Administrators.{IsIndexed}
use ntauth.Database.History.{
  Call, perform, Reaches, start, later, revoke, change_user, erase, rename_organization,
  found_organization, change_member, add_member, change_role,
}

-- The index over the rows alone.
abbrev pub AreIndexed : List Membership → Type 0
AreIndexed rows =
    (organization_id user_id : Text) → count (is_membership organization_id user_id) rows ≤ 1

change_user-members :
    (target : Text) (status : ReversibleUserStatus) (actor : Actor) (now : ℕ) (db : Tables)
    (o : Option User)
    → (change_status target status actor now db o).1.members ≡ db.members
unfolding change_status
change_user-members target status actor now db none = refl
change_user-members target status actor now db (some u) = ground arith

erase_user-AreIndexed :
    (target : Text) (actor : Actor) (now : ℕ) (db : Tables) (o : Option User)
    → IsIndexed db
    → IsIndexed (erase_user target actor now db o).1
unfolding erase_user
erase_user-AreIndexed target actor now db none h organization_id user_id = h organization_id user_id
erase_user-AreIndexed target actor now db (some u) h organization_id user_id =
    let fewer =
      count-delete (λ m. m.user_id === target) (is_membership organization_id user_id) db.members in
    ground (arith, fewer, h organization_id user_id)

update_membership-IsIndexed :
    (at : Text) (role : OrganizationRole) (status : MembershipStatus) (target : Text)
    (actor : Actor) (now : ℕ) (db : Tables) (o : Option Membership)
    → IsIndexed db
    → IsIndexed (update_membership at role status target actor now db o).1
unfolding update_membership
update_membership-IsIndexed at role status target actor now db none h organization_id user_id =
    h organization_id user_id
update_membership-IsIndexed at role status target actor now db (some u) h organization_id user_id =
    let same =
      count-update_kept (is_membership at target) (is_membership organization_id user_id)
        (with_role role status now) (λ m. refl) db.members in
    ground (arith, same, h organization_id user_id)

change_membership-IsIndexed :
    (at : Text) (role : OrganizationRole) (target : Text) (actor : Actor) (now : ℕ) (db : Tables)
    (o : Option Membership)
    → IsIndexed db
    → IsIndexed (change_membership at role target actor now db o).1
unfolding change_membership
change_membership-IsIndexed at role target actor now db none h organization_id user_id =
    h organization_id user_id
change_membership-IsIndexed at role target actor now db (some u) h organization_id user_id =
    let same =
      count-update_kept (is_membership at target) (is_membership organization_id user_id)
        (λ m. with_role role m.status now m) (λ m. refl) db.members in
    ground (arith, same, h organization_id user_id)

-- A membership that passes the test of the index may be added.
added-IsIndexed :
    (fresh : Text) (db : Tables) (row : Membership)
    → membership_ok fresh row.organization_id row.user_id db ≡ true
    → IsIndexed db
    → AreIndexed (db.members ++ row ∷ [])
unfolding membership_ok
added-IsIndexed fresh db row ok h organization_id user_id =
    let size = count-append (is_membership organization_id user_id) db.members (row ∷ []) in
    let free =
      any-or (λ m. m.id === fresh) (is_membership row.organization_id row.user_id) db.members
        (ground (arith, ok)) in
    elim (Bool-cases (is_membership organization_id user_id row)) [
      | inl e ↦
          let keys = (and_iff _ _).0 e in
          let moved : count (is_membership row.organization_id row.user_id) db.members
              ≡ count (is_membership organization_id user_id) db.members =
            ap₂ (λ o u. count (is_membership o u) db.members)
              ((===_iff row.organization_id organization_id).0 keys.0)
              ((===_iff row.user_id user_id).0 keys.1) in
          ground (
            arith,
            size,
            e,
            moved,
            any-count (is_membership row.organization_id row.user_id) db.members free,
          )
      | inr e ↦ ground (arith, size, e, h organization_id user_id)
    ]

perform-IsIndexed :
    (call : Call) (actor : Actor) (now : ℕ) (db : Tables)
    → IsIndexed db
    → IsIndexed (perform call actor now db).1
unfolding perform set_user_status delete_user revoke_user_sessions update_organization
    create_organization update_organization_member add_organization_member
    change_organization_member_role update_found audit_denied
perform-IsIndexed (change_user target status) actor now db h o u =
    let same = change_user-members target status actor now db (find (has_id target) db.users) in
    let kept = ap (count (is_membership o u)) same in ground (arith, kept, h o u)
perform-IsIndexed (erase target) actor now db h o u =
    let kept = erase_user-AreIndexed target actor now db (find (has_id target) db.users) h o u in
    ground (arith, kept, h o u)
perform-IsIndexed (revoke reason target) actor now db h o u = ground (arith, h o u)
perform-IsIndexed (rename_organization organization_id name status) actor now db h o u =
    ground (arith, h o u)
perform-IsIndexed (found_organization fresh name slug) actor now db h o u = ground (arith, h o u)
perform-IsIndexed (change_member organization_id role status user_id) actor now db h o u =
    let kept =
      update_membership-IsIndexed organization_id role status user_id actor now db
        (find (is_membership organization_id user_id) db.members) h o u in
    ground (arith, kept, h o u)
perform-IsIndexed (add_member fresh organization_id role user_id) actor now db h o u =
    elim (Bool-cases (membership_ok fresh organization_id user_id db)) [
      | inl e ↦
          let kept =
            added-IsIndexed fresh db (new_membership fresh organization_id role user_id now) e h o
              u in
          ground (arith, kept, h o u)
      | inr e ↦ ground (arith, e, h o u)
    ]
perform-IsIndexed (change_role organization_id role user_id) actor now db h o u =
    let kept =
      change_membership-IsIndexed organization_id role user_id actor now db
        (find (is_membership organization_id user_id) db.members) h o u in
    ground (arith, kept, h o u)

-- No calls make a user a member of an organization twice.
pub Reaches-IsIndexed : {db after : Tables} → Reaches db after → IsIndexed db → IsIndexed after
Reaches-IsIndexed start h = h
Reaches-IsIndexed (later {db = mid} call actor now before) h =
    perform-IsIndexed call actor now mid (Reaches-IsIndexed before h)
