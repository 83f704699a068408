-- ===== src/Database/History/Deleted.antt =====
-- packages/db/src/user-lifecycle.ts: a deleted user stays deleted, whatever is called.
use ntauth.Common.{
  ℕ, ◌≡◌, refl, sym, ◌∙◌, inl, inr, Bool, true, false, not, ◌&&◌, ◌||◌, Option, none, some, arith,
  Bool-cases, any, ap, List, [], ◌∷◌,
}
use ntauth.Text.{Text, ◌===◌}
use ntauth.Text.Laws.{===_iff}
use ntauth.Database.{
  Actor, Tables, User, OrganizationStatus, OrganizationRole, MembershipStatus, deleted,
}
use ntauth.Database.Rows.{find, any-update}
use ntauth.Database.Users.{
  ReversibleUserStatus, user_status, same_status, has_id, audit_denied, change_status,
  set_user_status, with_status, email_taken, erase_user, delete_user, tombstone,
}
use ntauth.Database.Sessions.{RevocationReason, revoke_user_sessions}
use ntauth.Database.Organizations.{update_organization, update_found, create_organization}
use ntauth.Database.Organizations.Members.{
  update_membership, change_membership, update_organization_member, add_organization_member,
  change_organization_member_role,
}
use ntauth.Database.History.{
  Call, perform, Reaches, start, later, revoke, change_user, erase, rename_organization,
  found_organization, change_member, add_member, change_role,
}

-- The row is the user's, and the user is not deleted.
abbrev pub is_kept : Text → User → Bool
is_kept target u = has_id target u && not (same_status u.status deleted)

-- No row of the user has a status other than `deleted`.
abbrev pub IsDeleted : Text → Tables → Type 0
IsDeleted target db = any (is_kept target) db.users ≡ false

-- A user who is deleted has no row that may change its status.
find-deleted :
    (target : Text) (users : List User) (u : User)
    → any (is_kept target) users ≡ false
    → find (has_id target) users ≡ some u
    → same_status u.status deleted ≡ true
find-deleted target [] u h found = ground (arith, found)
find-deleted target (v ∷ users) u h found = elim (Bool-cases (has_id target v)) [
  | inl e ↦
      let same : v ≡ u = ground (arith, found, e) in
      ap (λ w. same_status w.status deleted) (sym same) ∙ ground (arith, h, e)
  | inr e ↦ find-deleted target users u (ground (arith, h, e)) (ground (arith, found, e))
]

-- Another user's row is not the deleted user's.
elsewhere_kept :
    (target other : Text) (u : User)
    → (target === other) ≡ false
    → has_id other u ≡ true
    → has_id target u ≡ false
elsewhere_kept target other u apart h = elim (Bool-cases (has_id target u)) [
  | inl e ↦
      let same = sym ((===_iff u.id target).0 e) ∙ (===_iff u.id other).0 h in
      absurd (ground (arith, apart, (===_iff target other).1 same))
  | inr e ↦ e
]

change_status-IsDeleted :
    (target other : Text) (status : ReversibleUserStatus) (actor : Actor) (now : ℕ) (db : Tables)
    (o : Option User)
    → find (has_id other) db.users ≡ o
    → IsDeleted target db
    → IsDeleted target (change_status other status actor now db o).1
unfolding change_status
change_status-IsDeleted target other status actor now db none found h = h
change_status-IsDeleted target other status actor now db (some u) found h =
    elim (Bool-cases (same_status u.status deleted || same_status u.status (user_status status))) [
      | inl e ↦ rw e h
      | inr e ↦ rw e (elim (Bool-cases (target === other)) [
        | inl t ↦
            let final =
              find-deleted target db.users u h
                (ap (λ i. find (has_id i) db.users) ((===_iff target other).0 t) ∙ found) in
            absurd (ground (arith, e, final))
        | inr t ↦
            any-update (has_id other) (is_kept target) (with_status (user_status status) now)
              (λ v k. ground (arith, elsewhere_kept target other v t k)) db.users h
      ])
    ]

erase_user-IsDeleted :
    (target other : Text) (actor : Actor) (now : ℕ) (db : Tables) (o : Option User)
    → IsDeleted target db
    → IsDeleted target (erase_user other actor now db o).1
unfolding erase_user same_status
erase_user-IsDeleted target other actor now db none h = h
erase_user-IsDeleted target other actor now db (some u) h =
    let after =
      any-update (has_id other) (is_kept target) (tombstone other now) (λ v k. ground arith)
        db.users h in
    elim (Bool-cases (same_status u.status deleted)) [
      | inl e ↦ rw e h
      | inr e ↦ elim (Bool-cases (email_taken other db)) [
        | inl t ↦ rw e (rw t h)
        | inr t ↦ rw e (rw t after)
      ]
    ]

-- The calls that do not name a user's status leave the users as they are.
abbrev KeepsUsers : Call → Type 0
KeepsUsers call =
    (actor : Actor) (now : ℕ) (db : Tables) → (perform call actor now db).1.users ≡ db.users

revoke-KeepsUsers : (reason : RevocationReason) (target : Text) → KeepsUsers (revoke reason target)
unfolding perform revoke_user_sessions
revoke-KeepsUsers reason target actor now db = ground arith

rename_organization-KeepsUsers :
    (organization_id name : Text) (status : OrganizationStatus)
    → KeepsUsers (rename_organization organization_id name status)
unfolding perform update_organization update_found
rename_organization-KeepsUsers organization_id name status actor now db = ground arith

found_organization-KeepsUsers :
    (fresh name slug : Text) → KeepsUsers (found_organization fresh name slug)
unfolding perform create_organization
found_organization-KeepsUsers fresh name slug actor now db = ground arith

change_member-KeepsUsers :
    (organization_id : Text) (role : OrganizationRole) (status : MembershipStatus) (user_id : Text)
    → KeepsUsers (change_member organization_id role status user_id)
unfolding perform update_organization_member update_membership
change_member-KeepsUsers organization_id role status user_id actor now db = ground arith

add_member-KeepsUsers :
    (fresh organization_id : Text) (role : OrganizationRole) (user_id : Text)
    → KeepsUsers (add_member fresh organization_id role user_id)
unfolding perform add_organization_member
add_member-KeepsUsers fresh organization_id role user_id actor now db = ground arith

change_role-KeepsUsers :
    (organization_id : Text) (role : OrganizationRole) (user_id : Text)
    → KeepsUsers (change_role organization_id role user_id)
unfolding perform change_organization_member_role change_membership
change_role-KeepsUsers organization_id role user_id actor now db = ground arith

perform-IsDeleted :
    (target : Text) (call : Call) (actor : Actor) (now : ℕ) (db : Tables)
    → IsDeleted target db
    → IsDeleted target (perform call actor now db).1
unfolding perform set_user_status delete_user audit_denied
perform-IsDeleted target (change_user other status) actor now db h =
    let changed =
      change_status-IsDeleted target other status actor now db (find (has_id other) db.users) refl
        h in
    ground (arith, changed, h)
perform-IsDeleted target (erase other) actor now db h =
    let changed = erase_user-IsDeleted target other actor now db (find (has_id other) db.users) h in
    ground (arith, changed, h)
perform-IsDeleted target (revoke reason other) actor now db h =
    ap (any (is_kept target)) (revoke-KeepsUsers reason other actor now db) ∙ h
perform-IsDeleted target (rename_organization organization_id name status) actor now db h =
    ap (any (is_kept target))
      (rename_organization-KeepsUsers organization_id name status actor now db)
    ∙ h
perform-IsDeleted target (found_organization fresh name slug) actor now db h =
    ap (any (is_kept target)) (found_organization-KeepsUsers fresh name slug actor now db) ∙ h
perform-IsDeleted target (change_member organization_id role status user_id) actor now db h =
    ap (any (is_kept target))
      (change_member-KeepsUsers organization_id role status user_id actor now db)
    ∙ h
perform-IsDeleted target (add_member fresh organization_id role user_id) actor now db h =
    ap (any (is_kept target))
      (add_member-KeepsUsers fresh organization_id role user_id actor now db)
    ∙ h
perform-IsDeleted target (change_role organization_id role user_id) actor now db h =
    ap (any (is_kept target)) (change_role-KeepsUsers organization_id role user_id actor now db) ∙ h

-- Once every row of a user is deleted, it stays so through any calls by any actors, those of
-- administrators included.
pub Reaches-IsDeleted :
    (target : Text) {db after : Tables}
    → Reaches db after
    → IsDeleted target db
    → IsDeleted target after
Reaches-IsDeleted target start h = h
Reaches-IsDeleted target (later {db = mid} call actor now before) h =
    perform-IsDeleted target call actor now mid (Reaches-IsDeleted target before h)
