-- ===== src/Database/Users/Status.antt =====
-- packages/db/src/user-lifecycle.ts: when a user's status changes, and what changes with it.
use ntauth.Common.{
  ℕ, ◌≡◌, ◌≢◌, ◌↔◌, inl, inr, true, false, ◌||◌, Option, none, some, arith, Bool-cases, any,
  any_iff, Any,
}
use ntauth.Text.{Text, ◌===◌}
use ntauth.Text.Laws.{===_iff}
use ntauth.Database.{
  UserStatus, active, deactivated, suspended, deleted, User, Actor, Tables, Returns,
}
use ntauth.Database.Rows.{find, delete}
use ntauth.Database.Users.{
  ReversibleUserStatus, to_active, to_deactivated, to_suspended, user_status, same_status, has_id,
  is_platform_admin, audit_denied, change_status, set_user_status,
}

pub same_status_iff : (a b : UserStatus) → (same_status a b ≡ true) ↔ (a ≡ b)
unfolding same_status
same_status_iff a b = ground arith

-- The user has a role assignment, and the only role is that of a platform administrator.
abbrev pub IsPlatformAdmin : Text → Tables → Type 0
IsPlatformAdmin user_id db = Any (λ a. a.user_id ≡ user_id) db.assignments

pub is_platform_admin_iff :
    (user_id : Text) (db : Tables)
    → (is_platform_admin user_id db ≡ true) ↔ IsPlatformAdmin user_id db
unfolding is_platform_admin
is_platform_admin_iff user_id db =
    any_iff (λ a. a.user_id === user_id) (λ a. a.user_id ≡ user_id) (λ a. ===_iff a.user_id user_id)
      db.assignments

-- The user exists, and the status may become `status`: it is neither that nor final.
abbrev pub MayBecome : UserStatus → Option User → Type 0
MayBecome status none = ⊥
MayBecome status (some u) = (u.status ≢ deleted) × (u.status ≢ status)

change_status_iff :
    (target : Text) (status : ReversibleUserStatus) (actor : Actor) (now : ℕ) (db : Tables)
    (o : Option User)
    → Returns (change_status target status actor now db o) ↔ MayBecome (user_status status) o
unfolding change_status
change_status_iff target status actor now db none = ground arith
change_status_iff target status actor now db (some u) =
    let final = same_status_iff u.status deleted in
    let same = same_status_iff u.status (user_status status) in
    elim (Bool-cases (same_status u.status deleted || same_status u.status (user_status status))) [
      | inl e ↦ rw e (ground (arith, final, same, e))
      | inr e ↦ rw e (ground (arith, final, same, e))
    ]

-- A change of status succeeds exactly if the actor is a platform administrator, and the user exists,
-- is not deleted and has another status.
set_user_status_iff :
    (target : Text) (status : ReversibleUserStatus) (actor : Actor) (now : ℕ) (db : Tables)
    → Returns (set_user_status target status actor now db) ↔ (
        IsPlatformAdmin actor.user_id db
        × MayBecome (user_status status) (find (has_id target) db.users))
unfolding set_user_status audit_denied
set_user_status_iff target status actor now db =
    let row = change_status_iff target status actor now db (find (has_id target) db.users) in
    let permitted = is_platform_admin_iff actor.user_id db in
    elim (Bool-cases (is_platform_admin actor.user_id db)) [
      | inl e ↦ rw e (ground (arith, row, permitted, e))
      | inr e ↦ rw e (ground (arith, permitted, e))
    ]

-- What each change asks for.
abbrev pub IsRequested : ReversibleUserStatus → UserStatus → Type 0
IsRequested to_active status = status ≡ active
IsRequested to_deactivated status = status ≡ deactivated
IsRequested to_suspended status = status ≡ suspended

-- The row has the requested status since `now`, and is as it was otherwise.
abbrev pub IsMoved : ReversibleUserStatus → ℕ → User → User → Type 0
IsMoved status now u row =
    IsRequested status row.status
    × (row.status_changed_at ≡ some now)
    × (row.updated_at ≡ now)
    × (row.id ≡ u.id)
    × (row.name ≡ u.name)
    × (row.email ≡ u.email)
    × (row.email_verified ≡ u.email_verified)
    × (row.image ≡ u.image)
    × (row.deleted_at ≡ u.deleted_at)

-- Only the user's row and sessions change: the row has the new status, and no session is left.
abbrev pub IsTransition : Text → ReversibleUserStatus → ℕ → User → Tables → Tables → Type 0
IsTransition target status now u db after =
    ((row : User) × (find (has_id target) after.users ≡ some row) × IsMoved status now u row)
    × (delete (has_id target) after.users ≡ delete (has_id target) db.users)
    × (any (λ s. s.user_id === target) after.sessions ≡ false)
    × (delete (λ s. s.user_id === target) after.sessions
        ≡ delete (λ s. s.user_id === target) db.sessions)
    × (after.accounts ≡ db.accounts)
    × (after.organizations ≡ db.organizations)
    × (after.members ≡ db.members)
    × (after.assignments ≡ db.assignments)
