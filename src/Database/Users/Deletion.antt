-- ===== src/Database/Users/Deletion.antt =====
-- packages/db/src/user-lifecycle.ts: when a user is deleted, and what is left of the user then.
use ntauth.Common.{
  ℕ, ◌≡◌, ◌≢◌, refl, ◌↔◌, inl, inr, false, Option, none, some, arith, Bool-cases, any, ◌++◌,
}
use ntauth.Text.{Text, text, ◌===◌}
use ntauth.Text.Laws.{===_iff}
use ntauth.Database.{deleted, User, Actor, Tables, Returns}
use ntauth.Database.Rows.{find, delete, any-delete, find-update, find-true, update-others}
use ntauth.Database.Users.{
  same_status, has_id, is_platform_admin, audit_denied, email_taken, erase_user, delete_user,
  tombstone,
}
use ntauth.Database.Users.Status.{same_status_iff, is_platform_admin_iff, IsPlatformAdmin}

-- The user exists and is not deleted yet.
abbrev pub IsPresent : Option User → Type 0
IsPresent none = ⊥
IsPresent (some u) = u.status ≢ deleted

erase_user_iff :
    (target : Text) (actor : Actor) (now : ℕ) (db : Tables) (o : Option User)
    → Returns (erase_user target actor now db o) ↔ (IsPresent o × (email_taken target db ≡ false))
unfolding erase_user
erase_user_iff target actor now db none = ground arith
erase_user_iff target actor now db (some u) =
    let final = same_status_iff u.status deleted in
    elim (Bool-cases (same_status u.status deleted)) [
      | inl e ↦ rw e (ground (arith, final, e))
      | inr e ↦ rw e (elim (Bool-cases (email_taken target db)) [
        | inl t ↦ rw t (ground (arith, t))
        | inr t ↦ rw t (ground (arith, final, e, t))
      ])
    ]

-- A deletion succeeds exactly if the actor is a platform administrator, the user exists and is not
-- deleted, and no other user has the address that replaces the user's.
delete_user_iff :
    (target : Text) (actor : Actor) (now : ℕ) (db : Tables)
    → Returns (delete_user target actor now db) ↔ (
        IsPlatformAdmin actor.user_id db
        × IsPresent (find (has_id target) db.users)
        × (email_taken target db ≡ false))
unfolding delete_user audit_denied
delete_user_iff target actor now db =
    let row = erase_user_iff target actor now db (find (has_id target) db.users) in
    let permitted = is_platform_admin_iff actor.user_id db in
    elim (Bool-cases (is_platform_admin actor.user_id db)) [
      | inl e ↦ rw e (ground (arith, row, permitted, e))
      | inr e ↦ rw e (ground (arith, permitted, e))
    ]

-- A row that is no longer in use, and that tells nothing of the user but the identifier.
abbrev pub IsAnonymous : Text → ℕ → User → Type 0
IsAnonymous target now row =
    (row.id ≡ target)
    × (row.status ≡ deleted)
    × (row.name ≡ text "Deleted user")
    × (row.email ≡ text "deleted+" ++ target ++ text "@invalid.ntauth.local")
    × (row.email_verified ≡ false)
    × (row.image ≡ none)
    × (row.status_changed_at ≡ some now)
    × (row.deleted_at ≡ some now)
    × (row.updated_at ≡ now)

-- What is left of a deleted user is the row, made anonymous; everything else that belongs to the
-- user is gone, and nothing that belongs to others is.
abbrev pub IsErased : Text → ℕ → Tables → Tables → Type 0
IsErased target now db after =
    ((row : User) × (find (has_id target) after.users ≡ some row) × IsAnonymous target now row)
    × (delete (has_id target) after.users ≡ delete (has_id target) db.users)
    × (any (λ s. s.user_id === target) after.sessions ≡ false)
    × (any (λ a. a.user_id === target) after.accounts ≡ false)
    × (any (λ m. m.user_id === target) after.members ≡ false)
    × (any (λ a. a.user_id === target) after.assignments ≡ false)
    × (after.sessions ≡ delete (λ s. s.user_id === target) db.sessions)
    × (after.accounts ≡ delete (λ a. a.user_id === target) db.accounts)
    × (after.members ≡ delete (λ m. m.user_id === target) db.members)
    × (after.assignments ≡ delete (λ a. a.user_id === target) db.assignments)
    × (after.organizations ≡ db.organizations)

erase_user-IsErased :
    (target : Text) (actor : Actor) (now : ℕ) (db : Tables) (o : Option User)
    → find (has_id target) db.users ≡ o
    → Returns (erase_user target actor now db o)
    → (u : User) × (o ≡ some u) × IsErased target now db (erase_user target actor now db o).1
unfolding erase_user
erase_user-IsErased target actor now db none found h = elim h [ ]
erase_user-IsErased target actor now db (some u) found h =
    elim (Bool-cases (same_status u.status deleted)) [
      | inl e ↦ elim (rw e at h) [ ]
      | inr e ↦ elim (Bool-cases (email_taken target db)) [
        | inl t ↦ elim (rw t at (rw e at h)) [ ]
        | inr t ↦ rw e (
            rw t (
              u,
              refl,
              (
                (
                  tombstone target now u,
                  find-update (has_id target) (tombstone target now) (λ x k. k) db.users u found,
                  (
                    (===_iff u.id target).0 (find-true (has_id target) db.users u found),
                    refl,
                    refl,
                    refl,
                    refl,
                    refl,
                    refl,
                    refl,
                    refl,
                  ),
                ),
                update-others (has_id target) (tombstone target now) (λ x k. k) db.users,
                any-delete (λ s. s.user_id === target) db.sessions,
                any-delete (λ a. a.user_id === target) db.accounts,
                any-delete (λ m. m.user_id === target) db.members,
                any-delete (λ a. a.user_id === target) db.assignments,
                refl,
                refl,
                refl,
                refl,
                refl,
              ),
            ))
      ]
    ]

-- A deletion that succeeds leaves a row of the user whose status is `deleted`, and whose name,
-- address, verification and image are the same for every deleted user but for the identifier in the
-- address; it leaves no session, account, membership or role of the user; and what belongs to other
-- users stays.
pub delete_user-IsErased :
    (target : Text) (actor : Actor) (now : ℕ) (db : Tables)
    → Returns (delete_user target actor now db)
    → (u : User) × (find (has_id target) db.users ≡ some u)
      × IsErased target now db (delete_user target actor now db).1
unfolding delete_user audit_denied
delete_user-IsErased target actor now db h =
    elim (Bool-cases (is_platform_admin actor.user_id db)) [
      | inl e ↦
          rw e (
            erase_user-IsErased target actor now db (find (has_id target) db.users) refl
              (rw e at h))
      | inr e ↦ elim (rw e at h) [ ]
    ]
