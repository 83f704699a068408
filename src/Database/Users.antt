-- ===== src/Database/Users.antt =====
-- packages/db/src/user-lifecycle.ts: suspending, deactivating, reactivating and deleting users. Each
-- function is one transaction. The listing of users and their detail page are left out.
pub mod Status
pub mod Deletion
use ntauth.Common.{
  ℕ, Bool, true, false, not, ◌&&◌, ◌||◌, Option, none, some, List, [], ◌∷◌, ◌++◌, if◌then◌else◌,
  any, filter, length,
}
use ntauth.Text.{Text, text, ◌===◌}
use ntauth.Json.{Value, string, number}
use ntauth.Database.{
  UserStatus, active, deactivated, deleted, suspended, status_text, User, Actor, Tables, Run,
  returned, thrown, not_found, invalid_transition, constraint, AuditEvent, AuditOutcome, denied,
  success, record_event, deny,
}
use ntauth.Database.Rows.{find, update, delete}

pub data ReversibleUserStatus : Type 0 where
  to_active to_deactivated to_suspended : ReversibleUserStatus

abbrev pub user_status : ReversibleUserStatus → UserStatus
user_status to_active = active
user_status to_deactivated = deactivated
user_status to_suspended = suspended

abbrev pub action_of : ReversibleUserStatus → Text
action_of to_active = text "user.reactivate"
action_of to_deactivated = text "user.deactivate"
action_of to_suspended = text "user.suspend"

-- `===` of two statuses
unfoldable pub same_status : UserStatus → UserStatus → Bool
same_status active active = true
same_status deactivated deactivated = true
same_status deleted deleted = true
same_status suspended suspended = true
same_status _ _ = false

-- `permitsAuthentication`
unfoldable pub permits_authentication : UserStatus → Bool
unfolding same_status
permits_authentication status = same_status status active

-- A user's row, by the primary key.
abbrev pub has_id : Text → User → Bool
has_id user_id u = u.id === user_id

-- `isUserActive`
unfoldable pub is_user_active : Text → Tables → Bool
is_user_active user_id db = any (λ u. has_id user_id u && same_status u.status active) db.users

-- `isPlatformAdmin`; the column has no other role.
unfoldable pub is_platform_admin : Text → Tables → Bool
is_platform_admin user_id db = any (λ a. a.user_id === user_id) db.assignments

abbrev pub user_event : Text → AuditOutcome → Text → Actor → List (Text × Value) → AuditEvent
user_event action outcome target actor metadata = record {
  actor_user_id = some actor.user_id;
  action = action;
  resource_type = text "user";
  resource_id = some target;
  organization_id = none;
  outcome = outcome;
  request_id = actor.request_id;
  metadata = metadata;
}

-- `auditDenied`, and the error that the callers throw then
unfoldable pub audit_denied {ℓ} : {A : Type ℓ} → Text → Text → Actor → Tables → Run A
audit_denied action target actor db =
    deny (user_event action denied target actor ((text "targetUserId", string target) ∷ [])) db

-- The user's row after `setUserStatus`.
abbrev pub with_status : UserStatus → ℕ → User → User
with_status status now u = record {
  id = u.id;
  name = u.name;
  email = u.email;
  email_verified = u.email_verified;
  image = u.image;
  status = status;
  status_changed_at = some now;
  deleted_at = u.deleted_at;
  updated_at = now;
}

unfoldable pub change_status :
    Text → ReversibleUserStatus → Actor → ℕ → Tables → Option User → Run (Text × UserStatus)
unfolding same_status
change_status target status actor now db none = (thrown not_found, db)
change_status target status actor now db (some current) =
    if same_status current.status deleted || same_status current.status (user_status status)
    then (thrown invalid_transition, db)
    else (
      returned (current.id, user_status status),
      record_event
          (user_event (action_of status) success target actor (
            (text "previousStatus", string (status_text current.status))
            ∷ (
              text "revokedSessionCount",
              number (length (filter (λ s. s.user_id === target) db.sessions)),
            )
            ∷ (text "status", string (status_text (user_status status)))
            ∷ []))
          record db {
            users = update (has_id target) (with_status (user_status status) now) db.users;
            sessions = delete (λ s. s.user_id === target) db.sessions;
          },
    )

-- `setUserStatus`
unfoldable pub set_user_status :
    Text → ReversibleUserStatus → Actor → ℕ → Tables → Run (Text × UserStatus)
unfolding is_platform_admin change_status audit_denied
set_user_status target status actor now db =
    if not (is_platform_admin actor.user_id db)
    then audit_denied (action_of status) target actor db
    else change_status target status actor now db (find (has_id target) db.users)

-- `deleted+${userId}@invalid.ntauth.local`
abbrev pub tombstone_email : Text → Text
tombstone_email user_id = text "deleted+" ++ user_id ++ text "@invalid.ntauth.local"

-- The user's row after `deleteUser`.
abbrev pub tombstone : Text → ℕ → User → User
tombstone user_id now u = record {
  id = u.id;
  name = text "Deleted user";
  email = tombstone_email user_id;
  email_verified = false;
  image = none;
  status = deleted;
  status_changed_at = some now;
  deleted_at = some now;
  updated_at = now;
}

-- Another user has the address already, against the unique constraint.
unfoldable pub email_taken : Text → Tables → Bool
email_taken target db =
    any (λ u. not (has_id target u) && u.email === tombstone_email target) db.users

-- `deleteUser` from the row on; a violated constraint rolls everything back.
unfoldable pub erase_user : Text → Actor → ℕ → Tables → Option User → Run (Text × ℕ × UserStatus)
unfolding same_status email_taken
erase_user target actor now db none = (thrown not_found, db)
erase_user target actor now db (some current) =
    if same_status current.status deleted
    then (thrown invalid_transition, db)
    else if email_taken target db
    then (thrown constraint, db)
    else (
      returned (current.id, now, deleted),
      record_event
          (user_event (text "user.delete") success target actor (
            (text "previousStatus", string (status_text current.status))
            ∷ (text "retention", string (text "audit_identity_only"))
            ∷ []))
          record db {
            users = update (has_id target) (tombstone target now) db.users;
            sessions = delete (λ s. s.user_id === target) db.sessions;
            accounts = delete (λ a. a.user_id === target) db.accounts;
            members = delete (λ m. m.user_id === target) db.members;
            assignments = delete (λ a. a.user_id === target) db.assignments;
          },
    )

-- `deleteUser`
unfoldable pub delete_user : Text → Actor → ℕ → Tables → Run (Text × ℕ × UserStatus)
unfolding is_platform_admin erase_user audit_denied
delete_user target actor now db =
    if not (is_platform_admin actor.user_id db)
    then audit_denied (text "user.delete") target actor db
    else erase_user target actor now db (find (has_id target) db.users)
