-- ===== src/Passwords/Change.antt =====
-- packages/db/src/passwords.ts: changing a known password.
use ntauth.Common.{ℕ, Bool, not, Option, none, some, [], ◌∷◌, if◌then◌else◌}
use ntauth.Text.{Text, text}
use ntauth.Database.{Actor}
use ntauth.Database.Rows.{find}
use ntauth.Database.Users.{same_status}
use ntauth.Passwords.{
  Credential, PasswordRun, PasswordTables, done, invalid_current, is_active_user, is_credential_of,
  password_event, record_password_event, refused, replace_password,
}

-- `credential.password`, where it is neither missing nor empty
abbrev pub known_password : Option Text → Option Text
known_password none = none
known_password (some []) = none
known_password (some (c ∷ rest)) = some (c ∷ rest)

-- `changePassword` from the password on
abbrev pub change_known :
    (Text → Bool) → Text → Actor → ℕ → PasswordTables → Option Text → PasswordRun (Unit {0})
change_known verify password actor now db none = (refused invalid_current, db)
change_known verify password actor now db (some current) =
    if not (verify current) then (refused invalid_current, db) else (
      done tt,
      record_password_event
          (password_event (text "password.change") (some actor.user_id) actor.user_id
            actor.request_id)
          (replace_password actor.user_id password now db),
    )

-- `changePassword` from the account on
abbrev pub change_found :
    (Text → Bool) → Text → Actor → ℕ → PasswordTables → Option Credential → PasswordRun (Unit {0})
change_found verify password actor now db none = (refused invalid_current, db)
change_found verify password actor now db (some c) =
    if not (is_active_user actor.user_id db.tables.users)
    then (refused invalid_current, db)
    else change_known verify password actor now db (known_password c.password)

-- `changePassword`; `verify` compares the current password with a hash.
unfoldable pub change_password :
    (Text → Bool) → Text → Actor → ℕ → PasswordTables → PasswordRun (Unit {0})
unfolding same_status
change_password verify password actor now db =
    change_found verify password actor now db (find (is_credential_of actor.user_id) db.credentials)
