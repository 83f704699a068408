-- ===== src/Passwords/Reset.antt =====
-- packages/db/src/passwords.ts: what a reset does.
use ntauth.Common.{
  ℕ, ◌≡◌, refl, ◌⊎◌, inl, inr, Bool, true, false, not, ◌&&◌, Option, none, some, List, [], ◌∷◌,
  Bool-cases, any, leb,
}
use ntauth.Text.{Text, ◌===◌}
use ntauth.Text.Laws.{===_refl}
use ntauth.Database.Rows.{find, update, delete, any-delete, delete-others, update-others}
use ntauth.Passwords.{
  Credential, PasswordReset, PasswordTables, PasswordRun, done, refused, invalid_reset, is_live,
  is_active_user, is_session_of, is_credential_of, with_password, replace_password, complete_found,
  complete_password_reset,
}

abbrev pub is_password : Text → Option Text → Bool
is_password password none = false
is_password password (some p) = p === password

-- A credential of the user that does not have the password.
abbrev pub lacks : Text → Text → Credential → Bool
lacks user_id password c = is_credential_of user_id c && not (is_password password c.password)

-- The user can sign in with the new password only: every credential of the user has it, and no session
-- is left. Everybody else's credentials and sessions are as they were.
abbrev pub IsReplaced : Text → Text → PasswordTables → PasswordTables → Type 0
IsReplaced user_id password db after =
    (any (lacks user_id password) after.credentials ≡ false)
    × (any (is_session_of user_id) after.tables.sessions ≡ false)
    × (delete (is_credential_of user_id) after.credentials
        ≡ delete (is_credential_of user_id) db.credentials)
    × (delete (is_session_of user_id) after.tables.sessions
        ≡ delete (is_session_of user_id) db.tables.sessions)

update-lacks :
    (user_id password : Text) (now : ℕ) (credentials : List Credential)
    → any
        (lacks user_id password)
        (update (is_credential_of user_id) (with_password password now) credentials)
      ≡ false
update-lacks user_id password now [] = refl
update-lacks user_id password now (c ∷ credentials) =
    let rest = update-lacks user_id password now credentials in
    elim (Bool-cases (is_credential_of user_id c)) [
      | inl e ↦ rw e (rw e (rw (===_refl password) rest))
      | inr e ↦ rw e (rw e rest)
    ]

replace-IsReplaced :
    (user_id password : Text) (now : ℕ) (db : PasswordTables)
    → IsReplaced user_id password db (replace_password user_id password now db)
replace-IsReplaced user_id password now db = (
  update-lacks user_id password now db.credentials,
  any-delete (is_session_of user_id) db.tables.sessions,
  update-others (is_credential_of user_id) (with_password password now) (λ c h. h) db.credentials,
  delete-others (is_session_of user_id) db.tables.sessions,
)

-- The request counts: its user is active and it has not expired.
abbrev pub is_good : ℕ → PasswordTables → PasswordReset → Bool
is_good now db r = is_active_user r.user_id db.tables.users && not (leb r.expires_at now)

abbrev pub IsCompletion : Text → ℕ → PasswordReset → PasswordTables → PasswordRun Text → Type 0
IsCompletion password now r db run =
    ((is_good now db r ≡ true) × (run.0 ≡ done r.user_id) × IsReplaced r.user_id password db run.1)
    ⊎ ((is_good now db r ≡ false) × (run ≡ (refused invalid_reset, db)))

complete_found-IsCompletion :
    (password : Text) (now : ℕ) (db : PasswordTables) (r : PasswordReset)
    → IsCompletion password now r db (complete_found password now db (some r))
unfolding complete_found
complete_found-IsCompletion password now db r =
    elim (Bool-cases (is_active_user r.user_id db.tables.users)) [
      | inr e ↦ rw e (inr (refl, refl))
      | inl e ↦ elim (Bool-cases (leb r.expires_at now)) [
        | inl d ↦ rw e (rw d (inr (refl, refl)))
        | inr d ↦ rw e (rw d (inl (refl, refl, replace-IsReplaced r.user_id password now db)))
      ]
    ]

-- Completing a reset with an unused token gives the user of the request, if the user is active and the
-- request has not expired: then every credential of the user has the new password, the user has no
-- session, and the credentials and sessions of everybody else are as they were. Otherwise it fails and
-- leaves the tables as they were.
pub complete_password_reset-IsCompletion :
    (hash : Text → Text) (password token : Text) (now : ℕ) (db : PasswordTables) (r : PasswordReset)
    → find (is_live (hash token)) db.resets ≡ some r
    → IsCompletion password now r db (complete_password_reset hash password token now db)
unfolding complete_password_reset
complete_password_reset-IsCompletion hash password token now db r found =
    rw found (complete_found-IsCompletion password now db r)
