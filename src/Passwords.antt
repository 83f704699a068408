-- ===== src/Passwords.antt =====
-- packages/db/src/passwords.ts: resetting a forgotten password by mail, and changing a known one. Each
-- function is one transaction, which an error leaves without effect. The token, and the identifiers
-- that are made for new rows, are arguments.
pub mod Change
pub mod Reset
pub mod Spent
pub mod Once
mod Tests
use ntauth.Common.{
  ℕ, ◌+◌, Bool, true, false, not, ◌&&◌, ◌||◌, Option, none, some, List, [], ◌∷◌, ◌++◌,
  if◌then◌else◌, any, leb, length, ◌==◌,
}
use ntauth.Text.{Text, text, ◌===◌, trim}
use ntauth.Json.{Value, string, object, field, no_fields}
use ntauth.Database.{User, active, Session, Tables, Actor, AuditEvent, success, record_event}
use ntauth.Database.Rows.{find, update, delete}
use ntauth.Database.Users.{has_id, same_status}
use ntauth.Worker.Queue.{Job, NewJob, new_job, has_key, has_job_id}

-- The rows of `account`, with the columns that concern passwords.
pub record Credential : Type 0 where
  pub id : Text
  pub user_id : Text
  pub provider_id : Text
  pub password : Option Text
  pub updated_at : ℕ

-- the table `password_reset_requests`
pub record PasswordReset : Type 0 where
  pub id : Text
  pub user_id : Text
  pub token_hash : Text
  pub expires_at : ℕ
  pub used_at : Option ℕ

pub record PasswordTables : Type 0 where
  pub tables : Tables
  pub credentials : List Credential
  pub resets : List PasswordReset
  pub jobs : List Job

-- The errors: the two classes of the file, the driver's for a violated constraint, and that of `URL`.
pub data PasswordFailure : Type 0 where
  invalid_reset invalid_current violated invalid_url : PasswordFailure

pub data PasswordAnswer {ℓ} (A : Type ℓ) : Type ℓ where
  done : A → PasswordAnswer A
  refused : PasswordFailure → PasswordAnswer A

abbrev pub PasswordRun {ℓ} : Type ℓ → Type ℓ
PasswordRun A = PasswordAnswer A × PasswordTables

-- `RESET_LIFETIME_MS`
abbrev pub reset_lifetime_ms : ℕ
reset_lifetime_ms = 1800000

abbrev pub is_unused : PasswordReset → Bool
is_unused r = elim r.used_at [ none ↦ true | some _ ↦ false ]

abbrev pub is_unused_of : Text → PasswordReset → Bool
is_unused_of user_id r = r.user_id === user_id && is_unused r

abbrev pub has_reset_id : Text → PasswordReset → Bool
has_reset_id reset_id r = r.id === reset_id

abbrev pub has_reset_hash : Text → PasswordReset → Bool
has_reset_hash token_hash r = r.token_hash === token_hash

abbrev pub is_live : Text → PasswordReset → Bool
is_live token_hash r = has_reset_hash token_hash r && is_unused r

abbrev pub use_reset : ℕ → PasswordReset → PasswordReset
use_reset now r = record r { used_at = some now }

abbrev pub password_event : Text → Option Text → Text → Text → AuditEvent
password_event action actor_id user_id request_id = record {
  actor_user_id = actor_id;
  action = action;
  resource_type = text "user";
  resource_id = some user_id;
  organization_id = none;
  outcome = success;
  request_id = request_id;
  metadata = [];
}

-- What `requestPasswordReset` takes, and the identifiers of the rows that it inserts.
pub record ResetInput : Type 0 where
  pub email : Text
  pub reset_base_url : Text
  pub token : Text
  pub fresh_reset : Text
  pub fresh_job : Text

pub record Requested : Type 0 where
  pub expires_at : ℕ
  pub id : Text
  pub token : Text

abbrev pub reset_key : Text → Text
reset_key reset_id = text "password-reset:" ++ reset_id

abbrev pub reset_job : Text → Text → Text → NewJob
reset_job reset_id email url = record {
  type_name = text "email";
  deduplication_key = some (reset_key reset_id);
  payload = object (
      field (text "subject") (string (text "Reset your NTAuth password")) (
        field (text "text") (string (text "Reset your password: " ++ url))
          (field (text "to") (string email) no_fields)));
  max_attempts = some 5;
}

-- the indexes and the check of a new row, whose user is there
abbrev pub reset_ok : PasswordReset → List PasswordReset → Bool
reset_ok r resets =
    not (any (λ s. has_reset_id r.id s || has_reset_hash r.token_hash s) resets)
    && length r.token_hash == 64

-- `requestPasswordReset` from the address on; `new URL` throws where there is no address.
abbrev pub insert_reset :
    ResetInput
    → Text
    → PasswordReset
    → ℕ
    → PasswordTables
    → Option Text
    → PasswordRun (Option Requested)
insert_reset input email r now db none = (refused invalid_url, db)
insert_reset input email r now db (some address) =
    if any (λ j. has_job_id input.fresh_job j || has_key (reset_key r.id) j) db.jobs
    then (refused violated, db)
    else (
      done (some record { expires_at = r.expires_at; id = r.id; token = input.token }),
      record db {
        tables =
            record_event
              (password_event (text "password.reset.request") none r.user_id (reset_key r.id))
              db.tables;
        resets = update (is_unused_of r.user_id) (use_reset now) db.resets ++ r ∷ [];
        jobs = db.jobs ++ new_job input.fresh_job (reset_job r.id email address) now ∷ [];
      },
    )

abbrev pub new_reset : ResetInput → Text → Text → ℕ → PasswordReset
new_reset input user_id token_hash now = record {
  id = input.fresh_reset;
  user_id = user_id;
  token_hash = token_hash;
  expires_at = now + reset_lifetime_ms;
  used_at = none;
}

-- `requestPasswordReset` from the user on
abbrev pub request_for :
    ResetInput
    → Text
    → Text
    → ℕ
    → PasswordTables
    → Option Text
    → Option User
    → PasswordRun (Option Requested)
request_for input email token_hash now db url none = (done none, db)
request_for input email token_hash now db url (some u) =
    if not (reset_ok (new_reset input u.id token_hash now) db.resets)
    then (refused violated, db)
    else insert_reset input email (new_reset input u.id token_hash now) now db url

abbrev pub may_reset : Text → User → Bool
may_reset email u = u.email === email && same_status u.status active && u.email_verified

abbrev pub is_credential_of : Text → Credential → Bool
is_credential_of user_id c = c.user_id === user_id && c.provider_id === text "credential"

abbrev pub with_password : Text → ℕ → Credential → Credential
with_password password now c = record c { password = some password; updated_at = now }

abbrev pub is_session_of : Text → Session → Bool
is_session_of user_id s = s.user_id === user_id

-- The new password, and the end of the user's sessions.
abbrev pub replace_password : Text → Text → ℕ → PasswordTables → PasswordTables
replace_password user_id password now db = record db {
  tables = record db.tables { sessions = delete (is_session_of user_id) db.tables.sessions };
  credentials = update (is_credential_of user_id) (with_password password now) db.credentials;
}

abbrev pub record_password_event : AuditEvent → PasswordTables → PasswordTables
record_password_event event db = record db { tables = record_event event db.tables }

-- the user of a request, by the join
abbrev pub is_active_user : Text → List User → Bool
is_active_user user_id users = any (λ u. has_id user_id u && same_status u.status active) users

-- `completePasswordReset` from the row on
unfoldable pub complete_found : Text → ℕ → PasswordTables → Option PasswordReset → PasswordRun Text
unfolding same_status
complete_found password now db none = (refused invalid_reset, db)
complete_found password now db (some r) =
    if not (is_active_user r.user_id db.tables.users) || leb r.expires_at now
    then (refused invalid_reset, db)
    else (
      done r.user_id,
      record_password_event
          (password_event (text "password.reset.complete") (some r.user_id) r.user_id
            (reset_key r.id))
          (record (replace_password r.user_id password now db) {
            resets = update (has_reset_id r.id) (use_reset now) db.resets;
          }),
    )

-- `hashInvitationToken` is SHA-256 in hexadecimal digits, and `reset_url` the address with the
-- parameter `token`.
module _ (to_lower_case : Text → Text) (hash : Text → Text)
    (reset_url : Text → Text → Option Text) where
  -- `requestPasswordReset`
  unfoldable pub request_password_reset :
      ResetInput → ℕ → PasswordTables → PasswordRun (Option Requested)
  unfolding trim same_status
  request_password_reset input now db =
      let email = to_lower_case (trim input.email) in
      request_for input email (hash input.token) now db (reset_url input.reset_base_url input.token)
        (find (may_reset email) db.tables.users)

module _ (hash : Text → Text) where
  -- `completePasswordReset`
  unfoldable pub complete_password_reset : Text → Text → ℕ → PasswordTables → PasswordRun Text
  unfolding complete_found
  complete_password_reset password token now db =
      complete_found password now db (find (is_live (hash token)) db.resets)
