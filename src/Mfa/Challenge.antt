-- ===== src/Mfa/Challenge.antt =====
-- packages/db/src/mfa.ts: enrolling, and the challenge before a privileged request. Decrypting a stored
-- secret is an argument, which gives nothing where the decryption throws; so are the secret that is
-- drawn at an enrolment, encrypted, and the identifiers that are drawn for requests.
pub mod Replay
use ntauth.Common.{
  ℕ, ◌+◌, Bool, true, false, not, ◌&&◌, ◌||◌, Option, none, some, List, [], ◌∷◌, ◌++◌,
  if◌then◌else◌, any, leb, ltb,
}
use ntauth.Text.{Text, text, ◌===◌}
use ntauth.Json.{Value, string}
use ntauth.Database.{Tables, User, active, AuditEvent, AuditOutcome, denied, success, record_event}
use ntauth.Database.Rows.{find, update}
use ntauth.Database.Users.{has_id, same_status, is_platform_admin}
use ntauth.Mfa.Code.{matching_counter}

-- the table `mfa_enrollments`
pub record Enrollment : Type 0 where
  pub user_id : Text
  pub encrypted_secret : Text
  pub verified_at : Option ℕ
  pub last_used_counter : Option ℕ
  pub updated_at : ℕ

pub record MfaTables : Type 0 where
  pub accounts : Tables
  pub enrollments : List Enrollment

-- How a call ends; the last three are thrown.
pub data MfaOutcome : Type 0 where
  enrolled verified not_required enrollment_required invalid not_permitted : MfaOutcome

abbrev pub mfa_event : Text → AuditOutcome → Text → Text → List (Text × Value) → AuditEvent
mfa_event action outcome user_id request_id metadata = record {
  actor_user_id = some user_id;
  action = action;
  resource_type = text "user";
  resource_id = some user_id;
  organization_id = none;
  outcome = outcome;
  request_id = request_id;
  metadata = metadata;
}

abbrev pub with_event : AuditEvent → MfaTables → MfaTables
with_event event db = record db { accounts = record_event event db.accounts }

abbrev pub is_of : Text → Enrollment → Bool
is_of user_id e = e.user_id === user_id

abbrev pub is_verified : Enrollment → Bool
is_verified e = elim e.verified_at [ none ↦ false | some _ ↦ true ]

abbrev pub fresh_enrollment : Text → Text → ℕ → Enrollment
fresh_enrollment user_id encrypted now = record {
  user_id = user_id;
  encrypted_secret = encrypted;
  verified_at = none;
  last_used_counter = none;
  updated_at = now;
}

-- `insert … on conflict (user_id) do update`
abbrev pub upsert : Text → Text → ℕ → List Enrollment → List Enrollment
upsert user_id encrypted now enrollments =
    if any (is_of user_id) enrollments
    then update (is_of user_id) (λ e. fresh_enrollment e.user_id encrypted now) enrollments
    else enrollments ++ fresh_enrollment user_id encrypted now ∷ []

-- `beginMfaEnrollment`, without the address that shows the secret to the user
unfoldable pub begin_mfa_enrollment : Text → Text → Text → ℕ → MfaTables → MfaOutcome × MfaTables
unfolding same_status is_platform_admin
begin_mfa_enrollment user_id encrypted request_id now db =
    if any (λ u. has_id user_id u && same_status u.status active) db.accounts.users
      && is_platform_admin user_id db.accounts
    then (
      enrolled,
      with_event (mfa_event (text "mfa.enrollment.start") success user_id request_id [])
          (record db { enrollments = upsert user_id encrypted now db.enrollments }),
    )
    else (
      not_permitted,
      with_event (mfa_event (text "mfa.enrollment.start") denied user_id request_id []) db,
    )

-- `now` is when the counter is used.
abbrev pub use_counter : ℕ → ℕ → Enrollment → Enrollment
use_counter counter now e = record e { last_used_counter = some counter; updated_at = now }

abbrev pub verify_enrollment : ℕ → ℕ → Enrollment → Enrollment
verify_enrollment counter now e = record e {
  verified_at = some now;
  last_used_counter = some counter;
  updated_at = now;
}

-- `(lastUsedCounter ?? -1) >= counter`
abbrev pub is_used : Option ℕ → ℕ → Bool
is_used none counter = false
is_used (some last) counter = leb counter last

module _ (to_upper_case : Text → Text) (hmac : List ℕ → List ℕ → List ℕ)
    (decrypt : Text → Option Text) where
  -- `matchingCounter(await decryptTotpSecret(…), …)`
  unfoldable pub decrypted_counter : Text → Text → ℕ → Option (Option ℕ)
  unfolding matching_counter
  decrypted_counter encrypted code now = elim (decrypt encrypted) [
    | none ↦ none
    | some secret ↦ matching_counter to_upper_case hmac secret code now
  ]

  abbrev pub verify_with : Text → Text → ℕ → MfaTables → Option (Option ℕ) → MfaOutcome × MfaTables
  verify_with user_id request_id now db none = (invalid, db)
  verify_with user_id request_id now db (some none) = (
    invalid,
    with_event (mfa_event (text "mfa.enrollment.verify") denied user_id request_id []) db,
  )
  verify_with user_id request_id now db (some (some counter)) = (
    verified,
    with_event (mfa_event (text "mfa.enrollment.verify") success user_id request_id []) (record db {
      enrollments = update (is_of user_id) (verify_enrollment counter now) db.enrollments;
    }),
  )

  abbrev pub verify_found :
      Text → Text → Text → ℕ → MfaTables → Option Enrollment → MfaOutcome × MfaTables
  verify_found user_id code request_id now db none = (
    invalid,
    with_event (mfa_event (text "mfa.enrollment.verify") denied user_id request_id []) db,
  )
  verify_found user_id code request_id now db (some e) =
      if is_verified e
      then (
        invalid,
        with_event (mfa_event (text "mfa.enrollment.verify") denied user_id request_id []) db,
      )
      else verify_with user_id request_id now db (decrypted_counter e.encrypted_secret code now)

  -- `verifyMfaEnrollment`
  unfoldable pub verify_mfa_enrollment : Text → Text → Text → ℕ → MfaTables → MfaOutcome × MfaTables
  unfolding decrypted_counter
  verify_mfa_enrollment user_id code request_id now db =
      verify_found user_id code request_id now db (find (is_of user_id) db.enrollments)

  abbrev pub refuse_challenge : Text → Text → List (Text × Value) → MfaTables → MfaTables
  refuse_challenge user_id request_id metadata db =
      with_event (mfa_event (text "mfa.challenge") denied user_id request_id metadata) db

  abbrev pub challenge_with :
      Text → Text → ℕ → MfaTables → Enrollment → Option (Option ℕ) → MfaOutcome × MfaTables
  challenge_with user_id request_id now db e none = (invalid, db)
  challenge_with user_id request_id now db e (some none) =
      (invalid, refuse_challenge user_id request_id [] db)
  challenge_with user_id request_id now db e (some (some counter)) =
      if is_used e.last_used_counter counter
      then (invalid, refuse_challenge user_id request_id [] db)
      else (
        verified,
        record db { enrollments = update (is_of user_id) (use_counter counter now) db.enrollments },
      )

  -- The counter of a code, if one is given that is not empty.
  abbrev pub counter_of : Text → Option Text → ℕ → Option (Option ℕ)
  counter_of encrypted none now = some none
  counter_of encrypted (some code) now =
      if code === [] then some none else decrypted_counter encrypted code now

  abbrev pub challenge_found :
      Text → Option Text → Text → ℕ → MfaTables → Option Enrollment → MfaOutcome × MfaTables
  challenge_found user_id code request_id now db none = (
    enrollment_required,
    refuse_challenge user_id request_id ((text "reason", string (text "enrollment_required")) ∷ [])
        db,
  )
  challenge_found user_id code request_id now db (some e) =
      challenge_with user_id request_id now db e (counter_of e.encrypted_secret code now)

  -- `enforcePlatformAdminMfa`
  unfoldable pub enforce_platform_admin_mfa :
      Text → Option Text → Text → ℕ → MfaTables → MfaOutcome × MfaTables
  unfolding is_platform_admin decrypted_counter
  enforce_platform_admin_mfa user_id code request_id now db =
      if is_platform_admin user_id db.accounts
      then challenge_found user_id code request_id now db
          (find (λ e. is_of user_id e && is_verified e) db.enrollments)
      else (not_required, db)
