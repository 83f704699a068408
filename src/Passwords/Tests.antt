-- ===== src/Passwords/Tests.antt =====
-- Runs of the calls of passwords.ts on small tables, and the theorems at such tables.
use ntauth.Common.{
  ℕ, zero, suc, ◌-◌, ◌≡◌, refl, sym, subst, true, Option, none, some, [], ◌∷◌, ◌++◌, arith, length,
}
use ntauth.Text.{Text, text, ◌===◌, trim}
use ntauth.Database.{active, Actor}
use ntauth.Database.Rows.{find}
use ntauth.Database.Users.{same_status}
use ntauth.Passwords.{
  PasswordReset, PasswordTables, done, refused, invalid_reset, invalid_current, is_live, ResetInput,
  complete_found, request_password_reset, complete_password_reset,
}
use ntauth.Passwords.Change.{change_password}
use ntauth.Passwords.Reset.{IsCompletion, complete_password_reset-IsCompletion}
use ntauth.Passwords.Once.{
  AreIndexedResets, request, perform_password, start, later, complete_password_reset_once,
}

abbrev itself : Text → Text
itself s = s

abbrev zeros : ℕ → Text
zeros zero = []
zeros (suc n) = 48 ∷ zeros n

abbrev hash : Text → Text
hash token = zeros (64 - length token) ++ token

abbrev reset_url : Text → Text → Option Text
reset_url base token = some (base ++ text "?token=" ++ token)

abbrev ann : Actor
ann = record { request_id = text "r-1"; user_id = text "ann" }

abbrev base : PasswordTables
base = record {
  tables = record {
    users =
        record {
          id = text "ann";
          name = text "Ann";
          email = text "ann@x";
          email_verified = true;
          image = none;
          status = active;
          status_changed_at = none;
          deleted_at = none;
          updated_at = 0;
        }
        ∷ [];
    sessions =
        record { id = text "s-1"; token = text "t-1"; user_id = text "ann"; expires_at = 9 } ∷ [];
    accounts = [];
    organizations = [];
    members = [];
    assignments = [];
    audit_events = [];
  };
  credentials =
      record {
        id = text "a-1";
        user_id = text "ann";
        provider_id = text "credential";
        password = some (text "old");
        updated_at = 0;
      }
      ∷ [];
  resets = [];
  jobs = [];
}

abbrev asked : Text → ResetInput
asked token = record {
  email = text "ann@x";
  reset_base_url = text "https://x";
  token = token;
  fresh_reset = token;
  fresh_job = token;
}

abbrev sent : PasswordTables
sent = perform_password itself hash reset_url (request (asked (text "first"))) 5 base

abbrev first_row : PasswordReset
first_row = record {
  id = text "first";
  user_id = text "ann";
  token_hash = hash (text "first");
  expires_at = 1800005;
  used_at = none;
}

run : Unit {0}
unfolding ◌===◌ trim same_status complete_found request_password_reset complete_password_reset
    change_password perform_password
run = tt

sent_rows : sent.resets ≡ first_row ∷ []
unfolding run
sent_rows = refl

-- A second request takes the first token away.
superseded :
    (complete_password_reset hash
      (text "new")
      (text "first")
      7
      (perform_password itself hash reset_url (request (asked (text "second"))) 6 sent)).0
    ≡ refused invalid_reset
unfolding run
superseded = refl

late :
    (complete_password_reset hash (text "new") (text "first") 1800005 sent).0
    ≡ refused invalid_reset
unfolding run
late = refl

wrong :
    (change_password (λ p. p === text "else") (text "new") ann 6 base).0 ≡ refused invalid_current
unfolding run
wrong = refl

sent_row : find (is_live (hash (text "first"))) sent.resets ≡ some first_row
unfolding run
sent_row = refl

complete_password_reset-IsCompletion_example :
    IsCompletion
      (text "new")
      6
      first_row
      sent
      (complete_password_reset hash (text "new") (text "first") 6 sent)
complete_password_reset-IsCompletion_example =
    complete_password_reset-IsCompletion hash (text "new") (text "first") 6 sent first_row sent_row

one_row : (r : PasswordReset) → AreIndexedResets (r ∷ [])
one_row r = (λ id. ground arith, λ token_hash. ground arith)

abbrev completed : PasswordTables
completed = (complete_password_reset hash (text "new") (text "first") 6 sent).1

first_completed :
    (complete_password_reset hash (text "new") (text "first") 6 sent).0 ≡ done (text "ann")
unfolding run
first_completed = refl

-- Even after another request.
complete_password_reset_once_example :
    let after =
      perform_password itself hash reset_url (request (asked (text "second"))) 7 completed in
    complete_password_reset hash (text "newer") (text "first") 8 after
    ≡ (refused invalid_reset, after)
complete_password_reset_once_example =
    complete_password_reset_once itself hash reset_url (text "new") (text "newer") (text "first")
      (text "ann") 6 8 sent
      (perform_password itself hash reset_url (request (asked (text "second"))) 7 completed)
      (subst AreIndexedResets (sym sent_rows) (one_row first_row)) first_completed
      (later {db = completed} (request (asked (text "second"))) 7 start)
