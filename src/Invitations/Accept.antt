-- ===== src/Invitations/Accept.antt =====
-- packages/db/src/invitations.ts: accepting an invitation.
use ntauth.Common.{
  ℕ, Bool, true, not, ◌&&◌, ◌||◌, Option, none, some, List, [], ◌∷◌, ◌++◌, if◌then◌else◌, any, leb,
}
use ntauth.Text.{Text, text, ◌===◌}
use ntauth.Database.{User, active, Account, Membership, Tables, success}
use ntauth.Database.Rows.{find, update}
use ntauth.Database.Users.{has_id}
use ntauth.Database.Organizations.Members.{membership_ok, new_membership}
use ntauth.Invitations.{
  InvitationStatus, accepted, cancelled, pending, Invitation, InvitationTables, invalid_invitation,
  violated, answered, failed, InvitationRun, invitation_event, record_invitation_event,
  has_invitation_id, has_token_hash, has_email, with_acceptance,
}

-- What the callers of `acceptInvitation` send, and the identifiers of the rows that it may insert.
pub record AcceptInput : Type 0 where
  pub name : Text
  pub password_hash : Text
  pub token : Text
  pub fresh_user : Text
  pub fresh_account : Text
  pub fresh_member : Text

pub record Acceptance : Type 0 where
  pub email : Text
  pub organization_id : Text
  pub user_id : Text

-- the user that `acceptInvitation` inserts
abbrev pub invited_user : AcceptInput → Text → ℕ → User
invited_user input email now = record {
  id = input.fresh_user;
  name = input.name;
  email = email;
  email_verified = true;
  image = none;
  status = active;
  status_changed_at = none;
  deleted_at = none;
  updated_at = now;
}

abbrev pub verified : User → User
verified u = record u { email_verified = true }

-- The user of an invitation, and the users after they are found or inserted; `none` is a violated
-- primary key.
abbrev pub with_user : AcceptInput → Text → ℕ → List User → Option User → Option (Text × List User)
with_user input email now users (some u) = some (u.id, update (has_id u.id) verified users)
with_user input email now users none =
    if any (has_id input.fresh_user) users
    then none
    else some (input.fresh_user, users ++ invited_user input email now ∷ [])

abbrev pub is_credential_of : Text → Account → Bool
is_credential_of user_id a = a.user_id === user_id && a.provider_id === text "credential"

abbrev pub credential_account : AcceptInput → Text → Account
credential_account input user_id = record {
  id = input.fresh_account;
  provider_id = text "credential";
  account_id = user_id;
  user_id = user_id;
}

-- the unique indexes of `account`
abbrev pub account_taken : AcceptInput → Text → List Account → Bool
account_taken input user_id accounts =
    any
      (λ a.
        a.id === input.fresh_account
        || (a.provider_id === text "credential" && a.account_id === user_id))
      accounts

abbrev pub with_account : AcceptInput → Text → InvitationTables → InvitationTables
with_account input user_id db = record db {
  tables = record db.tables {
    accounts = db.tables.accounts ++ credential_account input user_id ∷ [];
  };
  passwords = db.passwords ++ (input.fresh_account, input.password_hash) ∷ [];
}

-- The tables with a credential account of the user; `none` is a violated index.
abbrev pub with_credential : AcceptInput → Text → InvitationTables → Option InvitationTables
with_credential input user_id db =
    if any (is_credential_of user_id) db.tables.accounts
    then some db
    else if account_taken input user_id db.tables.accounts
    then none
    else some (with_account input user_id db)

-- `acceptInvitation` from the account on
abbrev pub join_organization :
    AcceptInput
    → ℕ
    → Invitation
    → Text
    → InvitationTables
    → Option InvitationTables
    → InvitationRun Acceptance
join_organization input now i user_id before none = (failed violated, before)
join_organization input now i user_id before (some db) =
    if not (membership_ok input.fresh_member i.organization_id user_id db.tables)
    then (failed violated, before)
    else (
      answered record { email = i.email; organization_id = i.organization_id; user_id = user_id },
      record_invitation_event
          (invitation_event (text "invitation.accept") success user_id (some i.id) i.organization_id
            (text "invitation:" ++ i.id) [])
          (record db {
            tables = record db.tables {
              members =
                  db.tables.members
                  ++ new_membership input.fresh_member i.organization_id i.role user_id now ∷ [];
            };
            invitations = update (has_invitation_id i.id) (with_acceptance now) db.invitations;
          }),
    )

-- `acceptInvitation` of a pending invitation, from the user on
abbrev pub accept_as :
    AcceptInput
    → ℕ
    → Invitation
    → InvitationTables
    → Option (Text × List User)
    → InvitationRun Acceptance
accept_as input now i before none = (failed violated, before)
accept_as input now i before (some (user_id, users)) =
    join_organization input now i user_id before (
      with_credential input user_id
        (record before { tables = record before.tables { users = users } }))

-- The membership of the user with the invitation's address.
abbrev pub is_accepted_member : Invitation → Tables → Text × Text → Bool
is_accepted_member i db (organization_id, user_id) =
    organization_id === i.organization_id
    && any (λ u. has_id user_id u && has_email i.email u) db.users

-- `acceptInvitation` of an invitation that is accepted
abbrev pub accepted_before :
    Invitation → InvitationTables → Option Membership → InvitationRun Acceptance
accepted_before i db none = (failed invalid_invitation, db)
accepted_before i db (some m) = (
  answered record { email = i.email; organization_id = i.organization_id; user_id = m.user_id },
  db,
)

abbrev pub accept_status :
    AcceptInput → ℕ → InvitationTables → Invitation → InvitationStatus → InvitationRun Acceptance
accept_status input now db i accepted =
    accepted_before i db
      (find (λ m. is_accepted_member i db.tables (m.organization_id, m.user_id)) db.tables.members)
accept_status input now db i cancelled = (failed invalid_invitation, db)
accept_status input now db i pending =
    if leb i.expires_at now
    then (failed invalid_invitation, db)
    else accept_as input now i db
        (with_user input i.email now db.tables.users (find (has_email i.email) db.tables.users))

-- `acceptInvitation` from the row on
unfoldable pub accept_found :
    AcceptInput → ℕ → InvitationTables → Option Invitation → InvitationRun Acceptance
unfolding membership_ok
accept_found input now db none = (failed invalid_invitation, db)
accept_found input now db (some i) = accept_status input now db i i.status

-- `acceptInvitation`; `hashInvitationToken` is SHA-256 in hexadecimal digits.
module _ (hash : Text → Text) where
  unfoldable pub accept_invitation : AcceptInput → ℕ → InvitationTables → InvitationRun Acceptance
  unfolding accept_found
  accept_invitation input now db =
      accept_found input now db (find (has_token_hash (hash input.token)) db.invitations)
