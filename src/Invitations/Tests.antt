-- ===== src/Invitations/Tests.antt =====
-- Runs of the calls of invitations.ts on small tables, and the theorems at such tables.
use ntauth.Common.{
  ℕ, zero, suc, ◌-◌, ◌≡◌, refl, sym, subst, Bool, true, Option, none, some, [], ◌∷◌, ◌++◌, arith,
  length,
}
use ntauth.Text.{Text, text, ◌===◌, trim}
use ntauth.Database.{active, organization_active, platform_admin, member, Actor}
use ntauth.Database.Rows.{find}
use ntauth.Database.Users.{is_platform_admin}
use ntauth.Database.Organizations.{can_manage}
use ntauth.Database.Organizations.Members.{membership_ok}
use ntauth.Invitations.{
  Invitation, pending, accepted, InvitationTables, has_token_hash, has_invitation_id,
  invalid_invitation, failed, answered, cancel_found, cancel_invitation,
}
use ntauth.Invitations.Accept.{AcceptInput, accept_found, accept_invitation}
use ntauth.Invitations.Create.{InvitationInput, create_invitation, get_invitation_preview}
use ntauth.Invitations.Joined.{IsOutcome, accept_invitation-IsOutcome}
use ntauth.Invitations.Lifecycle.{create, accept, cancel, perform_invitation, start, later}
use ntauth.Invitations.Final.{AreDistinct, ReachesInvitations-settled}

abbrev root : Actor
root = record { request_id = text "r-1"; user_id = text "root" }

abbrev acme : Text
acme = text "acme"

abbrev itself : Text → Text
itself s = s

abbrev zeros : ℕ → Text
zeros zero = []
zeros (suc n) = 48 ∷ zeros n

abbrev hash : Text → Text
hash token = zeros (64 - length token) ++ token

abbrev stored : Text → Bool
stored email = true

abbrev accept_url : Text → Text → Option Text
accept_url base token = some (base ++ text "?token=" ++ token)

abbrev base : InvitationTables
base = record {
  tables = record {
    users =
        record {
          id = text "root";
          name = text "Root";
          email = text "root@x";
          email_verified = true;
          image = none;
          status = active;
          status_changed_at = none;
          deleted_at = none;
          updated_at = 0;
        }
        ∷ [];
    sessions = [];
    accounts = [];
    organizations =
        record { id = acme; name = acme; slug = acme; status = organization_active; updated_at = 0 }
        ∷ [];
    members = [];
    assignments = record { user_id = text "root"; role = platform_admin } ∷ [];
    audit_events = [];
  };
  passwords = [];
  invitations = [];
  jobs = [];
}

abbrev invite : InvitationInput
invite = record {
  email = text " ann@x ";
  invitation_base_url = text "https://x";
  organization_id = acme;
  role = member;
  token = text "secret";
  fresh_invitation = text "i-1";
  fresh_job = text "j-1";
}

abbrev answer : AcceptInput
answer = record {
  name = text "Ann";
  password_hash = text "h";
  token = text "secret";
  fresh_user = text "u-1";
  fresh_account = text "a-1";
  fresh_member = text "m-1";
}

abbrev sent : InvitationTables
sent = perform_invitation itself hash stored accept_url (create invite root) 5 base

abbrev joined : InvitationTables
joined = perform_invitation itself hash stored accept_url (accept answer) 6 sent

run : Unit {0}
unfolding ◌===◌ trim is_platform_admin can_manage membership_ok cancel_found cancel_invitation
    accept_found accept_invitation create_invitation get_invitation_preview perform_invitation
run = tt

abbrev row : Invitation
row = record {
  id = text "i-1";
  email = text "ann@x";
  organization_id = acme;
  role = member;
  token_hash = hash (text "secret");
  status = pending;
  invited_by_user_id = text "root";
  expires_at = 259200005;
  accepted_at = none;
  cancelled_at = none;
  created_at = 5;
}

abbrev accepted_row : Invitation
accepted_row = record row { status = accepted; accepted_at = some 6 }

sent_row : find (has_token_hash (hash (text "secret"))) sent.invitations ≡ some row
unfolding run
sent_row = refl

joined_row : find (has_invitation_id (text "i-1")) joined.invitations ≡ some accepted_row
unfolding run
joined_row = refl

-- At the moment of its expiry an invitation is no longer accepted.
late : (accept_invitation hash answer 259200005 sent).0 ≡ failed invalid_invitation
unfolding run
late = refl

-- Accepting again gives the same answer.
again :
    (accept_invitation hash answer 9 joined).0
    ≡ answered record { email = text "ann@x"; organization_id = acme; user_id = text "u-1" }
unfolding run
again = refl

previewed :
    get_invitation_preview hash (text "secret") 5 sent
    ≡ answered record {
      email = text "ann@x";
      expires_at = 259200005;
      organization_name = acme;
      role = member;
    }
unfolding run
previewed = refl

accept_invitation-IsOutcome_example : IsOutcome 6 row sent (accept_invitation hash answer 6 sent)
accept_invitation-IsOutcome_example = accept_invitation-IsOutcome hash answer 6 row sent sent_row

joined_rows : joined.invitations ≡ accepted_row ∷ []
unfolding run
joined_rows = refl

one_row : (i : Invitation) → AreDistinct (i ∷ [])
one_row i id = ground arith

joined_distinct : AreDistinct joined.invitations
joined_distinct = subst AreDistinct (sym joined_rows) (one_row accepted_row)

ReachesInvitations-settled_example :
    find
      (has_invitation_id (text "i-1"))
      (perform_invitation itself hash stored accept_url
        (cancel (text "i-1") root)
        7
        joined).invitations
    ≡ some accepted_row
unfolding run
ReachesInvitations-settled_example =
    ReachesInvitations-settled itself hash stored accept_url (text "i-1") accepted_row
      (later {db = joined} (cancel (text "i-1") root) 7 start) joined_distinct joined_row
      (λ h. ground (arith, h))
