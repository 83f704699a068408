-- ===== src/Grants/Tests.antt =====
-- Runs of the calls of service-grants.ts on small tables, and the theorems at such tables.
use ntauth.Common.{◌≡◌, refl, true, false, none, some, [], ◌∷◌, arith}
use ntauth.Text.{Text, text, ◌===◌}
use ntauth.Database.{
  User, active, organization_active, platform_admin, member, member_active, Actor, thrown, conflict,
  not_found,
}
use ntauth.Database.Rows.{find}
use ntauth.Database.Users.{is_platform_admin, same_status}
use ntauth.Policies.{service_active, grant_active, grant_revoked}
use ntauth.Grants.{
  ServiceGrant, GrantTables, valid_service, can_manage_grants, target_belongs_to_organization,
  has_active_service_grant, has_grant_id, create_service_grant, list_service_grants,
}
use ntauth.Grants.Update.{
  set_loaded_active, set_service_grant_active, revoke_loaded, revoke_service_grant,
}
use ntauth.Grants.Calls.{
  GrantCall, create_grant, set_active, revoke_grant, perform_grant, start, later,
}
use ntauth.Grants.Outcome.{IsRecorded, perform_grant-IsRecorded}
use ntauth.Grants.Current.{IsSound, ReachesGrants-IsSound}
use ntauth.Grants.Revoked.{ReachesGrants-revoked, revoke_service_grant-withdraws}

abbrev root : Actor
root = record { request_id = text "r-1"; user_id = text "root" }

abbrev ann : Text
ann = text "ann"

abbrev acme : Text
acme = text "acme"

abbrev mail : Text
mail = text "mail"

abbrev user_named : Text → User
user_named user_id = record {
  id = user_id;
  name = user_id;
  email = user_id;
  email_verified = true;
  image = none;
  status = active;
  status_changed_at = none;
  deleted_at = none;
  updated_at = 0;
}

-- A platform administrator, and a member of an organization, who has no grant.
abbrev base : GrantTables
base = record {
  tables = record {
    users = user_named (text "root") ∷ user_named ann ∷ [];
    sessions = [];
    accounts = [];
    organizations =
        record { id = acme; name = acme; slug = acme; status = organization_active; updated_at = 0 }
        ∷ [];
    members =
        record {
          id = text "m-1";
          organization_id = acme;
          user_id = ann;
          role = member;
          status = member_active;
          updated_at = 0;
        }
        ∷ [];
    assignments = record { user_id = text "root"; role = platform_admin } ∷ [];
    audit_events = [];
  };
  services = record { key = mail; status = service_active } ∷ [];
  grants = [];
}

abbrev create_first : GrantCall
create_first = create_grant (text "g-1") none acme mail ann

abbrev granted : GrantTables
granted = (perform_grant create_first root 1 base).1

abbrev withdrawn : GrantTables
withdrawn = (perform_grant (revoke_grant (text "g-1")) root 2 granted).1

run : Unit {0}
unfolding ◌===◌ is_platform_admin same_status valid_service can_manage_grants
    target_belongs_to_organization has_active_service_grant create_service_grant set_loaded_active
    set_service_grant_active revoke_loaded revoke_service_grant list_service_grants perform_grant
run = tt

granted_active : has_active_service_grant acme mail ann granted ≡ true
unfolding run
granted_active = refl

granted_twice :
    (create_service_grant (text "g-2") none acme mail ann root 2 granted).0 ≡ thrown conflict
unfolding run
granted_twice = refl

-- After a revocation there may be a new grant, but the old one cannot be switched on.
granted_again :
    has_active_service_grant acme mail ann
      (create_service_grant (text "g-2") none acme mail ann root 3 withdrawn).1
    ≡ true
unfolding run
granted_again = refl

switched_on : (set_service_grant_active true (text "g-1") root 3 withdrawn).0 ≡ thrown not_found
unfolding run
switched_on = refl

perform_grant-IsRecorded_example :
    IsRecorded root granted (perform_grant (revoke_grant (text "g-1")) root 2 granted)
perform_grant-IsRecorded_example =
    perform_grant-IsRecorded (revoke_grant (text "g-1")) root 2 granted

base-IsSound : IsSound base.grants
base-IsSound = (λ id. omega arith, λ o s u. omega arith)

ReachesGrants-IsSound_example : IsSound granted.grants
ReachesGrants-IsSound_example = ReachesGrants-IsSound (later create_first root 1 start) base-IsSound

abbrev current : ServiceGrant
current = record {
  id = text "g-1";
  organization_id = acme;
  service = mail;
  user_id = ann;
  status = grant_active;
  created_by_user_id = text "root";
  revoked_by_user_id = none;
  revoked_at = none;
  created_at = 1;
  updated_at = 1;
}

abbrev gone : ServiceGrant
gone = record current {
  revoked_at = some 2;
  revoked_by_user_id = some (text "root");
  status = grant_revoked;
  updated_at = 2;
}

gone_row : find (has_grant_id (text "g-1")) withdrawn.grants ≡ some gone
unfolding run
gone_row = refl

ReachesGrants-revoked_example :
    find
      (has_grant_id (text "g-1"))
      (perform_grant (set_active true (text "g-1")) root 3 withdrawn).1.grants
    ≡ some gone
ReachesGrants-revoked_example =
    ReachesGrants-revoked (text "g-1") gone (later (set_active true (text "g-1")) root 3 start)
      gone_row refl

current_row : find (has_grant_id (text "g-1")) granted.grants ≡ some current
unfolding run
current_row = refl

revoke_service_grant-withdraws_example :
    has_active_service_grant acme mail ann (revoke_service_grant (text "g-1") root 2 granted).1
    ≡ false
unfolding run
revoke_service_grant-withdraws_example =
    revoke_service_grant-withdraws root 2 granted current ReachesGrants-IsSound_example current_row
      refl tt
