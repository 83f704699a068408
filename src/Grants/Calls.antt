-- ===== src/Grants/Calls.antt =====
-- packages/db/src/service-grants.ts: sequences of calls.
use ntauth.Common.{ℕ, Bool, Option}
use ntauth.Text.{Text}
use ntauth.Database.{Actor, returned, thrown}
use ntauth.Grants.{GrantRun, GrantTables, create_service_grant, list_service_grants}
use ntauth.Grants.Update.{revoke_service_grant, set_service_grant_active}

-- A call, with its input.
pub data GrantCall : Type 0 where
  create_grant : Text → Option Bool → Text → Text → Text → GrantCall
  set_active : Bool → Text → GrantCall
  revoke_grant : Text → GrantCall
  list_grants : Text → Option Text → Option Text → GrantCall

abbrev pub forget_grant {ℓ} : {A : Type ℓ} → GrantRun A → GrantRun (Unit {0})
forget_grant (returned _, db) = (returned tt, db)
forget_grant (thrown failure, db) = (thrown failure, db)

unfoldable pub perform_grant : GrantCall → Actor → ℕ → GrantTables → GrantRun (Unit {0})
unfolding create_service_grant set_service_grant_active revoke_service_grant list_service_grants
perform_grant (create_grant fresh chosen organization_id service user_id) actor now db =
    forget_grant (create_service_grant fresh chosen organization_id service user_id actor now db)
perform_grant (set_active chosen grant_id) actor now db =
    forget_grant (set_service_grant_active chosen grant_id actor now db)
perform_grant (revoke_grant grant_id) actor now db =
    forget_grant (revoke_service_grant grant_id actor now db)
perform_grant (list_grants organization_id service user_id) actor now db =
    forget_grant (list_service_grants organization_id service user_id actor db)

-- The tables that some calls, by any actors at any times, make of `before`.
pub data ReachesGrants (before : GrantTables) : GrantTables → Type 0 where
  start : ReachesGrants before before
  later :
      {db : GrantTables} (call : GrantCall) (actor : Actor) (now : ℕ)
      → ReachesGrants before db
      → ReachesGrants before (perform_grant call actor now db).1
