-- ===== src/Database/History.antt =====
-- packages/db/src: sequences of calls of the functions of user-lifecycle.ts, sessions.ts and
-- organizations.ts that change the tables. The calls run one after the other: the source locks the
-- rows that it changes, but some of its reads, as those of the authorization, take no lock, so that
-- calls that overlap may see other rows than they do here.
pub mod Audit
pub mod Deleted
pub mod Indexed
use ntauth.Common.{ℕ, ◌≡◌, Option, some, List, [], ◌∷◌, ◌++◌}
use ntauth.Text.{Text}
use ntauth.Database.{
  OrganizationStatus, OrganizationRole, MembershipStatus, AuditEvent, AuditOutcome, denied, success,
  Actor, Tables, Result, Run, returned, thrown, unauthorized, not_found, conflict,
  invalid_transition, membership_missing, constraint, record_event,
}
use ntauth.Database.Users.{ReversibleUserStatus, set_user_status, delete_user}
use ntauth.Database.Sessions.{RevocationReason, revoke_user_sessions}
use ntauth.Database.Organizations.{update_organization, create_organization}
use ntauth.Database.Organizations.Members.{
  update_organization_member, add_organization_member, change_organization_member_role,
}

-- A call, with its input.
pub data Call : Type 0 where
  change_user : Text → ReversibleUserStatus → Call
  erase : Text → Call
  revoke : RevocationReason → Text → Call
  rename_organization : Text → Text → OrganizationStatus → Call
  found_organization : Text → Text → Text → Call
  change_member : Text → OrganizationRole → MembershipStatus → Text → Call
  add_member : Text → Text → OrganizationRole → Text → Call
  change_role : Text → OrganizationRole → Text → Call

-- The call without the value that it gives.
abbrev pub forget {ℓ} : {A : Type ℓ} → Run A → Run (Unit {0})
forget (returned _, db) = (returned tt, db)
forget (thrown failure, db) = (thrown failure, db)

unfoldable pub perform : Call → Actor → ℕ → Tables → Run (Unit {0})
unfolding set_user_status delete_user revoke_user_sessions update_organization create_organization
    update_organization_member add_organization_member change_organization_member_role
perform (change_user target status) actor now db =
    forget (set_user_status target status actor now db)
perform (erase target) actor now db = forget (delete_user target actor now db)
perform (revoke reason target) actor now db = forget (revoke_user_sessions reason target actor db)
perform (rename_organization organization_id name status) actor now db =
    forget (update_organization organization_id name status actor now db)
perform (found_organization fresh name slug) actor now db =
    forget (create_organization fresh name slug actor now db)
perform (change_member organization_id role status user_id) actor now db =
    forget (update_organization_member organization_id role status user_id actor now db)
perform (add_member fresh organization_id role user_id) actor now db =
    forget (add_organization_member fresh organization_id role user_id actor now db)
perform (change_role organization_id role user_id) actor now db =
    forget (change_organization_member_role organization_id role user_id actor now db)

-- The tables that some calls, by any actors at any times, make of `before`.
pub data Reaches (before : Tables) : Tables → Type 0 where
  start : Reaches before before
  later :
      {db : Tables} (call : Call) (actor : Actor) (now : ℕ)
      → Reaches before db
      → Reaches before (perform call actor now db).1

-- The event names who made the call, and in which request.
abbrev pub Names : Actor → AuditEvent → Type 0
Names actor event =
    (event.actor_user_id ≡ some actor.user_id) × (event.request_id ≡ actor.request_id)

-- A call that gives a value adds one event that reports success; one that is refused adds one event
-- that reports so, and does nothing else; one that fails in another way does nothing.
abbrev pub IsAudited : Actor → Tables → Run (Unit {0}) → Type 0
IsAudited actor db (returned _, after) =
    (event : AuditEvent) × (after.audit_events ≡ db.audit_events ++ event ∷ [])
    × (event.outcome ≡ success)
    × Names actor event
IsAudited actor db (thrown unauthorized, after) =
    (event : AuditEvent) × (after ≡ record_event event db)
    × (event.outcome ≡ denied)
    × Names actor event
IsAudited actor db (thrown _, after) = after ≡ db
