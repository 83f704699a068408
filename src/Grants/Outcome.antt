-- ===== src/Grants/Outcome.antt =====
-- packages/db/src/service-grants.ts: what a call leaves, however it ends.
use ntauth.Common.{
  ℕ, ◌≡◌, refl, ◌⊎◌, inl, inr, Bool, not, ◌&&◌, ◌||◌, Option, none, some, List, Bool-cases, any,
}
use ntauth.Text.{Text, ◌===◌}
use ntauth.Database.{
  Actor, AuditEvent, denied, success, record_event, returned, thrown, unauthorized,
}
use ntauth.Database.Rows.{find}
use ntauth.Database.Users.{has_id}
use ntauth.Database.History.{Names}
use ntauth.Policies.{is_active_service}
use ntauth.Grants.{
  ServiceGrant, GrantTables, GrantRun, valid_service, can_manage_grants,
  target_belongs_to_organization, record_grant_event, is_revoked, is_current_grant, has_grant_id,
  create_service_grant, list_service_grants,
}
use ntauth.Grants.Update.{
  set_loaded_active, set_service_grant_active, revoke_loaded, revoke_service_grant,
}
use ntauth.Grants.Calls.{
  GrantCall, create_grant, set_active, revoke_grant, list_grants, forget_grant, perform_grant,
}

-- A call that gives a value changes nothing, or only the grants, which one event reports; one that is
-- refused adds one event that reports so and does nothing else; one that fails in another way does
-- nothing.
abbrev pub IsRecorded : Actor → GrantTables → GrantRun (Unit {0}) → Type 0
IsRecorded actor db (returned _, after) =
    (after ≡ db)
    ⊎ ((event : AuditEvent) × (grants : List ServiceGrant) × (after ≡ record {
      tables = record_event event db.tables;
      services = db.services;
      grants = grants;
    })
        × (event.outcome ≡ success)
        × Names actor event)
IsRecorded actor db (thrown unauthorized, after) =
    (event : AuditEvent) × (after ≡ record_grant_event event db)
    × (event.outcome ≡ denied)
    × Names actor event
IsRecorded actor db (thrown _, after) = after ≡ db

set_loaded_active-IsRecorded :
    (chosen : Bool) (grant_id : Text) (actor : Actor) (now : ℕ) (db : GrantTables)
    (o : Option ServiceGrant)
    → IsRecorded actor db (forget_grant (set_loaded_active chosen grant_id actor now db o))
unfolding set_loaded_active
set_loaded_active-IsRecorded chosen grant_id actor now db none = refl
set_loaded_active-IsRecorded chosen grant_id actor now db (some g) =
    elim (Bool-cases (can_manage_grants actor.user_id g.organization_id db.tables)) [
      | inl e ↦ elim (Bool-cases (is_revoked g.status)) [
        | inl r ↦ rw e (rw r refl)
        | inr r ↦ rw e (rw r (inr (_, _, refl, refl, (refl, refl))))
      ]
      | inr e ↦ rw e (_, refl, refl, (refl, refl))
    ]

revoke_loaded-IsRecorded :
    (grant_id : Text) (actor : Actor) (now : ℕ) (db : GrantTables) (o : Option ServiceGrant)
    → IsRecorded actor db (forget_grant (revoke_loaded grant_id actor now db o))
unfolding revoke_loaded
revoke_loaded-IsRecorded grant_id actor now db none = refl
revoke_loaded-IsRecorded grant_id actor now db (some g) =
    elim (Bool-cases (can_manage_grants actor.user_id g.organization_id db.tables)) [
      | inl e ↦ elim (Bool-cases (is_revoked g.status)) [
        | inl r ↦ rw e (rw r (inl refl))
        | inr r ↦ elim (Bool-cases (any (has_id actor.user_id) db.tables.users)) [
          | inl u ↦ rw e (rw r (rw u (inr (_, _, refl, refl, (refl, refl)))))
          | inr u ↦ rw e (rw r (rw u refl))
        ]
      ]
      | inr e ↦ rw e (_, refl, refl, (refl, refl))
    ]

create-IsRecorded :
    (fresh : Text) (chosen : Option Bool) (organization_id service user_id : Text) (actor : Actor)
    (now : ℕ) (db : GrantTables)
    → IsRecorded actor db (
        forget_grant
          (create_service_grant fresh chosen organization_id service user_id actor now db))
unfolding create_service_grant
create-IsRecorded fresh chosen organization_id service user_id actor now db =
    elim (Bool-cases (valid_service service)) [
      | inr v ↦ rw v refl
      | inl v ↦
          elim (Bool-cases (
            not (can_manage_grants actor.user_id organization_id db.tables)
            || not (target_belongs_to_organization organization_id user_id db.tables))) [
              | inl d ↦ rw v (rw d (_, refl, refl, (refl, refl)))
              | inr d ↦
                  elim (Bool-cases (
                    not (any (λ s. s.key === service && is_active_service s.status) db.services)
                    || any (is_current_grant organization_id service user_id) db.grants
                    || any (has_grant_id fresh) db.grants)) [
                      | inl c ↦ rw v (rw d (rw c refl))
                      | inr c ↦
                          elim (Bool-cases (
                            any (has_id user_id) db.tables.users
                            && any (has_id actor.user_id) db.tables.users)) [
                              | inl u ↦
                                  rw v (rw d (rw c (rw u (inr (_, _, refl, refl, (refl, refl))))))
                              | inr u ↦ rw v (rw d (rw c (rw u refl)))
                            ]
                    ]
            ]
    ]

-- A call of the service grants that gives a value leaves the tables as they were, or changes only the
-- grants and adds one event that reports success by the actor; a call that is refused adds only one
-- event that reports so; and a call that fails in another way leaves the tables as they were.
pub perform_grant-IsRecorded :
    (call : GrantCall) (actor : Actor) (now : ℕ) (db : GrantTables)
    → IsRecorded actor db (perform_grant call actor now db)
unfolding perform_grant set_service_grant_active revoke_service_grant list_service_grants
perform_grant-IsRecorded (create_grant fresh chosen at service user_id) actor now db =
    create-IsRecorded fresh chosen at service user_id actor now db
perform_grant-IsRecorded (set_active chosen grant_id) actor now db =
    set_loaded_active-IsRecorded chosen grant_id actor now db
      (find (has_grant_id grant_id) db.grants)
perform_grant-IsRecorded (revoke_grant grant_id) actor now db =
    revoke_loaded-IsRecorded grant_id actor now db (find (has_grant_id grant_id) db.grants)
perform_grant-IsRecorded (list_grants organization_id service user_id) actor now db =
    elim (Bool-cases (can_manage_grants actor.user_id organization_id db.tables)) [
      | inl e ↦ rw e (inl refl)
      | inr e ↦ rw e (_, refl, refl, (refl, refl))
    ]
