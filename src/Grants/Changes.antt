-- ===== src/Grants/Changes.antt =====
-- packages/db/src/service-grants.ts: how a call changes the grants.
use ntauth.Common.{
  ℕ, ◌≡◌, refl, Bool, false, not, ◌&&◌, ◌||◌, Option, none, some, List, [], ◌∷◌, ◌++◌, arith,
  Bool-cases, any, inl, inr,
}
use ntauth.Text.{Text, ◌===◌}
use ntauth.Database.{Actor, returned, thrown}
use ntauth.Database.Rows.{find, update}
use ntauth.Database.Users.{has_id}
use ntauth.Policies.{is_active_service}
use ntauth.Grants.{
  ServiceGrant, GrantTables, GrantRun, valid_service, can_manage_grants,
  target_belongs_to_organization, is_revoked, is_current_grant, has_grant_id, new_grant,
  create_service_grant, list_service_grants,
}
use ntauth.Grants.Update.{
  with_active, with_revocation, set_loaded_active, set_service_grant_active, revoke_loaded,
  revoke_service_grant,
}
use ntauth.Grants.Calls.{
  GrantCall, create_grant, set_active, revoke_grant, list_grants, forget_grant, perform_grant,
}

-- What a call may do to the grants: nothing, add one for a subject that has no current grant, or switch
-- or revoke one that is not revoked.
pub data Changes (before : List ServiceGrant) : List ServiceGrant → Type 0 where
  unchanged : Changes before before
  added :
      (g : ServiceGrant)
      → any (has_grant_id g.id) before ≡ false
      → any (is_current_grant g.organization_id g.service g.user_id) before ≡ false
      → Changes before (before ++ g ∷ [])
  switched :
      (chosen : Bool) (grant_id : Text) (now : ℕ) (g : ServiceGrant)
      → find (has_grant_id grant_id) before ≡ some g
      → is_revoked g.status ≡ false
      → Changes before (update (has_grant_id grant_id) (with_active chosen now) before)
  revoked :
      (actor : Actor) (grant_id : Text) (now : ℕ) (g : ServiceGrant)
      → find (has_grant_id grant_id) before ≡ some g
      → is_revoked g.status ≡ false
      → Changes before (update (has_grant_id grant_id) (with_revocation actor now) before)

set_loaded_active-Changes :
    (chosen : Bool) (grant_id : Text) (actor : Actor) (now : ℕ) (db : GrantTables)
    (o : Option ServiceGrant)
    → find (has_grant_id grant_id) db.grants ≡ o
    → Changes db.grants (set_loaded_active chosen grant_id actor now db o).1.grants
unfolding set_loaded_active
set_loaded_active-Changes chosen grant_id actor now db none found = unchanged
set_loaded_active-Changes chosen grant_id actor now db (some g) found =
    elim (Bool-cases (can_manage_grants actor.user_id g.organization_id db.tables)) [
      | inl e ↦ elim (Bool-cases (is_revoked g.status)) [
        | inl r ↦ rw e (rw r unchanged)
        | inr r ↦ rw e (rw r (switched chosen grant_id now g found r))
      ]
      | inr e ↦ rw e unchanged
    ]

revoke_loaded-Changes :
    (grant_id : Text) (actor : Actor) (now : ℕ) (db : GrantTables) (o : Option ServiceGrant)
    → find (has_grant_id grant_id) db.grants ≡ o
    → Changes db.grants (revoke_loaded grant_id actor now db o).1.grants
unfolding revoke_loaded
revoke_loaded-Changes grant_id actor now db none found = unchanged
revoke_loaded-Changes grant_id actor now db (some g) found =
    elim (Bool-cases (can_manage_grants actor.user_id g.organization_id db.tables)) [
      | inl e ↦ elim (Bool-cases (is_revoked g.status)) [
        | inl r ↦ rw e (rw r unchanged)
        | inr r ↦ elim (Bool-cases (any (has_id actor.user_id) db.tables.users)) [
          | inl u ↦ rw e (rw r (rw u (revoked actor grant_id now g found r)))
          | inr u ↦ rw e (rw r (rw u unchanged))
        ]
      ]
      | inr e ↦ rw e unchanged
    ]

create-Changes :
    (fresh : Text) (chosen : Option Bool) (organization_id service user_id : Text) (actor : Actor)
    (now : ℕ) (db : GrantTables)
    → Changes db.grants
        (create_service_grant fresh chosen organization_id service user_id actor now db).1.grants
unfolding create_service_grant
create-Changes fresh chosen organization_id service user_id actor now db =
    let row = new_grant fresh chosen organization_id service user_id actor now in
    elim (Bool-cases (valid_service service)) [
      | inr v ↦ rw v unchanged
      | inl v ↦
          elim (Bool-cases (
            not (can_manage_grants actor.user_id organization_id db.tables)
            || not (target_belongs_to_organization organization_id user_id db.tables))) [
              | inl d ↦ rw v (rw d unchanged)
              | inr d ↦
                  elim (Bool-cases (
                    not (any (λ s. s.key === service && is_active_service s.status) db.services)
                    || any (is_current_grant organization_id service user_id) db.grants
                    || any (has_grant_id fresh) db.grants)) [
                      | inl c ↦ rw v (rw d (rw c unchanged))
                      | inr c ↦
                          elim (Bool-cases (
                            any (has_id user_id) db.tables.users
                            && any (has_id actor.user_id) db.tables.users)) [
                              | inl u ↦ rw v (
                                  rw d (
                                    rw c
                                      (rw u (added row (ground (arith, c)) (ground (arith, c))))))
                              | inr u ↦ rw v (rw d (rw c (rw u unchanged)))
                            ]
                    ]
            ]
    ]

-- The value that a call gives does not matter to the tables that it leaves.
forgotten :
    {A : Type 0} {before : List ServiceGrant} (r : GrantRun A)
    → Changes before r.1.grants
    → Changes before (forget_grant r).1.grants
forgotten (returned _, db) h = h
forgotten (thrown _, db) h = h

-- Whatever call is made, the grants stay as they are, or a grant is added for a user who has none at
-- the service in the organization but revoked ones, or one grant that is not revoked is switched on or
-- off, or revoked.
pub perform_grant-Changes :
    (call : GrantCall) (actor : Actor) (now : ℕ) (db : GrantTables)
    → Changes db.grants (perform_grant call actor now db).1.grants
unfolding perform_grant set_service_grant_active revoke_service_grant list_service_grants
perform_grant-Changes (create_grant fresh chosen at service user_id) actor now db =
    forgotten (create_service_grant fresh chosen at service user_id actor now db)
      (create-Changes fresh chosen at service user_id actor now db)
perform_grant-Changes (set_active chosen grant_id) actor now db =
    forgotten (set_service_grant_active chosen grant_id actor now db) (
      set_loaded_active-Changes chosen grant_id actor now db
        (find (has_grant_id grant_id) db.grants) refl)
perform_grant-Changes (revoke_grant grant_id) actor now db =
    forgotten (revoke_service_grant grant_id actor now db)
      (revoke_loaded-Changes grant_id actor now db (find (has_grant_id grant_id) db.grants) refl)
perform_grant-Changes (list_grants at service user_id) actor now db =
    forgotten (list_service_grants at service user_id actor db)
      (elim (Bool-cases (can_manage_grants actor.user_id at db.tables)) [
        | inl e ↦ rw e unchanged
        | inr e ↦ rw e unchanged
      ])
