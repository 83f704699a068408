-- ===== src/Grants/Revoked.antt =====
-- packages/db/src/service-grants.ts: what a revocation means from then on.
use ntauth.Common.{
  and_false, ℕ, ◌≡◌, refl, sym, ◌∙◌, ap, subst, inl, inr, Bool, true, false, ◌&&◌, Option, some,
  List, [], ◌∷◌, arith, Bool-cases, any,
}
use ntauth.Text.{Text}
use ntauth.Text.Laws.{===_iff, ===_refl}
use ntauth.Database.{Actor}
use ntauth.Database.Rows.{
  find, update, count, count-update, find-update_any, find-append, find-true,
}
use ntauth.Database.Users.{has_id}
use ntauth.Database.Organizations.{is_membership, is_active_status}
use ntauth.Policies.{
  is_active_grant, grant_revoked, grant_active, grant_inactive, ServiceGrantStatus,
}
use ntauth.Grants.{
  ServiceGrant, GrantTables, ReturnsGrant, is_revoked, is_current_grant, is_subject, has_grant_id,
  valid_service, can_manage_grants, active_organization, has_active_service_grant,
}
use ntauth.Grants.Update.{with_active, with_revocation, revoke_loaded, revoke_service_grant}
use ntauth.Grants.Calls.{ReachesGrants, start, later}
use ntauth.Grants.Changes.{Changes, unchanged, added, switched, revoked, perform_grant-Changes}
use ntauth.Grants.Current.{IsSound}

-- Only the row that was found is changed, and it is not revoked, so a revoked row stays.
change-revoked :
    (grants : List ServiceGrant) (grant_id id : Text) (f : ServiceGrant → ServiceGrant)
    (kept : (g : ServiceGrant) → has_grant_id id (f g) ≡ has_grant_id id g)
    (current g : ServiceGrant)
    → find (has_grant_id grant_id) grants ≡ some current
    → is_revoked current.status ≡ false
    → find (has_grant_id id) grants ≡ some g
    → is_revoked g.status ≡ true
    → find (has_grant_id id) (update (has_grant_id grant_id) f grants) ≡ some g
change-revoked grants grant_id id f kept current g found standing there gone =
    let after = find-update_any (has_grant_id id) (has_grant_id grant_id) f kept grants in
    elim (Bool-cases (has_grant_id grant_id g)) [
      | inr e ↦ after ∙ (rw there (rw e refl))
      | inl e ↦
          let own = (===_iff g.id id).0 (find-true (has_grant_id id) grants g there) in
          let named = (===_iff g.id grant_id).0 e in
          let same : some g ≡ some current =
            sym there ∙ ap (λ i. find (has_grant_id i) grants) (sym own ∙ named) ∙ found in
          absurd (ground (arith, same, standing, gone))
    ]

Changes-revoked :
    {before after : List ServiceGrant} (id : Text) (g : ServiceGrant)
    → Changes before after
    → find (has_grant_id id) before ≡ some g
    → is_revoked g.status ≡ true
    → find (has_grant_id id) after ≡ some g
Changes-revoked id g unchanged there gone = there
Changes-revoked {before = before} id g (added new fresh free) there gone =
    find-append (has_grant_id id) before (new ∷ []) g there
Changes-revoked {before = before} id g (switched chosen grant_id now current found standing) there
      gone =
    change-revoked before grant_id id (with_active chosen now) (λ g. refl) current g found standing
      there gone
Changes-revoked {before = before} id g (revoked actor grant_id now current found standing) there
      gone =
    change-revoked before grant_id id (with_revocation actor now) (λ g. refl) current g found
      standing there gone

-- A grant that is revoked stays exactly as it is, whatever calls are made.
pub ReachesGrants-revoked :
    {db after : GrantTables} (id : Text) (g : ServiceGrant)
    → ReachesGrants db after
    → find (has_grant_id id) db.grants ≡ some g
    → g.status ≡ grant_revoked
    → find (has_grant_id id) after.grants ≡ some g
ReachesGrants-revoked id g start there gone = there
ReachesGrants-revoked id g (later {db = mid} call actor now before) there gone =
    Changes-revoked id g (perform_grant-Changes call actor now mid)
      (ReachesGrants-revoked id g before there gone) (ap is_revoked gone)

standing_active :
    (status : ServiceGrantStatus) → is_active_grant status ≡ true → is_revoked status ≡ false
standing_active grant_active h = refl
standing_active grant_inactive h = refl
standing_active grant_revoked h = ground (arith, h)

-- No grant is active where none is current.
none_active :
    (grants : List ServiceGrant) (organization_id service user_id : Text)
    (by_member by_organization : ServiceGrant → Bool)
    → count (is_current_grant organization_id service user_id) grants ≡ 0
    → any
        (λ g.
          is_subject organization_id service user_id g
          && is_active_grant g.status
          && by_member g
          && by_organization g)
        grants
      ≡ false
none_active [] organization_id service user_id by_member by_organization h = refl
none_active (g ∷ grants) organization_id service user_id by_member by_organization h =
    let rest = none_active grants organization_id service user_id by_member by_organization in
    elim (Bool-cases (is_subject organization_id service user_id g)) [
      | inr e ↦ rw e (rest (rw e at h))
      | inl e ↦ elim (Bool-cases (is_active_grant g.status)) [
        | inl a ↦ absurd (ground (arith, h, e, standing_active g.status a))
        | inr a ↦ elim (Bool-cases (is_revoked g.status)) [
          | inl r ↦ rw e (rw a (rest (rw r at (rw e at h))))
          | inr r ↦ absurd (ground (arith, h, e, r))
        ]
      ]
    ]

-- The only current grant of its subject leaves none when it is revoked.
none_current :
    (grants : List ServiceGrant) (actor : Actor) (now : ℕ) (g : ServiceGrant)
    → IsSound grants
    → find (has_grant_id g.id) grants ≡ some g
    → is_revoked g.status ≡ false
    → count
        (is_current_grant g.organization_id g.service g.user_id)
        (update (has_grant_id g.id) (with_revocation actor now) grants)
      ≡ 0
none_current grants actor now g (keyed, once) found standing =
    let after =
      count-update (has_grant_id g.id) (is_current_grant g.organization_id g.service g.user_id)
        (with_revocation actor now) grants g (keyed g.id) found in
    let organizations = ===_refl g.organization_id in
    let services = ===_refl g.service in
    let users = ===_refl g.user_id in
    ground (
      arith,
      after,
      organizations,
      services,
      users,
      standing,
      once g.organization_id g.service g.user_id,
    )

loaded-withdraws :
    (actor : Actor) (now : ℕ) (db : GrantTables) (g : ServiceGrant)
    → IsSound db.grants
    → find (has_grant_id g.id) db.grants ≡ some g
    → is_revoked g.status ≡ false
    → ReturnsGrant (revoke_loaded g.id actor now db (some g))
    → has_active_service_grant g.organization_id g.service g.user_id
        (revoke_loaded g.id actor now db (some g)).1
      ≡ false
unfolding revoke_loaded has_active_service_grant
loaded-withdraws actor now db g sound found standing done =
    elim (Bool-cases (can_manage_grants actor.user_id g.organization_id db.tables)) [
      | inr e ↦ absurd (rw e at done)
      | inl e ↦ elim (Bool-cases (any (has_id actor.user_id) db.tables.users)) [
        | inr u ↦ absurd (rw u at (rw standing at (rw e at done)))
        | inl u ↦ rw e (
            rw standing (
              rw u (
                and_false (valid_service g.service) _ (
                  none_active (update (has_grant_id g.id) (with_revocation actor now) db.grants)
                    g.organization_id g.service g.user_id
                    (λ h.
                      any
                        (λ m.
                          is_membership h.organization_id h.user_id m && is_active_status m.status)
                        db.tables.members)
                    (λ h. active_organization h.organization_id db.tables)
                    (none_current db.grants actor now g sound found standing)))))
      ]
    ]

-- Where identifiers are distinct and a user has at most one grant at a service in an organization that
-- is not revoked, a call that revokes such a grant leaves the user no active grant there.
pub revoke_service_grant-withdraws :
    (actor : Actor) (now : ℕ) (db : GrantTables) (g : ServiceGrant)
    → IsSound db.grants
    → find (has_grant_id g.id) db.grants ≡ some g
    → is_revoked g.status ≡ false
    → ReturnsGrant (revoke_service_grant g.id actor now db)
    → has_active_service_grant g.organization_id g.service g.user_id
        (revoke_service_grant g.id actor now db).1
      ≡ false
unfolding revoke_service_grant
revoke_service_grant-withdraws actor now db g sound found standing done =
    let loaded : (o : Option ServiceGrant)
        → o ≡ some g
        → ReturnsGrant (revoke_loaded g.id actor now db o)
        → has_active_service_grant g.organization_id g.service g.user_id
            (revoke_loaded g.id actor now db o).1
          ≡ false =
      λ o e.
        subst
          (λ o.
            ReturnsGrant (revoke_loaded g.id actor now db o)
            → has_active_service_grant g.organization_id g.service g.user_id
                (revoke_loaded g.id actor now db o).1
              ≡ false)
          (sym e) (loaded-withdraws actor now db g sound found standing) in
    loaded (find (has_grant_id g.id) db.grants) found done
