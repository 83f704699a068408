-- ===== src/Grants/Current.antt =====
-- packages/db/src/schema.ts: the primary key and the partial unique index of the service grants,
-- through the calls of service-grants.ts.
use ntauth.Common.{
  ◌≤◌, ◌≡◌, refl, sym, ap, subst, inl, inr, true, false, some, List, [], ◌∷◌, ◌++◌, arith,
  Bool-cases, any,
}
use ntauth.Text.{Text, ◌===◌}
use ntauth.Text.Laws.{===_iff}
use ntauth.Grants.Changes.{Changes, unchanged, added, switched, revoked, perform_grant-Changes}
use ntauth.Database.Rows.{
  append-keyed, find, update, count, count-update, count-update_kept, count-append, any-count,
}
use ntauth.Grants.{
  ServiceGrant, GrantTables, is_revoked, is_subject, is_current_grant, has_grant_id,
}
use ntauth.Grants.Update.{with_active, with_revocation}
use ntauth.Grants.Calls.{ReachesGrants, start, later}

abbrev pub AreKeyed : List ServiceGrant → Type 0
AreKeyed grants = (grant_id : Text) → count (has_grant_id grant_id) grants ≤ 1

-- A user has at most one grant at a service in an organization that is not revoked.
abbrev pub AreCurrent : List ServiceGrant → Type 0
AreCurrent grants =
    (organization_id service user_id : Text)
    → count (is_current_grant organization_id service user_id) grants ≤ 1

abbrev pub IsSound : List ServiceGrant → Type 0
IsSound grants = AreKeyed grants × AreCurrent grants

same_subject :
    (g : ServiceGrant) (organization_id service user_id : Text)
    → is_subject organization_id service user_id g ≡ true
    → (g.organization_id ≡ organization_id) × (g.service ≡ service) × (g.user_id ≡ user_id)
same_subject g organization_id service user_id e =
    let organizations = ===_iff g.organization_id organization_id in
    let services = ===_iff g.service service in
    let users = ===_iff g.user_id user_id in ground (arith, e, organizations, services, users)

append-AreCurrent :
    (grants : List ServiceGrant) (g : ServiceGrant)
    → any (is_current_grant g.organization_id g.service g.user_id) grants ≡ false
    → AreCurrent grants
    → AreCurrent (grants ++ g ∷ [])
append-AreCurrent grants g free h organization_id service user_id =
    let size = count-append (is_current_grant organization_id service user_id) grants (g ∷ []) in
    elim (Bool-cases (is_subject organization_id service user_id g)) [
      | inl e ↦
          let (organizations, services, users) = same_subject g organization_id service user_id e in
          let free : any (is_current_grant organization_id service user_id) grants ≡ false =
            subst (λ s. any (is_current_grant organization_id s user_id) grants ≡ false) services
              (subst (λ u. any (is_current_grant organization_id g.service u) grants ≡ false) users
                (subst (λ o. any (is_current_grant o g.service g.user_id) grants ≡ false)
                  organizations free)) in
          let empty = any-count (is_current_grant organization_id service user_id) grants free in
          elim (Bool-cases (is_revoked g.status)) [
            | inl r ↦ ground (arith, size, e, empty, r)
            | inr r ↦ ground (arith, size, e, empty, r)
          ]
      | inr e ↦ ground (arith, size, e, h organization_id service user_id)
    ]

-- A change of one grant that is not revoked, which keeps its identifier and its subject.
change-IsSound :
    (grants : List ServiceGrant) (grant_id : Text) (f : ServiceGrant → ServiceGrant)
    (same_id : (g : ServiceGrant) → (f g).id ≡ g.id)
    (same : (g : ServiceGrant) (organization_id service user_id : Text)
      → is_subject organization_id service user_id (f g)
        ≡ is_subject organization_id service user_id g)
    (current : ServiceGrant)
    → find (has_grant_id grant_id) grants ≡ some current
    → is_revoked current.status ≡ false
    → IsSound grants
    → IsSound (update (has_grant_id grant_id) f grants)
change-IsSound grants grant_id f same_id same current found standing (keyed, once) = (
  λ id.
      let kept =
        count-update_kept (has_grant_id grant_id) (has_grant_id id) f
          (λ g. ap (λ i. i === id) (same_id g)) grants in
      subst (λ n. n ≤ 1) (sym kept) (keyed id),
  λ organization_id service user_id.
      let after =
        count-update (has_grant_id grant_id) (is_current_grant organization_id service user_id) f
          grants current (keyed grant_id) found in
      let subject = same current organization_id service user_id in
      ground (arith, after, subject, standing, once organization_id service user_id),
)

Changes-IsSound :
    {before after : List ServiceGrant} → Changes before after → IsSound before → IsSound after
Changes-IsSound unchanged sound = sound
Changes-IsSound {before = before} (added g fresh free) (keyed, once) =
    (append-keyed (λ h. h.id) before g fresh keyed, append-AreCurrent before g free once)
Changes-IsSound {before = before} (switched chosen grant_id now g found standing) sound =
    change-IsSound before grant_id (with_active chosen now) (λ g. refl) (λ g o s u. refl) g found
      standing sound
Changes-IsSound {before = before} (revoked actor grant_id now g found standing) sound =
    change-IsSound before grant_id (with_revocation actor now) (λ g. refl) (λ g o s u. refl) g found
      standing sound

-- Whatever calls are made, grants whose identifiers are distinct stay so, and where a user has at most
-- one grant at a service in an organization that is not revoked, that stays so.
pub ReachesGrants-IsSound :
    {db after : GrantTables} → ReachesGrants db after → IsSound db.grants → IsSound after.grants
ReachesGrants-IsSound start sound = sound
ReachesGrants-IsSound (later {db = mid} call actor now before) sound =
    Changes-IsSound (perform_grant-Changes call actor now mid) (ReachesGrants-IsSound before sound)
