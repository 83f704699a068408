-- ===== src/Policies/Granted.antt =====
-- packages/db/src/effective-policies.ts: when a user gets policies at all, and which.
use ntauth.Common.{
  ◌≡◌, refl, subst, ◌↔◌, inl, inr, Bool, true, false, ◌&&◌, Option, none, some, List, [], arith,
  Any, Among, any, any_iff, Bool-cases, Option-cases,
}
use ntauth.Text.{Text, ◌===◌}
use ntauth.Text.Laws.{===_iff}
use ntauth.Permissions.Evaluator.{PolicyStatement}
use ntauth.Database.{
  Tables, Result, returned, thrown, active, organization_active, Membership, member_active,
  OrganizationRole,
}
use ntauth.Database.Rows.{find-none_iff, find-true}
use ntauth.Database.Users.{same_status}
use ntauth.Database.Users.Status.{same_status_iff}
use ntauth.Policies.{
  PolicyTables, EffectivePolicyRow, Order, service_active, is_active_service, ServiceGrant,
  grant_active, is_active_grant, is_active_organization, is_current, active_membership, has_grant,
  active_group_ids, effective_rows, with_grant, with_membership, get_effective_policies,
}
use ntauth.Policies.Merge.{policy_ids, merge_effective_policies-ids}
use ntauth.Policies.Effective.{IsAttached, effective_rows-ids}

-- The membership is the user's in the organization, and it, the organization and the user are active.
abbrev pub IsCurrent : Text → Text → Tables → Membership → Type 0
IsCurrent organization_id user_id db m =
    (m.organization_id ≡ organization_id)
    × (m.user_id ≡ user_id)
    × (m.status ≡ member_active)
    × Any (λ o. (o.id ≡ m.organization_id) × (o.status ≡ organization_active)) db.organizations
    × Any (λ u. (u.id ≡ m.user_id) × (u.status ≡ active)) db.users

is_current_iff :
    (organization_id user_id : Text) (db : Tables) (m : Membership)
    → (is_current organization_id user_id db m ≡ true) ↔ IsCurrent organization_id user_id db m
unfolding is_current
is_current_iff organization_id user_id db m =
    let place =
      any_iff (λ o. o.id === m.organization_id && is_active_organization o.status)
        (λ o. (o.id ≡ m.organization_id) × (o.status ≡ organization_active))
        (λ o. ground (arith, ===_iff o.id m.organization_id)) db.organizations in
    let person =
      any_iff (λ u. u.id === m.user_id && same_status u.status active)
        (λ u. (u.id ≡ m.user_id) × (u.status ≡ active))
        (λ u. ground (arith, ===_iff u.id m.user_id, same_status_iff u.status active)) db.users in
    ground
      (arith, ===_iff m.organization_id organization_id, ===_iff m.user_id user_id, place, person)

-- The service is registered and active.
abbrev pub IsService : Text → PolicyTables → Type 0
IsService service db = Any (λ s. (s.key ≡ service) × (s.status ≡ service_active)) db.services

IsService-iff :
    (service : Text) (db : PolicyTables)
    → (any (λ s. s.key === service && is_active_service s.status) db.services ≡ true)
      ↔ IsService service db
IsService-iff service db =
    any_iff (λ s. s.key === service && is_active_service s.status)
      (λ s. (s.key ≡ service) × (s.status ≡ service_active))
      (λ s. ground (arith, ===_iff s.key service)) db.services

-- The user has an active grant of the service in the organization.
abbrev pub IsGranted : Text → Text → Text → PolicyTables → Type 0
IsGranted organization_id service user_id db =
    Any
      (λ g.
        (g.organization_id ≡ organization_id)
        × (g.service ≡ service)
        × (g.user_id ≡ user_id)
        × (g.status ≡ grant_active))
      db.grants

abbrev is_granted : Text → Text → Text → ServiceGrant → Bool
is_granted organization_id service user_id g =
    g.organization_id === organization_id
    && g.service === service
    && g.user_id === user_id
    && is_active_grant g.status

IsGranted-iff :
    (organization_id service user_id : Text) (db : PolicyTables)
    → (any (is_granted organization_id service user_id) db.grants ≡ true)
      ↔ IsGranted organization_id service user_id db
IsGranted-iff organization_id service user_id db =
    any_iff (is_granted organization_id service user_id)
      (λ g.
        (g.organization_id ≡ organization_id)
        × (g.service ≡ service)
        × (g.user_id ≡ user_id)
        × (g.status ≡ grant_active))
      (λ g. ground (
        arith,
        ===_iff g.organization_id organization_id,
        ===_iff g.service service,
        ===_iff g.user_id user_id,
      ))
      db.grants

has_grant_iff :
    (organization_id service user_id : Text) (db : PolicyTables)
    → (has_grant organization_id service user_id db ≡ none)
      ↔ (any (is_granted organization_id service user_id) db.grants ≡ false)
unfolding has_grant
has_grant_iff organization_id service user_id db =
    find-none_iff (is_granted organization_id service user_id) db.grants

-- The identifiers of the policies that a call gives.
abbrev pub effective_ids : Result (List EffectivePolicyRow × List PolicyStatement) → List Text
effective_ids (returned result) = policy_ids result.0
effective_ids (thrown _) = []

module _ (locale_compare : Text → Text → Order) where
  with_grant-ids :
      (organization_id service user_id : Text) (role : OrganizationRole) (db : PolicyTables)
      (o : Option ServiceGrant) (id : Text)
      → has_grant organization_id service user_id db ≡ o
      → Among id
          (policy_ids (with_grant locale_compare organization_id service user_id role db o).0)
        ↔ (IsGranted organization_id service user_id db
            × IsAttached organization_id service user_id role db id)
  with_grant-ids organization_id service user_id role db none id found =
      let absent = (has_grant_iff organization_id service user_id db).0 found in
      let granted = IsGranted-iff organization_id service user_id db in
      (λ h. elim h [ ], λ (g, h). absurd (ground (arith, absent, granted.1 g)))
  with_grant-ids organization_id service user_id role db (some grant) id found =
      let rows =
        effective_rows organization_id service user_id role
          (active_group_ids organization_id user_id db) db in
      let merged = (merge_effective_policies-ids locale_compare rows id).0 in
      let attached = effective_rows-ids organization_id service user_id role db id in
      let granted : IsGranted organization_id service user_id db =
        elim (Bool-cases (any (is_granted organization_id service user_id) db.grants)) [
          | inl e ↦ (IsGranted-iff organization_id service user_id db).0 e
          | inr e ↦
              absurd (ground (arith, (has_grant_iff organization_id service user_id db).1 e, found))
        ] in
      (λ h. (granted, attached.0 (merged.0 h)), λ (g, h). merged.1 (attached.1 h))

  with_membership-ids :
      (organization_id service user_id : Text) (db : PolicyTables) (m : Membership) (id : Text)
      → Among id (
          effective_ids
            (with_membership locale_compare organization_id service user_id db (some m)))
        ↔ (IsService service db
            × IsGranted organization_id service user_id db
            × IsAttached organization_id service user_id m.role db id)
  with_membership-ids organization_id service user_id db m id =
      let known = IsService-iff service db in
      let policies =
        with_grant-ids organization_id service user_id m.role db
          (has_grant organization_id service user_id db) id refl in
      elim (Bool-cases (any (λ s. s.key === service && is_active_service s.status) db.services)) [
        | inl e ↦
            rw e
              (λ h. let (g, a) = policies.0 h in (known.0 e, g, a), λ (k, g, a). policies.1 (g, a))
        | inr e ↦ rw e (λ h. elim h [ ], λ (k, g, a). absurd (ground (arith, e, known.1 k)))
      ]

  -- A policy is among those that a user gets for a service in an organization exactly if the user has
  -- a current membership there, the service is active, the user has an active grant of it, and some
  -- attachment of the policy holds for the user, the role of the membership or a group.
  pub get_effective_policies_iff :
      (organization_id service user_id : Text) (db : PolicyTables) (id : Text)
      → Among id
          (effective_ids (get_effective_policies locale_compare organization_id service user_id db))
        ↔ ((m : Membership) × (active_membership organization_id user_id db.accounts ≡ some m)
            × IsService service db
            × IsGranted organization_id service user_id db
            × IsAttached organization_id service user_id m.role db id)
  unfolding get_effective_policies
  get_effective_policies_iff organization_id service user_id db id =
      elim (Option-cases (active_membership organization_id user_id db.accounts)) [
        | inl e ↦ rw e (λ h. elim h [ ], λ (m, k, s, g, a). absurd (ground (arith, k)))
        | inr (m, e) ↦
            let policies = with_membership-ids organization_id service user_id db m id in
            rw e (
              λ h. let (k, g, a) = policies.0 h in (m, refl, k, g, a),
              λ (n, same, k, g, a).
                  let equal : n ≡ m = ground (arith, same) in
                  policies.1 (
                    k,
                    g,
                    subst (λ x. IsAttached organization_id service user_id x.role db id) equal a,
                  ),
            )
      ]

  -- A call that does not throw is for a user who has, in the organization, an active membership, where
  -- the organization, the user and the service are active too.
  pub get_effective_policies-IsCurrent :
      (organization_id service user_id : Text) (db : PolicyTables)
      (result : List EffectivePolicyRow × List PolicyStatement)
      → get_effective_policies locale_compare organization_id service user_id db ≡ returned result
      → ((m : Membership) × IsCurrent organization_id user_id db.accounts m) × IsService service db
  unfolding get_effective_policies active_membership
  get_effective_policies-IsCurrent organization_id service user_id db result h =
      elim (Option-cases (active_membership organization_id user_id db.accounts)) [
        | inl e ↦ absurd (ground (arith, rw e at h))
        | inr (m, e) ↦
            let met =
              find-true (is_current organization_id user_id db.accounts) db.accounts.members m e in
            let current = (is_current_iff organization_id user_id db.accounts m).0 met in
            elim (Bool-cases
              (any (λ s. s.key === service && is_active_service s.status) db.services)) [
                | inl k ↦ ((m, current), (IsService-iff service db).0 k)
                | inr k ↦ absurd (ground (arith, rw k at (rw e at h)))
              ]
      ]
