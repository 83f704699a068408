-- ===== src/Policies/Effective.antt =====
-- packages/db/src/effective-policies.ts: which policies hold for a user.
use ntauth.Common.{
  ◌≡◌, ◌↔◌, ◌⊎◌, inl, inr, Bool, true, ◌&&◌, none, List, [], ◌∷◌, ◌++◌, map, filter, arith, Any,
  Among, any, any_iff, and_iff, ==_iff, filter_mem, Bool-cases, Option-cases,
}
use ntauth.Text.{Text, ◌===◌}
use ntauth.Text.Laws.{===_iff, includes_iff}
use ntauth.Database.{OrganizationRole}
use ntauth.Database.Organizations.Members.{role_text}
use ntauth.Policies.{
  IamPolicy, policy_active, is_active_policy, PolicyVersion, PrincipalType, group_principal,
  role_principal, user_principal, Attachment, PolicyTables, Group, is_group_of, active_group_ids,
  attachment_filter, is_principal, is_attached, flat_map, is_policy_for, is_current_version, row_of,
  effective_rows, EffectivePolicyRow,
}
use ntauth.Policies.Merge.{policy_ids}

append-ids :
    (xs ys : List EffectivePolicyRow) (id : Text)
    → Among id (policy_ids (xs ++ ys)) ↔ (Among id (policy_ids xs) ⊎ Among id (policy_ids ys))
append-ids [] ys id = ground arith
append-ids (x ∷ xs) ys id = ground (arith, append-ids xs ys id)

-- A row of a join comes from a row of the first table.
flat_map-ids :
    {A : Type 0} (p : A → Bool) (f : A → List EffectivePolicyRow) (xs : List A) (id : Text)
    → Among id (policy_ids (flat_map f (filter p xs)))
      ↔ Any (λ x. (p x ≡ true) × Among id (policy_ids (f x))) xs
flat_map-ids p f [] id = ground arith
flat_map-ids p f (x ∷ xs) id =
    let rest = flat_map-ids p f xs id in
    elim (Bool-cases (p x)) [
      | inl e ↦
          let parts = append-ids (f x) (flat_map f (filter p xs)) id in
          rw e (ground (arith, parts, rest))
      | inr e ↦ rw e (ground (arith, rest, e))
    ]

versions-ids :
    (policy : IamPolicy) (versions : List PolicyVersion) (id : Text)
    → Among id (policy_ids (map (row_of policy) (filter (is_current_version policy) versions))) ↔ (
        (policy.id ≡ id)
        × Any (λ v. (v.policy_id ≡ policy.id) × (v.version ≡ policy.current_version)) versions)
versions-ids policy [] id = ground arith
versions-ids policy (v ∷ versions) id =
    let rest = versions-ids policy versions id in
    let key = ===_iff v.policy_id policy.id in
    let current = ==_iff v.version policy.current_version in
    elim (Bool-cases (is_current_version policy v)) [
      | inl e ↦ rw e (ground (arith, rest, key, current, e))
      | inr e ↦ rw e (ground (arith, rest, key, current, e))
    ]

-- The user belongs to the group, and the group to the organization.
abbrev pub IsGroupOf : Text → Text → PolicyTables → Text → Type 0
IsGroupOf organization_id user_id db group_id =
    Any (λ m. (m.group_id ≡ group_id) × (m.user_id ≡ user_id)) db.group_members
    × Any (λ g. (g.id ≡ group_id) × (g.organization_id ≡ organization_id)) db.groups

is_group_of_iff :
    (organization_id user_id : Text) (db : PolicyTables) (group_id : Text)
    → (is_group_of organization_id user_id db group_id ≡ true)
      ↔ IsGroupOf organization_id user_id db group_id
unfolding is_group_of
is_group_of_iff organization_id user_id db group_id =
    let belongs =
      any_iff (λ m. m.group_id === group_id && m.user_id === user_id)
        (λ m. (m.group_id ≡ group_id) × (m.user_id ≡ user_id))
        (λ m. ground (arith, ===_iff m.group_id group_id, ===_iff m.user_id user_id))
        db.group_members in
    let stands =
      any_iff (λ g. g.id === group_id && g.organization_id === organization_id)
        (λ g. (g.id ≡ group_id) × (g.organization_id ≡ organization_id))
        (λ g. ground (arith, ===_iff g.id group_id, ===_iff g.organization_id organization_id))
        db.groups in
    let tests =
      and_iff (any (λ m. m.group_id === group_id && m.user_id === user_id) db.group_members)
        (any (λ g. g.id === group_id && g.organization_id === organization_id) db.groups) in
    (
      λ h. let (a, b) = tests.0 h in (belongs.0 a, stands.0 b),
      λ (a, b). tests.1 (belongs.1 a, stands.1 b),
    )

listed_group :
    (organization_id group_id : Text) (groups : List Group)
    → Any (λ g. (g.id ≡ group_id) × (g.organization_id ≡ organization_id)) groups
    → Among group_id (map (λ g. g.id) groups)
listed_group organization_id group_id [] h = elim h [ ]
listed_group organization_id group_id (g ∷ groups) (inl (e, o)) = inl e
listed_group organization_id group_id (g ∷ groups) (inr h) =
    inr (listed_group organization_id group_id groups h)

active_group_ids_iff :
    (organization_id user_id : Text) (db : PolicyTables) (group_id : Text)
    → Among group_id (active_group_ids organization_id user_id db)
      ↔ IsGroupOf organization_id user_id db group_id
unfolding active_group_ids
active_group_ids_iff organization_id user_id db group_id =
    let kept =
      filter_mem (is_group_of organization_id user_id db) group_id (map (λ g. g.id) db.groups) in
    let test = is_group_of_iff organization_id user_id db group_id in
    (
      λ h. test.0 (kept.0 h).1,
      λ h. kept.1 (listed_group organization_id group_id db.groups h.1, test.1 h),
    )

-- The principal is the user, the user's role in the organization, or one of the user's groups.
abbrev pub Represents :
    Text → Text → OrganizationRole → PolicyTables → PrincipalType → Text → Type 0
Represents organization_id user_id role db user_principal id = id ≡ user_id
Represents organization_id user_id role db role_principal id = id ≡ role_text role
Represents organization_id user_id role db group_principal id =
    IsGroupOf organization_id user_id db id

-- The attachment is not detached, and its principal represents the user.
abbrev pub HoldsFor : Text → Text → OrganizationRole → PolicyTables → Attachment → Type 0
HoldsFor organization_id user_id role db a =
    (a.detached_at ≡ none)
    × Represents organization_id user_id role db a.principal_type a.principal_id

-- The policy is attached to the user: some attachment of an active policy of the organization and
-- the service holds for the user, and the policy's current version is there.
abbrev pub IsAttached : Text → Text → Text → OrganizationRole → PolicyTables → Text → Type 0
IsAttached organization_id service user_id role db id =
    Any
      (λ a.
        HoldsFor organization_id user_id role db a
        × Any
            (λ policy.
              (policy.id ≡ a.policy_id)
              × (policy.organization_id ≡ organization_id)
              × (policy.service ≡ service)
              × (policy.status ≡ policy_active)
              × (policy.id ≡ id)
              × Any (λ v. (v.policy_id ≡ policy.id) × (v.version ≡ policy.current_version))
                  db.versions)
            db.policies)
      db.attachments

Any-congruence :
    {A : Type 0} (P Q : A → Type 0) (same : (x : A) → P x ↔ Q x) (xs : List A) → Any P xs ↔ Any Q xs
Any-congruence P Q same [] = ground arith
Any-congruence P Q same (x ∷ xs) = ground (arith, same x, Any-congruence P Q same xs)

Represents-iff :
    (organization_id user_id : Text) (role : OrganizationRole) (db : PolicyTables)
    (kind : PrincipalType) (id : Text)
    → (is_principal user_id role (active_group_ids organization_id user_id db) kind id ≡ true)
      ↔ Represents organization_id user_id role db kind id
unfolding is_principal
Represents-iff organization_id user_id role db user_principal id = ===_iff id user_id
Represents-iff organization_id user_id role db role_principal id = ===_iff id (role_text role)
Represents-iff organization_id user_id role db group_principal id =
    let listed = includes_iff (active_group_ids organization_id user_id db) id in
    let belongs = active_group_ids_iff organization_id user_id db id in
    (λ h. belongs.0 (listed.0 h), λ h. listed.1 (belongs.1 h))

-- An attachment is taken exactly if it holds for the user.
is_attached_iff :
    (organization_id user_id : Text) (role : OrganizationRole) (db : PolicyTables) (a : Attachment)
    → (is_attached user_id role (active_group_ids organization_id user_id db) a ≡ true)
      ↔ HoldsFor organization_id user_id role db a
unfolding attachment_filter
is_attached_iff organization_id user_id role db a =
    let principal =
      Represents-iff organization_id user_id role db a.principal_type a.principal_id in
    elim (Option-cases a.detached_at) [
      | inl e ↦ rw e (ground (arith, principal))
      | inr (n, e) ↦ rw e (λ h. cc, λ h. cc)
    ]

is_active_policy_iff :
    (policy : IamPolicy) → (is_active_policy policy.status ≡ true) ↔ (policy.status ≡ policy_active)
is_active_policy_iff policy = ground arith

-- A policy has a row exactly if it is attached to the user.
pub effective_rows-ids :
    (organization_id service user_id : Text) (role : OrganizationRole) (db : PolicyTables)
    (id : Text)
    → Among id (
        policy_ids (
          effective_rows organization_id service user_id role
            (active_group_ids organization_id user_id db)
            db))
      ↔ IsAttached organization_id service user_id role db id
unfolding effective_rows
effective_rows-ids organization_id service user_id role db id =
    let taken = is_attached user_id role (active_group_ids organization_id user_id db) in
    let rows : IamPolicy → List EffectivePolicyRow =
      λ policy. map (row_of policy) (filter (is_current_version policy) db.versions) in
    let joined : Attachment → List EffectivePolicyRow =
      λ a. flat_map rows (filter (is_policy_for organization_id service a) db.policies) in
    let outer = flat_map-ids taken joined db.attachments id in
    let same =
      Any-congruence (λ a. (taken a ≡ true) × Among id (policy_ids (joined a))) _
        (λ a.
          let inner = flat_map-ids (is_policy_for organization_id service a) rows db.policies id in
          let each =
            Any-congruence
              (λ policy.
                (is_policy_for organization_id service a policy ≡ true)
                × Among id (policy_ids (rows policy)))
              (λ policy.
                (policy.id ≡ a.policy_id)
                × (policy.organization_id ≡ organization_id)
                × (policy.service ≡ service)
                × (policy.status ≡ policy_active)
                × (policy.id ≡ id)
                × Any (λ v. (v.policy_id ≡ policy.id) × (v.version ≡ policy.current_version))
                    db.versions)
              (λ policy. ground (
                arith,
                versions-ids policy db.versions id,
                ===_iff policy.id a.policy_id,
                ===_iff policy.organization_id organization_id,
                ===_iff policy.service service,
                is_active_policy_iff policy,
              ))
              db.policies in
          ground (arith, inner, each, is_attached_iff organization_id user_id role db a))
        db.attachments in
    (λ h. same.0 (outer.0 h), λ h. outer.1 (same.1 h))
