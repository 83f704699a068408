-- ===== src/Policies.antt =====
-- packages/db/src/effective-policies.ts: the policies that hold for a user in an organization. The
-- tables of schema.ts that only this part reads are listed here, with the columns that it reads.
pub mod Merge
pub mod Effective
pub mod Granted
mod Tests
use ntauth.Common.{
  ℕ, Bool, true, false, not, ◌&&◌, ◌||◌, Option, none, some, List, [], ◌∷◌, ◌++◌, map,
  if◌then◌else◌, any, filter, ◌==◌,
}
use ntauth.Text.{Text, text, ◌===◌, includes}
use ntauth.Permissions.Evaluator.{PolicyStatement}
use ntauth.Database.{
  Tables, Result, returned, thrown, unauthorized, not_found, User, active, Organization,
  OrganizationStatus, organization_active, organization_suspended, Membership, OrganizationRole,
}
use ntauth.Database.Rows.{find}
use ntauth.Database.Users.{same_status}
use ntauth.Database.Organizations.{is_membership, is_active_status}
use ntauth.Database.Organizations.Members.{role_text}

pub data ServiceStatus : Type 0 where
  service_active service_inactive : ServiceStatus

pub record Service : Type 0 where
  pub key : Text
  pub status : ServiceStatus

pub data ServiceGrantStatus : Type 0 where
  grant_active grant_inactive grant_revoked : ServiceGrantStatus

pub record ServiceGrant : Type 0 where
  pub id : Text
  pub organization_id : Text
  pub service : Text
  pub user_id : Text
  pub status : ServiceGrantStatus

pub record Group : Type 0 where
  pub id : Text
  pub organization_id : Text

pub record GroupMember : Type 0 where
  pub group_id : Text
  pub user_id : Text

pub data IamPolicyStatus : Type 0 where
  policy_active policy_inactive : IamPolicyStatus

pub record IamPolicy : Type 0 where
  pub id : Text
  pub organization_id : Text
  pub service : Text
  pub name : Text
  pub status : IamPolicyStatus
  pub current_version : ℕ

pub record PolicyVersion : Type 0 where
  pub policy_id : Text
  pub version : ℕ
  pub document_hash : Text
  -- `document.statements`
  pub statements : List PolicyStatement

pub data PrincipalType : Type 0 where
  group_principal role_principal user_principal : PrincipalType

pub record Attachment : Type 0 where
  pub policy_id : Text
  pub principal_type : PrincipalType
  pub principal_id : Text
  pub detached_at : Option ℕ

pub record PolicyTables : Type 0 where
  pub accounts : Tables
  pub services : List Service
  pub grants : List ServiceGrant
  pub groups : List Group
  pub group_members : List GroupMember
  pub policies : List IamPolicy
  pub versions : List PolicyVersion
  pub attachments : List Attachment

abbrev pub is_active_organization : OrganizationStatus → Bool
is_active_organization organization_active = true
is_active_organization organization_suspended = false

abbrev pub is_active_service : ServiceStatus → Bool
is_active_service service_active = true
is_active_service service_inactive = false

abbrev pub is_active_grant : ServiceGrantStatus → Bool
is_active_grant grant_active = true
is_active_grant _ = false

abbrev pub is_active_policy : IamPolicyStatus → Bool
is_active_policy policy_active = true
is_active_policy policy_inactive = false

-- A membership that `activeMembership` selects: itself, its organization and its user are active.
unfoldable pub is_current : Text → Text → Tables → Membership → Bool
unfolding same_status
is_current organization_id user_id db m =
    is_membership organization_id user_id m
    && is_active_status m.status
    && any (λ o. o.id === m.organization_id && is_active_organization o.status) db.organizations
    && any (λ u. u.id === m.user_id && same_status u.status active) db.users

-- `activeMembership`
unfoldable pub active_membership : Text → Text → Tables → Option Membership
unfolding is_current
active_membership organization_id user_id db =
    find (is_current organization_id user_id db) db.members

-- `hasGrant`
unfoldable pub has_grant : Text → Text → Text → PolicyTables → Option ServiceGrant
has_grant organization_id service user_id db =
    find
      (λ g.
        g.organization_id === organization_id
        && g.service === service
        && g.user_id === user_id
        && is_active_grant g.status)
      db.grants

-- A group of the organization that the user belongs to, as `activeGroupIds` selects it.
unfoldable pub is_group_of : Text → Text → PolicyTables → Text → Bool
is_group_of organization_id user_id db group_id =
    any (λ m. m.group_id === group_id && m.user_id === user_id) db.group_members
    && any (λ g. g.id === group_id && g.organization_id === organization_id) db.groups

-- `activeGroupIds`, without the order
unfoldable pub active_group_ids : Text → Text → PolicyTables → List Text
unfolding is_group_of
active_group_ids organization_id user_id db =
    filter (is_group_of organization_id user_id db) (map (λ g. g.id) db.groups)

-- The filters for the three kinds of principal.
unfoldable pub is_principal : Text → OrganizationRole → List Text → PrincipalType → Text → Bool
is_principal user_id role group_ids user_principal principal_id = principal_id === user_id
is_principal user_id role group_ids role_principal principal_id = principal_id === role_text role
is_principal user_id role group_ids group_principal principal_id = includes group_ids principal_id

-- `attachmentFilter`
unfoldable pub attachment_filter : Text → OrganizationRole → List Text → Attachment → Bool
unfolding is_principal
attachment_filter user_id role group_ids a =
    is_principal user_id role group_ids a.principal_type a.principal_id

pub record EffectivePolicyRow : Type 0 where
  pub document_hash : Text
  pub policy_id : Text
  pub policy_name : Text
  pub version : ℕ
  pub statements : List PolicyStatement

-- `Array.prototype.flatMap`, and the join of two tables
abbrev pub flat_map {ℓ κ} : {A : Type ℓ} {B : Type κ} → (A → List B) → List A → List B
flat_map f [] = []
flat_map f (x ∷ xs) = f x ++ flat_map f xs

-- The condition on the policy of an attachment.
abbrev pub is_policy_for : Text → Text → Attachment → IamPolicy → Bool
is_policy_for organization_id service a policy =
    policy.id === a.policy_id
    && policy.organization_id === organization_id
    && policy.service === service
    && is_active_policy policy.status

-- The condition on the version of a policy.
abbrev pub is_current_version : IamPolicy → PolicyVersion → Bool
is_current_version policy v = v.policy_id === policy.id && v.version == policy.current_version

abbrev pub row_of : IamPolicy → PolicyVersion → EffectivePolicyRow
row_of policy v = record {
  document_hash = v.document_hash;
  policy_id = policy.id;
  policy_name = policy.name;
  version = v.version;
  statements = v.statements;
}

-- The attachments that hold for the user.
abbrev pub is_attached : Text → OrganizationRole → List Text → Attachment → Bool
is_attached user_id role group_ids a = elim a.detached_at [
  | none ↦ attachment_filter user_id role group_ids a
  | some _ ↦ false
]

-- `rows`
unfoldable pub effective_rows :
    Text → Text → Text → OrganizationRole → List Text → PolicyTables → List EffectivePolicyRow
unfolding attachment_filter
effective_rows organization_id service user_id role group_ids db =
    flat_map
      (λ a.
        flat_map (λ policy. map (row_of policy) (filter (is_current_version policy) db.versions))
          (filter (is_policy_for organization_id service a) db.policies))
      (filter (is_attached user_id role group_ids) db.attachments)

-- `localeCompare`
pub data Order : Type 0 where
  before same after : Order

module _ (locale_compare : Text → Text → Order) where
  -- `byPolicy.set(row.policyId, row)`, which keeps the place of a key that is there
  abbrev pub set_row : EffectivePolicyRow → List EffectivePolicyRow → List EffectivePolicyRow
  set_row row [] = row ∷ []
  set_row row (x ∷ xs) =
      let rest = set_row row xs in if x.policy_id === row.policy_id then row ∷ xs else x ∷ rest

  abbrev pub by_policy : List EffectivePolicyRow → List EffectivePolicyRow → List EffectivePolicyRow
  by_policy seen [] = seen
  by_policy seen (row ∷ rows) = by_policy (set_row row seen) rows

  -- The comparison comes out negative or zero.
  abbrev pub precedes : EffectivePolicyRow → EffectivePolicyRow → Bool
  precedes left right = elim (locale_compare left.policy_name right.policy_name) [
    | before ↦ true
    | after ↦ false
    | same ↦ elim (locale_compare left.policy_id right.policy_id) [ after ↦ false | _ ↦ true ]
  ]

  -- `toSorted`, which is stable
  abbrev pub insert_row : EffectivePolicyRow → List EffectivePolicyRow → List EffectivePolicyRow
  insert_row row [] = row ∷ []
  insert_row row (x ∷ xs) =
      let rest = insert_row row xs in if precedes row x then row ∷ x ∷ xs else x ∷ rest

  abbrev pub to_sorted : List EffectivePolicyRow → List EffectivePolicyRow
  to_sorted [] = []
  to_sorted (row ∷ rows) = insert_row row (to_sorted rows)

  -- `mergeEffectivePolicies`: the policies, and the statements of all of them
  unfoldable pub merge_effective_policies :
      List EffectivePolicyRow → List EffectivePolicyRow × List PolicyStatement
  merge_effective_policies rows =
      let policies = to_sorted (by_policy [] rows) in
      (policies, flat_map (λ row. row.statements) policies)

  -- `getEffectivePolicies` after the membership and the service: without a grant there are none.
  abbrev pub with_grant :
      Text
      → Text
      → Text
      → OrganizationRole
      → PolicyTables
      → Option ServiceGrant
      → List EffectivePolicyRow × List PolicyStatement
  with_grant organization_id service user_id role db none = ([], [])
  with_grant organization_id service user_id role db (some grant) = merge_effective_policies (
      effective_rows organization_id service user_id role
        (active_group_ids organization_id user_id db) db)

  abbrev pub with_membership :
      Text
      → Text
      → Text
      → PolicyTables
      → Option Membership
      → Result (List EffectivePolicyRow × List PolicyStatement)
  with_membership organization_id service user_id db none = thrown unauthorized
  with_membership organization_id service user_id db (some m) =
      if not (any (λ s. s.key === service && is_active_service s.status) db.services)
      then thrown not_found
      else returned (
          with_grant organization_id service user_id m.role db
            (has_grant organization_id service user_id db))

  -- `getEffectivePolicies`, without the tag, which is a hash of what it gives
  unfoldable pub get_effective_policies :
      Text → Text → Text → PolicyTables → Result (List EffectivePolicyRow × List PolicyStatement)
  unfolding active_membership has_grant active_group_ids effective_rows merge_effective_policies
  get_effective_policies organization_id service user_id db =
      with_membership organization_id service user_id db
        (active_membership organization_id user_id db.accounts)
