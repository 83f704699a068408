-- ===== src/Policies/Tests.antt =====
-- A run of the effective policies on small tables, and their theorems at these tables.
use ntauth.Common.{◌≡◌, refl, ◌↔◌, true, none, some, [], ◌∷◌, Among}
use ntauth.Text.{Text, text, ◌===◌, text_leb}
use ntauth.Database.{returned, active, organization_active, Membership, member, member_active}
use ntauth.Database.Users.{same_status}
use ntauth.Policies.{
  PolicyTables, EffectivePolicyRow, Order, before, same, after, service_active, grant_active,
  policy_active, policy_inactive, user_principal, role_principal, group_principal, is_group_of,
  attachment_filter, is_principal, is_current, active_membership, has_grant, active_group_ids,
  effective_rows, merge_effective_policies, get_effective_policies,
}
use ntauth.Policies.Effective.{IsAttached}
use ntauth.Policies.Granted.{
  IsCurrent, IsService, IsGranted, effective_ids, get_effective_policies_iff,
  get_effective_policies-IsCurrent,
}

abbrev compare_units : Text → Text → Order
unfolding ◌===◌ text_leb
compare_units s t = elim (s === t) [
  | true ↦ same
  | _ ↦ elim (text_leb s t) [ true ↦ before | _ ↦ after ]
]

abbrev ann : Text
ann = text "ann"

abbrev acme : Text
acme = text "acme"

abbrev scout : Text
scout = text "ntscout"

-- Ann is an active member with a grant. The policy `p-1` is attached to her and to her role, `p-2` to
-- a group that she is not in, and `p-3` is inactive.
abbrev db : PolicyTables
db = record {
  accounts = record {
    users =
        record {
          id = ann;
          name = ann;
          email = ann;
          email_verified = true;
          image = none;
          status = active;
          status_changed_at = none;
          deleted_at = none;
          updated_at = 0;
        }
        ∷ [];
    sessions = [];
    accounts = [];
    organizations =
        record { id = acme; name = acme; slug = acme; status = organization_active; updated_at = 0 }
        ∷ [];
    members =
        record {
          id = text "m-1";
          organization_id = acme;
          user_id = ann;
          role = member;
          status = member_active;
          updated_at = 0;
        }
        ∷ [];
    assignments = [];
    audit_events = [];
  };
  services = record { key = scout; status = service_active } ∷ [];
  grants =
      record {
        id = text "g-1";
        organization_id = acme;
        service = scout;
        user_id = ann;
        status = grant_active;
      }
      ∷ [];
  groups = record { id = text "staff"; organization_id = acme } ∷ [];
  group_members = [];
  policies =
      record {
        id = text "p-1";
        organization_id = acme;
        service = scout;
        name = text "b";
        status = policy_active;
        current_version = 2;
      }
      ∷ record {
        id = text "p-2";
        organization_id = acme;
        service = scout;
        name = text "a";
        status = policy_active;
        current_version = 1;
      }
      ∷ record {
        id = text "p-3";
        organization_id = acme;
        service = scout;
        name = text "c";
        status = policy_inactive;
        current_version = 1;
      }
      ∷ [];
  versions =
      record { policy_id = text "p-1"; version = 1; document_hash = []; statements = [] }
      ∷ record { policy_id = text "p-1"; version = 2; document_hash = []; statements = [] }
      ∷ record { policy_id = text "p-2"; version = 1; document_hash = []; statements = [] }
      ∷ record { policy_id = text "p-3"; version = 1; document_hash = []; statements = [] }
      ∷ [];
  attachments =
      record {
        policy_id = text "p-1";
        principal_type = user_principal;
        principal_id = ann;
        detached_at = none;
      }
      ∷ record {
        policy_id = text "p-1";
        principal_type = role_principal;
        principal_id = text "member";
        detached_at = none;
      }
      ∷ record {
        policy_id = text "p-2";
        principal_type = group_principal;
        principal_id = text "staff";
        detached_at = none;
      }
      ∷ record {
        policy_id = text "p-3";
        principal_type = user_principal;
        principal_id = ann;
        detached_at = none;
      }
      ∷ [];
}

run : Unit {0}
unfolding ◌===◌ text_leb same_status is_current active_membership has_grant is_group_of
    active_group_ids is_principal attachment_filter effective_rows merge_effective_policies
    get_effective_policies
run = tt

abbrev row : EffectivePolicyRow
row = record {
  document_hash = [];
  policy_id = text "p-1";
  policy_name = text "b";
  version = 2;
  statements = [];
}

only_the_attached : get_effective_policies compare_units acme scout ann db ≡ returned (row ∷ [], [])
unfolding run
only_the_attached = refl

get_effective_policies_iff_example :
    Among (text "p-1") (effective_ids (get_effective_policies compare_units acme scout ann db)) ↔ (
      (m : Membership) × (active_membership acme ann db.accounts ≡ some m)
      × IsService scout db
      × IsGranted acme scout ann db
      × IsAttached acme scout ann m.role db (text "p-1"))
get_effective_policies_iff_example =
    get_effective_policies_iff compare_units acme scout ann db (text "p-1")

get_effective_policies-IsCurrent_example :
    ((m : Membership) × IsCurrent acme ann db.accounts m) × IsService scout db
get_effective_policies-IsCurrent_example =
    get_effective_policies-IsCurrent compare_units acme scout ann db (row ∷ [], [])
      only_the_attached
