-- ===== src/Visibility/Store.antt =====
-- The tables of packages/db/src/schema/visibility.ts, with the two of orgs that the service reads.
-- Columns that no operation here reads (uuids, timestamps, names) are left out.
use hono_crosmos.Base.{ℕ, ◌==◌, Bool, ◌&&◌, ◌||◌, Option, List, map}
use hono_crosmos.Base.Tables.{select_where, delete_where}
use hono_crosmos.Visibility.Graph.{contains}

pub record Organization : Type 0 where
  pub id : ℕ
  pub visibility_enabled : Bool

pub record OrganizationMember : Type 0 where
  pub org_id : ℕ
  pub user_id : ℕ

pub record VisibilityGroup : Type 0 where
  pub id : ℕ
  pub org_id : ℕ

pub record VisibilityGroupMember : Type 0 where
  pub org_id : ℕ
  pub group_id : ℕ
  pub user_id : ℕ

pub record VisibilityGrant : Type 0 where
  pub id : ℕ
  pub org_id : ℕ
  pub viewer_group_id : ℕ
  pub subject_group_id : ℕ
  pub created_by_user_id : Option ℕ

-- `next_grant_id` is the sequence of the grants' serial key.
pub record Db : Type 0 where
  pub organizations : List Organization
  pub organization_members : List OrganizationMember
  pub groups : List VisibilityGroup
  pub group_members : List VisibilityGroupMember
  pub grants : List VisibilityGrant
  pub next_grant_id : ℕ

pub data VisibilityError : Type 0 where
  not_found : VisibilityError
  slug_taken : VisibilityError
  duplicate_grant : VisibilityError
  already_member : VisibilityError
  self_grant : VisibilityError
  grant_cycle : VisibilityError
  user_not_in_org : VisibilityError
  member_not_found : VisibilityError

-- The groups that an org's grants let a group see, one step away.
unfoldable pub successors : ℕ → List VisibilityGrant → ℕ → List ℕ
successors org grants group =
    map (λ g. g.subject_group_id)
      (select_where (λ g. g.org_id == org && g.viewer_group_id == group) grants)

unfoldable pub groups_of : ℕ → ℕ → List VisibilityGroupMember → List ℕ
groups_of org user members =
    map (λ m. m.group_id) (select_where (λ m. m.org_id == org && m.user_id == user) members)

-- The users that some group of a list has.
unfoldable pub users_of : ℕ → List ℕ → List VisibilityGroupMember → List ℕ
users_of org groups members =
    map (λ m. m.user_id) (select_where (λ m. m.org_id == org && contains m.group_id groups) members)

-- A deleted group takes its memberships and its grants with it (`onDelete: 'cascade'`).
unfoldable pub cascade : ℕ → Db → Db
cascade group db = record {
  organizations = db.organizations;
  organization_members = db.organization_members;
  groups = db.groups;
  group_members = delete_where (λ m. m.group_id == group) db.group_members;
  grants = delete_where (λ g. g.viewer_group_id == group || g.subject_group_id == group) db.grants;
  next_grant_id = db.next_grant_id;
}
