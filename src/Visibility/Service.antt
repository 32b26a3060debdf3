-- ===== src/Visibility/Service.antt =====
-- apps/api/src/features/visibility/service.ts: each operation on the tables, with what it throws.
use hono_crosmos.Base.{
  ℕ, suc, ◌+◌, ◌==◌, nat_eq, Bool, false, ◌&&◌, not, Option, none, some, List, [], ◌∷◌, ◌++◌, map,
  if◌then◌else◌, ltb, length,
}
use hono_crosmos.Base.Dict as Dict
use hono_crosmos.Base.Dict.{Dict}
use hono_crosmos.Base.Result.{Result, ok, thrown}
use hono_crosmos.Base.Tables.{count_where, select_where, delete_where, update_where, first_where}
use hono_crosmos.Visibility.Graph.{contains, set_add, explore}
use hono_crosmos.Visibility.Store.{
  Organization, VisibilityGroupMember, VisibilityGrant, Db, VisibilityError, not_found,
  duplicate_grant, already_member, self_grant, grant_cycle, user_not_in_org, member_not_found,
  successors, groups_of, users_of, cascade,
}

abbrev pub add_all : List ℕ → List ℕ → List ℕ
add_all [] s = s
add_all (x ∷ xs) s = add_all xs (set_add x s)

-- A `WITH RECURSIVE … UNION` query as a set: its seed, and what the grants lead to from there.
unfoldable pub recursive_union : ℕ → List VisibilityGrant → List ℕ → List ℕ
recursive_union org grants seed =
    explore (successors org grants) (suc (length grants + length seed)) seed seed

unfoldable pub resolve_visible_user_ids : ℕ → ℕ → Db → List ℕ
resolve_visible_user_ids org user db =
    let my_groups = groups_of org user db.group_members in
    let reachable = recursive_union org db.grants my_groups in
    add_all (users_of org reachable db.group_members) (user ∷ [])

-- A missing organization reads as one whose groups are not enabled.
unfoldable pub visibility_is_enabled : ℕ → List Organization → Bool
visibility_is_enabled org rows = elim (first_where (λ o. o.id == org) rows) [
  | none ↦ false
  | some o ↦ o.visibility_enabled
]

unfoldable pub resolve_read_visibility : ℕ → ℕ → Db → List ℕ
resolve_read_visibility org user db =
    if visibility_is_enabled org db.organizations
    then resolve_visible_user_ids org user db
    else user ∷ []

abbrev pub with_group_members : List VisibilityGroupMember → Db → Db
with_group_members members db = record {
  organizations = db.organizations;
  organization_members = db.organization_members;
  groups = db.groups;
  group_members = members;
  grants = db.grants;
  next_grant_id = db.next_grant_id;
}

unfoldable pub delete_visibility_group : ℕ → ℕ → Db → Result VisibilityError Db
delete_visibility_group org group db =
    if ltb 0 (count_where (λ g. g.org_id == org && g.id == group) db.groups)
    then ok (
        cascade group (record {
          organizations = db.organizations;
          organization_members = db.organization_members;
          groups = delete_where (λ g. g.org_id == org && g.id == group) db.groups;
          group_members = db.group_members;
          grants = db.grants;
          next_grant_id = db.next_grant_id;
        }))
    else thrown not_found

unfoldable pub is_org_member : ℕ → ℕ → Db → Bool
is_org_member org user db =
    ltb 0 (count_where (λ m. m.org_id == org && m.user_id == user) db.organization_members)

unfoldable pub add_group_member : ℕ → ℕ → ℕ → Db → Result VisibilityError Db
add_group_member org group user db =
    if not (is_org_member org user db)
    then thrown user_not_in_org
    else if ltb 0 (count_where (λ m. m.group_id == group && m.user_id == user) db.group_members)
    then thrown already_member
    else ok (
        with_group_members
          (db.group_members ++ record { org_id = org; group_id = group; user_id = user } ∷ []) db)

abbrev pub is_membership : ℕ → ℕ → ℕ → VisibilityGroupMember → Bool
is_membership org group user m = m.org_id == org && (m.group_id == group && m.user_id == user)

unfoldable pub remove_group_member : ℕ → ℕ → ℕ → Db → Result VisibilityError Db
remove_group_member org group user db =
    if ltb 0 (count_where (is_membership org group user) db.group_members)
    then ok (with_group_members (delete_where (is_membership org group user) db.group_members) db)
    else thrown member_not_found

-- The number of rows removed, and the tables.
unfoldable pub remove_user_from_all_groups : ℕ → ℕ → Db → ℕ × Db
remove_user_from_all_groups org user db =
    let mine = λ (m : VisibilityGroupMember). m.org_id == org && m.user_id == user in
    (count_where mine db.group_members, with_group_members (delete_where mine db.group_members) db)

unfoldable pub group_reaches : ℕ → ℕ → ℕ → List VisibilityGrant → Bool
group_reaches org start target grants =
    contains target (recursive_union org grants (successors org grants start))

abbrev pub is_edge : ℕ → ℕ → ℕ → VisibilityGrant → Bool
is_edge org viewer subject g =
    g.org_id == org && (g.viewer_group_id == viewer && g.subject_group_id == subject)

-- The checks of `createGrant`, in their order; `none` when all pass.
unfoldable pub refusal : ℕ → ℕ → ℕ → List VisibilityGrant → Option VisibilityError
refusal org viewer subject grants =
    if viewer == subject
    then some self_grant
    else if ltb 0 (count_where (is_edge org viewer subject) grants)
    then some duplicate_grant
    else if group_reaches org subject viewer grants
    then some grant_cycle
    else none

abbrev pub with_grants : List VisibilityGrant → ℕ → Db → Db
with_grants grants next_id db = record {
  organizations = db.organizations;
  organization_members = db.organization_members;
  groups = db.groups;
  group_members = db.group_members;
  grants = grants;
  next_grant_id = next_id;
}

unfoldable pub create_grant : ℕ → ℕ → ℕ → Option ℕ → Db → Result VisibilityError Db
create_grant org viewer subject created_by db = elim (refusal org viewer subject db.grants) [
  | some error ↦ thrown error
  | none ↦ ok (
      with_grants
        (db.grants
          ++ record {
            id = db.next_grant_id;
            org_id = org;
            viewer_group_id = viewer;
            subject_group_id = subject;
            created_by_user_id = created_by;
          }
            ∷ [])
        (suc db.next_grant_id) db)
]

unfoldable pub delete_grant : ℕ → ℕ → Db → Result VisibilityError Db
delete_grant org grant db =
    if ltb 0 (count_where (λ g. g.org_id == org && g.id == grant) db.grants)
    then ok (
        with_grants (delete_where (λ g. g.org_id == org && g.id == grant) db.grants)
          db.next_grant_id db)
    else thrown not_found

-- The edges of an org as the map from a viewer to its subjects.
abbrev pub or_empty : Option (List ℕ) → List ℕ
or_empty none = []
or_empty (some xs) = xs

unfoldable pub adjacency_from : List (ℕ × ℕ) → Dict ℕ (List ℕ) → Dict ℕ (List ℕ)
adjacency_from [] adjacency = adjacency
adjacency_from ((viewer, subject) ∷ edges) adjacency =
    adjacency_from edges
      (Dict.set viewer (or_empty (Dict.get viewer adjacency) ++ subject ∷ []) adjacency)

abbrev pub edges_of : ℕ → List VisibilityGrant → List (ℕ × ℕ)
edges_of org grants =
    map (λ g. (g.viewer_group_id, g.subject_group_id)) (select_where (λ g. g.org_id == org) grants)

abbrev pub extra_edge : Option (ℕ × ℕ) → List (ℕ × ℕ)
extra_edge none = []
extra_edge (some edge) = edge ∷ []

unfoldable pub closure_for_group_members : ℕ → ℕ → Option (ℕ × ℕ) → Db → List ℕ
closure_for_group_members org viewer extra_grant db =
    let members =
      map (λ (m : VisibilityGroupMember). m.user_id)
        (select_where (λ m. m.org_id == org && m.group_id == viewer) db.group_members) in
    let edges = edges_of org db.grants ++ extra_edge extra_grant in
    let adjacency = adjacency_from edges [] in
    let reachable =
      explore (λ current. or_empty (Dict.get current adjacency)) (suc (suc (length edges)))
        (viewer ∷ []) (viewer ∷ []) in
    add_all (users_of org reachable db.group_members) (add_all members [])

-- The checks of `previewGrantImpact`, which are written out there again.
unfoldable pub preview_refusal : ℕ → ℕ → ℕ → List VisibilityGrant → Option VisibilityError
preview_refusal org viewer subject grants =
    if viewer == subject
    then some self_grant
    else if ltb 0 (count_where (is_edge org viewer subject) grants)
    then some duplicate_grant
    else if group_reaches org subject viewer grants
    then some grant_cycle
    else none

-- `filter((userId) => !before.has(userId))`.
unfoldable pub preview_grant_impact : ℕ → ℕ → ℕ → Db → Result VisibilityError (List ℕ)
preview_grant_impact org viewer subject db = elim (preview_refusal org viewer subject db.grants) [
  | some error ↦ thrown error
  | none ↦
      let before = closure_for_group_members org viewer none db in
      let after = closure_for_group_members org viewer (some (viewer, subject)) db in
      ok (select_where (λ user. not (contains user before)) after)
]

-- The flag as it is after the update.
unfoldable pub set_visibility_enabled : ℕ → Bool → Db → Result VisibilityError (Bool × Db)
set_visibility_enabled org enabled db =
    if ltb 0 (count_where (λ o. o.id == org) db.organizations)
    then ok (
      enabled,
      record {
        organizations =
            update_where (λ o. o.id == org)
              (λ o. record { id = o.id; visibility_enabled = enabled }) db.organizations;
        organization_members = db.organization_members;
        groups = db.groups;
        group_members = db.group_members;
        grants = db.grants;
        next_grant_id = db.next_grant_id;
      },
    )
    else thrown not_found
