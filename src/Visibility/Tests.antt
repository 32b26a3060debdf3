-- ===== src/Visibility/Tests.antt =====
-- Visibility at concrete grants.
use hono_crosmos.Base.{ℕ, ◌≡◌, refl, ◌⊎◌, ◌↔◌, true, none, List, [], ◌∷◌}
use hono_crosmos.Base.Result.{ok, thrown}
use hono_crosmos.Base.Tables.{count_where, select_where}
use hono_crosmos.Base.Dict as Dict
use hono_crosmos.Visibility.Graph.{contains, explore, set_add, ◌∈◌, Reach, here, further}
use hono_crosmos.Visibility.Rows.{IsInSome}
use hono_crosmos.Visibility.Store.{
  VisibilityGroupMember, VisibilityGrant, Db, grant_cycle, successors, users_of, groups_of,
}
use hono_crosmos.Visibility.Service.{
  refusal, preview_refusal, group_reaches, recursive_union, adjacency_from, create_grant,
  resolve_visible_user_ids, closure_for_group_members, preview_grant_impact,
}
use hono_crosmos.Visibility.Closure.{
  IsSeenBy, resolve_visible_user_ids_iff, closure_for_group_members_iff,
}
use hono_crosmos.Visibility.Acyclic.{IsAcyclic}
use hono_crosmos.Visibility.History.{Op, grant, revoke, run, run-IsAcyclic}

abbrev edge : ℕ → ℕ → ℕ → VisibilityGrant
edge id viewer subject = record {
  id = id;
  org_id = 1;
  viewer_group_id = viewer;
  subject_group_id = subject;
  created_by_user_id = none;
}

abbrev in_group : ℕ → ℕ → VisibilityGroupMember
in_group group user = record { org_id = 1; group_id = group; user_id = user }

abbrev base : List VisibilityGrant → Db
base grants = record {
  organizations = record { id = 1; visibility_enabled = true } ∷ [];
  organization_members = [];
  groups = [];
  group_members = in_group 10 5 ∷ in_group 20 6 ∷ in_group 30 7 ∷ in_group 40 8 ∷ [];
  grants = grants;
  next_grant_id = 3;
}

abbrev chain : List VisibilityGrant
chain = edge 1 10 20 ∷ edge 2 20 30 ∷ []

visible_example : resolve_visible_user_ids 1 5 (base chain) ≡ 5 ∷ 6 ∷ 7 ∷ []
unfolding resolve_visible_user_ids users_of select_where contains recursive_union explore groups_of
    successors set_add
visible_example = refl

cycle_example : create_grant 1 30 10 none (base chain) ≡ thrown grant_cycle
unfolding create_grant refusal count_where group_reaches contains recursive_union explore successors
    select_where
cycle_example = refl

preview_example : preview_grant_impact 1 30 40 (base chain) ≡ ok (8 ∷ [])
unfolding preview_grant_impact preview_refusal count_where group_reaches contains recursive_union
    explore successors select_where closure_for_group_members users_of Dict.get adjacency_from
    Dict.set set_add
preview_example = refl

resolve_visible_user_ids_iff_example :
    (7 ∈ resolve_visible_user_ids 1 5 (base chain))
    ↔ ((◌≡◌ {A = ℕ} 7 5) ⊎ IsInSome 1 (base chain).group_members (IsSeenBy 1 5 (base chain)) 7)
resolve_visible_user_ids_iff_example = resolve_visible_user_ids_iff 1 5 7 (base chain)

closure_for_group_members_iff_example :
    (7 ∈ closure_for_group_members 1 10 none (base chain))
    ↔ IsInSome 1 (base chain).group_members (Reach (successors 1 chain) (10 ∷ [])) 7
closure_for_group_members_iff_example = closure_for_group_members_iff 1 10 7 (base chain)

no_edge : IsAcyclic []
unfolding successors select_where contains
no_edge org g p = from_nothing p
  where
    from_nothing : {h : ℕ} → Reach (successors org []) (successors org [] g) h → ⊥
    from_nothing (here m) = cc
    from_nothing (further q m) = from_nothing q

abbrev calls : List Op
calls = grant 1 10 20 none ∷ grant 1 20 30 none ∷ grant 1 30 10 none ∷ revoke 1 3 ∷ []

run-IsAcyclic_example : IsAcyclic (run calls (base [])).grants
run-IsAcyclic_example = run-IsAcyclic calls (base []) no_edge
