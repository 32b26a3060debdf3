-- ===== src/Visibility/Closure.antt =====
-- Whom a user and a group see.
use hono_crosmos.Base.{
  append_nil, ℕ, suc, ◌≡◌, refl, sym, ◌∙◌, ◌⊎◌, inl, inr, ◌↔◌, ◌||◌, ◌&&◌, none, List, [], ◌∷◌,
  ◌++◌, ◌==◌, ==_iff, arith, Bool-cases, length, map, nat_eq,
}
use hono_crosmos.Base.Dict as Dict
use hono_crosmos.Base.Dict.{Dict, get-set}
use hono_crosmos.Base.Tables.{select_where}
use hono_crosmos.Visibility.Graph.{contains, ◌∈◌, explore, Reach, here}
use hono_crosmos.Visibility.Rows.{contains-add_all, IsInSome, users_of_iff, recursive_union_iff}
use hono_crosmos.Visibility.Adjacency.{targets, map-Reach, targets-edges_of, adjacency_iff}
use hono_crosmos.Visibility.Store.{
  Db, VisibilityGroupMember, VisibilityGrant, successors, groups_of, users_of,
}
use hono_crosmos.Visibility.Service.{
  add_all, recursive_union, resolve_visible_user_ids, adjacency_from, or_empty, edges_of,
  closure_for_group_members,
}

-- The groups that a user's own groups see, over any number of grants.
abbrev pub IsSeenBy : ℕ → ℕ → Db → ℕ → Type 0
IsSeenBy org user db = Reach (successors org db.grants) (groups_of org user db.group_members)

-- A user sees exactly: themselves, and the members of each group that a chain of the org's grants,
-- of any length, leads to from a group of theirs.
pub resolve_visible_user_ids_iff :
    (org user target : ℕ) (db : Db)
    → (target ∈ resolve_visible_user_ids org user db)
      ↔ ((target ≡ user) ⊎ IsInSome org db.group_members (IsSeenBy org user db) target)
unfolding resolve_visible_user_ids contains
resolve_visible_user_ids_iff org user target db = (sound, complete)
  where
    mine : List ℕ
    mine = groups_of org user db.group_members

    reachable : List ℕ
    reachable = recursive_union org db.grants mine

    listed :
        contains target (resolve_visible_user_ids org user db)
        ≡ (contains target (user ∷ []) || contains target (users_of org reachable db.group_members))
    listed = contains-add_all target (users_of org reachable db.group_members) (user ∷ [])

    sound :
        target ∈ resolve_visible_user_ids org user db
        → (target ≡ user) ⊎ IsInSome org db.group_members (IsSeenBy org user db) target
    sound h = elim (Bool-cases (user == target)) [
      | inl same ↦ inl (ground (arith, same, ==_iff user target))
      | inr other ↦
          let (g, (i, k)) =
            (users_of_iff org target reachable db.group_members).0
              (ground (arith, h, other, listed)) in
          inr (g, ((recursive_union_iff org g db.grants mine).0 i, k))
    ]

    complete :
        (target ≡ user) ⊎ IsInSome org db.group_members (IsSeenBy org user db) target
        → target ∈ resolve_visible_user_ids org user db
    complete (inl same) = ground (arith, listed, same, ==_iff user target)
    complete (inr (g, (i, k))) =
        let m =
          (users_of_iff org target reachable db.group_members).1
            (g, ((recursive_union_iff org g db.grants mine).1 i, k)) in
        ground (arith, listed, m)

users_of-members :
    (org viewer target : ℕ) (members : List VisibilityGroupMember)
    → contains target
        (map (λ m. m.user_id) (select_where (λ m. m.org_id == org && m.group_id == viewer) members))
      ≡ contains target (users_of org (viewer ∷ []) members)
unfolding users_of select_where contains
users_of-members org viewer target [] = refl
users_of-members org viewer target (m ∷ ms) = ground (
  arith,
  users_of-members org viewer target ms,
  ==_iff viewer m.group_id,
  ==_iff m.group_id viewer,
)

edges-successors :
    (org c : ℕ) (grants : List VisibilityGrant)
    → targets (edges_of org grants ++ []) c ≡ successors org grants c
edges-successors org c grants =
    rw (append_nil (edges_of org grants)) (targets-edges_of org c grants)

-- A group sees exactly the members of each group that a chain of the org's grants, of any length,
-- leads to from it, itself among them.
pub closure_for_group_members_iff :
    (org viewer target : ℕ) (db : Db)
    → (target ∈ closure_for_group_members org viewer none db)
      ↔ IsInSome org db.group_members (Reach (successors org db.grants) (viewer ∷ [])) target
unfolding closure_for_group_members contains
closure_for_group_members_iff org viewer target db = (sound, complete)
  where
    edges : List (ℕ × ℕ)
    edges = edges_of org db.grants ++ []

    reachable : List ℕ
    reachable =
        explore (λ c. or_empty (Dict.get c (adjacency_from edges []))) (suc (suc (length edges)))
          (viewer ∷ []) (viewer ∷ [])

    members : List ℕ
    members =
        map (λ m. m.user_id)
          (select_where (λ m. m.org_id == org && m.group_id == viewer) db.group_members)

    listed :
        contains target (closure_for_group_members org viewer none db)
        ≡ (contains target members || contains target (users_of org reachable db.group_members))
    listed = ground (
      arith,
      contains-add_all target (users_of org reachable db.group_members) (add_all members []),
      contains-add_all target members [],
    )

    sees : ℕ → Type 0
    sees = Reach (successors org db.grants) (viewer ∷ [])

    is_reachable : (g : ℕ) → (g ∈ reachable) ↔ sees g
    is_reachable g =
        let (there, back) = adjacency_iff edges viewer g in
        (
          λ h. map-Reach (λ c. edges-successors org c db.grants) (there h),
          λ r. back (map-Reach (λ c. sym (edges-successors org c db.grants)) r),
        )

    sound :
        target ∈ closure_for_group_members org viewer none db
        → IsInSome org db.group_members sees target
    sound h = elim (Bool-cases (contains target members)) [
      | inl own ↦
          let (g, (i, k)) =
            (users_of_iff org target (viewer ∷ []) db.group_members).0
              (sym (users_of-members org viewer target db.group_members) ∙ own) in
          (g, (here i, k))
      | inr other ↦
          let (g, (i, k)) =
            (users_of_iff org target reachable db.group_members).0
              (ground (arith, h, other, listed)) in
          (g, ((is_reachable g).0 i, k))
    ]

    complete :
        IsInSome org db.group_members sees target
        → target ∈ closure_for_group_members org viewer none db
    complete (g, (r, k)) =
        let m =
          (users_of_iff org target reachable db.group_members).1 (g, ((is_reachable g).1 r, k)) in
        ground (arith, listed, m)
