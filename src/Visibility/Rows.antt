-- ===== src/Visibility/Rows.antt =====
-- What the queries of the visibility tables select.
use hono_crosmos.Base.{
  ℕ, suc, ◌+◌, ◌≡◌, refl, inl, inr, ◌↔◌, ◌||◌, ◌&&◌, List, [], ◌∷◌, ◌==◌, ==_iff, arith, Bool-cases,
  length, map,
}
use hono_crosmos.Base.Tables.{select_where}
use hono_crosmos.Visibility.Graph.{contains, set_add, ◌∈◌, contains-set_add, Reach}
use hono_crosmos.Visibility.Search.{explore_iff}
use hono_crosmos.Visibility.Store.{
  VisibilityGroupMember, VisibilityGrant, successors, groups_of, users_of,
}
use hono_crosmos.Visibility.Service.{add_all, recursive_union}

pub contains-add_all :
    (x : ℕ) (xs s : List ℕ) → contains x (add_all xs s) ≡ (contains x s || contains x xs)
unfolding contains
contains-add_all x [] s = ground arith
contains-add_all x (y ∷ ys) s =
    ground (arith, contains-add_all x ys (set_add y s), contains-set_add x y s)

-- A user is in some group of a list.
abbrev pub IsInSome : ℕ → List VisibilityGroupMember → (ℕ → Type 0) → ℕ → Type 0
IsInSome org members group user = (g : ℕ) × (group g × (g ∈ groups_of org user members))

users_of-found :
    (org user : ℕ) (groups : List ℕ) (members : List VisibilityGroupMember)
    → user ∈ users_of org groups members
    → IsInSome org members (λ g. g ∈ groups) user
unfolding users_of groups_of select_where contains
users_of-found org user groups [] h = cc
users_of-found org user groups (m ∷ ms) h =
    elim (Bool-cases ((m.org_id == org && contains m.group_id groups) && m.user_id == user)) [
      | inl all ↦
          (m.group_id, (ground (arith, all), ground (arith, all, ==_iff m.group_id m.group_id)))
      | inr some_not ↦
          let (g, (i, k)) = users_of-found org user groups ms (ground (arith, h, some_not)) in
          (g, (i, ground (arith, k)))
    ]

users_of-listed :
    (org user g : ℕ) (groups : List ℕ) (members : List VisibilityGroupMember)
    → g ∈ groups
    → g ∈ groups_of org user members
    → user ∈ users_of org groups members
unfolding users_of groups_of select_where contains
users_of-listed org user g groups [] i h = h
users_of-listed org user g groups (m ∷ ms) i h =
    ground (arith, i, h, users_of-listed org user g groups ms i, ==_iff m.group_id g)

pub users_of_iff :
    (org user : ℕ) (groups : List ℕ) (members : List VisibilityGroupMember)
    → (user ∈ users_of org groups members) ↔ IsInSome org members (λ g. g ∈ groups) user
users_of_iff org user groups members = (
  users_of-found org user groups members,
  λ (g, (i, h)). users_of-listed org user g groups members i h,
)

subjects : List VisibilityGrant → List ℕ
subjects grants = map (λ g. g.subject_group_id) grants

successors-subjects :
    (org u v : ℕ) (grants : List VisibilityGrant)
    → v ∈ successors org grants u
    → v ∈ subjects grants
unfolding successors select_where contains subjects
successors-subjects org u v [] h = h
successors-subjects org u v (g ∷ gs) h = ground (arith, h, successors-subjects org u v gs)

length-subjects : (grants : List VisibilityGrant) → length (subjects grants) ≡ length grants
unfolding subjects
length-subjects [] = refl
length-subjects (g ∷ gs) = omega (arith, length-subjects gs)

-- The recursive query gives what the grants lead to from its seed.
pub recursive_union_iff :
    (org x : ℕ) (grants : List VisibilityGrant) (seed : List ℕ)
    → (x ∈ recursive_union org grants seed) ↔ Reach (successors org grants) seed x
unfolding recursive_union
recursive_union_iff org x grants seed =
    explore_iff (successors org grants) (subjects grants) (suc (length grants + length seed)) seed x
      (λ u v. successors-subjects org u v grants) (omega (arith, length-subjects grants))
