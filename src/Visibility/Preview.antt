-- ===== src/Visibility/Preview.antt =====
-- The preview of a grant against the grant itself.
use hono_crosmos.Base.{ℕ, ◌≡◌, ◌⊎◌, Option, List, nat_eq}
use hono_crosmos.Base.Result.{Result, ok, thrown}
use hono_crosmos.Visibility.Graph.{◌∈◌}
use hono_crosmos.Visibility.Store.{Db, VisibilityGrant, VisibilityError, successors, groups_of}
use hono_crosmos.Visibility.Service.{with_grants, resolve_visible_user_ids}

-- Whom a user sees.
abbrev pub Sees : ℕ → ℕ → ℕ → Db → Type 0
Sees org user target db = target ∈ resolve_visible_user_ids org user db

-- The preview of a grant against the grant: both are refused, with the same error; or both pass, and
-- for every member of the viewer group the list has nobody whom the member will not see and
-- everybody whom the member will see and does not see now.
abbrev pub IsPreviewOf :
    ℕ → ℕ → Db → Result VisibilityError Db → Result VisibilityError (List ℕ) → Type 0
IsPreviewOf org viewer db (thrown error) (thrown error') = error' ≡ error
IsPreviewOf org viewer db (thrown error) (ok users) = ⊥
IsPreviewOf org viewer db (ok after) (thrown error) = ⊥
IsPreviewOf org viewer db (ok after) (ok users) =
    (member target : ℕ)
    → viewer ∈ groups_of org member db.group_members
    → (target ∈ users → Sees org member target after)
      × (Sees org member target after → (Sees org member target db → ⊥) → target ∈ users)

module _ (org viewer subject id : ℕ) (by : Option ℕ) where
  abbrev new_grant : VisibilityGrant
  new_grant = record {
    id = id;
    org_id = org;
    viewer_group_id = viewer;
    subject_group_id = subject;
    created_by_user_id = by;
  }

-- What a member sees after a grant, told from the closures of the group.
module _ (org viewer : ℕ) (db : Db) (grants : List VisibilityGrant) (next : ℕ)
    (more : (c d : ℕ) → d ∈ successors org db.grants c → d ∈ successors org grants c)
    (new : (c d : ℕ)
      → d ∈ successors org grants c
      → (d ∈ successors org db.grants c) ⊎ (c ≡ viewer))
    (member target : ℕ) (of_viewer : viewer ∈ groups_of org member db.group_members) where
  abbrev after : Db
  after = with_grants grants next db

  abbrev mine : List ℕ
  mine = groups_of org member db.group_members
