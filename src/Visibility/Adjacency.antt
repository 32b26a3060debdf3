-- ===== src/Visibility/Adjacency.antt =====
-- The map of edges that a closure is computed from.
use hono_crosmos.Base.{
  append_nil, append_assoc, ℕ, suc, ◌≡◌, refl, sym, subst, ◌↔◌, List, [], ◌∷◌, ◌++◌, ◌==◌, ==_iff,
  arith, Bool-cases, length, map, nat_eq,
}
use hono_crosmos.Base.Dict as Dict
use hono_crosmos.Base.Dict.{Dict, get-set}
use hono_crosmos.Base.Tables.{select_where}
use hono_crosmos.Visibility.Graph.{contains, ◌∈◌, explore, Reach, here, further}
use hono_crosmos.Visibility.Search.{explore_iff}
use hono_crosmos.Visibility.Store.{VisibilityGrant, successors}
use hono_crosmos.Visibility.Service.{adjacency_from, or_empty, edges_of}

-- The subjects of a viewer among edges.
unfoldable pub targets : List (ℕ × ℕ) → ℕ → List ℕ
targets edges c = map (λ e. e.1) (select_where (λ e. e.0 == c) edges)

get-adjacency_from :
    (edges : List (ℕ × ℕ)) (adjacency : Dict ℕ (List ℕ)) (c : ℕ)
    → or_empty (Dict.get c (adjacency_from edges adjacency))
      ≡ or_empty (Dict.get c adjacency) ++ targets edges c
unfolding adjacency_from targets select_where
get-adjacency_from [] adjacency c = sym (append_nil (or_empty (Dict.get c adjacency)))
get-adjacency_from ((v, s) ∷ edges) adjacency c =
    let pushed = or_empty (Dict.get v adjacency) ++ s ∷ [] in
    ground (
      arith,
      get-adjacency_from edges (Dict.set v pushed adjacency) c,
      get-set v c pushed adjacency,
      append_assoc (or_empty (Dict.get v adjacency)) (s ∷ []) (targets edges c),
      ==_iff v c,
      Bool-cases (v == c),
    )

pub targets-edges_of :
    (org c : ℕ) (grants : List VisibilityGrant)
    → targets (edges_of org grants) c ≡ successors org grants c
unfolding targets successors select_where
targets-edges_of org c [] = refl
targets-edges_of org c (g ∷ gs) = ground (arith, targets-edges_of org c gs)

edge_subjects : List (ℕ × ℕ) → List ℕ
edge_subjects edges = map (λ e. e.1) edges

targets-edge_subjects :
    (c x : ℕ) (edges : List (ℕ × ℕ)) → x ∈ targets edges c → x ∈ edge_subjects edges
unfolding targets edge_subjects select_where contains
targets-edge_subjects c x [] h = h
targets-edge_subjects c x (e ∷ edges) h = ground (arith, h, targets-edge_subjects c x edges)

length-edge_subjects : (edges : List (ℕ × ℕ)) → length (edge_subjects edges) ≡ length edges
unfolding edge_subjects
length-edge_subjects [] = refl
length-edge_subjects (e ∷ edges) = omega (arith, length-edge_subjects edges)

-- Chains over two successor functions that agree.
pub map-Reach :
    {p q : ℕ → List ℕ} {starts : List ℕ} {x : ℕ}
    → ((u : ℕ) → p u ≡ q u)
    → Reach p starts x
    → Reach q starts x
unfolding contains
map-Reach same (here m) = here m
map-Reach same (further {y = y} {z = z} p e) =
    further (map-Reach same p) (subst (λ ys. z ∈ ys) (same y) e)

pub adjacency_iff :
    (edges : List (ℕ × ℕ)) (viewer x : ℕ)
    → (x
        ∈ explore
            (λ c. or_empty (Dict.get c (adjacency_from edges [])))
            (suc (suc (length edges)))
            (viewer ∷ [])
            (viewer ∷ []))
      ↔ Reach (targets edges) (viewer ∷ []) x
unfolding targets Dict.get
adjacency_iff edges viewer x =
    let next = λ (c : ℕ). or_empty (Dict.get c (adjacency_from edges [])) in
    let agree = λ (c : ℕ). get-adjacency_from edges [] c in
    let (sound, complete) =
      explore_iff next (edge_subjects edges) (suc (suc (length edges))) (viewer ∷ []) x
        (λ u v h. targets-edge_subjects u v edges (subst (λ ys. v ∈ ys) (agree u) h))
        (omega (arith, length-edge_subjects edges)) in
    (λ h. map-Reach agree (sound h), λ r. complete (map-Reach (λ c. sym (agree c)) r))
