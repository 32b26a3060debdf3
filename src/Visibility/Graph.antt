-- ===== src/Visibility/Graph.antt =====
-- The worklist of `closureForGroupMembers` in apps/api/src/features/visibility/service.ts, over any
-- successor function. The array that serves as a stack has its top at the head of the list here; a
-- `Set` is a list in insertion order.
use hono_crosmos.Base.{
  ℕ, zero, suc, ◌≡◌, refl, Bool, true, false, ◌||◌, List, [], ◌∷◌, ◌++◌, ◌==◌, if◌then◌else◌, arith,
  Bool-cases,
}

unfoldable pub contains : ℕ → List ℕ → Bool
contains x [] = false
contains x (y ∷ ys) = y == x || contains x ys

infix 50 ◌∈◌
abbrev pub ◌∈◌ : ℕ → List ℕ → Type 0
x ∈ xs = contains x xs ≡ true

-- `Set.add`.
unfoldable pub set_add : ℕ → List ℕ → List ℕ
set_add x s = if contains x s then s else s ++ x ∷ []

pub contains-append :
    (x : ℕ) (xs ys : List ℕ) → contains x (xs ++ ys) ≡ (contains x xs || contains x ys)
unfolding contains
contains-append x [] ys = refl
contains-append x (y ∷ xs) ys = ground (arith, contains-append x xs ys)

pub contains-set_add : (x y : ℕ) (s : List ℕ) → contains x (set_add y s) ≡ (y == x || contains x s)
unfolding set_add contains
contains-set_add x y s = ground (arith, contains-append x s (y ∷ []), Bool-cases (contains y s))

-- The inner loop: the successors of one group.
unfoldable pub visit : List ℕ → List ℕ → List ℕ → List ℕ × List ℕ
visit [] reachable frontier = (reachable, frontier)
visit (n ∷ ns) reachable frontier =
    let skipped = visit ns reachable frontier in
    let added = visit ns (reachable ++ n ∷ []) (n ∷ frontier) in
    if contains n reachable then skipped else added

module _ (next : ℕ → List ℕ) where
  -- The outer loop, `while (frontier.length > 0)`, on fuel.
  unfoldable pub explore : ℕ → List ℕ → List ℕ → List ℕ
  unfolding visit
  explore zero reachable frontier = reachable
  explore (suc fuel) reachable [] = reachable
  explore (suc fuel) reachable (current ∷ frontier) =
      let (reachable', frontier') = visit (next current) reachable frontier in
      explore fuel reachable' frontier'

  -- What a chain of successors leads to, of any length, from one of the starts.
  pub data Reach (starts : List ℕ) : ℕ → Type 0 where
    here : {x : ℕ} → x ∈ starts → Reach starts x
    further : {y z : ℕ} → Reach starts y → z ∈ next y → Reach starts z
