-- ===== src/Base/Tables.antt =====
-- A database table as the list of its rows, and the statements of the program on it.
use Prim.Native.Nat.{ℕ, suc, ◌+◌}
use mathlib.Core.Path.{◌≡◌, refl, ap}
use mathlib.Core.Bool.{Bool, true, false}
use mathlib.Core.List.{List, [], ◌∷◌, ◌++◌}
use mathlib.Core.Option.{Option, none, some}
use native.Mathlib.Omega.{arith}
use hono_crosmos.Base.Tests.{if◌then◌else◌}

module _ {ℓ} {A : Type ℓ} where
  -- `select count(*) … where`.
  unfoldable pub count_where : (A → Bool) → List A → ℕ
  count_where p [] = 0
  count_where p (x ∷ xs) = let rest = count_where p xs in if p x then suc rest else rest

  -- `update … set … where`; `returning` gives `count_where` rows.
  unfoldable pub update_where : (A → Bool) → (A → A) → List A → List A
  update_where p f [] = []
  update_where p f (x ∷ xs) = (if p x then f x else x) ∷ update_where p f xs

  -- `select … where … limit 1`.
  unfoldable pub first_where : (A → Bool) → List A → Option A
  first_where p [] = none
  first_where p (x ∷ xs) = if p x then some x else first_where p xs

  -- `select … where`.
  unfoldable pub select_where : (A → Bool) → List A → List A
  select_where p [] = []
  select_where p (x ∷ xs) = if p x then x ∷ select_where p xs else select_where p xs

  -- `delete … where`; `returning` gives `count_where` rows.
  unfoldable pub delete_where : (A → Bool) → List A → List A
  delete_where p [] = []
  delete_where p (x ∷ xs) = if p x then delete_where p xs else x ∷ delete_where p xs

  abbrev pub All {κ} : (A → Type κ) → List A → Type κ
  All P [] = Unit
  All P (x ∷ xs) = P x × All P xs

  pub map-All : (P Q : A → Type 0) (xs : List A) → ((x : A) → P x → Q x) → All P xs → All Q xs
  map-All P Q [] f all = tt
  map-All P Q (x ∷ xs) f (first, rest) = (f x first, map-All P Q xs f rest)

  pub append-All : (P : A → Type 0) (xs ys : List A) → All P xs → All P ys → All P (xs ++ ys)
  append-All P [] ys here there = there
  append-All P (x ∷ xs) ys (first, rest) there = (first, append-All P xs ys rest there)

  pub count_where-update_where :
      (q p : A → Bool) (f : A → A) (xs : List A)
      → ((x : A) → q (if p x then f x else x) ≡ q x)
      → count_where q (update_where p f xs) ≡ count_where q xs
  unfolding count_where update_where
  count_where-update_where q p f [] h = refl
  count_where-update_where q p f (x ∷ xs) h =
      ground (arith, h x, count_where-update_where q p f xs h)

  pub count_where-append :
      (p : A → Bool) (xs ys : List A)
      → count_where p (xs ++ ys) ≡ count_where p xs + count_where p ys
  unfolding count_where
  count_where-append p [] ys = omega arith
  count_where-append p (x ∷ xs) ys = ground (arith, count_where-append p xs ys)

  pub first_where-update_where :
      (q p : A → Bool) (f : A → A) (xs : List A)
      → ((x : A) → q (if p x then f x else x) ≡ q x)
      → first_where q (update_where p f xs)
        ≡ elim (first_where q xs) [ none ↦ none | some x ↦ some (if p x then f x else x) ]
  unfolding first_where update_where
  first_where-update_where q p f [] h = refl
  first_where-update_where q p f (x ∷ xs) h =
      ground (arith, h x, first_where-update_where q p f xs h)

  pub first_where-append :
      (p : A → Bool) (xs ys : List A)
      → first_where p (xs ++ ys)
        ≡ elim (first_where p xs) [ none ↦ first_where p ys | some x ↦ some x ]
  unfolding first_where
  first_where-append p [] ys = refl
  first_where-append p (x ∷ xs) ys = ground (arith, first_where-append p xs ys)

  -- A delete of the rows that an insert appended.
  pub delete_where-append :
      (p : A → Bool) (old new : List A)
      → All (λ x. p x ≡ false) old
      → All (λ x. p x ≡ true) new
      → delete_where p (old ++ new) ≡ old
  unfolding delete_where
  delete_where-append p [] [] h k = refl
  delete_where-append p [] (y ∷ new) h (e, k) = rw e (delete_where-append p [] new tt k)
  delete_where-append p (x ∷ old) new (e, h) k =
      rw e (ap (λ (xs : List A). x ∷ xs) (delete_where-append p old new h k))
