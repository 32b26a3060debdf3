-- ===== src/Base/Dict.antt =====
-- JavaScript's `Map`: entries in insertion order; `set` on a present key keeps its place.
use Prim.Native.Nat.{suc, ◌≤◌}
use mathlib.Core.Path.{◌≡◌, refl}
use mathlib.Core.Bool.{Bool, true, false}
use mathlib.Core.List.{List, [], ◌∷◌}
use mathlib.Core.Option.{Option, none, some}
use native.Mathlib.Omega.{arith}
use hono_crosmos.Base.Tests.{if◌then◌else◌, Bool-cases}
use hono_crosmos.Base.Lists.{length}
use hono_crosmos.Base.Equality.{Eq, ◌===◌, beq_refl}

abbrev pub Dict {ℓ κ} : Type ℓ → Type κ → Type (ℓ ⊔ κ)
Dict K V = List (K × V)

abbrev pub is_some {ℓ} : {A : Type ℓ} → Option A → Bool
is_some none = false
is_some (some a) = true

abbrev pub keep_if {ℓ} : {A : Type ℓ} → (A → Bool) → Option A → Option A
keep_if p none = none
keep_if p (some v) = if p v then some v else none

module _ {ℓ κ} {K : Type ℓ} {V : Type κ} where
  -- The loop that deletes the entries whose value fails a test.
  unfoldable pub retain : (V → Bool) → Dict K V → Dict K V
  retain p [] = []
  retain p ((k, v) ∷ m) = if p v then (k, v) ∷ retain p m else retain p m

  pub length-retain-le : (p : V → Bool) (m : Dict K V) → length (retain p m) ≤ length m
  unfolding retain
  length-retain-le p [] = omega arith
  length-retain-le p ((i, w) ∷ m) = ground (arith, length-retain-le p m)

module _ {ℓ κ} {K : Type ℓ} {V : Type κ} ⦃e : Eq K⦄ where
  unfoldable pub get : K → Dict K V → Option V
  get k [] = none
  get k ((j, v) ∷ m) = if j === k then some v else get k m

  unfoldable pub set : K → V → Dict K V → Dict K V
  set k v [] = (k, v) ∷ []
  set k v ((j, w) ∷ m) = if j === k then (j, v) ∷ m else (j, w) ∷ set k v m

  unfoldable pub delete : K → Dict K V → Dict K V
  delete k [] = []
  delete k ((j, w) ∷ m) = if j === k then m else (j, w) ∷ delete k m

  abbrev pub has : K → Dict K V → Bool
  has k m = is_some (get k m)

  pub get-set :
      (k j : K) (v : V) (m : Dict K V) → get j (set k v m) ≡ (if k === j then some v else get j m)
  unfolding get set
  get-set k j v [] = refl
  get-set k j v ((i, w) ∷ m) =
      ground (arith, e.beq_iff k j, e.beq_iff i k, e.beq_iff i j, get-set k j v m)

  pub get-set_self : (k : K) (v : V) (m : Dict K V) → get k (set k v m) ≡ some v
  get-set_self k v m = ground (arith, get-set k k v m, beq_refl k)

  pub length-set :
      (k : K) (v : V) (m : Dict K V)
      → length (set k v m) ≡ (if has k m then length m else suc (length m))
  unfolding get set
  length-set k v [] = refl
  length-set k v ((j, w) ∷ m) = ground (arith, length-set k v m)

  pub length-delete :
      (k : K) (m : Dict K V)
      → length m ≡ (if has k m then suc (length (delete k m)) else length (delete k m))
  unfolding get delete
  length-delete k [] = refl
  length-delete k ((j, w) ∷ m) = ground (arith, length-delete k m)

  pub get-delete_ne : (k j : K) (m : Dict K V) → (k === j) ≡ false → get j (delete k m) ≡ get j m
  unfolding get delete
  get-delete_ne k j [] ne = refl
  get-delete_ne k j ((i, w) ∷ m) ne =
      ground (arith, e.beq_iff k j, e.beq_iff i k, e.beq_iff i j, get-delete_ne k j m ne)

  pub delete_missing : (k : K) (m : Dict K V) → get k m ≡ none → delete k m ≡ m
  unfolding get delete
  delete_missing k [] h = refl
  delete_missing k ((i, w) ∷ m) h = ground (arith, delete_missing k m)

  -- No key stands twice: what `Map` keeps of itself.
  abbrev pub IsDistinct : Dict K V → Type κ
  IsDistinct [] = Unit
  IsDistinct ((k, v) ∷ m) = (get k m ≡ none) × IsDistinct m

  pub get-delete_self : (k : K) (m : Dict K V) → IsDistinct m → get k (delete k m) ≡ none
  unfolding get delete
  get-delete_self k [] d = refl
  get-delete_self k ((i, w) ∷ m) (fresh, d) = ground (arith, e.beq_iff i k, get-delete_self k m d)

  pub set-IsDistinct : (k : K) (v : V) (m : Dict K V) → IsDistinct m → IsDistinct (set k v m)
  unfolding get set
  set-IsDistinct k v [] d = (refl, tt)
  set-IsDistinct k v ((i, w) ∷ m) (fresh, d) =
      ground (arith, set-IsDistinct k v m d, get-set k i v m, e.beq_iff i k, e.beq_iff k i)

  pub delete-IsDistinct : (k : K) (m : Dict K V) → IsDistinct m → IsDistinct (delete k m)
  unfolding get delete
  delete-IsDistinct k [] d = tt
  delete-IsDistinct k ((i, w) ∷ m) (fresh, d) = ground (
    arith,
    delete-IsDistinct k m d,
    get-delete_ne k i m,
    e.beq_iff i k,
    e.beq_iff k i,
    Bool-cases (i === k),
    Bool-cases (k === i),
  )

  pub get-retain :
      (p : V → Bool) (k : K) (m : Dict K V)
      → IsDistinct m
      → get k (retain p m) ≡ keep_if p (get k m)
  unfolding get retain
  get-retain p k [] d = refl
  get-retain p k ((i, w) ∷ m) (fresh, d) = ground (arith, e.beq_iff i k, get-retain p k m d)

  pub retain-IsDistinct : (p : V → Bool) (m : Dict K V) → IsDistinct m → IsDistinct (retain p m)
  unfolding get retain
  retain-IsDistinct p [] d = tt
  retain-IsDistinct p ((i, w) ∷ m) (fresh, d) =
      ground (arith, retain-IsDistinct p m d, get-retain p i m d)
