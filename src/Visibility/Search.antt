-- ===== src/Visibility/Search.antt =====
-- The worklist finds exactly what can be reached, in fewer rounds than its fuel.
use hono_crosmos.Base.{
  ℕ, zero, suc, ◌+◌, ◌≤◌, ◌<◌, ◌≡◌, ◌⊎◌, inl, inr, ◌↔◌, false, ◌||◌, ◌&&◌, not, List, [], ◌∷◌, ◌++◌,
  ◌==◌, ==_iff, arith, Bool-cases, length,
}
use hono_crosmos.Base.Tables.{count_where}
use hono_crosmos.Visibility.Graph.{
  contains, ◌∈◌, contains-append, visit, explore, Reach, here, further,
}

-- The groups of a universe that are not yet marked.
unmarked : List ℕ → List ℕ → ℕ
unmarked universe s = count_where (λ u. not (contains u s)) universe

unmarked-le : (universe s : List ℕ) (x : ℕ) → unmarked universe (s ++ x ∷ []) ≤ unmarked universe s
unfolding unmarked count_where contains
unmarked-le [] s x = omega arith
unmarked-le (u ∷ us) s x = ground (arith, unmarked-le us s x, contains-append u s (x ∷ []))

unmarked-lt :
    (universe s : List ℕ) (x : ℕ)
    → x ∈ universe
    → contains x s ≡ false
    → unmarked universe (s ++ x ∷ []) < unmarked universe s
unfolding unmarked count_where contains
unmarked-lt [] s x m fresh = cc
unmarked-lt (u ∷ us) s x m fresh = ground (
  arith,
  unmarked-le us s x,
  unmarked-lt us s x,
  contains-append u s (x ∷ []),
  Bool-cases (u == x),
  ==_iff u x,
)

unmarked-le_length : (universe s : List ℕ) → unmarked universe s ≤ length universe
unfolding unmarked count_where
unmarked-le_length [] s = omega arith
unmarked-le_length (u ∷ us) s = ground (arith, unmarked-le_length us s)

pub visit-contains :
    (ns r f : List ℕ) (x : ℕ) → contains x (visit ns r f).0 ≡ (contains x r || contains x ns)
unfolding visit contains
visit-contains [] r f x = ground arith
visit-contains (n ∷ ns) r f x = elim (Bool-cases (contains n r)) [
  | inl old ↦ rw old (ground (arith, visit-contains ns r f x, old, ==_iff n x))
  | inr new ↦
      rw new
        (ground (arith, visit-contains ns (r ++ n ∷ []) (n ∷ f) x, contains-append x r (n ∷ [])))
]

-- What a visit marks anew it also puts on the stack, and it takes nothing off.
pub visit-frontier :
    (ns r f : List ℕ) (x : ℕ)
    → contains x (visit ns r f).1
      ≡ (contains x f || (contains x (visit ns r f).0 && not (contains x r)))
unfolding visit contains
visit-frontier [] r f x = ground arith
visit-frontier (n ∷ ns) r f x = elim (Bool-cases (contains n r)) [
  | inl old ↦ rw old (visit-frontier ns r f x)
  | inr new ↦ rw new (
      ground (
        arith,
        new,
        ==_iff n x,
        visit-frontier ns (r ++ n ∷ []) (n ∷ f) x,
        visit-contains ns (r ++ n ∷ []) (n ∷ f) x,
        contains-append x r (n ∷ []),
      ))
]

visit-measure :
    (universe ns r f : List ℕ)
    → ((x : ℕ) → x ∈ ns → x ∈ universe)
    → unmarked universe (visit ns r f).0 + length (visit ns r f).1 ≤ unmarked universe r + length f
unfolding visit contains
visit-measure universe [] r f h = omega arith
visit-measure universe (n ∷ ns) r f h =
    let later = λ (x : ℕ) (m : x ∈ ns). h x (ground (arith, m)) in
    elim (Bool-cases (contains n r)) [
      | inl old ↦ rw old (visit-measure universe ns r f later)
      | inr new ↦ rw new (
          omega (
            arith,
            visit-measure universe ns (r ++ n ∷ []) (n ∷ f) later,
            unmarked-lt universe r n (h n (ground (arith, ==_iff n n))) new,
          ))
    ]

module _ (next : ℕ → List ℕ) where
  -- A marked group has its successors marked, or waits on the stack; and the stack holds marked ones.
  record IsOpen (r f : List ℕ) : Type 0 where
    waits : (x y : ℕ) → x ∈ r → y ∈ next x → (y ∈ r) ⊎ (x ∈ f)
    marked : (x : ℕ) → x ∈ f → x ∈ r

  visit-IsOpen :
      (c : ℕ) (r f : List ℕ)
      → IsOpen r (c ∷ f)
      → IsOpen (visit (next c) r f).0 (visit (next c) r f).1
  unfolding contains
  visit-IsOpen c r f o = record {
    waits = λ x y m s. ground (
      arith,
      m,
      s,
      o.waits x y,
      ==_iff c x,
      visit-contains (next c) r f x,
      visit-contains (next c) r f y,
      visit-frontier (next c) r f x,
      Bool-cases (contains x r),
    );
    marked = λ x m. ground (
      arith,
      m,
      o.marked x,
      visit-contains (next c) r f x,
      visit-frontier (next c) r f x,
      Bool-cases (contains x f),
    );
  }

  -- With enough fuel the result is closed under successors, and holds what was marked.
  explore-closed :
      (universe : List ℕ) (fuel : ℕ) (r f : List ℕ)
      → ((x y : ℕ) → y ∈ next x → y ∈ universe)
      → unmarked universe r + length f < fuel
      → IsOpen r f
      → ((x y : ℕ) → x ∈ explore next fuel r f → y ∈ next x → y ∈ explore next fuel r f)
        × ((x : ℕ) → x ∈ r → x ∈ explore next fuel r f)
  unfolding explore contains
  explore-closed universe zero r f inside enough o = absurd (omega arith)
  explore-closed universe (suc fuel) r [] inside enough o =
      (λ x y m s. ground (arith, o.waits x y m s), λ x m. m)
  explore-closed universe (suc fuel) r (c ∷ f) inside enough o =
      let (closed, kept) =
        explore-closed universe fuel (visit (next c) r f).0 (visit (next c) r f).1 inside
          (omega (arith, visit-measure universe (next c) r f (inside c))) (visit-IsOpen c r f o) in
      (closed, λ x m. kept x (ground (arith, m, visit-contains (next c) r f x)))

  -- Whatever the fuel, every result can be reached from the starts.
  explore-Reach :
      (starts : List ℕ) (fuel : ℕ) (r f : List ℕ)
      → ((x : ℕ) → x ∈ r → Reach next starts x)
      → ((x : ℕ) → x ∈ f → x ∈ r)
      → (x : ℕ) → x ∈ explore next fuel r f
      → Reach next starts x
  unfolding explore contains
  explore-Reach starts zero r f sound marked x m = sound x m
  explore-Reach starts (suc fuel) r [] sound marked x m = sound x m
  explore-Reach starts (suc fuel) r (c ∷ f) sound marked x m =
      explore-Reach starts fuel (visit (next c) r f).0 (visit (next c) r f).1 sound' marked' x m
    where
      from_c : Reach next starts c
      from_c = sound c (marked c (ground (arith, ==_iff c c)))

      sound' : (y : ℕ) → y ∈ (visit (next c) r f).0 → Reach next starts y
      sound' y k = elim (Bool-cases (contains y r)) [
        | inl old ↦ sound y old
        | inr new ↦ further from_c (ground (arith, k, new, visit-contains (next c) r f y))
      ]

      marked' : (y : ℕ) → y ∈ (visit (next c) r f).1 → y ∈ (visit (next c) r f).0
      marked' y k = ground (
        arith,
        k,
        marked y,
        visit-contains (next c) r f y,
        visit-frontier (next c) r f y,
        Bool-cases (contains y f),
      )

  -- A set that holds the starts and is closed under successors holds all that can be reached.
  pub closed-Reach :
      (s starts : List ℕ) (x : ℕ)
      → ((u v : ℕ) → u ∈ s → v ∈ next u → v ∈ s)
      → ((u : ℕ) → u ∈ starts → u ∈ s)
      → Reach next starts x
      → x ∈ s
  closed-Reach s starts x closed all (here m) = all x m
  closed-Reach s starts x closed all (further {y = y} p e) =
      closed y x (closed-Reach s starts y closed all p) e

  -- The worklist finds exactly what chains of successors lead to, if the fuel exceeds the number of
  -- starts and of groups that are successors at all.
  pub explore_iff :
      (universe : List ℕ) (fuel : ℕ) (starts : List ℕ) (x : ℕ)
      → ((u v : ℕ) → v ∈ next u → v ∈ universe)
      → length universe + length starts < fuel
      → (x ∈ explore next fuel starts starts) ↔ Reach next starts x
  explore_iff universe fuel starts x inside enough = (
    explore-Reach starts fuel starts starts (λ y m. here m) (λ y m. m) x,
    closed-Reach (explore next fuel starts starts) starts x result.0 result.1,
  )
    where
      opened : IsOpen starts starts
      opened = record { waits = λ u v m s. inr m; marked = λ u m. m }

      result :
          ((u v : ℕ)
            → u ∈ explore next fuel starts starts
            → v ∈ next u
            → v ∈ explore next fuel starts starts)
          × ((u : ℕ) → u ∈ starts → u ∈ explore next fuel starts starts)
      result =
          explore-closed universe fuel starts starts inside
            (omega (arith, unmarked-le_length universe starts)) opened
