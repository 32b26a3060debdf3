-- ===== src/Base/Decimal.antt =====
-- `String(n)` of a natural number: its decimal digits.
use Prim.Native.Nat.{ℕ, zero, suc, ◌/◌, ◌%◌, ◌≤◌, ◌<◌}
use Prim.Native.String.{String, ◌++◌, count}
use mathlib.Core.Path.{◌≡◌, refl, ◌∙◌, sym, ap}
use mathlib.Core.Logic.{◌⊎◌, inl, inr}
use native.Mathlib.Omega.{arith}
use text.Mathlib.TextLemmas.{length-append, append_inj}
use text.Mathlib.Text.{◌==◌}
use hono_crosmos.Base.Tests.{ltb, if◌then◌else◌, Bool-cases}

abbrev pub digit : ℕ → String
digit zero = "0"
digit (suc zero) = "1"
digit (suc (suc zero)) = "2"
digit (suc (suc (suc zero))) = "3"
digit (suc (suc (suc (suc zero)))) = "4"
digit (suc (suc (suc (suc (suc zero))))) = "5"
digit (suc (suc (suc (suc (suc (suc zero)))))) = "6"
digit (suc (suc (suc (suc (suc (suc (suc zero))))))) = "7"
digit (suc (suc (suc (suc (suc (suc (suc (suc zero)))))))) = "8"
digit (suc (suc (suc (suc (suc (suc (suc (suc (suc n))))))))) = "9"

value : String → ℕ
value s =
    if s == "0"
    then 0
    else if s == "1"
    then 1
    else if s == "2"
    then 2
    else if s == "3"
    then 3
    else if s == "4"
    then 4
    else if s == "5"
    then 5
    else if s == "6"
    then 6
    else if s == "7"
    then 7
    else if s == "8"
    then 8
    else 9

unfoldable pub digits : ℕ → ℕ → String
digits zero n = ""
digits (suc fuel) n =
    let rest = digits fuel (n / 10) ++ digit (n % 10) in if ltb n 10 then digit n else rest

-- A number has fewer digits than its value plus one.
unfoldable pub to_string : ℕ → String
unfolding digits
to_string n = digits (suc n) n

value-digit : (n : ℕ) → n < 10 → value (digit n) ≡ n
unfolding value
value-digit zero h = refl
value-digit (suc zero) h = refl
value-digit (suc (suc zero)) h = refl
value-digit (suc (suc (suc zero))) h = refl
value-digit (suc (suc (suc (suc zero)))) h = refl
value-digit (suc (suc (suc (suc (suc zero))))) h = refl
value-digit (suc (suc (suc (suc (suc (suc zero)))))) h = refl
value-digit (suc (suc (suc (suc (suc (suc (suc zero))))))) h = refl
value-digit (suc (suc (suc (suc (suc (suc (suc (suc zero)))))))) h = refl
value-digit (suc (suc (suc (suc (suc (suc (suc (suc (suc zero))))))))) h = refl
value-digit (suc (suc (suc (suc (suc (suc (suc (suc (suc (suc n)))))))))) h = absurd (omega arith)

digit_inj : (m n : ℕ) → m < 10 → n < 10 → digit m ≡ digit n → m ≡ n
digit_inj m n p q e = sym (value-digit m p) ∙ ap value e ∙ value-digit n q

count-digit : (n : ℕ) → count (digit n) ≡ 1
count-digit zero = refl
count-digit (suc zero) = refl
count-digit (suc (suc zero)) = refl
count-digit (suc (suc (suc zero))) = refl
count-digit (suc (suc (suc (suc zero)))) = refl
count-digit (suc (suc (suc (suc (suc zero))))) = refl
count-digit (suc (suc (suc (suc (suc (suc zero)))))) = refl
count-digit (suc (suc (suc (suc (suc (suc (suc zero))))))) = refl
count-digit (suc (suc (suc (suc (suc (suc (suc (suc zero)))))))) = refl
count-digit (suc (suc (suc (suc (suc (suc (suc (suc (suc n))))))))) = refl

digits-small : (fuel n : ℕ) → n < 10 → digits (suc fuel) n ≡ digit n
unfolding digits
digits-small fuel n h = ground arith

digits-large : (fuel n : ℕ) → 10 ≤ n → digits (suc fuel) n ≡ digits fuel (n / 10) ++ digit (n % 10)
unfolding digits
digits-large fuel n h = ground arith

count-digits : (fuel n : ℕ) → n < fuel → 1 ≤ count (digits fuel n)
unfolding digits
count-digits zero n h = absurd (omega arith)
count-digits (suc fuel) n h = elim (Bool-cases (ltb n 10)) [
  | inl e ↦ rw e (omega (arith, count-digit n))
  | inr e ↦
      rw (e, length-append (digits fuel (n / 10)) (digit (n % 10)))
        (omega (arith, count-digit (n % 10)))
]

-- A short print and a long one differ in length.
small-ne-large :
    (g m n : ℕ) → m < 10 → n / 10 < g → digit m ≡ digits g (n / 10) ++ digit (n % 10) → ⊥
small-ne-large g m n h k e = omega (
  arith,
  ap count e,
  count-digit m,
  length-append (digits g (n / 10)) (digit (n % 10)),
  count-digits g (n / 10) k,
  count-digit (n % 10),
)

digits_split :
    (f g m n : ℕ)
    → digits f (m / 10) ++ digit (m % 10) ≡ digits g (n / 10) ++ digit (n % 10)
    → (digits f (m / 10) ≡ digits g (n / 10)) × (digit (m % 10) ≡ digit (n % 10))
digits_split f g m n e = append_inj e (
    omega (
      arith,
      ap count e,
      length-append (digits f (m / 10)) (digit (m % 10)),
      length-append (digits g (n / 10)) (digit (n % 10)),
      count-digit (m % 10),
      count-digit (n % 10),
    ))

digits_inj : (f g m n : ℕ) → m < f → n < g → digits f m ≡ digits g n → m ≡ n
digits_inj zero g m n p q e = absurd (omega arith)
digits_inj (suc f) zero m n p q e = absurd (omega arith)
digits_inj (suc f) (suc g) m n p q e = elim (le_or_lt m) [
  | inl small ↦ elim (le_or_lt n) [
    | inl small' ↦
        digit_inj m n small small' (sym (digits-small f m small) ∙ e ∙ digits-small g n small')
    | inr large' ↦ absurd (
        small-ne-large g m n small (omega arith)
          (sym (digits-small f m small) ∙ e ∙ digits-large g n large'))
  ]
  | inr large ↦ elim (le_or_lt n) [
    | inl small' ↦ absurd (
        small-ne-large f n m small' (omega arith)
          (sym (digits-small g n small') ∙ sym e ∙ digits-large f m large))
    | inr large' ↦
        let split =
          digits_split f g m n (sym (digits-large f m large) ∙ e ∙ digits-large g n large') in
        let high = digits_inj f g (m / 10) (n / 10) (omega arith) (omega arith) split.0 in
        let low = digit_inj (m % 10) (n % 10) (omega arith) (omega arith) split.1 in
        omega (arith, high, low)
  ]
]
  where
    le_or_lt : (k : ℕ) → (k < 10) ⊎ (10 ≤ k)
    le_or_lt k = omega arith

-- Different numbers print differently.
pub to_string_inj : (m n : ℕ) → to_string m ≡ to_string n → m ≡ n
unfolding to_string
to_string_inj m n e = digits_inj (suc m) (suc n) m n (omega arith) (omega arith) e
