-- ===== src/Base/Bars.antt =====
-- Texts that a bar separates, as the key of an edge in apps/ingestion/src/ingestion/edges.ts.
use Prim.Native.Nat.{ℕ, zero, suc, ◌/◌, ◌%◌}
use Prim.Native.Char.{Char, code}
use Prim.Native.String.{String, [], ◌∷◌, ◌++◌}
use mathlib.Core.Path.{◌≡◌, refl, ap, ap₂, sym, subst, ◌∙◌}
use mathlib.Core.Logic.{◌≢◌}
use native.Mathlib.Omega.{arith}
use text.Mathlib.TextLemmas.{nil-append, cons-append, head-eq_of_cons-eq, tail-eq_of_cons-eq}
use hono_crosmos.Base.Tests.{ltb, either_by}
use hono_crosmos.Base.Decimal.{digit, digits, to_string, to_string_inj}

-- No character of a text is a bar.
abbrev pub HasNoBar : String → Type 0
HasNoBar [] = Unit
HasNoBar (c ∷ s) = (code c ≢ 124) × HasNoBar s

append-HasNoBar : (s t : String) → HasNoBar s → HasNoBar t → HasNoBar (s ++ t)
append-HasNoBar [] t hs ht = rw (nil-append t) ht
append-HasNoBar (c ∷ s) t (h, hs) ht = rw (cons-append c s t) (h, append-HasNoBar s t hs ht)

digit-HasNoBar : (n : ℕ) → HasNoBar (digit n)
digit-HasNoBar zero = ground arith
digit-HasNoBar (suc zero) = ground arith
digit-HasNoBar (suc (suc zero)) = ground arith
digit-HasNoBar (suc (suc (suc zero))) = ground arith
digit-HasNoBar (suc (suc (suc (suc zero)))) = ground arith
digit-HasNoBar (suc (suc (suc (suc (suc zero))))) = ground arith
digit-HasNoBar (suc (suc (suc (suc (suc (suc zero)))))) = ground arith
digit-HasNoBar (suc (suc (suc (suc (suc (suc (suc zero))))))) = ground arith
digit-HasNoBar (suc (suc (suc (suc (suc (suc (suc (suc zero)))))))) = ground arith
digit-HasNoBar (suc (suc (suc (suc (suc (suc (suc (suc (suc n))))))))) = ground arith

digits-HasNoBar : (fuel n : ℕ) → HasNoBar (digits fuel n)
unfolding digits
digits-HasNoBar zero n = tt
digits-HasNoBar (suc fuel) n =
    either_by HasNoBar (ltb n 10) (λ e. digit-HasNoBar n)
      (λ e.
        append-HasNoBar (digits fuel (n / 10)) (digit (n % 10)) (digits-HasNoBar fuel (n / 10))
          (digit-HasNoBar (n % 10)))

pub to_string-HasNoBar : (n : ℕ) → HasNoBar (to_string n)
unfolding to_string
to_string-HasNoBar n = digits-HasNoBar (suc n) n

abbrev bar : Char
bar = "|"

after_bar-HasNoBar : (s t : String) → HasNoBar (s ++ bar ∷ t) → ⊥
after_bar-HasNoBar [] t h = (subst HasNoBar (nil-append (bar ∷ t)) h).0 refl
after_bar-HasNoBar (c ∷ s) t h =
    after_bar-HasNoBar s t (subst HasNoBar (cons-append c s (bar ∷ t)) h).1

nil_nil : {x y : String} → [] ++ bar ∷ x ≡ [] ++ bar ∷ y → x ≡ y
nil_nil {x} {y} e = tail-eq_of_cons-eq (sym (nil-append (bar ∷ x)) ∙ e ∙ nil-append (bar ∷ y))

nil_cons :
    (c : Char) (b x y : String)
    → [] ++ bar ∷ x ≡ (c ∷ b) ++ bar ∷ y
    → (bar ≡ c) × (x ≡ b ++ bar ∷ y)
nil_cons c b x y e =
    let e' = sym (nil-append (bar ∷ x)) ∙ e ∙ cons-append c b (bar ∷ y) in
    (head-eq_of_cons-eq e', tail-eq_of_cons-eq e')

cons_cons :
    (c d : Char) (a b s t : String) → (c ∷ a) ++ s ≡ (d ∷ b) ++ t → (c ≡ d) × (a ++ s ≡ b ++ t)
cons_cons c d a b s t e =
    let e' = sym (cons-append c a s) ∙ e ∙ cons-append d b t in
    (head-eq_of_cons-eq e', tail-eq_of_cons-eq e')

-- What stands before the first bar, and before the last one.
pub first_bar :
    (a b x y : String) → HasNoBar a → HasNoBar b → a ++ bar ∷ x ≡ b ++ bar ∷ y → (a ≡ b) × (x ≡ y)
first_bar [] [] x y ha hb e = (refl, nil_nil e)
first_bar [] (c ∷ b) x y ha (h, hb) e = absurd (h (ap code (sym (nil_cons c b x y e).0)))
first_bar (c ∷ a) [] x y (h, ha) hb e = absurd (h (ap code (sym (nil_cons c a y x (sym e)).0)))
first_bar (c ∷ a) (d ∷ b) x y (h, ha) (k, hb) e =
    let (same, rest) = cons_cons c d a b _ _ e in
    let (before, after) = first_bar a b x y ha hb rest in (ap₂ ◌∷◌ same before, after)

pub last_bar :
    (a b x y : String) → HasNoBar x → HasNoBar y → a ++ bar ∷ x ≡ b ++ bar ∷ y → (a ≡ b) × (x ≡ y)
last_bar [] [] x y hx hy e = (refl, nil_nil e)
last_bar [] (c ∷ b) x y hx hy e =
    absurd (after_bar-HasNoBar b y (subst HasNoBar (nil_cons c b x y e).1 hx))
last_bar (c ∷ a) [] x y hx hy e =
    absurd (after_bar-HasNoBar a x (subst HasNoBar (nil_cons c a y x (sym e)).1 hy))
last_bar (c ∷ a) (d ∷ b) x y hx hy e =
    let (same, rest) = cons_cons c d a b _ _ e in
    let (before, after) = last_bar a b x y hx hy rest in (ap₂ ◌∷◌ same before, after)

-- Two numbers around a text, whatever the text.
pub between_bars_inj :
    (m n m' n' : ℕ) (s s' : String)
    → to_string m ++ ("|" ++ (s ++ ("|" ++ to_string n)))
      ≡ to_string m' ++ ("|" ++ (s' ++ ("|" ++ to_string n')))
    → (m ≡ m') × (s ≡ s') × (n ≡ n')
between_bars_inj m n m' n' s s' e =
    let (first, rest) =
      first_bar (to_string m) (to_string m') (s ++ bar ∷ to_string n) (s' ++ bar ∷ to_string n')
        (to_string-HasNoBar m) (to_string-HasNoBar m') (sym (barred m n s) ∙ e ∙ barred m' n' s') in
    let (text, last) =
      last_bar s s' (to_string n) (to_string n') (to_string-HasNoBar n) (to_string-HasNoBar n')
        rest in
    (to_string_inj m m' first, text, to_string_inj n n' last)
  where
    bar_cons : (t : String) → "|" ++ t ≡ bar ∷ t
    bar_cons t = cons-append bar [] t ∙ ap (λ u. bar ∷ u) (nil-append t)

    barred :
        (i j : ℕ) (t : String)
        → to_string i ++ ("|" ++ (t ++ ("|" ++ to_string j)))
          ≡ to_string i ++ bar ∷ (t ++ bar ∷ to_string j)
    barred i j t = rw (bar_cons (t ++ ("|" ++ to_string j)), bar_cons (to_string j)) refl
