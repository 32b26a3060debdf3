-- ===== src/Base/Equality.antt =====
-- The `===` of the program on the types that it compares, as instances of one interface.
use Prim.Native.Nat.{ℕ}
use Prim.Native.String.{String}
use mathlib.Core.Path.{◌≡◌, refl}
use mathlib.Core.Logic.{◌↔◌, ◌≢◌}
use mathlib.Core.Bool.{Bool, true, false}
use native.Mathlib.Omega.{arith}
use text.Mathlib.Text.{◌==◌ as str_eq}
use text.Mathlib.TextEquality.{eq_iff}
use hono_crosmos.Base.Tests.{◌==◌, ==_iff, Bool-cases}

pub record Eq {ℓ} (A : Type ℓ) : Type ℓ where
  pub beq : A → A → Bool
  pub beq_iff : (a b : A) → (beq a b ≡ true) ↔ (a ≡ b)

infix 50 ◌===◌
abbrev pub ◌===◌ {ℓ} : {A : Type ℓ} ⦃e : Eq A⦄ → A → A → Bool
◌===◌ ⦃e⦄ = e.beq

instance abbrev pub nat_eq : Eq ℕ
nat_eq = record { beq = ◌==◌; beq_iff = ==_iff }

instance abbrev pub string_eq : Eq String
string_eq = record { beq = str_eq; beq_iff = eq_iff }

module _ {ℓ} {A : Type ℓ} ⦃e : Eq A⦄ where
  pub beq_refl : (a : A) → (a === a) ≡ true
  beq_refl a = (e.beq_iff a a).1 refl

  pub eq_of_beq : {a b : A} → (a === b) ≡ true → a ≡ b
  eq_of_beq {a} {b} h = (e.beq_iff a b).0 h

  pub beq_false : {a b : A} → a ≢ b → (a === b) ≡ false
  beq_false {a} {b} ne = ground (arith, Bool-cases (a === b), (e.beq_iff a b).0)

  pub ne_of_beq : {a b : A} → (a === b) ≡ false → a ≢ b
  ne_of_beq {a} {b} h p = ground (arith, (e.beq_iff a b).1 p)
