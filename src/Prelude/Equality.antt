-- ===== src/Prelude/Equality.antt =====
-- Equality tests as an interface, for keys that are numbers, texts or pairs.
use Prim.Native.Nat.{ℕ}
use Prim.Native.String.{String}
use mathlib.Core.Path.{◌≡◌, refl}
use mathlib.Core.Logic.{◌↔◌, ◌≢◌}
use mathlib.Core.Bool.{Bool, true, false}
use native.Mathlib.Omega.{arith}
use text.Mathlib.Text.{◌==◌ as str_beq}
use text.Mathlib.TextEquality.{eq_iff as str_beq_iff}
use mathlib.Core.Option.{Option, none, some}
use iot_cloud_commissioning.Prelude.Tests.{nat_beq, nat_beq_iff, if◌then◌else◌}

pub record Eq {ℓ} (A : Type ℓ) : Type ℓ where
  pub eqb : A → A → Bool
  pub eqb_iff : (a b : A) → (eqb a b ≡ true) ↔ (a ≡ b)

infix 50 ◌==◌
abbrev pub ◌==◌ {ℓ} : {A : Type ℓ} ⦃e : Eq A⦄ → A → A → Bool
◌==◌ ⦃e⦄ = e.eqb

instance abbrev pub string_eq : Eq String
string_eq = record { eqb = str_beq; eqb_iff = str_beq_iff }

instance abbrev pub nat_eq : Eq ℕ
nat_eq = record { eqb = nat_beq; eqb_iff = nat_beq_iff }

module _ {ℓ} {A : Type ℓ} ⦃e : Eq A⦄ where
  pub eq_iff : (a b : A) → ((a == b) ≡ true) ↔ (a ≡ b)
  eq_iff = e.eqb_iff

  pub eq_self : (a : A) → (a == a) ≡ true
  eq_self a = (e.eqb_iff a a).1 refl

  pub ne_of_eq_false : {a b : A} → (a == b) ≡ false → a ≢ b
  ne_of_eq_false {a} {b} h p = ground (arith, e.eqb_iff a b)

  pub eq_false_of_ne : {a b : A} → a ≢ b → (a == b) ≡ false
  eq_false_of_ne {a} {b} h = ground (arith, e.eqb_iff a b)

-- Python's `text or other` and `text or None`: the empty text is falsy too.
abbrev pub text_or : Option String → String → String
text_or none other = other
text_or (some text) other = if text == "" then other else text

abbrev pub text_or_none : String → Option String
text_or_none text = if text == "" then none else some text
