-- ===== src/Prelude/Equality.antt =====
-- Equality tests as an interface: the `==` of Go on the types that the program compares.
use Prim.Native.Nat.{ℕ}
use Prim.Native.String.{String}
use mathlib.Core.Path.{◌≡◌}
use mathlib.Core.Logic.{◌↔◌}
use mathlib.Core.Bool.{Bool, true}
use text.Mathlib.Text.{◌==◌ as same_text}
use text.Mathlib.TextEquality.{eq_iff}
use aistio.Prelude.Tests.{nat_beq, nat_beq_iff}

-- A type whose values Go compares with `==`, and the test's meaning.
pub record Comparable {ℓ} (Value : Type ℓ) : Type ℓ where
  pub same : Value → Value → Bool
  pub same_iff : (v w : Value) → (same v w ≡ true) ↔ (v ≡ w)

-- Texts, and numbers.
instance abbrev pub comparable_text : Comparable String
comparable_text = record { same = same_text; same_iff = eq_iff }

instance abbrev pub comparable_number : Comparable ℕ
comparable_number = record { same = nat_beq; same_iff = nat_beq_iff }

module _ {ℓ} {Value : Type ℓ} ⦃c : Comparable Value⦄ where
  infix 50 ◌==◌
  abbrev pub ◌==◌ : Value → Value → Bool
  v == w = c.same v w

  pub ==_iff : (v w : Value) → ((v == w) ≡ true) ↔ (v ≡ w)
  ==_iff v w = c.same_iff v w
