-- ===== src/Prelude/Decimal.antt =====
-- `%d` of fmt: the decimal text of a number.
use Prim.Native.Nat.{ℕ, zero, suc, ◌+◌, ◌-◌, ◌*◌, ◌/◌, ◌%◌, ◌^◌, ◌<◌}
use Prim.Native.Char.{Char, code}
use Prim.Native.String.{String}
use Prim.Native.String
use mathlib.Core.Path.{◌≡◌, refl, sym, ap, ◌∙◌}
use mathlib.Core.List.{List, [], ◌∷◌}
use native.Mathlib.Omega.{arith}
use aistio.Prelude.Tests.{ltb, if◌then◌else◌}

digit : ℕ → Char
digit zero = "0"
digit (suc zero) = "1"
digit (suc (suc zero)) = "2"
digit (suc (suc (suc zero))) = "3"
digit (suc (suc (suc (suc zero)))) = "4"
digit (suc (suc (suc (suc (suc zero))))) = "5"
digit (suc (suc (suc (suc (suc (suc zero)))))) = "6"
digit (suc (suc (suc (suc (suc (suc (suc zero))))))) = "7"
digit (suc (suc (suc (suc (suc (suc (suc (suc zero)))))))) = "8"
digit _ = "9"

-- The last digit first. A number has at most as many digits as its value plus one.
digits : ℕ → ℕ → List ℕ
digits zero n = []
digits (suc f) n = let rest = digits f (n / 10) in if ltb n 10 then n ∷ [] else (n % 10) ∷ rest

spell : String → List ℕ → String
spell acc [] = acc
spell acc (d ∷ ds) = spell (String.◌∷◌ (digit d) acc) ds

unfoldable pub show : ℕ → String
unfolding digit digits spell
show n = spell "" (digits (suc n) n)

-- `%d` of an `int64` in two's complement.
unfoldable pub show_int64 : ℕ → String
show_int64 v = if ltb v (2 ^ 63) then show v else String.◌++◌ "-" (show (2 ^ 64 - v))

read : ℕ → String → ℕ
read n String.[] = n
read n (String.◌∷◌ c s) = read (n * 10 + (code c - 48)) s

value : List ℕ → ℕ
value [] = 0
value (d ∷ ds) = d + 10 * value ds

abbrev AllDigits : List ℕ → Type 0
AllDigits [] = Unit
AllDigits (d ∷ ds) = (d < 10) × AllDigits ds

code-digit : (d : ℕ) → d < 10 → code (digit d) ≡ 48 + d
unfolding digit
code-digit zero h = refl
code-digit (suc zero) h = refl
code-digit (suc (suc zero)) h = refl
code-digit (suc (suc (suc zero))) h = refl
code-digit (suc (suc (suc (suc zero)))) h = refl
code-digit (suc (suc (suc (suc (suc zero))))) h = refl
code-digit (suc (suc (suc (suc (suc (suc zero)))))) h = refl
code-digit (suc (suc (suc (suc (suc (suc (suc zero))))))) h = refl
code-digit (suc (suc (suc (suc (suc (suc (suc (suc zero)))))))) h = refl
code-digit (suc (suc (suc (suc (suc (suc (suc (suc (suc zero))))))))) h = refl
code-digit (suc (suc (suc (suc (suc (suc (suc (suc (suc (suc n)))))))))) h = absurd (omega arith)

digits-AllDigits : (f n : ℕ) → AllDigits (digits f n)
unfolding digits
digits-AllDigits zero n = tt
digits-AllDigits (suc f) n = ground (arith, digits-AllDigits f (n / 10))

value-digits : (f n : ℕ) → n < f → value (digits f n) ≡ n
unfolding digits value
value-digits zero n h = absurd (omega arith)
value-digits (suc f) n h = ground (arith, value-digits f (n / 10))

read-spell :
    (acc : String) (ds : List ℕ) → AllDigits ds → read 0 (spell acc ds) ≡ read (value ds) acc
unfolding read spell value
read-spell acc [] h = refl
read-spell acc (d ∷ ds) h =
    read-spell (String.◌∷◌ (digit d) acc) ds h.1
    ∙ ap (λ (k : ℕ). read k acc) (omega (arith, code-digit d h.0))

read-show : (n : ℕ) → read 0 (show n) ≡ n
unfolding show read
read-show n =
    read-spell "" (digits (suc n) n) (digits-AllDigits (suc n) n)
    ∙ value-digits (suc n) n (omega arith)

-- Different numbers have different texts.
pub show-injective : (m n : ℕ) → show m ≡ show n → m ≡ n
show-injective m n e = sym (read-show m) ∙ ap (read 0) e ∙ read-show n

-- An `int64` that is not negative is printed as the number that it is.
pub show_int64-show : (v : ℕ) → v < 2 ^ 63 → show_int64 v ≡ show v
unfolding show_int64
show_int64-show v h = ground arith
