-- ===== src/Prelude/Lists.antt =====
-- Lists measured by native numbers, predicates by recursion, and the loops of the code.
use Prim.Native.Nat.{ℕ, zero, suc, ◌+◌, ◌-◌, ◌≤◌}
use mathlib.Core.Path.{◌≡◌, refl, ap, sym, ◌∙◌}
use mathlib.Core.Bool.{Bool, true, false}
use mathlib.Core.List.{List, [], ◌∷◌, ◌++◌, Memᴰ}
use mathlib.Core.Logic.{inl, inr}
use native.Mathlib.Omega.{arith}
use aistio.Prelude.Tests.{if◌then◌else◌, Bool-cases}

module _ {ℓ} {A : Type ℓ} where
  abbrev pub length : List A → ℕ
  length [] = 0
  length (x ∷ xs) = suc (length xs)

  -- The entries that pass a test, as the loops `if cond { out = append(out, x) }` collect them.
  abbrev pub keep : (A → Bool) → List A → List A
  keep p [] = []
  keep p (x ∷ xs) = let rest = keep p xs in if p x then x ∷ rest else rest

  abbrev pub All {κ} : (A → Type κ) → List A → Type κ
  All P [] = Unit
  All P (x ∷ xs) = P x × All P xs

  pub length-append : (xs ys : List A) → length (xs ++ ys) ≡ length xs + length ys
  length-append [] ys = omega arith
  length-append (x ∷ xs) ys = omega (arith, length-append xs ys)

  pub length-keep-le : (p : A → Bool) (xs : List A) → length (keep p xs) ≤ length xs
  length-keep-le p [] = omega arith
  length-keep-le p (x ∷ xs) = ground (arith, length-keep-le p xs)

  kept_cases :
      (p : A → Bool) (x y : A) (rest : List A) (b : Bool)
      → p y ≡ b
      → Memᴰ x (if b then y ∷ rest else rest)
      → (Memᴰ x rest → p x ≡ true)
      → p x ≡ true
  kept_cases p x y rest true e (Memᴰ.head q) ih = ap p q ∙ e
  kept_cases p x y rest true e (Memᴰ.tail m) ih = ih m
  kept_cases p x y rest false e m ih = ih m

  pub keep-Mem : (p : A → Bool) (x : A) (xs : List A) → Memᴰ x (keep p xs) → p x ≡ true
  keep-Mem p x [] m = elim m [ ]
  keep-Mem p x (y ∷ ys) m = kept_cases p x y (keep p ys) (p y) refl m (keep-Mem p x ys)

  pub Mem-keep : (p : A → Bool) (x : A) (xs : List A) → Memᴰ x xs → p x ≡ true → Memᴰ x (keep p xs)
  Mem-keep p x [] m h = elim m [ ]
  Mem-keep p x (y ∷ ys) (Memᴰ.head q) h = rw (sym (ap p q) ∙ h) (Memᴰ.head q)
  Mem-keep p x (y ∷ ys) (Memᴰ.tail m) h = elim (Bool-cases (p y)) [
    | inl e ↦ rw e (Memᴰ.tail (Mem-keep p x ys m h))
    | inr e ↦ rw e (Mem-keep p x ys m h)
  ]

  kept_from :
      (x y : A) (rest ys : List A) (b : Bool)
      → Memᴰ x (if b then y ∷ rest else rest)
      → (Memᴰ x rest → Memᴰ x ys)
      → Memᴰ x (y ∷ ys)
  kept_from x y rest ys true (Memᴰ.head q) ih = Memᴰ.head q
  kept_from x y rest ys true (Memᴰ.tail m) ih = Memᴰ.tail (ih m)
  kept_from x y rest ys false m ih = Memᴰ.tail (ih m)

  pub Mem-of_keep : (p : A → Bool) (x : A) (xs : List A) → Memᴰ x (keep p xs) → Memᴰ x xs
  Mem-of_keep p x [] m = elim m [ ]
  Mem-of_keep p x (y ∷ ys) m = kept_from x y (keep p ys) ys (p y) m (Mem-of_keep p x ys)

  abbrev pub drop : ℕ → List A → List A
  drop n [] = []
  drop zero (x ∷ xs) = x ∷ xs
  drop (suc n) (x ∷ xs) = drop n xs

  pub length-drop : (n : ℕ) (xs : List A) → length (drop n xs) ≡ length xs - n
  length-drop zero [] = omega arith
  length-drop (suc n) [] = omega arith
  length-drop zero (x ∷ xs) = omega arith
  length-drop (suc n) (x ∷ xs) = omega (arith, length-drop n xs)
