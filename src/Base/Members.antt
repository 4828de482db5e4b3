-- ===== src/Base/Members.antt =====
-- Lists of numbers as sets: the members, and a list without one.
use Prim.Native.Nat.{ℕ, ◌<◌, ◌≤◌}
use mathlib.Core.Path.{◌≡◌, refl}
use mathlib.Core.Bool.{Bool, true, false, ◌||◌}
use mathlib.Core.List.{List, [], ◌∷◌, ◌++◌}
use native.Mathlib.Omega.{arith}
use diarkis.Base.Tests.{◌==◌, if◌then◌else◌}
use diarkis.Base.Lists.{length, All}

abbrev pub mem : ℕ → List ℕ → Bool
mem i [] = false
mem i (j ∷ js) = i == j || mem i js

-- Without every `i`, and without the first.
abbrev pub without : ℕ → List ℕ → List ℕ
without i [] = []
without i (j ∷ js) = let rest = without i js in if i == j then rest else j ∷ rest

abbrev pub erase_first : ℕ → List ℕ → List ℕ
erase_first i [] = []
erase_first i (j ∷ js) = let rest = erase_first i js in if i == j then js else j ∷ rest

pub mem-snoc : (i j : ℕ) (xs : List ℕ) → mem i xs ≡ true → mem i (xs ++ j ∷ []) ≡ true
mem-snoc i j [] h = ground arith
mem-snoc i j (x ∷ xs) h = ground (arith, mem-snoc i j xs)

pub mem-snoc_self : (i : ℕ) (xs : List ℕ) → mem i (xs ++ i ∷ []) ≡ true
mem-snoc_self i [] = ground arith
mem-snoc_self i (x ∷ xs) = ground (arith, mem-snoc_self i xs)

pub mem-without :
    (i j : ℕ) (xs : List ℕ) → mem i (without j xs) ≡ true → (mem i xs ≡ true) × ((i == j) ≡ false)
mem-without i j [] h = ground arith
mem-without i j (x ∷ xs) h = ground (arith, mem-without i j xs)

pub mem-without_self : (i : ℕ) (xs : List ℕ) → mem i (without i xs) ≡ false
mem-without_self i [] = refl
mem-without_self i (x ∷ xs) = ground (arith, mem-without_self i xs)

pub mem-erase_first :
    (i j : ℕ) (xs : List ℕ) → mem i xs ≡ true → (i == j) ≡ false → mem i (erase_first j xs) ≡ true
mem-erase_first i j [] h e = ground arith
mem-erase_first i j (x ∷ xs) h e = ground (arith, mem-erase_first i j xs)

pub length-without : (i : ℕ) (xs : List ℕ) → length (without i xs) ≤ length xs
length-without i [] = omega arith
length-without i (x ∷ xs) = ground (arith, length-without i xs)

pub length-without-mem : (i : ℕ) (xs : List ℕ) → mem i xs ≡ true → length (without i xs) < length xs
length-without-mem i [] h = ground arith
length-without-mem i (x ∷ xs) h = ground (arith, length-without-mem i xs, length-without i xs)

module _ {A : Type 0} where
  pub All-map : (P Q : A → Type 0) (xs : List A) → ((a : A) → P a → Q a) → All P xs → All Q xs
  All-map P Q [] f h = h
  All-map P Q (x ∷ xs) f h = (f x h.0, All-map P Q xs f h.1)

  pub All-at : (P : A → Type 0) (xs ys : List A) (a : A) → All P (xs ++ a ∷ ys) → P a
  All-at P [] ys a h = h.0
  All-at P (x ∷ xs) ys a h = All-at P xs ys a h.1

  pub All-replace :
      (P : A → Type 0) (xs ys : List A) (a b : A)
      → P b
      → All P (xs ++ a ∷ ys)
      → All P (xs ++ b ∷ ys)
  All-replace P [] ys a b p h = (p, h.1)
  All-replace P (x ∷ xs) ys a b p h = (h.0, All-replace P xs ys a b p h.1)

  pub no_middle : (before after : List A) (a : A) → before ++ a ∷ after ≡ [] → ⊥
  no_middle [] after a e = ground arith
  no_middle (x ∷ before) after a e = ground arith
