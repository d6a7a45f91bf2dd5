-- ===== src/Prelude/Counts.antt =====
-- How often a number stands in a list, and lists with one occurrence taken out.
use Prim.Native.Nat.{ℕ, ◌+◌, ◌-◌}
use mathlib.Core.Path.{◌≡◌}
use mathlib.Core.Logic.{inl, inr}
use mathlib.Core.List.{List, [], ◌∷◌, ◌++◌}
use native.Mathlib.Omega.{arith}
use demo_submodule.Prelude.Tests.{◌==◌, if◌then◌else◌, Bool-cases}

abbrev pub count : ℕ → List ℕ → ℕ
count x [] = 0
count x (y ∷ ys) = (if y == x then 1 else 0) + count x ys

-- The first occurrence is taken out.
abbrev pub erase : ℕ → List ℕ → List ℕ
erase a [] = []
erase a (x ∷ xs) = if x == a then xs else x ∷ erase a xs

pub count-append : (x : ℕ) (xs ys : List ℕ) → count x (xs ++ ys) ≡ count x xs + count x ys
count-append x [] ys = omega arith
count-append x (z ∷ xs) ys = omega (arith, count-append x xs ys)

pub count-erase :
    (x y : ℕ) (ys : List ℕ) → count x (erase y ys) ≡ (if x == y then count x ys - 1 else count x ys)
count-erase x y [] = ground arith
count-erase x y (z ∷ ys) = elim (Bool-cases (z == y)) [
  | inl e ↦ rw e (ground arith)
  | inr e ↦ rw e (ground (arith, count-erase x y ys))
]
