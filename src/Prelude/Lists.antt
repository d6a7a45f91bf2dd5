-- ===== src/Prelude/Lists.antt =====
-- Lists measured and indexed by native numbers, under the library's names.
use Prim.Native.Nat.{ℕ, zero, suc, ◌+◌, ◌-◌, ◌<◌, ◌≤◌}
use mathlib.Core.Path.{◌≡◌, refl, ap, sym}
use native.Mathlib.Decide.{ℕ_discrete, dec_lt}
use mathlib.Core.Logic.{◌≢◌}
use mathlib.Core.Bool.{Bool, true, false}
use mathlib.Core.List.{List, [], ◌∷◌, ◌++◌}
use native.Mathlib.Omega.{arith}
use demo_submodule.Prelude.Tests.{◌==◌, if◌then◌else◌}

module _ {ℓ} {A : Type ℓ} where
  abbrev pub length : List A → ℕ
  length [] = 0
  length (x ∷ xs) = suc (length xs)

  abbrev pub get_or : List A → ℕ → A → A
  get_or [] i d = d
  get_or (x ∷ xs) zero d = x
  get_or (x ∷ xs) (suc i) d = get_or xs i d

  -- A write out of bounds changes nothing.
  abbrev pub set : List A → ℕ → A → List A
  set [] i v = []
  set (x ∷ xs) zero v = v ∷ xs
  set (x ∷ xs) (suc i) v = x ∷ set xs i v

  abbrev pub take : ℕ → List A → List A
  take zero xs = []
  take (suc n) [] = []
  take (suc n) (x ∷ xs) = x ∷ take n xs

  abbrev pub drop : ℕ → List A → List A
  drop zero xs = xs
  drop (suc n) [] = []
  drop (suc n) (x ∷ xs) = drop n xs

  abbrev pub replicate : ℕ → A → List A
  replicate zero a = []
  replicate (suc n) a = a ∷ replicate n a

  abbrev pub is_empty : List A → Bool
  is_empty [] = true
  is_empty (x ∷ xs) = false

  pub length-append : (xs ys : List A) → length (xs ++ ys) ≡ length xs + length ys
  length-append [] ys = omega arith
  length-append (x ∷ xs) ys = omega (arith, length-append xs ys)

  pub length-set : (xs : List A) (i : ℕ) (v : A) → length (set xs i v) ≡ length xs
  length-set [] i v = refl
  length-set (x ∷ xs) zero v = refl
  length-set (x ∷ xs) (suc i) v = ap suc (length-set xs i v)

  pub length-replicate : (n : ℕ) (a : A) → length (replicate n a) ≡ n
  length-replicate zero a = refl
  length-replicate (suc n) a = ap suc (length-replicate n a)

  pub get_or-set_self :
      (xs : List A) (i : ℕ) (v d : A) → i < length xs → get_or (set xs i v) i d ≡ v
  get_or-set_self [] i v d h = elim h [ ]
  get_or-set_self (x ∷ xs) zero v d h = refl
  get_or-set_self (x ∷ xs) (suc i) v d h = get_or-set_self xs i v d (omega arith)

  pub get_or-set_ne :
      (xs : List A) (i j : ℕ) (v d : A) → i ≢ j → get_or (set xs i v) j d ≡ get_or xs j d
  get_or-set_ne [] i j v d h = refl
  get_or-set_ne (x ∷ xs) zero zero v d h = absurd (h refl)
  get_or-set_ne (x ∷ xs) zero (suc j) v d h = refl
  get_or-set_ne (x ∷ xs) (suc i) zero v d h = refl
  get_or-set_ne (x ∷ xs) (suc i) (suc j) v d h = get_or-set_ne xs i j v d (λ e. h (ap suc e))

  pub get_or-set :
      (xs : List A) (i j : ℕ) (v d : A)
      → i < length xs
      → get_or (set xs i v) j d ≡ (if i == j then v else get_or xs j d)
  get_or-set [] i j v d h = elim h [ ]
  get_or-set (x ∷ xs) zero zero v d h = refl
  get_or-set (x ∷ xs) zero (suc j) v d h = ground arith
  get_or-set (x ∷ xs) (suc i) zero v d h = ground arith
  get_or-set (x ∷ xs) (suc i) (suc j) v d h = ground (arith, get_or-set xs i j v d)

  pub get_or-append :
      (xs ys : List A) (i : ℕ) (d : A) → i < length xs → get_or (xs ++ ys) i d ≡ get_or xs i d
  get_or-append [] ys i d h = elim h [ ]
  get_or-append (x ∷ xs) ys zero d h = refl
  get_or-append (x ∷ xs) ys (suc i) d h = get_or-append xs ys i d (omega arith)

  pub length-take-le : (n : ℕ) (xs : List A) → n ≤ length xs → length (take n xs) ≡ n
  length-take-le zero xs h = refl
  length-take-le (suc n) [] h = absurd (omega arith)
  length-take-le (suc n) (x ∷ xs) h = ap suc (length-take-le n xs (omega arith))

  pub take-length-le : (n : ℕ) (xs : List A) → length xs ≤ n → take n xs ≡ xs
  take-length-le zero [] h = refl
  take-length-le (suc n) [] h = refl
  take-length-le zero (x ∷ xs) h = absurd (omega arith)
  take-length-le (suc n) (x ∷ xs) h = ap (◌∷◌ x) (take-length-le n xs (omega arith))

  pub length-drop : (n : ℕ) (xs : List A) → length (drop n xs) ≡ length xs - n
  length-drop zero xs = omega arith
  length-drop (suc n) [] = omega arith
  length-drop (suc n) (x ∷ xs) = omega (arith, length-drop n xs)

  pub drop_of_length : (xs ys : List A) → drop (length xs) (xs ++ ys) ≡ ys
  drop_of_length [] ys = refl
  drop_of_length (x ∷ xs) ys = drop_of_length xs ys

-- Every element of the list has the property.
abbrev pub All {ℓ κ} : {A : Type ℓ} → (A → Type κ) → List A → Type κ
All P [] = Unit
All P (x ∷ xs) = P x × All P xs

-- g 0 + … + g (n - 1)
abbrev pub sum_upto : ℕ → (ℕ → ℕ) → ℕ
sum_upto zero g = 0
sum_upto (suc n) g = sum_upto n g + g n

pub sum_upto-add_one : (n : ℕ) (g : ℕ → ℕ) → sum_upto (n + 1) g ≡ sum_upto n g + g n
sum_upto-add_one n g = let e : n + 1 ≡ suc n = omega arith in ap (λ m. sum_upto m g) e

pub sum_upto_ext :
    (n : ℕ) (f g : ℕ → ℕ) → ((i : ℕ) → i < n → f i ≡ g i) → sum_upto n f ≡ sum_upto n g
sum_upto_ext zero f g h = refl
sum_upto_ext (suc n) f g h =
    omega (arith, h n (omega arith), sum_upto_ext n f g (λ i l. h i (omega arith)))

-- Changing one summand.
pub sum_upto-change :
    (n i : ℕ) (f g : ℕ → ℕ)
    → i < n
    → ((j : ℕ) → j < n → j ≢ i → f j ≡ g j)
    → sum_upto n f + g i ≡ sum_upto n g + f i
sum_upto-change zero i f g l h = absurd (omega arith)
sum_upto-change (suc n) i f g l h = elim (ℕ_discrete i n) [
  | yes e ↦ rw e (omega (arith, sum_upto_ext n f g (λ j k. h j (omega arith) (omega arith))))
  | no e ↦ omega (
    arith,
    h n (omega arith) (λ d. e (sym d)),
    sum_upto-change n i f g (omega arith) (λ j k d. h j (omega arith) d),
  )
]

-- A sum that is not zero has a summand that is not zero.
pub sum_upto-pos : (n : ℕ) (g : ℕ → ℕ) → 0 < sum_upto n g → (i : ℕ) × (i < n) × (0 < g i)
sum_upto-pos zero g h = absurd (omega arith)
sum_upto-pos (suc n) g h = elim (dec_lt 0 (g n)) [
  | yes p ↦ (n, omega arith, p)
  | no p ↦ let (i, l, q) = sum_upto-pos n g (omega arith) in (i, omega arith, q)
]

pub le-sum_upto : (n i : ℕ) (g : ℕ → ℕ) → i < n → g i ≤ sum_upto n g
le-sum_upto zero i g h = absurd (omega arith)
le-sum_upto (suc n) i g h = elim (ℕ_discrete i n) [
  | yes e ↦ rw e (omega arith)
  | no e ↦ omega (arith, le-sum_upto n i g (omega arith))
]
