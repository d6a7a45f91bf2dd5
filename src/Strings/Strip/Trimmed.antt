-- ===== src/Strings/Strip/Trimmed.antt =====
-- What `strip` removes, and what it leaves.
use demo_submodule.Prelude.{
  ℕ, ◌≡◌, refl, ap, ◌∙◌, true, false, ◌&&◌, inl, inr, List, [], ◌∷◌, ◌++◌, if◌then◌else◌,
  Bool-cases, is_empty, All,
}
use demo_submodule.Ctype.{isspace}
use demo_submodule.Strings.Strip.{trim_left, trim_right, strip}

abbrev pub AllSpace : List ℕ → Type 0
AllSpace = All (λ c. isspace c ≡ true)

-- The first and the last character, if there are any, are no space.
abbrev pub StartsClean : List ℕ → Type 0
StartsClean [] = Unit
StartsClean (c ∷ rest) = isspace c ≡ false

abbrev pub EndsClean : List ℕ → Type 0
EndsClean [] = Unit
EndsClean (c ∷ []) = isspace c ≡ false
EndsClean (c ∷ d ∷ rest) = EndsClean (d ∷ rest)

trim_left_lem :
    (str : List ℕ)
    → (l : List ℕ) × (str ≡ l ++ trim_left str) × AllSpace l × StartsClean (trim_left str)
unfolding trim_left
trim_left_lem [] = ([], refl, tt, tt)
trim_left_lem (c ∷ rest) = elim (Bool-cases (isspace c)) [
  | inl e ↦ let (l, p, q, r) = trim_left_lem rest in (c ∷ l, rw e (ap (◌∷◌ c) p), (e, q), rw e r)
  | inr e ↦ ([], rw e refl, tt, rw e e)
]

-- One step of the second loop, over what it keeps of the rest.
keep_last : ℕ → List ℕ → List ℕ
keep_last c kept = if is_empty kept && isspace c then [] else c ∷ kept

keep_last_lem :
    (c : ℕ) (kept r : List ℕ)
    → AllSpace r
    → EndsClean kept
    → (s : List ℕ) × (c ∷ (kept ++ r) ≡ keep_last c kept ++ s)
      × AllSpace s
      × EndsClean (keep_last c kept)
unfolding keep_last
keep_last_lem c (d ∷ kept) r q t = (r, refl, q, t)
keep_last_lem c [] r q t = elim (Bool-cases (isspace c)) [
  | inl e ↦ (c ∷ r, rw e refl, (e, q), rw e tt)
  | inr e ↦ (r, rw e refl, q, rw e e)
]

trim_right_lem :
    (str : List ℕ)
    → (r : List ℕ) × (str ≡ trim_right str ++ r) × AllSpace r × EndsClean (trim_right str)
unfolding trim_right keep_last
trim_right_lem [] = ([], refl, tt, tt)
trim_right_lem (c ∷ rest) =
    let (r, p, q, t) = trim_right_lem rest in
    let (s, p', q', t') = keep_last_lem c (trim_right rest) r q t in (s, ap (◌∷◌ c) p ∙ p', q', t')

-- What stays at the front of a string when its end is trimmed.
StartsClean-trim_right : (str : List ℕ) → StartsClean str → StartsClean (trim_right str)
unfolding trim_right
StartsClean-trim_right [] h = tt
StartsClean-trim_right (c ∷ rest) h = elim (Bool-cases (is_empty (trim_right rest))) [
  | inl e ↦ rw (e, h) h
  | inr e ↦ rw e h
]

-- `strip` cuts white space off both ends of the string and nothing else, and what it returns
-- neither starts nor ends with white space.
pub strip_lem :
    (str : List ℕ)
    → (l r : List ℕ) × (str ≡ l ++ (strip str ++ r))
      × AllSpace l
      × AllSpace r
      × StartsClean (strip str)
      × EndsClean (strip str)
unfolding strip
strip_lem str =
    let (l, p, q, s) = trim_left_lem str in
    let (r, p', q', t) = trim_right_lem (trim_left str) in
    (l, r, p ∙ ap (◌++◌ l) p', q, q', StartsClean-trim_right (trim_left str) s, t)
