-- ===== src/Strings/Split/Tokens.antt =====
-- What the tokens of Strings/Split.antt are.
use demo_submodule.Prelude.{
  ℕ, ◌≡◌, ◌≢◌, refl, ◌∙◌, ◌↔◌, true, inl, inr, List, [], ◌∷◌, ◌++◌, append_assoc, append-nil, arith,
  ◌==◌, if◌then◌else◌, Bool-cases, ==_iff, All, length-append, is_empty,
}
use demo_submodule.Strings.Split.{
  split_loop, split, emplace_nonempty, split_filter_loop, split_filter_empty, same_prefix,
  start_with,
}

-- The tokens joined again, with the separator between each two.
abbrev pub join : ℕ → List (List ℕ) → List ℕ
join sep [] = []
join sep (t ∷ []) = t
join sep (t ∷ u ∷ ts) = t ++ sep ∷ join sep (u ∷ ts)

-- The separator does not stand in the token.
abbrev pub Avoids : ℕ → List ℕ → Type 0
Avoids sep = All (λ c. c ≢ sep)

abbrev pub drop_empty : List (List ℕ) → List (List ℕ)
drop_empty [] = []
drop_empty (t ∷ ts) = if is_empty t then drop_empty ts else t ∷ drop_empty ts

join-cons :
    (sep : ℕ) (t : List ℕ) (rest token : List ℕ)
    → join sep (t ∷ split_loop sep token rest) ≡ t ++ sep ∷ join sep (split_loop sep token rest)
unfolding split_loop
join-cons sep t [] token = refl
join-cons sep t (c ∷ rest) token = elim (Bool-cases (c == sep)) [
  | inl e ↦ rw (e, split_loop) refl
  | inr e ↦ rw (e, split_loop) (join-cons sep t rest (token ++ c ∷ []))
]

join-split_loop :
    (sep : ℕ) (token rest : List ℕ) → join sep (split_loop sep token rest) ≡ token ++ rest
unfolding split_loop
join-split_loop sep token [] = rw append-nil
join-split_loop sep token (c ∷ rest) = elim (Bool-cases (c == sep)) [
  | inl e ↦
      rw (e, split_loop)
        (join-cons sep token rest [] ∙ rw (join-split_loop sep [] rest, (==_iff c sep).0 e) refl)
  | inr e ↦
      rw (e, split_loop)
        (join-split_loop sep (token ++ c ∷ []) rest ∙ append_assoc token (c ∷ []) rest)
]

-- The tokens of `split`, joined by the separator, give the string back.
pub join-split : (str : List ℕ) (sep : ℕ) → join sep (split str sep) ≡ str
unfolding split
join-split str sep = join-split_loop sep [] str

Avoids-snoc : {sep : ℕ} (t : List ℕ) (c : ℕ) → Avoids sep t → c ≢ sep → Avoids sep (t ++ c ∷ [])
Avoids-snoc [] c h ne = (ne, tt)
Avoids-snoc (x ∷ t) c h ne = (h.0, Avoids-snoc t c h.1 ne)

split_loop-Avoids :
    (sep : ℕ) (token rest : List ℕ)
    → Avoids sep token
    → All (Avoids sep) (split_loop sep token rest)
unfolding split_loop
split_loop-Avoids sep token [] h = (h, tt)
split_loop-Avoids sep token (c ∷ rest) h = elim (Bool-cases (c == sep)) [
  | inl e ↦ rw (e, split_loop) (h, split_loop-Avoids sep [] rest tt)
  | inr e ↦
      rw (e, split_loop)
        (split_loop-Avoids sep (token ++ c ∷ []) rest (Avoids-snoc token c h (ground arith)))
]

-- No token of `split` holds the separator.
pub split-Avoids : (str : List ℕ) (sep : ℕ) → All (Avoids sep) (split str sep)
unfolding split
split-Avoids str sep = split_loop-Avoids sep [] str tt

emplace_nonempty_lem :
    (t : List ℕ) (ts : List (List ℕ)) → emplace_nonempty t (drop_empty ts) ≡ drop_empty (t ∷ ts)
unfolding emplace_nonempty
emplace_nonempty_lem [] ts = refl
emplace_nonempty_lem (c ∷ t) ts = refl

split_filter_loop_lem :
    (sep : ℕ) (token rest : List ℕ)
    → split_filter_loop sep token rest ≡ drop_empty (split_loop sep token rest)
unfolding split_filter_loop split_loop
split_filter_loop_lem sep token [] = emplace_nonempty_lem token []
split_filter_loop_lem sep token (c ∷ rest) = elim (Bool-cases (c == sep)) [
  | inl e ↦
      rw (e, split_filter_loop, split_loop, split_filter_loop_lem sep [] rest)
        (emplace_nonempty_lem token (split_loop sep [] rest))
  | inr e ↦ rw (e, split_filter_loop, split_loop) (split_filter_loop_lem sep (token ++ c ∷ []) rest)
]

-- `split_filter_empty` returns the tokens of `split`, in order, without the empty ones.
pub split_filter_empty-split :
    (str : List ℕ) (sep : ℕ) → split_filter_empty str sep ≡ drop_empty (split str sep)
unfolding split split_filter_empty
split_filter_empty-split str sep = split_filter_loop_lem sep [] str

same_prefix-append : (p r : List ℕ) → same_prefix (p ++ r) p ≡ true
unfolding same_prefix
same_prefix-append [] [] = refl
same_prefix-append [] (c ∷ r) = refl
same_prefix-append (c ∷ p) r = rw ((==_iff c c).1 refl) (same_prefix-append p r)

same_prefix_inv : (str p : List ℕ) → same_prefix str p ≡ true → (r : List ℕ) × (str ≡ p ++ r)
unfolding same_prefix
same_prefix_inv str [] h = (str, refl)
same_prefix_inv [] (x ∷ p) h = cc
same_prefix_inv (c ∷ str) (x ∷ p) h =
    let (r, e) = same_prefix_inv str p (ground arith) in (r, ground arith)

-- `start_with` holds exactly when the string is the prefix followed by something.
pub start_with_iff : (str p : List ℕ) → (start_with str p ≡ true) ↔ ((r : List ℕ) × (str ≡ p ++ r))
unfolding start_with
start_with_iff str p = (
  λ h. same_prefix_inv str p (ground arith),
  λ s. let (r, e) = s in rw e (ground (arith, same_prefix-append p r, length-append p r)),
)
