-- ===== src/Uri/Copy.antt =====
-- What copying a ParsedURI comes to.
use demo_submodule.Prelude.{
  ℕ, zero, suc, ◌≡◌, refl, ap, sym, ◌∙◌, ◌⊎◌, Bool, true, false, ◌||◌, ◌&&◌, Option, none, some,
  List, [], ◌∷◌, if◌then◌else◌, arith, Bool-cases, Option-cases, inl, inr,
}
use demo_submodule.Uri.{
  ParsedUri, Part, scheme, UriState, set_part, same_part, init_uri, granted, later, enomem, parts,
  copy_parts, copy, settle_copy, start_copy, is_success,
}

abbrev pub member : Part → List Part → Bool
member j [] = false
member j (i ∷ rest) = same_part i j || member j rest

pub same_part_eq : (i j : Part) → same_part i j ≡ true → i ≡ j
unfolding same_part
same_part_eq scheme j h = ground arith
same_part_eq _ j h = ground arith

-- Each part has been copied, or is still to come and NULL.
abbrev Copying : ParsedUri → List Part → ParsedUri → Type 0
Copying source rest uri =
    (j : Part) → ((member j rest ≡ true) × (uri.part j ≡ none)) ⊎ (uri.part j ≡ source.part j)

Copying-set :
    (source : ParsedUri) (i : Part) (rest : List Part) (uri : ParsedUri) (memory : List Bool)
    → Copying source (i ∷ rest) uri
    → Copying source rest (set_part i (source.part i) (record uri { memory = memory }))
unfolding set_part
Copying-set source i rest uri memory c j = ground (arith, c j, same_part_eq i j)

Copying-skip :
    (source : ParsedUri) (i : Part) (rest : List Part) (uri : ParsedUri)
    → source.part i ≡ none
    → Copying source (i ∷ rest) uri
    → Copying source rest uri
Copying-skip source i rest uri e c j = ground (arith, c j, same_part_eq i j)

module _ (i : Part) (rest : List Part) (source uri : ParsedUri) where
  copy_parts-none :
      source.part i ≡ none → copy_parts (i ∷ rest) source uri ≡ copy_parts rest source uri
  unfolding copy_parts
  copy_parts-none e = rw (e, copy_parts) refl

  abbrev fresh : ParsedUri
  fresh = record uri { memory = later uri.memory }

  copy_parts-some :
      (text : List ℕ)
      → source.part i ≡ some text
      → copy_parts (i ∷ rest) source uri ≡ (
          if granted uri.memory
          then copy_parts rest source (set_part i (some text) fresh)
          else (false, fresh))
  unfolding copy_parts
  copy_parts-some text e = rw (e, copy_parts) refl

copy_parts_lem :
    (rest : List Part) (source uri r : ParsedUri)
    → Copying source rest uri
    → copy_parts rest source uri ≡ (true, r)
    → (r.state ≡ uri.state) × ((j : Part) → r.part j ≡ source.part j)
unfolding set_part
copy_parts_lem [] source uri r c h =
    unfold copy_parts in let e : uri ≡ r = ground arith in (ground arith, λ j. ground (arith, c j))
copy_parts_lem (i ∷ rest) source uri r c h = elim (Option-cases (source.part i)) [
  | inl e ↦
      copy_parts_lem rest source uri r (Copying-skip source i rest uri e c)
        (sym (copy_parts-none i rest source uri e) ∙ h)
  | inr (text, e) ↦
      let step = sym (copy_parts-some i rest source uri text e) ∙ h in
      let again = rw e at (Copying-set source i rest uri (later uri.memory) c) in
      elim (Bool-cases (granted uri.memory)) [
        | inl g ↦
            copy_parts_lem rest source (set_part i (some text) (fresh i rest source uri)) r again
              (rw g at step)
        | inr g ↦ absurd (ground arith)
      ]
]

Copying-start : (source uri : ParsedUri) → Copying source parts (start_copy source uri)
unfolding same_part init_uri
Copying-start source uri scheme = inl (refl, refl)
Copying-start source uri _ = inl (refl, refl)

copy_eq :
    (source uri : ParsedUri)
    → source.state ≡ UriState.success
    → copy source uri ≡ settle_copy (copy_parts parts source (start_copy source uri))
unfolding copy
copy_eq source uri h =
    let settled = settle_copy (copy_parts parts source (start_copy source uri)) in
    ap (λ state. if is_success state then settled else start_copy source uri) h

-- How many of the parts are there, each of which takes an allocation.
abbrev pub one_if_there : Option (List ℕ) → ℕ → ℕ
one_if_there none n = n
one_if_there (some text) n = suc n

abbrev pub texts : ParsedUri → List Part → ℕ
texts source [] = 0
texts source (i ∷ rest) = one_if_there (source.part i) (texts source rest)

-- Whether the next `n` allocations succeed.
abbrev pub all_granted : ℕ → List Bool → Bool
all_granted zero memory = true
all_granted (suc n) [] = true
all_granted (suc n) (b ∷ memory) = b && all_granted n memory

pub all_granted_one :
    (n : ℕ) (memory : List Bool)
    → all_granted (suc n) memory ≡ (granted memory && all_granted n (later memory))
all_granted_one zero [] = refl
all_granted_one (suc n) [] = refl
all_granted_one n (b ∷ memory) = refl

copy_parts-granted :
    (rest : List Part) (source uri : ParsedUri)
    → (copy_parts rest source uri).0 ≡ all_granted (texts source rest) uri.memory
unfolding set_part
copy_parts-granted [] source uri = unfold copy_parts in refl
copy_parts-granted (i ∷ rest) source uri = elim (Option-cases (source.part i)) [
  | inl e ↦ rw (copy_parts-none i rest source uri e, e) (copy_parts-granted rest source uri)
  | inr (text, e) ↦
      let next = set_part i (some text) (fresh i rest source uri) in
      rw (copy_parts-some i rest source uri text e, e)
        (elim (Bool-cases (granted uri.memory)) [
          | inl g ↦
              rw (all_granted_one (texts source rest) uri.memory, g)
                (copy_parts-granted rest source next)
          | inr g ↦ rw (all_granted_one (texts source rest) uri.memory, g) refl
        ])
]

-- What a copy of `source` into `uri` comes to: complete if every part that is there gets its
-- allocation, given up if one does not.
pub record IsCopy (source uri r : ParsedUri) : Type 0 where
  pub succeeds :
      all_granted (texts source parts) uri.memory ≡ true
      → (r.state ≡ UriState.success) × ((j : Part) → r.part j ≡ source.part j)
  pub fails :
      all_granted (texts source parts) uri.memory ≡ false
      → (r.state ≡ UriState.error) × (r.error ≡ enomem) × ((j : Part) → r.part j ≡ none)

settle_copy-IsCopy :
    (source uri start : ParsedUri) (r : Bool × ParsedUri)
    → source.state ≡ UriState.success
    → start.state ≡ source.state
    → Copying source parts start
    → copy_parts parts source start ≡ r
    → r.0 ≡ all_granted (texts source parts) uri.memory
    → IsCopy source uri (settle_copy r)
unfolding settle_copy init_uri
settle_copy-IsCopy source uri start (true, r) h k c e g =
    let (state, same) = copy_parts_lem parts source start r c e in
    record { succeeds = λ _. (state ∙ k ∙ h, same); fails = λ d. absurd (ground arith) }
settle_copy-IsCopy source uri start (false, r) h k c e g = record {
  succeeds = λ d. absurd (ground arith);
  fails = λ _. (refl, refl, λ j. refl);
}

-- Copying a URI that was parsed: if the allocation of every part that is there succeeds, every part
-- is copied and the state is success; if one of them fails, every part is NULL and the state is the
-- error ENOMEM.
pub copy-IsCopy :
    (source uri : ParsedUri) → source.state ≡ UriState.success → IsCopy source uri (copy source uri)
unfolding init_uri
copy-IsCopy source uri h =
    let start = start_copy source uri in
    rw (copy_eq source uri h) (
      settle_copy-IsCopy source uri start (copy_parts parts source start) h refl
        (Copying-start source uri) refl (copy_parts-granted parts source start))
