-- ===== src/Uri/Parse/Stored.antt =====
-- The checks and the copies of the parts in URIParser::parse.
use demo_submodule.Prelude.{
  ℕ, ◌≡◌, refl, ◌⊎◌, Bool, true, false, Option, none, some, List, [], ◌∷◌, if◌then◌else◌, arith,
  Bool-cases, inl, inr,
}
use demo_submodule.Uri.{
  ParsedUri, Part, UriState, scheme, set_part, granted, enomem, parts, same_part,
}
use demo_submodule.Uri.Copy.{same_part_eq, member}
use demo_submodule.Uri.Parse.{
  Spans, slice, decode_host, store_part, store_parts, check_parts, all_valid,
}

-- What a part holds for its bytes.
abbrev pub kept : Part → List ℕ → Option (List ℕ)
kept i [] = none
kept i (c ∷ text) = some (decode_host i (c ∷ text))

-- The round for the part `i`.
record Stores (i : Part) (text : List ℕ) (uri : ParsedUri) (succ : Bool) (r : ParsedUri)
    : Type 0 where
  fails : succ ≡ false → (r.state ≡ UriState.error) × (r.error ≡ enomem)
  stores : succ ≡ true → (j : Part) → r.part j ≡ (if same_part i j then kept i text else uri.part j)

store_part-Stores :
    (i : Part) (text : List ℕ) (uri : ParsedUri)
    → Stores i text uri (store_part i text uri).0 (store_part i text uri).1
unfolding store_part set_part
store_part-Stores i [] uri = record { fails = λ h. absurd (ground arith); stores = λ h j. refl }
store_part-Stores i (c ∷ text) uri = elim (Bool-cases (granted uri.memory)) [
  | inl g ↦ rw g (record { fails = λ h. absurd (ground arith); stores = λ h j. refl })
  | inr g ↦ rw g (record { fails = λ h. (refl, refl); stores = λ h j. absurd (ground arith) })
]

-- Each part is stored, or still to come.
abbrev pub Storing : List ℕ → Spans → List Part → ParsedUri → Type 0
Storing str s rest uri = (j : Part) → (member j rest ≡ true) ⊎ (uri.part j ≡ kept j (slice str s j))

-- What the loop leaves, by its result.
abbrev pub Stored : List ℕ → Spans → Bool → ParsedUri → Type 0
Stored str s true r =
    (r.state ≡ UriState.success) × ((j : Part) → r.part j ≡ kept j (slice str s j))
Stored str s false r = (r.state ≡ UriState.error) × (r.error ≡ enomem)

pub store_parts-Stored :
    (str : List ℕ) (s : Spans) (rest : List Part) (uri : ParsedUri)
    → Storing str s rest uri
    → Stored str s (store_parts str s rest uri).0 (store_parts str s rest uri).1
unfolding store_parts
store_parts-Stored str s [] uri c = (refl, λ j. ground (arith, c j))
store_parts-Stored str s (i ∷ rest) uri c =
    let r = store_part i (slice str s i) uri in
    let o : Stores i (slice str s i) uri r.0 r.1 = store_part-Stores i (slice str s i) uri in
    elim (Bool-cases r.0) [
      | inl e ↦ rw e (
          store_parts-Stored str s rest r.1
            (λ j. ground (arith, c j, o.stores e j, same_part_eq i j)))
      | inr e ↦ rw e (o.fails e)
    ]

pub check_parts_inv :
    (str : List ℕ) (s : Spans) (rest : List Part)
    → check_parts str s rest ≡ true
    → (j : Part) → member j rest ≡ true
    → all_valid j (slice str s j) ≡ true
unfolding check_parts
check_parts_inv str s [] h j m = absurd (ground arith)
check_parts_inv str s (i ∷ rest) h j m =
    ground (arith, same_part_eq i j, check_parts_inv str s rest (ground arith) j)

pub stored_all : (str : List ℕ) (s : Spans) (uri : ParsedUri) → Storing str s parts uri
unfolding same_part
stored_all str s uri scheme = inl refl
stored_all str s uri _ = inl refl
