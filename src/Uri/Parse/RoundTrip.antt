-- ===== src/Uri/Parse/RoundTrip.antt =====
-- URIParser::parse of a URI that was printed.
use demo_submodule.Prelude.{
  ℕ, suc, ◌≡◌, refl, ap, ◌∙◌, Bool, true, false, ◌&&◌, some, List, [], ◌∷◌, Bool-cases, inl, inr,
  All,
}
use demo_submodule.Uri.{ParsedUri, Part, UriState, parts, granted, enomem, set_part}
use demo_submodule.Uri.Copy.{all_granted, all_granted_one}
use demo_submodule.Uri.Parse.{
  Spans, slice, all_valid, check_parts, checked_parts, store_part, store_parts, find_spans,
}
use demo_submodule.Uri.Parse.Classes.{is_allowed, valid_char_lem}
use demo_submodule.Uri.Parse.Printed.{UriText, print_uri, text_of, IsUri}
use demo_submodule.Uri.Parse.Texts.{HasTexts, print_uri-HasTexts}
use demo_submodule.Uri.Parse.Stored.{kept, Stored}

all_valid-allowed :
    (i : Part) (text : List ℕ) → All (λ c. is_allowed i c ≡ true) text → all_valid i text ≡ true
unfolding all_valid
all_valid-allowed i [] a = refl
all_valid-allowed i (c ∷ text) (h, a) = rw (valid_char_lem i c ∙ h) (all_valid-allowed i text a)

check_parts-valid :
    (str : List ℕ) (s : Spans) (rest : List Part)
    → ((i : Part) → all_valid i (slice str s i) ≡ true)
    → check_parts str s rest ≡ true
unfolding check_parts
check_parts-valid str s [] h = refl
check_parts-valid str s (i ∷ rest) h = rw (h i) (check_parts-valid str s rest h)

-- How many of the texts are not empty, each of which takes an allocation.
abbrev pub one_if_any : List ℕ → ℕ → ℕ
one_if_any [] n = n
one_if_any (c ∷ text) n = suc n

abbrev pub filled : (Part → List ℕ) → List Part → ℕ
filled text [] = 0
filled text (i ∷ rest) = one_if_any (text i) (filled text rest)

-- One round of the loop that copies the parts, and the rounds after it.
store_part-granted :
    (i : Part) (text : List ℕ) (uri : ParsedUri) (n : ℕ)
    → ((store_part i text uri).0 && all_granted n (store_part i text uri).1.memory)
      ≡ all_granted (one_if_any text n) uri.memory
unfolding store_part set_part
store_part-granted i [] uri n = refl
store_part-granted i (c ∷ text) uri n =
    rw (all_granted_one n uri.memory)
      (elim (Bool-cases (granted uri.memory)) [ inl g ↦ rw g refl | inr g ↦ rw g refl ])

pub store_parts-granted :
    (str : List ℕ) (s : Spans) (text : Part → List ℕ) (rest : List Part) (uri : ParsedUri)
    → ((i : Part) → slice str s i ≡ text i)
    → (store_parts str s rest uri).0 ≡ all_granted (filled text rest) uri.memory
unfolding store_parts
store_parts-granted str s text [] uri e = refl
store_parts-granted str s text (i ∷ rest) uri e =
    let r = store_part i (slice str s i) uri in
    let again = store_parts-granted str s text rest r.1 e in
    let one = store_part-granted i (slice str s i) uri (filled text rest) in
    let same : all_granted (one_if_any (slice str s i) (filled text rest)) uri.memory
        ≡ all_granted (filled text (i ∷ rest)) uri.memory =
      ap (λ w. all_granted (one_if_any w (filled text rest)) uri.memory) (e i) in
    elim (Bool-cases r.0) [
      | inl g ↦ rw g (again ∙ (rw g at one) ∙ same)
      | inr g ↦ rw g ((rw g at one) ∙ same)
    ]

-- What the parser makes of a printed URI.
pub record ParsedAs (u : UriText) (uri : ParsedUri) (o : Bool × ParsedUri) : Type 0 where
  pub succeeds :
      all_granted (filled (text_of u) parts) uri.memory ≡ true
      → (o.0 ≡ true)
        × (o.1.state ≡ UriState.success)
        × ((i : Part) → o.1.part i ≡ kept i (text_of u i))
  pub fails :
      all_granted (filled (text_of u) parts) uri.memory ≡ false
      → (o.0 ≡ false) × (o.1.state ≡ UriState.error) × (o.1.error ≡ enomem)

HasTexts-checked :
    (u : UriText)
    → IsUri u
    → (t : HasTexts u) → check_parts (print_uri u) t.spans checked_parts ≡ true
HasTexts-checked u v t =
    check_parts-valid (print_uri u) t.spans checked_parts
      (λ i. ap (all_valid i) (t.texts i) ∙ all_valid-allowed i (text_of u i) (v.allowed i))

-- The spans of a printed URI are found and pass the check.
pub accepts :
    (u : UriText)
    → IsUri u
    → (s : Spans) × (find_spans (print_uri u) ≡ some s)
      × (check_parts (print_uri u) s checked_parts ≡ true)
accepts u v = let t = print_uri-HasTexts u v in (t.spans, t.found, HasTexts-checked u v t)
