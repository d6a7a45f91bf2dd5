-- ===== src/Uri/Query/First.antt =====
-- URIParser::split_query beside URIParser::split_query_strict.
use demo_submodule.Prelude.{
  ℕ, ◌≡◌, refl, Option, none, some, List, [], ◌∷◌, ◌++◌, if◌then◌else◌, is_empty, arith, Bool-cases,
  inl, inr,
}
use demo_submodule.Cstring.{strcmp}
use demo_submodule.Cstring.Compare.{strcmp_iff}
use demo_submodule.Strings.Split.{split}
use demo_submodule.Uri.Query.{
  Map, lookup, insert, key_of, value_of, or_nil, add_strict, strict_loop, split_query_strict,
  is_some, add_first, first_loop, split_query,
}

lookup-insert {ℓ} :
    {V : Type ℓ} (k j : List ℕ) (v : V) (m : Map V)
    → lookup j (insert k v m) ≡ (if strcmp k j then some v else lookup j m)
unfolding lookup insert
lookup-insert k j v [] = refl
lookup-insert k j v ((i, w) ∷ m) =
    ground (arith, strcmp_iff i k, strcmp_iff i j, strcmp_iff k j, lookup-insert k j v m)

-- The first of the values, if there is one.
abbrev pub first_of : Option (List (List ℕ)) → Option (List ℕ)
first_of none = none
first_of (some []) = none
first_of (some (v ∷ vs)) = some v

Agree : Map (List ℕ) → Map (List (List ℕ)) → Type 0
Agree first strict = (k : List ℕ) → lookup k first ≡ first_of (lookup k strict)

first_of-append :
    (vs : Option (List (List ℕ))) (v : List ℕ)
    → first_of (some (or_nil vs ++ v ∷ []))
      ≡ (if is_some (first_of vs) then first_of vs else some v)
first_of-append none v = refl
first_of-append (some []) v = refl
first_of-append (some (w ∷ vs)) v = refl

added :
    (key value : List ℕ) (first : Map (List ℕ)) (strict : Map (List (List ℕ)))
    → Agree first strict
    → (k : List ℕ)
    → lookup k (if is_some (lookup key first) then first else insert key value first)
      ≡ first_of (lookup k (insert key (or_nil (lookup key strict) ++ value ∷ []) strict))
unfolding Agree
added key value first strict a k = ground (
  arith,
  lookup-insert key k value first,
  lookup-insert key k (or_nil (lookup key strict) ++ value ∷ []) strict,
  a k,
  a key,
  first_of-append (lookup key strict) value,
  strcmp_iff key k,
)

Agree-add :
    (ele : List ℕ) (first : Map (List ℕ)) (strict : Map (List (List ℕ)))
    → Agree first strict
    → Agree (add_first ele first) (add_strict ele strict)
unfolding Agree add_first add_strict
Agree-add ele first strict a k = elim (Bool-cases (is_empty (key_of ele))) [
  | inl e ↦ rw (e) (a k)
  | inr e ↦ rw e (added (key_of ele) (value_of ele) first strict a k)
]

Agree-loop :
    (arr : List (List ℕ)) (first : Map (List ℕ)) (strict : Map (List (List ℕ)))
    → Agree first strict
    → Agree (first_loop arr first) (strict_loop arr strict)
unfolding first_loop strict_loop
Agree-loop [] first strict a = a
Agree-loop (ele ∷ arr) first strict a =
    Agree-loop arr (add_first ele first) (add_strict ele strict) (Agree-add ele first strict a)

-- For every query string and every key, the value that `split_query` gives is the first of the
-- values that `split_query_strict` lists.
pub lookup-split_query :
    (query key : List ℕ)
    → lookup key (split_query query) ≡ first_of (lookup key (split_query_strict query))
unfolding split_query split_query_strict Agree
lookup-split_query query key = elim (Bool-cases (is_empty query)) [
  | inl e ↦ rw e (unfold lookup in refl)
  | inr e ↦ rw e (Agree-loop (split query b'&') [] [] (λ k. unfold lookup in refl) key)
]
