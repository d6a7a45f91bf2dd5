-- ===== src/Uri/Query.antt =====
-- URIParser::split_query_strict, split_query and split_path of
-- workflow-step-by-step/src/util/URIParser.cc. A std::map is a list of keys and values; the order
-- of a map's iteration is not modelled.
pub mod First
use demo_submodule.Prelude.{
  ℕ, Bool, true, false, Option, none, some, List, [], ◌∷◌, ◌++◌, if◌then◌else◌, is_empty,
}
use demo_submodule.Cstring.{strcmp}
use demo_submodule.Strings.Split.{split, split_filter_empty}

abbrev pub Map {ℓ} : Type ℓ → Type ℓ
Map V = List (List ℕ × V)

module _ {ℓ} {V : Type ℓ} where
  unfoldable pub lookup : List ℕ → Map V → Option V
  lookup k [] = none
  lookup k ((j, v) ∷ m) = if strcmp j k then some v else lookup k m

  unfoldable pub insert : List ℕ → V → Map V → Map V
  insert k v [] = (k, v) ∷ []
  insert k v ((j, w) ∷ m) = if strcmp j k then (k, v) ∷ m else (j, w) ∷ insert k v m

-- The key and the value of one `key=value`: kv[0], and kv[1] or nothing.
abbrev head_or_empty : List (List ℕ) → List ℕ
head_or_empty [] = []
head_or_empty (t ∷ ts) = t

abbrev tail : List (List ℕ) → List (List ℕ)
tail [] = []
tail (t ∷ ts) = ts

pub key_of : List ℕ → List ℕ
key_of ele = head_or_empty (split ele b'=')

pub value_of : List ℕ → List ℕ
value_of ele = head_or_empty (tail (split ele b'='))

abbrev pub or_nil : Option (List (List ℕ)) → List (List ℕ)
or_nil none = []
or_nil (some vs) = vs

-- `res[key].emplace_back(val)`; elements with no key are passed over, the empty ones too.
pub add_strict : List ℕ → Map (List (List ℕ)) → Map (List (List ℕ))
add_strict ele res =
    if is_empty (key_of ele)
    then res
    else insert (key_of ele) (or_nil (lookup (key_of ele) res) ++ value_of ele ∷ []) res

pub strict_loop : List (List ℕ) → Map (List (List ℕ)) → Map (List (List ℕ))
strict_loop [] res = res
strict_loop (ele ∷ arr) res = strict_loop arr (add_strict ele res)

pub split_query_strict : List ℕ → Map (List (List ℕ))
split_query_strict query = if is_empty query then [] else strict_loop (split query b'&') []

abbrev is_some {ℓ} : {A : Type ℓ} → Option A → Bool
is_some none = false
is_some (some a) = true

-- `res.emplace(key, val)`, unless the key is empty or known.
pub add_first : List ℕ → Map (List ℕ) → Map (List ℕ)
add_first ele res =
    if is_empty (key_of ele)
    then res
    else if is_some (lookup (key_of ele) res)
    then res
    else insert (key_of ele) (value_of ele) res

pub first_loop : List (List ℕ) → Map (List ℕ) → Map (List ℕ)
first_loop [] res = res
first_loop (ele ∷ arr) res = first_loop arr (add_first ele res)

pub split_query : List ℕ → Map (List ℕ)
split_query query = if is_empty query then [] else first_loop (split query b'&') []

pub split_path : List ℕ → List (List ℕ)
split_path path = split_filter_empty path b'/'
