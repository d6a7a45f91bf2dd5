-- ===== src/Strings/Split.antt =====
-- StringUtil::split, split_filter_empty and start_with of
-- workflow-step-by-step/src/util/StringUtil.cc. The argument `token` of the loops is the range
-- [start, next) that the search has passed.
pub mod Tokens
use demo_submodule.Prelude.{
  ℕ, Bool, true, false, List, [], ◌∷◌, ◌++◌, ◌==◌, ltb, if◌then◌else◌, length, is_empty,
}

pub split_loop : ℕ → List ℕ → List ℕ → List (List ℕ)
split_loop sep token [] = token ∷ []
split_loop sep token (c ∷ rest) = elim (c == sep) [
  | true ↦ token ∷ split_loop sep [] rest
  | false ↦ split_loop sep (token ++ c ∷ []) rest
]

pub split : List ℕ → ℕ → List (List ℕ)
split str sep = split_loop sep [] str

-- `if (start < next) res.emplace_back(start, next)`
pub emplace_nonempty : List ℕ → List (List ℕ) → List (List ℕ)
emplace_nonempty [] res = res
emplace_nonempty (c ∷ token) res = (c ∷ token) ∷ res

pub split_filter_loop : ℕ → List ℕ → List ℕ → List (List ℕ)
split_filter_loop sep token [] = emplace_nonempty token []
split_filter_loop sep token (c ∷ rest) = elim (c == sep) [
  | true ↦ emplace_nonempty token (split_filter_loop sep [] rest)
  | false ↦ split_filter_loop sep (token ++ c ∷ []) rest
]

pub split_filter_empty : List ℕ → ℕ → List (List ℕ)
split_filter_empty str sep = split_filter_loop sep [] str

-- The loop of `start_with`, entered only when `str` is at least as long.
pub same_prefix : List ℕ → List ℕ → Bool
same_prefix str [] = true
same_prefix [] (p ∷ prefix) = false
same_prefix (c ∷ str) (p ∷ prefix) = if c == p then same_prefix str prefix else false

pub start_with : List ℕ → List ℕ → Bool
start_with str prefix = if ltb (length str) (length prefix) then false else same_prefix str prefix
