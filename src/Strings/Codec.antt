-- ===== src/Strings/Codec.antt =====
-- StringUtil::url_decode, url_encode and url_encode_component of
-- workflow-step-by-step/src/util/StringUtil.cc.
-- `url_decode` works in place with `dest` never past `data`, so no byte is overwritten before it
-- is read, and the result is a function of the input.
pub mod RoundTrip
use demo_submodule.Prelude.{
  ℕ, ◌+◌, ◌-◌, ◌*◌, ◌/◌, ◌%◌, Bool, true, false, ◌&&◌, ◌||◌, List, [], ◌∷◌, ◌++◌, leb, ltb, ◌==◌,
  if◌then◌else◌,
}
use demo_submodule.Ctype.{isalnum, isxdigit, tolower}

-- The value of one digit: `c >= '0' && c <= '9' ? c - '0' : c - 'a' + 10`, after lowering.
pub hex_value : ℕ → ℕ
hex_value s = let c = tolower s in if leb b'0' c && leb c b'9' then c - b'0' else c + 10 - b'a'

pub htoi : ℕ → ℕ → ℕ
htoi s0 s1 = hex_value s0 * 16 + hex_value s1

pub itoh : ℕ → ℕ
itoh n = if ltb 9 n then n + b'A' - 10 else n + b'0'

-- A byte that opens no escape.
pub decode_char : ℕ → ℕ
decode_char c = if c == b'+' then b' ' else c

pub url_decode : List ℕ → List ℕ
url_decode [] = []
url_decode (c ∷ []) = decode_char c ∷ []
url_decode (c ∷ x ∷ []) = decode_char c ∷ url_decode (x ∷ [])
url_decode (c ∷ x ∷ y ∷ rest) = elim (c == b'%' && isxdigit x && isxdigit y) [
  | true ↦ htoi x y ∷ url_decode rest
  | false ↦ decode_char c ∷ url_decode (x ∷ y ∷ rest)
]

-- The characters that both encoders copy.
abbrev pub is_unreserved : ℕ → Bool
is_unreserved c =
    isalnum c
    || c == b'-'
    || c == b'_'
    || c == b'.'
    || c == b'!'
    || c == b'~'
    || c == b'*'
    || c == 39
    || c == b'('
    || c == b')'

-- The characters that `url_encode` copies besides.
abbrev pub is_reserved : ℕ → Bool
is_reserved c = c == b':' || c == b'/' || c == b'@' || c == b'?' || c == b'#' || c == b'&'

pub encode_char : (ℕ → Bool) → ℕ → List ℕ
encode_char copied c =
    if c == b' '
    then b'+' ∷ []
    else if copied c
    then c ∷ []
    else b'%' ∷ itoh (c / 16) ∷ itoh (c % 16) ∷ []

pub encode_with : (ℕ → Bool) → List ℕ → List ℕ
encode_with copied [] = []
encode_with copied (c ∷ rest) = encode_char copied c ++ encode_with copied rest

pub url_encode : List ℕ → List ℕ
url_encode str = encode_with (λ c. is_unreserved c || is_reserved c) str

pub url_encode_component : List ℕ → List ℕ
url_encode_component str = encode_with is_unreserved str
