-- ===== src/Cstring.antt =====
-- The functions of <string.h> and <stdlib.h> that workflow-step-by-step/src/protocol/http_parser.c
-- calls. A C string is the list of its bytes before the NUL, so it holds no 0; past its end a
-- comparison reads the NUL, which is 0.
pub mod Compare
use demo_submodule.Prelude.{
  ℕ, zero, suc, ◌+◌, ◌-◌, ◌*◌, ◌%◌, ◌^◌, Bool, true, false, ◌&&◌, ◌||◌, Option, none, some, List,
  [], ◌∷◌, ltb, ◌==◌, if◌then◌else◌, get_or, leb,
}
use Prim.Native.Nat.{min}
use demo_submodule.Ctype.{isspace, isxdigit, isdigit, tolower}

-- strcmp(a, b) == 0
unfoldable pub strcmp : List ℕ → List ℕ → Bool
strcmp [] [] = true
strcmp (x ∷ a) (y ∷ b) = if x == y then strcmp a b else false
strcmp _ _ = false

-- strncmp(str, prefix, strlen(prefix)) == 0
unfoldable pub has_prefix : List ℕ → List ℕ → Bool
has_prefix str [] = true
has_prefix [] (y ∷ b) = false
has_prefix (x ∷ a) (y ∷ b) = if x == y then has_prefix a b else false

-- strcasecmp(a, b) == 0
unfoldable pub strcasecmp : List ℕ → List ℕ → Bool
strcasecmp [] [] = true
strcasecmp (x ∷ a) (y ∷ b) = if tolower x == tolower y then strcasecmp a b else false
strcasecmp _ _ = false

abbrev rest : List ℕ → List ℕ
rest [] = []
rest (x ∷ xs) = xs

-- strncasecmp(a, b, n) == 0
unfoldable pub strncasecmp : ℕ → List ℕ → List ℕ → Bool
strncasecmp zero a b = true
strncasecmp (suc n) a b =
    let x = get_or a 0 0 in
    let y = get_or b 0 0 in
    let more = strncasecmp n (rest a) (rest b) in
    if tolower x == tolower y then (if x == 0 then true else more) else false

abbrev prepend : ℕ → Option (List ℕ × List ℕ) → Option (List ℕ × List ℕ)
prepend x none = none
prepend x (some (before, after)) = some (x ∷ before, after)

-- strchr(str, c): what stands before the first `c`, and what follows it.
unfoldable pub strchr : ℕ → List ℕ → Option (List ℕ × List ℕ)
strchr c [] = none
strchr c (x ∷ str) = if x == c then some ([], str) else prepend x (strchr c str)

abbrev pub size_mod : ℕ
size_mod = 2 ^ 64

-- The digits at the start of a string, in base 10.
unfoldable pub decimal : ℕ → List ℕ → ℕ
decimal acc [] = acc
decimal acc (c ∷ str) = if isdigit c then decimal (acc * 10 + (c - b'0')) str else acc

-- `(size_t)atoi(str)` of a string that starts with a digit, as the C library computes it: the
-- value saturates at LONG_MAX, keeps its low 32 bits as an `int`, and is sign-extended.
unfoldable pub atoi : List ℕ → ℕ
atoi str =
    let low = min (decimal 0 str) (2 ^ 63 - 1) % 2 ^ 32 in
    if ltb low (2 ^ 31) then low else low + (2 ^ 64 - 2 ^ 32)

unfoldable pub skip_space : List ℕ → List ℕ
skip_space [] = []
skip_space (c ∷ str) = if isspace c then skip_space str else c ∷ str

-- Whether a minus sign stands first, and what follows the sign.
abbrev sign : List ℕ → Bool × List ℕ
sign [] = (false, [])
sign (c ∷ str) =
    if c == b'-' then (true, str) else if c == b'+' then (false, str) else (false, c ∷ str)

-- The prefix 0x or 0X is skipped if a digit follows it.
abbrev hex_prefix : List ℕ → List ℕ
hex_prefix (z ∷ x ∷ d ∷ str) =
    if z == b'0' && (x == b'x' || x == b'X') && isxdigit d then d ∷ str else z ∷ x ∷ d ∷ str
hex_prefix str = str

pub hex_digit : ℕ → ℕ
hex_digit c = if isdigit c then c - b'0' else if leb b'a' c then c + 10 - b'a' else c + 10 - b'A'

-- The digits at the start of a string, in base 16; `none` if there is none.
unfoldable pub hexadecimal : Option ℕ → List ℕ → Option ℕ
hexadecimal acc [] = acc
hexadecimal acc (c ∷ str) =
    if isxdigit c
    then hexadecimal (some (elim acc [ none ↦ 0 | some v ↦ v ] * 16 + hex_digit c)) str
    else acc

-- `strtol(str, &end, 16)` as an unsigned long: `none` for `end == str`, saturated at LONG_MAX and
-- LONG_MIN.
unfoldable pub strtol16 : List ℕ → Option ℕ
strtol16 str =
    let (negative, digits) = sign (skip_space str) in
    elim (hexadecimal none (hex_prefix digits)) [
      | none ↦ none
      | some v ↦
          some (if negative then (size_mod - min v (2 ^ 63)) % size_mod else min v (2 ^ 63 - 1))
    ]
