-- ===== src/Ctype.antt =====
-- The character classes of <ctype.h> in the "C" locale, on bytes as numbers below 256.
-- workflow-step-by-step/src/util/StringUtil.cc and kindred files call them.
use Prim.Native.Char.{code}
use Prim.Native.String.{String}
use demo_submodule.Prelude.{ℕ, ◌+◌, ◌<◌, Bool, ◌&&◌, ◌||◌, List, [], ◌∷◌, leb, ◌==◌, if◌then◌else◌}

abbrev pub isdigit : ℕ → Bool
isdigit c = leb b'0' c && leb c b'9'

abbrev pub isupper : ℕ → Bool
isupper c = leb b'A' c && leb c b'Z'

abbrev pub islower : ℕ → Bool
islower c = leb b'a' c && leb c b'z'

abbrev pub isalpha : ℕ → Bool
isalpha c = isupper c || islower c

abbrev pub isalnum : ℕ → Bool
isalnum c = isdigit c || isalpha c

abbrev pub isxdigit : ℕ → Bool
isxdigit c = isdigit c || (leb b'A' c && leb c b'F') || (leb b'a' c && leb c b'f')

abbrev pub isspace : ℕ → Bool
isspace c = c == 32 || (leb 9 c && leb c 13)

abbrev pub tolower : ℕ → ℕ
tolower c = if isupper c then c + 32 else c

abbrev pub IsByte : ℕ → Type 0
IsByte c = c < 256

-- The bytes of an ASCII text.
abbrev pub codes : String → List ℕ
codes String.[] = []
codes (String.◌∷◌ c s) = code c ∷ codes s
