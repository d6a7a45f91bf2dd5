-- ===== src/HttpParser/StartLine.antt =====
-- The start line of a message: __match_request_line, __match_status_line and __parse_start_line of
-- workflow-step-by-step/src/protocol/http_parser.c.
pub mod Progress
use demo_submodule.Prelude.{
  ℕ, zero, suc, ◌+◌, Bool, true, false, ◌&&◌, ◌||◌, Option, none, some, List, [], ◌∷◌, ◌++◌, ◌==◌,
  if◌then◌else◌, length, get_or,
}
use demo_submodule.Cstring.{strcmp, has_prefix, strchr}
use demo_submodule.Ctype.{codes}
use demo_submodule.HttpParser.{
  HttpParser, header_name, Ret, invalid, no_memory, more, done, malloc_three,
}

abbrev pub start_line_max : ℕ
start_line_max = 8192

-- What a search for the end of a line comes to: the line is too long or malformed, it has not
-- arrived whole, or it is there.
pub data LineScan : Type 0 where
  bad : LineScan
  partial : LineScan
  line : List ℕ → LineScan

-- What follows the `\r` at which a line ends.
abbrev after_cr : List ℕ → List ℕ → LineScan
after_cr read [] = partial
after_cr read (d ∷ rest) = if d == 10 then line read else bad

-- The loop `for (i = 0; i < min; i++)` that the start line, the chunk line and the trailer share.
-- `room` is what is left of the limit, `read` the first `i` bytes; only the start line refuses a
-- NUL.
unfoldable pub scan_line : (nul_ends : Bool) → ℕ → List ℕ → List ℕ → LineScan
scan_line nul_ends zero read rest = bad
scan_line nul_ends (suc room) read [] = partial
scan_line nul_ends (suc room) read (c ∷ rest) =
    let further = scan_line nul_ends room (read ++ c ∷ []) rest in
    if c == 13 then after_cr read rest else if nul_ends && (c == 0) then bad else further

-- The versions that do not keep the connection by default.
unfoldable pub is_old : List ℕ → Bool
is_old version = strcmp version (codes "HTTP/1.0") || has_prefix version (codes "HTTP/0")

abbrev close_if : Bool → HttpParser → HttpParser
close_if old p = record p { keep_alive = if old then false else p.keep_alive }

unfoldable pub match_request_line : List ℕ → List ℕ → List ℕ → HttpParser → Ret × HttpParser
match_request_line method uri version p =
    let (a, p') = malloc_three (close_if (is_old version) p) in
    if a
    then (more, record p' { method = some method; uri = some uri; version = some version })
    else (no_memory, p')

-- The status codes whose messages have no body.
unfoldable pub has_no_body : List ℕ → Bool
has_no_body code = get_or code 0 0 == b'1' || strcmp code (codes "204") || strcmp code (codes "304")

pub match_status_line : List ℕ → List ℕ → List ℕ → HttpParser → Ret × HttpParser
match_status_line version code phrase p =
    let p1 = close_if (is_old version) p in
    let p2 = record p1 { transfer_length = if has_no_body code then 0 else p1.transfer_length } in
    let (a, p') = malloc_three p2 in
    if a
    then (more, record p' { version = some version; code = some code; phrase = some phrase })
    else (no_memory, p')

-- The three parts that two spaces separate.
unfoldable pub split_line : List ℕ → Option (List ℕ × List ℕ × List ℕ)
split_line text = elim (strchr b' ' text) [
  | none ↦ none
  | some (p1, rest) ↦ elim (strchr b' ' rest) [ none ↦ none | some (p2, p3) ↦ some (p1, p2, p3) ]
]

unfoldable pub match_start_line : List ℕ → List ℕ → List ℕ → HttpParser → Ret × HttpParser
match_start_line p1 p2 p3 p =
    if p.is_resp then match_status_line p1 p2 p3 p else match_request_line p1 p2 p3 p

-- `if (ret < 0) return -1`, or on to the header names behind the line.
abbrev accept_line : ℕ → Ret × HttpParser → Ret × HttpParser
accept_line n (more, p) =
    (done, record p { header_offset = p.header_offset + (n + 2); header_state = header_name })
accept_line n (_, p) = (no_memory, p)

-- An empty line before the start line is skipped.
unfoldable pub starts_crlf : List ℕ → Bool
starts_crlf (c ∷ d ∷ rest) = c == 13 && d == 10
starts_crlf _ = false

unfoldable pub take_start_line : LineScan → HttpParser → Ret × HttpParser
take_start_line bad p = (invalid, p)
take_start_line partial p = (more, p)
take_start_line (line text) p = elim (split_line text) [
  | none ↦ (invalid, p)
  | some (p1, p2, p3) ↦ accept_line (length text) (match_start_line p1 p2 p3 p)
]

unfoldable pub parse_start_line : List ℕ → HttpParser → Ret × HttpParser
parse_start_line ptr p =
    if starts_crlf ptr
    then (done, record p { header_offset = p.header_offset + 2 })
    else take_start_line (scan_line true start_line_max [] ptr) p
