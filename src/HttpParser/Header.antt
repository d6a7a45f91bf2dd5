-- ===== src/HttpParser/Header.antt =====
-- The header lines of a message: http_parser_add_header, http_parser_set_header and the cursor of
-- workflow-step-by-step/src/protocol/http_parser.c. The intrusive list is a list of lines.
pub mod Frame
pub mod Lookup
use demo_submodule.Prelude.{
  ℕ, ◌+◌, Bool, true, false, ◌&&◌, Option, none, some, List, [], ◌∷◌, ◌++◌, ltb, ◌==◌,
  if◌then◌else◌, length, take, drop, replicate,
}
use demo_submodule.Cstring.{strncasecmp}
use demo_submodule.HttpParser.{HttpParser, HeaderLine, Ret, no_memory, more, malloc}

-- memcpy(buf + at, bytes, length bytes). The buffer keeps its size: bytes behind its end, which in C
-- overwrite foreign memory, are lost.
abbrev pub write : ℕ → List ℕ → List ℕ → List ℕ
write at bytes buf = take (length buf) (take at buf ++ (bytes ++ drop (at + length bytes) buf))

-- `: ` and the line end, which the code stores byte by byte.
abbrev pub colon : List ℕ
colon = b':' ∷ b' ' ∷ []

abbrev pub crlf : List ℕ
crlf = 13 ∷ 10 ∷ []

abbrev pub new_line : List ℕ → List ℕ → HeaderLine
new_line name value = record {
  name_len = length name;
  value_len = length value;
  buf = name ++ (colon ++ (value ++ crlf));
}

unfoldable pub add_header : List ℕ → List ℕ → HttpParser → Ret × HttpParser
add_header name value p =
    let (a, p') = malloc p in
    if a
    then (more, record p' { header_list = p'.header_list ++ new_line name value ∷ [] })
    else (no_memory, p')

unfoldable pub same_name : List ℕ → HeaderLine → Bool
same_name name line = line.name_len == length name && strncasecmp (length name) line.buf name

-- malloc(name_len + value_len + 4), with the name and `: ` stored at its beginning. The other
-- bytes, 0 here, are written before they are read.
abbrev pub fresh_buf : List ℕ → List ℕ → List ℕ
fresh_buf name value = name ++ (colon ++ replicate (length value + 2) 0)

-- The body of the loop once the line is found; a longer value goes into a fresh
-- buffer, which starts with the name as it is given now.
abbrev pub replace_value : List ℕ → List ℕ → HeaderLine → HeaderLine
replace_value name value line =
    let buf = if ltb line.value_len (length value) then fresh_buf name value else line.buf in
    record line { value_len = length value; buf = write (length name + 2) (value ++ crlf) buf }

abbrev pub after : HeaderLine → Option (Bool × List HeaderLine) → Option (Bool × List HeaderLine)
after line none = none
after line (some (grown, rest)) = some (grown, line ∷ rest)

-- The loop over the lines: whether a larger buffer is needed and the new lines, or `none` if no
-- line has the name.
unfoldable pub set_loop : List ℕ → List ℕ → List HeaderLine → Option (Bool × List HeaderLine)
set_loop name value [] = none
set_loop name value (line ∷ lines) =
    if same_name name line
    then some (ltb line.value_len (length value), replace_value name value line ∷ lines)
    else after line (set_loop name value lines)

-- What follows the loop: the line is changed, in a larger buffer or in place, or it is added.
abbrev pub set_found :
    Option (Bool × List HeaderLine) → List ℕ → List ℕ → HttpParser → Ret × HttpParser
set_found none name value p = add_header name value p
set_found (some (false, lines)) name value p = (more, record p { header_list = lines })
set_found (some (true, lines)) name value p =
    let (a, p') = malloc p in
    if a then (more, record p' { header_list = lines }) else (no_memory, p')

unfoldable pub set_header : List ℕ → List ℕ → HttpParser → Ret × HttpParser
set_header name value p = set_found (set_loop name value p.header_list) name value p

-- http_header_cursor_t, as the lines behind the cursor.
abbrev pub Cursor : Type 0
Cursor = List HeaderLine

abbrev pub line_name : HeaderLine → List ℕ
line_name line = take line.name_len line.buf

abbrev pub line_value : HeaderLine → List ℕ
line_value line = take line.value_len (drop (line.name_len + 2) line.buf)

pub cursor_init : HttpParser → Cursor
cursor_init p = p.header_list

-- http_header_cursor_next: the name and the value, or `none` for the return value 1.
pub cursor_next : Cursor → Option (List ℕ × List ℕ) × Cursor
cursor_next [] = (none, [])
cursor_next (line ∷ lines) = (some (line_name line, line_value line), lines)

-- http_header_cursor_find. The value starts behind the length of the name that is looked for.
pub cursor_find : List ℕ → Cursor → Option (List ℕ) × Cursor
cursor_find name [] = (none, [])
cursor_find name (line ∷ lines) =
    if same_name name line
    then (some (take line.value_len (drop (length name + 2) line.buf)), lines)
    else cursor_find name lines
