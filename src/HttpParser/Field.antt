-- ===== src/HttpParser/Field.antt =====
-- One header field: __match_message_header, __parse_header_name and __parse_header_value of
-- workflow-step-by-step/src/protocol/http_parser.c. `namebuf` is the C string in the array of that
-- name; what an incomplete name leaves in the array is overwritten before it is read.
pub mod Progress
pub mod RoundTrip
use demo_submodule.Prelude.{
  ℕ, zero, suc, ◌+◌, ◌-◌, Bool, true, false, ◌&&◌, ◌||◌, not, List, [], ◌∷◌, ◌++◌, ◌==◌,
  if◌then◌else◌, length, get_or,
}
use demo_submodule.Cstring.{strcasecmp, atoi}
use demo_submodule.Ctype.{codes, isdigit}
use demo_submodule.HttpParser.{
  HttpParser, header_name, header_value, header_complete, Ret, invalid, no_memory, more, done,
}
use demo_submodule.HttpParser.Header.{add_header}
use demo_submodule.HttpParser.StartLine.{starts_crlf}

abbrev pub header_name_max : ℕ
header_name_max = 64

abbrev pub header_value_max : ℕ
header_value_max = 8192

pub match_expect : List ℕ → List ℕ → HttpParser → HttpParser
match_expect name value p =
    if strcasecmp name (codes "Expect") && strcasecmp value (codes "100-continue")
    then record p { expect_continue = true }
    else p

pub match_connection : List ℕ → List ℕ → HttpParser → HttpParser
match_connection name value p =
    if strcasecmp name (codes "Connection")
    then (if strcasecmp value (codes "Keep-Alive")
        then record p { keep_alive = true }
        else if strcasecmp value (codes "close")
        then record p { keep_alive = false }
        else p)
    else p

unfoldable pub match_content_length : List ℕ → List ℕ → HttpParser → HttpParser
match_content_length name value p =
    if strcasecmp name (codes "Content-Length") && isdigit (get_or value 0 0)
    then record p { content_length = atoi value }
    else p

pub match_transfer_encoding : List ℕ → List ℕ → HttpParser → HttpParser
match_transfer_encoding name value p =
    if strcasecmp name (codes "Transfer-Encoding")
      && (not (length value == 8) || not (strcasecmp value (codes "identity")))
    then record p { chunked = true }
    else p

-- The switch on the length of the name; the case 6 runs on into the case 10.
unfoldable pub match_field : List ℕ → List ℕ → HttpParser → HttpParser
match_field name value p =
    let n = length name in
    if n == 6
    then match_connection name value (match_expect name value p)
    else if n == 10
    then match_connection name value p
    else if n == 14
    then match_content_length name value p
    else if n == 17
    then match_transfer_encoding name value p
    else p

unfoldable pub match_message_header : List ℕ → List ℕ → HttpParser → Ret × HttpParser
match_message_header name value p = add_header name value (match_field name value p)

-- What a search for the end of a name or a value comes to; `read` holds the bytes before it, and
-- what follows is behind the delimiter.
pub data FieldScan : Type 0 where
  bad : FieldScan
  partial : FieldScan
  field : (read rest : List ℕ) → FieldScan

unfoldable pub scan_name : ℕ → List ℕ → List ℕ → FieldScan
scan_name zero read rest = bad
scan_name (suc room) read [] = partial
scan_name (suc room) read (c ∷ rest) =
    let further = scan_name room (read ++ c ∷ []) rest in
    if c == b':' then field read rest else if c == 0 then bad else further

unfoldable pub take_name : FieldScan → HttpParser → Ret × HttpParser
take_name bad p = (invalid, p)
take_name partial p = (more, p)
take_name (field read rest) p = (
  done,
  record p {
    namebuf = read;
    header_offset = p.header_offset + (length read + 1);
    header_state = header_value;
  },
)

unfoldable pub parse_header_name : List ℕ → HttpParser → Ret × HttpParser
parse_header_name ptr p =
    if starts_crlf ptr
    then (done, record p { header_offset = p.header_offset + 2; header_state = header_complete })
    else take_name (scan_name header_name_max [] ptr) p

abbrev pub is_blank : ℕ → Bool
is_blank c = c == 32 || c == 9

unfoldable pub skip_blanks : List ℕ → List ℕ
skip_blanks [] = []
skip_blanks (c ∷ rest) = if is_blank c then skip_blanks rest else c ∷ rest

-- The second inner loop, from a byte that is there: `room` is what is left of the limit. It ends
-- behind a `\r` with at least one byte left.
unfoldable pub scan_value : ℕ → List ℕ → List ℕ → FieldScan
scan_value zero read rest = bad
scan_value (suc room) read [] = partial
scan_value (suc room) read (c ∷ []) = partial
scan_value (suc room) read (c ∷ d ∷ rest) =
    let further = scan_value room (read ++ c ∷ []) (d ∷ rest) in
    if c == 13 then field read (d ∷ rest) else if c == 0 then bad else further

-- `while (i > 0)` the last byte is blank: `i--`
unfoldable pub trim_blanks : List ℕ → List ℕ
trim_blanks [] = []
trim_blanks (c ∷ rest) =
    let kept = trim_blanks rest in
    elim kept [ [] ↦ (if is_blank c then [] else c ∷ []) | d ∷ more_kept ↦ c ∷ d ∷ more_kept ]

-- What one round of the outer loop comes to behind its second inner loop: the value so far and the
-- position behind the line end, where there is a byte to look at.
unfoldable pub end_value_line : FieldScan → FieldScan
end_value_line (field read (d ∷ c ∷ rest)) =
    if d == 10 then field (trim_blanks read) (c ∷ rest) else bad
end_value_line (field read (d ∷ [])) = if d == 10 then partial else bad
end_value_line (field read []) = partial
end_value_line scan = scan

-- The test `*ptr != ' ' || *ptr != '\t'` at which the outer loop breaks.
abbrev pub ends_value : List ℕ → Bool
ends_value ptr = not (get_or ptr 0 0 == 32) || not (get_or ptr 0 0 == 9)

abbrev drop_one : List ℕ → List ℕ
drop_one [] = []
drop_one (c ∷ rest) = rest

-- The outer loop; `fuel` bounds its rounds.
unfoldable pub value_loop : ℕ → List ℕ → List ℕ → FieldScan
value_loop zero read ptr = partial
value_loop (suc fuel) read ptr =
    elim (end_value_line (scan_value (header_value_max - length read) read (skip_blanks ptr))) [
      | bad ↦ bad
      | partial ↦ partial
      | field value rest ↦
          let folded = value_loop fuel (value ++ 32 ∷ []) (drop_one rest) in
          if ends_value rest then field value rest else folded
    ]

abbrev pub accept_value : ℕ → Ret × HttpParser → Ret × HttpParser
accept_value n (more, p) =
    (done, record p { header_offset = p.header_offset + n; header_state = header_name })
accept_value n (_, p) = (no_memory, p)

unfoldable pub take_value : List ℕ → FieldScan → HttpParser → Ret × HttpParser
take_value ptr bad p = (invalid, p)
take_value ptr partial p = (more, p)
take_value ptr (field value rest) p =
    accept_value (length ptr - length rest) (match_message_header p.namebuf value p)

unfoldable pub parse_header_value : List ℕ → HttpParser → Ret × HttpParser
parse_header_value ptr p = take_value ptr (value_loop (suc (length ptr)) [] ptr) p
