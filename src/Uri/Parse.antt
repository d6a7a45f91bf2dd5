-- ===== src/Uri/Parse.antt =====
-- URIParser::parse of workflow-step-by-step/src/util/URIParser.cc. A C string is the list of its
-- bytes before the NUL. A loop over the string recurs on what is left of it, with the index `cur`.
pub mod Classes
pub mod Stored
pub mod Segments
pub mod Scanned
pub mod Printed
pub mod Found
pub mod Texts
pub mod RoundTrip
pub mod Shape
pub mod Outcome
use demo_submodule.Prelude.{
  ℕ, zero, suc, ◌+◌, ◌-◌, ◌/◌, ◌%◌, ◌^◌, Bool, true, false, ◌&&◌, ◌||◌, not, Option, none, some,
  List, [], ◌∷◌, ltb, ◌==◌, if◌then◌else◌, get_or, set, take, drop, replicate,
}
use demo_submodule.Ctype.{isalpha}
use demo_submodule.Strings.Codec.{url_decode}
use demo_submodule.Uri.{
  ParsedUri, Part, scheme, userinfo, host, port, path, query, fragment, set_part, granted, later,
  enomem, parts,
}
use demo_submodule.Uri.{UriState}

-- The row of `valid_char` for each part, the bit c for the byte c.
abbrev pub valid_mask : Part → ℕ
valid_mask scheme = 0x7fffffe07fffffe03ff680000000000
valid_mask userinfo = 0x47fffffe87fffffe2fff7ff200000000
valid_mask host = 0x47fffffe87fffffe2fff7ff200000000
valid_mask port = 0x3ff000000000000
valid_mask path = 0x47fffffe87ffffff2ffffff200000000
valid_mask query = 0x47fffffe87ffffffaffffff200000000
valid_mask fragment = 0x47fffffe87ffffffaffffff200000000

pub valid_char : Part → ℕ → Bool
valid_char i c = (valid_mask i / 2 ^ c) % 2 == 1

-- The position of each part in the arrays `st` and `ed`.
abbrev pub index : Part → ℕ
index scheme = 0
index userinfo = 1
index host = 2
index port = 3
index path = 4
index query = 5
index fragment = 6

pub record Spans : Type 0 where
  pub st : List ℕ
  pub ed : List ℕ

abbrev pub no_spans : Spans
no_spans = record { st = replicate 7 0; ed = replicate 7 0 }

pub set_span : ℕ → ℕ → ℕ → Spans → Spans
set_span i first last s = record { st = set s.st i first; ed = set s.ed i last }

-- `while (valid_char[0][str[cur]]) cur++`
pub scheme_end : ℕ → List ℕ → ℕ
scheme_end cur [] = cur
scheme_end cur (c ∷ str) = if valid_char scheme c then scheme_end (cur + 1) str else cur

-- `str[cur] == ':' && str[cur + 1] == '/' && str[cur + 2] == '/'`
pub at_authority : List ℕ → Bool
at_authority (a ∷ b ∷ c ∷ rest) = a == b':' && b == b'/' && c == b'/'
at_authority _ = false

-- The loop that looks for `@`, to the end of the string.
pub find_at : ℕ → List ℕ → Option ℕ
find_at i [] = none
find_at i (c ∷ str) = if c == b'@' then some i else find_at (i + 1) str

-- `while (str[cur] && str[cur] != ']') cur++`
pub bracket_end : ℕ → List ℕ → ℕ
bracket_end cur [] = cur
bracket_end cur (c ∷ str) = if c == b']' then cur else bracket_end (cur + 1) str

abbrev pub sep : ℕ → ℕ
sep i = if i == 0 then b':' else if i == 1 then b'/' else if i == 2 then b'?' else b'#'

-- The loop `for (int i = idx; i < 4; i++)`: the first separator from `idx` on that the byte is.
pub find_sep : ℕ → ℕ → ℕ → Option ℕ
find_sep zero i c = none
find_sep (suc n) i c = if c == sep i then some i else find_sep n (i + 1) c

-- The variables of the last loop.
pub record Scan : Type 0 where
  pub spans : Spans
  pub last : ℕ
  pub idx : ℕ
  pub is_ipv6 : Bool

-- Its body at the byte `c`, which stands at `cur`.
pub scan_step : ℕ → ℕ → Scan → Scan
scan_step cur c s = elim (find_sep (4 - s.idx) s.idx c) [
  | none ↦ s
  | some i ↦ record {
    spans = if s.is_ipv6 then s.spans else set_span (s.idx + 2) s.last cur s.spans;
    last = if sep i == b'/' then cur else cur + 1;
    idx = i + 1;
    is_ipv6 = false;
  }
]

pub scan_loop : ℕ → List ℕ → Scan → ℕ × Scan
scan_loop cur [] s = (cur, s)
scan_loop cur (c ∷ str) s = scan_loop (cur + 1) str (scan_step cur c s)

-- `if (cur > last && !is_ipv6)`: the part that the string ends in.
pub end_scan : ℕ × Scan → Spans
end_scan (cur, s) =
    if ltb s.last cur && not s.is_ipv6 then set_span (s.idx + 2) s.last cur s.spans else s.spans

-- Whether the byte behind an IPv6 address, if there is one, is a separator.
abbrev pub after_bracket : List ℕ → Bool
after_bracket [] = true
after_bracket (c ∷ rest) = c == b':' || c == b'/' || c == b'?' || c == b'#'

-- From the host on: the spans, or `none` for the return value -1. `begin` is the value that `last`
-- has before the branch.
pub parse_host : List ℕ → ℕ → ℕ → Spans → Option Spans
parse_host str begin cur s =
    if get_or str cur 0 == b'['
    then (let close = bracket_end (cur + 1) (drop (cur + 1) str) in
        let s' = set_span 2 (cur + 1) close s in
        if not (get_or str close 0 == b']') || not (after_bracket (drop (close + 1) str))
        then none
        else some (
            end_scan (
              scan_loop (close + 1) (drop (close + 1) str)
                (record { spans = s'; last = begin; idx = 0; is_ipv6 = true }))))
    else some (
        end_scan (
          scan_loop cur (drop cur str)
            (record { spans = s; last = cur; idx = 0; is_ipv6 = false })))

-- The spans of the parts of a string.
pub find_spans : List ℕ → Option Spans
find_spans [] = none
find_spans (c ∷ rest) =
    let str = c ∷ rest in
    let close = scheme_end 1 rest in
    let begin = close + 3 in
    let s = set_span 0 0 close no_spans in
    if not (isalpha c) || not (at_authority (drop close str))
    then none
    else elim (find_at begin (drop begin str)) [
      | none ↦ parse_host str begin begin s
      | some i ↦ parse_host str begin (i + 1) (set_span 1 begin i s)
    ]

-- The bytes of a part.
pub slice : List ℕ → Spans → Part → List ℕ
slice str s i =
    let first = get_or s.st (index i) 0 in take (get_or s.ed (index i) 0 - first) (drop first str)

pub all_valid : Part → List ℕ → Bool
all_valid i [] = true
all_valid i (c ∷ text) = if valid_char i c then all_valid i text else false

-- The check of all parts but the scheme.
pub check_parts : List ℕ → Spans → List Part → Bool
check_parts str s [] = true
check_parts str s (i ∷ rest) = if all_valid i (slice str s i) then check_parts str s rest else false

abbrev is_host : Part → Bool
is_host host = true
is_host _ = false

-- `%2F`, with which the name of a local socket starts.
abbrev pub is_local : List ℕ → Bool
is_local (a ∷ b ∷ c ∷ rest) = a == b'%' && b == b'2' && (c == b'F' || c == b'f')
is_local _ = false

pub decode_host : Part → List ℕ → List ℕ
decode_host i text = if is_host i && is_local text then url_decode text else text

-- One round of the loop that copies the parts; false for the return value -1.
pub store_part : Part → List ℕ → ParsedUri → Bool × ParsedUri
store_part i [] uri = (true, set_part i none uri)
store_part i (c ∷ text) uri =
    let uri' = record uri { memory = later uri.memory } in
    if granted uri.memory
    then (true, set_part i (some (decode_host i (c ∷ text))) uri')
    else (false, record (set_part i none uri') { state = UriState.error; error = enomem })

pub store_parts : List ℕ → Spans → List Part → ParsedUri → Bool × ParsedUri
store_parts str s [] uri = (true, record uri { state = UriState.success })
store_parts str s (i ∷ rest) uri =
    let (succ, uri') = store_part i (slice str s i) uri in
    let next = store_parts str s rest uri' in if succ then next else (false, uri')

abbrev pub checked_parts : List Part
checked_parts = userinfo ∷ host ∷ port ∷ path ∷ query ∷ fragment ∷ []

-- URIParser::parse; true is the return value 0.
pub parse : List ℕ → ParsedUri → Bool × ParsedUri
parse str uri =
    let uri' = record uri { state = UriState.invalid } in
    elim (find_spans str) [
      | none ↦ (false, uri')
      | some s ↦
          if check_parts str s checked_parts then store_parts str s parts uri' else (false, uri')
    ]
