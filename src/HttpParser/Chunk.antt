-- ===== src/HttpParser/Chunk.antt =====
-- The body of a chunked message: __parse_chunk_data, __parse_trailer_part and __parse_chunk of
-- workflow-step-by-step/src/protocol/http_parser.c.
pub mod Total
use demo_submodule.Prelude.{
  ℕ, zero, suc, ◌+◌, ◌-◌, ◌*◌, Bool, true, false, Option, none, some, List, [], ltb, ◌==◌,
  if◌then◌else◌, length, drop,
}
use demo_submodule.Cstring.{strtol16}
use demo_submodule.HttpParser.{
  HttpParser, ChunkState, chunk_data, trailer_part, chunk_complete, Ret, invalid, more, done,
}
use demo_submodule.HttpParser.StartLine.{LineScan, bad, partial, line, scan_line}

abbrev pub chunk_line_max : ℕ
chunk_line_max = 1024

abbrev pub trailer_line_max : ℕ
trailer_line_max = 8192

abbrev pub chunk_size_max : ℕ
chunk_size_max = 2 * 1024 * 1024 * 1024 - chunk_line_max - 4

-- What follows `strtol`, for a chunk line of `i` bytes among `len`.
pub take_chunk : ℕ → ℕ → Option ℕ → HttpParser → Ret × HttpParser
take_chunk i len none p = (invalid, p)
take_chunk i len (some chunk_size) p =
    if chunk_size == 0
    then (done, record p { chunk_state = trailer_part; chunk_offset = p.chunk_offset + (i + 2) })
    else if ltb chunk_size chunk_size_max
    then (if ltb len (chunk_size + (i + 4))
        then (more, p)
        else (done, record p { chunk_offset = p.chunk_offset + (chunk_size + (i + 4)) }))
    else (invalid, p)

pub take_chunk_line : ℕ → LineScan → HttpParser → Ret × HttpParser
take_chunk_line len bad p = (invalid, p)
take_chunk_line len partial p = (more, p)
take_chunk_line len (line text) p = take_chunk (length text) len (strtol16 text) p

pub parse_chunk_data : List ℕ → HttpParser → Ret × HttpParser
parse_chunk_data ptr p = take_chunk_line (length ptr) (scan_line false chunk_line_max [] ptr) p

pub take_trailer_line : LineScan → HttpParser → Ret × HttpParser
take_trailer_line bad p = (invalid, p)
take_trailer_line partial p = (more, p)
take_trailer_line (line text) p = (
  done,
  record p {
    chunk_offset = p.chunk_offset + (length text + 2);
    chunk_state = if length text == 0 then chunk_complete else p.chunk_state;
  },
)

pub parse_trailer_part : List ℕ → HttpParser → Ret × HttpParser
parse_trailer_part ptr p = take_trailer_line (scan_line false trailer_line_max [] ptr) p

-- The body of the loop up to its test.
pub chunk_step : ChunkState → List ℕ → HttpParser → Ret × HttpParser
chunk_step chunk_data ptr p = parse_chunk_data ptr p
chunk_step _ ptr p = parse_trailer_part ptr p

abbrev pub is_chunk_complete : ChunkState → Bool
is_chunk_complete chunk_complete = true
is_chunk_complete _ = false

-- `if (chunk_state == CPS_CHUNK_COMPLETE) return 1`, which stands behind the trailer alone.
abbrev pub left : ChunkState → HttpParser → Bool
left chunk_data p = false
left _ p = is_chunk_complete p.chunk_state

-- The do-while loop. The fuel bounds its rounds; `none` means that it ran out.
pub chunk_loop : ℕ → List ℕ → HttpParser → Option (Ret × HttpParser)
chunk_loop zero message p = none
chunk_loop (suc fuel) message p =
    let (ret, p') = chunk_step p.chunk_state (drop p.chunk_offset message) p in
    let again = chunk_loop fuel message p' in
    if left p.chunk_state p'
    then some (done, p')
    else elim ret [ done ↦ again | other ↦ some (other, p') ]

-- Every round but the last reads at least two bytes.
pub parse_chunk : List ℕ → HttpParser → Option (Ret × HttpParser)
parse_chunk message p = chunk_loop (suc (length message)) message p
