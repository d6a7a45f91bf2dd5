-- ===== src/HttpParser.antt =====
-- The state of the HTTP message parser, http_parser_t of
-- workflow-step-by-step/src/protocol/http_parser.h, with http_parser_init and the setters of
-- http_parser.c. A `size_t` is a number below 2^64, a `char *` an optional list of bytes.
-- `memory` is no field of the struct: it lists the outcomes of the coming allocations, and when
-- it is used up every allocation succeeds.
mod Frame
pub mod Header
pub mod StartLine
pub mod Field
pub mod Message
pub mod Chunk
pub mod Append
use demo_submodule.Prelude.{
  ℕ, ◌-◌, ◌^◌, Bool, true, false, Option, none, some, List, [], ◌∷◌, if◌then◌else◌,
}

pub data HeaderState : Type 0 where
  start_line header_name header_value header_complete : HeaderState

pub data ChunkState : Type 0 where
  chunk_data trailer_part chunk_complete : ChunkState

-- What the parsing functions return: -2, -1, 0 and 1.
pub data Ret : Type 0 where
  invalid no_memory more done : Ret

-- __header_line: `buf` is the whole allocation, which begins with the name.
pub record HeaderLine : Type 0 where
  pub name_len : ℕ
  pub value_len : ℕ
  pub buf : List ℕ

pub record HttpParser : Type 0 where
  pub header_state : HeaderState
  pub chunk_state : ChunkState
  pub header_offset : ℕ
  pub chunk_offset : ℕ
  pub content_length : ℕ
  pub transfer_length : ℕ
  pub version : Option (List ℕ)
  pub method : Option (List ℕ)
  pub uri : Option (List ℕ)
  pub code : Option (List ℕ)
  pub phrase : Option (List ℕ)
  pub header_list : List HeaderLine
  pub namebuf : List ℕ
  pub msgbuf : List ℕ
  pub msgsize : ℕ
  pub bufsize : ℕ
  pub expect_continue : Bool
  pub keep_alive : Bool
  pub chunked : Bool
  pub complete : Bool
  pub is_resp : Bool
  pub memory : List Bool

-- (size_t)-1
abbrev pub size_max : ℕ
size_max = 2 ^ 64 - 1

-- http_parser_init leaves `chunk_state`, `chunk_offset` and `namebuf` as they are.
unfoldable pub init : Bool → HttpParser → HttpParser
init is_resp p = record p {
  header_state = start_line;
  header_offset = 0;
  transfer_length = size_max;
  content_length = if is_resp then size_max else 0;
  version = none;
  method = none;
  uri = none;
  code = none;
  phrase = none;
  header_list = [];
  msgbuf = [];
  msgsize = 0;
  bufsize = 0;
  expect_continue = false;
  keep_alive = true;
  chunked = false;
  complete = false;
  is_resp = is_resp;
}

-- One allocation.
abbrev granted : List Bool → Bool
granted [] = true
granted (b ∷ bs) = b

abbrev later : List Bool → List Bool
later [] = []
later (b ∷ bs) = bs

abbrev pub malloc : HttpParser → Bool × HttpParser
malloc p = (granted p.memory, record p { memory = later p.memory })

-- `n` allocations in a row, given up at the first that fails.
abbrev pub malloc_two : HttpParser → Bool × HttpParser
malloc_two p = let (a, p') = malloc p in if a then malloc p' else (false, p')

abbrev pub malloc_three : HttpParser → Bool × HttpParser
malloc_three p = let (a, p') = malloc p in if a then malloc_two p' else (false, p')

abbrev pub result : Bool → Ret
result success = if success then more else no_memory

-- The setters return 0 or -1.
unfoldable pub set_method : List ℕ → HttpParser → Ret × HttpParser
set_method method p =
    let (a, p') = malloc p in (result a, if a then record p' { method = some method } else p')

unfoldable pub set_uri : List ℕ → HttpParser → Ret × HttpParser
set_uri uri p = let (a, p') = malloc p in (result a, if a then record p' { uri = some uri } else p')

unfoldable pub set_version : List ℕ → HttpParser → Ret × HttpParser
set_version version p =
    let (a, p') = malloc p in (result a, if a then record p' { version = some version } else p')

pub set_code : List ℕ → HttpParser → Ret × HttpParser
set_code code p =
    let (a, p') = malloc p in (result a, if a then record p' { code = some code } else p')

pub set_phrase : List ℕ → HttpParser → Ret × HttpParser
set_phrase phrase p =
    let (a, p') = malloc p in (result a, if a then record p' { phrase = some phrase } else p')

unfoldable pub is_complete : HeaderState → Bool
is_complete header_complete = true
is_complete _ = false

-- http_parser_header_complete
unfoldable pub header_complete_p : HttpParser → Bool
header_complete_p p = is_complete p.header_state
