-- ===== src/HttpParser/Append.antt =====
-- The reception of a message: http_parser_append_message, http_parser_get_body and
-- http_parser_close_message of workflow-step-by-step/src/protocol/http_parser.c and
-- http_parser.h. `none` stands for a loop that runs out of fuel.
pub mod Room
pub mod Body
pub mod Received
pub mod Calls
use Prim.Native.Nat.{max}
use demo_submodule.Prelude.{
  ℕ, zero, suc, ◌+◌, ◌-◌, ◌*◌, ◌%◌, Bool, true, ◌&&◌, Option, none, some, List, ◌++◌, ltb, leb,
  ◌==◌, if◌then◌else◌, length, take, drop,
}
use demo_submodule.Cstring.{size_mod}
use demo_submodule.HttpParser.{
  HttpParser, chunk_data, Ret, no_memory, more, done, size_max, malloc, header_complete_p,
}
use demo_submodule.HttpParser.Message.{parse_message_header}
use demo_submodule.HttpParser.Chunk.{parse_chunk, is_chunk_complete}

abbrev pub msgbuf_init_size : ℕ
msgbuf_init_size = 2048

-- `while (new_size < needed) new_size *= 2`; as many rounds as bytes needed are enough.
unfoldable pub double_until : ℕ → ℕ → ℕ → ℕ
double_until zero needed new_size = new_size
double_until (suc fuel) needed new_size =
    let rest = double_until fuel needed (new_size * 2) in
    if ltb new_size needed then rest else new_size

unfoldable pub new_size : HttpParser → ℕ → ℕ
new_size p needed = double_until needed needed (max msgbuf_init_size (2 * p.bufsize))

-- Room for the message, the new bytes and a NUL.
unfoldable pub reserve : ℕ → HttpParser → Bool × HttpParser
reserve n p =
    let needed = p.msgsize + n + 1 in
    if ltb p.bufsize needed
    then (let (a, p') = malloc p in
        (a, if a then record p' { bufsize = new_size p needed } else p'))
    else (true, p)

-- memcpy(msgbuf + msgsize, buf, n)
unfoldable pub store : List ℕ → HttpParser → HttpParser
store buf p = record p { msgbuf = take p.msgsize p.msgbuf ++ buf; msgsize = p.msgsize + length buf }

-- What the call returns: the value, `*n`, and the parser.
abbrev pub Reply : Type 0
Reply = Option (Ret × ℕ × HttpParser)

-- `*n -= msgsize - total; msgsize = total; complete = 1; return 1`, in size_t arithmetic.
unfoldable pub complete_at : ℕ → ℕ → HttpParser → Reply
complete_at total n p = some (
  done,
  (n + size_mod - (p.msgsize + size_mod - total) % size_mod) % size_mod,
  record p { msgsize = total; complete = true },
)

unfoldable pub total : HttpParser → ℕ
total p = (p.header_offset + p.transfer_length) % size_mod

abbrev take_chunks : ℕ → Option (Ret × HttpParser) → Reply
take_chunks n none = none
take_chunks n (some (done, p)) = complete_at p.chunk_offset n p
take_chunks n (some (ret, p)) = some (ret, n, p)

-- From `if (transfer_length != (size_t)-1)` on.
unfoldable pub append_body : ℕ → HttpParser → Reply
append_body n p =
    if p.transfer_length == size_max
    then (if p.chunked
        then (if is_chunk_complete p.chunk_state
            then complete_at p.chunk_offset n p
            else take_chunks n (parse_chunk (take p.msgsize p.msgbuf) p))
        else some (more, n, p))
    else if leb (total p) p.msgsize
    then complete_at (total p) n p
    else some (more, n, p)

-- What is set when the header has been read whole.
unfoldable pub start_body : HttpParser → HttpParser
start_body p =
    if p.chunked
    then record p { chunk_offset = p.header_offset; chunk_state = chunk_data }
    else if p.transfer_length == size_max
    then record p { transfer_length = p.content_length }
    else p

abbrev take_header : ℕ → Option (Ret × HttpParser) → Reply
take_header n none = none
take_header n (some (done, p)) = append_body n (start_body p)
take_header n (some (ret, p)) = some (ret, n, p)

unfoldable pub append_stored : ℕ → HttpParser → Reply
append_stored n p =
    if header_complete_p p
    then append_body n p
    else take_header n (parse_message_header (take p.msgsize p.msgbuf) p)

unfoldable pub append_message : List ℕ → HttpParser → Reply
append_message buf p =
    let n = length buf in
    if p.complete
    then some (done, 0, p)
    else (let (a, p') = reserve n p in
        if a then append_stored n (store buf p') else some (no_memory, n, p'))

-- http_parser_get_body: the body and its size in size_t arithmetic, or `none` for the return
-- value 1. The code also stores a NUL at `msgsize`.
unfoldable pub get_body : HttpParser → Option (List ℕ × ℕ)
get_body p =
    if p.complete && header_complete_p p
    then (let size = (p.msgsize + size_mod - p.header_offset) % size_mod in
        some (take size (drop p.header_offset p.msgbuf), size))
    else none

pub close_message : HttpParser → HttpParser
close_message p = record p { complete = true }
