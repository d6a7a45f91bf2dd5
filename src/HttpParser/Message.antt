-- ===== src/HttpParser/Message.antt =====
-- The loop over the header of a message, __parse_message_header of
-- workflow-step-by-step/src/protocol/http_parser.c.
pub mod Total
use demo_submodule.Prelude.{
  ℕ, zero, suc, Bool, false, Option, none, some, List, drop, length, if◌then◌else◌,
}
use demo_submodule.HttpParser.{
  HttpParser, HeaderState, start_line, header_name, header_value, header_complete, Ret, done,
  header_complete_p,
}
use demo_submodule.HttpParser.StartLine.{parse_start_line}
use demo_submodule.HttpParser.Field.{parse_header_name, parse_header_value}

-- The body of the loop up to its test.
unfoldable pub header_step : HeaderState → List ℕ → HttpParser → Ret × HttpParser
header_step start_line ptr p = parse_start_line ptr p
header_step header_value ptr p = parse_header_value ptr p
header_step _ ptr p = parse_header_name ptr p

-- `if (header_state == HPS_HEADER_COMPLETE) return 1`, which stands behind the name alone.
abbrev pub left : HeaderState → HttpParser → Bool
left header_name p = header_complete_p p
left header_complete p = header_complete_p p
left _ p = false

-- The do-while loop. The fuel bounds its rounds; `none` means that it ran out.
unfoldable pub header_loop : ℕ → List ℕ → HttpParser → Option (Ret × HttpParser)
header_loop zero message p = none
header_loop (suc fuel) message p =
    let (ret, p') = header_step p.header_state (drop p.header_offset message) p in
    let again = header_loop fuel message p' in
    if left p.header_state p'
    then some (done, p')
    else elim ret [ done ↦ again | other ↦ some (other, p') ]

-- Every round but the last reads at least one byte.
unfoldable pub parse_message_header : List ℕ → HttpParser → Option (Ret × HttpParser)
parse_message_header message p = header_loop (suc (length message)) message p
