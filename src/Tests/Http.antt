-- ===== src/Tests/Http.antt =====
-- A request with a body, and the parsers before and after it.
use demo_submodule.Prelude.{
  ℕ, ◌≡◌, refl, true, false, none, some, List, [], ◌∷◌, ◌++◌, arith, length, All,
}
use demo_submodule.Ctype.{codes}
use demo_submodule.Cstring.{
  strncasecmp, strcasecmp, atoi, decimal, skip_space, strchr, strcmp, has_prefix,
}
use demo_submodule.HttpParser.{
  HttpParser, init, start_line, more, header_complete, chunk_data, done, header_complete_p,
  is_complete, set_method, set_uri, set_version,
}
use demo_submodule.HttpParser.Field.{
  parse_header_name, parse_header_value, match_message_header, value_loop, end_value_line,
  scan_value, skip_blanks, match_content_length, match_field, scan_name, take_name, trim_blanks,
  take_value,
}
use demo_submodule.HttpParser.Message.{parse_message_header, header_step, header_loop}
use demo_submodule.HttpParser.Message.Total.{parse_message_header-Answers, Answers}
use demo_submodule.HttpParser.Chunk.{parse_chunk}
use demo_submodule.HttpParser.Chunk.Total.{parse_chunk-Answers, Answers as ChunkAnswers}
use demo_submodule.HttpParser.Append.{
  append_message, get_body, double_until, new_size, reserve, store, complete_at, total, append_body,
  start_body, append_stored,
}
use demo_submodule.HttpParser.Append.Body.{IsReceiving}
use demo_submodule.HttpParser.Append.Calls.{
  Receives, append_message-Receives, get_body-append_message,
}
use demo_submodule.HttpParser.StartLine.{
  scan_line, split_line, is_old, match_request_line, has_no_body, match_start_line, starts_crlf,
  take_start_line, parse_start_line,
}
use demo_submodule.HttpParser.Header.{add_header}
use demo_submodule.HttpParser.Header.{set_header, set_loop, same_name, cursor_init, cursor_find}
use demo_submodule.HttpParser.Header.Lookup.{HasRoom, cursor_find-set_header}

abbrev crlf : List ℕ
crlf = 13 ∷ 10 ∷ []

abbrev request : List ℕ
request =
    codes "POST /a HTTP/1.1"
    ++ (crlf ++ (codes "Content-Length: 2" ++ (crlf ++ (crlf ++ codes "hiGET"))))

-- The memory of a parser before `init`.
abbrev memory : HttpParser
memory = record {
  header_state = start_line;
  chunk_state = chunk_data;
  header_offset = 0;
  chunk_offset = 0;
  content_length = 0;
  transfer_length = 0;
  version = none;
  method = none;
  uri = none;
  code = none;
  phrase = none;
  header_list = [];
  namebuf = [];
  msgbuf = [];
  msgsize = 0;
  bufsize = 0;
  expect_continue = false;
  keep_alive = false;
  chunked = false;
  complete = false;
  is_resp = false;
  memory = [];
}

abbrev fresh_parser : HttpParser
fresh_parser = init false memory

fresh_parser-IsReceiving : IsReceiving fresh_parser
unfolding init
fresh_parser-IsReceiving = record {
  stored = refl;
  header = omega arith;
  chunks = λ _ _. omega arith;
  incomplete = refl;
}

append_message-Receives_example :
    Receives request fresh_parser (append_message request fresh_parser)
unfolding init
append_message-Receives_example =
    append_message-Receives request fresh_parser fresh_parser-IsReceiving (omega arith)

abbrev answered : HttpParser
answered = record fresh_parser {
  header_state = header_complete;
  header_offset = 39;
  content_length = 2;
  transfer_length = 2;
  version = some (codes "HTTP/1.1");
  method = some (codes "POST");
  uri = some (codes "/a");
  header_list =
      record { name_len = 14; value_len = 1; buf = codes "Content-Length: 2" ++ crlf } ∷ [];
  namebuf = codes "Content-Length";
  msgbuf = request;
  msgsize = 41;
  bufsize = 2048;
  complete = true;
}

received : append_message request fresh_parser ≡ some (done, 41, answered)
unfolding init double_until new_size reserve store complete_at total append_body start_body
    append_stored append_message get_body header_step header_loop parse_message_header scan_line
    split_line is_old match_request_line has_no_body match_start_line starts_crlf take_start_line
    parse_start_line match_content_length match_field match_message_header scan_name take_name
    parse_header_name skip_blanks scan_value trim_blanks end_value_line value_loop take_value
    parse_header_value add_header header_complete_p is_complete set_method set_uri set_version
    strcasecmp atoi decimal skip_space strchr strcmp has_prefix
received = refl

get_body-append_message_example :
    (length (codes "hi") ≡ 2) × (get_body answered ≡ some (codes "hi", 2))
unfolding init
get_body-append_message_example =
    get_body-append_message request fresh_parser answered 41 fresh_parser-IsReceiving (omega arith)
      received (omega arith) (omega arith)

parse_message_header-Answers_example :
    Answers request fresh_parser (parse_message_header request fresh_parser)
unfolding init
parse_message_header-Answers_example =
    parse_message_header-Answers request fresh_parser (omega arith)

abbrev chunks : List ℕ
chunks = codes "2" ++ (crlf ++ (codes "hi" ++ (crlf ++ (codes "0" ++ (crlf ++ crlf)))))

parse_chunk-Answers_example : ChunkAnswers chunks fresh_parser (parse_chunk chunks fresh_parser)
unfolding init
parse_chunk-Answers_example = parse_chunk-Answers chunks fresh_parser (omega arith)

abbrev host : List ℕ
host = codes "Host"

set_succeeds : (set_header (codes "content-length") (codes "10") answered).0 ≡ more
unfolding init set_header set_loop same_name strncasecmp
set_succeeds = refl

-- A value that is longer than the one of the line with that name.
cursor_find-set_header_example :
    ((cursor_find
        (codes "content-length")
        (cursor_init (set_header (codes "content-length") (codes "10") answered).1)).0
      ≡ some (codes "10"))
    × All HasRoom (set_header (codes "content-length") (codes "10") answered).1.header_list
unfolding init
cursor_find-set_header_example =
    cursor_find-set_header (codes "content-length") (codes "10") answered (ground arith)
      set_succeeds
