-- ===== src/HttpParser/Header/Frame.antt =====
-- What http_parser_add_header touches.
use demo_submodule.Prelude.{List, ℕ, arith}
use demo_submodule.HttpParser.{HttpParser}
use demo_submodule.HttpParser.Frame.{SamePlace}
use demo_submodule.HttpParser.Header.{add_header}

pub add_header-same :
    (name value : List ℕ) (p : HttpParser) → SamePlace p (add_header name value p).1
unfolding add_header
add_header-same name value p = ground arith
