-- ===== src/Tests/Uri.antt =====
-- A URI parsed and copied, and a query split.
use demo_submodule.Prelude.{ℕ, ◌≡◌, refl, none, some, List, []}
use demo_submodule.Ctype.{codes}
use demo_submodule.Uri.{UriState, Part, ParsedUri, copy}
use demo_submodule.Uri.Copy.{IsCopy, copy-IsCopy}
use demo_submodule.Uri.Parse.Outcome.{Outcome}
use demo_submodule.Uri.Parse.Printed.{UriText, print_uri}
use demo_submodule.Uri.Query.{lookup, split_query, split_query_strict}
use demo_submodule.Uri.Query.First.{first_of, lookup-split_query}

abbrev empty_uri : ParsedUri
empty_uri = record { part = λ _. none; state = UriState.init; error = 0; memory = [] }

abbrev parsed_uri : ParsedUri
parsed_uri = record empty_uri {
  part = λ j. elim j [ Part.host ↦ some (codes "h") | _ ↦ none ];
  state = UriState.success;
}

abbrev address : List ℕ
address = codes "http://u@h:80/p?q=1#f"

-- Its parts, which print to it.
abbrev address_parts : UriText
address_parts = record {
  first = b'h';
  scheme_rest = codes "ttp";
  userinfo = some (codes "u");
  host = codes "h";
  port = some (codes "80");
  path = some (codes "p");
  query = some (codes "q=1");
  fragment = some (codes "f");
}

address_printed : print_uri address_parts ≡ address
address_printed = refl

copy-IsCopy_example : IsCopy parsed_uri empty_uri (copy parsed_uri empty_uri)
copy-IsCopy_example = copy-IsCopy parsed_uri empty_uri refl

lookup-split_query_example :
    lookup (codes "k") (split_query (codes "k=1&j=2&k=3"))
    ≡ first_of (lookup (codes "k") (split_query_strict (codes "k=1&j=2&k=3")))
lookup-split_query_example = lookup-split_query (codes "k=1&j=2&k=3") (codes "k")
