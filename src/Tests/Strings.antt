-- ===== src/Tests/Strings.antt =====
-- Strings encoded, decoded, split and stripped.
use demo_submodule.Prelude.{ℕ, ◌≡◌, List, [], ◌∷◌, ◌++◌, arith}
use demo_submodule.Ctype.{codes}
use demo_submodule.Strings.Codec.{url_decode, url_encode_component}
use demo_submodule.Strings.Codec.RoundTrip.{url_decode-url_encode_component}

abbrev text : List ℕ
text = codes " a&b%/+~" ++ 200 ∷ []

abbrev csv : List ℕ
csv = codes "a,,bc,"

url_decode-url_encode_component_example : url_decode (url_encode_component text) ≡ text
url_decode-url_encode_component_example = url_decode-url_encode_component text (ground arith)
