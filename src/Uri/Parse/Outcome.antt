-- ===== src/Uri/Parse/Outcome.antt =====
-- What URIParser::parse returns and what it leaves in the state.
use demo_submodule.Prelude.{ℕ, ◌≡◌, ◌≢◌, ◌⊎◌, Bool, true, false, some, List, ◌++◌, All}
use demo_submodule.Uri.{ParsedUri, Part, UriState, scheme, enomem}
use demo_submodule.Uri.Copy.{member, all_granted}
use demo_submodule.Uri.Parse.{checked_parts}
use demo_submodule.Uri.Parse.Classes.{is_allowed}
use demo_submodule.Uri.Parse.Printed.{UriText, print_uri, IsUri}
use demo_submodule.Uri.Parse.Stored.{kept, Stored}
use demo_submodule.Uri.Parse.Shape.{HasScheme}

-- A part that was taken from the string: the text stands in it, holds characters that RFC 3986
-- allows in this part only, and is what the part has.
pub record Taken (str : List ℕ) (uri : ParsedUri) (i : Part) : Type 0 where
  pub before : List ℕ
  pub text : List ℕ
  pub after : List ℕ
  pub whole : str ≡ before ++ (text ++ after)
  pub allowed : All (λ c. is_allowed i c ≡ true) text
  pub part_eq : uri.part i ≡ kept i text

-- A URI that was parsed from the string: it starts with a letter, characters of a scheme and `://`,
-- and the other parts were taken from it.
pub record Parsed (str : List ℕ) (uri : ParsedUri) : Type 0 where
  pub scheme_text : List ℕ
  pub has_scheme : HasScheme str scheme_text
  pub scheme_part : uri.part scheme ≡ some scheme_text
  pub taken : (i : Part) → member i checked_parts ≡ true → Taken str uri i
  pub state : uri.state ≡ UriState.success

-- What `parse` comes to: success; refusal of a string that is not printed from a URI; or an
-- allocation that failed, of the seven at most that it makes.
abbrev pub Outcome : List ℕ → ParsedUri → Bool → ParsedUri → Type 0
Outcome str uri true r = Parsed str r
Outcome str uri false r =
    ((r.state ≡ UriState.invalid)
      × ((i : Part) → r.part i ≡ uri.part i)
      × ((u : UriText) → IsUri u → str ≢ print_uri u))
    ⊎ ((r.state ≡ UriState.error) × (r.error ≡ enomem) × (all_granted 7 uri.memory ≡ false))
