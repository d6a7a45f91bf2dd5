-- ===== src/Uri.antt =====
-- ParsedURI of workflow-step-by-step/src/util/URIParser.h and URIParser.cc: the parts of a URI,
-- each a `char *`, with its life cycle. `memory` is no field of the class: it lists the outcomes
-- of the coming allocations, and when it is used up every allocation succeeds.
pub mod Parse
pub mod Query
pub mod Copy
use demo_submodule.Prelude.{ℕ, Bool, true, false, Option, none, some, List, [], ◌∷◌, if◌then◌else◌}

pub data UriState : Type 0 where
  init success invalid error : UriState

pub data Part : Type 0 where
  scheme userinfo host port path query fragment : Part

pub record ParsedUri : Type 0 where
  pub part : Part → Option (List ℕ)
  pub state : UriState
  pub error : ℕ
  pub memory : List Bool

-- ENOMEM, the errno of a failed allocation.
abbrev pub enomem : ℕ
enomem = 12

pub same_part : Part → Part → Bool
same_part scheme scheme = true
same_part userinfo userinfo = true
same_part host host = true
same_part port port = true
same_part path path = true
same_part query query = true
same_part fragment fragment = true
same_part _ _ = false

pub set_part : Part → Option (List ℕ) → ParsedUri → ParsedUri
set_part i v uri = record uri { part = λ j. if same_part i j then v else uri.part j }

-- init(): every part NULL, URI_STATE_INIT, no error.
pub init_uri : ParsedUri → ParsedUri
init_uri uri = record uri { part = λ _. none; state = init; error = 0 }

-- deinit() frees every part and sets it to NULL.
pub deinit : ParsedUri → ParsedUri
deinit uri = record uri { part = λ _. none }

abbrev pub granted : List Bool → Bool
granted [] = true
granted (b ∷ bs) = b

abbrev pub later : List Bool → List Bool
later [] = []
later (b ∷ bs) = bs

-- The order in which __copy goes through the parts.
abbrev pub parts : List Part
parts = scheme ∷ userinfo ∷ host ∷ port ∷ path ∷ query ∷ fragment ∷ []

-- The strdup of each part that is there; false if one fails, which ends the chain.
pub copy_parts : List Part → ParsedUri → ParsedUri → Bool × ParsedUri
copy_parts [] source uri = (true, uri)
copy_parts (i ∷ rest) source uri = elim (source.part i) [
  | none ↦ copy_parts rest source uri
  | some text ↦
      let uri' = record uri { memory = later uri.memory } in
      let next = copy_parts rest source (set_part i (some text) uri') in
      if granted uri.memory then next else (false, uri')
]

abbrev pub is_success : UriState → Bool
is_success success = true
is_success _ = false

-- What follows the chain: if it failed, everything is given up again.
pub settle_copy : Bool × ParsedUri → ParsedUri
settle_copy (true, uri) = uri
settle_copy (false, uri) = record (init_uri (deinit uri)) { state = error; error = enomem }

abbrev pub start_copy : ParsedUri → ParsedUri → ParsedUri
start_copy source uri = record (init_uri uri) { state = source.state; error = source.error }

-- __copy
pub copy : ParsedUri → ParsedUri → ParsedUri
copy source uri =
    let settled = settle_copy (copy_parts parts source (start_copy source uri)) in
    if is_success source.state then settled else start_copy source uri

-- operator=(const ParsedURI&) of another object.
pub assign : ParsedUri → ParsedUri → ParsedUri
assign source uri = copy source (deinit uri)

-- __move: the new object, and what is left of the old one.
pub move : ParsedUri → ParsedUri → ParsedUri × ParsedUri
move source uri =
    (record uri { part = source.part; state = source.state; error = source.error }, init_uri source)
