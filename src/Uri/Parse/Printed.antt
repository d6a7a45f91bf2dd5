-- ===== src/Uri/Parse/Printed.antt =====
-- URIs as they are written, scheme://userinfo@host:port/path?query#fragment, and their parts.
use demo_submodule.Prelude.{
  ℕ, ◌+◌, ◌≤◌, ◌<◌, ◌≡◌, ◌≢◌, ◌∙◌, false, refl, true, Option, none, some, List, [], ◌∷◌, ◌++◌,
  arith, ◌==◌, All,
}
use demo_submodule.Ctype.{isalpha}
use demo_submodule.Uri.{Part, scheme, userinfo, host, port, path, query, fragment}
use demo_submodule.Uri.Parse.{find_sep}
use demo_submodule.Uri.Parse.Classes.{is_allowed}
use demo_submodule.Uri.Parse.Segments.{
  Segments, print_segments, segment_text, text_at, NoSep, InOrder,
}

-- The parts that may be missing are options. The scheme is its first byte and the others; the path
-- is what stands behind its first slash.
pub record UriText : Type 0 where
  pub first : ℕ
  pub scheme_rest : List ℕ
  pub userinfo : Option (List ℕ)
  pub host : List ℕ
  pub port : Option (List ℕ)
  pub path : Option (List ℕ)
  pub query : Option (List ℕ)
  pub fragment : Option (List ℕ)

abbrev pub segment : ℕ → Option (List ℕ) → Segments → Segments
segment i none rest = rest
segment i (some text) rest = (i, text) ∷ rest

-- What follows the host, each text with the number of its separator in `:/?#`.
abbrev pub segments : UriText → Segments
segments u = segment 0 u.port (segment 1 u.path (segment 2 u.query (segment 3 u.fragment [])))

abbrev pub print_userinfo : Option (List ℕ) → List ℕ → List ℕ
print_userinfo none rest = rest
print_userinfo (some text) rest = text ++ (b'@' ∷ rest)

abbrev pub from_host : UriText → List ℕ
from_host u = u.host ++ print_segments (segments u)

abbrev pub print_uri : UriText → List ℕ
print_uri u =
    u.first ∷ (u.scheme_rest ++ (b':' ∷ b'/' ∷ b'/' ∷ print_userinfo u.userinfo (from_host u)))

abbrev pub or_empty : Option (List ℕ) → List ℕ
or_empty none = []
or_empty (some text) = text

abbrev pub with_slash : Option (List ℕ) → List ℕ
with_slash none = []
with_slash (some text) = b'/' ∷ text

-- The text of each part.
abbrev pub text_of : UriText → Part → List ℕ
text_of u scheme = u.first ∷ u.scheme_rest
text_of u userinfo = or_empty u.userinfo
text_of u host = u.host
text_of u port = or_empty u.port
text_of u path = with_slash u.path
text_of u query = or_empty u.query
text_of u fragment = or_empty u.fragment

-- Each part holds characters that RFC 3986 allows there, and the scheme starts with a letter. The
-- code takes the first colon behind the userinfo for the end of the host, and the first `@` of the
-- string for the end of the userinfo.
pub record IsUri (u : UriText) : Type 0 where
  pub letter : isalpha u.first ≡ true
  pub allowed : (i : Part) → All (λ c. is_allowed i c ≡ true) (text_of u i)
  pub one_host : All (λ c. c ≢ b':') u.host
  pub no_at : u.userinfo ≡ none → All (λ c. c ≢ b'@') (from_host u)

pub All-map {ℓ κ μ} :
    {A : Type ℓ} {P : A → Type κ} {Q : A → Type μ} (xs : List A)
    → ((a : A) → P a → Q a)
    → All P xs
    → All Q xs
All-map [] f a = tt
All-map (x ∷ xs) f (h, a) = (f x h, All-map xs f a)

host_NoSep : (c : ℕ) → is_allowed host c ≡ true → c ≢ b':' → NoSep 0 c
unfolding find_sep
host_NoSep c h k = ground arith

port_NoSep : (c : ℕ) → is_allowed port c ≡ true → NoSep 1 c
unfolding find_sep
port_NoSep c h = ground arith

path_NoSep : (c : ℕ) → is_allowed path c ≡ true → NoSep 2 c
unfolding find_sep
path_NoSep c h = ground arith

query_NoSep : (c : ℕ) → is_allowed query c ≡ true → NoSep 3 c
unfolding find_sep
query_NoSep c h = ground arith

fragment_NoSep : (c : ℕ) → is_allowed fragment c ≡ true → NoSep 4 c
unfolding find_sep
fragment_NoSep c h = refl

both :
    (xs : List ℕ)
    → All (λ c. is_allowed host c ≡ true) xs
    → All (λ c. c ≢ b':') xs
    → All (NoSep 0) xs
both [] a b = tt
both (x ∷ xs) (h, a) (k, b) = (host_NoSep x h k, both xs a b)

pub host-NoSep : (u : UriText) → IsUri u → All (NoSep 0) u.host
host-NoSep u v = both u.host (v.allowed host) v.one_host

InOrder-lower : (idx j : ℕ) (segs : Segments) → idx ≤ j → InOrder j segs → InOrder idx segs
InOrder-lower idx j [] h o = tt
InOrder-lower idx j ((i, text) ∷ rest) h (le, small, clean, o) = (omega arith, small, clean, o)

InOrder-segment :
    (idx i : ℕ) (o : Option (List ℕ)) (rest : Segments)
    → idx ≤ i
    → i < 4
    → All (NoSep (i + 1)) (or_empty o)
    → InOrder (i + 1) rest
    → InOrder idx (segment i o rest)
InOrder-segment idx i none rest h k a o = InOrder-lower idx (i + 1) rest (omega arith) o
InOrder-segment idx i (some text) rest h k a o = (h, k, a, o)

behind_slash :
    (o : Option (List ℕ))
    → All (λ c. is_allowed path c ≡ true) (with_slash o)
    → All (NoSep 2) (or_empty o)
behind_slash none a = tt
behind_slash (some text) (_, a) = All-map text path_NoSep a

pub segments-InOrder : (u : UriText) → IsUri u → InOrder 0 (segments u)
segments-InOrder u v =
    let o3 =
      InOrder-segment 3 3 u.fragment [] (omega arith) (omega arith)
        (All-map (or_empty u.fragment) fragment_NoSep (v.allowed fragment)) tt in
    let o2 =
      InOrder-segment 2 2 u.query (segment 3 u.fragment []) (omega arith) (omega arith)
        (All-map (or_empty u.query) query_NoSep (v.allowed query)) o3 in
    let o1 =
      InOrder-segment 1 1 u.path (segment 2 u.query (segment 3 u.fragment [])) (omega arith)
        (omega arith) (behind_slash u.path (v.allowed path)) o2 in
    InOrder-segment 0 0 u.port (segment 1 u.path (segment 2 u.query (segment 3 u.fragment [])))
      (omega arith) (omega arith) (All-map (or_empty u.port) port_NoSep (v.allowed port)) o1

abbrev segment_text_of : ℕ → Option (List ℕ) → List ℕ
segment_text_of i none = []
segment_text_of i (some text) = segment_text i text

text_at-other :
    (k i : ℕ) (o : Option (List ℕ)) (rest : Segments)
    → (k == i + 3) ≡ false
    → text_at k (segment i o rest) ≡ text_at k rest
text_at-other k i none rest h = refl
text_at-other k i (some text) rest h = rw h refl

text_at-segment :
    (k i : ℕ) (o : Option (List ℕ)) (rest : Segments)
    → (k == i + 3) ≡ true
    → text_at k rest ≡ []
    → text_at k (segment i o rest) ≡ segment_text_of i o
text_at-segment k i none rest h e = e
text_at-segment k i (some text) rest h e = rw h refl

path_text : (o : Option (List ℕ)) → segment_text_of 1 o ≡ with_slash o
path_text none = refl
path_text (some text) = refl

plain_text : (i : ℕ) (o : Option (List ℕ)) → (i == 1) ≡ false → segment_text_of i o ≡ or_empty o
plain_text i none h = refl
plain_text i (some text) h = rw h refl

-- The texts of the parts behind the host, by their positions in the arrays.
pub text_at-segments :
    (u : UriText)
    → (text_at 3 (segments u) ≡ or_empty u.port)
      × (text_at 4 (segments u) ≡ with_slash u.path)
      × (text_at 5 (segments u) ≡ or_empty u.query)
      × (text_at 6 (segments u) ≡ or_empty u.fragment)
text_at-segments u =
    let s3 = segment 3 u.fragment [] in
    let s2 = segment 2 u.query s3 in
    let s1 = segment 1 u.path s2 in
    (
      text_at-segment 3 0 u.port s1 refl (
            text_at-other 3 1 u.path s2 refl
            ∙ text_at-other 3 2 u.query s3 refl
            ∙ text_at-other 3 3 u.fragment [] refl)
          ∙ plain_text 0 u.port refl,
      text_at-other 4 0 u.port s1 refl
          ∙ text_at-segment 4 1 u.path s2 refl
              (text_at-other 4 2 u.query s3 refl ∙ text_at-other 4 3 u.fragment [] refl)
          ∙ path_text u.path,
      text_at-other 5 0 u.port s1 refl
          ∙ text_at-other 5 1 u.path s2 refl
          ∙ text_at-segment 5 2 u.query s3 refl (text_at-other 5 3 u.fragment [] refl)
          ∙ plain_text 2 u.query refl,
      text_at-other 6 0 u.port s1 refl
          ∙ text_at-other 6 1 u.path s2 refl
          ∙ text_at-other 6 2 u.query s3 refl
          ∙ text_at-segment 6 3 u.fragment [] refl refl
          ∙ plain_text 3 u.fragment refl,
    )
