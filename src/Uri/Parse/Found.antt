-- ===== src/Uri/Parse/Found.antt =====
-- The spans that URIParser::parse finds in a URI that was printed.
use demo_submodule.Prelude.{
  ℕ, zero, suc, ◌+◌, ◌≡◌, ◌≢◌, refl, ap, sym, ◌∙◌, true, false, Option, none, some, List, [], ◌∷◌,
  ◌++◌, arith, ◌==◌, length, drop, get_or, replicate, All, length-append, append_assoc,
  drop_of_length,
}
use demo_submodule.Uri.{scheme, host}
use demo_submodule.Uri.Parse.{
  Spans, no_spans, set_span, scheme_end, at_authority, find_at, end_scan, scan_loop, parse_host,
  find_spans,
}
use demo_submodule.Uri.Parse.Classes.{is_allowed, valid_char_lem}
use demo_submodule.Uri.Parse.Segments.{part_of, Segments, print_segments, HasSeven}
use demo_submodule.Uri.Parse.Scanned.{scan_at}
use demo_submodule.Uri.Parse.Printed.{UriText, print_userinfo, from_host, print_uri, IsUri}

scheme_end_lem :
    (cur : ℕ) (xs ys : List ℕ)
    → All (λ c. is_allowed scheme c ≡ true) xs
    → scheme_end cur (xs ++ (b':' ∷ ys)) ≡ cur + length xs
unfolding scheme_end
scheme_end_lem cur [] ys a = rw (valid_char_lem scheme b':') (omega arith)
scheme_end_lem cur (x ∷ xs) ys (h, a) =
    rw (valid_char_lem scheme x ∙ h) (scheme_end_lem (cur + 1) xs ys a ∙ omega arith)

pub find_at-found :
    (i : ℕ) (xs ys : List ℕ)
    → All (λ c. c ≢ b'@') xs
    → find_at i (xs ++ (b'@' ∷ ys)) ≡ some (i + length xs)
unfolding find_at
find_at-found i [] ys a = ap some (omega arith)
find_at-found i (x ∷ xs) ys (h, a) =
    let other : (x == b'@') ≡ false = ground arith in
    rw other (find_at-found (i + 1) xs ys a ∙ ap some (omega arith))

pub find_at-none : (i : ℕ) (xs : List ℕ) → All (λ c. c ≢ b'@') xs → find_at i xs ≡ none
unfolding find_at
find_at-none i [] a = refl
find_at-none i (x ∷ xs) (h, a) =
    let other : (x == b'@') ≡ false = ground arith in rw other (find_at-none (i + 1) xs a)

get_or_of_length : (xs ys : List ℕ) (d : ℕ) → get_or (xs ++ ys) (length xs) d ≡ get_or ys 0 d
get_or_of_length [] ys d = refl
get_or_of_length (x ∷ xs) ys d = get_or_of_length xs ys d

no_bracket :
    (text : List ℕ) (segs : Segments)
    → All (λ c. is_allowed host c ≡ true) text
    → (get_or (text ++ print_segments segs) 0 0 == b'[') ≡ false
no_bracket [] [] a = refl
no_bracket [] ((i, t) ∷ rest) a = ground arith
no_bracket (c ∷ text) segs (h, a) = ground arith

pub parse_host_lem :
    (str before text : List ℕ) (segs : Segments) (begin cur : ℕ) (s : Spans)
    → str ≡ before ++ (text ++ print_segments segs)
    → cur ≡ length before
    → All (λ c. is_allowed host c ≡ true) text
    → parse_host str begin cur s
      ≡ some (
          end_scan
            (scan_loop (length before) (text ++ print_segments segs) (scan_at s (length before) 0)))
unfolding parse_host
parse_host_lem str before text segs begin cur s e k a =
    let tail = text ++ print_segments segs in
    let first : (get_or (before ++ tail) (length before) 0 == b'[') ≡ false =
      ap (λ c. c == b'[') (get_or_of_length before tail 0) ∙ no_bracket text segs a in
    rw (e, k, first, drop_of_length before tail) refl

get_or-zeros : (n k : ℕ) → get_or {A = ℕ} (replicate n 0) k 0 ≡ 0
get_or-zeros zero k = refl
get_or-zeros (suc n) zero = refl
get_or-zeros (suc n) (suc k) = get_or-zeros n k

pub part_of-no_spans : (str : List ℕ) (k : ℕ) → part_of str no_spans k ≡ []
part_of-no_spans str k = rw (get_or-zeros 7 k) refl

pub no_spans-HasSeven : HasSeven no_spans
no_spans-HasSeven = record { st = refl; ed = refl }

-- The string up to the authority.
abbrev pub opening : UriText → List ℕ
opening u = u.first ∷ (u.scheme_rest ++ (b':' ∷ b'/' ∷ b'/' ∷ []))

abbrev pub behind : UriText → List ℕ
behind u = print_userinfo u.userinfo (from_host u)

pub print_uri-opening : (u : UriText) → print_uri u ≡ opening u ++ behind u
print_uri-opening u =
    ap (λ w. u.first ∷ w) (sym (append_assoc u.scheme_rest (b':' ∷ b'/' ∷ b'/' ∷ []) (behind u)))

abbrev pub scheme_length : UriText → ℕ
scheme_length u = 1 + length u.scheme_rest

pub length-opening : (u : UriText) → length (opening u) ≡ scheme_length u + 3
length-opening u = omega (arith, length-append u.scheme_rest (b':' ∷ b'/' ∷ b'/' ∷ []))

abbrev pub scheme_span : UriText → Spans
scheme_span u = set_span 0 0 (scheme_length u) no_spans

-- From the authority on, by the userinfo.
abbrev pub from_authority : UriText → Option ℕ → Option Spans
from_authority u none =
    parse_host (print_uri u) (scheme_length u + 3) (scheme_length u + 3) (scheme_span u)
from_authority u (some i) =
    parse_host (print_uri u) (scheme_length u + 3) (i + 1)
      (set_span 1 (scheme_length u + 3) i (scheme_span u))

module _ (u : UriText) (v : IsUri u) where
  find_scheme : scheme_end 1 (u.scheme_rest ++ (b':' ∷ b'/' ∷ b'/' ∷ behind u)) ≡ scheme_length u
  find_scheme = scheme_end_lem 1 u.scheme_rest (b'/' ∷ b'/' ∷ behind u) (v.allowed scheme).1

  drop_scheme : drop (scheme_length u) (print_uri u) ≡ b':' ∷ b'/' ∷ b'/' ∷ behind u
  drop_scheme =
      let size : scheme_length u ≡ length (u.first ∷ u.scheme_rest) = omega arith in
      ap (λ n. drop n (print_uri u)) size
      ∙ drop_of_length (u.first ∷ u.scheme_rest) (b':' ∷ b'/' ∷ b'/' ∷ behind u)

  drop_opening : drop (scheme_length u + 3) (print_uri u) ≡ behind u
  drop_opening =
      ap (λ n. drop n (print_uri u)) (sym (length-opening u))
      ∙ ap (drop (length (opening u))) (print_uri-opening u)
      ∙ drop_of_length (opening u) (behind u)

  pub find_spans_lem :
      (o : Option ℕ)
      → find_at (scheme_length u + 3) (behind u) ≡ o
      → find_spans (print_uri u) ≡ from_authority u o
  unfolding find_spans at_authority
  find_spans_lem none e = rw (find_scheme, v.letter, drop_scheme, drop_opening, e, find_scheme) refl
  find_spans_lem (some i) e =
      rw (find_scheme, v.letter, drop_scheme, drop_opening, e, find_scheme) refl
