-- ===== src/Uri/Parse/Texts.antt =====
-- The parts that URIParser::parse finds in a URI that was printed.
use mathlib.Core.Path.{subst}
use demo_submodule.Prelude.{
  ℕ, ◌+◌, ◌-◌, ◌≤◌, ◌≡◌, ◌≢◌, refl, ap, sym, ◌∙◌, true, none, some, List, [], ◌∷◌, ◌++◌, arith,
  ◌==◌, Option-cases, inl, inr, if◌then◌else◌, length, take, drop, All, length-append, append_assoc,
}
use demo_submodule.Uri.{Part, scheme, userinfo, host, port, path, query, fragment}
use demo_submodule.Uri.Parse.{
  Spans, no_spans, set_span, find_at, end_scan, scan_loop, parse_host, find_spans, slice,
}
use demo_submodule.Uri.Parse.Classes.{is_allowed}
use demo_submodule.Uri.Parse.Segments.{
  part_of, print_segments, cut_out, HasSeven, set_span-HasSeven, part_of-set_span,
}
use demo_submodule.Uri.Parse.Scanned.{scan_at, scanned, scan_loop-segments}
use demo_submodule.Uri.Parse.Printed.{
  UriText, segments, from_host, print_userinfo, print_uri, text_of, or_empty, IsUri, host-NoSep,
  segments-InOrder, text_at-segments, All-map,
}
use demo_submodule.Uri.Parse.Found.{
  parse_host_lem, find_at-found, find_at-none, part_of-no_spans, no_spans-HasSeven, opening, behind,
  print_uri-opening, scheme_length, length-opening, scheme_span, find_spans_lem,
}

pub record HasTexts (u : UriText) : Type 0 where
  pub spans : Spans
  pub found : find_spans (print_uri u) ≡ some spans
  pub texts : (i : Part) → slice (print_uri u) spans i ≡ text_of u i

-- The spans before the scan from the host on.
record BeforeHost (u : UriText) (s : Spans) : Type 0 where
  seven : HasSeven s
  scheme_part : part_of (print_uri u) s 0 ≡ text_of u scheme
  userinfo_part : part_of (print_uri u) s 1 ≡ text_of u userinfo
  clear : (k : ℕ) → 2 ≤ k → part_of (print_uri u) s k ≡ []

BeforeHost-HasTexts :
    (u : UriText) (before : List ℕ) (s : Spans) (begin cur : ℕ)
    → IsUri u
    → print_uri u ≡ before ++ from_host u
    → cur ≡ length before
    → BeforeHost u s
    → find_spans (print_uri u) ≡ parse_host (print_uri u) begin cur s
    → HasTexts u
unfolding slice
BeforeHost-HasTexts u before s begin cur v e k b f =
    let segs = segments u in
    let (p3, p4, p5, p6) = text_at-segments u in
    let result =
      end_scan
        (scan_loop (length before) (u.host ++ print_segments segs) (scan_at s (length before) 0)) in
    let at : (j : ℕ) → part_of (print_uri u) result j ≡ scanned (print_uri u) s 0 u.host segs j =
      scan_loop-segments (print_uri u) before u.host segs s 0 e (omega arith) (host-NoSep u v)
        (segments-InOrder u v) b.seven (λ j g. b.clear j (omega arith)) in
    record {
      spans = result;
      found = f ∙ parse_host_lem (print_uri u) before u.host segs begin cur s e k (v.allowed host);
      texts = λ i. elim i as (λ j. slice (print_uri u) result j ≡ text_of u j) [
        | scheme ↦ at 0 ∙ b.scheme_part
        | userinfo ↦ at 1 ∙ b.userinfo_part
        | host ↦ at 2
        | port ↦ at 3 ∙ p3
        | path ↦ at 4 ∙ p4
        | query ↦ at 5 ∙ p5
        | fragment ↦ at 6 ∙ p6
      ];
    }

scheme_cut :
    (u : UriText) → take (scheme_length u - 0) (drop 0 (print_uri u)) ≡ u.first ∷ u.scheme_rest
scheme_cut u =
    cut_out [] (u.first ∷ u.scheme_rest) (b':' ∷ b'/' ∷ b'/' ∷ behind u) 0 (scheme_length u) refl
      (omega arith)

scheme_span_lem :
    (u : UriText) (k : ℕ)
    → part_of (print_uri u) (scheme_span u) k ≡ (if k == 0 then u.first ∷ u.scheme_rest else [])
scheme_span_lem u k =
    part_of-set_span (print_uri u) no_spans 0 k 0 (scheme_length u) no_spans-HasSeven (omega arith)
    ∙ ground (arith, scheme_cut u, part_of-no_spans (print_uri u) k)

scheme_span-HasSeven : (u : UriText) → HasSeven (scheme_span u)
scheme_span-HasSeven u = set_span-HasSeven 0 0 (scheme_length u) no_spans no_spans-HasSeven

without_userinfo : (u : UriText) → IsUri u → u.userinfo ≡ none → HasTexts u
without_userinfo u v e =
    let same : behind u ≡ from_host u = ap (λ o. print_userinfo o (from_host u)) e in
    BeforeHost-HasTexts u (opening u) (scheme_span u) (scheme_length u + 3) (scheme_length u + 3) v
      (print_uri-opening u ∙ ap (λ w. opening u ++ w) same) (sym (length-opening u))
      (record {
        seven = scheme_span-HasSeven u;
        scheme_part = scheme_span_lem u 0;
        userinfo_part = scheme_span_lem u 1 ∙ sym (ap or_empty e);
        clear = λ k h. ground (arith, scheme_span_lem u k);
      })
      (find_spans_lem u v none (
        ap (find_at (scheme_length u + 3)) same
        ∙ find_at-none (scheme_length u + 3) (from_host u) (v.no_at e)))

userinfo_no_at : (c : ℕ) → is_allowed userinfo c ≡ true → c ≢ b'@'
userinfo_no_at c h k = ground arith

with_userinfo : (u : UriText) (text : List ℕ) → IsUri u → u.userinfo ≡ some text → HasTexts u
with_userinfo u text v e =
    let begin = scheme_length u + 3 in
    let close = begin + length text in
    let before = opening u ++ (text ++ b'@' ∷ []) in
    let s = set_span 1 begin close (scheme_span u) in
    let same : behind u ≡ text ++ (b'@' ∷ from_host u) =
      ap (λ o. print_userinfo o (from_host u)) e in
    let whole : print_uri u ≡ opening u ++ (text ++ (b'@' ∷ from_host u)) =
      print_uri-opening u ∙ ap (λ w. opening u ++ w) same in
    let cut : take (close - begin) (drop begin (print_uri u)) ≡ text =
      ap (λ w. take (close - begin) (drop begin w)) whole
      ∙ cut_out (opening u) text (b'@' ∷ from_host u) begin close (sym (length-opening u))
          (omega (arith, length-opening u)) in
    let parts : (k : ℕ)
        → part_of (print_uri u) s k
          ≡ (if 1 == k then text else part_of (print_uri u) (scheme_span u) k) =
      λ k.
        part_of-set_span (print_uri u) (scheme_span u) 1 k begin close (scheme_span-HasSeven u)
          (omega arith)
        ∙ ap (λ w. if 1 == k then w else part_of (print_uri u) (scheme_span u) k) cut in
    BeforeHost-HasTexts u before s begin (close + 1) v
      (whole
        ∙ sym (
            append_assoc (opening u) (text ++ b'@' ∷ []) (from_host u)
            ∙ ap (λ w. opening u ++ w) (append_assoc text (b'@' ∷ []) (from_host u))))
      (omega (
        arith,
        length-append (opening u) (text ++ b'@' ∷ []),
        length-append text (b'@' ∷ []),
        length-opening u,
      ))
      (record {
        seven = set_span-HasSeven 1 begin close (scheme_span u) (scheme_span-HasSeven u);
        scheme_part = parts 0 ∙ scheme_span_lem u 0;
        userinfo_part = parts 1 ∙ sym (ap or_empty e);
        clear = λ k h. ground (arith, parts k, scheme_span_lem u k);
      })
      (find_spans_lem u v (some close) (
        ap (find_at begin) same
        ∙ find_at-found begin text (from_host u) (
            All-map text userinfo_no_at (
              subst (λ o. All (λ c. is_allowed userinfo c ≡ true) (or_empty o)) e
                (v.allowed userinfo)))))

pub print_uri-HasTexts : (u : UriText) → IsUri u → HasTexts u
print_uri-HasTexts u v = elim (Option-cases u.userinfo) [
  | inl e ↦ without_userinfo u v e
  | inr (text, e) ↦ with_userinfo u text v e
]
