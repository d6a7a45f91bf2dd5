-- ===== src/Uri/Parse/Shape.antt =====
-- What a string looks like whose spans URIParser::parse finds.
use demo_submodule.Prelude.{
  ℕ, ◌+◌, ◌-◌, ◌≡◌, ◌≢◌, refl, ap, sym, ◌∙◌, Bool, true, false, not, ◌||◌, Option, none, some, List,
  [], ◌∷◌, ◌++◌, arith, ◌==◌, Bool-cases, Option-cases, inl, inr, if◌then◌else◌, length, take, drop,
  get_or, All, get_or-set_ne, drop_of_length,
}
use demo_submodule.Ctype.{isalpha}
use demo_submodule.Uri.{scheme}
use demo_submodule.Uri.Parse.{
  Spans, no_spans, set_span, scheme_end, at_authority, find_at, bracket_end, find_sep, Scan,
  scan_step, scan_loop, end_scan, after_bracket, parse_host, find_spans, slice, valid_char,
}
use demo_submodule.Uri.Parse.Classes.{is_allowed, valid_char_lem}
use demo_submodule.Uri.Parse.Segments.{part_of, part_of-set_span}
use demo_submodule.Uri.Parse.Found.{no_spans-HasSeven}

-- A scheme, with the text `text`, and `://`.
pub record HasScheme (str text : List ℕ) : Type 0 where
  pub first : ℕ
  pub rest : List ℕ
  pub tail : List ℕ
  pub whole : str ≡ first ∷ (rest ++ (b':' ∷ b'/' ∷ b'/' ∷ tail))
  pub letter : isalpha first ≡ true
  pub allowed : All (λ c. is_allowed scheme c ≡ true) rest
  pub text_eq : text ≡ first ∷ rest

record Split (cur : ℕ) (xs : List ℕ) : Type 0 where
  front : List ℕ
  back : List ℕ
  joined : xs ≡ front ++ back
  end_eq : scheme_end cur xs ≡ cur + length front
  clean : All (λ c. is_allowed scheme c ≡ true) front

scheme_end-Split : (cur : ℕ) (xs : List ℕ) → Split cur xs
unfolding scheme_end
scheme_end-Split cur [] = record {
  front = [];
  back = [];
  joined = refl;
  end_eq = omega arith;
  clean = tt;
}
scheme_end-Split cur (c ∷ xs) = elim (Bool-cases (valid_char scheme c)) [
  | inl h ↦
      let r = scheme_end-Split (cur + 1) xs in
      record {
        front = c ∷ r.front;
        back = r.back;
        joined = ap (λ w. c ∷ w) r.joined;
        end_eq = rw h (r.end_eq ∙ omega arith);
        clean = (sym (valid_char_lem scheme c) ∙ h, r.clean);
      }
  | inr h ↦ record {
    front = [];
    back = c ∷ xs;
    joined = refl;
    end_eq = rw h (omega arith);
    clean = tt;
  }
]

at_authority_inv :
    (xs : List ℕ) → at_authority xs ≡ true → (tail : List ℕ) × (xs ≡ b':' ∷ b'/' ∷ b'/' ∷ tail)
unfolding at_authority
at_authority_inv [] h = absurd (ground arith)
at_authority_inv (a ∷ []) h = absurd (ground arith)
at_authority_inv (a ∷ b ∷ []) h = absurd (ground arith)
at_authority_inv (a ∷ b ∷ c ∷ tail) h = (tail, ground arith)

-- The span of the scheme stays as it was set first.
abbrev SameScheme : List ℕ → Spans → Spans → Type 0
SameScheme str s s' = part_of str s' 0 ≡ part_of str s 0

some_injective : {s s' : Spans} → some s ≡ some s' → s ≡ s'
some_injective h = ground (arith, h)

if_some : (b : Bool) (s s' : Spans) → (if b then none else some s) ≡ some s' → s ≡ s'
if_some true s s' h = absurd (ground arith)
if_some false s s' h = some_injective h

if_some_lem :
    (b : Bool) (o : Option Spans) (s : Spans)
    → (if b then none else o) ≡ some s
    → (b ≡ false) × (o ≡ some s)
if_some_lem true o s h = absurd (ground arith)
if_some_lem false o s h = (refl, h)

-- From the authority on, by what the search for `@` finds.
abbrev host_at : List ℕ → ℕ → Spans → Option ℕ → Option Spans
host_at str begin s none = parse_host str begin begin s
host_at str begin s (some i) = parse_host str begin (i + 1) (set_span 1 begin i s)

module _ (str : List ℕ) where
  set_span-SameScheme : (k a b : ℕ) (s : Spans) → k ≢ 0 → SameScheme str s (set_span k a b s)
  unfolding set_span
  set_span-SameScheme k a b s h =
      rw (get_or-set_ne s.st k 0 a 0 h, get_or-set_ne s.ed k 0 b 0 h) refl

  scan_step-SameScheme : (cur c : ℕ) (s : Scan) → SameScheme str s.spans (scan_step cur c s).spans
  unfolding scan_step
  scan_step-SameScheme cur c s = elim (Option-cases (find_sep (4 - s.idx) s.idx c)) [
    | inl e ↦ rw (scan_step, e) refl
    | inr (i, e) ↦ elim (Bool-cases s.is_ipv6) [
      | inl v ↦ rw (scan_step, e, v) refl
      | inr v ↦
          rw (scan_step, e, v)
            (set_span-SameScheme (s.idx + 2) s.last cur s.spans (λ z. absurd (omega (arith, z))))
    ]
  ]

  scan_loop-SameScheme :
      (cur : ℕ) (xs : List ℕ) (s : Scan) → SameScheme str s.spans (scan_loop cur xs s).1.spans
  unfolding scan_loop
  scan_loop-SameScheme cur [] s = refl
  scan_loop-SameScheme cur (c ∷ xs) s =
      scan_loop-SameScheme (cur + 1) xs (scan_step cur c s) ∙ scan_step-SameScheme cur c s

  end_scan-SameScheme : (r : ℕ × Scan) → SameScheme str r.1.spans (end_scan r)
  unfolding end_scan
  end_scan-SameScheme (cur, s) =
      ground
        (arith, set_span-SameScheme (s.idx + 2) s.last cur s.spans (λ z. absurd (omega (arith, z))))

  scan-SameScheme :
      (cur : ℕ) (xs : List ℕ) (s : Scan) → SameScheme str s.spans (end_scan (scan_loop cur xs s))
  scan-SameScheme cur xs s =
      end_scan-SameScheme (scan_loop cur xs s) ∙ scan_loop-SameScheme cur xs s

  parse_host-SameScheme :
      (begin cur : ℕ) (s s' : Spans) → parse_host str begin cur s ≡ some s' → SameScheme str s s'
  unfolding parse_host
  parse_host-SameScheme begin cur s s' h = elim (Bool-cases (get_or str cur 0 == b'[')) [
    | inl b ↦
        let close = bracket_end (cur + 1) (drop (cur + 1) str) in
        let s1 = set_span 2 (cur + 1) close s in
        let e =
          if_some (not (get_or str close 0 == b']') || not (after_bracket (drop (close + 1) str)))
            (end_scan (
              scan_loop (close + 1) (drop (close + 1) str)
                (record { spans = s1; last = begin; idx = 0; is_ipv6 = true })))
            s' (rw b at h) in
        ap (λ w. part_of str w 0) (sym e)
        ∙ scan-SameScheme (close + 1) (drop (close + 1) str)
            (record { spans = s1; last = begin; idx = 0; is_ipv6 = true })
        ∙ set_span-SameScheme 2 (cur + 1) close s (omega arith)
    | inr b ↦
        ap (λ w. part_of str w 0) (sym (some_injective (rw b at h)))
        ∙ scan-SameScheme cur (drop cur str)
            (record { spans = s; last = cur; idx = 0; is_ipv6 = false })
  ]

from_authority-SameScheme :
    (str : List ℕ) (begin : ℕ) (o : Option ℕ) (s s' : Spans)
    → host_at str begin s o ≡ some s'
    → SameScheme str s s'
from_authority-SameScheme str begin none s s' h = parse_host-SameScheme str begin begin s s' h
from_authority-SameScheme str begin (some i) s s' h =
    parse_host-SameScheme str begin (i + 1) (set_span 1 begin i s) s' h
    ∙ set_span-SameScheme str 1 begin i s (omega arith)

take_all : (xs ys : List ℕ) → take (length xs) (xs ++ ys) ≡ xs
take_all [] ys = refl
take_all (x ∷ xs) ys = ap (λ w. x ∷ w) (take_all xs ys)

-- A string whose spans are found has a scheme, which is what stands in the first span.
pub find_spans-HasScheme :
    (str : List ℕ) (s : Spans) → find_spans str ≡ some s → HasScheme str (slice str s scheme)
unfolding find_spans slice
find_spans-HasScheme [] s h = absurd (ground arith)
find_spans-HasScheme (c ∷ rest) s h =
    let str = c ∷ rest in
    let r = scheme_end-Split 1 rest in
    let close = scheme_end 1 rest in
    let inner = find_at (close + 3) (drop (close + 3) str) in
    let s0 = set_span 0 0 close no_spans in
    let (good, e) =
      if_some_lem (not (isalpha c) || not (at_authority (drop close str)))
        (host_at str (close + 3) s0 inner) s h in
    let whole : str ≡ (c ∷ r.front) ++ r.back = ap (λ w. c ∷ w) r.joined in
    let size : close ≡ length (c ∷ r.front) = omega (arith, r.end_eq) in
    let cut : close - 0 ≡ length (c ∷ r.front) = omega (arith, size) in
    let behind : drop close str ≡ r.back =
      ap (λ n. drop n str) size
      ∙ ap (drop (length (c ∷ r.front))) whole
      ∙ drop_of_length (c ∷ r.front) r.back in
    let authority : at_authority r.back ≡ true = ground (arith, good, ap at_authority behind) in
    let (tail, t) = at_authority_inv r.back authority in
    record {
      first = c;
      rest = r.front;
      tail = tail;
      whole = whole ∙ ap (λ w. c ∷ (r.front ++ w)) t;
      letter = ground (arith, good);
      allowed = r.clean;
      text_eq =
          from_authority-SameScheme str (close + 3) inner s0 s e
          ∙ part_of-set_span str no_spans 0 0 0 close no_spans-HasSeven (omega arith)
          ∙ ap (λ n. take n str) cut
          ∙ ap (take (length (c ∷ r.front))) whole
          ∙ take_all (c ∷ r.front) r.back;
    }
