-- ===== src/Uri/Parse/Segments.antt =====
-- The last loop of URIParser::parse on a host and what follows it, each part behind its separator.
use demo_submodule.Prelude.{
  ℕ, zero, suc, ◌+◌, ◌-◌, ◌≤◌, ◌<◌, ◌≡◌, ◌≢◌, refl, ap, sym, ◌∙◌, none, some, List, [], ◌∷◌, ◌++◌,
  arith, ◌==◌, Bool-cases, inl, inr, if◌then◌else◌, length, take, drop, get_or, All, drop_of_length,
  get_or-set, length-set,
}
use demo_submodule.Uri.Parse.{Spans, set_span, sep, find_sep, Scan, scan_step, scan_loop}

-- The bytes of the part at the position `k` of the arrays.
abbrev pub part_of : List ℕ → Spans → ℕ → List ℕ
part_of str s k = take (get_or s.ed k 0 - get_or s.st k 0) (drop (get_or s.st k 0) str)

-- The number of a separator and the text behind it.
abbrev pub Segments : Type 0
Segments = List (ℕ × List ℕ)

abbrev pub print_segments : Segments → List ℕ
print_segments [] = []
print_segments ((i, text) ∷ rest) = sep i ∷ (text ++ print_segments rest)

-- The slash belongs to the path.
abbrev pub segment_text : ℕ → List ℕ → List ℕ
segment_text i text = if i == 1 then b'/' ∷ text else text

abbrev pub text_at : ℕ → Segments → List ℕ
text_at k [] = []
text_at k ((i, text) ∷ rest) = if k == i + 3 then segment_text i text else text_at k rest

-- No separator from `idx` on.
abbrev pub NoSep : ℕ → ℕ → Type 0
NoSep idx c = find_sep (4 - idx) idx c ≡ none

abbrev pub InOrder : ℕ → Segments → Type 0
InOrder idx [] = Unit
InOrder idx ((i, text) ∷ rest) =
    (idx ≤ i) × (i < 4) × All (NoSep (i + 1)) text × InOrder (i + 1) rest

pub text_at-before :
    (idx k : ℕ) (segs : Segments) → InOrder idx segs → k < idx + 3 → text_at k segs ≡ []
text_at-before idx k [] o h = refl
text_at-before idx k ((i, text) ∷ rest) (le, small, clean, o) h =
    ground (arith, text_at-before (i + 1) k rest o (omega arith))

sep_injective : (i j : ℕ) → i < 4 → j < 4 → sep i ≡ sep j → i ≡ j
sep_injective i j h k e = ground (arith, e)

pub find_sep-sep : (n idx i : ℕ) → idx ≤ i → i < idx + n → i < 4 → find_sep n idx (sep i) ≡ some i
unfolding find_sep
find_sep-sep zero idx i h k l = absurd (omega arith)
find_sep-sep (suc n) idx i h k l = elim (Bool-cases (sep i == sep idx)) [
  | inl e ↦
      let same : i ≡ idx = sep_injective i idx l (omega arith) (ground (arith, e)) in
      rw e (ap some (sym same))
  | inr e ↦
      let other : i ≢ idx = λ d. ground (arith, e, d) in
      rw e (find_sep-sep n (idx + 1) i (omega arith) (omega arith) l)
]

pub scan_step-NoSep : (cur c : ℕ) (s : Scan) → NoSep s.idx c → scan_step cur c s ≡ s
unfolding scan_step
scan_step-NoSep cur c s h = rw (scan_step, h) refl

pub scan_loop-NoSep :
    (cur : ℕ) (xs ys : List ℕ) (s : Scan)
    → All (NoSep s.idx) xs
    → scan_loop cur (xs ++ ys) s ≡ scan_loop (cur + length xs) ys s
unfolding scan_loop
scan_loop-NoSep cur [] ys s a = ap (λ n. scan_loop n ys s) (omega arith)
scan_loop-NoSep cur (x ∷ xs) ys s (h, a) =
    ap (scan_loop (cur + 1) (xs ++ ys)) (scan_step-NoSep cur x s h)
    ∙ scan_loop-NoSep (cur + 1) xs ys s a
    ∙ ap (λ n. scan_loop n ys s) (omega arith)

take_of_length : (v tail : List ℕ) → take (length v) (v ++ tail) ≡ v
take_of_length [] tail = refl
take_of_length (x ∷ v) tail = ap (◌∷◌ x) (take_of_length v tail)

pub cut_out :
    (before text rest : List ℕ) (last cur : ℕ)
    → last ≡ length before
    → cur ≡ length before + length text
    → take (cur - last) (drop last (before ++ (text ++ rest))) ≡ text
cut_out before text rest last cur h k =
    let size : cur - last ≡ length text = omega arith in
    rw (size, h)
      (ap (take (length text)) (drop_of_length before (text ++ rest)) ∙ take_of_length text rest)

pub record HasSeven (s : Spans) : Type 0 where
  pub st : length s.st ≡ 7
  pub ed : length s.ed ≡ 7

pub set_span-HasSeven : (k a b : ℕ) (s : Spans) → HasSeven s → HasSeven (set_span k a b s)
unfolding set_span
set_span-HasSeven k a b s h = record {
  st = length-set s.st k a ∙ h.st;
  ed = length-set s.ed k b ∙ h.ed;
}

pub part_of-set_span :
    (str : List ℕ) (s : Spans) (k j a b : ℕ)
    → HasSeven s
    → k < 7
    → part_of str (set_span k a b s) j
      ≡ (if k == j then take (b - a) (drop a str) else part_of str s j)
unfolding set_span
part_of-set_span str s k j a b h l = ground (
  arith,
  get_or-set s.st k j a 0 (omega (arith, h.st)),
  get_or-set s.ed k j b 0 (omega (arith, h.ed)),
)
