-- ===== src/Uri/Parse/Scanned.antt =====
-- The spans that the last loop of URIParser::parse finds.
use mathlib.Core.Path.{subst}
use demo_submodule.Prelude.{
  ℕ, ◌+◌, ◌-◌, ◌≤◌, ◌<◌, ◌≡◌, refl, ap, sym, ◌∙◌, true, false, List, [], ◌∷◌, ◌++◌, arith, ltb,
  ◌==◌, Bool-cases, inl, inr, if◌then◌else◌, length, take, drop, All, length-append, append_assoc,
}
use demo_submodule.Uri.Parse.{Spans, set_span, sep, find_sep, Scan, scan_step, scan_loop, end_scan}
use demo_submodule.Uri.Parse.Segments.{
  part_of, Segments, print_segments, segment_text, text_at, NoSep, InOrder, text_at-before,
  find_sep-sep, scan_step-NoSep, scan_loop-NoSep, cut_out, HasSeven, set_span-HasSeven,
  part_of-set_span,
}

abbrev pub scan_at : Spans → (last idx : ℕ) → Scan
scan_at s last idx = record { spans = s; last = last; idx = idx; is_ipv6 = false }

-- The parts after the scan: those before the position `idx + 2` as they were, there the text, and
-- then the segments.
abbrev pub scanned : List ℕ → Spans → ℕ → List ℕ → Segments → ℕ → List ℕ
scanned str s idx text segs k =
    if k == idx + 2 then text else if ltb k (idx + 2) then part_of str s k else text_at k segs

end_scan_lem :
    (str before text : List ℕ) (s : Spans) (idx : ℕ)
    → str ≡ before ++ (text ++ [])
    → idx ≤ 4
    → HasSeven s
    → ((k : ℕ) → idx + 2 ≤ k → part_of str s k ≡ [])
    → (k : ℕ)
    → part_of str (end_scan (length before + length text, scan_at s (length before) idx)) k
      ≡ scanned str s idx text [] k
unfolding end_scan
end_scan_lem str before [] s idx e l h clear k =
    let here : ltb (length before) (length before + 0) ≡ false = ground arith in
    rw here (ground (arith, clear k))
end_scan_lem str before (c ∷ text) s idx e l h clear k =
    let here : ltb (length before) (length before + length (c ∷ text)) ≡ true = ground arith in
    let cut : take (length before + length (c ∷ text) - length before) (drop (length before) str)
        ≡ c ∷ text =
      ap (λ w. take (length before + length (c ∷ text) - length before) (drop (length before) w)) e
      ∙ cut_out before (c ∷ text) [] (length before) (length before + length (c ∷ text)) refl
          refl in
    rw here (
      part_of-set_span str s (idx + 2) k (length before) (length before + length (c ∷ text)) h
        (omega arith)
      ∙ ground (arith, cut, clear k))

abbrev after_sep : (cur idx i last : ℕ) → Spans → Scan
after_sep cur idx i last s =
    scan_at (set_span (idx + 2) last cur s) (if sep i == b'/' then cur else cur + 1) (i + 1)

scan_step-sep :
    (cur idx i last : ℕ) (s : Spans)
    → idx ≤ i
    → i < 4
    → scan_step cur (sep i) (scan_at s last idx) ≡ after_sep cur idx i last s
unfolding scan_step
scan_step-sep cur idx i last s h l =
    rw (scan_step, find_sep-sep (4 - idx) idx i h (omega arith) l) refl

scan_loop-sep :
    (cur idx i last : ℕ) (ys : List ℕ) (s : Spans)
    → idx ≤ i
    → i < 4
    → scan_loop cur (sep i ∷ ys) (scan_at s last idx)
      ≡ scan_loop (cur + 1) ys (after_sep cur idx i last s)
unfolding scan_loop
scan_loop-sep cur idx i last ys s h l =
    ap (scan_loop (cur + 1) ys) (scan_step-sep cur idx i last s h l)

slash_NoSep : NoSep 2 b'/'
unfolding find_sep
slash_NoSep = refl

-- Behind a separator the scan is at the beginning of the text of its segment.
record Resumes (str : List ℕ) (cur i : ℕ) (t text rest : List ℕ) (s' : Spans) (state : Scan)
    : Type 0 where
  before : List ℕ
  whole : str ≡ before ++ (text ++ rest)
  clean : All (NoSep (i + 1)) text
  goes_on :
      scan_loop (cur + 1) (t ++ rest) state
      ≡ scan_loop (length before) (text ++ rest) (scan_at s' (length before) (i + 1))

resume :
    (str before text t rest : List ℕ) (s : Spans) (idx i : ℕ)
    → str ≡ before ++ (text ++ (sep i ∷ (t ++ rest)))
    → All (NoSep (i + 1)) t
    → i < 4
    → Resumes str
        (length before + length text)
        i
        t
        (segment_text i t)
        rest
        (set_span (idx + 2) (length before) (length before + length text) s)
        (after_sep (length before + length text) idx i (length before) s)
unfolding scan_loop
resume str before text t rest s idx i e next small =
    let cur = length before + length text in
    let s' = set_span (idx + 2) (length before) cur s in
    elim (Bool-cases (i == 1)) [
      | inl d ↦
          let one : i ≡ 1 = ground arith in
          let start : length (before ++ text) ≡ cur = length-append before text in
          rw one (record {
            before = before ++ text;
            whole =
                e
                ∙ ap (λ j. before ++ (text ++ (sep j ∷ (t ++ rest)))) one
                ∙ sym (append_assoc before text (b'/' ∷ (t ++ rest)));
            clean = (slash_NoSep, subst (λ j. All (NoSep (j + 1)) t) one next);
            goes_on =
                sym (
                  ap (scan_loop (cur + 1) (t ++ rest))
                    (scan_step-NoSep cur b'/' (scan_at s' cur 2) slash_NoSep))
                ∙ ap (λ n. scan_loop n (b'/' ∷ (t ++ rest)) (scan_at s' n 2)) (sym start);
          })
      | inr d ↦
          let mark = sep i ∷ [] in
          let start : length (before ++ (text ++ mark)) ≡ cur + 1 =
            omega (arith, length-append before (text ++ mark), length-append text mark) in
          rw d (record {
            before = before ++ (text ++ mark);
            whole =
                e
                ∙ sym (
                    append_assoc before (text ++ mark) (t ++ rest)
                    ∙ ap (λ w. before ++ w) (append_assoc text mark (t ++ rest)));
            clean = next;
            goes_on =
                ap (scan_loop (cur + 1) (t ++ rest)) (ground (arith, d))
                ∙ ap (λ n. scan_loop n (t ++ rest) (scan_at s' n (i + 1))) (sym start);
          })
    ]

joined :
    (str text t : List ℕ) (rest : Segments) (s s' : Spans) (idx i k : ℕ)
    → idx ≤ i
    → InOrder (i + 1) rest
    → ((k : ℕ) → idx + 2 ≤ k → part_of str s k ≡ [])
    → part_of str s' k ≡ (if idx + 2 == k then text else part_of str s k)
    → scanned str s' (i + 1) (segment_text i t) rest k ≡ scanned str s idx text ((i, t) ∷ rest) k
joined str text t rest s s' idx i k le o clear parts =
    ground (arith, parts, clear k, text_at-before (i + 1) k rest o)

pub scan_loop-segments :
    (str before text : List ℕ) (segs : Segments) (s : Spans) (idx : ℕ)
    → str ≡ before ++ (text ++ print_segments segs)
    → idx ≤ 4
    → All (NoSep idx) text
    → InOrder idx segs
    → HasSeven s
    → ((k : ℕ) → idx + 2 ≤ k → part_of str s k ≡ [])
    → (k : ℕ)
    → part_of str
        (end_scan
          (scan_loop (length before) (text ++ print_segments segs) (scan_at s (length before) idx)))
        k
      ≡ scanned str s idx text segs k
unfolding scan_loop
scan_loop-segments str before text [] s idx e l clean o h clear k =
    ap (λ w. part_of str (end_scan w) k)
      (scan_loop-NoSep (length before) text [] (scan_at s (length before) idx) clean)
    ∙ end_scan_lem str before text s idx e l h clear k
scan_loop-segments str before text ((i, t) ∷ rest) s idx e l clean (le, small, next, o) h clear k =
    let last = length before in
    let cur = last + length text in
    let tail = t ++ print_segments rest in
    let s' = set_span (idx + 2) last cur s in
    let cut : take (cur - last) (drop last str) ≡ text =
      ap (λ w. take (cur - last) (drop last w)) e
      ∙ cut_out before text (sep i ∷ tail) last cur refl refl in
    let parts : (j : ℕ) → part_of str s' j ≡ (if idx + 2 == j then text else part_of str s j) =
      λ j. ground (arith, part_of-set_span str s (idx + 2) j last cur h (omega arith), cut) in
    let clear' : (j : ℕ) → i + 1 + 2 ≤ j → part_of str s' j ≡ [] =
      λ j g. ground (arith, parts j, clear j (omega arith)) in
    let skip : scan_loop last (text ++ (sep i ∷ tail)) (scan_at s last idx)
        ≡ scan_loop (cur + 1) tail (after_sep cur idx i last s) =
      scan_loop-NoSep last text (sep i ∷ tail) (scan_at s last idx) clean
      ∙ scan_loop-sep cur idx i last tail s le small in
    let seven = set_span-HasSeven (idx + 2) last cur s h in
    let r = resume str before text t (print_segments rest) s idx i e next small in
    ap (λ w. part_of str (end_scan w) k) (skip ∙ r.goes_on)
    ∙ scan_loop-segments str r.before (segment_text i t) rest s' (i + 1) r.whole (omega arith)
        r.clean o seven clear' k
    ∙ joined str text t rest s s' idx i k le o clear (parts k)
