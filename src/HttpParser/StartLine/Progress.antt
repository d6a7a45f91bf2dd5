-- ===== src/HttpParser/StartLine/Progress.antt =====
-- How far __parse_start_line goes.
use demo_submodule.Prelude.{
  ℕ, zero, suc, ◌+◌, ◌≤◌, ◌≡◌, ◌≢◌, refl, ap, sym, ◌∙◌, Bool, true, false, inl, inr, List, [], ◌∷◌,
  ◌++◌, arith, append_assoc, Bool-cases, ==_iff, Option-cases, ◌==◌, length, length-append,
}
use demo_submodule.HttpParser.{HttpParser, Ret, more}
use demo_submodule.HttpParser.Frame.{SamePlace, Advances, SameBuffer-refl}
use demo_submodule.HttpParser.StartLine.{
  LineScan, bad, partial, line, after_cr, scan_line, starts_crlf, take_start_line, parse_start_line,
  match_start_line, match_request_line, match_status_line, accept_line, split_line,
}

after_cr_inv :
    (read rest text : List ℕ)
    → after_cr read rest ≡ line text
    → (text ≡ read) × (tail : List ℕ) × (rest ≡ 10 ∷ tail)
after_cr_inv read [] text h = absurd (ground arith)
after_cr_inv read (d ∷ rest) text h = (ground arith, rest, ground arith)

-- A line that is found is what stands before a line end in the bytes that were read.
pub scan_line_inv :
    (nul_ends : Bool) (room : ℕ) (read rest text : List ℕ)
    → scan_line nul_ends room read rest ≡ line text
    → (tail : List ℕ) × (read ++ rest ≡ text ++ (13 ∷ 10 ∷ tail))
unfolding scan_line
scan_line_inv nul_ends zero read rest text h = absurd (ground arith)
scan_line_inv nul_ends (suc room) read [] text h = absurd (ground arith)
scan_line_inv nul_ends (suc room) read (c ∷ rest) text h = elim (Bool-cases (c == 13)) [
  | inl e ↦
      let (p, tail, q) = after_cr_inv read rest text (ground arith) in
      (tail, cc ((==_iff c 13).0 e, p, q))
  | inr e ↦
      let (tail, p) = scan_line_inv nul_ends room (read ++ c ∷ []) rest text (ground arith) in
      (tail, sym (append_assoc read (c ∷ []) rest) ∙ p)
]

pub length-scan_line :
    (nul_ends : Bool) (room : ℕ) (rest text : List ℕ)
    → scan_line nul_ends room [] rest ≡ line text
    → length text + 2 ≤ length rest
length-scan_line nul_ends room rest text h =
    let (tail, p) = scan_line_inv nul_ends room [] rest text h in
    omega (arith, ap length p, length-append text (13 ∷ 10 ∷ tail))

match_start_line-same :
    (p1 p2 p3 : List ℕ) (p : HttpParser) → SamePlace p (match_start_line p1 p2 p3 p).1
unfolding match_start_line match_request_line match_status_line
match_start_line-same p1 p2 p3 p = ground arith

accept_line-Advances :
    (n : ℕ) (ptr : List ℕ) (p : HttpParser) (ret : Ret) (q : HttpParser)
    → n + 2 ≤ length ptr
    → SamePlace p q
    → Advances (length ptr) p (accept_line n (ret, q)).0 (accept_line n (ret, q)).1
accept_line-Advances n ptr p more q h s = ground arith
accept_line-Advances n ptr p _ q h s = ground arith

take_start_line-Advances :
    (ptr : List ℕ) (scan : LineScan) (p : HttpParser)
    → ((text : List ℕ) → scan ≡ line text → length text + 2 ≤ length ptr)
    → Advances (length ptr) p (take_start_line scan p).0 (take_start_line scan p).1
unfolding take_start_line
take_start_line-Advances ptr bad p h = ground (arith, SameBuffer-refl p)
take_start_line-Advances ptr partial p h = ground (arith, SameBuffer-refl p)
take_start_line-Advances ptr (line text) p h = elim (Option-cases (split_line text)) [
  | inl e ↦ rw (e, take_start_line) (ground (arith, SameBuffer-refl p))
  | inr (parts, e) ↦
      rw (e, take_start_line)
        (accept_line-Advances (length text) ptr p (match_start_line parts.0 parts.1 parts.2 p).0
          (match_start_line parts.0 parts.1 parts.2 p).1 (h text refl)
          (match_start_line-same parts.0 parts.1 parts.2 p))
]

pub length-starts_crlf : (ptr : List ℕ) → starts_crlf ptr ≡ true → 2 ≤ length ptr
unfolding starts_crlf
length-starts_crlf [] h = absurd (ground arith)
length-starts_crlf (c ∷ []) h = absurd (ground arith)
length-starts_crlf (c ∷ d ∷ rest) h = omega arith

pub parse_start_line-Advances :
    (ptr : List ℕ) (p : HttpParser)
    → Advances (length ptr) p (parse_start_line ptr p).0 (parse_start_line ptr p).1
unfolding parse_start_line
parse_start_line-Advances ptr p = elim (Bool-cases (starts_crlf ptr)) [
  | inl e ↦ rw e (ground (arith, SameBuffer-refl p, length-starts_crlf ptr e))
  | inr e ↦
      rw e (
        take_start_line-Advances ptr (scan_line true 8192 [] ptr) p
          (length-scan_line true 8192 ptr))
]

pub starts_crlf-other : (c : ℕ) (rest : List ℕ) → c ≢ 13 → starts_crlf (c ∷ rest) ≡ false
unfolding starts_crlf
starts_crlf-other c [] h = refl
starts_crlf-other c (d ∷ rest) h = ground (arith, h)
