-- ===== src/HttpParser/Field/Progress.antt =====
-- How far __parse_header_name and __parse_header_value go.
use demo_submodule.Prelude.{
  ℕ, zero, suc, ◌+◌, ◌-◌, ◌≤◌, ◌<◌, ◌≡◌, refl, ap, sym, ◌∙◌, inl, inr, List, [], ◌∷◌, ◌++◌, arith,
  append_assoc, Bool-cases, ==_iff, ◌==◌, length, length-append,
}
use demo_submodule.HttpParser.{HttpParser, Ret, more}
use demo_submodule.HttpParser.Frame.{SamePlace, Advances, SameBuffer-refl}
use demo_submodule.HttpParser.Header.Frame.{add_header-same}
use demo_submodule.HttpParser.StartLine.{starts_crlf}
use demo_submodule.HttpParser.StartLine.Progress.{length-starts_crlf}
use demo_submodule.HttpParser.Field.{
  FieldScan, bad, partial, field, scan_name, take_name, parse_header_name, skip_blanks, scan_value,
  end_value_line, value_loop, take_value, parse_header_value, match_field, match_message_header,
  accept_value, match_expect, match_connection, match_content_length, match_transfer_encoding,
}

-- A name that is found is what stands before a colon in the bytes that were read.
pub scan_name_inv :
    (room : ℕ) (read rest name tail : List ℕ)
    → scan_name room read rest ≡ field name tail
    → read ++ rest ≡ name ++ (b':' ∷ tail)
unfolding scan_name
scan_name_inv zero read rest name tail h = absurd (ground arith)
scan_name_inv (suc room) read [] name tail h = absurd (ground arith)
scan_name_inv (suc room) read (c ∷ rest) name tail h = elim (Bool-cases (c == b':')) [
  | inl e ↦
      let p : read ≡ name = ground arith in
      let q : rest ≡ tail = ground arith in cc ((==_iff c b':').0 e, p, q)
  | inr e ↦
      sym (append_assoc read (c ∷ []) rest)
      ∙ scan_name_inv room (read ++ c ∷ []) rest name tail (ground arith)
]

take_name-Advances :
    (n : ℕ) (scan : FieldScan) (p : HttpParser)
    → ((name tail : List ℕ) → scan ≡ field name tail → length name + 1 ≤ n)
    → Advances n p (take_name scan p).0 (take_name scan p).1
unfolding take_name
take_name-Advances n bad p h = ground (arith, SameBuffer-refl p)
take_name-Advances n partial p h = ground (arith, SameBuffer-refl p)
take_name-Advances n (field name tail) p h = ground (arith, SameBuffer-refl p, h name tail refl)

pub parse_header_name-Advances :
    (ptr : List ℕ) (p : HttpParser)
    → Advances (length ptr) p (parse_header_name ptr p).0 (parse_header_name ptr p).1
unfolding parse_header_name
parse_header_name-Advances ptr p = elim (Bool-cases (starts_crlf ptr)) [
  | inl e ↦ rw e (ground (arith, SameBuffer-refl p, length-starts_crlf ptr e))
  | inr e ↦ rw e (
      take_name-Advances (length ptr) (scan_name 64 [] ptr) p λ name tail s.
        omega (
          arith,
          ap length (scan_name_inv 64 [] ptr name tail s),
          length-append name (b':' ∷ tail),
        ))
]

length-skip_blanks-le : (ptr : List ℕ) → length (skip_blanks ptr) ≤ length ptr
unfolding skip_blanks
length-skip_blanks-le [] = omega arith
length-skip_blanks-le (c ∷ rest) = ground (arith, length-skip_blanks-le rest)

length-scan_value-lt :
    (room : ℕ) (read ptr value rest : List ℕ)
    → scan_value room read ptr ≡ field value rest
    → length rest < length ptr
unfolding scan_value
length-scan_value-lt zero read ptr value rest h = absurd (ground arith)
length-scan_value-lt (suc room) read [] value rest h = absurd (ground arith)
length-scan_value-lt (suc room) read (c ∷ []) value rest h = absurd (ground arith)
length-scan_value-lt (suc room) read (c ∷ d ∷ ptr) value rest h = elim (Bool-cases (c == 13)) [
  | inl e ↦ let q : d ∷ ptr ≡ rest = ground arith in omega (arith, ap length q)
  | inr e ↦
      omega (arith, length-scan_value-lt room (read ++ c ∷ []) (d ∷ ptr) value rest (ground arith))
]

length-end_value_line-lt :
    (scan : FieldScan) (value rest : List ℕ) (n : ℕ)
    → ((v r : List ℕ) → scan ≡ field v r → length r < n)
    → end_value_line scan ≡ field value rest
    → length rest < n
unfolding end_value_line
length-end_value_line-lt (field read (d ∷ c ∷ more_read)) value rest n h e =
    let q : c ∷ more_read ≡ rest = ground arith in
    omega (arith, ap length q, h read (d ∷ c ∷ more_read) refl)
length-end_value_line-lt (field read (d ∷ [])) value rest n h e = absurd (ground arith)
length-end_value_line-lt (field read []) value rest n h e = absurd (ground arith)
length-end_value_line-lt bad value rest n h e = absurd (ground arith)
length-end_value_line-lt partial value rest n h e = absurd (ground arith)

-- The test behind a value line holds whatever byte follows, so the outer loop makes one round.
pub value_loop_once :
    (fuel : ℕ) (ptr : List ℕ)
    → value_loop (suc fuel) [] ptr ≡ end_value_line (scan_value 8192 [] (skip_blanks ptr))
unfolding value_loop
value_loop_once fuel ptr = ground arith

length-value_loop-lt :
    (fuel : ℕ) (ptr value rest : List ℕ)
    → value_loop (suc fuel) [] ptr ≡ field value rest
    → length rest < length ptr
length-value_loop-lt fuel ptr value rest h =
    length-end_value_line-lt (scan_value 8192 [] (skip_blanks ptr)) value rest (length ptr)
      (λ v r s.
        omega
          (arith, length-scan_value-lt 8192 [] (skip_blanks ptr) v r s, length-skip_blanks-le ptr))
      (sym (value_loop_once fuel ptr) ∙ h)

match_field-same : (name value : List ℕ) (p : HttpParser) → SamePlace p (match_field name value p)
unfolding match_field match_expect match_connection match_content_length match_transfer_encoding
match_field-same name value p = ground arith

accept_value-Advances :
    (m n : ℕ) (p : HttpParser) (ret : Ret) (q : HttpParser)
    → 0 < m
    → m ≤ n
    → SamePlace p q
    → Advances n p (accept_value m (ret, q)).0 (accept_value m (ret, q)).1
accept_value-Advances m n p more q h k s = ground arith
accept_value-Advances m n p _ q h k s = ground arith

match_message_header-same :
    (name value : List ℕ) (p : HttpParser) → SamePlace p (match_message_header name value p).1
unfolding match_message_header
match_message_header-same name value p =
    ground
      (arith, match_field-same name value p, add_header-same name value (match_field name value p))

take_value-Advances :
    (ptr : List ℕ) (scan : FieldScan) (p : HttpParser)
    → ((value rest : List ℕ) → scan ≡ field value rest → length rest < length ptr)
    → Advances (length ptr) p (take_value ptr scan p).0 (take_value ptr scan p).1
unfolding take_value
take_value-Advances ptr bad p h = ground (arith, SameBuffer-refl p)
take_value-Advances ptr partial p h = ground (arith, SameBuffer-refl p)
take_value-Advances ptr (field value rest) p h =
    let shorter : length rest < length ptr = h value rest refl in
    accept_value-Advances (length ptr - length rest) (length ptr) p
      (match_message_header p.namebuf value p).0 (match_message_header p.namebuf value p).1
      (omega arith) (omega arith) (match_message_header-same p.namebuf value p)

pub parse_header_value-Advances :
    (ptr : List ℕ) (p : HttpParser)
    → Advances (length ptr) p (parse_header_value ptr p).0 (parse_header_value ptr p).1
unfolding parse_header_value
parse_header_value-Advances ptr p =
    take_value-Advances ptr (value_loop (suc (length ptr)) [] ptr) p
      (λ value rest s. length-value_loop-lt (length ptr) ptr value rest s)
