-- ===== src/HttpParser/Field/RoundTrip.antt =====
-- __parse_header_name and __parse_header_value on a field that is written the usual way.
use demo_submodule.Prelude.{
  ℕ, zero, suc, ◌+◌, ◌-◌, ◌<◌, ◌≡◌, ◌≢◌, refl, false, List, [], ◌∷◌, ◌++◌, arith, append_assoc,
  append-nil, length, length-append, All,
}
use demo_submodule.HttpParser.{HttpParser, header_value, done}
use demo_submodule.HttpParser.StartLine.{starts_crlf}
use demo_submodule.HttpParser.StartLine.Progress.{starts_crlf-other}
use demo_submodule.HttpParser.Field.{
  field, scan_name, take_name, parse_header_name, skip_blanks, scan_value, end_value_line,
  trim_blanks, take_value, parse_header_value, match_message_header, accept_value, is_blank,
}
use demo_submodule.HttpParser.Field.Progress.{value_loop_once}

-- The bytes that a name may hold: neither a colon nor a NUL, and not the start of a line end.
abbrev pub IsNameChar : ℕ → Type 0
IsNameChar c = (c ≢ b':') × (c ≢ 0) × (c ≢ 13)

-- The bytes that a value may hold: neither a `\r` nor a NUL.
abbrev pub IsValueChar : ℕ → Type 0
IsValueChar c = (c ≢ 13) × (c ≢ 0)

scan_name_lem :
    (name : List ℕ) (room : ℕ) (read tail : List ℕ)
    → All IsNameChar name
    → length name < room
    → scan_name room read (name ++ (b':' ∷ tail)) ≡ field (read ++ name) tail
unfolding scan_name
scan_name_lem name zero read tail a h = elim h [ ]
scan_name_lem [] (suc room) read tail a h = rw append-nil
scan_name_lem (c ∷ name) (suc room) read tail a h =
    ground
      (arith, scan_name_lem name room (read ++ c ∷ []) tail a.1, append_assoc read (c ∷ []) name)

scan_value_lem :
    (value : List ℕ) (room : ℕ) (read tail : List ℕ)
    → All IsValueChar value
    → length value < room
    → scan_value room read (value ++ (13 ∷ 10 ∷ tail)) ≡ field (read ++ value) (10 ∷ tail)
unfolding scan_value
scan_value_lem value zero read tail a h = elim h [ ]
scan_value_lem [] (suc room) read tail a h = rw append-nil
scan_value_lem (c ∷ []) (suc room) read tail a h = ground (
  arith,
  a.0.0,
  a.0.1,
  scan_value_lem [] room (read ++ c ∷ []) tail tt,
  append-nil (read ++ c ∷ []),
  append-nil read,
)
scan_value_lem (c ∷ d ∷ value) (suc room) read tail a h = ground (
  arith,
  a.0.0,
  a.0.1,
  scan_value_lem (d ∷ value) room (read ++ c ∷ []) tail a.1,
  append_assoc read (c ∷ []) (d ∷ value),
)

-- A value that neither starts nor ends with a blank is what the blanks around it leave.
abbrev pub EndsClean : List ℕ → Type 0
EndsClean [] = Unit
EndsClean (c ∷ []) = is_blank c ≡ false
EndsClean (c ∷ d ∷ rest) = EndsClean (d ∷ rest)

abbrev pub StartsClean : List ℕ → Type 0
StartsClean [] = Unit
StartsClean (c ∷ rest) = is_blank c ≡ false

trim_blanks_lem : (value : List ℕ) → EndsClean value → trim_blanks value ≡ value
unfolding trim_blanks
trim_blanks_lem [] h = refl
trim_blanks_lem (c ∷ []) h = rw h refl
trim_blanks_lem (c ∷ d ∷ rest) h = rw (trim_blanks_lem (d ∷ rest) h) refl

skip_blanks_lem :
    (value tail : List ℕ)
    → StartsClean value
    → skip_blanks (value ++ (13 ∷ tail)) ≡ value ++ (13 ∷ tail)
unfolding skip_blanks
skip_blanks_lem [] tail h = refl
skip_blanks_lem (c ∷ rest) tail h = rw h refl

starts_crlf-name :
    (name tail : List ℕ) → All IsNameChar name → starts_crlf (name ++ (b':' ∷ tail)) ≡ false
starts_crlf-name [] tail a = starts_crlf-other b':' tail (omega arith)
starts_crlf-name (c ∷ name) tail a = starts_crlf-other c (name ++ (b':' ∷ tail)) a.0.2

-- The bytes of a name, a colon and what follows are taken as that name, with the parser behind the
-- colon, when the name is shorter than the 64 bytes of its array and holds no colon, NUL or `\r`.
pub parse_header_name_lem :
    (name tail : List ℕ) (p : HttpParser)
    → All IsNameChar name
    → length name < 64
    → parse_header_name (name ++ (b':' ∷ tail)) p ≡ (
      done,
      record p {
        namebuf = name;
        header_offset = p.header_offset + (length name + 1);
        header_state = header_value;
      },
    )
unfolding parse_header_name take_name
parse_header_name_lem name tail p a h =
    rw (starts_crlf-name name tail a, scan_name_lem name 64 [] tail a h) refl

space_skipped : (ptr : List ℕ) → skip_blanks (32 ∷ ptr) ≡ skip_blanks ptr
unfolding skip_blanks
space_skipped ptr = refl

take_line :
    (value : List ℕ) (c : ℕ) (tail : List ℕ) (p : HttpParser)
    → EndsClean value
    → take_value
        (32 ∷ (value ++ (13 ∷ 10 ∷ c ∷ tail)))
        (end_value_line (field value (10 ∷ c ∷ tail)))
        p
      ≡ accept_value (length value + 3) (match_message_header p.namebuf value p)
unfolding take_value end_value_line
take_line value c tail p e =
    let n : suc (length (value ++ (13 ∷ 10 ∷ c ∷ tail))) - suc (length tail) ≡ length value + 3 =
      omega (arith, length-append value (13 ∷ 10 ∷ c ∷ tail)) in
    rw (trim_blanks_lem value e, n) refl

-- The bytes of a value between a space and a line end, with a byte behind it, are taken as that
-- value of the name before them, whatever the byte behind them is, when the value is shorter than
-- 8192 bytes, holds no `\r` or NUL, and neither starts nor ends with a blank.
pub parse_header_value_lem :
    (value : List ℕ) (c : ℕ) (tail : List ℕ) (p : HttpParser)
    → All IsValueChar value
    → StartsClean value
    → EndsClean value
    → length value < 8192
    → parse_header_value (32 ∷ (value ++ (13 ∷ 10 ∷ c ∷ tail))) p
      ≡ accept_value (length value + 3) (match_message_header p.namebuf value p)
unfolding parse_header_value
parse_header_value_lem value c tail p a s e h =
    let text : List ℕ = 32 ∷ (value ++ (13 ∷ 10 ∷ c ∷ tail)) in
    rw
      (
        value_loop_once (length text) text,
        space_skipped (value ++ (13 ∷ 10 ∷ c ∷ tail)),
        skip_blanks_lem value (10 ∷ c ∷ tail) s,
        scan_value_lem value 8192 [] (c ∷ tail) a h,
      )
      (take_line value c tail p e)
