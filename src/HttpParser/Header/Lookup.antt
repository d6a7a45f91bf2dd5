-- ===== src/HttpParser/Header/Lookup.antt =====
-- http_header_cursor_find after http_parser_set_header.
use demo_submodule.Prelude.{
  ℕ, zero, suc, ◌+◌, ◌≤◌, ◌≡◌, refl, ap, ◌∙◌, Bool, true, false, Option, none, some, inl, inr, List,
  [], ◌∷◌, ◌++◌, arith, ltb, if◌then◌else◌, length, take, drop, All, length-append, Bool-cases,
  append_assoc, length-take-le, take-length-le, length-drop, length-replicate, replicate,
}
use demo_submodule.Cstring.{strncasecmp}
use demo_submodule.HttpParser.{HttpParser, HeaderLine, more}
use demo_submodule.HttpParser.Header.{
  write, colon, crlf, new_line, fresh_buf, add_header, same_name, replace_value, set_loop,
  set_found, after, set_header, cursor_init, cursor_find,
}

-- A line's buffer has room for its name, its value, `: ` and the line end.
abbrev pub HasRoom : HeaderLine → Type 0
HasRoom line = line.name_len + line.value_len + 4 ≤ length line.buf

strncasecmp-prefix : (name tail : List ℕ) → strncasecmp (length name) (name ++ tail) name ≡ true
unfolding strncasecmp
strncasecmp-prefix [] tail = refl
strncasecmp-prefix (c ∷ name) tail = ground (arith, strncasecmp-prefix name tail)

strncasecmp-take :
    (n m : ℕ) (a b tail : List ℕ)
    → n ≤ m
    → m ≤ length a
    → strncasecmp n (take m a ++ tail) b ≡ strncasecmp n a b
unfolding strncasecmp
strncasecmp-take zero m a b tail h l = refl
strncasecmp-take (suc n) zero a b tail h l = absurd (omega arith)
strncasecmp-take (suc n) (suc m) [] b tail h l = absurd (omega arith)
strncasecmp-take (suc n) (suc m) (x ∷ a) [] tail h l =
    rw (strncasecmp-take n m a [] tail (omega arith) (omega arith)) refl
strncasecmp-take (suc n) (suc m) (x ∷ a) (y ∷ b) tail h l =
    rw (strncasecmp-take n m a b tail (omega arith) (omega arith)) refl

take_of_length : (v tail : List ℕ) → take (length v) (v ++ tail) ≡ v
take_of_length [] tail = refl
take_of_length (x ∷ v) tail = ap (◌∷◌ x) (take_of_length v tail)

drop-take : (n : ℕ) (a tail : List ℕ) → n ≤ length a → drop n (take n a ++ tail) ≡ tail
drop-take zero a tail h = refl
drop-take (suc n) [] tail h = absurd (omega arith)
drop-take (suc n) (x ∷ a) tail h = drop-take n a tail (omega arith)

-- What fits into the buffer is written whole.
length-written :
    (n : ℕ) (bytes buf : List ℕ)
    → n + length bytes ≤ length buf
    → length (take n buf ++ (bytes ++ drop (n + length bytes) buf)) ≡ length buf
length-written n bytes buf h = omega (
  arith,
  length-append (take n buf) (bytes ++ drop (n + length bytes) buf),
  length-append bytes (drop (n + length bytes) buf),
  length-take-le n buf (omega arith),
  length-drop (n + length bytes) buf,
)

write_fits :
    (n : ℕ) (bytes buf : List ℕ)
    → n + length bytes ≤ length buf
    → write n bytes buf ≡ take n buf ++ (bytes ++ drop (n + length bytes) buf)
write_fits n bytes buf h =
    take-length-le (length buf) (take n buf ++ (bytes ++ drop (n + length bytes) buf))
      (omega (arith, length-written n bytes buf h))

-- The value that is written behind the name is read there, and the name stays.
value_of_write :
    (n : ℕ) (value buf : List ℕ)
    → n + length (value ++ crlf) ≤ length buf
    → take (length value) (drop n (write n (value ++ crlf) buf)) ≡ value
value_of_write n value buf h =
    let rest = crlf ++ drop (n + length (value ++ crlf)) buf in
    ap (λ w. take (length value) (drop n w)) (write_fits n (value ++ crlf) buf h)
    ∙ ap (take (length value))
        (drop-take n buf ((value ++ crlf) ++ drop (n + length (value ++ crlf)) buf) (omega arith))
    ∙ ap (take (length value)) (append_assoc value crlf (drop (n + length (value ++ crlf)) buf))
    ∙ take_of_length value rest

-- The header lines after `set_header`, by what its loop came to.
abbrev pub changed :
    Option (Bool × List HeaderLine) → HeaderLine → List HeaderLine → List HeaderLine
changed none line lines = lines ++ line ∷ []
changed (some (grown, new_lines)) line lines = new_lines

abbrev pub lines_after : List ℕ → List ℕ → List HeaderLine → List HeaderLine
lines_after name value lines = changed (set_loop name value lines) (new_line name value) lines

drop-name : (name tail : List ℕ) → drop (length name + 2) (name ++ (colon ++ tail)) ≡ tail
drop-name [] tail = refl
drop-name (c ∷ name) tail =
    let shift : suc (length name) + 2 ≡ suc (length name + 2) = omega arith in
    ap (λ n. drop n (c ∷ (name ++ (colon ++ tail)))) shift ∙ drop-name name tail

cursor_find-found :
    (name value : List ℕ) (line : HeaderLine) (lines : List HeaderLine)
    → same_name name line ≡ true
    → take line.value_len (drop (length name + 2) line.buf) ≡ value
    → (cursor_find name (line ∷ lines)).0 ≡ some value
unfolding cursor_find
cursor_find-found name value line lines s v = rw (s, v) refl

cursor_find-other :
    (name : List ℕ) (line : HeaderLine) (lines : List HeaderLine)
    → same_name name line ≡ false
    → cursor_find name (line ∷ lines) ≡ cursor_find name lines
unfolding cursor_find
cursor_find-other name line lines s = rw s refl

cursor_find-new_line :
    (name value : List ℕ) → (cursor_find name (new_line name value ∷ [])).0 ≡ some value
unfolding same_name
cursor_find-new_line name value =
    cursor_find-found name value (new_line name value) []
      (ground (arith, strncasecmp-prefix name (colon ++ (value ++ crlf))))
      (ap (take (length value)) (drop-name name (value ++ crlf)) ∙ take_of_length value crlf)

length-fresh_buf :
    (name value : List ℕ) → length (fresh_buf name value) ≡ length name + length value + 4
length-fresh_buf name value = omega (
  arith,
  length-append name (colon ++ replicate (length value + 2) 0),
  length-replicate {A = ℕ} (length value + 2) 0,
)

-- The buffer that the value is written to starts with the name and has room for the line.
abbrev target_buf : Bool → List ℕ → List ℕ → HeaderLine → List ℕ
target_buf grown name value line = if grown then fresh_buf name value else line.buf

buffer_lem :
    (grown : Bool) (name value : List ℕ) (line : HeaderLine)
    → ltb line.value_len (length value) ≡ grown
    → HasRoom line
    → same_name name line ≡ true
    → (strncasecmp (length name) (target_buf grown name value line) name ≡ true)
      × (length name + length value + 4 ≤ length (target_buf grown name value line))
unfolding same_name
buffer_lem true name value line g h s = (
  strncasecmp-prefix name (colon ++ replicate (length value + 2) 0),
  omega (arith, length-fresh_buf name value),
)
buffer_lem false name value line g h s = (ground arith, ground arith)

same_name-replace_value :
    (name value : List ℕ) (line : HeaderLine)
    → HasRoom line
    → same_name name line ≡ true
    → (same_name name (replace_value name value line) ≡ true)
      × (take (length value) (drop (length name + 2) (replace_value name value line).buf) ≡ value)
      × HasRoom (replace_value name value line)
unfolding same_name
same_name-replace_value name value line h s =
    let grown = ltb line.value_len (length value) in
    let buf = target_buf grown name value line in
    let (same, room) = buffer_lem grown name value line refl h s in
    let size : length (value ++ crlf) ≡ length value + 2 = length-append value crlf in
    let fits : length name + 2 + length (value ++ crlf) ≤ length buf = omega arith in
    let tail = (value ++ crlf) ++ drop (length name + 2 + length (value ++ crlf)) buf in
    let written = write_fits (length name + 2) (value ++ crlf) buf fits in
    let kept =
      ap (λ w. strncasecmp (length name) w name) written
      ∙ strncasecmp-take (length name) (length name + 2) buf name tail (omega arith) (omega arith)
      ∙ same in
    let whole : length (write (length name + 2) (value ++ crlf) buf) ≡ length buf =
      ap length written ∙ length-written (length name + 2) (value ++ crlf) buf fits in
    (
      ground (arith, kept),
      value_of_write (length name + 2) value buf fits,
      ground (arith, whole, room),
    )

changed-after :
    (o : Option (Bool × List HeaderLine)) (new line : HeaderLine) (lines : List HeaderLine)
    → changed (after line o) new (line ∷ lines) ≡ line ∷ changed o new lines
changed-after none new line lines = refl
changed-after (some (grown, new_lines)) new line lines = refl

lines_after-other :
    (name value : List ℕ) (line : HeaderLine) (lines : List HeaderLine)
    → same_name name line ≡ false
    → lines_after name value (line ∷ lines) ≡ line ∷ lines_after name value lines
unfolding set_loop
lines_after-other name value line lines s =
    rw (set_loop, s) (changed-after (set_loop name value lines) (new_line name value) line lines)

lines_after-same :
    (name value : List ℕ) (line : HeaderLine) (lines : List HeaderLine)
    → same_name name line ≡ true
    → lines_after name value (line ∷ lines) ≡ replace_value name value line ∷ lines
unfolding set_loop
lines_after-same name value line lines s = rw (set_loop, s) refl

cursor_find-lines_after :
    (name value : List ℕ) (lines : List HeaderLine)
    → All HasRoom lines
    → (cursor_find name (lines_after name value lines)).0 ≡ some value
unfolding set_loop
cursor_find-lines_after name value [] a = cursor_find-new_line name value
cursor_find-lines_after name value (line ∷ lines) a = elim (Bool-cases (same_name name line)) [
  | inl s ↦
      let (t, v, _) = same_name-replace_value name value line a.0 s in
      rw (lines_after-same name value line lines s)
        (cursor_find-found name value (replace_value name value line) lines t v)
  | inr s ↦
      rw
        (
          lines_after-other name value line lines s,
          cursor_find-other name line (lines_after name value lines) s,
        )
        (cursor_find-lines_after name value lines a.1)
]

new_line-HasRoom : (name value : List ℕ) → HasRoom (new_line name value)
new_line-HasRoom name value =
    omega (arith, length-append name (colon ++ (value ++ crlf)), length-append value crlf)

lines_after-HasRoom :
    (name value : List ℕ) (lines : List HeaderLine)
    → All HasRoom lines
    → All HasRoom (lines_after name value lines)
unfolding set_loop
lines_after-HasRoom name value [] a = (new_line-HasRoom name value, tt)
lines_after-HasRoom name value (line ∷ lines) a = elim (Bool-cases (same_name name line)) [
  | inl s ↦
      let (_, _, room) = same_name-replace_value name value line a.0 s in
      rw (lines_after-same name value line lines s) (room, a.1)
  | inr s ↦
      rw (lines_after-other name value line lines s) (a.0, lines_after-HasRoom name value lines a.1)
]

header_list-set_found :
    (o : Option (Bool × List HeaderLine)) (name value : List ℕ) (p : HttpParser)
    → (set_found o name value p).0 ≡ more
    → (set_found o name value p).1.header_list ≡ changed o (new_line name value) p.header_list
unfolding add_header
header_list-set_found none name value p h = ground arith
header_list-set_found (some (false, lines)) name value p h = refl
header_list-set_found (some (true, lines)) name value p h = ground arith

header_list-set_header :
    (name value : List ℕ) (p : HttpParser)
    → (set_header name value p).0 ≡ more
    → (set_header name value p).1.header_list ≡ lines_after name value p.header_list
unfolding set_header
header_list-set_header name value p h =
    header_list-set_found (set_loop name value p.header_list) name value p h

-- After `set_header` has succeeded on lines whose buffers have room for their name and their value, a
-- cursor from the start finds the new value under the name, whether a line had the name, in any case
-- of its letters, or not, and whether the new value is longer than the old one or not; and every
-- line has room again.
pub cursor_find-set_header :
    (name value : List ℕ) (p : HttpParser)
    → All HasRoom p.header_list
    → (set_header name value p).0 ≡ more
    → ((cursor_find name (cursor_init (set_header name value p).1)).0 ≡ some value)
      × All HasRoom (set_header name value p).1.header_list
unfolding cursor_init
cursor_find-set_header name value p a h = rw (header_list-set_header name value p h) (
  cursor_find-lines_after name value p.header_list a,
  lines_after-HasRoom name value p.header_list a,
)
