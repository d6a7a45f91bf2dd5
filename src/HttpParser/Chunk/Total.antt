-- ===== src/HttpParser/Chunk/Total.antt =====
-- The loop of __parse_chunk: its fuel, and the positions that it reaches.
use mathlib.Core.Path.{subst}
use demo_submodule.Prelude.{
  ℕ, zero, suc, ◌+◌, ◌-◌, ◌≤◌, ◌<◌, ◌≡◌, refl, Bool, true, false, Option, none, some, List, [],
  arith, if◌then◌else◌, length, drop, length-drop,
}
use demo_submodule.Cstring.{strtol16}
use demo_submodule.HttpParser.{HttpParser, ChunkState, chunk_data, Ret, done}
use demo_submodule.HttpParser.StartLine.{LineScan, bad, partial, line, scan_line}
use demo_submodule.HttpParser.StartLine.Progress.{length-scan_line}
use demo_submodule.HttpParser.Chunk.{
  take_chunk, take_chunk_line, parse_chunk_data, take_trailer_line, parse_trailer_part, chunk_step,
  left, is_chunk_complete, chunk_loop, parse_chunk,
}

-- The parsing of chunks changes the position in the body and the state of the chunks alone.
pub record SameMessage (p q : HttpParser) : Type 0 where
  pub rest : q ≡ record p { chunk_offset = q.chunk_offset; chunk_state = q.chunk_state }

-- The reply of a step that had `n` bytes to read.
record Advances (n : ℕ) (p : HttpParser) (ret : Ret) (q : HttpParser) : Type 0 where
  lower : p.chunk_offset ≤ q.chunk_offset
  upper : q.chunk_offset ≤ p.chunk_offset + n
  strict : ret ≡ done → p.chunk_offset < q.chunk_offset
  same : SameMessage p q

take_chunk-Advances :
    (i len : ℕ) (size : Option ℕ) (p : HttpParser)
    → i + 2 ≤ len
    → Advances len p (take_chunk i len size p).0 (take_chunk i len size p).1
unfolding take_chunk
take_chunk-Advances i len none p h = ground arith
take_chunk-Advances i len (some v) p h = ground arith

take_chunk_line-Advances :
    (len : ℕ) (scan : LineScan) (p : HttpParser)
    → ((text : List ℕ) → scan ≡ line text → length text + 2 ≤ len)
    → Advances len p (take_chunk_line len scan p).0 (take_chunk_line len scan p).1
unfolding take_chunk_line
take_chunk_line-Advances len bad p h = ground arith
take_chunk_line-Advances len partial p h = ground arith
take_chunk_line-Advances len (line text) p h =
    take_chunk-Advances (length text) len (strtol16 text) p (h text refl)

take_trailer_line-Advances :
    (len : ℕ) (scan : LineScan) (p : HttpParser)
    → ((text : List ℕ) → scan ≡ line text → length text + 2 ≤ len)
    → Advances len p (take_trailer_line scan p).0 (take_trailer_line scan p).1
unfolding take_trailer_line
take_trailer_line-Advances len bad p h = ground arith
take_trailer_line-Advances len partial p h = ground arith
take_trailer_line-Advances len (line text) p h = ground (arith, h text refl)

chunk_step-Advances :
    (state : ChunkState) (ptr : List ℕ) (p : HttpParser)
    → Advances (length ptr) p (chunk_step state ptr p).0 (chunk_step state ptr p).1
unfolding chunk_step parse_chunk_data parse_trailer_part
chunk_step-Advances chunk_data ptr p =
    take_chunk_line-Advances (length ptr) (scan_line false 1024 [] ptr) p
      (length-scan_line false 1024 ptr)
chunk_step-Advances _ ptr p =
    take_trailer_line-Advances (length ptr) (scan_line false 8192 [] ptr) p
      (length-scan_line false 8192 ptr)

-- What the loop comes to: an answer, with the offset inside the message; 1 is answered exactly
-- with the last chunk read.
pub record Answers (message : List ℕ) (p : HttpParser) (reply : Option (Ret × HttpParser))
    : Type 0 where
  pub ret : Ret
  pub state : HttpParser
  pub reply_eq : reply ≡ some (ret, state)
  pub lower : p.chunk_offset ≤ state.chunk_offset
  pub upper : state.chunk_offset ≤ length message
  pub complete : ret ≡ done → is_chunk_complete state.chunk_state ≡ true
  pub same : SameMessage p state

SameMessage-trans : (p q r : HttpParser) → SameMessage p q → SameMessage q r → SameMessage p r
SameMessage-trans p q r s t = ground arith

left_complete :
    (state : ChunkState) (q : HttpParser)
    → left state q ≡ true
    → is_chunk_complete q.chunk_state ≡ true
left_complete chunk_data q h = absurd (ground arith)
left_complete _ q h = h

-- One round: it leaves, or it stops, or the rounds that follow answer.
round-Answers :
    (message : List ℕ) (p : HttpParser) (leaves : Bool) (ret : Ret) (q : HttpParser)
    (again : Option (Ret × HttpParser))
    → p.chunk_offset ≤ length message
    → Advances (length message - p.chunk_offset) p ret q
    → (leaves ≡ true → is_chunk_complete q.chunk_state ≡ true)
    → (ret ≡ done → Answers message q again)
    → Answers message p
        (if leaves then some (done, q) else elim ret [ done ↦ again | other ↦ some (other, q) ])
round-Answers message p true ret q again h a l k = record {
  ret = done;
  state = q;
  reply_eq = refl;
  lower = a.lower;
  upper = omega arith;
  complete = λ e. l refl;
  same = a.same;
}
round-Answers message p false done q again h a l k =
    let r = k refl in
    record {
      ret = r.ret;
      state = r.state;
      reply_eq = r.reply_eq;
      lower = omega (arith, r.lower, a.lower);
      upper = r.upper;
      complete = r.complete;
      same = SameMessage-trans p q r.state a.same r.same;
    }
round-Answers message p false other q again h a l k = record {
  ret = other;
  state = q;
  reply_eq = refl;
  lower = a.lower;
  upper = omega arith;
  complete = λ e. absurd (ground arith);
  same = a.same;
}

chunk_loop-Answers :
    (fuel : ℕ) (message : List ℕ) (p : HttpParser)
    → p.chunk_offset ≤ length message
    → length message - p.chunk_offset < fuel
    → Answers message p (chunk_loop fuel message p)
unfolding chunk_loop
chunk_loop-Answers zero message p h f = elim f [ ]
chunk_loop-Answers (suc fuel) message p h f =
    let ptr = drop p.chunk_offset message in
    let ret = (chunk_step p.chunk_state ptr p).0 in
    let q = (chunk_step p.chunk_state ptr p).1 in
    let e = length-drop p.chunk_offset message in
    let a : Advances (length message - p.chunk_offset) p ret q =
      subst (λ n. Advances n p ret q) e (chunk_step-Advances p.chunk_state ptr p) in
    round-Answers message p (left p.chunk_state q) ret q (chunk_loop fuel message q) h a
      (left_complete p.chunk_state q)
      (λ d.
        chunk_loop-Answers fuel message q (omega (arith, a.upper))
          (omega (arith, a.strict d, a.upper)))

-- Parsing the chunks always comes to an answer: the offset has moved forward and stands inside the
-- message, and the answer 1 comes with the last chunk and its trailer read.
pub parse_chunk-Answers :
    (message : List ℕ) (p : HttpParser)
    → p.chunk_offset ≤ length message
    → Answers message p (parse_chunk message p)
unfolding parse_chunk
parse_chunk-Answers message p h =
    chunk_loop-Answers (suc (length message)) message p h (omega arith)
