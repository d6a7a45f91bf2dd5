-- ===== src/HttpParser/Message/Total.antt =====
-- The loop of __parse_message_header: its fuel, and the positions that it reaches.
use mathlib.Core.Path.{subst}
use demo_submodule.Prelude.{
  ℕ, zero, suc, ◌-◌, ◌≤◌, ◌<◌, ◌≡◌, ◌≢◌, refl, Bool, true, false, Option, some, List, arith,
  if◌then◌else◌, length, drop, length-drop,
}
use demo_submodule.HttpParser.{
  HttpParser, HeaderState, start_line, header_name, header_value, header_complete, Ret, done,
  header_complete_p, is_complete,
}
use demo_submodule.HttpParser.Frame.{SameBuffer, Advances}
use demo_submodule.HttpParser.StartLine.Progress.{parse_start_line-Advances}
use demo_submodule.HttpParser.Field.Progress.{
  parse_header_name-Advances, parse_header_value-Advances,
}
use demo_submodule.HttpParser.Message.{header_step, left, header_loop, parse_message_header}

header_step-Advances :
    (state : HeaderState) (ptr : List ℕ) (p : HttpParser)
    → Advances (length ptr) p (header_step state ptr p).0 (header_step state ptr p).1
unfolding header_step
header_step-Advances start_line ptr p = parse_start_line-Advances ptr p
header_step-Advances header_value ptr p = parse_header_value-Advances ptr p
header_step-Advances _ ptr p = parse_header_name-Advances ptr p

-- What the loop comes to: an answer, with the offset inside the message; 1 is answered exactly
-- with the header complete.
pub record Answers (message : List ℕ) (p : HttpParser) (reply : Option (Ret × HttpParser))
    : Type 0 where
  pub ret : Ret
  pub state : HttpParser
  pub reply_eq : reply ≡ some (ret, state)
  pub lower : p.header_offset ≤ state.header_offset
  pub upper : state.header_offset ≤ length message
  pub complete : ret ≡ done → header_complete_p state ≡ true
  pub incomplete : ret ≢ done → header_complete_p state ≡ false
  pub same : SameBuffer p state

SameBuffer-trans : (p q r : HttpParser) → SameBuffer p q → SameBuffer q r → SameBuffer p r
SameBuffer-trans p q r s t = ground arith

left_complete :
    (state : HeaderState) (q : HttpParser) → left state q ≡ true → header_complete_p q ≡ true
left_complete header_name q h = h
left_complete header_complete q h = h
left_complete start_line q h = absurd (ground arith)
left_complete header_value q h = absurd (ground arith)

left-incomplete :
    (state : HeaderState) (q : HttpParser)
    → left state q ≡ false
    → q.header_state ≡ state
    → header_complete_p q ≡ false
unfolding header_complete_p is_complete
left-incomplete header_name q h e = h
left-incomplete header_complete q h e = h
left-incomplete start_line q h e = rw e refl
left-incomplete header_value q h e = rw e refl

-- One round: it leaves, or it stops, or the rounds that follow answer.
round-Answers :
    (message : List ℕ) (p : HttpParser) (leaves : Bool) (ret : Ret) (q : HttpParser)
    (again : Option (Ret × HttpParser))
    → p.header_offset ≤ length message
    → Advances (length message - p.header_offset) p ret q
    → (leaves ≡ true → header_complete_p q ≡ true)
    → (leaves ≡ false → ret ≢ done → header_complete_p q ≡ false)
    → (ret ≡ done → Answers message q again)
    → Answers message p
        (if leaves then some (done, q) else elim ret [ done ↦ again | other ↦ some (other, q) ])
round-Answers message p true ret q again h a l i k = record {
  ret = done;
  state = q;
  reply_eq = refl;
  lower = a.lower;
  upper = omega arith;
  complete = λ e. l refl;
  incomplete = λ e. absurd (e refl);
  same = a.same;
}
round-Answers message p false done q again h a l i k =
    let r = k refl in
    record {
      ret = r.ret;
      state = r.state;
      reply_eq = r.reply_eq;
      lower = omega (arith, r.lower, a.lower);
      upper = r.upper;
      complete = r.complete;
      incomplete = r.incomplete;
      same = SameBuffer-trans p q r.state a.same r.same;
    }
round-Answers message p false other q again h a l i k = record {
  ret = other;
  state = q;
  reply_eq = refl;
  lower = a.lower;
  upper = omega arith;
  complete = λ e. absurd (ground arith);
  incomplete = i refl;
  same = a.same;
}

header_loop-Answers :
    (fuel : ℕ) (message : List ℕ) (p : HttpParser)
    → p.header_offset ≤ length message
    → length message - p.header_offset < fuel
    → Answers message p (header_loop fuel message p)
unfolding header_loop
header_loop-Answers zero message p h f = elim f [ ]
header_loop-Answers (suc fuel) message p h f =
    let ptr = drop p.header_offset message in
    let ret = (header_step p.header_state ptr p).0 in
    let q = (header_step p.header_state ptr p).1 in
    let e = length-drop p.header_offset message in
    let a : Advances (length message - p.header_offset) p ret q =
      subst (λ n. Advances n p ret q) e (header_step-Advances p.header_state ptr p) in
    round-Answers message p (left p.header_state q) ret q (header_loop fuel message q) h a
      (left_complete p.header_state q) (λ l d. left-incomplete p.header_state q l (a.stays d))
      (λ d.
        header_loop-Answers fuel message q (omega (arith, a.upper))
          (omega (arith, a.strict d, a.upper)))

-- Parsing the header always comes to an answer: the offset has moved forward and stands inside
-- the message, and the answer 1 comes exactly when the header is complete.
pub parse_message_header-Answers :
    (message : List ℕ) (p : HttpParser)
    → p.header_offset ≤ length message
    → Answers message p (parse_message_header message p)
unfolding parse_message_header
parse_message_header-Answers message p h =
    header_loop-Answers (suc (length message)) message p h (omega arith)
