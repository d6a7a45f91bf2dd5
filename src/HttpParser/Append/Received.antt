-- ===== src/HttpParser/Append/Received.antt =====
-- What a call of `append_message` comes to, once the bytes are stored.
use demo_submodule.Prelude.{
  ℕ, ◌+◌, ◌%◌, ◌≤◌, ◌<◌, ◌≡◌, ◌≢◌, refl, ap, sym, ◌∙◌, true, false, Option, some, inl, inr, List,
  ◌++◌, arith, Bool-cases, length, take, length-append,
}
use demo_submodule.Cstring.{size_mod}
use demo_submodule.HttpParser.{
  HttpParser, Ret, invalid, no_memory, more, done, header_complete_p, is_complete,
}
use demo_submodule.HttpParser.Message.{parse_message_header}
use demo_submodule.HttpParser.Message.Total.{Answers, parse_message_header-Answers}
use demo_submodule.HttpParser.Frame.{SameBuffer}
use demo_submodule.HttpParser.Append.{
  store, Reply, append_body, start_body, take_header, append_stored,
}
use demo_submodule.HttpParser.Append.Body.{
  IsReceiving, Settles, append_body-Settles, fails-Settles, take-length,
}

Settles-of_same :
    (n : ℕ) (p q : HttpParser) (reply : Reply)
    → q.msgbuf ≡ p.msgbuf
    → q.bufsize ≡ p.bufsize
    → q.msgsize ≡ p.msgsize
    → Settles n q reply
    → Settles n p reply
Settles-of_same n p q reply b z m r = record {
  ret = r.ret;
  left = r.left;
  state = r.state;
  reply_eq = r.reply_eq;
  msgbuf = r.msgbuf ∙ b;
  bufsize = r.bufsize ∙ z;
  within = omega (arith, r.within);
  waits = λ d. let w = r.waits d in (w.0, w.1 ∙ m, w.2);
  complete = r.complete;
  ends = r.ends;
  chunks = r.chunks;
  consumed = λ d. ap (λ x. (r.left + x) % size_mod) (sym m) ∙ r.consumed d;
}

start_body_lem :
    (p : HttpParser)
    → ((start_body p).msgbuf ≡ p.msgbuf)
      × ((start_body p).bufsize ≡ p.bufsize)
      × ((start_body p).msgsize ≡ p.msgsize)
      × ((start_body p).header_offset ≡ p.header_offset)
      × ((start_body p).complete ≡ p.complete)
      × ((start_body p).header_state ≡ p.header_state)
      × ((start_body p).chunked ≡ true → (start_body p).chunk_offset ≡ p.header_offset)
unfolding start_body
start_body_lem p = ground arith

start_body-Settles :
    (n : ℕ) (p q : HttpParser)
    → IsReceiving p
    → p.msgsize < size_mod
    → SameBuffer p q
    → q.header_offset ≤ p.msgsize
    → header_complete_p q ≡ true
    → Settles n p (append_body n (start_body q))
unfolding header_complete_p
start_body-Settles n p q v k s l h =
    let (msgbuf, bufsize, msgsize, offset, incomplete, state, chunk) = start_body_lem q in
    let r = start_body q in
    Settles-of_same n p r (append_body n r) (msgbuf ∙ s.msgbuf) (bufsize ∙ s.bufsize)
      (msgsize ∙ s.msgsize)
      (append_body-Settles n r
        (record {
          stored = ap length (msgbuf ∙ s.msgbuf) ∙ v.stored ∙ sym (msgsize ∙ s.msgsize);
          header = omega arith;
          chunks = λ _ c. omega (arith, chunk c);
          incomplete = incomplete ∙ s.complete ∙ v.incomplete;
        })
        (ap is_complete state ∙ h) (omega arith))

header_waits-Settles :
    (n : ℕ) (p q : HttpParser)
    → IsReceiving p
    → SameBuffer p q
    → q.header_offset ≤ p.msgsize
    → header_complete_p q ≡ false
    → Settles n p (some (more, n, q))
header_waits-Settles n p q v s l h = record {
  ret = more;
  left = n;
  state = q;
  reply_eq = refl;
  msgbuf = s.msgbuf;
  bufsize = s.bufsize;
  within = omega (arith, s.msgsize);
  waits = λ d. (
    record {
      stored = ap length s.msgbuf ∙ v.stored ∙ sym s.msgsize;
      header = omega (arith, s.msgsize);
      chunks = λ c _. absurd (ground arith);
      incomplete = s.complete ∙ v.incomplete;
    },
    s.msgsize,
    refl,
  );
  complete = λ d. absurd (ground arith);
  ends = λ d. absurd (ground arith);
  chunks = λ d. absurd (ground arith);
  consumed = λ d. absurd (ground arith);
}

take_header-Settles :
    (n : ℕ) (p : HttpParser) (message : List ℕ) (reply : Option (Ret × HttpParser))
    → IsReceiving p
    → p.msgsize < size_mod
    → length message ≡ p.msgsize
    → Answers message p reply
    → Settles n p (take_header n reply)
take_header-Settles n p message reply v k e a =
    rw a.reply_eq (go a.ret a.state a.same (omega (arith, a.upper)) a.complete a.incomplete)
  where
    go :
        (ret : Ret) (q : HttpParser)
        → SameBuffer p q
        → q.header_offset ≤ p.msgsize
        → (ret ≡ done → header_complete_p q ≡ true)
        → (ret ≢ done → header_complete_p q ≡ false)
        → Settles n p (take_header n (some (ret, q)))
    go done q s l c i = start_body-Settles n p q v k s l (c refl)
    go more q s l c i = header_waits-Settles n p q v s l (i (λ d. absurd (ground arith)))
    go invalid q s l c i =
        fails-Settles n p q invalid (ground arith) (ground arith) s.msgbuf s.bufsize s.msgsize
    go no_memory q s l c i =
        fails-Settles n p q no_memory (ground arith) (ground arith) s.msgbuf s.bufsize s.msgsize

pub append_stored-Settles :
    (n : ℕ) (p : HttpParser)
    → IsReceiving p
    → p.msgsize < size_mod
    → Settles n p (append_stored n p)
unfolding append_stored
append_stored-Settles n p v k = elim (Bool-cases (header_complete_p p)) [
  | inl h ↦ rw h (append_body-Settles n p v h k)
  | inr h ↦
      let whole = ap length (take-length p.msgbuf p.msgsize v.stored) ∙ v.stored in
      let message = take p.msgsize p.msgbuf in
      rw h (
        take_header-Settles n p message (parse_message_header message p) v k whole
          (parse_message_header-Answers message p (omega (arith, whole, v.header))))
]

pub store-IsReceiving :
    (buf : List ℕ) (p : HttpParser)
    → IsReceiving p
    → IsReceiving (store buf p) × ((store buf p).msgbuf ≡ p.msgbuf ++ buf)
unfolding store header_complete_p
store-IsReceiving buf p v =
    let kept = take-length p.msgbuf p.msgsize v.stored in
    (
      record {
        stored = rw kept (length-append p.msgbuf buf ∙ ap (λ k. k + length buf) v.stored);
        header = omega (arith, v.header);
        chunks = λ h c. omega (arith, v.chunks h c);
        incomplete = v.incomplete;
      },
      ap (λ l. l ++ buf) kept,
    )
