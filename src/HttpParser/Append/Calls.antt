-- ===== src/HttpParser/Append/Calls.antt =====
-- What a call of `append_message` comes to, and what `get_body` returns after it.
use mathlib.Core.Path.{subst}
use demo_submodule.Prelude.{
  ℕ, ◌+◌, ◌-◌, ◌%◌, ◌≤◌, ◌<◌, ◌≡◌, ◌≢◌, refl, ap, sym, ◌∙◌, Bool, true, some, inl, inr, List, ◌++◌,
  arith, Bool-cases, length, take, drop, length-drop, length-append, length-take-le,
}
use demo_submodule.Cstring.{size_mod}
use demo_submodule.HttpParser.{HttpParser, Ret, no_memory, more, done, size_max, header_complete_p}
use demo_submodule.HttpParser.Append.{
  reserve, store, Reply, total, append_stored, append_message, get_body,
}
use demo_submodule.HttpParser.Append.Room.{reserve_lem}
use demo_submodule.HttpParser.Append.Body.{IsReceiving, Settles, ChunksComplete, end_of}
use demo_submodule.HttpParser.Append.Received.{append_stored-Settles, store-IsReceiving}

-- The reply to the bytes `buf`.
pub record Receives (buf : List ℕ) (p : HttpParser) (reply : Reply) : Type 0 where
  pub ret : Ret
  pub left : ℕ
  pub state : HttpParser
  pub reply_eq : reply ≡ some (ret, left, state)
  pub room : ret ≢ no_memory → state.msgsize < state.bufsize
  pub waits :
      ret ≡ more → IsReceiving state × (state.msgbuf ≡ p.msgbuf ++ buf) × (left ≡ length buf)
  pub complete :
      ret ≡ done
      → (state.complete ≡ true)
        × (header_complete_p state ≡ true)
        × (state.msgbuf ≡ p.msgbuf ++ buf)
  pub ends : ret ≡ done → (state.msgsize ≡ end_of state) × (state.msgsize ≤ p.msgsize + length buf)
  pub chunks : ret ≡ done → ChunksComplete state
  pub consumed : ret ≡ done → (left + p.msgsize) % size_mod ≡ state.msgsize % size_mod

-- A change of the buffer's size alone.
resized-IsReceiving :
    (p : HttpParser) (bufsize : ℕ) (memory : List Bool)
    → IsReceiving p
    → IsReceiving (record p { bufsize = bufsize; memory = memory })
unfolding header_complete_p
resized-IsReceiving p bufsize memory v = record {
  stored = v.stored;
  header = v.header;
  chunks = v.chunks;
  incomplete = v.incomplete;
}

failed-Receives :
    (buf : List ℕ) (p q : HttpParser) → Receives buf p (some (no_memory, length buf, q))
failed-Receives buf p q = record {
  ret = no_memory;
  left = length buf;
  state = q;
  reply_eq = refl;
  room = λ h. absurd (h refl);
  waits = λ h. absurd (ground arith);
  complete = λ h. absurd (ground arith);
  ends = λ h. absurd (ground arith);
  chunks = λ h. absurd (ground arith);
  consumed = λ h. absurd (ground arith);
}

stored-Receives :
    (buf : List ℕ) (p q : HttpParser) (reply : Reply)
    → (store buf q).msgbuf ≡ p.msgbuf ++ buf
    → (store buf q).msgsize ≡ p.msgsize + length buf
    → p.msgsize + length buf < (store buf q).bufsize
    → Settles (length buf) (store buf q) reply
    → Receives buf p reply
stored-Receives buf p q reply b m z r = record {
  ret = r.ret;
  left = r.left;
  state = r.state;
  reply_eq = r.reply_eq;
  room = λ _. omega (arith, r.within, r.bufsize);
  waits = λ d. let w = r.waits d in (w.0, r.msgbuf ∙ b, w.2);
  complete = λ d. let c = r.complete d in (c.0, c.1, r.msgbuf ∙ b);
  ends = λ d. (r.ends d, omega (arith, r.within));
  chunks = r.chunks;
  consumed = λ d. omega (arith, r.consumed d);
}

msgsize-store :
    (buf : List ℕ) (p : HttpParser)
    → ((store buf p).msgsize ≡ p.msgsize + length buf) × ((store buf p).bufsize ≡ p.bufsize)
unfolding store
msgsize-store buf p = (refl, refl)

-- A call for a parser that still receives always comes to an answer. Unless memory ran out the
-- buffer has room for a NUL behind the message. At 0 all bytes are stored and the parser still
-- receives. At 1 the header is complete; the message ends where its lengths say, inside the bytes
-- received; if it has no length, it is chunked, and its last chunk and its trailer have been read;
-- and `*n` bytes of the call belong to it (modulo 2^64).
pub append_message-Receives :
    (buf : List ℕ) (p : HttpParser)
    → IsReceiving p
    → p.msgsize + length buf < size_mod
    → Receives buf p (append_message buf p)
unfolding append_message
append_message-Receives buf p v k =
    let n = length buf in
    let (same, enough, _) = reserve_lem n p in
    let q = (reserve n p).1 in
    let v' : IsReceiving q =
      subst IsReceiving (sym same) (resized-IsReceiving p q.bufsize q.memory v) in
    let (w, b) = store-IsReceiving buf q v' in
    let (m, z) = msgsize-store buf q in
    elim (Bool-cases (reserve n p).0) [
      | inl a ↦
          simp (v.incomplete, a)
            (stored-Receives buf p q (append_stored n (store buf q))
              (b ∙ ap (λ (r : HttpParser). r.msgbuf ++ buf) same)
              (m ∙ ap (λ (r : HttpParser). r.msgsize + length buf) same)
              (omega (arith, enough a, z))
              (append_stored-Settles n (store buf q) w
                (omega (arith, m, ap (λ (r : HttpParser). r.msgsize) same))))
      | inr a ↦ simp (v.incomplete, a) (failed-Receives buf p q)
    ]

body_size :
    (p : HttpParser)
    → p.msgsize ≡ end_of p
    → p.transfer_length ≢ size_max
    → p.header_offset + p.transfer_length < size_mod
    → (p.msgsize + size_mod - p.header_offset) % size_mod ≡ p.transfer_length
unfolding total
body_size p e t k = ground arith

get_body_lem :
    (p : HttpParser) (message : List ℕ)
    → (p.complete ≡ true) × (header_complete_p p ≡ true) × (p.msgbuf ≡ message)
    → p.msgsize ≡ end_of p
    → p.transfer_length ≢ size_max
    → p.header_offset + p.transfer_length < size_mod
    → get_body p ≡ some (take p.transfer_length (drop p.header_offset message), p.transfer_length)
unfolding get_body
get_body_lem p message c e t k = simp (c.0, c.1, body_size p e t k, c.2)

-- The part of a list behind `first` bytes is as long as asked, if the list is long enough.
length-part :
    (first size : ℕ) (xs : List ℕ)
    → first + size ≤ length xs
    → length (take size (drop first xs)) ≡ size
length-part first size xs h =
    length-take-le size (drop first xs) (omega (arith, length-drop first xs))

-- When a call completes a message whose length is known, all the bytes of its body have been
-- received, and `get_body` returns these and their number: as many as the length says, behind the
-- header in all the bytes received. The end of the message has to fit a `size_t`.
pub get_body-append_message :
    (buf : List ℕ) (p q : HttpParser) (n : ℕ)
    → IsReceiving p
    → p.msgsize + length buf < size_mod
    → append_message buf p ≡ some (done, n, q)
    → q.transfer_length ≢ size_max
    → q.header_offset + q.transfer_length < size_mod
    → (length (take q.transfer_length (drop q.header_offset (p.msgbuf ++ buf))) ≡ q.transfer_length)
      × (get_body q
          ≡ some
              (take q.transfer_length (drop q.header_offset (p.msgbuf ++ buf)), q.transfer_length))
unfolding total
get_body-append_message buf p q n v k e t f =
    let r = append_message-Receives buf p v k in
    let state : r.state ≡ q = ground (arith, r.reply_eq) in
    let ret : r.ret ≡ done = ground (arith, r.reply_eq) in
    let (ends, inside) =
      subst (λ (s : HttpParser). (s.msgsize ≡ end_of s) × (s.msgsize ≤ p.msgsize + length buf))
        state (r.ends ret) in
    let received : length (p.msgbuf ++ buf) ≡ p.msgsize + length buf =
      omega (arith, length-append p.msgbuf buf, v.stored) in
    let room : q.header_offset + q.transfer_length ≤ p.msgsize + length buf =
      ground (arith, ends, inside) in
    (
      length-part q.header_offset q.transfer_length (p.msgbuf ++ buf) (omega arith),
      get_body_lem q (p.msgbuf ++ buf)
          (subst
            (λ (s : HttpParser).
              (s.complete ≡ true) × (header_complete_p s ≡ true) × (s.msgbuf ≡ p.msgbuf ++ buf))
            state (r.complete ret))
          ends t f,
    )
