-- ===== src/HttpParser/Append/Body.antt =====
-- What the part of `append_message` behind the header comes to.
use demo_submodule.Prelude.{
  ℕ, ◌+◌, ◌-◌, ◌%◌, ◌≤◌, ◌<◌, ◌≡◌, ◌≢◌, refl, ap, ◌∙◌, true, false, Option, some, inl, inr, List,
  [], ◌∷◌, arith, leb, ◌==◌, Bool-cases, ==_iff, if◌then◌else◌, length, take,
}
use demo_submodule.Cstring.{size_mod}
use demo_submodule.HttpParser.{
  HttpParser, Ret, invalid, no_memory, more, done, size_max, header_complete_p,
}
use demo_submodule.HttpParser.Chunk.{parse_chunk, is_chunk_complete}
use demo_submodule.HttpParser.Chunk.Total.{
  Answers as ChunkAnswers, SameMessage, parse_chunk-Answers,
}
use demo_submodule.HttpParser.Append.{Reply, complete_at, total, take_chunks, append_body}

-- A parser between two calls, with its message incomplete.
pub record IsReceiving (p : HttpParser) : Type 0 where
  pub stored : length p.msgbuf ≡ p.msgsize
  pub header : p.header_offset ≤ p.msgsize
  pub chunks : header_complete_p p ≡ true → p.chunked ≡ true → p.chunk_offset ≤ p.msgsize
  pub incomplete : p.complete ≡ false

-- Where a message that is complete ends.
abbrev pub end_of : HttpParser → ℕ
end_of p = if p.transfer_length == size_max then p.chunk_offset else total p

-- A body that comes in chunks has its last chunk and its trailer.
abbrev pub ChunksComplete : HttpParser → Type 0
ChunksComplete p =
    p.transfer_length ≡ size_max → (p.chunked ≡ true) × (is_chunk_complete p.chunk_state ≡ true)

-- The reply for a parser `p` that has stored all the bytes, `n` of them in this call.
pub record Settles (n : ℕ) (p : HttpParser) (reply : Reply) : Type 0 where
  pub ret : Ret
  pub left : ℕ
  pub state : HttpParser
  pub reply_eq : reply ≡ some (ret, left, state)
  pub msgbuf : state.msgbuf ≡ p.msgbuf
  pub bufsize : state.bufsize ≡ p.bufsize
  pub within : state.msgsize ≤ p.msgsize
  pub waits : ret ≡ more → IsReceiving state × (state.msgsize ≡ p.msgsize) × (left ≡ n)
  pub complete : ret ≡ done → (state.complete ≡ true) × (header_complete_p state ≡ true)
  pub ends : ret ≡ done → state.msgsize ≡ end_of state
  pub chunks : ret ≡ done → ChunksComplete state
  pub consumed : ret ≡ done → (left + p.msgsize) % size_mod ≡ (n + state.msgsize) % size_mod

consumed_lem :
    (n size at : ℕ)
    → at ≤ size
    → size < size_mod
    → ((n + size_mod - (size + size_mod - at) % size_mod) % size_mod + size) % size_mod
      ≡ (n + at) % size_mod
consumed_lem n size at h k = omega arith

pub complete_at-Settles :
    (at n : ℕ) (p q : HttpParser)
    → SameMessage p q
    → header_complete_p p ≡ true
    → p.msgsize < size_mod
    → at ≤ p.msgsize
    → at ≡ end_of q
    → ChunksComplete q
    → Settles n p (complete_at at n q)
unfolding complete_at header_complete_p total
complete_at-Settles at n p q s h k l e b = record {
  ret = done;
  left = (n + size_mod - (q.msgsize + size_mod - at) % size_mod) % size_mod;
  state = record q { msgsize = at; complete = true };
  reply_eq = refl;
  msgbuf = ground arith;
  bufsize = ground arith;
  within = l;
  waits = λ d. absurd (ground arith);
  complete = λ d. (refl, ground arith);
  ends = λ d. e;
  chunks = λ d. b;
  consumed = λ d. rw (ap (λ r. r.msgsize) s.rest) (consumed_lem n p.msgsize at l k);
}

pub waits-Settles :
    (n : ℕ) (p q : HttpParser)
    → SameMessage p q
    → IsReceiving p
    → (q.chunked ≡ true → q.chunk_offset ≤ p.msgsize)
    → Settles n p (some (more, n, q))
waits-Settles n p q s v c = record {
  ret = more;
  left = n;
  state = q;
  reply_eq = refl;
  msgbuf = ground arith;
  bufsize = ground arith;
  within = ground arith;
  waits = λ d. (
    record {
      stored = ground arith;
      header = ground arith;
      chunks = λ h k. omega (arith, c k, ap (λ r. r.msgsize) s.rest);
      incomplete = ground arith;
    },
    ground arith,
    refl,
  );
  complete = λ d. absurd (ground arith);
  ends = λ d. absurd (ground arith);
  chunks = λ d. absurd (ground arith);
  consumed = λ d. absurd (ground arith);
}

pub fails-Settles :
    (n : ℕ) (p q : HttpParser) (ret : Ret)
    → ret ≢ more
    → ret ≢ done
    → q.msgbuf ≡ p.msgbuf
    → q.bufsize ≡ p.bufsize
    → q.msgsize ≡ p.msgsize
    → Settles n p (some (ret, n, q))
fails-Settles n p q ret a b m k z = record {
  ret = ret;
  left = n;
  state = q;
  reply_eq = refl;
  msgbuf = m;
  bufsize = k;
  within = omega arith;
  waits = λ d. absurd (a d);
  complete = λ d. absurd (b d);
  ends = λ d. absurd (b d);
  chunks = λ d. absurd (b d);
  consumed = λ d. absurd (b d);
}

pub take-length : (xs : List ℕ) (n : ℕ) → length xs ≡ n → take n xs ≡ xs
take-length [] n h = rw (← h) refl
take-length (x ∷ xs) n h = rw (← h) (ap (◌∷◌ x) (take-length xs (length xs) refl))

pub take_chunks-Settles :
    (n : ℕ) (p : HttpParser) (message : List ℕ) (reply : Option (Ret × HttpParser))
    → IsReceiving p
    → header_complete_p p ≡ true
    → p.msgsize < size_mod
    → p.transfer_length ≡ size_max
    → p.chunked ≡ true
    → length message ≡ p.msgsize
    → ChunkAnswers message p reply
    → Settles n p (take_chunks n reply)
take_chunks-Settles n p message reply v h k t c e a =
    rw a.reply_eq (go a.ret a.state a.same (omega (arith, a.upper)) a.complete)
  where
    go :
        (ret : Ret) (q : HttpParser)
        → SameMessage p q
        → q.chunk_offset ≤ p.msgsize
        → (ret ≡ done → is_chunk_complete q.chunk_state ≡ true)
        → Settles n p (take_chunks n (some (ret, q)))
    go done q s l d =
        let t' : q.transfer_length ≡ size_max = ground arith in
        complete_at-Settles q.chunk_offset n p q s h k l (ground arith)
          (λ _. (ground arith, d refl))
    go more q s l d = waits-Settles n p q s v (λ _. l)
    go invalid q s l d =
        fails-Settles n p q invalid (ground arith) (ground arith) (ground arith) (ground arith)
          (ground arith)
    go no_memory q s l d =
        fails-Settles n p q no_memory (ground arith) (ground arith) (ground arith) (ground arith)
          (ground arith)

pub SameMessage-refl : (p : HttpParser) → SameMessage p p
SameMessage-refl p = record { rest = refl }

pub append_body-Settles :
    (n : ℕ) (p : HttpParser)
    → IsReceiving p
    → header_complete_p p ≡ true
    → p.msgsize < size_mod
    → Settles n p (append_body n p)
unfolding append_body
append_body-Settles n p v h k = elim (Bool-cases (p.transfer_length == size_max)) [
  | inl t ↦ elim (Bool-cases p.chunked) [
    | inl c ↦ elim (Bool-cases (is_chunk_complete p.chunk_state)) [
      | inl d ↦
          simp (t, c, d)
            (complete_at-Settles p.chunk_offset n p p (SameMessage-refl p) h k (v.chunks h c)
              (ground arith) (λ _. (c, d)))
      | inr d ↦
          simp (t, c, d)
            (take_chunks-Settles n p (take p.msgsize p.msgbuf)
              (parse_chunk (take p.msgsize p.msgbuf) p) v h k ((==_iff _ _).0 t) c whole
              (parse_chunk-Answers (take p.msgsize p.msgbuf) p
                (omega (arith, whole, v.chunks h c))))
    ]
    | inr c ↦ simp (t, c) (waits-Settles n p p (SameMessage-refl p) v (λ e. cc))
  ]
  | inr t ↦ elim (Bool-cases (leb (total p) p.msgsize)) [
    | inl e ↦
        simp (t, e)
          (complete_at-Settles (total p) n p p (SameMessage-refl p) h k (ground arith)
            (ground arith) (λ u. absurd (ground arith)))
    | inr e ↦ simp (t, e) (waits-Settles n p p (SameMessage-refl p) v (λ c. v.chunks h c))
  ]
]
  where
    whole : length (take p.msgsize p.msgbuf) ≡ p.msgsize
    whole = ap length (take-length p.msgbuf p.msgsize v.stored) ∙ v.stored
