-- ===== src/HttpParser/Frame.antt =====
-- What the parsing of a header must keep: it moves the header offset forward, inside the bytes at
-- hand, and leaves the buffer and the position in the body alone.
use demo_submodule.Prelude.{◌≢◌, ℕ, ◌+◌, ◌≤◌, ◌<◌, ◌≡◌, refl}
use demo_submodule.HttpParser.{HttpParser, Ret, done}

pub record SameBuffer (p q : HttpParser) : Type 0 where
  pub msgbuf : q.msgbuf ≡ p.msgbuf
  pub msgsize : q.msgsize ≡ p.msgsize
  pub bufsize : q.bufsize ≡ p.bufsize
  pub complete : q.complete ≡ p.complete
  pub chunk_offset : q.chunk_offset ≡ p.chunk_offset

-- The reply of a step that had `n` bytes to read.
pub record Advances (n : ℕ) (p : HttpParser) (ret : Ret) (q : HttpParser) : Type 0 where
  pub lower : p.header_offset ≤ q.header_offset
  pub upper : q.header_offset ≤ p.header_offset + n
  pub strict : ret ≡ done → p.header_offset < q.header_offset
  pub stays : ret ≢ done → q.header_state ≡ p.header_state
  pub same : SameBuffer p q

pub SameBuffer-refl : (p : HttpParser) → SameBuffer p p
SameBuffer-refl p = record {
  msgbuf = refl;
  msgsize = refl;
  bufsize = refl;
  complete = refl;
  chunk_offset = refl;
}

-- A change that leaves the position in the header alone too.
pub record SamePlace (p q : HttpParser) : Type 0 where
  pub buffer : SameBuffer p q
  pub header_offset : q.header_offset ≡ p.header_offset
  pub header_state : q.header_state ≡ p.header_state
