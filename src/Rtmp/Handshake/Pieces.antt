-- ===== src/Rtmp/Handshake/Pieces.antt =====
-- crates/rtmp/src/handshake.rs, `ServerHandshake::feed`: bytes that arrive in pieces.
use stream_delay.Base.{
  ◌+◌, ◌≤◌, not, ◌++◌, ltb, ◌==◌, take, drop, length, ◌≡◌, refl, sym, ap, ◌∙◌, arith, append_assoc,
  Bool-cases, inl, inr,
}
use stream_delay.Flv.{Bytes}
use stream_delay.Rtmp.Wire.{take-append, drop-append}
use stream_delay.Rtmp.Handshake.{
  handshake_size, rtmp_version, need_more, done, unsupported_version, ServerState, ServerHandshake,
  version_of, Fed, from_done, from_c2, s0s1s2, with_sent, answer, from_c0c1, resume, server_feed,
}
use stream_delay.Rtmp.Handshake.Completes.{enough}

-- What becomes of an answer when the bytes `y` come after it.
abbrev pub followed : Bytes → Bytes → Fed ServerHandshake → Fed ServerHandshake
followed packet y (need_more, h, out) = with_sent out (server_feed packet y h)
followed packet y (done r, h, out) = (done (r ++ y), h, out)
followed packet y (unsupported_version v, h, out) =
    (unsupported_version v, record h { buf = h.buf ++ y }, out)

from_c2-append : (packet b y : Bytes) → from_c2 (b ++ y) ≡ followed packet y (from_c2 b)
unfolding from_c2 server_feed
from_c2-append packet b y = elim (Bool-cases (ltb (length b) handshake_size)) [
  | inl short ↦ rw short refl
  | inr long ↦
      rw
        (
          long,
          enough handshake_size b y (ground arith),
          drop-append handshake_size b y (ground arith),
        )
        (unfold from_done in refl)
]

-- What was sent before does not matter to what follows.
followed-with_sent :
    (packet y out : Bytes) (f : Fed ServerHandshake)
    → followed packet y (with_sent out f) ≡ with_sent out (followed packet y f)
followed-with_sent packet y out (need_more, h, sent) =
    let f = server_feed packet y h in ap (λ q. (f.0, f.1, q)) (append_assoc out sent f.2)
followed-with_sent packet y out (done r, h, sent) = refl
followed-with_sent packet y out (unsupported_version v, h, sent) = refl

answer-append :
    (packet c0c1 b y : Bytes)
    → answer packet c0c1 (b ++ y) ≡ followed packet y (answer packet c0c1 b)
unfolding answer
answer-append packet c0c1 b y = elim (Bool-cases (not (version_of c0c1 == rtmp_version))) [
  | inl other ↦ rw other refl
  | inr same ↦
      rw (same, from_c2-append packet b y)
        (sym (followed-with_sent packet y (s0s1s2 packet c0c1) (from_c2 b)))
]

-- The version and the client's first packet are `size` bytes.
from_c0c1-append :
    (packet b y : Bytes) → from_c0c1 packet (b ++ y) ≡ followed packet y (from_c0c1 packet b)
unfolding from_c0c1 server_feed
from_c0c1-append packet b y = elim (Bool-cases (ltb (length b) (1 + handshake_size))) [
  | inl short ↦ rw short refl
  | inr long ↦
      let size = 1 + handshake_size in
      let full : size ≤ length b = ground arith in
      rw (long, enough size b y full, take-append size b y full, drop-append size b y full)
        (answer-append packet (take size b) (drop size b) y)
]

resume-append :
    (state : ServerState) (packet b y : Bytes)
    → resume state packet (b ++ y) ≡ followed packet y (resume state packet b)
resume-append ServerState.wait_c0c1 packet b y = from_c0c1-append packet b y
resume-append ServerState.wait_c2 packet b y = from_c2-append packet b y
resume-append ServerState.finished packet b y = unfold from_done in refl

server_feed-resume :
    (packet x : Bytes) (h : ServerHandshake)
    → server_feed packet x h ≡ resume h.state packet (h.buf ++ x)
unfolding server_feed
server_feed-resume packet x h = refl

-- Bytes fed to the server in two pieces give what they give at once, at every cut and in every state:
-- the same outcome, the same bytes sent and the same handshake left; where the first piece ended the
-- handshake, the second joins what is handed on, or, after an error, the buffer.
pub server_feed-append :
    (packet x y : Bytes) (h : ServerHandshake)
    → server_feed packet (x ++ y) h ≡ followed packet y (server_feed packet x h)
server_feed-append packet x y h =
    server_feed-resume packet (x ++ y) h
    ∙ ap (resume h.state packet) (sym (append_assoc h.buf x y))
    ∙ resume-append h.state packet (h.buf ++ x) y
    ∙ ap (followed packet y) (sym (server_feed-resume packet x h))
