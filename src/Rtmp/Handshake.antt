-- ===== src/Rtmp/Handshake.antt =====
-- crates/rtmp/src/handshake.rs: the handshake of either side. The random bytes of a packet, from
-- crate `rand`, are an argument; what a side appends to `out` is part of its value.
pub mod Completes
pub mod Pieces
use stream_delay.Base.{
  ℕ, zero, suc, ◌+◌, ◌*◌, Bool, true, false, not, List, [], ◌∷◌, ◌++◌, ltb, ◌==◌, if◌then◌else◌,
  take, drop, length,
}
use stream_delay.Flv.{Bytes}

-- `RTMP_VERSION`.
abbrev pub rtmp_version : ℕ
rtmp_version = 3

-- `HANDSHAKE_SIZE`.
abbrev pub handshake_size : ℕ
handshake_size = 1536

-- `Progress`, or `HandshakeError`.
pub data Outcome : Type 0 where
  need_more : Outcome
  done : Bytes → Outcome
  unsupported_version : ℕ → Outcome

-- `random_packet`: time and zero stay 0; the argument is the rest.
abbrev pub random_packet : Bytes → Bytes
random_packet random = 0 ∷ 0 ∷ 0 ∷ 0 ∷ 0 ∷ 0 ∷ 0 ∷ 0 ∷ random

pub data ServerState : Type 0 where
  wait_c0c1 wait_c2 finished : ServerState

pub record ServerHandshake : Type 0 where
  pub state : ServerState
  pub buf : Bytes

-- `ServerHandshake::new`.
abbrev pub new_server : ServerHandshake
new_server = record { state = ServerState.wait_c0c1; buf = [] }

-- The first byte of what was split off.
abbrev pub version_of : Bytes → ℕ
version_of [] = 0
version_of (b ∷ bs) = b

abbrev pub after_version : Bytes → Bytes
after_version [] = []
after_version (b ∷ bs) = bs

-- The rounds of `feed` from each state on, over the buffer: the outcome, the handshake and what is
-- sent.
abbrev pub Fed : Type 0 → Type 0
Fed H = Outcome × H × Bytes

unfoldable pub from_done : Bytes → Fed ServerHandshake
from_done buf = (done buf, record { state = ServerState.finished; buf = [] }, [])

unfoldable pub from_c2 : Bytes → Fed ServerHandshake
from_c2 buf =
    if ltb (length buf) handshake_size
    then (need_more, record { state = ServerState.wait_c2; buf = buf }, [])
    else from_done (drop handshake_size buf)

-- The server's second packet echoes the client's first.
unfoldable pub s0s1s2 : Bytes → Bytes → Bytes
s0s1s2 packet c0c1 = rtmp_version ∷ (packet ++ after_version c0c1)

abbrev pub with_sent : Bytes → Fed ServerHandshake → Fed ServerHandshake
with_sent sent (outcome, h, out) = (outcome, h, sent ++ out)

-- The version and the client's first packet split off, and what is left in the buffer.
unfoldable pub answer : Bytes → Bytes → Bytes → Fed ServerHandshake
answer packet c0c1 rest =
    if not (version_of c0c1 == rtmp_version)
    then (
      unsupported_version (version_of c0c1),
      record { state = ServerState.wait_c0c1; buf = rest },
      [],
    )
    else with_sent (s0s1s2 packet c0c1) (from_c2 rest)

unfoldable pub from_c0c1 : Bytes → Bytes → Fed ServerHandshake
from_c0c1 packet buf =
    if ltb (length buf) (1 + handshake_size)
    then (need_more, record { state = ServerState.wait_c0c1; buf = buf }, [])
    else answer packet (take (1 + handshake_size) buf) (drop (1 + handshake_size) buf)

abbrev pub resume : ServerState → Bytes → Bytes → Fed ServerHandshake
resume ServerState.wait_c0c1 packet buf = from_c0c1 packet buf
resume ServerState.wait_c2 packet buf = from_c2 buf
resume ServerState.finished packet buf = from_done buf

-- `ServerHandshake::feed`.
unfoldable pub server_feed : Bytes → Bytes → ServerHandshake → Fed ServerHandshake
server_feed packet input h = resume h.state packet (h.buf ++ input)

pub record ClientHandshake : Type 0 where
  pub done : Bool
  pub buf : Bytes

-- `ClientHandshake::new`.
abbrev pub new_client : ClientHandshake
new_client = record { done = false; buf = [] }

-- `start`: the version and the first packet.
unfoldable pub client_start : Bytes → Bytes
client_start packet = rtmp_version ∷ packet

-- `ClientHandshake::feed`. The client's second packet echoes the server's first.
unfoldable pub client_feed : Bytes → ClientHandshake → Fed ClientHandshake
client_feed input h =
    let buf = h.buf ++ input in
    let size = 1 + 2 * handshake_size in
    let s = take size buf in
    if h.done
    then (done buf, record { done = true; buf = [] }, [])
    else if ltb (length buf) size
    then (need_more, record { done = false; buf = buf }, [])
    else if not (version_of s == rtmp_version)
    then (unsupported_version (version_of s), record { done = false; buf = drop size buf }, [])
    else (
      done (drop size buf),
      record { done = true; buf = [] },
      take handshake_size (after_version s),
    )
