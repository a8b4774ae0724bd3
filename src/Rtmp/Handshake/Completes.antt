-- ===== src/Rtmp/Handshake/Completes.antt =====
-- crates/rtmp/src/handshake.rs: a client and a server, one against the other.
use stream_delay.Base.{
  ℕ, ◌+◌, ◌≤◌, true, false, [], ◌∷◌, ◌++◌, ltb, take, drop, length, ◌≡◌, refl, sym, ap, ◌∙◌, arith,
  length-append, append-nil,
}
use stream_delay.Flv.{Bytes}
use stream_delay.Rtmp.Wire.{take-length, drop-length}
use stream_delay.Rtmp.Handshake.{
  handshake_size, need_more, done, ServerState, ServerHandshake, new_server, Fed, from_done,
  from_c2, s0s1s2, with_sent, answer, from_c0c1, server_feed, ClientHandshake, new_client,
  client_start, client_feed,
}

take_exactly : (n : ℕ) (xs ys : Bytes) → length xs ≡ n → take n (xs ++ ys) ≡ xs
take_exactly n xs ys e = rw (← e) (take-length xs ys)

drop_exactly : (n : ℕ) (xs ys : Bytes) → length xs ≡ n → drop n (xs ++ ys) ≡ ys
drop_exactly n xs ys e = rw (← e) (drop-length xs ys)

pub enough : (n : ℕ) (xs ys : Bytes) → n ≤ length xs → ltb (length (xs ++ ys)) n ≡ false
enough n xs ys h = ground (arith, length-append xs ys)

from_c2_full : (c2 z : Bytes) → length c2 ≡ handshake_size → from_c2 (c2 ++ z) ≡ from_done z
unfolding from_c2
from_c2_full c2 z e =
    rw (enough handshake_size c2 z (omega (arith, e)), drop_exactly handshake_size c2 z e) refl

from_c0c1_full :
    (packet c1 z : Bytes)
    → length c1 ≡ handshake_size
    → from_c0c1 packet ((3 ∷ c1) ++ z) ≡ with_sent (3 ∷ (packet ++ c1)) (from_c2 z)
unfolding from_c0c1 answer s0s1s2
from_c0c1_full packet c1 z e =
    rw
      (
        enough (1 + handshake_size) (3 ∷ c1) z (omega (arith, e)),
        take_exactly handshake_size c1 z e,
        drop_exactly handshake_size c1 z e,
      )
      refl

client_full :
    (s1 s2 y : Bytes)
    → length s1 ≡ handshake_size
    → length s2 ≡ handshake_size
    → client_feed ((3 ∷ (s1 ++ s2)) ++ y) new_client
      ≡ (done y, record { done = true; buf = [] }, s1)
unfolding client_feed
client_full s1 s2 y e1 e2 =
    let sum : length (s1 ++ s2) ≡ 3072 = omega (arith, length-append s1 s2) in
    rw
      (
        enough 3073 (3 ∷ (s1 ++ s2)) y (omega (arith, sum)),
        take_exactly 3072 (s1 ++ s2) y sum,
        drop_exactly 3072 (s1 ++ s2) y sum,
        take_exactly handshake_size s1 s2 e1,
      )
      refl

server_first :
    (s c : Bytes)
    → length c ≡ handshake_size
    → server_feed s (client_start c) new_server
      ≡ (need_more, record { state = ServerState.wait_c2; buf = [] }, 3 ∷ (s ++ c))
unfolding server_feed client_start from_c2
server_first s c e =
    ap (from_c0c1 s) (sym (append-nil (3 ∷ c)))
    ∙ from_c0c1_full s c [] e
    ∙ rw (append-nil (s ++ c)) refl

-- The three messages of a handshake, each received whole, with whatever the client receives behind the
-- server's (`y`) and the server behind the client's second (`z`).
abbrev pub exchange :
    Bytes → Bytes → Bytes → Bytes → Fed ServerHandshake × Fed ClientHandshake × Fed ServerHandshake
exchange s c y z =
    let first = server_feed s (client_start c) new_server in
    let answer = client_feed (first.2 ++ y) new_client in
    (first, answer, server_feed s (answer.2 ++ z) first.1)

-- For any packets of 1536 bytes on either side, the handshake completes: the server answers the
-- client's opening and waits, the client is done with the server's answer, the server is done with the
-- client's echo, and each side hands on exactly the bytes that came behind.
pub exchange-completes :
    (s c y z : Bytes)
    → length s ≡ handshake_size
    → length c ≡ handshake_size
    → let (first, answer, last) = exchange s c y z in
      (first.0 ≡ need_more)
      × (answer.0 ≡ done y)
      × (answer.1.done ≡ true)
      × (last.0 ≡ done z)
      × (last.1.state ≡ ServerState.finished)
unfolding server_feed
exchange-completes s c y z es ec =
    rw (server_first s c ec, client_full s c y es ec, from_c2_full s z es)
      (unfold from_done in (refl, refl, refl, refl, refl))
