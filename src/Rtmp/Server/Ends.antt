-- ===== src/Rtmp/Server/Ends.antt =====
-- crates/rtmp/src/session/server.rs, `feed`: the end of its loop.
use stream_delay.Base.{ℕ, zero, suc, ◌<◌, length, ◌≢◌, refl, ap, arith}
use stream_delay.Flv.{Bytes}
use stream_delay.Rtmp.Chunk.Decode.{Received, stuck, waiting, failed, received, next_message}
use stream_delay.Rtmp.Chunk.Taken.{next_message-ends}
use stream_delay.Rtmp.Server.{ServerSession}
use stream_delay.Rtmp.Server.Commands.{Done, fine, endless, Handling}
use stream_delay.Rtmp.Server.Feed.{handle, then_on, on_received, drain, feed, arrived, with_decoder}
use stream_delay.Rtmp.Server.Kept.{AfterRead, next_message-AfterRead}
use stream_delay.Rtmp.Server.Turns.{handle-IsTurn}

then_on-ends :
    (more : ServerSession → Handling) (x : Handling)
    → x.0 ≢ endless
    → (more x.1).0 ≢ endless
    → (then_on more x).0 ≢ endless
unfolding then_on
then_on-ends more (fine, s, es) h k = k
then_on-ends more (Done.failed e, s, es) h k = h
then_on-ends more (endless, s, es) h k = absurd (h refl)

drain-ends :
    (fuel : ℕ) (s : ServerSession) → length s.link.decoder.buf < fuel → (drain fuel s).0 ≢ endless
unfolding drain
drain-ends zero s lt = absurd (omega arith)
drain-ends (suc fuel) s lt =
    after (drain-ends fuel) (next_message s.link.decoder) (next_message-ends s.link.decoder)
      (next_message-AfterRead s.link.decoder)
  where
    after :
        ((s' : ServerSession) → length s'.link.decoder.buf < fuel → (drain fuel s').0 ≢ endless)
        → (r : Received) → r ≢ stuck
        → AfterRead s.link.decoder r
        → (on_received (drain fuel) r s).0 ≢ endless
    after later stuck h k = absurd (h refl)
    after later (waiting d) h k = λ x. cc
    after later (failed e d) h k = λ x. cc
    after later (received m d) h k =
        let turn = handle-IsTurn m (with_decoder d s) in
        then_on-ends (drain fuel) (handle m (with_decoder d s)) turn.ended
          (later _ (omega (arith, ap length turn.kept.buf, k.shorter)))

-- Whatever bytes a session is fed, `feed` ends: its loop reads a byte at least with every message, and
-- the commands and the values in a message are decoded to their end.
pub feed-ends : (bytes : Bytes) (s : ServerSession) → (feed bytes s).0 ≢ endless
unfolding feed
feed-ends bytes s =
    drain-ends (suc (length (arrived bytes s).link.decoder.buf)) (arrived bytes s) (omega arith)
