-- ===== src/Rtmp/Client/Ends.antt =====
-- crates/rtmp/src/session/client.rs, `feed`: the end of its loop.
use stream_delay.Base.{ℕ, zero, suc, ◌<◌, length, ◌≢◌, refl, ap, arith}
use stream_delay.Flv.{Bytes}
use stream_delay.Rtmp.Chunk.Decode.{Received, stuck, waiting, failed, received, next_message}
use stream_delay.Rtmp.Chunk.Taken.{next_message-ends}
use stream_delay.Rtmp.Server.Commands.{Done, fine, endless}
use stream_delay.Rtmp.Server.Kept.{AfterRead, next_message-AfterRead}
use stream_delay.Rtmp.Client.{ClientSession}
use stream_delay.Rtmp.Client.Replies.{ClientHandling}
use stream_delay.Rtmp.Client.Feed.{
  handle_reply, and_then, on_next, drain_replies, feed_client, given, set_decoder,
}
use stream_delay.Rtmp.Client.Turns.{handle_reply-IsHandled}

and_then-ends :
    (more : ClientSession → ClientHandling) (x : ClientHandling)
    → x.0 ≢ endless
    → (more x.1).0 ≢ endless
    → (and_then more x).0 ≢ endless
unfolding and_then
and_then-ends more (fine, s, es) h k = k
and_then-ends more (Done.failed e, s, es) h k = h
and_then-ends more (endless, s, es) h k = absurd (h refl)

drain_replies-ends :
    (fuel : ℕ) (s : ClientSession)
    → length s.link.decoder.buf < fuel
    → (drain_replies fuel s).0 ≢ endless
unfolding drain_replies
drain_replies-ends zero s lt = absurd (omega arith)
drain_replies-ends (suc fuel) s lt =
    after (drain_replies-ends fuel) (next_message s.link.decoder) (next_message-ends s.link.decoder)
      (next_message-AfterRead s.link.decoder)
  where
    after :
        ((s' : ClientSession)
          → length s'.link.decoder.buf < fuel
          → (drain_replies fuel s').0 ≢ endless)
        → (r : Received) → r ≢ stuck
        → AfterRead s.link.decoder r
        → (on_next (drain_replies fuel) r s).0 ≢ endless
    after later stuck h k = absurd (h refl)
    after later (waiting d) h k = λ x. cc
    after later (failed e d) h k = λ x. cc
    after later (received m d) h k =
        let turn = handle_reply-IsHandled m (set_decoder d s) in
        and_then-ends (drain_replies fuel) (handle_reply m (set_decoder d s)) turn.ended
          (later _ (omega (arith, ap length turn.kept.buf, k.shorter)))

-- Whatever bytes a client session is fed, `feed` ends: its loop reads a byte at least with every message,
-- and the values in a message are decoded to their end.
pub feed_client-ends : (bytes : Bytes) (s : ClientSession) → (feed_client bytes s).0 ≢ endless
unfolding feed_client
feed_client-ends bytes s =
    drain_replies-ends (suc (length (given bytes s).link.decoder.buf)) (given bytes s) (omega arith)
