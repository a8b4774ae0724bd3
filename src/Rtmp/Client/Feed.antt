-- ===== src/Rtmp/Client/Feed.antt =====
-- crates/rtmp/src/session/client.rs: the messages of the server and the bytes they come in.
use stream_delay.Base.{
  ℕ, zero, suc, Option, none, some, List, [], ◌++◌, ◌==◌, if◌then◌else◌, drop, length,
}
use stream_delay.Flv.{Bytes}
use stream_delay.Rtmp.Chunk.{ChunkDecoder, Message, push_bytes}
use stream_delay.Rtmp.Chunk.Decode.{Received, stuck, waiting, failed, received, next_message}
use stream_delay.Rtmp.Amf0.Decode.{decode_all}
use stream_delay.Rtmp.Message.{command_amf0}
use stream_delay.Rtmp.Link.{
  Link, SessionError, Handled, consumed, passed, refused, count_received, handle_control,
}
use stream_delay.Rtmp.Server.Feed.{command_amf3}
use stream_delay.Rtmp.Server.Commands.{Done, fine}
use stream_delay.Rtmp.Client.{ClientEvent, ClientSession, on_link}
use stream_delay.Rtmp.Client.Replies.{ClientHandling, silent, on_values}

-- `body`: none for a message that is no command.
unfoldable pub command_body : Message → Option Bytes
command_body m =
    if m.type_id == command_amf0
    then some m.payload
    else if m.type_id == command_amf3
    then some (drop 1 m.payload)
    else none

abbrev pub on_body : Option Bytes → ClientSession → ClientHandling
on_body none s = silent s
on_body (some b) s = on_values (decode_all b) s

abbrev pub on_control : Message → Handled × Link → ClientSession → ClientHandling
on_control m (refused e, l) s = (Done.failed e, on_link l s, [])
on_control m (consumed, l) s = silent (on_link l s)
on_control m (passed, l) s = on_body (command_body m) (on_link l s)

-- `handle`.
unfoldable pub handle_reply : Message → ClientSession → ClientHandling
handle_reply m s = on_control m (handle_control m s.link) s

abbrev pub set_decoder : ChunkDecoder → ClientSession → ClientSession
set_decoder d s = on_link (record s.link { decoder = d }) s

-- The `?` of the loop: an error ends it. (The code then drops the events of the call.)
abbrev pub join_events : List ClientEvent → ClientHandling → ClientHandling
join_events es (t, s, fs) = (t, s, es ++ fs)

unfoldable pub and_then : (ClientSession → ClientHandling) → ClientHandling → ClientHandling
and_then more (fine, s, es) = join_events es (more s)
and_then more (t, s, es) = (t, s, es)

-- The loop of `feed`, on fuel.
abbrev pub on_next : (ClientSession → ClientHandling) → Received → ClientSession → ClientHandling
on_next more stuck s = (Done.endless, s, [])
on_next more (waiting d) s = silent (set_decoder d s)
on_next more (failed e d) s = (Done.failed (SessionError.chunk e), set_decoder d s, [])
on_next more (received m d) s = and_then more (handle_reply m (set_decoder d s))

unfoldable pub drain_replies : ℕ → ClientSession → ClientHandling
drain_replies zero s = (Done.endless, s, [])
drain_replies (suc fuel) s = on_next (drain_replies fuel) (next_message s.link.decoder) s

-- `feed`. Every message takes a byte at least.
abbrev pub given : Bytes → ClientSession → ClientSession
given bytes s =
    let l = count_received (length bytes) s.link in
    on_link (record l { decoder = push_bytes bytes l.decoder }) s

unfoldable pub feed_client : Bytes → ClientSession → ClientHandling
feed_client bytes s = let s' = given bytes s in drain_replies (suc (length s'.link.decoder.buf)) s'
