-- ===== src/Rtmp/Server/Feed.antt =====
-- crates/rtmp/src/session/server.rs: the messages of the client and the bytes they come in.
use stream_delay.Base.{
  ℕ, zero, suc, Bool, true, false, Option, none, some, List, [], ◌∷◌, ◌++◌, ◌==◌, if◌then◌else◌,
  drop, length,
}
use stream_delay.Flv.{Bytes}
use stream_delay.Rtmp.Chunk.{ChunkDecoder, Message, push_bytes}
use stream_delay.Rtmp.Chunk.Decode.{Received, stuck, waiting, failed, received, next_message}
use stream_delay.Rtmp.Amf0.{Amf0Value, as_str}
use stream_delay.Rtmp.Amf0.Decode.{Read, err, ok, decode_one}
use stream_delay.Rtmp.Message.{command_amf0, set_data_frame, is_str, with_set_data_frame}
use stream_delay.Rtmp.Link.{
  Link, SessionError, Handled, consumed, passed, refused, count_received, handle_control,
}
use stream_delay.Rtmp.Server.{MediaKind, ServerEvent, State, publishing, ServerSession, with_link}
use stream_delay.Rtmp.Server.Words.{on_meta_data}
use stream_delay.Rtmp.Server.Commands.{Done, fine, Handling, quiet, handle_command}

-- `AUDIO`.
abbrev pub audio_id : ℕ
audio_id = 8

-- `VIDEO`.
abbrev pub video_id : ℕ
video_id = 9

-- `COMMAND_AMF3`.
abbrev pub command_amf3 : ℕ
command_amf3 = 17

-- `DATA_AMF0`.
abbrev pub data_amf0 : ℕ
data_amf0 = 18

abbrev pub pushed : ServerEvent → ServerSession → Handling
pushed e s = (Done.fine, s, e ∷ [])

-- `AUDIO | VIDEO`.
abbrev pub push_media : MediaKind → ℕ → Bytes → ServerSession → Handling
push_media kind ts [] s = quiet s
push_media kind ts (b ∷ bs) s = pushed (ServerEvent.media kind ts (b ∷ bs)) s

abbrev pub on_media : State → MediaKind → Message → ServerSession → Handling
on_media publishing kind m s = push_media kind m.timestamp m.payload s
on_media _ kind m s = quiet s

-- `is_meta`; `stuck` is no value of the code, and `decode_one` never gives it.
abbrev pub starts_meta : Read Amf0Value → Bool
starts_meta Read.stuck = false
starts_meta (err e) = false
starts_meta (ok v r) = is_str on_meta_data (as_str v)

unfoldable pub is_meta : Option Bytes → Bytes → Bool
is_meta name rest =
    if is_str set_data_frame name then starts_meta (decode_one rest) else is_str on_meta_data name

abbrev pub push_metadata : ℕ → Option Bytes → ServerSession → Handling
push_metadata ts none s = quiet s
push_metadata ts (some p) s = pushed (ServerEvent.metadata ts p) s

-- `DATA_AMF0`.
abbrev pub push_data : Bool → Message → ServerSession → Handling
push_data true m s = push_metadata m.timestamp (with_set_data_frame m.payload) s
push_data false m s = pushed (ServerEvent.other_data m.timestamp m.payload) s

abbrev pub read_data : Message → Read Amf0Value → ServerSession → Handling
read_data m Read.stuck s = quiet s
read_data m (err e) s = quiet s
read_data m (ok first rest) s = push_data (is_meta (as_str first) rest) m s

abbrev pub on_data : State → Message → ServerSession → Handling
on_data publishing m s = read_data m (decode_one m.payload) s
on_data _ m s = quiet s

-- The types that `handle` tells apart, and its arms.
pub data Arm : Type 0 where
  command command_after_format data_message other : Arm
  media_message : MediaKind → Arm

unfoldable pub arm_of : ℕ → Arm
arm_of type_id =
    if type_id == command_amf0
    then Arm.command
    else if type_id == command_amf3
    then Arm.command_after_format
    else if type_id == audio_id
    then Arm.media_message MediaKind.audio
    else if type_id == video_id
    then Arm.media_message MediaKind.video
    else if type_id == data_amf0
    then Arm.data_message
    else Arm.other

unfoldable pub arm : Arm → Message → ServerSession → Handling
arm Arm.command m s = handle_command m.payload s
arm Arm.command_after_format m s = handle_command (drop 1 m.payload) s
arm (Arm.media_message kind) m s = on_media s.state kind m s
arm Arm.data_message m s = on_data s.state m s
arm Arm.other m s = quiet s

-- `handle`.
abbrev pub after_control : Message → Handled × Link → ServerSession → Handling
after_control m (refused e, l) s = (Done.failed e, with_link l s, [])
after_control m (consumed, l) s = quiet (with_link l s)
after_control m (passed, l) s = arm (arm_of m.type_id) m (with_link l s)

unfoldable pub handle : Message → ServerSession → Handling
handle m s = after_control m (handle_control m s.link) s

abbrev pub with_decoder : ChunkDecoder → ServerSession → ServerSession
with_decoder d s = with_link (record s.link { decoder = d }) s

-- The `?` of the loop: an error ends it. (The code then drops the events of the call.)
abbrev pub and_more : List ServerEvent → Handling → Handling
and_more es (t, s, fs) = (t, s, es ++ fs)

unfoldable pub then_on : (ServerSession → Handling) → Handling → Handling
then_on more (fine, s, es) = and_more es (more s)
then_on more (t, s, es) = (t, s, es)

-- The loop of `feed`, on fuel.
abbrev pub on_received : (ServerSession → Handling) → Received → ServerSession → Handling
on_received more stuck s = (Done.endless, s, [])
on_received more (waiting d) s = quiet (with_decoder d s)
on_received more (failed e d) s = (Done.failed (SessionError.chunk e), with_decoder d s, [])
on_received more (received m d) s = then_on more (handle m (with_decoder d s))

unfoldable pub drain : ℕ → ServerSession → Handling
drain zero s = (Done.endless, s, [])
drain (suc fuel) s = on_received (drain fuel) (next_message s.link.decoder) s

-- `feed`. Every message takes a byte at least.
abbrev pub arrived : Bytes → ServerSession → ServerSession
arrived bytes s =
    let l = count_received (length bytes) s.link in
    with_link (record l { decoder = push_bytes bytes l.decoder }) s

unfoldable pub feed : Bytes → ServerSession → Handling
feed bytes s = let s' = arrived bytes s in drain (suc (length s'.link.decoder.buf)) s'
