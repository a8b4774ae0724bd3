-- ===== src/Rtmp/Link.antt =====
-- crates/rtmp/src/session/mod.rs: what both kinds of session share, the chunk codec with the
-- acknowledgements, the chunk size of each direction and the answers to control messages.
pub mod Follows
pub mod Acks
use stream_delay.Base.{
  ℕ, ◌+◌, ◌-◌, ◌%◌, ◌^◌, Bool, true, false, ◌&&◌, Option, none, some, [], ◌++◌, ltb, leb, ◌==◌,
  if◌then◌else◌,
}
use stream_delay.Flv.{Bytes}
use stream_delay.Rtmp.Chunk.{ChunkError, ChunkDecoder, Message, new_decoder, set_chunk_size, abort}
use stream_delay.Rtmp.Chunk.Encode.{ChunkEncoder, new_encoder, set_outgoing_chunk_size}
use stream_delay.Rtmp.Amf0.{Amf0Error}
use stream_delay.Rtmp.Message.{
  set_chunk_size_id, abort_id, acknowledgement, user_control, window_ack_size, set_peer_bandwidth,
  uc_ping_request, uc_ping_response, write_u32_control, write_user_control, read_u32,
  read_user_control,
}

-- `MAX_PRE_PUBLISH_MESSAGE`.
abbrev pub max_pre_publish_message : ℕ
max_pre_publish_message = 65536

-- `MAX_NON_MEDIA_MESSAGE`.
abbrev pub max_non_media_message : ℕ
max_non_media_message = 1048576

-- What a protocol error says; the words themselves are left out.
pub data Protocol : Type 0 where
  short_set_chunk_size connect_twice publish_twice publish_before_connect publish_after_end
        invalid_stream_id :
      Protocol

pub data SessionError : Type 0 where
  chunk : ChunkError → SessionError
  amf0 : Amf0Error → SessionError
  protocol : Protocol → SessionError

pub record Link : Type 0 where
  pub decoder : ChunkDecoder
  pub encoder : ChunkEncoder
  pub out : Bytes
  pub bytes_in : ℕ
  pub last_ack : ℕ
  pub ack_window : ℕ

-- `Link::new`.
abbrev pub new_link : ℕ → Link
new_link default_ack_window = record {
  decoder = new_decoder;
  encoder = new_encoder;
  out = [];
  bytes_in = 0;
  last_ack = 0;
  ack_window = default_ack_window;
}

-- What a writer appends to `out`.
abbrev pub sends : Bytes → Link → Link
sends bytes l = record l { out = l.out ++ bytes }

-- `received`. (The count is a u64 that no connection reaches the end of.)
abbrev pub acknowledge : Link → Link
acknowledge l =
    sends (write_u32_control l.encoder acknowledgement (l.bytes_in % 2 ^ 32))
      (record l { last_ack = l.bytes_in })

unfoldable pub count_received : ℕ → Link → Link
count_received n l =
    let l' = record l { bytes_in = l.bytes_in + n } in
    if ltb 0 l.ack_window && leb l.ack_window (l.bytes_in + n - l.last_ack)
    then acknowledge l'
    else l'

-- `set_out_chunk_size`: announced first, with the old size.
unfoldable pub set_out_chunk_size : ℕ → Link → Link
set_out_chunk_size size l = record (sends (write_u32_control l.encoder set_chunk_size_id size) l) {
  encoder = set_outgoing_chunk_size size l.encoder;
}

-- `take_output`.
abbrev pub take_output : Link → Bytes × Link
take_output l = (l.out, record l { out = [] })

-- A result of `handle_control`: an error, or whether the message was consumed.
pub data Handled : Type 0 where
  consumed : Handled
  passed : Handled
  refused : SessionError → Handled

-- `handle_control`, one function for each type of message.
abbrev pub with_size : Option ChunkError × ChunkDecoder → Link → Handled × Link
with_size (none, d) l = (consumed, record l { decoder = d })
with_size (some e, d) l = (refused (SessionError.chunk e), record l { decoder = d })

abbrev pub follow_chunk_size : Option ℕ → Link → Handled × Link
follow_chunk_size none l = (refused (SessionError.protocol Protocol.short_set_chunk_size), l)
follow_chunk_size (some v) l = with_size (set_chunk_size (v % 2 ^ 31) l.decoder) l

abbrev pub abort_stream : Option ℕ → Link → Link
abort_stream none l = l
abort_stream (some csid) l = record l { decoder = abort csid l.decoder }

abbrev pub follow_window : Option ℕ → Link → Link
follow_window none l = l
follow_window (some v) l = record l { ack_window = v }

abbrev pub answer_bandwidth : Option ℕ → Link → Link
answer_bandwidth none l = l
answer_bandwidth (some v) l = sends (write_u32_control l.encoder window_ack_size v) l

abbrev pub answer_ping : Option (ℕ × ℕ) → Link → Link
answer_ping none l = l
answer_ping (some (event, ts)) l =
    if event == uc_ping_request
    then sends (write_user_control l.encoder uc_ping_response ts) l
    else l

unfoldable pub handle_control : Message → Link → Handled × Link
handle_control m l =
    let v = read_u32 m.payload in
    if m.type_id == set_chunk_size_id
    then follow_chunk_size v l
    else if m.type_id == abort_id
    then (consumed, abort_stream v l)
    else if m.type_id == acknowledgement
    then (consumed, l)
    else if m.type_id == window_ack_size
    then (consumed, follow_window v l)
    else if m.type_id == set_peer_bandwidth
    then (consumed, answer_bandwidth v l)
    else if m.type_id == user_control
    then (consumed, answer_ping (read_user_control m.payload) l)
    else (passed, l)
