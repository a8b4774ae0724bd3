-- ===== src/Rtmp/Message.antt =====
-- crates/rtmp/src/message.rs: the control messages and commands, as the encoder writes them and as
-- they are read.
pub mod DataFrame
pub mod Commands
use stream_delay.Base.{
  ℕ, zero, suc, ◌+◌, Bool, true, false, Option, none, some, List, [], ◌∷◌, ◌++◌, ltb, if◌then◌else◌,
  take, drop, length,
}
use stream_delay.Flv.{Bytes}
use stream_delay.Rtmp.Wire.{u16, be32, put_u16, put_u32}
use stream_delay.Rtmp.Chunk.{Message}
use stream_delay.Rtmp.Chunk.Encode.{ChunkEncoder, write}
use stream_delay.Rtmp.Amf0.{Amf0Value, Props, as_str, str_eq}
use stream_delay.Rtmp.Amf0.Decode.{Read, stuck, err, ok, decode_one}
use stream_delay.Rtmp.Amf0.Encode.{encode, encode_all}

-- `SET_CHUNK_SIZE`, `ABORT`, `ACKNOWLEDGEMENT`, `USER_CONTROL`, `WINDOW_ACK_SIZE`,
-- `SET_PEER_BANDWIDTH`.
abbrev pub set_chunk_size_id : ℕ
set_chunk_size_id = 1

-- `ABORT`.
abbrev pub abort_id : ℕ
abort_id = 2

-- `ACKNOWLEDGEMENT`.
abbrev pub acknowledgement : ℕ
acknowledgement = 3

-- `USER_CONTROL`.
abbrev pub user_control : ℕ
user_control = 4

-- `WINDOW_ACK_SIZE`.
abbrev pub window_ack_size : ℕ
window_ack_size = 5

-- `SET_PEER_BANDWIDTH`.
abbrev pub set_peer_bandwidth : ℕ
set_peer_bandwidth = 6

-- `COMMAND_AMF0`.
abbrev pub command_amf0 : ℕ
command_amf0 = 20

-- `UC_PING_REQUEST`.
abbrev pub uc_ping_request : ℕ
uc_ping_request = 6

-- `UC_PING_RESPONSE`.
abbrev pub uc_ping_response : ℕ
uc_ping_response = 7

-- `CSID_CONTROL`.
abbrev pub csid_control : ℕ
csid_control = 2

-- What the writers below give to `ChunkEncoder::write`.
abbrev pub control_message : ℕ → Bytes → Message
control_message type_id payload = record {
  csid = csid_control;
  timestamp = 0;
  type_id = type_id;
  stream_id = 0;
  payload = payload;
}

-- `write_u32_control`.
unfoldable pub write_u32_control : ChunkEncoder → ℕ → ℕ → Bytes
write_u32_control enc type_id v = write enc (control_message type_id (put_u32 v))

-- `write_set_peer_bandwidth`.
unfoldable pub write_set_peer_bandwidth : ChunkEncoder → ℕ → ℕ → Bytes
write_set_peer_bandwidth enc size limit =
    write enc (control_message set_peer_bandwidth (put_u32 size ++ (limit ∷ [])))

-- `write_user_control`.
unfoldable pub write_user_control : ChunkEncoder → ℕ → ℕ → Bytes
write_user_control enc event v =
    write enc (control_message user_control (put_u16 event ++ put_u32 v))

-- `write_command`.
unfoldable pub write_command : ChunkEncoder → ℕ → ℕ → List Amf0Value → Bytes
write_command enc csid stream_id values = write enc (record {
  csid = csid;
  timestamp = 0;
  type_id = command_amf0;
  stream_id = stream_id;
  payload = encode_all values;
})

-- `read_u32`.
unfoldable pub read_u32 : Bytes → Option ℕ
read_u32 payload = if ltb (length payload) 4 then none else some (be32 (take 4 payload))

abbrev pub or_zero : Option ℕ → ℕ
or_zero none = 0
or_zero (some v) = v

-- `read_user_control`.
unfoldable pub read_user_control : Bytes → Option (ℕ × ℕ)
read_user_control (b0 ∷ b1 ∷ rest) = some (u16 (b0 ∷ b1 ∷ []), or_zero (read_u32 rest))
read_user_control _ = none

-- `@setDataFrame`.
abbrev pub set_data_frame : Bytes
set_data_frame =
    0x40 ∷ 0x73 ∷ 0x65 ∷ 0x74 ∷ 0x44 ∷ 0x61 ∷ 0x74 ∷ 0x61 ∷ 0x46 ∷ 0x72 ∷ 0x61 ∷ 0x6d ∷ 0x65 ∷ []

abbrev pub is_str : Bytes → Option Bytes → Bool
is_str s none = false
is_str s (some t) = str_eq t s

-- `with_set_data_frame`.
unfoldable pub with_set_data_frame : Bytes → Option Bytes
with_set_data_frame payload = elim (decode_one payload) [
  | stuck ↦ none
  | err e ↦ none
  | ok first rest ↦ some (
      if is_str set_data_frame (as_str first)
      then payload
      else encode (Amf0Value.string set_data_frame) ++ payload)
]
