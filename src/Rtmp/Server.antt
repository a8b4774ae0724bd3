-- ===== src/Rtmp/Server.antt =====
-- crates/rtmp/src/session/server.rs: the server side of a publish session, its state and what the
-- application does to it.
pub mod Words
pub mod Commands
pub mod Feed
pub mod Protocol
pub mod Kept
pub mod Turns
pub mod Ends
pub mod Follows
pub mod Limits
pub mod Guard
use stream_delay.Base.{ℕ, Option, List, [], ◌∷◌, ◌++◌}
use stream_delay.Flv.{Bytes}
use stream_delay.Rtmp.Chunk.{ChunkDecoder, set_max_message_len, usize_max}
use stream_delay.Rtmp.Amf0.{Amf0Value, Props, no_props, prop}
use stream_delay.Rtmp.Message.{write_user_control, write_command}
use stream_delay.Rtmp.Link.{Link, new_link, sends, max_pre_publish_message, max_non_media_message}
use stream_delay.Rtmp.Server.Words.{
  result_name, on_status, level_name, code_name, description_name, status_name, error_name,
  publish_start, now_published, zero_f64,
}

pub record ServerConfig : Type 0 where
  pub chunk_size : ℕ
  pub window_ack_size : ℕ
  pub peer_bandwidth : ℕ

pub data MediaKind : Type 0 where
  audio video : MediaKind

-- `ServerEvent`; `other_data` is its `Data`.
pub data ServerEvent : Type 0 where
  connect : Bytes → Option Bytes → Props → ServerEvent
  publish_request : Bytes → Bytes → ServerEvent
  media : MediaKind → ℕ → Bytes → ServerEvent
  metadata : ℕ → Bytes → ServerEvent
  other_data : ℕ → Bytes → ServerEvent
  unpublish : ServerEvent

pub data State : Type 0 where
  await_connect connected publish_pending publishing closed : State

pub record ServerSession : Type 0 where
  pub link : Link
  pub config : ServerConfig
  pub state : State
  pub app : Bytes
  pub stream_key : Bytes

-- `STREAM_ID`.
abbrev pub stream_id : ℕ
stream_id = 1

-- `UC_STREAM_BEGIN`.
abbrev pub uc_stream_begin : ℕ
uc_stream_begin = 0

-- `CSID_COMMAND`.
abbrev pub csid_command : ℕ
csid_command = 3

-- `CSID_STREAM_COMMAND`.
abbrev pub csid_stream_command : ℕ
csid_stream_command = 8

-- The two limits of the decoder.
unfoldable pub limited : ℕ → ℕ → Link → Link
limited of_media of_other l = record l { decoder = set_max_message_len of_media of_other l.decoder }

-- `ServerSession::new`.
unfoldable pub new_server_session : ServerConfig → ServerSession
new_server_session config = record {
  link = limited max_pre_publish_message max_pre_publish_message (new_link config.window_ack_size);
  config = config;
  state = State.await_connect;
  app = [];
  stream_key = [];
}

abbrev pub with_link : Link → ServerSession → ServerSession
with_link l s = record s { link = l }

abbrev pub with_state : State → ServerSession → ServerSession
with_state t s = record s { state = t }

-- What the session appends to its output.
unfoldable pub say : Bytes → ServerSession → ServerSession
say bytes s = with_link (sends bytes s.link) s

-- `status_object`.
abbrev pub status_object : Bytes → Bytes → Bytes → Amf0Value
status_object level code description = Amf0Value.object (
    prop level_name (Amf0Value.string level) (
      prop code_name (Amf0Value.string code)
        (prop description_name (Amf0Value.string description) no_props)))

-- The `onStatus` command.
abbrev pub status_command : Amf0Value → ServerSession → ServerSession
status_command status s =
    say
      (write_command s.link.encoder csid_stream_command stream_id
        (Amf0Value.string on_status ∷ Amf0Value.number zero_f64 ∷ Amf0Value.null ∷ status ∷ []))
      s

-- `reply_result`.
abbrev pub reply_result : Bytes → List Amf0Value → ServerSession → ServerSession
reply_result txid values s =
    say
      (write_command s.link.encoder csid_command 0
        (Amf0Value.string result_name ∷ Amf0Value.number txid ∷ values))
      s

-- `accept_publish`.
abbrev pub announce : ServerSession → ServerSession
announce s =
    status_command (status_object status_name publish_start (s.app ++ now_published))
      (say (write_user_control s.link.encoder uc_stream_begin stream_id) s)

abbrev pub accepted : ServerSession → ServerSession
accepted s =
    announce
      (record s { state = State.publishing; link = limited usize_max max_non_media_message s.link })

abbrev pub accept_in : State → ServerSession → ServerSession
accept_in State.publish_pending s = accepted s
accept_in _ s = s

unfoldable pub accept_publish : ServerSession → ServerSession
accept_publish s = accept_in s.state s

-- `reject_publish`.
unfoldable pub reject_publish : Bytes → Bytes → ServerSession → ServerSession
reject_publish code description s =
    status_command (status_object error_name code description) (with_state State.closed s)
