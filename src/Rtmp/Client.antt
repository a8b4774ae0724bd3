-- ===== src/Rtmp/Client.antt =====
-- crates/rtmp/src/session/client.rs: the client side of a publish session, its state and what the
-- application does to it.
pub mod Words
pub mod StreamId
pub mod Replies
pub mod Feed
pub mod Protocol
pub mod Turns
pub mod Ends
pub mod Follows
use stream_delay.Base.{ℕ, Bool, true, false, ◌||◌, Option, List, [], ◌∷◌, ◌++◌, ◌==◌, if◌then◌else◌}
use stream_delay.Flv.{Bytes}
use stream_delay.Rtmp.Chunk.Encode.{write}
use stream_delay.Rtmp.Amf0.{Amf0Value, Props, no_props, prop, str_eq}
use stream_delay.Rtmp.Message.{write_command}
use stream_delay.Rtmp.Link.{Link, new_link, sends, set_out_chunk_size}
use stream_delay.Rtmp.Server.{MediaKind, limited, csid_command}
use stream_delay.Rtmp.Server.Feed.{audio_id, video_id, data_amf0}
use stream_delay.Rtmp.Server.Words.{
  app_name, tc_url_name, connect_name, fc_unpublish_name, delete_stream_name,
}
use stream_delay.Rtmp.Client.Words.{
  type_name, nonprivate, flash_ver_name, swf_url_name, default_flash_ver, tx_connect,
  tx_fc_unpublish, tx_delete,
}
use stream_delay.Rtmp.Client.StreamId.{f64_of}

pub record ClientConfig : Type 0 where
  pub app : Bytes
  pub tc_url : Bytes
  pub stream_key : Bytes
  pub extra_connect_props : Props
  pub chunk_size : ℕ
  pub flash_ver : Bytes

-- `ClientConfig::new`.
abbrev pub new_client_config : Bytes → Bytes → Bytes → ClientConfig
new_client_config app tc_url key = record {
  app = app;
  tc_url = tc_url;
  stream_key = key;
  extra_connect_props = no_props;
  chunk_size = 4096;
  flash_ver = default_flash_ver;
}

-- `ClientEvent`: the server accepted the stream, or refused or closed it.
pub data ClientEvent : Type 0 where
  publishing : ClientEvent
  error : Bytes → Bytes → ClientEvent

-- `State`.
pub data ClientState : Type 0 where
  connecting creating_stream publish_pending publishing failed closed : ClientState

pub record ClientSession : Type 0 where
  pub link : Link
  pub config : ClientConfig
  pub state : ClientState
  pub stream_id : ℕ

-- `MAX_SERVER_MESSAGE`.
abbrev pub max_server_message : ℕ
max_server_message = 131072

-- `CSID_AUDIO`.
abbrev pub csid_audio : ℕ
csid_audio = 4

-- `CSID_DATA`.
abbrev pub csid_data : ℕ
csid_data = 5

-- `CSID_VIDEO`.
abbrev pub csid_video : ℕ
csid_video = 6

abbrev pub on_link : Link → ClientSession → ClientSession
on_link l s = record s { link = l }

abbrev pub in_state : ClientState → ClientSession → ClientSession
in_state t s = record s { state = t }

-- A command is queued.
unfoldable pub command : ℕ → ℕ → List Amf0Value → ClientSession → ClientSession
command csid stream values s =
    on_link (sends (write_command s.link.encoder csid stream values) s.link) s

-- `props.iter().any`.
abbrev pub has_prop : Bytes → Props → Bool
has_prop key no_props = false
has_prop key (prop k v ps) = str_eq k key || has_prop key ps

-- `props.push`.
abbrev pub push_prop : Props → Bytes → Amf0Value → Props
push_prop no_props key x = prop key x no_props
push_prop (prop k v ps) key x = prop k v (push_prop ps key x)

-- The properties of `connect`: those that are set here, then those of the encoder that are not.
abbrev pub mirrored : Props → Props → Props
mirrored ps no_props = ps
mirrored ps (prop k v extra) = mirrored (if has_prop k ps then ps else push_prop ps k v) extra

abbrev pub connect_props : ClientConfig → Props
connect_props c =
    mirrored
      (prop app_name (Amf0Value.string c.app) (
        prop type_name (Amf0Value.string nonprivate) (
          prop flash_ver_name (Amf0Value.string c.flash_ver) (
            prop swf_url_name (Amf0Value.string c.tc_url)
              (prop tc_url_name (Amf0Value.string c.tc_url) no_props)))))
      c.extra_connect_props

-- `ClientSession::new`.
abbrev pub fresh : ClientConfig → ClientSession
fresh c = record {
  link =
      set_out_chunk_size c.chunk_size
        (limited max_server_message max_server_message (new_link 2500000));
  config = c;
  state = ClientState.connecting;
  stream_id = 0;
}

unfoldable pub new_client_session : ClientConfig → ClientSession
new_client_session c =
    command csid_command 0
      (Amf0Value.string connect_name
        ∷ Amf0Value.number tx_connect
        ∷ Amf0Value.object (connect_props c)
        ∷ [])
      (fresh c)

-- `send_media` and `send_data`.
abbrev pub send : ℕ → ℕ → ℕ → Bytes → ClientSession → ClientSession
send csid type_id ts payload s =
    on_link
      (sends
        (write s.link.encoder (record {
          csid = csid;
          timestamp = ts;
          type_id = type_id;
          stream_id = s.stream_id;
          payload = payload;
        }))
        s.link)
      s

abbrev pub is_publishing : ClientState → Bool
is_publishing ClientState.publishing = true
is_publishing _ = false

abbrev pub media_csid : MediaKind → ℕ
media_csid MediaKind.audio = csid_audio
media_csid MediaKind.video = csid_video

abbrev pub media_type : MediaKind → ℕ
media_type MediaKind.audio = audio_id
media_type MediaKind.video = video_id

unfoldable pub send_media : MediaKind → ℕ → Bytes → ClientSession → ClientSession
send_media kind ts payload s =
    if is_publishing s.state then send (media_csid kind) (media_type kind) ts payload s else s

unfoldable pub send_data : ℕ → Bytes → ClientSession → ClientSession
send_data ts payload s = if is_publishing s.state then send csid_data data_amf0 ts payload s else s

-- `close`.
abbrev pub unpublish : ClientSession → ClientSession
unpublish s =
    command csid_command 0
      (Amf0Value.string delete_stream_name
        ∷ Amf0Value.number tx_delete
        ∷ Amf0Value.null
        ∷ Amf0Value.number (f64_of s.stream_id)
        ∷ [])
      (command csid_command 0
        (Amf0Value.string fc_unpublish_name
          ∷ Amf0Value.number tx_fc_unpublish
          ∷ Amf0Value.null
          ∷ Amf0Value.string s.config.stream_key
          ∷ [])
        s)

abbrev pub close_open : ClientSession → ClientSession
close_open s = in_state ClientState.closed (if s.stream_id == 0 then s else unpublish s)

abbrev pub close_in : ClientState → ClientSession → ClientSession
close_in ClientState.closed s = s
close_in ClientState.failed s = s
close_in _ s = close_open s

unfoldable pub close : ClientSession → ClientSession
close s = close_in s.state s
