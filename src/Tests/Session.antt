-- ===== src/Tests/Session.antt =====
-- Runs of the server side of a publish session at concrete inputs.
use stream_delay.Base.{suc, length, all, true, List, [], ◌∷◌, ◌++◌, false, ◌≡◌, ◌≢◌, refl}
use stream_delay.Flv.{Bytes}
use stream_delay.Rtmp.Chunk.Encode.{new_encoder, write}
use stream_delay.Rtmp.Amf0.{Amf0Value, no_props, prop}
use stream_delay.Rtmp.Message.{write_command}
use stream_delay.Rtmp.Server.{ServerConfig, ServerSession, State, new_server_session, csid_command}
use stream_delay.Rtmp.Server.Words.{connect_name, publish_name, app_name, one_f64, zero_f64}
use stream_delay.Rtmp.Server.Commands.{endless}
use stream_delay.Rtmp.Server.Feed.{arrived, feed}
use stream_delay.Rtmp.Server.Ends.{feed-ends}
use stream_delay.Rtmp.Server.Follows.{perform_all-Course}
use stream_delay.Rtmp.Server.Limits.{has_content, perform_all-content}
use stream_delay.Rtmp.Server.Guard.{is_allowed, handled, handled-allowed}
use stream_delay.Rtmp.Server.Protocol.{Course, Act, receives, accept, perform_all}

abbrev config : ServerConfig
config = record { chunk_size = 4096; window_ack_size = 2500000; peer_bandwidth = 2500000 }

abbrev live : Bytes
live = 0x6c ∷ 0x69 ∷ 0x76 ∷ 0x65 ∷ []

abbrev key : Bytes
key = 0x6b ∷ []

abbrev connect_bytes : Bytes
connect_bytes = write_command new_encoder csid_command 0 (
    Amf0Value.string connect_name
    ∷ Amf0Value.number one_f64
    ∷ Amf0Value.object (prop app_name (Amf0Value.string live) no_props)
    ∷ [])

abbrev publish_bytes : Bytes
publish_bytes = write_command new_encoder csid_command 1 (
    Amf0Value.string publish_name
    ∷ Amf0Value.number zero_f64
    ∷ Amf0Value.null
    ∷ Amf0Value.string key
    ∷ [])

abbrev video_bytes : Bytes
video_bytes =
    write new_encoder
      (record { csid = 6; timestamp = 40; type_id = 9; stream_id = 1; payload = 0x27 ∷ 1 ∷ [] })

-- A client that connects, asks to publish, and sends a frame before and after it is accepted.
abbrev asking : List Act
asking = receives connect_bytes ∷ receives (publish_bytes ++ video_bytes) ∷ []

abbrev publishing_acts : List Act
publishing_acts =
    receives connect_bytes
    ∷ receives (publish_bytes ++ video_bytes)
    ∷ accept
    ∷ receives video_bytes
    ∷ []

abbrev session : ServerSession
session = new_server_session config

feed-ends_example : (feed connect_bytes session).0 ≢ endless
feed-ends_example = feed-ends connect_bytes session

perform_all-Course_example :
    Course State.await_connect
      (perform_all publishing_acts session).0
      (perform_all publishing_acts session).1.state
unfolding new_server_session
perform_all-Course_example = perform_all-Course publishing_acts session

handled-allowed_example :
    let s = arrived publish_bytes (perform_all asking (new_server_session config)).1 in
    all is_allowed (handled (suc (length s.link.decoder.buf)) s) ≡ true
handled-allowed_example = handled-allowed config asking publish_bytes

perform_all-content_example : has_content (perform_all asking (new_server_session config)).0 ≡ false
perform_all-content_example = perform_all-content config asking refl
