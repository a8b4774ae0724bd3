-- ===== src/Tests/Client.antt =====
-- Runs of the client side of a publish session at concrete inputs.
use stream_delay.Base.{List, [], ◌∷◌, ◌++◌, ◌≡◌, ◌≢◌, ◌≤◌}
use stream_delay.Flv.{Bytes}
use stream_delay.Rtmp.Chunk.Encode.{new_encoder}
use stream_delay.Rtmp.Amf0.{Amf0Value}
use stream_delay.Rtmp.Message.{write_command}
use stream_delay.Rtmp.Server.{MediaKind, csid_command, status_object}
use stream_delay.Rtmp.Server.Words.{
  result_name, on_status, status_name, publish_start, zero_f64, one_f64,
}
use stream_delay.Rtmp.Server.Commands.{endless}
use stream_delay.Rtmp.Client.{
  ClientConfig, ClientSession, new_client_config, new_client_session, close,
}
use stream_delay.Rtmp.Client.Words.{tx_connect, tx_create}
use stream_delay.Rtmp.Client.Feed.{feed_client}
use stream_delay.Rtmp.Client.Ends.{feed_client-ends}
use stream_delay.Rtmp.Client.Turns.{HasId}
use stream_delay.Rtmp.Client.Follows.{
  perform_deeds-ClientCourse, perform_deeds-HasId, starts_in, perform_deeds-starts,
}
use stream_delay.Rtmp.Client.Protocol.{ClientCourse, Deed, gives, sends_media, ends, perform_deeds}

abbrev client_config : ClientConfig
client_config =
    new_client_config (0x61 ∷ [])
      (0x72 ∷ 0x74 ∷ 0x6d ∷ 0x70 ∷ 0x3a ∷ 0x2f ∷ 0x2f ∷ 0x68 ∷ 0x2f ∷ 0x61 ∷ []) (0x6b ∷ [])

abbrev replies : Bytes
replies =
    write_command new_encoder csid_command 0
      (Amf0Value.string result_name ∷ Amf0Value.number tx_connect ∷ Amf0Value.null ∷ [])
    ++ (write_command new_encoder csid_command 0 (
          Amf0Value.string result_name
          ∷ Amf0Value.number tx_create
          ∷ Amf0Value.null
          ∷ Amf0Value.number one_f64
          ∷ [])
        ++ write_command new_encoder csid_command 1 (
            Amf0Value.string on_status
            ∷ Amf0Value.number zero_f64
            ∷ Amf0Value.null
            ∷ status_object status_name publish_start []
            ∷ []))

-- The server accepts, a frame is sent, the session is closed.
abbrev published : List Deed
published = gives replies ∷ sends_media MediaKind.audio 20 (0xaf ∷ 1 ∷ []) ∷ ends ∷ []

abbrev client : ClientSession
client = new_client_session client_config

feed_client-ends_example : (feed_client replies client).0 ≢ endless
feed_client-ends_example = feed_client-ends replies client

perform_deeds-ClientCourse_example :
    ClientCourse client.state
      (perform_deeds published client).0
      (perform_deeds published client).1.state
perform_deeds-ClientCourse_example = perform_deeds-ClientCourse published client

perform_deeds-HasId_example :
    HasId (perform_deeds (gives replies ∷ []) (new_client_session client_config)).1
perform_deeds-HasId_example = perform_deeds-HasId client_config (gives replies ∷ [])

perform_deeds-starts_example :
    (starts_in (perform_deeds (gives replies ∷ []) client).0 ≤ 1)
    × (starts_in
          (perform_deeds
            (gives replies ∷ [])
            (close (perform_deeds (gives replies ∷ []) client).1)).0
        ≡ 0)
perform_deeds-starts_example =
    perform_deeds-starts client_config (gives replies ∷ []) (gives replies ∷ [])
