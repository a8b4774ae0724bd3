-- ===== src/Rtmp/Client/Replies.antt =====
-- crates/rtmp/src/session/client.rs: the replies of the server.
use stream_delay.Base.{
  ℕ, Bool, true, false, not, ◌&&◌, ◌||◌, Option, none, some, List, [], ◌∷◌, if◌then◌else◌,
}
use stream_delay.Flv.{Bytes}
use stream_delay.Rtmp.Amf0.{Amf0Value, str_eq, get}
use stream_delay.Rtmp.Amf0.Decode.{Read, stuck, err, ok}
use stream_delay.Rtmp.Message.{is_str}
use stream_delay.Rtmp.Link.{SessionError, Protocol}
use stream_delay.Rtmp.Server.{csid_command, csid_stream_command}
use stream_delay.Rtmp.Server.Words.{
  result_name, on_status, release_stream_name, fc_publish_name, create_stream_name, publish_name,
  connect_success, publish_start, code_name, description_name, level_name, error_name, zero_f64,
  one_f64,
}
use stream_delay.Rtmp.Server.Commands.{Done, nth, str_of, number_of, bytes_or}
use stream_delay.Rtmp.Client.{ClientEvent, ClientState, ClientSession, in_state, command}
use stream_delay.Rtmp.Client.Words.{
  error_reply, close_name, live_name, connection_error, connection_close, server_closed, tx_connect,
  tx_release, tx_fc_publish, tx_create, tx_publish,
}
use stream_delay.Rtmp.Client.StreamId.{stream_id_of}

-- How a handler ends, the session, and the events it has pushed.
abbrev pub ClientHandling : Type 0
ClientHandling = Done × ClientSession × List ClientEvent

abbrev pub silent : ClientSession → ClientHandling
silent s = (Done.fine, s, [])

-- `fail`.
abbrev pub give_up : Bytes → Bytes → ClientSession → ClientHandling
give_up code description s =
    (Done.fine, in_state ClientState.failed s, ClientEvent.error code description ∷ [])

-- `info.and_then(|i| i.get(…)).and_then(Amf0Value::as_str)`.
abbrev pub info_str : Bytes → Option Amf0Value → Option Bytes
info_str key none = none
info_str key (some i) = str_of (get key i)

-- `TX_CONNECT`: the commands that ask for a stream.
abbrev pub ask_with : Bytes → Bytes → ClientSession → ClientSession
ask_with name tx s =
    command csid_command 0
      (Amf0Value.string name
        ∷ Amf0Value.number tx
        ∷ Amf0Value.null
        ∷ Amf0Value.string s.config.stream_key
        ∷ [])
      s

abbrev pub ask_stream : ClientSession → ClientSession
ask_stream s = in_state ClientState.creating_stream (
    command csid_command 0
      (Amf0Value.string create_stream_name ∷ Amf0Value.number tx_create ∷ Amf0Value.null ∷ [])
      (ask_with fc_publish_name tx_fc_publish (ask_with release_stream_name tx_release s)))

abbrev pub is_refusal : Bytes → Bool
is_refusal [] = false
is_refusal (b ∷ code) = not (str_eq (b ∷ code) connect_success)

abbrev pub on_connected : ClientState → Bytes → Bytes → ClientSession → ClientHandling
on_connected ClientState.connecting code desc s = elim (is_refusal code) [
  | true ↦ give_up code desc s
  | false ↦ silent (ask_stream s)
]
on_connected _ code desc s = silent s

-- `TX_CREATE`: the stream is there, and is published.
abbrev pub publish_on : Option ℕ → ClientSession → ClientHandling
publish_on none s = (Done.failed (SessionError.protocol Protocol.invalid_stream_id), s, [])
publish_on (some id) s =
    silent
      (record (command csid_stream_command id
        (Amf0Value.string publish_name
          ∷ Amf0Value.number tx_publish
          ∷ Amf0Value.null
          ∷ Amf0Value.string s.config.stream_key
          ∷ Amf0Value.string live_name
          ∷ [])
        s) { stream_id = id; state = ClientState.publish_pending })

abbrev pub on_created : ClientState → Bytes → ClientSession → ClientHandling
on_created ClientState.creating_stream id s = publish_on (stream_id_of id) s
on_created _ id s = silent s

-- `_error`.
abbrev pub code_or_error : Bytes → Bytes
code_or_error [] = connection_error
code_or_error (b ∷ code) = b ∷ code

-- `onStatus`.
abbrev pub on_error_level : Bool → Bytes → Bytes → ClientSession → ClientHandling
on_error_level true code desc s = give_up code desc s
on_error_level false code desc s = silent s

abbrev pub on_start : ClientState → Bool → Bytes → Bytes → ClientSession → ClientHandling
on_start ClientState.publish_pending is_error code desc s =
    (Done.fine, in_state ClientState.publishing s, ClientEvent.publishing ∷ [])
on_start _ is_error code desc s = on_error_level is_error code desc s

abbrev pub on_status_of : Bool → ClientState → Bool → Bytes → Bytes → ClientSession → ClientHandling
on_status_of true t is_error code desc s = on_start t is_error code desc s
on_status_of false t is_error code desc s = on_error_level is_error code desc s

-- The replies that `handle` tells apart.
pub data Reply : Type 0 where
  connected created refusal status close ignored : Reply

unfoldable pub reply_of : Bytes → Bytes → Reply
reply_of name txid =
    if str_eq name result_name && str_eq txid tx_connect
    then Reply.connected
    else if str_eq name result_name && str_eq txid tx_create
    then Reply.created
    else if str_eq name error_reply
        && (str_eq txid tx_connect || str_eq txid tx_create || str_eq txid tx_publish)
    then Reply.refusal
    else if str_eq name on_status
    then Reply.status
    else if str_eq name close_name
    then Reply.close
    else Reply.ignored

-- What `handle` takes from the values.
pub record Info : Type 0 where
  pub code : Bytes
  pub desc : Bytes
  pub is_error : Bool
  pub id : Bytes

abbrev pub info_of : List Amf0Value → Info
info_of values = record {
  code = bytes_or [] (info_str code_name (nth 3 values));
  desc = bytes_or [] (info_str description_name (nth 3 values));
  is_error = is_str error_name (info_str level_name (nth 3 values));
  id = bytes_or one_f64 (number_of (nth 3 values));
}

unfoldable pub on_reply : Reply → Info → ClientSession → ClientHandling
on_reply Reply.connected i s = on_connected s.state i.code i.desc s
on_reply Reply.created i s = on_created s.state i.id s
on_reply Reply.refusal i s = give_up (code_or_error i.code) i.desc s
on_reply Reply.status i s =
    on_status_of (str_eq i.code publish_start) s.state i.is_error i.code i.desc s
on_reply Reply.close i s = give_up connection_close server_closed s
on_reply Reply.ignored i s = silent s

abbrev pub on_values : Read (List Amf0Value) → ClientSession → ClientHandling
on_values stuck s = (Done.endless, s, [])
on_values (err e) s = (Done.failed (SessionError.amf0 e), s, [])
on_values (ok values r) s =
    on_reply
      (reply_of (bytes_or [] (str_of (nth 0 values)))
        (bytes_or zero_f64 (number_of (nth 1 values))))
      (info_of values) s
