-- ===== src/Rtmp/Server/Commands.antt =====
-- crates/rtmp/src/session/server.rs: the commands of the client.
use stream_delay.Base.{ℕ, zero, suc, Bool, ◌||◌, Option, none, some, List, [], ◌∷◌, if◌then◌else◌}
use stream_delay.Flv.{Bytes}
use stream_delay.Rtmp.Amf0.{
  Amf0Value, Props, no_props, prop, as_str, as_number, props_of, get, str_eq,
}
use stream_delay.Rtmp.Amf0.Decode.{Read, stuck, err, ok, decode_all}
use stream_delay.Rtmp.Message.{
  write_u32_control, write_set_peer_bandwidth, write_command, window_ack_size,
}
use stream_delay.Rtmp.Link.{SessionError, Protocol, set_out_chunk_size}
use stream_delay.Rtmp.Server.{
  ServerEvent, State, await_connect, connected, publish_pending, publishing, closed, ServerSession,
  csid_command, with_link, with_state, say, reply_result,
}
use stream_delay.Rtmp.Server.Words.{
  connect_name, release_stream_name, fc_publish_name, create_stream_name, publish_name,
  fc_unpublish_name, delete_stream_name, close_stream_name, app_name, tc_url_name,
  object_encoding_name, on_fc_publish, level_name, code_name, description_name, status_name,
  fms_ver, fms_version, capabilities_name, connect_success, connect_succeeded, publish_start,
  zero_f64, one_f64, capabilities_f64,
}

-- How a handler ends. `endless` is no value of the code: a loop ran out of fuel.
pub data Done : Type 0 where
  fine : Done
  failed : SessionError → Done
  endless : Done

-- How it ends, the session, and the events it has pushed.
abbrev pub Handling : Type 0
Handling = Done × ServerSession × List ServerEvent

abbrev pub quiet : ServerSession → Handling
quiet s = (Done.fine, s, [])

abbrev pub refuse : Protocol → ServerSession → Handling
refuse p s = (Done.failed (SessionError.protocol p), s, [])

-- `values.get(n)`.
abbrev pub nth : ℕ → List Amf0Value → Option Amf0Value
nth n [] = none
nth zero (v ∷ vs) = some v
nth (suc n) (v ∷ vs) = nth n vs

-- `and_then(Amf0Value::as_str)`.
abbrev pub str_of : Option Amf0Value → Option Bytes
str_of none = none
str_of (some v) = as_str v

-- `and_then(Amf0Value::as_number)`.
abbrev pub number_of : Option Amf0Value → Option Bytes
number_of none = none
number_of (some v) = as_number v

abbrev pub bytes_or : Bytes → Option Bytes → Bytes
bytes_or b none = b
bytes_or b (some c) = c

-- `cloned().unwrap_or(Amf0Value::Null)`.
abbrev pub or_null : Option Amf0Value → Amf0Value
or_null none = Amf0Value.null
or_null (some v) = v

-- `map(<[_]>::to_vec).unwrap_or_default()`.
abbrev pub or_no_props : Option Props → Props
or_no_props none = no_props
or_no_props (some p) = p

-- `connect`: the answers, then the event.
abbrev pub connect_result : Amf0Value → List Amf0Value
connect_result obj =
    Amf0Value.object (
      prop fms_ver (Amf0Value.string fms_version)
        (prop capabilities_name (Amf0Value.number capabilities_f64) no_props))
    ∷ Amf0Value.object (
        prop level_name (Amf0Value.string status_name) (
          prop code_name (Amf0Value.string connect_success) (
            prop description_name (Amf0Value.string connect_succeeded) (
              prop object_encoding_name
                (Amf0Value.number (bytes_or zero_f64 (number_of (get object_encoding_name obj))))
                no_props))))
    ∷ []

abbrev pub welcome : ServerSession → ServerSession
welcome s =
    let s' = say (write_u32_control s.link.encoder window_ack_size s.config.window_ack_size) s in
    let s'' = say (write_set_peer_bandwidth s.link.encoder s.config.peer_bandwidth 2) s' in
    with_link (set_out_chunk_size s.config.chunk_size s''.link) s''

abbrev pub connect_with : Bytes → Amf0Value → ServerSession → Handling
connect_with txid obj s =
    let name = bytes_or [] (str_of (get app_name obj)) in
    let s' = reply_result txid (connect_result obj) (welcome (record s { app = name })) in
    (
      Done.fine,
      with_state State.connected s',
      ServerEvent.connect name (str_of (get tc_url_name obj)) (or_no_props (props_of obj)) ∷ [],
    )

abbrev pub on_connect : State → Bytes → List Amf0Value → ServerSession → Handling
on_connect await_connect txid values s = connect_with txid (or_null (nth 2 values)) s
on_connect _ txid values s = refuse Protocol.connect_twice s

-- `FCPublish` is answered with a command of its own first.
abbrev pub fc_published : Bytes → ServerSession → ServerSession
fc_published key s =
    say
      (write_command s.link.encoder csid_command 0 (
        Amf0Value.string on_fc_publish
        ∷ Amf0Value.number zero_f64
        ∷ Amf0Value.null
        ∷ Amf0Value.object (
            prop code_name (Amf0Value.string publish_start)
              (prop description_name (Amf0Value.string key) no_props))
        ∷ []))
      s

abbrev pub on_release : Bytes → ServerSession → Handling
on_release txid s = quiet (reply_result txid (Amf0Value.null ∷ Amf0Value.undefined ∷ []) s)

-- `publish`.
abbrev pub on_publish : State → Bytes → ServerSession → Handling
on_publish connected key s = (
  Done.fine,
  record s { stream_key = key; state = State.publish_pending },
  ServerEvent.publish_request s.app key ∷ [],
)
on_publish publish_pending key s = refuse Protocol.publish_twice s
on_publish publishing key s = refuse Protocol.publish_twice s
on_publish await_connect key s = refuse Protocol.publish_before_connect s
on_publish closed key s = refuse Protocol.publish_after_end s

-- `FCUnpublish`, `deleteStream` and `closeStream`.
abbrev pub ended : ServerSession → Handling
ended s = (Done.fine, with_state State.closed s, ServerEvent.unpublish ∷ [])

abbrev pub on_end : State → ServerSession → Handling
on_end publishing s = ended s
on_end publish_pending s = ended s
on_end _ s = quiet s

-- The names that `handle_command` tells apart.
pub data CommandName : Type 0 where
  connect release_stream fc_publish create_stream publish end_stream unknown : CommandName

abbrev pub is_end : Bytes → Bool
is_end name =
    str_eq name fc_unpublish_name || str_eq name delete_stream_name || str_eq name close_stream_name

unfoldable pub command_of : Bytes → CommandName
command_of name =
    if str_eq name connect_name
    then CommandName.connect
    else if str_eq name release_stream_name
    then CommandName.release_stream
    else if str_eq name fc_publish_name
    then CommandName.fc_publish
    else if str_eq name create_stream_name
    then CommandName.create_stream
    else if str_eq name publish_name
    then CommandName.publish
    else if is_end name
    then CommandName.end_stream
    else CommandName.unknown

-- The arms of `handle_command`.
unfoldable pub run : CommandName → Bytes → List Amf0Value → ServerSession → Handling
run CommandName.connect txid values s = on_connect s.state txid values s
run CommandName.release_stream txid values s = on_release txid s
run CommandName.fc_publish txid values s =
    on_release txid (fc_published (bytes_or [] (str_of (nth 3 values))) s)
run CommandName.create_stream txid values s =
    quiet (reply_result txid (Amf0Value.null ∷ Amf0Value.number one_f64 ∷ []) s)
run CommandName.publish txid values s = on_publish s.state (bytes_or [] (str_of (nth 3 values))) s
run CommandName.end_stream txid values s = on_end s.state s
run CommandName.unknown txid values s = quiet s

-- `handle_command`.
abbrev pub run_values : Read (List Amf0Value) → ServerSession → Handling
run_values stuck s = (Done.endless, s, [])
run_values (err e) s = (Done.failed (SessionError.amf0 e), s, [])
run_values (ok values r) s =
    run (command_of (bytes_or [] (str_of (nth 0 values))))
      (bytes_or zero_f64 (number_of (nth 1 values))) values s

unfoldable pub handle_command : Bytes → ServerSession → Handling
handle_command payload s = run_values (decode_all payload) s
