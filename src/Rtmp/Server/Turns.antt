-- ===== src/Rtmp/Server/Turns.antt =====
-- crates/rtmp/src/session/server.rs: what one message makes of a session.
use stream_delay.Base.{
  ℕ, Bool, true, false, Option, none, some, List, [], ◌∷◌, ◌≡◌, ◌≢◌, refl, sym, drop,
}
use stream_delay.Flv.{Bytes}
use stream_delay.Rtmp.Chunk.{Message}
use stream_delay.Rtmp.Amf0.{Amf0Value}
use stream_delay.Rtmp.Amf0.Decode.{Read, err, ok, decode_one, decode_all}
use stream_delay.Rtmp.Amf0.Ends.{decode_all-ends}
use stream_delay.Rtmp.Link.{
  Link, SessionError, Protocol, Handled, consumed, passed, refused, handle_control,
  set_out_chunk_size,
}
use stream_delay.Rtmp.Server.{
  MediaKind, ServerEvent, State, await_connect, connected, publish_pending, publishing, closed,
  ServerSession, with_link, say,
}
use stream_delay.Rtmp.Server.Commands.{
  Done, fine, quiet, refuse, endless, Handling, handle_command, run_values, run, on_connect,
  on_publish, on_end, CommandName,
}
use stream_delay.Rtmp.Server.Feed.{
  on_media, push_media, push_data, read_data, on_data, push_metadata, Arm, arm, arm_of,
  after_control, handle,
}
use stream_delay.Rtmp.Server.Kept.{IsKept, same-IsKept, IsKept-trans, handle_control-IsKept}
use stream_delay.Rtmp.Server.Protocol.{
  Course, stays, connects, requests, plays, describes, carries, gives_up, finishes, told,
}

-- A turn ends, its events lead from the state of `s` to the one it leaves, and the decoder is kept.
pub record IsTurn (s : ServerSession) (t : State) (x : Handling) : Type 0 where
  pub ended : x.0 ≢ endless
  pub path : Course t (told x.2) x.1.state
  pub kept : IsKept s.link.decoder x.1.link.decoder

-- One event is pushed, or none, and the decoder stays.
tells-IsTurn :
    {s : ServerSession} {t : State} (s' : ServerSession) (es : List ServerEvent)
    → Course t (told es) s'.state
    → IsKept s.link.decoder s'.link.decoder
    → IsTurn s t (fine, s', es)
tells-IsTurn s' es p k = record { ended = λ x. cc; path = p; kept = k }

quiet-IsTurn : {t : State} (s : ServerSession) → s.state ≡ t → IsTurn s t (quiet s)
quiet-IsTurn s e = tells-IsTurn s [] (rw (e) stays) (same-IsKept s.link.decoder)

-- An error ends it.
failed-IsTurn :
    {s : ServerSession} {t : State} (e : SessionError) (s' : ServerSession)
    → s'.state ≡ t
    → IsKept s.link.decoder s'.link.decoder
    → IsTurn s t (Done.failed e, s', [])
failed-IsTurn e s' h k = record { ended = λ x. cc; path = rw (h) stays; kept = k }

refuse-IsTurn :
    {t : State} (p : Protocol) (s : ServerSession) → s.state ≡ t → IsTurn s t (refuse p s)
refuse-IsTurn p s e = failed-IsTurn (SessionError.protocol p) s e (same-IsKept s.link.decoder)

on_connect-IsTurn :
    (t : State) (txid : Bytes) (values : List Amf0Value) (s : ServerSession)
    → s.state ≡ t
    → IsTurn s t (on_connect t txid values s)
unfolding say set_out_chunk_size
on_connect-IsTurn await_connect txid values s e =
    tells-IsTurn _ _ (connects _ _ _ stays) (same-IsKept s.link.decoder)
on_connect-IsTurn connected txid values s e = refuse-IsTurn _ s e
on_connect-IsTurn publish_pending txid values s e = refuse-IsTurn _ s e
on_connect-IsTurn publishing txid values s e = refuse-IsTurn _ s e
on_connect-IsTurn closed txid values s e = refuse-IsTurn _ s e

on_publish-IsTurn :
    (t : State) (key : Bytes) (s : ServerSession) → s.state ≡ t → IsTurn s t (on_publish t key s)
on_publish-IsTurn await_connect key s e = refuse-IsTurn _ s e
on_publish-IsTurn connected key s e =
    tells-IsTurn _ _ (requests _ _ stays) (same-IsKept s.link.decoder)
on_publish-IsTurn publish_pending key s e = refuse-IsTurn _ s e
on_publish-IsTurn publishing key s e = refuse-IsTurn _ s e
on_publish-IsTurn closed key s e = refuse-IsTurn _ s e

on_end-IsTurn : (t : State) (s : ServerSession) → s.state ≡ t → IsTurn s t (on_end t s)
on_end-IsTurn await_connect s e = quiet-IsTurn s e
on_end-IsTurn connected s e = quiet-IsTurn s e
on_end-IsTurn publish_pending s e = tells-IsTurn _ _ (gives_up stays) (same-IsKept s.link.decoder)
on_end-IsTurn publishing s e = tells-IsTurn _ _ (finishes stays) (same-IsKept s.link.decoder)
on_end-IsTurn closed s e = quiet-IsTurn s e

run-IsTurn :
    (c : CommandName) (txid : Bytes) (values : List Amf0Value) (s : ServerSession)
    → IsTurn s s.state (run c txid values s)
unfolding run say
run-IsTurn CommandName.connect txid values s = on_connect-IsTurn s.state txid values s refl
run-IsTurn CommandName.release_stream txid values s =
    tells-IsTurn _ _ stays (same-IsKept s.link.decoder)
run-IsTurn CommandName.fc_publish txid values s =
    tells-IsTurn _ _ stays (same-IsKept s.link.decoder)
run-IsTurn CommandName.create_stream txid values s =
    tells-IsTurn _ _ stays (same-IsKept s.link.decoder)
run-IsTurn CommandName.publish txid values s = on_publish-IsTurn s.state _ s refl
run-IsTurn CommandName.end_stream txid values s = on_end-IsTurn s.state s refl
run-IsTurn CommandName.unknown txid values s = quiet-IsTurn s refl

run_values-IsTurn :
    (r : Read (List Amf0Value)) (s : ServerSession)
    → r ≢ Read.stuck
    → IsTurn s s.state (run_values r s)
run_values-IsTurn Read.stuck s h = absurd (h refl)
run_values-IsTurn (err e) s h = failed-IsTurn _ s refl (same-IsKept s.link.decoder)
run_values-IsTurn (ok values r) s h = run-IsTurn _ _ values s

handle_command-IsTurn :
    (payload : Bytes) (s : ServerSession) → IsTurn s s.state (handle_command payload s)
unfolding handle_command
handle_command-IsTurn payload s = run_values-IsTurn (decode_all payload) s (decode_all-ends payload)

push_media-IsTurn :
    (kind : MediaKind) (ts : ℕ) (payload : Bytes) (s : ServerSession)
    → s.state ≡ publishing
    → IsTurn s publishing (push_media kind ts payload s)
push_media-IsTurn kind ts [] s e = quiet-IsTurn s e
push_media-IsTurn kind ts (b ∷ bs) s e =
    tells-IsTurn _ _ (plays _ _ _ (rw (e) stays)) (same-IsKept s.link.decoder)

on_media-IsTurn :
    (t : State) (kind : MediaKind) (m : Message) (s : ServerSession)
    → s.state ≡ t
    → IsTurn s t (on_media t kind m s)
on_media-IsTurn publishing kind m s e = push_media-IsTurn kind m.timestamp m.payload s e
on_media-IsTurn await_connect kind m s e = quiet-IsTurn s e
on_media-IsTurn connected kind m s e = quiet-IsTurn s e
on_media-IsTurn publish_pending kind m s e = quiet-IsTurn s e
on_media-IsTurn closed kind m s e = quiet-IsTurn s e

push_metadata-IsTurn :
    (ts : ℕ) (p : Option Bytes) (s : ServerSession)
    → s.state ≡ publishing
    → IsTurn s publishing (push_metadata ts p s)
push_metadata-IsTurn ts none s e = quiet-IsTurn s e
push_metadata-IsTurn ts (some p) s e =
    tells-IsTurn _ _ (describes _ _ (rw (e) stays)) (same-IsKept s.link.decoder)

push_data-IsTurn :
    (b : Bool) (m : Message) (s : ServerSession)
    → s.state ≡ publishing
    → IsTurn s publishing (push_data b m s)
push_data-IsTurn true m s e = push_metadata-IsTurn m.timestamp _ s e
push_data-IsTurn false m s e =
    tells-IsTurn _ _ (carries _ _ (rw (e) stays)) (same-IsKept s.link.decoder)

read_data-IsTurn :
    (m : Message) (r : Read Amf0Value) (s : ServerSession)
    → s.state ≡ publishing
    → IsTurn s publishing (read_data m r s)
read_data-IsTurn m Read.stuck s e = quiet-IsTurn s e
read_data-IsTurn m (err x) s e = quiet-IsTurn s e
read_data-IsTurn m (ok first rest) s e = push_data-IsTurn _ m s e

on_data-IsTurn :
    (t : State) (m : Message) (s : ServerSession) → s.state ≡ t → IsTurn s t (on_data t m s)
on_data-IsTurn publishing m s e = read_data-IsTurn m (decode_one m.payload) s e
on_data-IsTurn await_connect m s e = quiet-IsTurn s e
on_data-IsTurn connected m s e = quiet-IsTurn s e
on_data-IsTurn publish_pending m s e = quiet-IsTurn s e
on_data-IsTurn closed m s e = quiet-IsTurn s e

arm-IsTurn : (a : Arm) (m : Message) (s : ServerSession) → IsTurn s s.state (arm a m s)
unfolding arm
arm-IsTurn Arm.command m s = handle_command-IsTurn m.payload s
arm-IsTurn Arm.command_after_format m s = handle_command-IsTurn (drop 1 m.payload) s
arm-IsTurn (Arm.media_message kind) m s = on_media-IsTurn s.state kind m s refl
arm-IsTurn Arm.data_message m s = on_data-IsTurn s.state m s refl
arm-IsTurn Arm.other m s = quiet-IsTurn s refl

-- One turn after a change of the link only.
after-IsTurn :
    (s s' : ServerSession) {x : Handling}
    → s'.state ≡ s.state
    → IsKept s.link.decoder s'.link.decoder
    → IsTurn s' s'.state x
    → IsTurn s s.state x
after-IsTurn s s' e k h = record {
  ended = h.ended;
  path = rw (sym e) h.path;
  kept = IsKept-trans k h.kept;
}

after_control-IsTurn :
    (m : Message) (r : Handled × Link) (s : ServerSession)
    → IsKept s.link.decoder r.1.decoder
    → IsTurn s s.state (after_control m r s)
after_control-IsTurn m (refused e, l) s k = failed-IsTurn e (with_link l s) refl k
after_control-IsTurn m (consumed, l) s k = tells-IsTurn (with_link l s) [] stays k
after_control-IsTurn m (passed, l) s k =
    after-IsTurn s (with_link l s) refl k (arm-IsTurn (arm_of m.type_id) m (with_link l s))

pub handle-IsTurn : (m : Message) (s : ServerSession) → IsTurn s s.state (handle m s)
unfolding handle
handle-IsTurn m s =
    after_control-IsTurn m (handle_control m s.link) s (handle_control-IsKept m s.link)
