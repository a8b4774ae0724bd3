-- ===== src/Rtmp/Client/Turns.antt =====
-- crates/rtmp/src/session/client.rs: what one message makes of a session.
use stream_delay.Base.{ℕ, Bool, true, false, ◌≤◌, Option, none, some, List, [], ◌≡◌, ◌≢◌, refl}
use stream_delay.Flv.{Bytes}
use stream_delay.Rtmp.Chunk.{Message}
use stream_delay.Rtmp.Amf0.{Amf0Value}
use stream_delay.Rtmp.Amf0.Decode.{Read, stuck, err, ok, decode_all}
use stream_delay.Rtmp.Amf0.Ends.{decode_all-ends}
use stream_delay.Rtmp.Link.{Link, SessionError, Handled, consumed, passed, refused, handle_control}
use stream_delay.Rtmp.Server.Commands.{Done, endless}
use stream_delay.Rtmp.Server.Kept.{IsKept, same-IsKept, IsKept-trans, handle_control-IsKept}
use stream_delay.Rtmp.Client.{
  ClientState, connecting, creating_stream, publish_pending, publishing, failed, closed,
  ClientSession, on_link, command,
}
use stream_delay.Rtmp.Client.StreamId.{u32_max, stream_id_of, stream_id_of-bounds}
use stream_delay.Rtmp.Client.Replies.{
  ClientHandling, silent, give_up, is_refusal, on_connected, publish_on, on_created, on_error_level,
  on_start, on_status_of, Reply, Info, on_reply, on_values, ask_stream,
}
use stream_delay.Rtmp.Client.Feed.{command_body, on_body, on_control, handle_reply}
use stream_delay.Rtmp.Client.Protocol.{ClientCourse, rests, asks, names, starts, fails, reported}

-- Once a stream is published or is about to be, it has an id that is not that of the connection.
abbrev pub NeedsId : ClientState → ℕ → Type 0
NeedsId publish_pending id = (1 ≤ id) × (id ≤ u32_max)
NeedsId publishing id = (1 ≤ id) × (id ≤ u32_max)
NeedsId _ id = Unit

unfoldable pub HasId : ClientSession → Type 0
HasId s = NeedsId s.state s.stream_id

-- A handler ends, its events lead from the state of `s` to the one it leaves, the decoder is kept, and
-- a stream that is published has an id.
pub record IsHandled (s : ClientSession) (t : ClientState) (x : ClientHandling) : Type 0 where
  pub ended : x.0 ≢ endless
  pub course : ClientCourse t (reported x.2) x.1.state
  pub kept : IsKept s.link.decoder x.1.link.decoder
  pub has_id : NeedsId t s.stream_id → NeedsId x.1.state x.1.stream_id

silent-IsHandled : {t : ClientState} (s : ClientSession) → s.state ≡ t → IsHandled s t (silent s)
silent-IsHandled s e = record {
  ended = λ x. cc;
  course = rw (e) rests;
  kept = same-IsKept s.link.decoder;
  has_id = λ h. rw (e) h;
}

give_up-IsHandled :
    {t : ClientState} (code desc : Bytes) (s : ClientSession) → IsHandled s t (give_up code desc s)
give_up-IsHandled code desc s = record {
  ended = λ x. cc;
  course = fails _ code desc rests;
  kept = same-IsKept s.link.decoder;
  has_id = λ h. tt;
}

asked-IsHandled :
    (refusal : Bool) (code desc : Bytes) (s : ClientSession)
    → IsHandled s connecting
        (elim refusal [ true ↦ give_up code desc s | false ↦ silent (ask_stream s) ])
unfolding command
asked-IsHandled true code desc s = give_up-IsHandled code desc s
asked-IsHandled false code desc s = record {
  ended = λ x. cc;
  course = asks rests;
  kept = same-IsKept s.link.decoder;
  has_id = λ h. tt;
}

on_connected-IsHandled :
    (t : ClientState) (code desc : Bytes) (s : ClientSession)
    → s.state ≡ t
    → IsHandled s t (on_connected t code desc s)
on_connected-IsHandled connecting code desc s e = asked-IsHandled (is_refusal code) code desc s
on_connected-IsHandled creating_stream code desc s e = silent-IsHandled s e
on_connected-IsHandled publish_pending code desc s e = silent-IsHandled s e
on_connected-IsHandled publishing code desc s e = silent-IsHandled s e
on_connected-IsHandled failed code desc s e = silent-IsHandled s e
on_connected-IsHandled closed code desc s e = silent-IsHandled s e

publish_on-IsHandled :
    (id : Option ℕ) (s : ClientSession)
    → s.state ≡ creating_stream
    → ((v : ℕ) → id ≡ some v → (1 ≤ v) × (v ≤ u32_max))
    → IsHandled s creating_stream (publish_on id s)
unfolding command
publish_on-IsHandled none s e h = record {
  ended = λ x. cc;
  course = rw (e) rests;
  kept = same-IsKept s.link.decoder;
  has_id = λ k. rw (e) tt;
}
publish_on-IsHandled (some v) s e h = record {
  ended = λ x. cc;
  course = names rests;
  kept = same-IsKept s.link.decoder;
  has_id = λ k. h v refl;
}

on_created-IsHandled :
    (t : ClientState) (id : Bytes) (s : ClientSession)
    → s.state ≡ t
    → IsHandled s t (on_created t id s)
on_created-IsHandled creating_stream id s e =
    publish_on-IsHandled (stream_id_of id) s e (λ v h. stream_id_of-bounds id h)
on_created-IsHandled connecting id s e = silent-IsHandled s e
on_created-IsHandled publish_pending id s e = silent-IsHandled s e
on_created-IsHandled publishing id s e = silent-IsHandled s e
on_created-IsHandled failed id s e = silent-IsHandled s e
on_created-IsHandled closed id s e = silent-IsHandled s e

on_error_level-IsHandled :
    {t : ClientState} (is_error : Bool) (code desc : Bytes) (s : ClientSession)
    → s.state ≡ t
    → IsHandled s t (on_error_level is_error code desc s)
on_error_level-IsHandled true code desc s e = give_up-IsHandled code desc s
on_error_level-IsHandled false code desc s e = silent-IsHandled s e

on_start-IsHandled :
    (t : ClientState) (is_error : Bool) (code desc : Bytes) (s : ClientSession)
    → s.state ≡ t
    → IsHandled s t (on_start t is_error code desc s)
on_start-IsHandled publish_pending b code desc s e = record {
  ended = λ x. cc;
  course = starts rests;
  kept = same-IsKept s.link.decoder;
  has_id = λ h. h;
}
on_start-IsHandled connecting b code desc s e = on_error_level-IsHandled b code desc s e
on_start-IsHandled creating_stream b code desc s e = on_error_level-IsHandled b code desc s e
on_start-IsHandled publishing b code desc s e = on_error_level-IsHandled b code desc s e
on_start-IsHandled failed b code desc s e = on_error_level-IsHandled b code desc s e
on_start-IsHandled closed b code desc s e = on_error_level-IsHandled b code desc s e

on_status_of-IsHandled :
    (started : Bool) (is_error : Bool) (code desc : Bytes) (s : ClientSession)
    → IsHandled s s.state (on_status_of started s.state is_error code desc s)
on_status_of-IsHandled true b code desc s = on_start-IsHandled s.state b code desc s refl
on_status_of-IsHandled false b code desc s = on_error_level-IsHandled b code desc s refl

on_reply-IsHandled :
    (r : Reply) (i : Info) (s : ClientSession) → IsHandled s s.state (on_reply r i s)
unfolding on_reply
on_reply-IsHandled Reply.connected i s = on_connected-IsHandled s.state i.code i.desc s refl
on_reply-IsHandled Reply.created i s = on_created-IsHandled s.state i.id s refl
on_reply-IsHandled Reply.refusal i s = give_up-IsHandled _ i.desc s
on_reply-IsHandled Reply.status i s = on_status_of-IsHandled _ i.is_error i.code i.desc s
on_reply-IsHandled Reply.close i s = give_up-IsHandled _ _ s
on_reply-IsHandled Reply.ignored i s = silent-IsHandled s refl

failed-IsHandled :
    (e : SessionError) (s s' : ClientSession)
    → s'.state ≡ s.state
    → s'.stream_id ≡ s.stream_id
    → IsKept s.link.decoder s'.link.decoder
    → IsHandled s s.state (Done.failed e, s', [])
failed-IsHandled e s s' h i k = record {
  ended = λ x. cc;
  course = rw (h) rests;
  kept = k;
  has_id = λ n. rw (h, i) n;
}

on_values-IsHandled :
    (r : Read (List Amf0Value)) (s : ClientSession)
    → r ≢ stuck
    → IsHandled s s.state (on_values r s)
on_values-IsHandled stuck s h = absurd (h refl)
on_values-IsHandled (err e) s h = failed-IsHandled _ s s refl refl (same-IsKept s.link.decoder)
on_values-IsHandled (ok values r) s h = on_reply-IsHandled _ _ s

on_body-IsHandled : (b : Option Bytes) (s : ClientSession) → IsHandled s s.state (on_body b s)
on_body-IsHandled none s = silent-IsHandled s refl
on_body-IsHandled (some b) s = on_values-IsHandled (decode_all b) s (decode_all-ends b)

on_control-IsHandled :
    (m : Message) (r : Handled × Link) (s : ClientSession)
    → IsKept s.link.decoder r.1.decoder
    → IsHandled s s.state (on_control m r s)
on_control-IsHandled m (refused e, l) s k = failed-IsHandled e s (on_link l s) refl refl k
on_control-IsHandled m (consumed, l) s k = record {
  ended = λ x. cc;
  course = rests;
  kept = k;
  has_id = λ h. h;
}
on_control-IsHandled m (passed, l) s k =
    let h = on_body-IsHandled (command_body m) (on_link l s) in
    record { ended = h.ended; course = h.course; kept = IsKept-trans k h.kept; has_id = h.has_id }

pub handle_reply-IsHandled :
    (m : Message) (s : ClientSession) → IsHandled s s.state (handle_reply m s)
unfolding handle_reply
handle_reply-IsHandled m s =
    on_control-IsHandled m (handle_control m s.link) s (handle_control-IsKept m s.link)
