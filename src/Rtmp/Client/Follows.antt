-- ===== src/Rtmp/Client/Follows.antt =====
-- crates/rtmp/src/session/client.rs: the courses and the stream id of a session, over all its calls.
use stream_delay.Base.{
  ℕ, zero, suc, ◌≤◌, Bool, true, false, List, [], ◌∷◌, ◌++◌, length, if◌then◌else◌, ◌≡◌, refl,
  arith,
}
use stream_delay.Flv.{Bytes}
use stream_delay.Rtmp.Chunk.Decode.{Received, stuck, waiting, failed, received, next_message}
use stream_delay.Rtmp.Server.Commands.{Done, fine, endless}
use stream_delay.Rtmp.Client.{
  ClientEvent, ClientState, connecting, creating_stream, publish_pending, publishing, closed,
  ClientConfig, ClientSession, new_client_session, is_publishing, send_media, send_data, close_open,
  close_in, close, command,
}
use stream_delay.Rtmp.Client.Replies.{ClientHandling}
use stream_delay.Rtmp.Client.Feed.{
  handle_reply, and_then, on_next, drain_replies, feed_client, given, set_decoder,
}
use stream_delay.Rtmp.Client.Protocol.{
  Signal, reports, closes, ClientCourse, rests, asks, names, starts, fails, shuts, has_failed, Deed,
  gives, sends_media, sends_data, ends, reported, perform_deed, perform_deeds,
}
use stream_delay.Rtmp.Client.Turns.{NeedsId, HasId, handle_reply-IsHandled}

ClientCourse-append :
    {s t u : ClientState} {ls ls' : List Signal}
    → ClientCourse s ls t
    → ClientCourse t ls' u
    → ClientCourse s (ls ++ ls') u
ClientCourse-append rests q = q
ClientCourse-append (asks p) q = asks (ClientCourse-append p q)
ClientCourse-append (names p) q = names (ClientCourse-append p q)
ClientCourse-append (starts p) q = starts (ClientCourse-append p q)
ClientCourse-append (fails s code desc p) q = fails s code desc (ClientCourse-append p q)
ClientCourse-append (shuts s p) q = shuts s (ClientCourse-append p q)
ClientCourse-append (has_failed p) q = has_failed (ClientCourse-append p q)

reported-append : (es fs : List ClientEvent) → reported (es ++ fs) ≡ reported es ++ reported fs
reported-append [] fs = refl
reported-append (e ∷ es) fs = rw (reported-append es fs) refl

-- What a call makes of a session: signals along a course, and an id where one is needed.
record IsServed (s : ClientSession) (ls : List Signal) (s' : ClientSession) : Type 0 where
  course : ClientCourse s.state ls s'.state
  has_id : NeedsId s.state s.stream_id → NeedsId s'.state s'.stream_id

same-IsServed : (s : ClientSession) → IsServed s [] s
same-IsServed s = record { course = rests; has_id = λ h. h }

IsServed-trans :
    {s t u : ClientSession} {ls ls' : List Signal}
    → IsServed s ls t
    → IsServed t ls' u
    → IsServed s (ls ++ ls') u
IsServed-trans h k = record {
  course = ClientCourse-append h.course k.course;
  has_id = λ n. k.has_id (h.has_id n);
}

and_then-IsServed :
    (more : ClientSession → ClientHandling) (s : ClientSession) (x : ClientHandling)
    → ((s' : ClientSession) → IsServed s' (reported (more s').2) (more s').1)
    → IsServed s (reported x.2) x.1
    → IsServed s (reported (and_then more x).2) (and_then more x).1
unfolding and_then
and_then-IsServed more s (fine, s', es) later h =
    rw (reported-append es (more s').2) (IsServed-trans h (later s'))
and_then-IsServed more s (Done.failed e, s', es) later h = h
and_then-IsServed more s (endless, s', es) later h = h

on_next-IsServed :
    (more : ClientSession → ClientHandling) (r : Received) (s : ClientSession)
    → ((s' : ClientSession) → IsServed s' (reported (more s').2) (more s').1)
    → IsServed s (reported (on_next more r s).2) (on_next more r s).1
on_next-IsServed more stuck s later = same-IsServed s
on_next-IsServed more (waiting d) s later = record { course = rests; has_id = λ h. h }
on_next-IsServed more (failed e d) s later = record { course = rests; has_id = λ h. h }
on_next-IsServed more (received m d) s later =
    let turn = handle_reply-IsHandled m (set_decoder d s) in
    and_then-IsServed more s (handle_reply m (set_decoder d s)) later
      (record { course = turn.course; has_id = turn.has_id })

drain_replies-IsServed :
    (fuel : ℕ) (s : ClientSession)
    → IsServed s (reported (drain_replies fuel s).2) (drain_replies fuel s).1
unfolding drain_replies
drain_replies-IsServed zero s = same-IsServed s
drain_replies-IsServed (suc fuel) s =
    on_next-IsServed (drain_replies fuel) (next_message s.link.decoder) s
      (drain_replies-IsServed fuel)

feed_client-IsServed :
    (b : Bytes) (s : ClientSession) → IsServed s (reported (feed_client b s).2) (feed_client b s).1
unfolding feed_client
feed_client-IsServed b s =
    let served = drain_replies-IsServed (suc (length (given b s).link.decoder.buf)) (given b s) in
    record { course = served.course; has_id = served.has_id }

-- A choice between sending and leaving it.
sent-IsServed :
    (b : Bool) (s s' : ClientSession) → IsServed s [] s' → IsServed s [] (if b then s' else s)
sent-IsServed true s s' h = h
sent-IsServed false s s' h = same-IsServed s

close_open-IsServed : (s : ClientSession) → IsServed s (closes ∷ []) (close_open s)
close_open-IsServed s = record { course = shuts s.state rests; has_id = λ h. tt }

close_in-IsServed :
    (t : ClientState) (s : ClientSession) → s.state ≡ t → IsServed s (closes ∷ []) (close_in t s)
close_in-IsServed ClientState.failed s e = record {
  course = rw (e) (has_failed rests);
  has_id = λ h. h;
}
close_in-IsServed closed s e = record { course = rw (e) (shuts closed rests); has_id = λ h. h }
close_in-IsServed connecting s e = close_open-IsServed s
close_in-IsServed creating_stream s e = close_open-IsServed s
close_in-IsServed publish_pending s e = close_open-IsServed s
close_in-IsServed publishing s e = close_open-IsServed s

perform_deed-IsServed :
    (a : Deed) (s : ClientSession) → IsServed s (perform_deed a s).0 (perform_deed a s).1
unfolding perform_deed send_media send_data close
perform_deed-IsServed (gives b) s = feed_client-IsServed b s
perform_deed-IsServed (sends_media kind ts payload) s =
    sent-IsServed (is_publishing s.state) s _ (record { course = rests; has_id = λ h. h })
perform_deed-IsServed (sends_data ts payload) s =
    sent-IsServed (is_publishing s.state) s _ (record { course = rests; has_id = λ h. h })
perform_deed-IsServed ends s = close_in-IsServed s.state s refl

perform_deeds-IsServed :
    (deeds : List Deed) (s : ClientSession)
    → IsServed s (perform_deeds deeds s).0 (perform_deeds deeds s).1
unfolding perform_deeds
perform_deeds-IsServed [] s = same-IsServed s
perform_deeds-IsServed (a ∷ deeds) s =
    IsServed-trans (perform_deed-IsServed a s) (perform_deeds-IsServed deeds (perform_deed a s).1)

-- Whatever bytes a client session is fed, whatever it sends and whenever it is closed, the events it
-- pushes and the calls of `close` form a course of the protocol, from its state to the state it comes to.
pub perform_deeds-ClientCourse :
    (deeds : List Deed) (s : ClientSession)
    → ClientCourse s.state (perform_deeds deeds s).0 (perform_deeds deeds s).1.state
perform_deeds-ClientCourse deeds s = (perform_deeds-IsServed deeds s).course

-- Whatever happens to a new client session, when it publishes or asks to, its stream id is a u32 and not
-- 0, the id of the connection, with which `close` would not unpublish.
pub perform_deeds-HasId :
    (config : ClientConfig) (deeds : List Deed)
    → HasId (perform_deeds deeds (new_client_session config)).1
unfolding HasId new_client_session command
perform_deeds-HasId config deeds =
    (perform_deeds-IsServed deeds (new_client_session config)).has_id tt

-- How often a session reports that the server has accepted the stream.
pub starts_in : List Signal → ℕ
starts_in [] = 0
starts_in (reports ClientEvent.publishing ∷ ls) = suc (starts_in ls)
starts_in (reports (ClientEvent.error code desc) ∷ ls) = starts_in ls
starts_in (closes ∷ ls) = starts_in ls

abbrev starts_left : ClientState → ℕ
starts_left connecting = 1
starts_left creating_stream = 1
starts_left publish_pending = 1
starts_left publishing = 0
starts_left ClientState.failed = 0
starts_left closed = 0

ClientCourse-starts :
    {s t : ClientState} {ls : List Signal} → ClientCourse s ls t → starts_in ls ≤ starts_left s
unfolding starts_in
ClientCourse-starts rests = omega arith
ClientCourse-starts (asks p) = ClientCourse-starts p
ClientCourse-starts (names p) = ClientCourse-starts p
ClientCourse-starts (starts p) = omega (arith, ClientCourse-starts p)
ClientCourse-starts (fails s code desc p) = omega (arith, ClientCourse-starts p)
ClientCourse-starts (shuts s p) = omega (arith, ClientCourse-starts p)
ClientCourse-starts (has_failed p) = omega (arith, ClientCourse-starts p)

close_in-starts_left :
    (t : ClientState) (s : ClientSession) → s.state ≡ t → starts_left (close_in t s).state ≡ 0
close_in-starts_left ClientState.failed s e = rw (e) refl
close_in-starts_left closed s e = rw (e) refl
close_in-starts_left connecting s e = refl
close_in-starts_left creating_stream s e = refl
close_in-starts_left publish_pending s e = refl
close_in-starts_left publishing s e = refl

close-starts_left : (s : ClientSession) → starts_left (close s).state ≡ 0
unfolding close
close-starts_left s = close_in-starts_left s.state s refl

-- Whatever is done with a new client session, it reports at most once that the stream was accepted, and
-- once it is closed it never does again.
pub perform_deeds-starts :
    (config : ClientConfig) (before after : List Deed)
    → let (signals, s) = perform_deeds before (new_client_session config) in
      (starts_in signals ≤ 1) × (starts_in (perform_deeds after (close s)).0 ≡ 0)
unfolding new_client_session command
perform_deeds-starts config before after =
    let s = (perform_deeds before (new_client_session config)).1 in
    (
      ClientCourse-starts (perform_deeds-ClientCourse before (new_client_session config)),
      omega (
        arith,
        ClientCourse-starts (perform_deeds-ClientCourse after (close s)),
        close-starts_left s,
      ),
    )
