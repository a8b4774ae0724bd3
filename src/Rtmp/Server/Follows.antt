-- ===== src/Rtmp/Server/Follows.antt =====
-- crates/rtmp/src/session/server.rs: the courses of a session, over all its calls.
use stream_delay.Base.{ℕ, zero, suc, List, [], ◌∷◌, ◌++◌, length, ◌≡◌, refl, arith, subst, sym}
use stream_delay.Flv.{Bytes}
use stream_delay.Rtmp.Chunk.Bounded.{IsBounded}
use stream_delay.Rtmp.Chunk.Decode.{Received, stuck, waiting, failed, received, next_message}
use stream_delay.Rtmp.Link.{Link, count_received}
use stream_delay.Rtmp.Server.{
  ServerEvent, State, await_connect, connected, publish_pending, publishing, closed, ServerSession,
  say, accept_publish, accept_in, reject_publish,
}
use stream_delay.Rtmp.Server.Commands.{Done, fine, Handling}
use stream_delay.Rtmp.Server.Feed.{handle, then_on, on_received, drain, feed, arrived, with_decoder}
use stream_delay.Rtmp.Server.Kept.{
  IsLimitedAs, IsLimitedAs-trans, same-IsLimitedAs, AfterRead, next_message-AfterRead,
}
use stream_delay.Rtmp.Server.Turns.{handle-IsTurn}
use stream_delay.Rtmp.Server.Protocol.{
  Label, accepts, Course, stays, connects, requests, begins, plays, describes, carries, gives_up,
  finishes, ignores_await, ignores_connected, ignores_publishing, ignores_closed, turns_away, Act,
  receives, accept, reject, told, perform, perform_all,
}

pub Course-append :
    {s t u : State} {ls ls' : List Label} → Course s ls t → Course t ls' u → Course s (ls ++ ls') u
Course-append stays q = q
Course-append (connects app url props p) q = connects app url props (Course-append p q)
Course-append (requests app key p) q = requests app key (Course-append p q)
Course-append (begins p) q = begins (Course-append p q)
Course-append (plays kind ts payload p) q = plays kind ts payload (Course-append p q)
Course-append (describes ts payload p) q = describes ts payload (Course-append p q)
Course-append (carries ts payload p) q = carries ts payload (Course-append p q)
Course-append (gives_up p) q = gives_up (Course-append p q)
Course-append (finishes p) q = finishes (Course-append p q)
Course-append (ignores_await p) q = ignores_await (Course-append p q)
Course-append (ignores_connected p) q = ignores_connected (Course-append p q)
Course-append (ignores_publishing p) q = ignores_publishing (Course-append p q)
Course-append (ignores_closed p) q = ignores_closed (Course-append p q)
Course-append (turns_away s p) q = turns_away s (Course-append p q)

told-append : (es fs : List ServerEvent) → told (es ++ fs) ≡ told es ++ told fs
told-append [] fs = refl
told-append (e ∷ es) fs = rw (told-append es fs) refl

-- What bytes make of a session: a course, and the same limits on messages.
pub record IsFed (s : ServerSession) (t : State) (x : Handling) : Type 0 where
  pub path : Course t (told x.2) x.1.state
  pub limits : IsLimitedAs s.link.decoder x.1.link.decoder

same-IsFed : (done : Done) (s : ServerSession) → IsFed s s.state (done, s, [])
same-IsFed done s = record { path = stays; limits = same-IsLimitedAs s.link.decoder }

read-IsFed :
    (done : Done) (s s' : ServerSession)
    → s'.state ≡ s.state
    → IsLimitedAs s.link.decoder s'.link.decoder
    → IsFed s s.state (done, s', [])
read-IsFed done s s' e l = record { path = rw (e) stays; limits = l }

then_on-IsFed :
    (more : ServerSession → Handling) (s : ServerSession) (t : State) (x : Handling)
    → ((s' : ServerSession) → IsFed s' s'.state (more s'))
    → IsFed s t x
    → IsFed s t (then_on more x)
unfolding then_on
then_on-IsFed more s t (fine, s', es) later h = record {
  path = rw (told-append es (more s').2) (Course-append h.path (later s').path);
  limits = IsLimitedAs-trans h.limits (later s').limits;
}
then_on-IsFed more s t (Done.failed e, s', es) later h = h
then_on-IsFed more s t (Done.endless, s', es) later h = h

on_received-IsFed :
    (more : ServerSession → Handling) (r : Received) (s : ServerSession)
    → ((s' : ServerSession) → IsFed s' s'.state (more s'))
    → AfterRead s.link.decoder r
    → IsFed s s.state (on_received more r s)
on_received-IsFed more stuck s later k = same-IsFed _ s
on_received-IsFed more (waiting d) s later k = read-IsFed _ s (with_decoder d s) refl k
on_received-IsFed more (failed e d) s later k = read-IsFed _ s (with_decoder d s) refl k
on_received-IsFed more (received m d) s later k =
    let turn = handle-IsTurn m (with_decoder d s) in
    then_on-IsFed more s s.state (handle m (with_decoder d s)) later
      (record { path = turn.path; limits = IsLimitedAs-trans k.limits turn.kept.limits })

drain-IsFed : (fuel : ℕ) (s : ServerSession) → IsFed s s.state (drain fuel s)
unfolding drain
drain-IsFed zero s = same-IsFed _ s
drain-IsFed (suc fuel) s =
    on_received-IsFed (drain fuel) (next_message s.link.decoder) s (drain-IsFed fuel)
      (next_message-AfterRead s.link.decoder)

count_received-decoder : (n : ℕ) (l : Link) → (count_received n l).decoder ≡ l.decoder
unfolding count_received
count_received-decoder n l = ground arith

pub arrived-limits :
    (b : Bytes) (s : ServerSession) → IsLimitedAs s.link.decoder (arrived b s).link.decoder
arrived-limits b s = record {
  bounded = λ n h.
      let kept = subst (IsBounded n) (sym (count_received-decoder (length b) s.link)) h in
      record { media = kept.media; other = kept.other; small = kept.small };
}

pub feed-IsFed : (b : Bytes) (s : ServerSession) → IsFed s s.state (feed b s)
unfolding feed
feed-IsFed b s =
    let fed = drain-IsFed (suc (length (arrived b s).link.decoder.buf)) (arrived b s) in
    record { path = fed.path; limits = IsLimitedAs-trans (arrived-limits b s) fed.limits }

accept_in-Course :
    (t : State) (s : ServerSession) → s.state ≡ t → Course t (accepts ∷ []) (accept_in t s).state
unfolding say
accept_in-Course await_connect s e = ignores_await (rw (e) stays)
accept_in-Course connected s e = ignores_connected (rw (e) stays)
accept_in-Course publish_pending s e = begins stays
accept_in-Course publishing s e = ignores_publishing (rw (e) stays)
accept_in-Course closed s e = ignores_closed (rw (e) stays)

pub perform-Course :
    (a : Act) (s : ServerSession) → Course s.state (perform a s).0 (perform a s).1.state
unfolding perform accept_publish reject_publish say
perform-Course (receives b) s = (feed-IsFed b s).path
perform-Course accept s = accept_in-Course s.state s refl
perform-Course (reject code description) s = turns_away s.state stays

-- Whatever bytes a session is fed and whatever the application decides, the events it pushes and the
-- decisions form a course of the protocol, from its state to the state it comes to: `connect` first and
-- once, one request to publish, media only between the acceptance and the end.
pub perform_all-Course :
    (acts : List Act) (s : ServerSession)
    → Course s.state (perform_all acts s).0 (perform_all acts s).1.state
unfolding perform_all
perform_all-Course [] s = stays
perform_all-Course (a ∷ acts) s =
    Course-append (perform-Course a s) (perform_all-Course acts (perform a s).1)
