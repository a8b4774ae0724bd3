-- ===== src/Rtmp/Server/Guard.antt =====
-- crates/rtmp/src/session/server.rs, `feed`: the messages that a session handles before the application
-- has accepted.
use stream_delay.Base.{
  ℕ, zero, suc, Bool, true, Bool-cases, inl, inr, not, ◌||◌, leb, List, [], ◌∷◌, length, all, ◌≡◌,
  refl, arith,
}
use stream_delay.Flv.{Bytes}
use stream_delay.Rtmp.Chunk.{ChunkDecoder, Message}
use stream_delay.Rtmp.Chunk.Bounded.{IsBounded, next_message-IsShort}
use stream_delay.Rtmp.Chunk.Decode.{Received, stuck, waiting, failed, received, next_message}
use stream_delay.Rtmp.Link.{max_pre_publish_message}
use stream_delay.Rtmp.Server.{
  ServerConfig, State, await_connect, connected, publish_pending, publishing, closed, ServerSession,
  new_server_session, limited, say, accept_publish, accept_in, reject_publish,
}
use stream_delay.Rtmp.Server.Commands.{Done, fine, endless}
use stream_delay.Rtmp.Server.Feed.{feed, handle, arrived, with_decoder}
use stream_delay.Rtmp.Server.Follows.{feed-IsFed, arrived-limits}
use stream_delay.Rtmp.Server.Kept.{IsLimitedAs, AfterRead, next_message-AfterRead}
use stream_delay.Rtmp.Server.Limits.{is_open, told-accept, Course-is_open}
use stream_delay.Rtmp.Server.Protocol.{Act, receives, accept, reject, perform, perform_all}
use stream_delay.Rtmp.Server.Turns.{handle-IsTurn}

-- While the application has not answered, the decoder's limits and what it has in progress are at most
-- 64 KiB.
IsGuarded : ServerSession → Type 0
IsGuarded s = is_open s.state ≡ true → IsBounded max_pre_publish_message s.link.decoder

feed-IsGuarded : (b : Bytes) (s : ServerSession) → IsGuarded s → IsGuarded (feed b s).1
unfolding IsGuarded
feed-IsGuarded b s h k =
    let fed = feed-IsFed b s in
    fed.limits.bounded _ (h (Course-is_open fed.path (told-accept (feed b s).2) k))

accept_in-IsGuarded : (t : State) (s : ServerSession) → IsGuarded s → IsGuarded (accept_in t s)
unfolding IsGuarded say
accept_in-IsGuarded await_connect s h = h
accept_in-IsGuarded connected s h = h
accept_in-IsGuarded publish_pending s h = λ k. absurd (cc)
accept_in-IsGuarded publishing s h = h
accept_in-IsGuarded closed s h = h

perform-IsGuarded : (a : Act) (s : ServerSession) → IsGuarded s → IsGuarded (perform a s).1
unfolding IsGuarded perform accept_publish reject_publish say
perform-IsGuarded (receives b) s h = feed-IsGuarded b s h
perform-IsGuarded accept s h = accept_in-IsGuarded s.state s h
perform-IsGuarded (reject code description) s h = λ k. absurd (cc)

new_server_session-IsGuarded : (c : ServerConfig) → IsGuarded (new_server_session c)
unfolding IsGuarded new_server_session limited
new_server_session-IsGuarded c k = record { media = omega arith; other = omega arith; small = refl }

all-IsGuarded :
    (acts : List Act) (s : ServerSession) → IsGuarded s → IsGuarded (perform_all acts s).1
unfolding perform_all
all-IsGuarded [] s h = h
all-IsGuarded (a ∷ acts) s h = all-IsGuarded acts (perform a s).1 (perform-IsGuarded a s h)

-- An error ends the loop.
abbrev when_fine : Done → List (State × Message) → List (State × Message)
when_fine fine ms = ms
when_fine (Done.failed e) ms = []
when_fine endless ms = []

-- The messages that the loop of `feed` hands to `handle`, each with the state it finds.
unfoldable pub handled : ℕ → ServerSession → List (State × Message)
handled zero s = []
handled (suc fuel) s = elim (next_message s.link.decoder) [
  | received m d ↦
      let (done, s', es) = handle m (with_decoder d s) in
      let later = handled fuel s' in (s.state, m) ∷ elim done [ fine ↦ later | _ ↦ [] ]
  | _ ↦ []
]

-- A message that comes before the answer is at most 64 KiB long.
abbrev pub is_allowed : State × Message → Bool
is_allowed (t, m) = not (is_open t) || leb (length m.payload) max_pre_publish_message

all-when_fine :
    (done : Done) (ms : List (State × Message))
    → all is_allowed ms ≡ true
    → all is_allowed (when_fine done ms) ≡ true
all-when_fine fine ms h = h
all-when_fine (Done.failed e) ms h = refl
all-when_fine endless ms h = refl

handle-IsGuarded : (m : Message) (s : ServerSession) → IsGuarded s → IsGuarded (handle m s).1
unfolding IsGuarded
handle-IsGuarded m s h k =
    let turn = handle-IsTurn m s in
    turn.kept.limits.bounded _ (h (Course-is_open turn.path (told-accept (handle m s).2) k))

with_decoder-IsGuarded :
    (d : ChunkDecoder) (s : ServerSession)
    → IsLimitedAs s.link.decoder d
    → IsGuarded s
    → IsGuarded (with_decoder d s)
unfolding IsGuarded
with_decoder-IsGuarded d s l h k = l.bounded _ (h k)

next-is_allowed :
    (s : ServerSession) {m : Message} {d : ChunkDecoder}
    → next_message s.link.decoder ≡ received m d
    → IsGuarded s
    → is_allowed (s.state, m) ≡ true
unfolding IsGuarded
next-is_allowed s h g = elim (Bool-cases (is_open s.state)) [
  | inl p ↦ let short = next_message-IsShort _ s.link.decoder h (g p) in ground arith
  | inr p ↦ ground arith
]

handled-is_allowed :
    (fuel : ℕ) (s : ServerSession) → IsGuarded s → all is_allowed (handled fuel s) ≡ true
unfolding handled
handled-is_allowed zero s g = refl
handled-is_allowed (suc fuel) s g =
    after (handled-is_allowed fuel) (next_message s.link.decoder) refl
      (next_message-AfterRead s.link.decoder)
  where
    after :
        ((s' : ServerSession) → IsGuarded s' → all is_allowed (handled fuel s') ≡ true)
        → (r : Received) → next_message s.link.decoder ≡ r
        → AfterRead s.link.decoder r
        → all is_allowed (handled (suc fuel) s) ≡ true
    after later stuck e k = rw (e, handled) refl
    after later (waiting d) e k = rw (e, handled) refl
    after later (failed x d) e k = rw (e, handled) refl
    after later (received m d) e k =
        let first = next-is_allowed s e g in
        let rest =
          later (handle m (with_decoder d s)).1
            (handle-IsGuarded m (with_decoder d s) (with_decoder-IsGuarded d s k.limits g)) in
        let more =
          all-when_fine (handle m (with_decoder d s)).0
            (handled fuel (handle m (with_decoder d s)).1) rest in
        rw (e, handled) (ground (arith, first, more))

-- Whatever a new session was fed, and whatever the application decided: of the messages that come with
-- the next bytes and are handled, those that find the session waiting for `connect`, for a request or for
-- the answer to it have a payload of at most 64 KiB, media or not.
pub handled-allowed :
    (config : ServerConfig) (acts : List Act) (bytes : Bytes)
    → let s = arrived bytes (perform_all acts (new_server_session config)).1 in
      all is_allowed (handled (suc (length s.link.decoder.buf)) s) ≡ true
unfolding IsGuarded
handled-allowed config acts bytes =
    let s = (perform_all acts (new_server_session config)).1 in
    let guarded =
      all-IsGuarded acts (new_server_session config) (new_server_session-IsGuarded config) in
    handled-is_allowed _ (arrived bytes s) (λ k. (arrived-limits bytes s).bounded _ (guarded k))
