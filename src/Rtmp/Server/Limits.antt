-- ===== src/Rtmp/Server/Limits.antt =====
-- crates/rtmp/src/session/server.rs: the events of a session before the application has accepted.
use stream_delay.Base.{Bool, true, false, ◌||◌, List, [], ◌∷◌, ◌++◌, ◌≡◌, refl}
use stream_delay.Rtmp.Server.{
  ServerConfig, ServerEvent, State, await_connect, connected, publish_pending, publishing, closed,
  ServerSession, new_server_session, reject_publish,
}
use stream_delay.Rtmp.Server.Feed.{feed}
use stream_delay.Rtmp.Server.Follows.{perform_all-Course}
use stream_delay.Rtmp.Server.Protocol.{
  Label, tells, accepts, rejects, Course, stays, connects, requests, begins, plays, describes,
  carries, gives_up, finishes, ignores_await, ignores_connected, ignores_publishing, ignores_closed,
  turns_away, Act, receives, accept, reject, told, perform, perform_all,
}

-- The states before the application has answered.
abbrev pub is_open : State → Bool
is_open await_connect = true
is_open connected = true
is_open publish_pending = true
is_open publishing = false
is_open closed = false

abbrev pub has_accept : List Label → Bool
has_accept [] = false
has_accept (accepts ∷ ls) = true
has_accept (rejects ∷ ls) = has_accept ls
has_accept (tells e ∷ ls) = has_accept ls

pub told-accept : (es : List ServerEvent) → has_accept (told es) ≡ false
told-accept [] = refl
told-accept (e ∷ es) = told-accept es

pub Course-is_open :
    {s t : State} {ls : List Label}
    → Course s ls t
    → has_accept ls ≡ false
    → is_open t ≡ true
    → is_open s ≡ true
Course-is_open stays h k = k
Course-is_open (connects app url props p) h k = refl
Course-is_open (requests app key p) h k = refl
Course-is_open (begins p) h k = refl
Course-is_open (plays kind ts payload p) h k = Course-is_open p h k
Course-is_open (describes ts payload p) h k = Course-is_open p h k
Course-is_open (carries ts payload p) h k = Course-is_open p h k
Course-is_open (gives_up p) h k = refl
Course-is_open (finishes p) h k = Course-is_open p h k
Course-is_open (ignores_await p) h k = refl
Course-is_open (ignores_connected p) h k = refl
Course-is_open (ignores_publishing p) h k = absurd (cc)
Course-is_open (ignores_closed p) h k = absurd (cc)
Course-is_open (turns_away s p) h k = absurd (not_closed (Course-is_open p h k))
  where
    not_closed : is_open closed ≡ true → ⊥
    not_closed h = cc

-- The events that carry what a publisher sends.
abbrev is_content : ServerEvent → Bool
is_content (ServerEvent.connect app url props) = false
is_content (ServerEvent.publish_request app key) = false
is_content (ServerEvent.media kind ts payload) = true
is_content (ServerEvent.metadata ts payload) = true
is_content (ServerEvent.other_data ts payload) = true
is_content ServerEvent.unpublish = false

abbrev pub has_content : List Label → Bool
has_content [] = false
has_content (tells e ∷ ls) = is_content e || has_content ls
has_content (accepts ∷ ls) = has_content ls
has_content (rejects ∷ ls) = has_content ls

abbrev is_live : State → Bool
is_live publishing = true
is_live await_connect = false
is_live connected = false
is_live publish_pending = false
is_live closed = false

Course-content :
    {s t : State} {ls : List Label}
    → Course s ls t
    → is_live s ≡ false
    → has_accept ls ≡ false
    → has_content ls ≡ false
Course-content stays h k = refl
Course-content (connects app url props p) h k = Course-content p refl k
Course-content (requests app key p) h k = Course-content p refl k
Course-content (begins p) h k = absurd (cc)
Course-content (plays kind ts payload p) h k = absurd (cc)
Course-content (describes ts payload p) h k = absurd (cc)
Course-content (carries ts payload p) h k = absurd (cc)
Course-content (gives_up p) h k = Course-content p refl k
Course-content (finishes p) h k = absurd (cc)
Course-content (ignores_await p) h k = absurd (cc)
Course-content (ignores_connected p) h k = absurd (cc)
Course-content (ignores_publishing p) h k = absurd (cc)
Course-content (ignores_closed p) h k = absurd (cc)
Course-content (turns_away s p) h k = Course-content p refl k

-- The acts that accept.
abbrev is_accept : Act → Bool
is_accept (receives b) = false
is_accept accept = true
is_accept (reject code description) = false

abbrev pub accepts_in : List Act → Bool
accepts_in [] = false
accepts_in (a ∷ acts) = is_accept a || accepts_in acts

has_accept-append :
    (ls ls' : List Label)
    → has_accept ls ≡ false
    → has_accept ls' ≡ false
    → has_accept (ls ++ ls') ≡ false
has_accept-append [] ls' h k = k
has_accept-append (tells e ∷ ls) ls' h k = has_accept-append ls ls' h k
has_accept-append (accepts ∷ ls) ls' h k = absurd (cc)
has_accept-append (rejects ∷ ls) ls' h k = has_accept-append ls ls' h k

perform_all-accept :
    (acts : List Act) (s : ServerSession)
    → accepts_in acts ≡ false
    → has_accept (perform_all acts s).0 ≡ false
unfolding perform_all perform
perform_all-accept [] s h = refl
perform_all-accept (receives b ∷ acts) s h =
    has_accept-append (told (feed b s).2) _ (told-accept (feed b s).2)
      (perform_all-accept acts (feed b s).1 h)
perform_all-accept (accept ∷ acts) s h = absurd (cc)
perform_all-accept (reject code description ∷ acts) s h =
    perform_all-accept acts (reject_publish code description s) h

-- A new session whose application does not accept pushes no media, no metadata and no other data,
-- whatever bytes it is fed and however often it rejects.
pub perform_all-content :
    (config : ServerConfig) (acts : List Act)
    → accepts_in acts ≡ false
    → has_content (perform_all acts (new_server_session config)).0 ≡ false
unfolding new_server_session
perform_all-content config acts h =
    Course-content (perform_all-Course acts (new_server_session config)) refl
      (perform_all-accept acts (new_server_session config) h)
