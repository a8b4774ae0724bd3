-- ===== src/Rtmp/Server/Protocol.antt =====
-- crates/rtmp/src/session/server.rs: a session as the application sees it, the events it is told and
-- the decisions it makes, and the order they can come in.
use stream_delay.Base.{ℕ, Option, List, [], ◌∷◌, ◌++◌}
use stream_delay.Flv.{Bytes}
use stream_delay.Rtmp.Amf0.{Props}
use stream_delay.Rtmp.Server.{
  MediaKind, ServerEvent, State, await_connect, connected, publish_pending, publishing, closed,
  ServerSession, accept_publish, reject_publish,
}
use stream_delay.Rtmp.Server.Commands.{Handling}
use stream_delay.Rtmp.Server.Feed.{feed}

-- What passes between a session and the application.
pub data Label : Type 0 where
  tells : ServerEvent → Label
  accepts rejects : Label

-- A course of the protocol: from a state, through labels, to a state. Acceptance counts only where a request
-- waits for it.
pub data Course : State → List Label → State → Type 0 where
  stays : {t : State} → Course t [] t
  connects :
      (app : Bytes) (url : Option Bytes) (props : Props) {ls : List Label} {t : State}
      → Course connected ls t
      → Course await_connect (tells (ServerEvent.connect app url props) ∷ ls) t
  requests :
      (app key : Bytes) {ls : List Label} {t : State}
      → Course publish_pending ls t
      → Course connected (tells (ServerEvent.publish_request app key) ∷ ls) t
  begins :
      {ls : List Label} {t : State}
      → Course publishing ls t
      → Course publish_pending (accepts ∷ ls) t
  plays :
      (kind : MediaKind) (ts : ℕ) (payload : Bytes) {ls : List Label} {t : State}
      → Course publishing ls t
      → Course publishing (tells (ServerEvent.media kind ts payload) ∷ ls) t
  describes :
      (ts : ℕ) (payload : Bytes) {ls : List Label} {t : State}
      → Course publishing ls t
      → Course publishing (tells (ServerEvent.metadata ts payload) ∷ ls) t
  carries :
      (ts : ℕ) (payload : Bytes) {ls : List Label} {t : State}
      → Course publishing ls t
      → Course publishing (tells (ServerEvent.other_data ts payload) ∷ ls) t
  gives_up :
      {ls : List Label} {t : State}
      → Course closed ls t
      → Course publish_pending (tells ServerEvent.unpublish ∷ ls) t
  finishes :
      {ls : List Label} {t : State}
      → Course closed ls t
      → Course publishing (tells ServerEvent.unpublish ∷ ls) t
  ignores_await :
      {ls : List Label} {t : State}
      → Course await_connect ls t
      → Course await_connect (accepts ∷ ls) t
  ignores_connected :
      {ls : List Label} {t : State} → Course connected ls t → Course connected (accepts ∷ ls) t
  ignores_publishing :
      {ls : List Label} {t : State} → Course publishing ls t → Course publishing (accepts ∷ ls) t
  ignores_closed :
      {ls : List Label} {t : State} → Course closed ls t → Course closed (accepts ∷ ls) t
  turns_away :
      (s : State) {ls : List Label} {t : State} → Course closed ls t → Course s (rejects ∷ ls) t

-- What the program does with a session: it feeds bytes, or tells its decision.
pub data Act : Type 0 where
  receives : Bytes → Act
  accept : Act
  reject : Bytes → Bytes → Act

abbrev pub told : List ServerEvent → List Label
told [] = []
told (e ∷ es) = tells e ∷ told es

abbrev pub labels_of : Handling → List Label × ServerSession
labels_of (t, s, es) = (told es, s)

unfoldable pub perform : Act → ServerSession → List Label × ServerSession
perform (receives b) s = labels_of (feed b s)
perform accept s = (accepts ∷ [], accept_publish s)
perform (reject code description) s = (rejects ∷ [], reject_publish code description s)

abbrev pub led_by : List Label → List Label × ServerSession → List Label × ServerSession
led_by ls (ls', s) = (ls ++ ls', s)

unfoldable pub perform_all : List Act → ServerSession → List Label × ServerSession
perform_all [] s = ([], s)
perform_all (a ∷ acts) s = let (ls, s') = perform a s in led_by ls (perform_all acts s')
