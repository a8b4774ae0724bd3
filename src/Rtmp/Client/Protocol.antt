-- ===== src/Rtmp/Client/Protocol.antt =====
-- crates/rtmp/src/session/client.rs: a session as the program sees it, and the order it keeps to.
use stream_delay.Base.{ℕ, List, [], ◌∷◌, ◌++◌}
use stream_delay.Flv.{Bytes}
use stream_delay.Rtmp.Server.{MediaKind}
use stream_delay.Rtmp.Client.{
  ClientEvent, ClientState, connecting, creating_stream, publish_pending, failed, closed,
  ClientSession, close, send_media, send_data,
}
use stream_delay.Rtmp.Client.Replies.{ClientHandling}
use stream_delay.Rtmp.Client.Feed.{feed_client}

-- What passes between a session and the program.
pub data Signal : Type 0 where
  reports : ClientEvent → Signal
  closes : Signal

-- A course of the protocol: from a state, through signals, to a state. A stream is asked for and named
-- without a signal; failure can come in any state.
pub data ClientCourse : ClientState → List Signal → ClientState → Type 0 where
  rests : {t : ClientState} → ClientCourse t [] t
  asks :
      {ls : List Signal} {t : ClientState}
      → ClientCourse creating_stream ls t
      → ClientCourse connecting ls t
  names :
      {ls : List Signal} {t : ClientState}
      → ClientCourse publish_pending ls t
      → ClientCourse creating_stream ls t
  starts :
      {ls : List Signal} {t : ClientState}
      → ClientCourse ClientState.publishing ls t
      → ClientCourse publish_pending (reports ClientEvent.publishing ∷ ls) t
  fails :
      (s : ClientState) (code description : Bytes) {ls : List Signal} {t : ClientState}
      → ClientCourse failed ls t
      → ClientCourse s (reports (ClientEvent.error code description) ∷ ls) t
  shuts :
      (s : ClientState) {ls : List Signal} {t : ClientState}
      → ClientCourse closed ls t
      → ClientCourse s (closes ∷ ls) t
  has_failed :
      {ls : List Signal} {t : ClientState}
      → ClientCourse failed ls t
      → ClientCourse failed (closes ∷ ls) t

-- What the program does with a session.
pub data Deed : Type 0 where
  gives : Bytes → Deed
  sends_media : MediaKind → ℕ → Bytes → Deed
  sends_data : ℕ → Bytes → Deed
  ends : Deed

abbrev pub reported : List ClientEvent → List Signal
reported [] = []
reported (e ∷ es) = reports e ∷ reported es

abbrev pub signals_of : ClientHandling → List Signal × ClientSession
signals_of (t, s, es) = (reported es, s)

unfoldable pub perform_deed : Deed → ClientSession → List Signal × ClientSession
perform_deed (gives b) s = signals_of (feed_client b s)
perform_deed (sends_media kind ts payload) s = ([], send_media kind ts payload s)
perform_deed (sends_data ts payload) s = ([], send_data ts payload s)
perform_deed ends s = (closes ∷ [], close s)

abbrev pub after_signals : List Signal → List Signal × ClientSession → List Signal × ClientSession
after_signals ls (ls', s) = (ls ++ ls', s)

unfoldable pub perform_deeds : List Deed → ClientSession → List Signal × ClientSession
perform_deeds [] s = ([], s)
perform_deeds (a ∷ deeds) s =
    let (ls, s') = perform_deed a s in after_signals ls (perform_deeds deeds s')
