-- ===== src/Engine/System/Reachable.antt =====
-- crates/engine/src/lib.rs: the invariant over all sequences of calls.
use stream_delay.Base.{ℕ}
use stream_delay.Flv.{Bytes}
use stream_delay.Engine.{EngineConfig, Engine}
use stream_delay.Engine.Sound.{IsSound}
use stream_delay.Engine.Sound.Dropped.{
  output_reset-IsSound, discard-IsSound, restart_after_end-IsSound,
}
use stream_delay.Engine.Sound.Received.{
  new-IsSound, ingest_start-IsSound, ingest_end-IsSound, ingest_metadata-IsSound, ingest-IsSound,
}
use stream_delay.Engine.Sound.Living.{
  output_connected-IsSound, output_disconnected-IsSound, unsend-IsSound, end_after-IsSound,
  cancel_end-IsSound, set_keep_history-IsSound, set_restore_after_reconnect-IsSound,
}
use stream_delay.Engine.Sound.Commanded.{command-IsSound, dump_after-IsSound}
use stream_delay.Engine.Sound.Polled.{poll_progress-IsSound}
use stream_delay.Engine.System.{
  Step, starts, ends, describes, receives, connects, disconnects, unsends, resets, discards,
  marks_end, unmarks_end, restarts, keeps_history, restores, commands, dumps_after, polls, Reach,
  fresh, next, MarksReceived, AllMarksReceived,
}

module _ (fingerprint : Bytes → ℕ) where
  Step-IsSound :
      {g g' : Engine} (st : Step fingerprint g g')
      → MarksReceived fingerprint st
      → IsSound g
      → IsSound g'
  Step-IsSound {g} starts m s = ingest_start-IsSound g s
  Step-IsSound {g} ends m s = ingest_end-IsSound g s
  Step-IsSound {g} (describes p) m s = ingest_metadata-IsSound p g s
  Step-IsSound {g} (receives now k ts p) m s = ingest-IsSound now k ts p g s
  Step-IsSound {g} (connects now) m s = output_connected-IsSound now g s
  Step-IsSound {g} (disconnects w) m s = output_disconnected-IsSound w g s
  Step-IsSound {g} (unsends t) m s = unsend-IsSound t g s
  Step-IsSound {g} resets m s = output_reset-IsSound g s
  Step-IsSound {g} discards m s = discard-IsSound g s
  Step-IsSound {g} (marks_end n) h s = end_after-IsSound n g h s
  Step-IsSound {g} unmarks_end m s = cancel_end-IsSound g s
  Step-IsSound {g} restarts m s = restart_after_end-IsSound g s
  Step-IsSound {g} (keeps_history k) m s = set_keep_history-IsSound k g s
  Step-IsSound {g} (restores r) m s = set_restore_after_reconnect-IsSound r g s
  Step-IsSound {g} (commands now c) m s = command-IsSound now c g s
  Step-IsSound {g} (dumps_after now t mode c) m s = dump_after-IsSound now t mode c g s
  Step-IsSound {g} (polls n now most) m s = poll_progress-IsSound fingerprint n now most g s

  -- Whatever calls are made of a new engine, in any order, as long as each end mark that is set is the
  -- number of something received: after every call, and every round of a poll, the ring holds
  -- consecutive sequence numbers up to the next one, `syncs` indexes exactly its sync points, `bytes` and
  -- `session_bytes` are what the entries and the sessions count, the cursor and the end mark lie
  -- within what was received, and the target delay is at most the maximum.
  pub Reach-IsSound :
      {config : EngineConfig} {g : Engine} (r : Reach fingerprint config g)
      → AllMarksReceived fingerprint r
      → IsSound g
  Reach-IsSound {config} fresh m = new-IsSound config
  Reach-IsSound (next r st) (ms, m) = Step-IsSound st m (Reach-IsSound r ms)
