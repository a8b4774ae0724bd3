-- ===== src/Engine/System.antt =====
-- The engine as its caller (crates/relay) sees it: any sequence of its operations, with any times and
-- messages.
pub mod Reachable
pub mod Timed
use stream_delay.Base.{ℕ, Bool, ◌<◌, ◌≡◌, Option, some, List}
use stream_delay.Flv.{Bytes}
use stream_delay.Engine.{Time, Kind, DelayMode, Command, OutMsg, EngineConfig, Engine, new}
use stream_delay.Engine.Ingest.{ingest_start, ingest_end, ingest_metadata, ingest}
use stream_delay.Engine.Lifecycle.{
  output_connected, output_disconnected, unsend, end_after, cancel_end, set_keep_history,
  set_restore_after_reconnect,
}
use stream_delay.Engine.Drop.{output_reset, discard, restart_after_end}
use stream_delay.Engine.Commands.{command, dump_after}
use stream_delay.Engine.Poll.Progress.{poll_progress}

module _ (fingerprint : Bytes → ℕ) where
  -- One call. A poll is seen after each of its rounds.
  pub data Step (g : Engine) : Engine → Type 0 where
    starts : Step g (ingest_start g).0
    ends : Step g (ingest_end g)
    describes : (payload : Bytes) → Step g (ingest_metadata payload g)
    receives :
        (now : Time) (kind : Kind) (ts : ℕ) (payload : Bytes)
        → Step g (ingest now kind ts payload g)
    connects : (now : Time) → Step g (output_connected now g)
    disconnects : (last_written : Option ℕ) → Step g (output_disconnected last_written g)
    unsends : (taken : Option ℕ) → Step g (unsend taken g)
    resets : Step g (output_reset g)
    discards : Step g (discard g)
    marks_end : (seq : ℕ) → Step g (end_after seq g)
    unmarks_end : Step g (cancel_end g)
    restarts : Step g (restart_after_end g)
    keeps_history : (keep : Bool) → Step g (set_keep_history keep g)
    restores : (restore : Bool) → Step g (set_restore_after_reconnect restore g)
    commands : (now : Time) (c : Command) → Step g (command now c g).0
    dumps_after :
        (now : Time) (taken : Option ℕ) (mode : DelayMode) (cover : Bool)
        → Step g (dump_after now taken mode cover g).0
    polls : (n now most : ℕ) → Step g (poll_progress fingerprint n now most g).0

  -- What can come of a new engine.
  pub data Reach (config : EngineConfig) : Engine → Type 0 where
    fresh : Reach config (new config)
    next : {g g' : Engine} → Reach config g → Step g g' → Reach config g'

  -- The marks of the end that were set were numbers of what had been received, as `last_seq` gives them.
  abbrev pub MarksReceived : {g g' : Engine} → Step g g' → Type 0
  MarksReceived {g} (marks_end seq) = seq < g.buffer.next_seq
  MarksReceived _ = Unit

  abbrev pub AllMarksReceived : {config : EngineConfig} {g : Engine} → Reach config g → Type 0
  AllMarksReceived fresh = Unit
  AllMarksReceived (next r s) = AllMarksReceived r × MarksReceived s
