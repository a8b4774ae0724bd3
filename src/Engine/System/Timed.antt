-- ===== src/Engine/System/Timed.antt =====
-- crates/engine/src/lib.rs: timestamps over all sequences of calls.
use stream_delay.Base.{ℕ, Bool, Option, arith}
use stream_delay.Flv.{Bytes}
use stream_delay.Engine.{Time, Kind, DelayMode, Command, EngineConfig, Engine, new}
use stream_delay.Engine.Sessions.{count_sessions}
use stream_delay.Engine.Splice.{set_pending}
use stream_delay.Engine.Change.{on_out}
use stream_delay.Engine.Change.Calm.{
  Calm, splice_to-Calm, run_pending-Calm, back_under_max-Calm, back_to_target-Calm,
}
use stream_delay.Engine.Drop.{
  emptied, drop_buffer, output_reset, reset_output, discard, drop_entries, restart_after_end,
}
use stream_delay.Engine.Ingest.{
  drop_idle_session, fresh_start, ingest_start, ingest_end, ingest_metadata, appended, append,
  ingest,
}
use stream_delay.Engine.Lifecycle.{
  connected, resume_at, output_connected, output_disconnected, unsend, nothing_left, end_after,
  cancel_end, set_keep_history, set_restore_after_reconnect,
}
use stream_delay.Engine.Dump.{
  cut_unaired, split_session, replay_at, dump_all, dump_running, dump, retarget,
}
use stream_delay.Engine.Commands.{
  rewind_to, rewind, finish, reset_flags, slate_shown, cancel, go_live, mask_change, change_delay,
  set_delay_to, set_delay, dump_command, command, dump_after,
}
use stream_delay.Engine.Sound.Dropped.{forget_headers-OnlySessions}
use stream_delay.Engine.Emit.Order.{Ascends, IsTimed}
use stream_delay.Engine.Poll.{poll_budget}
use stream_delay.Engine.Poll.Progress.{poll_progress, IsWhere, poll_budget-IsWhere}
use stream_delay.Engine.Poll.Order.{evict-Calm, Calm-AllBy, poll_progress-Ascends}
use stream_delay.Engine.System.{
  Step, starts, ends, describes, receives, connects, disconnects, unsends, resets, discards,
  marks_end, unmarks_end, restarts, keeps_history, restores, commands, dumps_after, polls, Reach,
  fresh, next,
}

drop_buffer-Calm : (g : Engine) → Calm g (drop_buffer g)
unfolding drop_buffer emptied count_sessions
drop_buffer-Calm g = ground (arith, forget_headers-OnlySessions (emptied g))

ingest_start-Calm : (g : Engine) → Calm g (ingest_start g).0
unfolding ingest_start drop_idle_session fresh_start count_sessions
ingest_start-Calm g = grind (arith, drop_buffer-Calm)

ingest-Calm :
    (now : Time) (kind : Kind) (ts : ℕ) (payload : Bytes) (g : Engine)
    → Calm g (ingest now kind ts payload g)
unfolding ingest append appended count_sessions
ingest-Calm now kind ts payload g = grind (arith, evict-Calm)

output_reset-Calm : (g : Engine) → Calm g (output_reset g)
unfolding output_reset reset_output
output_reset-Calm g = ground arith

discard-Calm : (g : Engine) → Calm g (discard g)
unfolding discard
discard-Calm g = ground (arith, drop_buffer-Calm g, output_reset-Calm (drop_buffer g))

restart_after_end-Calm : (g : Engine) → Calm g (restart_after_end g)
unfolding restart_after_end drop_entries output_reset reset_output
restart_after_end-Calm g = grind (arith, forget_headers-OnlySessions)

resume_at-Calm : (now : Time) (k : ℕ) (g : Engine) → Calm g (resume_at now k g)
unfolding resume_at
resume_at-Calm now k g = grind (arith, splice_to-Calm, back_under_max-Calm, back_to_target-Calm)

connected-IsTimed : (now : Time) (g : Engine) → IsTimed (connected now g.out)
unfolding connected
connected-IsTimed now g = record {
  audio_le = omega arith;
  video_le = omega arith;
  script_le = omega arith;
}

output_connected-Calm :
    (now : Time) (g : Engine) → Calm (on_out (connected now) g) (output_connected now g)
unfolding output_connected
output_connected-Calm now g = grind (arith, resume_at-Calm)

-- A connection starts its timestamps anew.
output_connected-IsTimed : (now : Time) (g : Engine) → IsTimed (output_connected now g).out
output_connected-IsTimed now g =
    Calm-AllBy (on_out (connected now) g) (output_connected now g) (output_connected-Calm now g)
      (connected-IsTimed now g)

replay_at-Calm : (now : Time) (delay k : ℕ) (g : Engine) → Calm g (replay_at now delay k g)
unfolding replay_at cut_unaired split_session count_sessions set_pending
replay_at-Calm now delay k g = grind (arith, splice_to-Calm)

dump_all-Calm :
    (now : Time) (delay : ℕ) (cover : Bool) (g : Engine) → Calm g (dump_all now delay cover g).0
unfolding dump_all set_pending
dump_all-Calm now delay cover g = grind (arith, drop_buffer-Calm)

dump-Calm :
    (now : Time) (mode : DelayMode) (cover : Bool) (g : Engine) → Calm g (dump now mode cover g).0
unfolding dump dump_running retarget set_pending
dump-Calm now mode cover g = grind (arith, drop_buffer-Calm, replay_at-Calm, dump_all-Calm)

rewind-Calm : (now d : ℕ) (g : Engine) → Calm g (rewind now d g)
unfolding rewind rewind_to set_pending
rewind-Calm now d g = grind (arith, splice_to-Calm)

change_delay-Calm : (now d : ℕ) (masked : Bool) (g : Engine) → Calm g (change_delay now d masked g)
unfolding change_delay go_live mask_change set_pending reset_flags
change_delay-Calm now d masked g = grind (arith, rewind-Calm)

finish-Calm : (now : Time) (g : Engine) → Calm g (finish now g).0
unfolding finish
finish-Calm now g = run_pending-Calm now g

set_delay-Calm : (now n : ℕ) (mode : DelayMode) (g : Engine) → Calm g (set_delay now n mode g).0
unfolding set_delay set_delay_to set_pending retarget
set_delay-Calm now n mode g = grind (arith, finish-Calm, change_delay-Calm)

command-Calm : (now : Time) (c : Command) (g : Engine) → Calm g (command now c g).0
unfolding command dump_command slate_shown cancel go_live set_pending reset_flags
command-Calm now c g = grind (arith, finish-Calm, dump-Calm, set_delay-Calm, back_under_max-Calm)

dump_after-Calm :
    (now : Time) (taken : Option ℕ) (mode : DelayMode) (cover : Bool) (g : Engine)
    → Calm g (dump_after now taken mode cover g).0
unfolding dump_after unsend nothing_left
dump_after-Calm now taken mode cover g = grind (arith, command-Calm)

new-IsTimed : (config : EngineConfig) → IsTimed (new config).out
new-IsTimed config = record {
  audio_le = omega arith;
  video_le = omega arith;
  script_le = omega arith;
}

unsend-Calm : (taken : Option ℕ) (g : Engine) → Calm g (unsend taken g)
unfolding unsend
unsend-Calm taken g = ground arith

ingest_metadata-Calm : (payload : Bytes) (g : Engine) → Calm g (ingest_metadata payload g)
unfolding ingest_metadata count_sessions
ingest_metadata-Calm payload g = ground arith

module _ (fp : Bytes → ℕ) where
  Step-IsTimed : {g g' : Engine} → Step fp g g' → IsTimed g.out → IsTimed g'.out
  unfolding ingest_end output_disconnected end_after cancel_end set_keep_history
      set_restore_after_reconnect
  Step-IsTimed {g} starts h = Calm-AllBy g (ingest_start g).0 (ingest_start-Calm g) h
  Step-IsTimed {g} ends h = h
  Step-IsTimed {g} (describes p) h = Calm-AllBy g (ingest_metadata p g) (ingest_metadata-Calm p g) h
  Step-IsTimed {g} (receives now k ts p) h =
      Calm-AllBy g (ingest now k ts p g) (ingest-Calm now k ts p g) h
  Step-IsTimed {g} (connects now) h = output_connected-IsTimed now g
  Step-IsTimed {g} (disconnects w) h = h
  Step-IsTimed {g} (unsends t) h = Calm-AllBy g (unsend t g) (unsend-Calm t g) h
  Step-IsTimed {g} resets h = Calm-AllBy g (output_reset g) (output_reset-Calm g) h
  Step-IsTimed {g} discards h = Calm-AllBy g (discard g) (discard-Calm g) h
  Step-IsTimed {g} (marks_end n) h = h
  Step-IsTimed {g} unmarks_end h = h
  Step-IsTimed {g} restarts h = Calm-AllBy g (restart_after_end g) (restart_after_end-Calm g) h
  Step-IsTimed {g} (keeps_history k) h = h
  Step-IsTimed {g} (restores r) h = h
  Step-IsTimed {g} (commands now c) h = Calm-AllBy g (command now c g).0 (command-Calm now c g) h
  Step-IsTimed {g} (dumps_after now t m c) h =
      Calm-AllBy g (dump_after now t m c g).0 (dump_after-Calm now t m c g) h
  Step-IsTimed {g} (polls n now most) h = (poll_progress-Ascends fp n now most g h).1

  Reach-IsTimed : {config : EngineConfig} {g : Engine} → Reach fp config g → IsTimed g.out
  Reach-IsTimed {config} fresh = new-IsTimed config
  Reach-IsTimed (next r st) = Step-IsTimed st (Reach-IsTimed r)

  -- Whatever calls were made of a new engine, what a poll has sent after any number of rounds carries,
  -- before it wraps to 32 bits, timestamps that never go back within audio, video or data, from the last
  -- ones sent on the connection to those of the engine that the rounds lead to; and what a poll returns
  -- within that number of rounds is that engine and that output.
  pub Reach-Ascends :
      {config : EngineConfig} {g : Engine} (n now most : ℕ)
      → Reach fp config g
      → let (g', sent) = poll_progress fp n now most g in
        Ascends g.out.last_kind_ts sent g'.out.last_kind_ts
        × IsWhere (g', sent) (poll_budget fp n now most g)
  Reach-Ascends {g = g} n now most r = (
    (poll_progress-Ascends fp n now most g (Reach-IsTimed r)).0,
    poll_budget-IsWhere fp n now most g,
  )
