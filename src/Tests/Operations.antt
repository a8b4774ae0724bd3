-- ===== src/Tests/Operations.antt =====
-- Single operations at concrete inputs.
use stream_delay.Base.{
  ℕ, ◌≡◌, ◌≤◌, ◌<◌, ◌⊎◌, ◌/◌, ◌%◌, max, ◌==◌, refl, true, false, none, some, [], ◌∷◌, length, arith,
  if◌then◌else◌,
}
use stream_delay.Base.Int.{pos, ◌+ℤ◌, ◌≤ℤ◌}
use stream_delay.Flv.{Bytes}
use stream_delay.Flv.Hevc.{nal_type, cra, bla_w_lp, rewrite_header, rewrite_units, cra_to_bla}
use stream_delay.Flv.Hevc.Rewrite.{put_frame, rewrite_header_lem, cra_to_bla-put_frame}
use stream_delay.Rtmp.Ts.{new_unwrapper}
use stream_delay.Rtmp.Ts.Follows.{still, step, unwrap_all, unwrap_all-wrapped}
use stream_delay.Engine.{
  Kind, DelayMode, Pending, Command, Ack, EngineError, Entry, HeaderRec, Engine, default_config,
  new, new_output,
}
use stream_delay.Engine.Rolling.{entry, sync_at_or_before}
use stream_delay.Engine.Splice.{splice_to, out_time, set_pending, with_dump_delay}
use stream_delay.Engine.Splice.Times.{keyframe-after_sent}
use stream_delay.Engine.Change.{restart_point, run_pending, run_change, run_hold}
use stream_delay.Engine.Poll.{poll_budget}
use stream_delay.Engine.Poll.Held.{airs_nothing, poll_budget-held}
use stream_delay.Engine.Lifecycle.{is_holding}
use stream_delay.Engine.Evict.{front_group, group_old, evict, evict_groups, keep_from, over_ram}
use stream_delay.Engine.Evict.Limits.{evict-fits}
use stream_delay.Engine.Evict.Keeps.{TakesNote, evict-keeps}
use stream_delay.Engine.Dump.{dump, retarget}
use stream_delay.Engine.Dump.Discards.{entry-dump}
use stream_delay.Engine.Lifecycle.{output_connected}
use stream_delay.Engine.Lifecycle.Resume.{NotAhead, output_connected-NotAhead}
use stream_delay.Engine.Ingest.{keep_header}
use stream_delay.Engine.Ingest.Room.{Fits, keep_header-Fits}
use stream_delay.Engine.Emit.{emit_config}
use stream_delay.Engine.Emit.Once.{emit_config-once}
use stream_delay.Engine.Commands.{
  Reply, command, check_memory, set_delay, reset_flags, set_delay_to, change_delay, finish, ack,
}
use stream_delay.Engine.Commands.Replies.{command-refused, set_delay-accepted}

abbrev fp : Bytes → ℕ
fp b = length b

-- A keyframe with the number 0, and an engine that has it and is on air.
abbrev keyframe : Entry
keyframe = record {
  seq = 0;
  arrival = 1000;
  session = 1;
  kind = Kind.video;
  ts = 0;
  payload = 0x17 ∷ 1 ∷ 0 ∷ 0 ∷ 0 ∷ 9 ∷ [];
  sync = true;
  config = none;
  cts = pos 0;
  hevc_nal = none;
  nal_offset = none;
}

abbrev on_air : Engine
on_air = record (new default_config) {
  buffer = record { ring = keyframe ∷ []; syncs = 0 ∷ []; base_seq = 0; next_seq = 1; bytes = 158 };
  out = record new_output {
    connected = true;
    started = true;
    fresh = false;
    need_sync = false;
    last_out_ts = 40;
  };
}

evict-fits_example : over_ram (evict 50_000 on_air) ≡ false
evict-fits_example = evict-fits 50_000 on_air

restart_point-on_air : restart_point on_air ≡ some 0
unfolding restart_point sync_at_or_before
restart_point-on_air = refl

evict-keeps_example :
    ((evict 50_000 on_air).buffer.base_seq ≤ max 0 0) ⊎ TakesNote (evict 50_000 on_air)
evict-keeps_example = evict-keeps 50_000 on_air 0 restart_point-on_air

entry-dump_example : entry (dump 50_000 DelayMode.rewind true on_air).0.buffer 0 ≡ none
entry-dump_example = entry-dump 50_000 DelayMode.rewind true on_air 0 (omega arith)

output_connected-NotAhead_example : NotAhead on_air (output_connected 50_000 on_air)
output_connected-NotAhead_example = output_connected-NotAhead 50_000 on_air

too_long :
    (command 0 (Command.set_delay 200_000 DelayMode.rewind) on_air).1
    ≡ Reply.refused (EngineError.too_large 200_000 120_000)
unfolding command
too_long = refl

command-refused_example : (command 0 (Command.set_delay 200_000 DelayMode.rewind) on_air).0 ≡ on_air
command-refused_example =
    command-refused 0 (Command.set_delay 200_000 DelayMode.rewind) on_air
      (EngineError.too_large 200_000 120_000) too_long

-- Half a minute, asked for before the broadcast starts.
abbrev half_minute : Ack
half_minute = record {
  target_ms = 30_000;
  effective_ms = 30_000;
  pending = false;
  history_short = false;
  dump = none;
}

accepted :
    (command 0 (Command.set_delay 30_000 DelayMode.rewind) (new default_config)).1
    ≡ Reply.done half_minute
unfolding command check_memory set_delay with_dump_delay retarget reset_flags set_delay_to
    change_delay set_pending finish run_pending run_change ack
accepted = refl

set_delay-accepted_example : (30_000 ≤ 120_000) × (half_minute.target_ms ≡ 30_000)
set_delay-accepted_example =
    set_delay-accepted 0 30_000 DelayMode.rewind (new default_config) half_minute accepted

abbrev description : Bytes
description = 0x17 ∷ 0 ∷ 1 ∷ []

emit_config-once_example :
    emit_config fp Kind.video 0 description 5 none
      (emit_config fp Kind.video 0 description 0 (some 3) new_output).0
    ≡ ((emit_config fp Kind.video 0 description 0 (some 3) new_output).0, [])
emit_config-once_example = emit_config-once fp Kind.video 0 description 0 5 (some 3) none new_output

abbrev header : HeaderRec
header = record { seq = 0; kind = Kind.video; class = 0; payload = description }

keep_header-Fits_example : Fits 1000 (keep_header 1000 header [])
keep_header-Fits_example = keep_header-Fits 1000 header [] (omega arith, omega arith)

keyframe-on_air : entry on_air.buffer 0 ≡ some keyframe
unfolding entry
keyframe-on_air = refl

keyframe-after_sent_example :
    (40 < out_time (splice_to 0 0 on_air).out Kind.video 0)
    × (pos 0 +ℤ pos 1 ≤ℤ pos (out_time (splice_to 0 0 on_air).out Kind.video 0) +ℤ pos 0)
keyframe-after_sent_example =
    keyframe-after_sent 0 0 on_air keyframe keyframe-on_air refl (omega arith)

-- A CRA slice of two bytes, and the same as a BLA slice.
abbrev cra_slice : Bytes
cra_slice = 0 ∷ 0 ∷ 0 ∷ 2 ∷ 42 ∷ 1 ∷ []

abbrev bla_slice : Bytes
bla_slice = 0 ∷ 0 ∷ 0 ∷ 2 ∷ 32 ∷ 1 ∷ []

cra_to_bla_slice : cra_to_bla cra_slice 0 ≡ some bla_slice
unfolding cra_to_bla rewrite_units rewrite_header
cra_to_bla_slice = refl

-- A tag header, a CRA slice and one of another type, and a byte too many.
cra_to_bla-put_frame_example :
    cra_to_bla (0x1c ∷ 1 ∷ put_frame (9 ∷ []) ((42, 7 ∷ []) ∷ (2, 8 ∷ []) ∷ [])) 2
    ≡ some (0x1c ∷ 1 ∷ put_frame (9 ∷ []) ((32, 7 ∷ []) ∷ (2, 8 ∷ []) ∷ []))
cra_to_bla-put_frame_example =
    cra_to_bla-put_frame (0x1c ∷ 1 ∷ []) ((42, 7 ∷ []) ∷ (2, 8 ∷ []) ∷ []) (9 ∷ []) (omega arith)
      refl

rewrite_header_lem_example :
    (nal_type (rewrite_header 42) ≡ (if nal_type 42 == cra then bla_w_lp else nal_type 42))
    × (rewrite_header 42 % 2 ≡ 0)
    × (rewrite_header 42 / 128 ≡ 0)
rewrite_header_lem_example = rewrite_header_lem 42 (omega arith)

-- The same engine, held after a dump until something from number 1 on is there.
abbrev held : Engine
held = record on_air {
  out = record new_output { connected = true; started = true; pending = Pending.hold 1 0 };
}

held-is_holding : is_holding (run_pending 50_000 (evict 50_000 held)).out.pending ≡ true
unfolding evict evict_groups keep_from restart_point sync_at_or_before front_group over_ram
    group_old run_pending run_change run_hold
held-is_holding = refl

poll_budget-held_example : airs_nothing (poll_budget fp 1 50_000 1_000_000 held) ≡ true
poll_budget-held_example = poll_budget-held fp 0 50_000 1_000_000 held held-is_holding

-- Across a wrap, and back again.
unwrap_all-wrapped_example :
    unwrap_all (4_294_967_290 ∷ 4 ∷ 4_294_967_295 ∷ []) new_unwrapper
    ≡ (4_294_967_290 ∷ 4_294_967_300 ∷ 4_294_967_295 ∷ [])
unwrap_all-wrapped_example =
    unwrap_all-wrapped 4_294_967_290 (4_294_967_300 ∷ 4_294_967_295 ∷ []) (omega arith)
      (step (omega arith) (omega arith) (step (omega arith) (omega arith) still))
