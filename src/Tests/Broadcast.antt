-- ===== src/Tests/Broadcast.antt =====
-- A short broadcast, message by message.
use stream_delay.Base.{
  ℕ, ◌≡◌, refl, true, is_some, arith, Option, none, some, List, [], ◌∷◌, length, map, all,
}
use stream_delay.Flv.{Bytes}
use stream_delay.Engine.{Time, Kind, OutMsg, Engine, default_config, new}
use stream_delay.Engine.Ingest.{ingest_start, ingest}
use stream_delay.Engine.Lifecycle.{end_after, output_connected}
use stream_delay.Engine.Poll.{poll_budget, Polled}
use stream_delay.Engine.Change.{
  keyframe_interval, restart_point, run_change, run_pending, back_under_max,
}
use stream_delay.Engine.Drop.{emptied, drop_buffer}
use stream_delay.Engine.Emit.{
  emit_metadata, emit_frame, emit_media, emit_configs, emit_headers, emit_entry,
}
use stream_delay.Engine.Evict.{keep_from, over_ram, group_old, front_group, evict_groups, evict}
use stream_delay.Engine.Ingest.{
  new_session, drop_idle_session, fresh_start, read_video, reading, with_config, new_entry,
  session_after, appended, append,
}
use stream_delay.Engine.Lifecycle.{connected}
use stream_delay.Engine.Poll.{
  catch_up, enters_session, check_session, candidates, start_point, start_at, resync, joined, woken,
  go_on, send, send_due, send_next, from_start, advance, turn, rounds,
}
use stream_delay.Engine.Rolling.{entry, push, clear, arrival_or}
use stream_delay.Engine.Sessions.{
  session_cost, count_sessions, forget_headers, in_effect, headers_at,
}
use stream_delay.Engine.Splice.{spliced, splice_to, sent_at}
use stream_delay.Engine.Tracker.{see_video, see_bytes}
use stream_delay.Flv.Inspect.{inspect_video}
use stream_delay.Engine.Emit.Order.{Ascends}
use stream_delay.Engine.Poll.Progress.{poll_progress, IsWhere}
use stream_delay.Engine.System.{
  Reach, AllMarksReceived, starts, receives, connects, marks_end, fresh, next,
}
use stream_delay.Engine.System.Timed.{Reach-Ascends}
use stream_delay.Engine.System.Reachable.{Reach-IsSound}
use stream_delay.Engine.Sound.{IsSound}
use stream_delay.Engine.Poll.Due.{turn-is_due, is_due, round_sends}

-- A fingerprint that tells payloads of different lengths apart.
abbrev fp : Bytes → ℕ
fp b = length b

-- An AVC keyframe, and an inter frame.
abbrev key_frame : Bytes
key_frame = 0x17 ∷ 1 ∷ 0 ∷ 0 ∷ 0 ∷ 9 ∷ []

abbrev inter_frame : Bytes
inter_frame = 0x27 ∷ 1 ∷ 0 ∷ 0 ∷ 0 ∷ 8 ∷ []

-- The encoder sent a keyframe and a frame, and the output is connected.
abbrev received : Engine
received =
    ingest 34_000 Kind.video 33 inter_frame
      (ingest 1000 Kind.video 0 key_frame (ingest_start (new default_config)).0)

abbrev live : Engine
live = output_connected 40_000 received

abbrev live_reach : Reach fp default_config live
live_reach =
    next
      (next (next (next fresh starts) (receives 1000 Kind.video 0 key_frame))
        (receives 34_000 Kind.video 33 inter_frame))
      (connects 40_000)

abbrev engine_after : Option Polled → Engine
engine_after none = live
engine_after (some (g, _, _)) = g

abbrev sent_of : Option Polled → List OutMsg
sent_of none = []
sent_of (some (_, sent, _)) = sent

abbrev polled : Option Polled
polled = poll_budget fp 10 50_000 1_000_000 live

abbrev wake_of : Option Polled → Option Time
wake_of none = none
wake_of (some (_, _, wake)) = wake

parts_of : (r : Option Polled) → is_some r ≡ true → r ≡ some (engine_after r, sent_of r, wake_of r)
parts_of none h = ground arith
parts_of (some (g, sent, wake)) h = refl

-- Fuel for ten rounds is enough.
polled-is_some : is_some polled ≡ true
unfolding keyframe_interval restart_point run_change run_pending back_under_max emptied drop_buffer
    emit_metadata emit_frame emit_media emit_configs emit_headers emit_entry keep_from over_ram
    group_old front_group evict_groups evict new_session drop_idle_session fresh_start ingest_start
    read_video reading with_config new_entry session_after appended append ingest connected
    output_connected catch_up enters_session check_session candidates start_point start_at resync
    joined woken go_on send send_due send_next from_start advance turn rounds poll_budget entry push
    clear arrival_or session_cost count_sessions forget_headers in_effect headers_at spliced
    splice_to sent_at see_video see_bytes inspect_video
polled-is_some = refl

-- The keyframe goes out at once, the frame that came 33 ms after it 33 ms later.
sent_numbers : map (λ m. m.seq) (sent_of polled) ≡ (some 0 ∷ [])
unfolding keyframe_interval restart_point run_change run_pending back_under_max emptied drop_buffer
    emit_metadata emit_frame emit_media emit_configs emit_headers emit_entry keep_from over_ram
    group_old front_group evict_groups evict new_session drop_idle_session fresh_start ingest_start
    read_video reading with_config new_entry session_after appended append ingest connected
    output_connected catch_up enters_session check_session candidates start_point start_at resync
    joined woken go_on send send_due send_next from_start advance turn rounds poll_budget entry push
    clear arrival_or session_cost count_sessions forget_headers in_effect headers_at spliced
    splice_to sent_at see_video see_bytes inspect_video
sent_numbers = refl

wakes : wake_of polled ≡ some 83_000
unfolding keyframe_interval restart_point run_change run_pending back_under_max emptied drop_buffer
    emit_metadata emit_frame emit_media emit_configs emit_headers emit_entry keep_from over_ram
    group_old front_group evict_groups evict new_session drop_idle_session fresh_start ingest_start
    read_video reading with_config new_entry session_after appended append ingest connected
    output_connected catch_up enters_session check_session candidates start_point start_at resync
    joined woken go_on send send_due send_next from_start advance turn rounds poll_budget entry push
    clear arrival_or session_cost count_sessions forget_headers in_effect headers_at spliced
    splice_to sent_at see_video see_bytes inspect_video
wakes = refl

Reach-Ascends_example :
    Ascends live.out.last_kind_ts
      (poll_progress fp 10 50_000 1_000_000 live).1
      (poll_progress fp 10 50_000 1_000_000 live).0.out.last_kind_ts
    × IsWhere (poll_progress fp 10 50_000 1_000_000 live) polled
Reach-Ascends_example = Reach-Ascends fp 10 50_000 1_000_000 live_reach

live-AllMarksReceived : AllMarksReceived fp live_reach
live-AllMarksReceived = ((((tt, tt), tt), tt), tt)

-- Two messages were received; the second is the last that is to air.
next_lem : live.buffer.next_seq ≡ 2
unfolding keyframe_interval restart_point run_change run_pending back_under_max emptied drop_buffer
    emit_metadata emit_frame emit_media emit_configs emit_headers emit_entry keep_from over_ram
    group_old front_group evict_groups evict new_session drop_idle_session fresh_start ingest_start
    read_video reading with_config new_entry session_after appended append ingest connected
    output_connected catch_up enters_session check_session candidates start_point start_at resync
    joined woken go_on send send_due send_next from_start advance turn rounds poll_budget entry push
    clear arrival_or session_cost count_sessions forget_headers in_effect headers_at spliced
    splice_to sent_at see_video see_bytes inspect_video
next_lem = refl

abbrev marked_reach : Reach fp default_config (end_after 1 live)
marked_reach = next live_reach (marks_end 1)

Reach-IsSound_example : IsSound (end_after 1 live)
Reach-IsSound_example =
    Reach-IsSound fp marked_reach (live-AllMarksReceived, omega (arith, next_lem))

turn-is_due_example :
    all (is_due 50_000 live) (round_sends (turn fp 50_000 1_000_000 0 live)) ≡ true
turn-is_due_example =
    turn-is_due fp 50_000 1_000_000 0 live
      (Reach-IsSound fp live_reach live-AllMarksReceived).buffer
