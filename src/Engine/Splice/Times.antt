-- ===== src/Engine/Splice/Times.antt =====
-- crates/engine/src/lib.rs, `splice_to`: the timestamps on either side of a splice.
use stream_delay.Base.{ℕ, ◌+◌, ◌≤◌, ◌<◌, ◌≡◌, refl, false, Option, none, some, max, arith, map_or}
use stream_delay.Base.Int.{
  ℤ, pos, pos_part, ◌+ℤ◌, ◌-ℤ◌, ◌≤ℤ◌, +ℤ_parts, -ℤ_parts, parts_apart, sub_ℕ,
}
use stream_delay.Engine.{Engine, Entry, Output, kind_ts}
use stream_delay.Engine.Rolling.{entry}
use stream_delay.Engine.Sessions.{frame_ms}
use stream_delay.Engine.Splice.{after_sent, splice_base, spliced, splice_to, out_time, not_before}

-- `after_sent` lies a frame after everything sent, in decode order and in presentation order.
after_sent_lem :
    (o : Output) (frame : ℕ) (cts : ℤ)
    → (o.last_out_ts + max frame 1 ≤ after_sent o frame cts)
      × (o.last_pts +ℤ pos (max frame 1) ≤ℤ pos (after_sent o frame cts) +ℤ cts)
unfolding after_sent
after_sent_lem o frame cts =
    let shown = o.last_pts +ℤ pos (max frame 1) in
    let facts = -ℤ_parts shown cts in
    let sum = +ℤ_parts (pos (max (o.last_out_ts + max frame 1) (pos_part (shown -ℤ cts)))) cts in
    let apart = parts_apart (shown -ℤ cts) in omega arith

pos_part-sub : (a b : ℕ) → pos_part (pos b +ℤ sub_ℕ a b) ≡ a
unfolding ◌+ℤ◌
pos_part-sub a b = ground arith

-- A keyframe spliced to is sent with the timestamp of the splice, or its kind's last one.
out_time-spliced :
    (e : Entry) (base k delay : ℕ) (o : Output)
    → out_time (spliced e base k delay o) e.kind e.ts
      ≡ not_before base (kind_ts o.last_kind_ts e.kind)
unfolding out_time spliced
out_time-spliced e base k delay o = let t = pos_part-sub base e.ts in rw (t) refl

not_before_lem : (t : ℕ) (last : Option ℕ) → map_or 0 (λ u. u) last ≤ t → not_before t last ≡ t
not_before_lem t none h = refl
not_before_lem t (some u) h = ground arith

-- Once something was sent, the keyframe that a splice goes to is sent with a timestamp at least a
-- millisecond after every one before it, and is presented after every video frame before it; as
-- long as no kind of message ran ahead of the latest timestamp.
pub keyframe-after_sent :
    (k delay : ℕ) (g : Engine) (e : Entry)
    → entry g.buffer k ≡ some e
    → g.out.fresh ≡ false
    → map_or 0 (λ t. t) (kind_ts g.out.last_kind_ts e.kind) ≤ g.out.last_out_ts
    → let t = out_time (splice_to k delay g).out e.kind e.ts in
      (g.out.last_out_ts < t) × (g.out.last_pts +ℤ pos 1 ≤ℤ pos t +ℤ e.cts)
unfolding splice_base splice_to
keyframe-after_sent k delay g e h f le =
    let frame = frame_ms g.sessions e.session in
    let o = record g.out { fresh = false } in
    let base = after_sent o frame e.cts in
    let facts = after_sent_lem o frame e.cts in
    let first = +ℤ_parts g.out.last_pts (pos (max frame 1)) in
    let second = +ℤ_parts g.out.last_pts (pos 1) in
    let last = not_before_lem base (kind_ts g.out.last_kind_ts e.kind) (omega arith) in
    rw (h, splice_to) (rw (f) (rw (out_time-spliced) (rw (last) (omega arith))))
