-- ===== src/Engine/Emit.antt =====
-- crates/engine/src/lib.rs: what is sent to the destination, with its timestamps. `fingerprint` is the
-- hash of the standard library (`DefaultHasher`), whose algorithm is not specified: a parameter.
pub mod Once
pub mod Order
use stream_delay.Base.{
  ℕ, ◌+◌, ◌-◌, ◌*◌, ◌/◌, ◌%◌, ◌^◌, Bool, true, false, not, ◌&&◌, ◌||◌, Option, none, some, List, [],
  ◌∷◌, ◌++◌, max, ltb, ◌==◌, if◌then◌else◌, is_some_and, map_or, and_then, length, retain, any,
}
use stream_delay.Base.Int.{ℤ, pos, ◌+ℤ◌, max_ℤ}
use stream_delay.Flv.{Bytes}
use stream_delay.Flv.Hevc.{is_trailing, is_irap, is_leading, cra_to_bla}
use stream_delay.Engine.{
  Time, ms, sec, Kind, kind_eq, bytes_eq, OutMsg, Entry, Header, Headers, HoldFrame, SentHeader,
  Gate, Output, Engine, set_kind_ts,
}
use stream_delay.Engine.Rolling.{entry}
use stream_delay.Engine.Sessions.{headers_at}
use stream_delay.Engine.Splice.{after_sent, out_time, sent_at}
use stream_delay.Engine.Change.{on_out}

-- `t as u32`.
abbrev pub wrap32 : ℕ → ℕ
wrap32 t = t % 2 ^ 32

abbrev pub message : Kind → ℕ → Bytes → Option ℕ → OutMsg
message kind t payload seq = record {
  kind = kind;
  timestamp = wrap32 t;
  payload = payload;
  seq = seq;
}

abbrev pub count_sent : Bytes → Output → Output
count_sent payload o = record o { sent_bytes = o.sent_bytes + length payload }

-- `last_pts` after a video frame decoded at `t`.
abbrev pub presented : ℕ → ℤ → Output → Output
presented t cts o = record o { last_pts = max_ℤ o.last_pts (pos t +ℤ cts) }

abbrev pub metadata_known : Option Bytes → Bytes → Bool
metadata_known none m = false
metadata_known (some k) m = bytes_eq k m

-- The metadata before a keyframe, unless the destination has it.
unfoldable pub emit_metadata : Option Bytes → ℕ → Output → Output × List OutMsg
emit_metadata none ts o = (o, [])
emit_metadata (some m) ts o =
    let t = out_time o Kind.script ts in
    if metadata_known o.sent_metadata m then (o, []) else (
      record (sent_at Kind.script t o) { sent_metadata = some m },
      message Kind.script t m none ∷ [],
    )

-- Whether an entry that is no configuration is dropped at a splice: a leading picture of a CRA frame,
-- and audio or data from before the keyframe.
abbrev pub skips_leading : Entry → Output → Bool
skips_leading e o = is_some_and o.skip_leading_after (λ k. is_some_and e.hevc_nal (λ t.
    kind_eq e.kind Kind.video && not (ltb k e.seq && (is_trailing t || is_irap t)) && is_leading t))

abbrev pub ends_leading : Entry → Output → Bool
ends_leading e o = is_some_and o.skip_leading_after (λ k.
    is_some_and e.hevc_nal
      (λ t. kind_eq e.kind Kind.video && ltb k e.seq && (is_trailing t || is_irap t)))

abbrev pub gated : Entry → Output → Bool
gated e o =
    not (kind_eq e.kind Kind.video)
    && is_some_and o.gate (λ gate. gate.session == e.session && ltb e.ts gate.ts)

abbrev pub bla_payload : Entry → Option Bytes
bla_payload e = and_then e.nal_offset (cra_to_bla e.payload)

-- The payload sent: a CRA frame spliced to becomes a BLA one.
unfoldable pub sent_payload : Entry → Output → Bytes
sent_payload e o =
    if is_some_and o.skip_leading_after (λ k. k == e.seq)
    then elim (bla_payload e) [ none ↦ e.payload | some bla ↦ bla ]
    else e.payload

-- A frame, or data, that is not dropped.
unfoldable pub emit_frame : Entry → Output → Output × List OutMsg
emit_frame e o =
    let payload = sent_payload e o in
    let t = out_time o e.kind e.ts in
    let timed = sent_at e.kind t o in
    let shown = if kind_eq e.kind Kind.video then presented t e.cts timed else timed in
    (count_sent payload shown, message e.kind t payload (some e.seq) ∷ [])

abbrev pub drop_frame : Output → Output
drop_frame o = record o { dropped = o.dropped + 1 }

-- `emit_entry` for an entry that is no configuration.
unfoldable pub emit_media : Entry → Output → Output × List OutMsg
emit_media e o =
    let o' = if ends_leading e o then record o { skip_leading_after = none } else o in
    if skips_leading e o
    then (drop_frame o, [])
    else if gated e o
    then (drop_frame o', [])
    else emit_frame e o'

module _ (fingerprint : Bytes → ℕ) where
  abbrev is_sent : Kind → ℕ → Bytes → Output → Bool
  is_sent kind class payload o =
      any (λ s. kind_eq s.kind kind && s.class == class && s.print == fingerprint payload)
        o.sent_headers

  -- `mark_header_sent` where the destination does not have it yet.
  unfoldable pub mark_sent : Kind → ℕ → Bytes → Output → Output
  mark_sent kind class payload o = record o {
    sent_headers =
        retain (λ s. not (kind_eq s.kind kind && s.class == class)) o.sent_headers
        ++ (record { kind = kind; class = class; print = fingerprint payload } ∷ []);
  }

  -- A configuration message at the timestamp `ts`, if the destination does not have it.
  unfoldable pub emit_config : Kind → ℕ → Bytes → ℕ → Option ℕ → Output → Output × List OutMsg
  emit_config kind class payload ts seq o =
      let marked = mark_sent kind class payload o in
      let t = out_time marked kind ts in
      if is_sent kind class payload o
      then (o, [])
      else (count_sent payload (sent_at kind t marked), message kind t payload seq ∷ [])

  -- The loop of `emit_headers`.
  unfoldable pub emit_configs : List Header → ℕ → Output → Output × List OutMsg
  emit_configs [] ts o = (o, [])
  emit_configs (h ∷ hs) ts o =
      let (o₁, sent) = emit_config h.kind h.class h.payload ts none o in
      let (o₂, later) = emit_configs hs ts o₁ in (o₂, sent ++ later)

  -- `emit_headers` at the entry `e` that is sent next.
  unfoldable pub emit_headers : Headers → ℕ → Output → Output × List OutMsg
  emit_headers headers ts o =
      let (o₁, sent) = emit_metadata headers.metadata ts (record o { pending_headers = false }) in
      let (o₂, later) = emit_configs headers.config ts o₁ in (o₂, sent ++ later)

  -- `emit_entry`.
  unfoldable pub emit_entry : Entry → Output → Output × List OutMsg
  emit_entry e o = elim e.config [
    | some class ↦ emit_config e.kind class e.payload e.ts (some e.seq) o
    | none ↦ emit_media e o
  ]

  -- The loop of `emit_hold_headers`, at the timestamp `t`.
  unfoldable pub emit_hold_configs : List Header → ℕ → Output → Output × List OutMsg
  emit_hold_configs [] t o = (o, [])
  emit_hold_configs (h ∷ hs) t o =
      let marked = mark_sent h.kind h.class h.payload o in
      let known = is_sent h.kind h.class h.payload o in
      let o₁ =
        if known
        then o
        else count_sent h.payload
            (record marked { last_kind_ts = set_kind_ts o.last_kind_ts h.kind t }) in
      let sent = if known then [] else message h.kind t h.payload none ∷ [] in
      let (o₂, later) = emit_hold_configs hs t o₁ in (o₂, sent ++ later)

  -- `emit_hold_headers`.
  unfoldable pub emit_hold_headers : Headers → ℕ → Output → Output × List OutMsg
  emit_hold_headers headers t o =
      let o₁ : Output = elim headers.metadata [
        | none ↦ o
        | some m ↦ record o {
          sent_metadata = some m;
          last_kind_ts = set_kind_ts o.last_kind_ts Kind.script t;
        }
      ] in
      let sent : List OutMsg = elim headers.metadata [
        | none ↦ []
        | some m ↦ message Kind.script t m none ∷ []
      ] in
      let (o₂, later) = emit_hold_configs headers.config t o₁ in
      (record o₂ { last_out_ts = max o₂.last_out_ts t }, sent ++ later)

  -- The timestamp of a held frame that is sent again: at the clock's pace, and after all that was sent.
  unfoldable pub hold_time : Time → HoldFrame → Output → ℕ
  hold_time now h o =
      let last_video = map_or 0 (λ t. t) o.last_kind_ts.of_video in
      max (max o.last_out_ts last_video + max ((now - h.last) / ms) 1)
        (after_sent o h.frame_ms h.cts)

  -- `emit_hold_frame` when the frame is due.
  unfoldable pub send_hold_frame : Time → HoldFrame → Output → Output × List OutMsg
  send_hold_frame now h o =
      let t = hold_time now h o in
      let held = record h { last = now; next = now + sec; needs_headers = false } in
      let o₁ = record o { hold = some held; fresh = false } in
      let (o₂, sent) = if h.needs_headers then emit_hold_headers h.headers t o₁ else (o₁, []) in
      (
        count_sent h.payload (
            presented t h.cts (record o₂ {
              last_kind_ts = record o₂.last_kind_ts { of_video = some t };
              last_out_ts = max o₂.last_out_ts t;
            })),
        sent ++ (message Kind.video t h.payload none ∷ []),
      )

  -- `emit_hold_frame`, with the time of the next one.
  unfoldable pub emit_hold_frame : Time → Output → Output × List OutMsg × Option Time
  emit_hold_frame now o = elim o.hold [
    | none ↦ (o, [], none)
    | some h ↦
        if ltb now h.next
        then (o, [], some h.next)
        else let (o', sent) = send_hold_frame now h o in (o', sent, some (now + sec))
  ]
