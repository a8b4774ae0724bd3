-- ===== src/Engine/Ingest.antt =====
-- crates/engine/src/lib.rs, the ingest side: a publisher connects, sends messages, and goes.
pub mod Room
use stream_delay.Base.{
  ℕ, ◌+◌, ◌-◌, ◌/◌, Bool, true, false, not, ◌&&◌, ◌||◌, Option, none, some, List, [], ◌∷◌, ◌++◌,
  ltb, leb, ◌==◌, if◌then◌else◌, is_some_and, is_some, length, last?, rfind, drop_last, map_last,
  sum_of,
}
use stream_delay.Base.Int.{ℤ, pos}
use stream_delay.Flv.{Bytes, VideoInfo, AudioInfo}
use stream_delay.Flv.Inspect.{inspect_video, inspect_audio}
use stream_delay.Engine.{
  Time, Kind, kind_eq, bytes_eq, HeaderRec, Session, Entry, Engine, IngestTracker, max_headers,
  max_header_bytes, header_share_of_ram_cap, max_metadata_bytes, empty_tracker,
}
use stream_delay.Engine.Rolling.{cost, push}
use stream_delay.Engine.Tracker.{see_video, see_audio, see_bytes}
use stream_delay.Engine.Sessions.{header_cost, count_sessions}
use stream_delay.Engine.Evict.{evict}
use stream_delay.Engine.Drop.{drop_buffer}

unfoldable pub new_session : ℕ → Session
new_session id = record {
  id = id;
  headers = [];
  metadata = none;
  has_video = false;
  last_video_ts = none;
  frame_ms = 33;
}

-- Whether the newest entry is of session `id`.
abbrev pub newest_of : ℕ → Engine → Bool
newest_of id g = is_some_and (last? g.buffer.ring) (λ e. e.session == id)

-- The last session goes if nothing of it is buffered.
unfoldable pub drop_idle_session : Engine → Engine
drop_idle_session g = elim (last? g.sessions) [
  | none ↦ g
  | some s ↦ if newest_of s.id g then g else record g { sessions = drop_last g.sessions }
]

-- Unless a broadcast runs, what is left of an earlier stream goes.
unfoldable pub fresh_start : Engine → Engine
fresh_start g = if g.out.started then g else drop_buffer g

-- `ingest_start`, with the id that it returns.
unfoldable pub ingest_start : Engine → Engine × ℕ
ingest_start g =
    let g₁ = drop_idle_session (fresh_start g) in
    let id = g₁.next_session in
    let counted =
      count_sessions
        (record g₁ { next_session = id + 1; sessions = g₁.sessions ++ (new_session id ∷ []) }) in
    (record counted { ingest_active = true; stats = empty_tracker }, id)

-- `ingest_end`.
unfoldable pub ingest_end : Engine → Engine
ingest_end g = record g { ingest_active = false }

-- `ingest_metadata`.
unfoldable pub ingest_metadata : Bytes → Engine → Engine
ingest_metadata payload g =
    if ltb max_metadata_bytes (length payload) || length g.sessions == 0
    then g
    else count_sessions
        (record g { sessions = map_last (λ s. record s { metadata = some payload }) g.sessions })

-- What `ingest` finds out about a message, with the session and the statistics as they are then.
pub record Reading : Type 0 where
  pub sync : Bool
  pub config : Option ℕ
  pub cts : ℤ
  pub hevc_nal : Option ℕ
  pub nal_offset : Option ℕ
  pub session : Session
  pub stats : IngestTracker

abbrev pub plain : Session → IngestTracker → Reading
plain s t = record {
  sync = false;
  config = none;
  cts = pos 0;
  hevc_nal = none;
  nal_offset = none;
  session = s;
  stats = t;
}

-- The frame duration after a frame at `ts`, if it is one to 200 ms after the one before.
unfoldable pub frame_after : Option ℕ → ℕ → ℕ → ℕ
frame_after none ts known = known
frame_after (some last) ts known = let d = ts - last in if leb 1 d && leb d 200 then d else known

unfoldable pub read_video : Time → ℕ → VideoInfo → Session → IngestTracker → Reading
read_video now ts info s t = record {
  sync = info.keyframe;
  config = if info.config then some info.config_class else none;
  cts = info.composition_time;
  hevc_nal = info.hevc_nal_type;
  nal_offset = info.nal_offset;
  session = record s {
    has_video = true;
    last_video_ts = if info.config then s.last_video_ts else some ts;
    frame_ms = if info.config then s.frame_ms else frame_after s.last_video_ts ts s.frame_ms;
  };
  stats = see_video now info ts t;
}

unfoldable pub read_audio : AudioInfo → Session → IngestTracker → Reading
read_audio info s t = record (plain s (see_audio info t)) {
  sync = if info.config then false else not s.has_video;
  config = if info.config then some info.config_class else none;
}

unfoldable pub reading : Time → Kind → ℕ → Bytes → Session → IngestTracker → Reading
reading now Kind.video ts payload s t = elim (inspect_video payload) [
  | none ↦ plain s t
  | some info ↦ read_video now ts info s t
]
reading now Kind.audio ts payload s t = elim (inspect_audio payload) [
  | none ↦ plain s t
  | some info ↦ read_audio info s t
]
reading now Kind.script ts payload s t = plain s t

-- `repeat`: the newest configuration of that kind and class has the same payload.
abbrev pub repeats : Kind → ℕ → Bytes → List HeaderRec → Bool
repeats kind class payload headers =
    is_some_and (rfind (λ h. kind_eq h.kind kind && h.class == class) headers)
      (λ h. bytes_eq h.payload payload)

-- The oldest headers go until one that counts `size` fits in the number and the budget.
unfoldable pub make_room : ℕ → ℕ → List HeaderRec → List HeaderRec
make_room size budget [] = []
make_room size budget (h ∷ hs) =
    let later = make_room size budget hs in
    if leb max_headers (length (h ∷ hs)) || ltb budget (sum_of header_cost (h ∷ hs) + size)
    then later
    else h ∷ hs

-- The headers of the session after a configuration message.
unfoldable pub keep_header : ℕ → HeaderRec → List HeaderRec → List HeaderRec
keep_header budget h headers =
    let size = cost (length h.payload) in
    if not (repeats h.kind h.class h.payload headers)
      && leb (length h.payload) max_header_bytes
      && leb size budget
    then make_room size budget headers ++ (h ∷ [])
    else headers

abbrev pub header_budget : Engine → ℕ
header_budget g = g.config.ram_cap_bytes / header_share_of_ram_cap

unfoldable pub with_config : ℕ → ℕ → Kind → Bytes → Option ℕ → Session → Session
with_config budget seq kind payload none s = s
with_config budget seq kind payload (some class) s = record s {
  headers =
      keep_header budget (record { seq = seq; kind = kind; class = class; payload = payload })
        s.headers;
}

-- The entry and the session that a message leaves.
unfoldable pub new_entry : Time → Kind → ℕ → Bytes → Reading → Engine → Entry
new_entry now kind ts payload r g = record {
  seq = g.buffer.next_seq;
  arrival = now;
  session = r.session.id;
  kind = kind;
  ts = ts;
  payload = payload;
  sync = r.sync;
  config = r.config;
  cts = r.cts;
  hevc_nal = r.hevc_nal;
  nal_offset = r.nal_offset;
}

unfoldable pub session_after : Kind → Bytes → Reading → Engine → Session
session_after kind payload r g =
    with_config (header_budget g) g.buffer.next_seq kind payload r.config r.session

-- `ingest` once the message is read: the session is updated, the entry appended.
unfoldable pub appended : Time → Kind → ℕ → Bytes → Reading → Engine → Engine
appended now kind ts payload r g = record g {
  sessions = map_last (λ _. session_after kind payload r g) g.sessions;
  stats = see_bytes now (length payload) r.stats;
  buffer = push g.buffer (new_entry now kind ts payload r g);
}

unfoldable pub append : Time → Kind → ℕ → Bytes → Reading → Engine → Engine
append now kind ts payload r g =
    let g' = appended now kind ts payload r g in if is_some r.config then count_sessions g' else g'

-- `ingest`.
unfoldable pub ingest : Time → Kind → ℕ → Bytes → Engine → Engine
ingest now kind ts payload g =
    if not g.ingest_active || length payload == 0 then g else elim (last? g.sessions) [
      | none ↦ g
      | some s ↦ evict now (append now kind ts payload (reading now kind ts payload s g.stats) g)
    ]
