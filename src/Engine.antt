-- ===== src/Engine.antt =====
-- crates/engine/src/lib.rs, the delay engine: its data. Times are microseconds, sequence numbers
-- and counts are unsigned integers that stay far below 2^64, so they are plain numbers here;
-- `saturating_sub` is the truncated `-`. The children hold the operations.
pub mod Rolling
pub mod Tracker
pub mod Sessions
pub mod Splice
pub mod Change
pub mod Evict
pub mod Drop
pub mod Ingest
pub mod Lifecycle
pub mod Emit
pub mod Poll
pub mod Dump
pub mod Commands
pub mod Sound
pub mod System
use stream_delay.Base.{ℕ, ◌==◌, ◌&&◌, ◌*◌, Bool, true, false, Option, none, List, [], ◌∷◌}
use stream_delay.Base.Int.{ℤ, pos}
use stream_delay.Flv.{Bytes, VideoCodec, AudioCodec}

-- Microseconds on a monotonic clock chosen by the caller.
abbrev pub Time : Type 0
Time = ℕ

abbrev pub ms : ℕ
ms = 1000

abbrev pub sec : ℕ
sec = 1_000_000

abbrev pub max_headers : ℕ
max_headers = 64

abbrev pub max_header_bytes : ℕ
max_header_bytes = 1024 * 1024

abbrev pub header_share_of_ram_cap : ℕ
header_share_of_ram_cap = 8

abbrev pub max_metadata_bytes : ℕ
max_metadata_bytes = 64 * 1024

abbrev pub replay_gap_held_after : Time
replay_gap_held_after = 2 * sec

abbrev pub slate_confirm_wait : Time
slate_confirm_wait = 2 * sec

pub record EngineConfig : Type 0 where
  pub max_delay_ms : ℕ
  pub headroom_ms : ℕ
  pub ram_cap_bytes : ℕ
  pub mask_margin_ms : ℕ
  pub mute_under_slate : Bool
  pub keep_history : Bool
  pub restore_after_reconnect : Bool

-- `EngineConfig::default`.
abbrev pub default_config : EngineConfig
default_config = record {
  max_delay_ms = 120_000;
  headroom_ms = 10_000;
  ram_cap_bytes = 512 * 1024 * 1024;
  mask_margin_ms = 1_500;
  mute_under_slate = true;
  keep_history = true;
  restore_after_reconnect = false;
}

-- `script` is AMF0 data (`Kind::Data`).
pub data Kind : Type 0 where
  audio video script : Kind

-- `Kind::index`.
abbrev pub index : Kind → ℕ
index Kind.audio = 0
index Kind.video = 1
index Kind.script = 2

abbrev pub kind_eq : Kind → Kind → Bool
kind_eq a b = index a == index b

-- `==` on payloads.
pub bytes_eq : Bytes → Bytes → Bool
bytes_eq [] [] = true
bytes_eq (a ∷ as') (b ∷ bs) = a == b && bytes_eq as' bs
bytes_eq _ _ = false

-- `seq` is `none` for resent metadata and decoder configuration.
pub record OutMsg : Type 0 where
  pub kind : Kind
  pub timestamp : ℕ
  pub payload : Bytes
  pub seq : Option ℕ

pub data DelayMode : Type 0 where
  rewind mask : DelayMode

-- `at_once` is `GoLiveWhen::Now`.
pub data GoLiveWhen : Type 0 where
  at_once after_air : GoLiveWhen

pub data Command : Type 0 where
  set_delay : ℕ → DelayMode → Command
  go_live : GoLiveWhen → Command
  cancel : Command
  dump : DelayMode → Bool → Command
  slate_shown : ℕ → Command

pub data DumpOutcome : Type 0 where
  replay cover hold : DumpOutcome

pub record Ack : Type 0 where
  pub target_ms : ℕ
  pub effective_ms : ℕ
  pub pending : Bool
  pub history_short : Bool
  pub dump : Option DumpOutcome

pub data EngineError : Type 0 where
  too_large : ℕ → ℕ → EngineError
  nothing_to_dump : EngineError
  not_enough_memory : ℕ → ℕ → EngineError

pub record Entry : Type 0 where
  pub seq : ℕ
  pub arrival : Time
  pub session : ℕ
  pub kind : Kind
  pub ts : ℕ
  pub payload : Bytes
  pub sync : Bool
  pub config : Option ℕ
  pub cts : ℤ
  pub hevc_nal : Option ℕ
  pub nal_offset : Option ℕ

-- Decoder configuration: its track's kind, its class and its payload.
pub record Header : Type 0 where
  pub kind : Kind
  pub class : ℕ
  pub payload : Bytes

pub record Headers : Type 0 where
  pub metadata : Option Bytes
  pub config : List Header

pub record HeaderRec : Type 0 where
  pub seq : ℕ
  pub kind : Kind
  pub class : ℕ
  pub payload : Bytes

pub record Session : Type 0 where
  pub id : ℕ
  pub headers : List HeaderRec
  pub metadata : Option Bytes
  pub has_video : Bool
  pub last_video_ts : Option ℕ
  pub frame_ms : ℕ

-- `idle` is `Pending::None`. `mask` has, in order, `delay`, `started`, `anchor`, `mute`, `shown` and
-- `dump`; `dump` has `delay`, `started`, `from` and `shown`; `hold` and `replay` have `from` and `delay`.
pub data Pending : Type 0 where
  idle : Pending
  go_live_now : ℕ → Pending
  after_air : ℕ → Pending
  reduce : ℕ → Pending
  mask : ℕ → Time → Option ℕ → Bool → Option Time → Bool → Pending
  dump : ℕ → Time → ℕ → Option Time → Pending
  hold : ℕ → ℕ → Pending
  replay : ℕ → ℕ → Pending

pub record HoldFrame : Type 0 where
  pub payload : Bytes
  pub cts : ℤ
  pub frame_ms : ℕ
  pub headers : Headers
  pub last : Time
  pub next : Time
  pub needs_headers : Bool

-- `[Option<u64>; 3]`, by `Kind::index`.
pub record KindTs : Type 0 where
  pub of_audio : Option ℕ
  pub of_video : Option ℕ
  pub of_script : Option ℕ

abbrev pub kind_ts : KindTs → Kind → Option ℕ
kind_ts k Kind.audio = k.of_audio
kind_ts k Kind.video = k.of_video
kind_ts k Kind.script = k.of_script

abbrev pub set_kind_ts : KindTs → Kind → ℕ → KindTs
set_kind_ts k Kind.audio t = record k { of_audio = Option.some t }
set_kind_ts k Kind.video t = record k { of_video = Option.some t }
set_kind_ts k Kind.script t = record k { of_script = Option.some t }

abbrev pub no_ts : KindTs
no_ts = record { of_audio = none; of_video = none; of_script = none }

-- A decoder configuration that the destination has, by fingerprint.
pub record SentHeader : Type 0 where
  pub kind : Kind
  pub class : ℕ
  pub print : ℕ

pub record Gate : Type 0 where
  pub session : ℕ
  pub ts : ℕ

pub record Output : Type 0 where
  pub connected : Bool
  pub generation : ℕ
  pub next_seq : ℕ
  pub delay : ℕ
  pub target : ℕ
  pub ts_offset : ℤ
  pub fresh : Bool
  pub need_sync : Bool
  pub started : Bool
  pub current_session : Option ℕ
  pub last_out_ts : ℕ
  pub last_kind_ts : KindTs
  pub last_pts : ℤ
  pub skip_leading_after : Option ℕ
  pub gate : Option Gate
  pub pending_headers : Bool
  pub sent_headers : List SentHeader
  pub sent_metadata : Option Bytes
  pub pending : Pending
  pub mask_visible : Bool
  pub history_short : Bool
  pub history_then : ℕ
  pub memory_short : Bool
  pub hold : Option HoldFrame
  pub slate_change : ℕ
  pub slate_unconfirmed : Bool
  pub cover_lost : Bool
  pub grew_on_reconnect : Bool
  pub end_mark : Option ℕ
  pub splices : ℕ
  pub dropped : ℕ
  pub sent_bytes : ℕ
  pub first_emitted : Option ℕ

-- A measurement of `IngestTracker`: when, how many bytes, and whether it counts a video frame.
pub record Sample : Type 0 where
  pub at : Time
  pub size : ℕ
  pub frame : Bool

-- crates/engine/src/snapshot.rs, `IngestTracker`.
pub record IngestTracker : Type 0 where
  pub window : List Sample
  pub video_codec : Option VideoCodec
  pub audio_codec : Option AudioCodec
  pub last_key_ts : Option ℕ
  pub gop_ms : Option ℕ
  pub enhanced : Bool
  pub multitrack : Bool

-- The five fields of `Engine` that hold the rolling buffer.
pub record Buffer : Type 0 where
  pub ring : List Entry
  pub syncs : List ℕ
  pub base_seq : ℕ
  pub next_seq : ℕ
  pub bytes : ℕ

pub record Engine : Type 0 where
  pub config : EngineConfig
  pub buffer : Buffer
  pub sessions : List Session
  pub session_bytes : ℕ
  pub ingest_active : Bool
  pub next_session : ℕ
  pub out : Output
  pub stats : IngestTracker

abbrev pub empty_tracker : IngestTracker
empty_tracker = record {
  window = [];
  video_codec = none;
  audio_codec = none;
  last_key_ts = none;
  gop_ms = none;
  enhanced = false;
  multitrack = false;
}

abbrev pub new_output : Output
new_output = record {
  connected = false;
  generation = 0;
  next_seq = 0;
  delay = 0;
  target = 0;
  ts_offset = pos 0;
  fresh = true;
  need_sync = true;
  started = false;
  current_session = none;
  last_out_ts = 0;
  last_kind_ts = no_ts;
  last_pts = pos 0;
  skip_leading_after = none;
  gate = none;
  pending_headers = false;
  sent_headers = [];
  sent_metadata = none;
  pending = Pending.idle;
  mask_visible = false;
  history_short = false;
  history_then = 0;
  memory_short = false;
  hold = none;
  slate_change = 0;
  slate_unconfirmed = false;
  cover_lost = false;
  grew_on_reconnect = false;
  end_mark = none;
  splices = 0;
  dropped = 0;
  sent_bytes = 0;
  first_emitted = none;
}

abbrev pub empty_buffer : Buffer
empty_buffer = record { ring = []; syncs = []; base_seq = 0; next_seq = 0; bytes = 0 }

-- `Engine::new`.
abbrev pub new : EngineConfig → Engine
new config = record {
  config = config;
  buffer = empty_buffer;
  sessions = [];
  session_bytes = 0;
  ingest_active = false;
  next_session = 1;
  out = new_output;
  stats = empty_tracker;
}
