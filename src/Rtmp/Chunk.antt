-- ===== src/Rtmp/Chunk.antt =====
-- crates/rtmp/src/chunk.rs: the chunk streams that messages are cut into. Here the messages, the
-- errors and the state of a decoder; Decode reads a chunk, Encode writes a message. The blocks that
-- complete messages are copied into (`arena`, `retry_after`) are not part of a decoder here: they
-- decide where a payload stands in memory and not which bytes it has.
pub mod Decode
pub mod Encode
pub mod Taken
pub mod Sound
pub mod Bounded
pub mod Headers
pub mod Written
pub mod Delivery
pub mod Rest
pub mod RoundTrip
pub mod Feeding
use stream_delay.Base.{
  ℕ, ◌*◌, ◌-◌, ◌^◌, Bool, false, ◌||◌, Option, none, some, List, [], ◌∷◌, ◌++◌, ltb, ◌==◌,
  if◌then◌else◌, length,
}
use stream_delay.Flv.{Bytes}

-- `DEFAULT_CHUNK_SIZE`.
abbrev pub default_chunk_size : ℕ
default_chunk_size = 128

-- `MAX_CHUNK_SIZE`.
abbrev pub max_chunk_size : ℕ
max_chunk_size = 2 ^ 24

-- `MAX_CHUNK_STREAMS`.
abbrev pub max_chunk_streams : ℕ
max_chunk_streams = 64

-- `MAX_PENDING_BYTES`.
abbrev pub max_pending_bytes : ℕ
max_pending_bytes = 64 * 1024 * 1024

-- `EXTENDED`.
abbrev pub extended_mark : ℕ
extended_mark = 0xff_ffff

-- `usize::MAX`, on 64 bits.
abbrev pub usize_max : ℕ
usize_max = 2 ^ 64 - 1

pub record Message : Type 0 where
  pub csid : ℕ
  pub timestamp : ℕ
  pub type_id : ℕ
  pub stream_id : ℕ
  pub payload : Bytes

pub data ChunkError : Type 0 where
  missing_header : ℕ → ChunkError
  invalid_chunk_size : ℕ → ChunkError
  too_many_streams too_much_pending : ChunkError
  message_too_large : ℕ → ℕ → ℕ → ChunkError

pub record StreamState : Type 0 where
  pub timestamp : ℕ
  pub delta : ℕ
  pub length : ℕ
  pub type_id : ℕ
  pub stream_id : ℕ
  pub extended : Bool
  pub ext_value : ℕ
  pub partial : Bytes
  pub in_progress : Bool
  pub has_header : Bool

-- `StreamState::default`.
abbrev pub default_state : StreamState
default_state = record {
  timestamp = 0;
  delta = 0;
  length = 0;
  type_id = 0;
  stream_id = 0;
  extended = false;
  ext_value = 0;
  partial = [];
  in_progress = false;
  has_header = false;
}

-- `HashMap<u32, StreamState>`, as the list of its entries.
abbrev pub Streams : Type 0
Streams = List (ℕ × StreamState)

-- `get`.
unfoldable pub lookup : ℕ → Streams → Option StreamState
lookup k [] = none
lookup k ((i, s) ∷ streams) = if i == k then some s else lookup k streams

-- `insert`.
unfoldable pub insert : ℕ → StreamState → Streams → Streams
insert k st [] = (k, st) ∷ []
insert k st ((i, s) ∷ streams) = if i == k then (i, st) ∷ streams else (i, s) ∷ insert k st streams

-- `unwrap_or(&default_state)`, and what `entry(csid).or_default()` finds.
abbrev pub or_default : Option StreamState → StreamState
or_default none = default_state
or_default (some s) = s

pub record ChunkDecoder : Type 0 where
  pub chunk_size : ℕ
  pub streams : Streams
  pub buf : Bytes
  pub pending : ℕ
  pub max_media_len : ℕ
  pub max_other_len : ℕ
  pub repeats_extended : Option Bool

-- `ChunkDecoder::new`.
abbrev pub new_decoder : ChunkDecoder
new_decoder = record {
  chunk_size = default_chunk_size;
  streams = [];
  buf = [];
  pending = 0;
  max_media_len = usize_max;
  max_other_len = usize_max;
  repeats_extended = none;
}

-- `set_max_message_len`.
abbrev pub set_max_message_len : ℕ → ℕ → ChunkDecoder → ChunkDecoder
set_max_message_len media other d = record d { max_media_len = media; max_other_len = other }

-- `push`.
abbrev pub push_bytes : Bytes → ChunkDecoder → ChunkDecoder
push_bytes bytes d = record d { buf = d.buf ++ bytes }

-- `set_chunk_size` of the decoder: the error, if there is one, and the decoder.
unfoldable pub set_chunk_size : ℕ → ChunkDecoder → Option ChunkError × ChunkDecoder
set_chunk_size size d =
    if size == 0 || ltb max_chunk_size size
    then (some (ChunkError.invalid_chunk_size size), d)
    else (none, record d { chunk_size = size })

-- `abort`.
abbrev aborted : StreamState → StreamState
aborted s = record s { partial = []; in_progress = false }

unfoldable pub abort : ℕ → ChunkDecoder → ChunkDecoder
abort csid d = elim (lookup csid d.streams) [
  | none ↦ d
  | some s ↦ record d {
    pending = d.pending - length s.partial;
    streams = insert csid (aborted s) d.streams;
  }
]
