-- ===== src/Rtmp/Chunk/Decode.antt =====
-- crates/rtmp/src/chunk.rs, `next_chunk` and `next_message`: the decoder pulls messages out of the
-- bytes pushed into it. Where the code moves an index over the buffer, each step here returns the
-- bytes from that index on.
use stream_delay.Base.{
  ℕ, zero, suc, ◌+◌, ◌-◌, ◌*◌, ◌/◌, ◌%◌, ◌^◌, min, Bool, true, false, not, ◌&&◌, ◌||◌, Option, none,
  some, [], ◌∷◌, ◌++◌, ltb, leb, ◌==◌, if◌then◌else◌, is_some, or_else, take, drop, length,
}
use stream_delay.Flv.{Bytes}
use stream_delay.Rtmp.Wire.{u24, be32, le32}
use stream_delay.Rtmp.Chunk.{
  Message, ChunkError, StreamState, ChunkDecoder, lookup, insert, or_default, max_chunk_streams,
  max_pending_bytes, extended_mark,
}

-- The early returns of `next_chunk`: `NeedMore`, or an error.
pub data Step (A : Type 0) : Type 0 where
  need_more : Step A
  fail : ChunkError → Step A
  go : A → Step A

infixl 5 ◌>>=◌ ◌>>◌
abbrev pub ◌>>=◌ : {A B : Type 0} → Step A → (A → Step B) → Step B
need_more >>= f = need_more
fail e >>= f = fail e
go a >>= f = f a

abbrev pub ◌>>◌ : {A B : Type 0} → Step A → Step B → Step B
m >> k = m >>= λ _. k

-- `if c { return Err(e) }`.
abbrev pub refuse_if : Bool → ChunkError → Step (Unit {0})
refuse_if true e = fail e
refuse_if false e = go tt

-- The next `n` bytes and those after them, or `NeedMore`.
unfoldable pub slice : ℕ → Bytes → Step (Bytes × Bytes)
slice n b = if ltb (length b) n then need_more else go (take n b, drop n b)

-- The first byte, the chunk stream id, and what follows: `fmt`, `csid`.
abbrev pub id_of_two : Bytes → Step (ℕ × Bytes)
id_of_two [] = need_more
id_of_two (b1 ∷ b) = go (64 + b1, b)

abbrev pub id_of_three : Bytes → Step (ℕ × Bytes)
id_of_three (b1 ∷ b2 ∷ b) = go (64 + b1 + b2 * 256, b)
id_of_three _ = need_more

unfoldable pub long_id : ℕ → Bytes → Step (ℕ × Bytes)
long_id low b = if low == 0 then id_of_two b else if low == 1 then id_of_three b else go (low, b)

unfoldable pub basic_header : Bytes → Step (ℕ × ℕ × Bytes)
unfolding long_id
basic_header [] = need_more
basic_header (b0 ∷ b) = do (csid, b) ← long_id (b0 % 64) b; go (b0 / 64, csid, b)

-- `header_len`.
unfoldable pub header_len : ℕ → ℕ
header_len fmt = if fmt == 0 then 11 else if fmt == 1 then 7 else if fmt == 2 then 3 else 0

-- What a message header says, or the chunk stream's last one: `ts_field`, `length`, `type_id` and
-- `stream_id`.
pub record Fields : Type 0 where
  pub ts_field : ℕ
  pub length : ℕ
  pub type_id : ℕ
  pub stream_id : ℕ

-- `h[i]`, for an index that is in range.
unfoldable pub byte_at : ℕ → Bytes → ℕ
byte_at i [] = 0
byte_at zero (b ∷ h) = b
byte_at (suc i) (b ∷ h) = byte_at i h

unfoldable pub fields : ℕ → Bytes → StreamState → Fields
unfolding u24 le32 byte_at
fields fmt h st = record {
  ts_field = if leb fmt 2 then u24 (take 3 h) else 0;
  length = if leb fmt 1 then u24 (take 3 (drop 3 h)) else st.length;
  type_id = if leb fmt 1 then byte_at 6 h else st.type_id;
  stream_id = if fmt == 0 then le32 (drop 7 h) else st.stream_id;
}

-- The longest message of a type: `max`.
unfoldable pub max_len : ℕ → ChunkDecoder → ℕ
max_len type_id d = if type_id == 8 || type_id == 9 then d.max_media_len else d.max_other_len

-- `extended`, `ext_value`, `learned` and the bytes from the payload on.
pub record Extension : Type 0 where
  pub extended : Bool
  pub ext_value : ℕ
  pub learned : Option Bool
  pub rest : Bytes

-- An extended timestamp that is there.
unfoldable pub read_extension : Bytes → Step Extension
unfolding slice be32
read_extension b = do
  (four, rest) ← slice 4 b
  go (record { extended = true; ext_value = be32 four; learned = none; rest = rest })

-- On a continuation the field is there, is not, or shows which.
unfoldable pub repeated_extension : Option Bool → ℕ → Bytes → Step Extension
unfolding slice be32
repeated_extension (some true) ext_value b = do
  (four, rest) ← slice 4 b
  go (record { extended = true; ext_value = ext_value; learned = none; rest = rest })
repeated_extension (some false) ext_value b =
    go (record { extended = true; ext_value = ext_value; learned = none; rest = b })
repeated_extension none ext_value b = do
  (four, rest) ← slice 4 b
  let repeated = be32 four == ext_value
  go (record {
    extended = true;
    ext_value = ext_value;
    learned = some repeated;
    rest = if repeated then rest else b;
  })

abbrev pub no_extension : Bool → ℕ → Bytes → Extension
no_extension extended ext_value b = record {
  extended = extended;
  ext_value = ext_value;
  learned = none;
  rest = b;
}

unfoldable pub extension : Option Bool → ℕ → Bool → StreamState → ℕ → Bytes → Step Extension
unfolding read_extension repeated_extension
extension repeats fmt continuation st ts_field b =
    if leb fmt 2
    then (if ts_field == extended_mark
        then read_extension b
        else go (no_extension false st.ext_value b))
    else if st.extended
    then (if continuation then repeated_extension repeats st.ext_value b else read_extension b)
    else go (no_extension false st.ext_value b)

-- The delta and the timestamp after a header of format `fmt`.
unfoldable pub delta_after : ℕ → Bool → ℕ → ℕ → ℕ
delta_after fmt extended raw_ts delta = if leb fmt 2 || extended then raw_ts else delta

unfoldable pub timestamp_after : ℕ → ℕ → ℕ → ℕ → ℕ
timestamp_after fmt raw_ts delta timestamp =
    if fmt == 0
    then raw_ts
    else if leb fmt 2
    then (timestamp + raw_ts) % 2 ^ 32
    else (timestamp + delta) % 2 ^ 32

-- A chunk stream at the start of a message: the header is kept, what was there is dropped.
unfoldable pub started : ℕ → Fields → Extension → StreamState → StreamState
unfolding delta_after timestamp_after
started fmt f x st =
    let raw_ts = if x.extended then x.ext_value else f.ts_field in
    let delta = delta_after fmt x.extended raw_ts st.delta in
    record {
      timestamp = timestamp_after fmt raw_ts delta st.timestamp;
      delta = delta;
      length = f.length;
      type_id = f.type_id;
      stream_id = f.stream_id;
      extended = x.extended;
      ext_value = x.ext_value;
      partial = [];
      in_progress = true;
      has_header = true;
    }

-- `ChunkResult`, less `NeedMore`.
pub data ChunkResult : Type 0 where
  partial : ChunkResult
  complete : Message → ChunkResult

abbrev pub message_of : ℕ → StreamState → Message
message_of csid st = record {
  csid = csid;
  timestamp = st.timestamp;
  type_id = st.type_id;
  stream_id = st.stream_id;
  payload = st.partial;
}

-- `extend_from_slice`, and the state of a stream whose message was delivered.
unfoldable pub filled : StreamState → Bytes → StreamState
filled st bytes = record st { partial = st.partial ++ bytes }

unfoldable pub emptied : StreamState → StreamState
emptied st = record st { partial = []; in_progress = false }

-- A chunk that is there in full: `before` is its stream, with a message started if it starts one;
-- `pending` counts its bytes.
pub record Chunk : Type 0 where
  pub csid : ℕ
  pub before : StreamState
  pub bytes : Bytes
  pub rest : Bytes
  pub pending : ℕ
  pub learned : Option Bool

-- The payload of the chunk, `take` bytes: what its message still lacks, or a full chunk.
unfoldable pub chunk_body :
    ChunkDecoder → ℕ → Bool → StreamState → StreamState → ℕ → Extension → Step Chunk
unfolding slice
chunk_body d csid continuation st before len x = do
  let already = if continuation then length st.partial else 0
  let size = min (len - already) d.chunk_size
  (bytes, rest) ← slice size x.rest
  let dropped = if continuation then 0 else length st.partial
  refuse_if (ltb max_pending_bytes (d.pending - dropped + size)) ChunkError.too_much_pending
  go (record {
    csid = csid;
    before = before;
    bytes = bytes;
    rest = rest;
    pending = d.pending - dropped + size;
    learned = x.learned;
  })

-- From the message header on. A header of format 0 to 2 always starts a new message.
unfoldable pub start_of : Bool → ℕ → Fields → Extension → StreamState → StreamState
unfolding started
start_of continuation fmt f x st = if continuation then st else started fmt f x st

unfoldable pub chunk_on : ChunkDecoder → ℕ → ℕ → Fields → Bool → StreamState → Bytes → Step Chunk
unfolding max_len extension start_of chunk_body
chunk_on d fmt csid f continuation st b = do
  let max = max_len f.type_id d
  refuse_if (not continuation && ltb max f.length)
      (ChunkError.message_too_large f.type_id f.length max)
  x ← extension d.repeats_extended fmt continuation st f.ts_field b
  chunk_body d csid continuation st (start_of continuation fmt f x st) f.length x

unfoldable pub chunk_of : ChunkDecoder → ℕ → ℕ → Option StreamState → Bytes → Bytes → Step Chunk
unfolding fields chunk_on
chunk_of d fmt csid found h b = do
  let st = or_default found
  refuse_if (not (fmt == 0) && not st.has_header) (ChunkError.missing_header csid)
  refuse_if (not (is_some found) && leb max_chunk_streams (length d.streams))
      ChunkError.too_many_streams
  chunk_on d fmt csid (fields fmt h st) (fmt == 3 && st.in_progress) st b

-- `next_chunk` up to the commit, which changes nothing.
unfoldable pub read_chunk : ChunkDecoder → Step Chunk
unfolding basic_header header_len chunk_of slice
read_chunk d = do
  (fmt, csid, b) ← basic_header d.buf
  (h, b) ← slice (header_len fmt) b
  chunk_of d fmt csid (lookup csid d.streams) h b

-- The commit: the chunk's bytes join the message, which may be complete.
unfoldable pub commit : Chunk → ChunkDecoder → ChunkResult × ChunkDecoder
unfolding filled emptied
commit c d =
    let st = filled c.before c.bytes in
    let d' = record d { buf = c.rest; repeats_extended = or_else c.learned d.repeats_extended } in
    if leb st.length (length st.partial)
    then (
      ChunkResult.complete (message_of c.csid st),
      record d' {
        pending = c.pending - length st.partial;
        streams = insert c.csid (emptied st) d.streams;
      },
    )
    else (
      ChunkResult.partial,
      record d' { pending = c.pending; streams = insert c.csid st d.streams },
    )

unfoldable pub next_chunk : ChunkDecoder → Step (ChunkResult × ChunkDecoder)
unfolding read_chunk commit
next_chunk d = do c ← read_chunk d; go (commit c d)

-- `next_message`: what it returns, with the decoder. `stuck` is no value of the code: the loop ran
-- out of fuel.
pub data Received : Type 0 where
  stuck : Received
  waiting : ChunkDecoder → Received
  failed : ChunkError → ChunkDecoder → Received
  received : Message → ChunkDecoder → Received

unfoldable pub messages : ℕ → ChunkDecoder → Received
messages zero d = stuck
messages (suc fuel) d = elim (next_chunk d) [
  | need_more ↦ waiting d
  | fail e ↦ failed e d
  | go (ChunkResult.partial, d') ↦ messages fuel d'
  | go (ChunkResult.complete m, d') ↦ received m d'
]

-- Every chunk takes a byte at least.
unfoldable pub next_message : ChunkDecoder → Received
unfolding messages
next_message d = messages (suc (length d.buf)) d
