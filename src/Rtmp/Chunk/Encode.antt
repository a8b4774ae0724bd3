-- ===== src/Rtmp/Chunk/Encode.antt =====
-- crates/rtmp/src/chunk.rs, `ChunkEncoder`: messages are cut into chunks. The value of `write` is what
-- it appends to `out`.
use stream_delay.Base.{
  ℕ, zero, suc, ◌+◌, ◌-◌, ◌*◌, ◌/◌, ◌%◌, min, max, ◌&&◌, List, [], ◌∷◌, ◌++◌, ltb, leb,
  if◌then◌else◌, take, drop, length,
}
use stream_delay.Flv.{Bytes}
use stream_delay.Rtmp.Wire.{put_u24, put_u32, put_u32_le}
use stream_delay.Rtmp.Chunk.{Message, default_chunk_size, max_chunk_size, extended_mark}

pub record ChunkEncoder : Type 0 where
  pub chunk_size : ℕ

-- `ChunkEncoder::new`.
abbrev pub new_encoder : ChunkEncoder
new_encoder = record { chunk_size = default_chunk_size }

-- `set_chunk_size` of the encoder.
abbrev pub set_outgoing_chunk_size : ℕ → ChunkEncoder → ChunkEncoder
set_outgoing_chunk_size size e = record e { chunk_size = max 1 (min size max_chunk_size) }

-- `put_basic_header`: ids of one, two or three bytes.
unfoldable pub put_basic_header : ℕ → ℕ → Bytes
put_basic_header fmt csid =
    if leb 2 csid && ltb csid 64
    then (fmt * 64 + csid) ∷ []
    else if leb 64 csid && ltb csid 320
    then (fmt * 64) ∷ (csid - 64) ∷ []
    else (let v = max 64 (min csid 65599) - 64 in (fmt * 64 + 1) ∷ (v % 256) ∷ (v / 256 % 256) ∷ [])

-- `payload.chunks(n)`, for n > 0; on fuel, the number of its bytes being enough.
unfoldable pub chunks : ℕ → ℕ → Bytes → List Bytes
chunks zero n payload = []
chunks (suc fuel) n [] = []
chunks (suc fuel) n (b ∷ payload) = take n (b ∷ payload) ∷ chunks fuel n (drop n (b ∷ payload))

-- The extended timestamp, where there is one.
unfoldable pub put_extended : ℕ → Bytes
unfolding put_u32
put_extended timestamp = if leb extended_mark timestamp then put_u32 timestamp else []

-- The chunks after the first.
unfoldable pub put_rest : ℕ → ℕ → List Bytes → Bytes
unfolding put_basic_header put_extended
put_rest csid timestamp [] = []
put_rest csid timestamp (c ∷ cs) =
    put_basic_header 3 csid ++ (put_extended timestamp ++ (c ++ put_rest csid timestamp cs))

unfoldable pub put_chunks : ℕ → ℕ → List Bytes → Bytes
unfolding put_rest
put_chunks csid timestamp [] = []
put_chunks csid timestamp (c ∷ cs) = c ++ put_rest csid timestamp cs

-- The message header of format 0.
unfoldable pub put_header : ℕ → ℕ → ℕ → ℕ → Bytes
unfolding put_u24 put_u32_le
put_header timestamp type_id stream_id size =
    put_u24 (if leb extended_mark timestamp then extended_mark else timestamp)
    ++ (put_u24 size ++ (type_id ∷ put_u32_le stream_id))

-- `write_message`, and `write` of a message's parts.
unfoldable pub write : ChunkEncoder → Message → Bytes
unfolding put_basic_header put_header put_extended chunks put_chunks
write e m =
    let cs = chunks (length m.payload) e.chunk_size m.payload in
    let header = put_header m.timestamp m.type_id m.stream_id (length m.payload) in
    put_basic_header 0 m.csid
    ++ (header ++ (put_extended m.timestamp ++ put_chunks m.csid m.timestamp cs))
