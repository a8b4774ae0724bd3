-- ===== src/Rtmp/Chunk/Written.antt =====
-- crates/rtmp/src/chunk.rs: reading a chunk that the encoder has written.
use stream_delay.Base.{
  ℕ, ◌+◌, ◌-◌, ◌^◌, ◌≤◌, ◌<◌, min, Bool, true, false, ◌||◌, Option, none, some, [], ◌++◌, ltb,
  if◌then◌else◌, length, ◌≡◌, ◌≢◌, refl, sym, ap, ◌∙◌, arith, is_some,
}
use stream_delay.Flv.{Bytes}
use stream_delay.Rtmp.Chunk.{
  Message, StreamState, ChunkDecoder, lookup, or_default, max_chunk_streams, max_pending_bytes,
}
use stream_delay.Rtmp.Chunk.Decode.{
  go, header_len, Fields, fields, max_len, Extension, started, start_of, chunk_body, chunk_on,
  chunk_of, read_chunk,
}
use stream_delay.Rtmp.Chunk.Encode.{put_basic_header, put_header, put_extended}
use stream_delay.Rtmp.Chunk.Headers.{
  slice-append, basic_header-put_basic_header, field_of, is_extended, length-put_header,
  fields-put_header, extension_first, extension_repeated,
}

-- The payload of a chunk that is there in full, within the limit on unfinished messages.
chunk_body-append :
    (d : ChunkDecoder) (csid : ℕ) (continuation : Bool) (st before : StreamState) (len : ℕ)
    (x : Extension) (bytes r : Bytes) (pending : ℕ)
    → x.rest ≡ bytes ++ r
    → length bytes ≡ min (len - (if continuation then length st.partial else 0)) d.chunk_size
    → d.pending - (if continuation then 0 else length st.partial) + length bytes ≡ pending
    → pending ≤ max_pending_bytes
    → chunk_body d csid continuation st before len x
      ≡ go (record {
        csid = csid;
        before = before;
        bytes = bytes;
        rest = r;
        pending = pending;
        learned = x.learned;
      })
unfolding chunk_body
chunk_body-append d csid continuation st before len x bytes r pending e1 e2 e3 w =
    rw (← e2, e3, e1, slice-append bytes r (length bytes) refl) (ground arith)

-- A stream in the middle of a message with the timestamp `ts`.
pub record IsMidway (st : StreamState) (ts : ℕ) : Type 0 where
  pub going : st.in_progress ≡ true
  pub headed : st.has_header ≡ true
  pub marked : st.extended ≡ is_extended ts
  pub valued : is_extended ts ≡ true → st.ext_value ≡ ts

chunk_on_continued :
    (d : ChunkDecoder) (csid ts : ℕ) (f : Fields) (st : StreamState) (bytes r : Bytes)
    → ts < 2 ^ 32
    → d.repeats_extended ≢ some false
    → IsMidway st ts
    → length bytes ≡ min (f.length - length st.partial) d.chunk_size
    → d.pending + length bytes ≤ max_pending_bytes
    → (l : Option Bool) × (chunk_on d 3 csid f true st (put_extended ts ++ (bytes ++ r))
        ≡ go (record {
          csid = csid;
          before = st;
          bytes = bytes;
          rest = r;
          pending = d.pending + length bytes;
          learned = l;
        }))
      × (l ≢ some false)
unfolding chunk_on start_of
chunk_on_continued d csid ts f st bytes r h k m e w =
    let extended =
      extension_repeated d.repeats_extended st ts f.ts_field (bytes ++ r) h k (m.marked)
        (m.valued) in
    let (x, e1, e2, e3) = extended in
    let body = chunk_body-append d csid true st st f.length x bytes r _ e2 e (omega arith) w in
    (x.learned, rw e1 body, e3)

chunk_of_continued :
    (d : ChunkDecoder) (csid : ℕ) (st : StreamState) (h b : Bytes)
    → st.has_header ≡ true
    → st.in_progress ≡ true
    → chunk_of d 3 csid (some st) h b ≡ chunk_on d 3 csid (fields 3 h st) true st b
unfolding chunk_of
chunk_of_continued d csid st h b e1 e2 = simp (e1, e2) refl

-- A chunk that goes on with its stream's message.
pub read_chunk_continued :
    (d : ChunkDecoder) (csid ts : ℕ) (st : StreamState) (bytes r : Bytes)
    → d.buf ≡ put_basic_header 3 csid ++ (put_extended ts ++ (bytes ++ r))
    → 2 ≤ csid
    → csid ≤ 65599
    → ts < 2 ^ 32
    → lookup csid d.streams ≡ some st
    → IsMidway st ts
    → d.repeats_extended ≢ some false
    → length bytes ≡ min (st.length - length st.partial) d.chunk_size
    → d.pending + length bytes ≤ max_pending_bytes
    → (l : Option Bool) × (read_chunk d
        ≡ go (record {
          csid = csid;
          before = st;
          bytes = bytes;
          rest = r;
          pending = d.pending + length bytes;
          learned = l;
        }))
      × (l ≢ some false)
unfolding read_chunk header_len
read_chunk_continued d csid ts st bytes r b lo hi h e m k n w =
    let tail = put_extended ts ++ (bytes ++ r) in
    let same_len : (fields 3 [] st).length ≡ st.length = unfold fields in refl in
    let goes_on =
      chunk_on_continued d csid ts (fields 3 [] st) st bytes r h k m (rw same_len n) w in
    rw
      (
        b,
        basic_header-put_basic_header 3 csid tail (omega arith) lo hi,
        slice-append [] tail 0 refl,
        e,
        chunk_of_continued d csid st [] tail (m.headed) (m.going),
      )
      goes_on

-- A stream at the start of a message, by a header of format 0.
abbrev pub opened : Message → StreamState → StreamState
opened m st = record {
  timestamp = m.timestamp;
  delta = m.timestamp;
  length = length m.payload;
  type_id = m.type_id;
  stream_id = m.stream_id;
  extended = is_extended m.timestamp;
  ext_value = if is_extended m.timestamp then m.timestamp else st.ext_value;
  partial = [];
  in_progress = true;
  has_header = true;
}

started_opened :
    (m : Message) (st : StreamState) (r : Bytes)
    → started 0
        (record {
          ts_field = field_of m.timestamp;
          length = length m.payload;
          type_id = m.type_id;
          stream_id = m.stream_id;
        })
        (record {
          extended = is_extended m.timestamp;
          ext_value = if is_extended m.timestamp then m.timestamp else st.ext_value;
          learned = none;
          rest = r;
        })
        st
      ≡ opened m st
unfolding started
started_opened m st r = ground arith

-- What a decoder must still accept: the message's length and bytes.
pub record Accepts (d : ChunkDecoder) (m : Message) : Type 0 where
  pub lowest : 2 ≤ m.csid
  pub highest : m.csid ≤ 65599
  pub timed : m.timestamp < 2 ^ 32
  pub numbered : m.stream_id < 2 ^ 32
  pub short : length m.payload < 2 ^ 24
  pub allowed : length m.payload ≤ max_len m.type_id d
  pub fits : d.pending + length m.payload ≤ max_pending_bytes
  pub room : (is_some (lookup m.csid d.streams) || ltb (length d.streams) max_chunk_streams) ≡ true
  pub repeats : d.repeats_extended ≢ some false
  pub positive : 1 ≤ d.chunk_size

chunk_of_first :
    (d : ChunkDecoder) (csid : ℕ) (found : Option StreamState) (h b : Bytes)
    → (is_some found || ltb (length d.streams) max_chunk_streams) ≡ true
    → chunk_of d 0 csid found h b
      ≡ chunk_on d 0 csid (fields 0 h (or_default found)) false (or_default found) b
unfolding chunk_of
chunk_of_first d csid found h b e = ground arith

chunk_on_first :
    (d : ChunkDecoder) (m : Message) (st : StreamState) (bytes r : Bytes)
    → Accepts d m
    → length bytes ≡ min (length m.payload) d.chunk_size
    → chunk_on d 0 m.csid
        (record {
          ts_field = field_of m.timestamp;
          length = length m.payload;
          type_id = m.type_id;
          stream_id = m.stream_id;
        })
        false
        st
        (put_extended m.timestamp ++ (bytes ++ r))
      ≡ go (record {
        csid = m.csid;
        before = opened m st;
        bytes = bytes;
        rest = r;
        pending = d.pending - length st.partial + length bytes;
        learned = none;
      })
unfolding chunk_on start_of
chunk_on_first d m st bytes r a n =
    let allowed : ltb (max_len m.type_id d) (length m.payload) ≡ false =
      ground (arith, a.allowed) in
    let extended = extension_first d.repeats_extended st m.timestamp (bytes ++ r) (a.timed) in
    let body =
      chunk_body-append d m.csid false st (opened m st) (length m.payload)
        (record {
          extended = is_extended m.timestamp;
          ext_value = if is_extended m.timestamp then m.timestamp else st.ext_value;
          learned = none;
          rest = bytes ++ r;
        })
        bytes r _ refl (omega (arith, n)) refl (omega (arith, a.fits, n)) in
    rw (allowed, extended, started_opened m st (bytes ++ r)) body

pub read_chunk_first :
    (d : ChunkDecoder) (m : Message) (bytes r : Bytes)
    → Accepts d m
    → d.buf
      ≡ put_basic_header 0 m.csid
        ++ (put_header m.timestamp m.type_id m.stream_id (length m.payload)
            ++ (put_extended m.timestamp ++ (bytes ++ r)))
    → length bytes ≡ min (length m.payload) d.chunk_size
    → let st = or_default (lookup m.csid d.streams) in
      read_chunk d
      ≡ go (record {
        csid = m.csid;
        before = opened m st;
        bytes = bytes;
        rest = r;
        pending = d.pending - length st.partial + length bytes;
        learned = none;
      })
unfolding read_chunk header_len
read_chunk_first d m bytes r a b n =
    let st = or_default (lookup m.csid d.streams) in
    let tail = put_extended m.timestamp ++ (bytes ++ r) in
    let header = put_header m.timestamp m.type_id m.stream_id (length m.payload) in
    let eleven = length-put_header m.timestamp m.type_id m.stream_id (length m.payload) in
    let parts = fields-put_header m.timestamp m.type_id m.stream_id (length m.payload) st in
    let basic =
      basic_header-put_basic_header 0 m.csid (header ++ tail) (omega arith) (a.lowest)
        (a.highest) in
    rw
      (
        b,
        basic,
        slice-append header tail 11 (sym eleven),
        chunk_of_first d m.csid (lookup m.csid d.streams) header tail (a.room),
      )
      (ap (λ f. chunk_on d 0 m.csid f false st tail) (parts (a.numbered) (a.short))
        ∙ chunk_on_first d m st bytes r a n)
