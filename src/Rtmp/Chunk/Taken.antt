-- ===== src/Rtmp/Chunk/Taken.antt =====
-- crates/rtmp/src/chunk.rs, `next_chunk`: a chunk that is there in full, and the end of the loop of
-- `next_message`.
use stream_delay.Base.{
  ℕ, zero, suc, ◌+◌, ◌-◌, ◌%◌, ◌≤◌, ◌<◌, min, Bool, true, false, not, ◌&&◌, Option, none, some, [],
  ◌∷◌, ltb, leb, ◌==◌, if◌then◌else◌, is_some, length, ◌≡◌, ◌≢◌, refl, arith, length-take,
}
use stream_delay.Flv.{Bytes}
use stream_delay.Rtmp.Wire.{length-drop}
use stream_delay.Rtmp.Chunk.{
  message_too_large, missing_header, too_many_streams, StreamState, ChunkDecoder, lookup,
  or_default, max_chunk_streams, max_pending_bytes,
}
use stream_delay.Rtmp.Chunk.Decode.{
  Step, need_more, fail, go, ◌>>=◌, refuse_if, slice, long_id, basic_header, header_len, Fields,
  fields, max_len, Extension, read_extension, repeated_extension, extension, started, Chunk,
  chunk_body, start_of, chunk_on, chunk_of, read_chunk, commit, ChunkResult, next_chunk, stuck,
  messages, next_message,
}

-- The two halves of a slice.
pub slice-lengths :
    (n : ℕ) (b : Bytes) {xs r : Bytes}
    → slice n b ≡ go (xs, r)
    → (length xs ≡ n) × (length r + n ≡ length b)
unfolding slice
slice-lengths n b h = ground (arith, length-take n b, length-drop n b)

long_id-shortens :
    (low : ℕ) (b : Bytes) {csid : ℕ} {r : Bytes}
    → long_id low b ≡ go (csid, r)
    → length r ≤ length b
unfolding long_id
long_id-shortens low [] h = ground arith
long_id-shortens low (b1 ∷ []) h = ground arith
long_id-shortens low (b1 ∷ b2 ∷ b) h = ground arith

pub basic_header-shortens :
    (b : Bytes) {fmt csid : ℕ} {r : Bytes}
    → basic_header b ≡ go (fmt, csid, r)
    → length r < length b
unfolding basic_header
basic_header-shortens [] h = cc
basic_header-shortens (b0 ∷ b) h = ground (arith, long_id-shortens (b0 % 64) b)

read_extension-shortens :
    (b : Bytes) {x : Extension} → read_extension b ≡ go x → length x.rest ≤ length b
unfolding read_extension
read_extension-shortens b h = ground (arith, slice-lengths 4 b)

repeated_extension-shortens :
    (repeats : Option Bool) (v : ℕ) (b : Bytes) {x : Extension}
    → repeated_extension repeats v b ≡ go x
    → length x.rest ≤ length b
unfolding repeated_extension
repeated_extension-shortens (some true) v b h = ground (arith, slice-lengths 4 b)
repeated_extension-shortens (some false) v b h = ground arith
repeated_extension-shortens none v b h = ground (arith, slice-lengths 4 b)

pub extension-shortens :
    (repeats : Option Bool) (fmt : ℕ) (c : Bool) (st : StreamState) (ts : ℕ) (b : Bytes)
    {x : Extension}
    → extension repeats fmt c st ts b ≡ go x
    → length x.rest ≤ length b
unfolding extension
extension-shortens repeats fmt c st ts b h =
    ground (arith, read_extension-shortens b, repeated_extension-shortens repeats st.ext_value b)

-- Inversion of a bind that goes on.
pub bind-go :
    {A B : Type 0} (m : Step A) (f : A → Step B) {b : B}
    → (m >>= f) ≡ go b
    → (a : A) × (m ≡ go a) × (f a ≡ go b)
bind-go need_more f h = cc
bind-go (fail e) f h = cc
bind-go (go a) f h = (a, refl, h)

-- What holds of a chunk that `chunk_body` returns, over the bytes `b` and a stream `st`.
record IsBody (d : ChunkDecoder) (csid : ℕ) (st : StreamState) (b : Bytes) (c : Chunk)
    : Type 0 where
  stream : c.csid ≡ csid
  shorter : length c.rest ≤ length b
  balance :
      length st.partial ≤ d.pending
      → c.pending + length st.partial ≡ d.pending + length c.bytes + length c.before.partial
  within : c.pending ≤ max_pending_bytes
  fits : length c.bytes ≤ c.before.length - length c.before.partial
  going : c.before.in_progress ≡ true

chunk_body-IsBody :
    (d : ChunkDecoder) (csid : ℕ) (continuation : Bool) (st before : StreamState) (len : ℕ)
    (x : Extension) {c : Chunk}
    → chunk_body d csid continuation st before len x ≡ go c
    → before.length ≡ len
    → length before.partial ≡ (if continuation then length st.partial else 0)
    → before.in_progress ≡ true
    → IsBody d csid st x.rest c
unfolding chunk_body
chunk_body-IsBody d csid true st before len x h e1 e2 e3 =
    let wanted = min (len - length st.partial) d.chunk_size in
    let ((bytes, rest), e, h') = bind-go (slice wanted x.rest) _ h in
    ground (arith, slice-lengths wanted x.rest e, h')
chunk_body-IsBody d csid false st before len x h e1 e2 e3 =
    let wanted = min (len - 0) d.chunk_size in
    let ((bytes, rest), e, h') = bind-go (slice wanted x.rest) _ h in
    ground (arith, slice-lengths wanted x.rest e, h')

-- A message goes on where it is in progress, and only a header of format 3 goes on with one.
chunk_on-IsBody :
    (d : ChunkDecoder) (fmt csid : ℕ) (f : Fields) (continuation : Bool) (st : StreamState)
    (b : Bytes) {c : Chunk}
    → chunk_on d fmt csid f continuation st b ≡ go c
    → (continuation ≡ true → (st.in_progress ≡ true) × (st.length ≡ f.length))
    → IsBody d csid st b c
unfolding chunk_on start_of started
chunk_on-IsBody d fmt csid f true st b h k =
    let (x, e, h') = bind-go (extension d.repeats_extended fmt true st f.ts_field b) _ h in
    let body = chunk_body-IsBody d csid true st st f.length x h' (k refl).1 refl (k refl).0 in
    ground (arith, extension-shortens d.repeats_extended fmt true st f.ts_field b e, body)
chunk_on-IsBody d fmt csid f false st b h k =
    let max = max_len f.type_id d in
    let refusal = refuse_if (ltb max f.length) (message_too_large f.type_id f.length max) in
    let (passed, e, h') = bind-go refusal _ h in
    let (x, e', h'') = bind-go (extension d.repeats_extended fmt false st f.ts_field b) _ h' in
    let body =
      chunk_body-IsBody d csid false st (started fmt f x st) f.length x h'' refl refl refl in
    ground (arith, extension-shortens d.repeats_extended fmt false st f.ts_field b e', body)

pub fields_continued :
    (fmt : ℕ) (h : Bytes) (st : StreamState)
    → (fmt == 3 && st.in_progress) ≡ true
    → (st.in_progress ≡ true) × (st.length ≡ (fields fmt h st).length)
unfolding fields
fields_continued fmt h st e = ground arith

abbrev pub has_room : Option StreamState → ChunkDecoder → Bool
has_room found d = not (not (is_some found) && leb max_chunk_streams (length d.streams))

chunk_of-IsBody :
    (d : ChunkDecoder) (fmt csid : ℕ) (found : Option StreamState) (h b : Bytes) {c : Chunk}
    → chunk_of d fmt csid found h b ≡ go c
    → (has_room found d ≡ true) × IsBody d csid (or_default found) b c
unfolding chunk_of
chunk_of-IsBody d fmt csid found h b e =
    let st = or_default found in
    let unknown = refuse_if (not (fmt == 0) && not st.has_header) (missing_header csid) in
    let (passed, e1, h1) = bind-go unknown _ e in
    let full = not (is_some found) && leb max_chunk_streams (length d.streams) in
    let (passed', e2, h2) = bind-go (refuse_if full too_many_streams) _ h1 in
    (
      ground (arith, e2),
      chunk_on-IsBody d fmt csid (fields fmt h st) (fmt == 3 && st.in_progress) st b h2
          (fields_continued fmt h st),
    )

-- What `read_chunk` guarantees of its chunk: it takes a byte at least; its stream is known or there is
-- room for it; `pending` counts its bytes and no longer those of a message it drops, and stays within
-- its limit; and it brings no more than its message still lacks.
abbrev pub held : ℕ → ChunkDecoder → ℕ
held csid d = length (or_default (lookup csid d.streams)).partial

pub record IsTaken (d : ChunkDecoder) (c : Chunk) : Type 0 where
  pub shorter : length c.rest < length d.buf
  pub room : has_room (lookup c.csid d.streams) d ≡ true
  pub balance :
      held c.csid d ≤ d.pending
      → c.pending + held c.csid d ≡ d.pending + length c.bytes + length c.before.partial
  pub within : c.pending ≤ max_pending_bytes
  pub fits : length c.bytes ≤ c.before.length - length c.before.partial
  pub going : c.before.in_progress ≡ true

pub read_chunk-IsTaken : (d : ChunkDecoder) {c : Chunk} → read_chunk d ≡ go c → IsTaken d c
unfolding read_chunk
read_chunk-IsTaken d {c} h =
    let ((fmt, csid, b), e1, h1) = bind-go (basic_header d.buf) _ h in
    let ((hd, b'), e2, h2) = bind-go (slice (header_len fmt) b) _ h1 in
    let (room, body) = chunk_of-IsBody d fmt csid (lookup csid d.streams) hd b' h2 in
    record {
      shorter =
          ground (arith, basic_header-shortens d.buf e1, slice-lengths (header_len fmt) b e2, body);
      room = rw (body.stream) room;
      balance = rw (body.stream) (body.balance);
      within = body.within;
      fits = body.fits;
      going = body.going;
    }

-- The loop of `next_message` ends: with more fuel than the buffer has bytes, it never runs out.
commit_buf : (c : Chunk) (d : ChunkDecoder) → (commit c d).1.buf ≡ c.rest
unfolding commit
commit_buf c d = ground arith

pub next_chunk-shortens :
    (d : ChunkDecoder) {r : ChunkResult} {d' : ChunkDecoder}
    → next_chunk d ≡ go (r, d')
    → length d'.buf < length d.buf
unfolding next_chunk
next_chunk-shortens d {r} {d'} h =
    let (c, e, h') = bind-go (read_chunk d) _ h in
    let taken = read_chunk-IsTaken d e in ground (arith, commit_buf c d, taken, h')

pub messages-ne-stuck :
    (fuel : ℕ) (d : ChunkDecoder) → length d.buf < fuel → messages fuel d ≢ stuck
unfolding messages
messages-ne-stuck zero d lt = absurd (omega arith)
messages-ne-stuck (suc fuel) d lt = after (messages-ne-stuck fuel) (next_chunk d) refl
  where
    after :
        ((d' : ChunkDecoder) → length d'.buf < fuel → messages fuel d' ≢ stuck)
        → (s : Step (ChunkResult × ChunkDecoder)) → next_chunk d ≡ s
        → messages (suc fuel) d ≢ stuck
    after later need_more e = rw (e, messages) cc
    after later (fail err) e = rw (e, messages) cc
    after later (go (ChunkResult.partial, d')) e =
        rw (e, messages) (later d' (omega (arith, next_chunk-shortens d e)))
    after later (go (ChunkResult.complete m, d')) e = rw (e, messages) cc

-- The loop of `next_message` ends on every buffer: with one round more than the buffer has bytes, it
-- returns a message, an error or that it needs more.
pub next_message-ends : (d : ChunkDecoder) → next_message d ≢ stuck
unfolding next_message
next_message-ends d = messages-ne-stuck (suc (length d.buf)) d (omega arith)
