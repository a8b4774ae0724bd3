-- ===== src/Rtmp/Chunk/RoundTrip.antt =====
-- crates/rtmp/src/chunk.rs: reading a message that the encoder wrote.
use stream_delay.Base.{
  ℕ, zero, suc, ◌+◌, ◌-◌, ◌≤◌, none, [], ◌∷◌, ◌++◌, take, drop, length, ◌≡◌, refl, ◌∙◌, subst,
  arith, length-append, append_assoc, inl, inr, length-take, take-append-drop,
}
use stream_delay.Flv.{Bytes}
use stream_delay.Rtmp.Wire.{length-drop}
use stream_delay.Rtmp.Chunk.{Message, StreamState, ChunkDecoder, lookup, or_default}
use stream_delay.Rtmp.Chunk.Decode.{filled, Chunk, messages, next_message}
use stream_delay.Rtmp.Chunk.Encode.{
  ChunkEncoder, put_basic_header, put_header, put_extended, put_rest, put_chunks, chunks, write,
}
use stream_delay.Rtmp.Chunk.Written.{Accepts, opened, read_chunk_first}
use stream_delay.Rtmp.Chunk.Taken.{held}
use stream_delay.Rtmp.Chunk.Delivery.{
  Delivers, lookup-insert, chunks_step, chunks_done, drop_all, after_chunk, delivered,
  messages_partial,
}
use stream_delay.Rtmp.Chunk.Rest.{
  le_or_lt, IsLeft, take_all, no_rest, grown, rest_delivered, Delivers-before,
}

-- The chunks hold their payload at least.
length-put_rest :
    (csid ts k n : ℕ) (p : Bytes)
    → 1 ≤ n
    → length p ≤ k
    → length p ≤ length (put_rest csid ts (chunks k n p))
unfolding put_rest chunks
length-put_rest csid ts zero n p h hk = omega arith
length-put_rest csid ts (suc k) n [] h hk = omega arith
length-put_rest csid ts (suc k) n (b ∷ p) h hk =
    let rest = put_rest csid ts (chunks k n (drop n (b ∷ p))) in
    let head = take n (b ∷ p) in
    omega (
      arith,
      length-put_rest csid ts k n (drop n (b ∷ p)) h (omega (arith, length-drop n (b ∷ p))),
      length-append (put_basic_header 3 csid) (put_extended ts ++ (head ++ rest)),
      length-append (put_extended ts) (head ++ rest),
      length-append head rest,
      length-take n (b ∷ p),
      length-drop n (b ∷ p),
    )

-- The first chunk and the rest.
put_chunks_step :
    (csid ts n : ℕ) (p r : Bytes)
    → 1 ≤ n
    → put_chunks csid ts (chunks (length p) n p) ++ r
      ≡ take n p ++ (put_rest csid ts (chunks (length p - 1) n (drop n p)) ++ r)
unfolding put_chunks put_rest
put_chunks_step csid ts n [] r h =
    let nothing : chunks 0 n [] ≡ [] = chunks_done 0 n [] (omega arith) in
    rw (drop_all n [] (omega arith), take_all n [] (omega arith), nothing) refl
put_chunks_step csid ts n (b ∷ p) r h =
    let less : suc (length p) - 1 ≡ length p = omega arith in
    let rest = chunks (length p) n (drop n (b ∷ p)) in
    rw (less, chunks_step (length p) n (b ∷ p) (omega arith))
      (append_assoc (take n (b ∷ p)) (put_rest csid ts rest) r)

-- The message as it stands in the buffer.
write_parts :
    (e : ChunkEncoder) (m : Message) (r : Bytes) (n : ℕ)
    → e.chunk_size ≡ n
    → 1 ≤ n
    → write e m ++ r
      ≡ put_basic_header 0 m.csid
        ++ (put_header m.timestamp m.type_id m.stream_id (length m.payload)
            ++ (put_extended m.timestamp
                ++ (take n m.payload
                    ++ (put_rest m.csid m.timestamp
                          (chunks (length m.payload - 1) n (drop n m.payload))
                        ++ r))))
unfolding write
write_parts e m r n same h =
    rw (same, ← put_chunks_step m.csid m.timestamp n m.payload r h) (simp append_assoc refl)

-- What the first chunk leaves to be delivered.
abbrev first_chunk : ChunkDecoder → Message → StreamState → Bytes → ℕ → Chunk
first_chunk d m st rest pending = record {
  csid = m.csid;
  before = opened m st;
  bytes = take d.chunk_size m.payload;
  rest = rest;
  pending = pending;
  learned = none;
}

first-IsLeft :
    (d : ChunkDecoder) (m : Message) (st : StreamState) (rest : Bytes) (pending : ℕ)
    → Accepts d m
    → pending ≤ d.pending + length (take d.chunk_size m.payload)
    → let bytes = take d.chunk_size m.payload in
      let st' = grown (opened m st) bytes in
      IsLeft
        (after_chunk d (first_chunk d m st rest pending) st' pending)
        m.csid
        m.timestamp
        st'
        (drop d.chunk_size m.payload)
first-IsLeft d m st rest pending a w =
    let n = d.chunk_size in
    let sizes = length-take n m.payload in
    record {
      lowest = a.lowest;
      highest = a.highest;
      timed = a.timed;
      found = lookup-insert m.csid (grown (opened m st) (take n m.payload)) d.streams;
      going = refl;
      headed = refl;
      marked = refl;
      valued = λ e. rw e refl;
      repeats = a.repeats;
      declared = omega (arith, sizes, length-drop n m.payload);
      fits = omega (arith, sizes, length-drop n m.payload, a.fits, w);
      positive = a.positive;
    }

-- The message is in the buffer, with the bytes `r` behind it.
messages-write :
    (f : ℕ) (e : ChunkEncoder) (d : ChunkDecoder) (m : Message) (r : Bytes)
    → Accepts d m
    → e.chunk_size ≡ d.chunk_size
    → d.buf ≡ write e m ++ r
    → length m.payload ≤ f
    → Delivers d (held m.csid d) m r (messages (suc f) d)
unfolding filled
messages-write f e d m r a same b hf =
    let n = d.chunk_size in
    let p = m.payload in
    let st = or_default (lookup m.csid d.streams) in
    let kept = length st.partial in
    let rest = put_rest m.csid m.timestamp (chunks (length p - 1) n (drop n p)) ++ r in
    let sizes = length-take n p in
    let cut = b ∙ write_parts e m r n same (a.positive) in
    let read = read_chunk_first d m (take n p) rest a cut (omega (arith, sizes)) in
    let c = first_chunk d m st rest (d.pending - kept + length (take n p)) in
    let deliver : Bytes → Bytes → Type 0 =
      λ q rest. Delivers d kept (record m { payload = q }) rest (messages (suc f) d) in
    elim (le_or_lt (length p) n) [
      | inl fits ↦
          let last =
            delivered f d c kept read (omega (arith, sizes)) (a.repeats) (λ x. cc)
              (omega (arith, sizes)) in
          subst (λ q. deliver q r) (take_all n p fits)
            (subst (deliver (take n p)) (no_rest m.csid m.timestamp (length p - 1) n p r fits) last)
      | inr more ↦
          let st' = grown (opened m st) (take n p) in
          let d' = after_chunk d c st' c.pending in
          let sizes' = length-drop n p in
          let ih =
            rest_delivered (length p - 1) f d' m.csid m.timestamp st' (drop n p) r
              (first-IsLeft d m st rest c.pending a (omega arith)) (omega (arith, sizes'))
              (omega (arith, sizes', a.positive)) (omega (arith, sizes')) refl in
          let step = messages_partial f d c read (omega (arith, sizes)) in
          Delivers-before d d' kept (length (take n p)) m r _ _ step refl refl refl (omega arith) (
            subst
              (λ q. Delivers d' (length (take n p)) (record m { payload = q }) r (messages f d'))
              (take-append-drop n p) ih)
    ]

buffer_long :
    (e : ChunkEncoder) (m : Message) (r : Bytes)
    → 1 ≤ e.chunk_size
    → length m.payload ≤ length (write e m ++ r)
buffer_long e m r h =
    let n = e.chunk_size in
    let p = m.payload in
    let basic = put_basic_header 0 m.csid in
    let header = put_header m.timestamp m.type_id m.stream_id (length p) in
    let time = put_extended m.timestamp in
    let rest = put_rest m.csid m.timestamp (chunks (length p - 1) n (drop n p)) in
    let body = take n p ++ (rest ++ r) in
    rw (write_parts e m r n refl h) (
      omega (
        arith,
        length-append basic (header ++ (time ++ body)),
        length-append header (time ++ body),
        length-append time body,
        length-append (take n p) (rest ++ r),
        length-append rest r,
        length-take n p,
        length-drop n p,
        length-put_rest m.csid m.timestamp (length p - 1) n (drop n p) h
            (omega (arith, length-drop n p)),
      ))

-- `next_message` returns the message `m`, in full and with its fields, from a buffer that starts with
-- what `write` made of it, for every chunk size and every payload below 2^24 bytes, where the two
-- chunk sizes are the same, the decoder has room for the message's stream, bytes and length, and the
-- peer has not shown that it leaves out repeated extended timestamps. What follows the message stays
-- in the buffer, and the decoder's other limits and its readiness stay as they were.
pub next_message-write :
    (e : ChunkEncoder) (d : ChunkDecoder) (m : Message) (r : Bytes)
    → Accepts d m
    → e.chunk_size ≡ d.chunk_size
    → d.buf ≡ write e m ++ r
    → Delivers d (held m.csid d) m r (next_message d)
unfolding next_message
next_message-write e d m r a same b =
    let long = buffer_long e m r (omega (arith, a.positive)) in
    let enough : length m.payload ≤ length d.buf = rw b long in
    messages-write (length d.buf) e d m r a same b enough
