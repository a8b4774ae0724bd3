-- ===== src/Rtmp/Chunk/Delivery.antt =====
-- crates/rtmp/src/chunk.rs: the message that the decoder delivers with its last chunk.
use stream_delay.Base.{
  ℕ, zero, suc, ◌+◌, ◌-◌, ◌≤◌, ◌<◌, Bool, true, false, Option, none, some, [], ◌∷◌, ◌++◌, leb, take,
  drop, length, ◌≡◌, ◌≢◌, refl, arith, length-append, is_some, or_else,
}
use stream_delay.Flv.{Bytes}
use stream_delay.Rtmp.Chunk.{Message, StreamState, ChunkDecoder, Streams, lookup, insert}
use stream_delay.Rtmp.Chunk.Decode.{
  go, message_of, filled, emptied, Chunk, read_chunk, commit, ChunkResult, next_chunk, Received,
  received, messages,
}
use stream_delay.Rtmp.Chunk.Encode.{chunks}

pub lookup-insert : (k : ℕ) (st : StreamState) (ss : Streams) → lookup k (insert k st ss) ≡ some st
unfolding lookup insert
lookup-insert k st [] = ground arith
lookup-insert k st ((i, s) ∷ ss) = ground (arith, lookup-insert k st ss)

pub chunks_step :
    (k n : ℕ) (p : Bytes) → 1 ≤ length p → chunks (suc k) n p ≡ take n p ∷ chunks k n (drop n p)
unfolding chunks
chunks_step k n [] h = absurd (omega arith)
chunks_step k n (b ∷ p) h = refl

pub chunks_done : (k n : ℕ) (p : Bytes) → length p ≤ 0 → chunks k n p ≡ []
unfolding chunks
chunks_done zero n p h = refl
chunks_done (suc k) n [] h = refl
chunks_done (suc k) n (b ∷ p) h = absurd (omega arith)

pub drop_all : (n : ℕ) (p : Bytes) → length p ≤ n → drop n p ≡ []
drop_all zero [] h = refl
drop_all zero (b ∷ p) h = absurd (omega arith)
drop_all (suc n) [] h = refl
drop_all (suc n) (b ∷ p) h = drop_all n p (omega arith)

-- `res` is the message `m`, and the decoder is left with the bytes `r`, ready for the next message.
pub record Delivers (d : ChunkDecoder) (kept : ℕ) (m : Message) (r : Bytes) (res : Received)
    : Type 0 where
  pub after : ChunkDecoder
  pub result : res ≡ received m after
  pub buf : after.buf ≡ r
  pub chunk_size : after.chunk_size ≡ d.chunk_size
  pub max_media_len : after.max_media_len ≡ d.max_media_len
  pub max_other_len : after.max_other_len ≡ d.max_other_len
  pub repeats : after.repeats_extended ≢ some false
  pub pending : after.pending ≤ d.pending - kept
  pub known : is_some (lookup m.csid after.streams) ≡ true

pub or_else_true : (l m : Option Bool) → l ≢ some false → m ≢ some false → or_else l m ≢ some false
or_else_true none m h k = k
or_else_true (some b) m h k = h

-- The decoder after a chunk that leaves its stream in the state `st`.
abbrev pub after_chunk : ChunkDecoder → Chunk → StreamState → ℕ → ChunkDecoder
after_chunk d c st pending = record d {
  buf = c.rest;
  repeats_extended = or_else c.learned d.repeats_extended;
  pending = pending;
  streams = insert c.csid st d.streams;
}

-- A chunk that completes its message, and one that does not.
commit_complete :
    (d : ChunkDecoder) (c : Chunk)
    → c.before.length ≤ length c.before.partial + length c.bytes
    → commit c d ≡ (
      ChunkResult.complete (message_of c.csid (filled c.before c.bytes)),
      after_chunk d c
          (emptied (filled c.before c.bytes))
          (c.pending - length (c.before.partial ++ c.bytes)),
    )
unfolding commit filled
commit_complete d c full =
    let sizes = length-append c.before.partial c.bytes in
    let done : leb c.before.length (length (c.before.partial ++ c.bytes)) ≡ true = ground arith in
    rw done refl

commit_partial :
    (d : ChunkDecoder) (c : Chunk)
    → length c.before.partial + length c.bytes < c.before.length
    → commit c d ≡ (ChunkResult.partial, after_chunk d c (filled c.before c.bytes) c.pending)
unfolding commit filled
commit_partial d c short =
    let sizes = length-append c.before.partial c.bytes in
    let more : leb c.before.length (length (c.before.partial ++ c.bytes)) ≡ false = ground arith in
    rw more refl

pub messages_complete :
    (f : ℕ) (d : ChunkDecoder) (c : Chunk)
    → read_chunk d ≡ go c
    → c.before.length ≤ length c.before.partial + length c.bytes
    → messages (suc f) d
      ≡ received (message_of c.csid (filled c.before c.bytes)) (
          after_chunk d c
            (emptied (filled c.before c.bytes))
            (c.pending - length (c.before.partial ++ c.bytes)))
unfolding messages next_chunk
messages_complete f d c e full = rw (e, commit_complete d c full, messages) refl

pub messages_partial :
    (f : ℕ) (d : ChunkDecoder) (c : Chunk)
    → read_chunk d ≡ go c
    → length c.before.partial + length c.bytes < c.before.length
    → messages (suc f) d ≡ messages f (after_chunk d c (filled c.before c.bytes) c.pending)
unfolding messages next_chunk
messages_partial f d c e short = rw (e, commit_partial d c short, messages) refl

pub delivered :
    (f : ℕ) (d : ChunkDecoder) (c : Chunk) (kept : ℕ)
    → read_chunk d ≡ go c
    → c.before.length ≤ length c.before.partial + length c.bytes
    → d.repeats_extended ≢ some false
    → c.learned ≢ some false
    → c.pending ≤ d.pending - kept + (length c.before.partial + length c.bytes)
    → Delivers d kept (message_of c.csid (filled c.before c.bytes)) c.rest (messages (suc f) d)
delivered f d c kept e full h k w = record {
  after = _;
  result = messages_complete f d c e full;
  buf = refl;
  chunk_size = refl;
  max_media_len = refl;
  max_other_len = refl;
  repeats = or_else_true c.learned d.repeats_extended k h;
  pending = omega (arith, w, length-append c.before.partial c.bytes);
  known = rw (lookup-insert c.csid (emptied (filled c.before c.bytes)) d.streams) refl;
}
