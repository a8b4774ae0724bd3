-- ===== src/Rtmp/Chunk/Sound.antt =====
-- crates/rtmp/src/chunk.rs, `ChunkDecoder`: what holds of a decoder between any two calls, whatever
-- bytes the peer sends.
use stream_delay.Base.{
  ℕ, suc, ◌+◌, ◌≤◌, Bool, true, [], ◌∷◌, ltb, leb, ◌==◌, if◌then◌else◌, is_some, length, all,
  sum_of, ◌≡◌, refl, arith, length-append, Bool-cases, Option-cases, inl, inr, ◌++◌, subst, zero,
}
use stream_delay.Flv.{Bytes}
use stream_delay.Rtmp.Chunk.{
  Message, ChunkError, StreamState, ChunkDecoder, Streams, lookup, insert, or_default, new_decoder,
  push_bytes, set_chunk_size, set_max_message_len, abort, aborted, max_chunk_size,
  max_chunk_streams, max_pending_bytes,
}
use stream_delay.Rtmp.Chunk.Decode.{
  Step, need_more, fail, go, Chunk, filled, emptied, read_chunk, commit, ChunkResult, next_chunk,
  Received, stuck, waiting, failed, received, messages, next_message,
}
use stream_delay.Rtmp.Chunk.Taken.{bind-go, IsTaken, held, has_room, read_chunk-IsTaken}

-- The bytes that a stream holds of its unfinished message, and that they are fewer than it declared.
abbrev pub partial_len : ℕ × StreamState → ℕ
partial_len (k, st) = length st.partial

abbrev pub is_unfinished : StreamState → Bool
is_unfinished st =
    if st.in_progress then ltb (length st.partial) st.length else length st.partial == 0

abbrev pub entry_unfinished : ℕ × StreamState → Bool
entry_unfinished (k, st) = is_unfinished st

sum_of-insert :
    (k : ℕ) (st : StreamState) (ss : Streams)
    → sum_of partial_len (insert k st ss) + length (or_default (lookup k ss)).partial
      ≡ sum_of partial_len ss + length st.partial
unfolding lookup insert
sum_of-insert k st [] = ground arith
sum_of-insert k st ((i, s) ∷ ss) = ground (arith, sum_of-insert k st ss)

length-insert :
    (k : ℕ) (st : StreamState) (ss : Streams)
    → length (insert k st ss) ≡ (if is_some (lookup k ss) then length ss else suc (length ss))
unfolding lookup insert
length-insert k st [] = ground arith
length-insert k st ((i, s) ∷ ss) = ground (arith, length-insert k st ss)

all-insert :
    (k : ℕ) (st : StreamState) (ss : Streams)
    → is_unfinished st ≡ true
    → all entry_unfinished ss ≡ true
    → all entry_unfinished (insert k st ss) ≡ true
unfolding insert
all-insert k st [] h hs = ground arith
all-insert k st ((i, s) ∷ ss) h hs = ground (arith, all-insert k st ss)

lookup-unfinished :
    (k : ℕ) (ss : Streams)
    → all entry_unfinished ss ≡ true
    → is_unfinished (or_default (lookup k ss)) ≡ true
unfolding lookup
lookup-unfinished k [] h = refl
lookup-unfinished k ((i, s) ∷ ss) h = ground (arith, lookup-unfinished k ss)

held-le-sum :
    (k : ℕ) (ss : Streams) → length (or_default (lookup k ss)).partial ≤ sum_of partial_len ss
unfolding lookup
held-le-sum k [] = ground arith
held-le-sum k ((i, s) ∷ ss) = ground (arith, held-le-sum k ss)

-- `pending` is what the streams hold; it, the streams and the chunk size are within their limits; and
-- a message in progress is still shorter than declared, while a stream without one holds nothing.
pub record IsSound (d : ChunkDecoder) : Type 0 where
  pub counted : d.pending ≡ sum_of partial_len d.streams
  pub within : d.pending ≤ max_pending_bytes
  pub few : length d.streams ≤ max_chunk_streams
  pub unfinished : all entry_unfinished d.streams ≡ true
  pub positive : 1 ≤ d.chunk_size
  pub sized : d.chunk_size ≤ max_chunk_size

-- A stream put back with `n` bytes fewer or more than it had.
put_back-IsSound :
    (d d' : ChunkDecoder) (k : ℕ) (st : StreamState)
    → IsSound d
    → d'.streams ≡ insert k st d.streams
    → d'.chunk_size ≡ d.chunk_size
    → d'.pending + held k d ≡ d.pending + length st.partial
    → d'.pending ≤ max_pending_bytes
    → is_unfinished st ≡ true
    → has_room (lookup k d.streams) d ≡ true
    → IsSound d'
put_back-IsSound d d' k st s e1 e2 e3 w u r = record {
  counted = rw e1 (omega (arith, sum_of-insert k st d.streams, s.counted));
  within = w;
  few = rw e1 (ground (arith, length-insert k st d.streams, s.few));
  unfinished = rw e1 (all-insert k st d.streams u (s.unfinished));
  positive = rw e2 (s.positive);
  sized = rw e2 (s.sized);
}

commit-IsSound : (d : ChunkDecoder) (c : Chunk) → IsSound d → IsTaken d c → IsSound (commit c d).1
unfolding commit filled emptied
commit-IsSound d c s t =
    let st = filled c.before c.bytes in
    let small = held-le-sum c.csid d.streams in
    let sizes = length-append c.before.partial c.bytes in
    elim (Bool-cases (leb c.before.length (length (c.before.partial ++ c.bytes)))) [
      | inl done ↦ rw done (
          put_back-IsSound d _ c.csid (emptied st) s refl refl (ground arith) (ground arith) refl
            (t.room))
      | inr more ↦ rw more (
          put_back-IsSound d _ c.csid st s refl refl (ground arith) (t.within) (ground arith)
            (t.room))
    ]

pub next_chunk-IsSound :
    (d : ChunkDecoder) {r : ChunkResult} {d' : ChunkDecoder}
    → next_chunk d ≡ go (r, d')
    → IsSound d
    → IsSound d'
unfolding next_chunk
next_chunk-IsSound d {r = r} {d' = d'} h s =
    let (c, e, h') = bind-go (read_chunk d) _ h in
    let same : commit c d ≡ (r, d') = cc in
    subst (λ p. IsSound p.1) same (commit-IsSound d c s (read_chunk-IsTaken d e))

-- What `next_message` leaves is sound, whatever it returns.
abbrev pub Leaves : (ChunkDecoder → Type 0) → Received → Type 0
Leaves P stuck = Unit
Leaves P (waiting d) = P d
Leaves P (failed e d) = P d
Leaves P (received m d) = P d

messages-IsSound : (fuel : ℕ) (d : ChunkDecoder) → IsSound d → Leaves IsSound (messages fuel d)
unfolding messages
messages-IsSound zero d s = tt
messages-IsSound (suc fuel) d s = after (messages-IsSound fuel) (next_chunk d) refl
  where
    after :
        ((d' : ChunkDecoder) → IsSound d' → Leaves IsSound (messages fuel d'))
        → (r : Step (ChunkResult × ChunkDecoder)) → next_chunk d ≡ r
        → Leaves IsSound (messages (suc fuel) d)
    after later need_more e = rw (e, messages) s
    after later (fail err) e = rw (e, messages) s
    after later (go (ChunkResult.partial, d')) e =
        rw (e, messages) (later d' (next_chunk-IsSound d e s))
    after later (go (ChunkResult.complete m, d')) e = rw (e, messages) (next_chunk-IsSound d e s)

abort-IsSound : (csid : ℕ) (d : ChunkDecoder) → IsSound d → IsSound (abort csid d)
unfolding abort
abort-IsSound csid d s = elim (Option-cases (lookup csid d.streams)) [
  | inl missing ↦ rw (missing, abort) s
  | inr found ↦
      rw (found.1, abort)
        (put_back-IsSound d _ csid (aborted found.0) s refl refl
          (ground (arith, held-le-sum csid d.streams, found.1)) (omega (arith, s.within)) refl
          (rw (found.1) refl))
]

set_chunk_size-IsSound :
    (size : ℕ) (d : ChunkDecoder) → IsSound d → IsSound (set_chunk_size size d).1
unfolding set_chunk_size
set_chunk_size-IsSound size d s = ground arith

-- The decoders that a connection can have: a new one, after any calls of its operations, with any
-- bytes.
pub data IsFed : ChunkDecoder → Type 0 where
  new : IsFed new_decoder
  pushed : {d : ChunkDecoder} (bytes : Bytes) → IsFed d → IsFed (push_bytes bytes d)
  resized : {d : ChunkDecoder} (size : ℕ) → IsFed d → IsFed (set_chunk_size size d).1
  limited :
      {d : ChunkDecoder} (media other : ℕ) → IsFed d → IsFed (set_max_message_len media other d)
  aborted_at : {d : ChunkDecoder} (csid : ℕ) → IsFed d → IsFed (abort csid d)
  waited : {d d' : ChunkDecoder} → IsFed d → next_message d ≡ waiting d' → IsFed d'
  stopped :
      {d d' : ChunkDecoder} (e : ChunkError) → IsFed d → next_message d ≡ failed e d' → IsFed d'
  pulled : {d d' : ChunkDecoder} (m : Message) → IsFed d → next_message d ≡ received m d' → IsFed d'

next_message-IsSound : (d : ChunkDecoder) → IsSound d → Leaves IsSound (next_message d)
unfolding next_message
next_message-IsSound d s = messages-IsSound (suc (length d.buf)) d s

-- Whatever a peer sends, and whatever the caller does between: `pending` is the number of bytes held
-- in unfinished messages and at most 64 MiB, at most 64 chunk streams are kept, every message in
-- progress is still shorter than its header declared, and the chunk size stays between 1 and 2^24.
pub IsFed-IsSound : {d : ChunkDecoder} → IsFed d → IsSound d
IsFed-IsSound new = record {
  counted = refl;
  within = omega arith;
  few = omega arith;
  unfinished = refl;
  positive = omega arith;
  sized = omega arith;
}
IsFed-IsSound (pushed bytes f) = let s = IsFed-IsSound f in ground arith
IsFed-IsSound (resized {d} size f) = set_chunk_size-IsSound size d (IsFed-IsSound f)
IsFed-IsSound (limited media other f) = let s = IsFed-IsSound f in ground arith
IsFed-IsSound (aborted_at {d} csid f) = abort-IsSound csid d (IsFed-IsSound f)
IsFed-IsSound (waited {d} f e) = subst (Leaves IsSound) e (next_message-IsSound d (IsFed-IsSound f))
IsFed-IsSound (stopped {d} err f e) =
    subst (Leaves IsSound) e (next_message-IsSound d (IsFed-IsSound f))
IsFed-IsSound (pulled {d} m f e) =
    subst (Leaves IsSound) e (next_message-IsSound d (IsFed-IsSound f))
