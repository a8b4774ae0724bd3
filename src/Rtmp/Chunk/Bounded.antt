-- ===== src/Rtmp/Chunk/Bounded.antt =====
-- crates/rtmp/src/chunk.rs, `next_chunk`: the length of messages under the limits of
-- `set_max_message_len`.
use stream_delay.Base.{
  ℕ, zero, suc, ◌-◌, min, ◌≤◌, Bool, true, false, not, ◌&&◌, ◌||◌, Option, [], ◌∷◌, ◌++◌, ltb, leb,
  ◌==◌, is_some, all, length, ◌≡◌, refl, arith, length-append, subst, Bool-cases, Option-cases, inl,
  inr,
}
use stream_delay.Flv.{Bytes}
use stream_delay.Rtmp.Chunk.{
  missing_header, too_many_streams, message_too_large, StreamState, ChunkDecoder, Streams, Message,
  lookup, insert, or_default, max_chunk_streams, abort, aborted, set_chunk_size,
}
use stream_delay.Rtmp.Chunk.Decode.{
  Step, need_more, fail, go, refuse_if, slice, basic_header, header_len, Fields, fields, max_len,
  Extension, extension, start_of, started, Chunk, chunk_body, chunk_on, chunk_of, read_chunk,
  filled, emptied, commit, ChunkResult, next_chunk, Received, received, messages, next_message,
}
use stream_delay.Rtmp.Chunk.Taken.{bind-go, fields_continued, IsTaken, read_chunk-IsTaken}

-- A stream that holds at most `n` bytes, of a message of at most `n` if one is in progress.
abbrev pub is_small : ℕ → StreamState → Bool
is_small n st = leb (length st.partial) n && (not st.in_progress || leb st.length n)

abbrev pub entry_small : ℕ → ℕ × StreamState → Bool
entry_small n (k, st) = is_small n st

-- The limits are at most `n`, and so is what is in progress.
pub record IsBounded (n : ℕ) (d : ChunkDecoder) : Type 0 where
  pub media : d.max_media_len ≤ n
  pub other : d.max_other_len ≤ n
  pub small : all (entry_small n) d.streams ≡ true

lookup-small :
    (n k : ℕ) (ss : Streams)
    → all (entry_small n) ss ≡ true
    → is_small n (or_default (lookup k ss)) ≡ true
unfolding lookup
lookup-small n k [] h = ground arith
lookup-small n k ((i, s) ∷ ss) h = ground (arith, lookup-small n k ss)

pub insert-small :
    (n k : ℕ) (st : StreamState) (ss : Streams)
    → is_small n st ≡ true
    → all (entry_small n) ss ≡ true
    → all (entry_small n) (insert k st ss) ≡ true
unfolding insert
insert-small n k st [] h hs = ground arith
insert-small n k st ((i, s) ∷ ss) h hs = ground (arith, insert-small n k st ss)

max_len-le : (n t : ℕ) (d : ChunkDecoder) → IsBounded n d → max_len t d ≤ n
unfolding max_len
max_len-le n t d b = ground (arith, b.media, b.other)

chunk_body-before :
    (d : ChunkDecoder) (csid : ℕ) (continuation : Bool) (st before : StreamState) (len : ℕ)
    (x : Extension) {c : Chunk}
    → chunk_body d csid continuation st before len x ≡ go c
    → c.before ≡ before
unfolding chunk_body
chunk_body-before d csid true st before len x h =
    let wanted = min (len - length st.partial) d.chunk_size in
    let ((bytes, rest), e, h') = bind-go (slice wanted x.rest) _ h in ground (arith, h')
chunk_body-before d csid false st before len x h =
    let wanted = min (len - 0) d.chunk_size in
    let ((bytes, rest), e, h') = bind-go (slice wanted x.rest) _ h in ground (arith, h')

-- The message that a chunk belongs to, before its bytes.
abbrev IsFitting : ℕ → Chunk → Type 0
IsFitting n c = (c.before.length ≤ n) × (length c.before.partial ≤ n)

chunk_on-IsFitting :
    (n : ℕ) (d : ChunkDecoder) (fmt csid : ℕ) (f : Fields) (continuation : Bool) (st : StreamState)
    (b : Bytes) {c : Chunk}
    → chunk_on d fmt csid f continuation st b ≡ go c
    → (continuation ≡ true → st.in_progress ≡ true)
    → is_small n st ≡ true
    → IsBounded n d
    → IsFitting n c
unfolding chunk_on start_of started
chunk_on-IsFitting n d fmt csid f true st b h k small bound =
    let (x, e, h') = bind-go (extension d.repeats_extended fmt true st f.ts_field b) _ h in
    let same = chunk_body-before d csid true st st f.length x h' in
    let going = k refl in ground arith
chunk_on-IsFitting n d fmt csid f false st b h k small bound =
    let max = max_len f.type_id d in
    let refusal = refuse_if (ltb max f.length) (message_too_large f.type_id f.length max) in
    let (passed, e, h') = bind-go refusal _ h in
    let (x, e', h'') = bind-go (extension d.repeats_extended fmt false st f.ts_field b) _ h' in
    let same = chunk_body-before d csid false st (started fmt f x st) f.length x h'' in
    let le = max_len-le n f.type_id d bound in ground arith

chunk_of-IsFitting :
    (n : ℕ) (d : ChunkDecoder) (fmt csid : ℕ) (found : Option StreamState) (h b : Bytes) {c : Chunk}
    → chunk_of d fmt csid found h b ≡ go c
    → is_small n (or_default found) ≡ true
    → IsBounded n d
    → IsFitting n c
unfolding chunk_of
chunk_of-IsFitting n d fmt csid found h b e small bound =
    let st = or_default found in
    let unknown = refuse_if (not (fmt == 0) && not st.has_header) (missing_header csid) in
    let (passed, e1, h1) = bind-go unknown _ e in
    let full = not (is_some found) && leb max_chunk_streams (length d.streams) in
    let (passed', e2, h2) = bind-go (refuse_if full too_many_streams) _ h1 in
    chunk_on-IsFitting n d fmt csid (fields fmt h st) (fmt == 3 && st.in_progress) st b h2
      (λ q. (fields_continued fmt h st q).0) small bound

read_chunk-IsFitting :
    (n : ℕ) (d : ChunkDecoder) {c : Chunk} → read_chunk d ≡ go c → IsBounded n d → IsFitting n c
unfolding read_chunk
read_chunk-IsFitting n d {c} h bound =
    let ((fmt, csid, b), e1, h1) = bind-go (basic_header d.buf) _ h in
    let ((hd, b'), e2, h2) = bind-go (slice (header_len fmt) b) _ h1 in
    chunk_of-IsFitting n d fmt csid (lookup csid d.streams) hd b' h2
      (lookup-small n csid d.streams bound.small) bound

-- What a chunk delivers is at most `n` bytes long.
abbrev pub is_short : ℕ → ChunkResult → Bool
is_short n ChunkResult.partial = true
is_short n (ChunkResult.complete m) = leb (length m.payload) n

commit-IsBounded :
    (n : ℕ) (c : Chunk) (d : ChunkDecoder)
    → IsFitting n c
    → IsTaken d c
    → IsBounded n d
    → (is_short n (commit c d).0 ≡ true) × IsBounded n (commit c d).1
unfolding commit filled emptied
commit-IsBounded n c d (len, part) t bound =
    let st = filled c.before c.bytes in
    let sizes = length-append c.before.partial c.bytes in
    let fits = t.fits in
    elim (Bool-cases (leb c.before.length (length (c.before.partial ++ c.bytes)))) [
      | inl done ↦ rw done (
        ground arith,
        record {
          media = bound.media;
          other = bound.other;
          small = insert-small n c.csid (emptied st) d.streams (ground arith) bound.small;
        },
      )
      | inr more ↦ rw more (
        refl,
        record {
          media = bound.media;
          other = bound.other;
          small = insert-small n c.csid st d.streams (ground arith) bound.small;
        },
      )
    ]

pub next_chunk-IsBounded :
    (n : ℕ) (d : ChunkDecoder) {r : ChunkResult} {d' : ChunkDecoder}
    → next_chunk d ≡ go (r, d')
    → IsBounded n d
    → (is_short n r ≡ true) × IsBounded n d'
unfolding next_chunk
next_chunk-IsBounded n d {r} {d'} h bound =
    let (c, e, h') = bind-go (read_chunk d) _ h in
    let same : commit c d ≡ (r, d') = cc in
    subst (λ p. (is_short n p.0 ≡ true) × IsBounded n p.1) same
      (commit-IsBounded n c d (read_chunk-IsFitting n d e bound) (read_chunk-IsTaken d e) bound)

abort-small :
    (n csid : ℕ) (d : ChunkDecoder)
    → all (entry_small n) d.streams ≡ true
    → all (entry_small n) (abort csid d).streams ≡ true
unfolding abort
abort-small n csid d h = elim (Option-cases (lookup csid d.streams)) [
  | inl missing ↦ rw (missing, abort) h
  | inr found ↦
      rw (found.1, abort) (insert-small n csid (aborted found.0) d.streams (ground arith) h)
]

pub abort-IsBounded : (n csid : ℕ) (d : ChunkDecoder) → IsBounded n d → IsBounded n (abort csid d)
unfolding abort
abort-IsBounded n csid d h =
    let small = abort-small n csid d h.small in
    record { media = ground (arith, h.media); other = ground (arith, h.other); small = small }

pub set_chunk_size-IsBounded :
    (n size : ℕ) (d : ChunkDecoder) → IsBounded n d → IsBounded n (set_chunk_size size d).1
unfolding set_chunk_size
set_chunk_size-IsBounded n size d h = ground arith

-- What `next_message` returns is at most `n` bytes long.
abbrev IsShort : ℕ → Received → Type 0
IsShort n (received m d) = length m.payload ≤ n
IsShort n _ = Unit

messages-IsShort : (n fuel : ℕ) (d : ChunkDecoder) → IsBounded n d → IsShort n (messages fuel d)
unfolding messages
messages-IsShort n zero d bound = tt
messages-IsShort n (suc fuel) d bound = after (messages-IsShort n fuel) (next_chunk d) refl
  where
    after :
        ((e : ChunkDecoder) → IsBounded n e → IsShort n (messages fuel e))
        → (s : Step (ChunkResult × ChunkDecoder)) → next_chunk d ≡ s
        → IsShort n (messages (suc fuel) d)
    after later need_more e = rw (e, messages) tt
    after later (fail x) e = rw (e, messages) tt
    after later (go (ChunkResult.partial, d')) e =
        rw (e, messages) (later d' (next_chunk-IsBounded n d e bound).1)
    after later (go (ChunkResult.complete m, d')) e =
        rw (e, messages) (let short = (next_chunk-IsBounded n d e bound).0 in ground (arith, short))

pub next_message-IsShort :
    (n : ℕ) (d : ChunkDecoder) {m : Message} {d' : ChunkDecoder}
    → next_message d ≡ received m d'
    → IsBounded n d
    → length m.payload ≤ n
unfolding next_message
next_message-IsShort n d h bound =
    subst (IsShort n) h (messages-IsShort n (suc (length d.buf)) d bound)
