-- ===== src/Rtmp/Chunk/Feeding.antt =====
-- crates/rtmp/src/chunk.rs: a decoder whose bytes arrive in pieces.
use stream_delay.Base.{
  ℕ, zero, suc, ◌%◌, ◌<◌, Bool, true, false, Option, none, some, [], ◌∷◌, ◌++◌, leb, ◌==◌, length,
  ◌≡◌, ◌≢◌, refl, sym, ap, ◌∙◌, arith, length-append, not, ◌&&◌, is_some,
}
use stream_delay.Flv.{Bytes}
use stream_delay.Rtmp.Wire.{take-append, drop-append}
use stream_delay.Rtmp.Chunk.{
  ChunkError, missing_header, too_many_streams, StreamState, ChunkDecoder, lookup, or_default,
  push_bytes, max_chunk_streams,
}
use stream_delay.Rtmp.Chunk.Decode.{
  Step, need_more, fail, go, ◌>>=◌, ◌>>◌, refuse_if, slice, long_id, basic_header, header_len,
  Fields, fields, max_len, Extension, read_extension, repeated_extension, extension, start_of,
  Chunk, chunk_body, chunk_on, chunk_of, read_chunk, commit, ChunkResult, next_chunk, Received,
  stuck, waiting, failed, received, messages, next_message,
}
use stream_delay.Rtmp.Chunk.Taken.{next_chunk-shortens}

abbrev map_step : {A B : Type 0} → (A → B) → Step A → Step B
map_step f need_more = need_more
map_step f (fail e) = fail e
map_step f (go a) = go (f a)

-- `s'` is what `s` becomes with more bytes, unless `s` still waited for bytes.
abbrev Keeps : {A B : Type 0} → (A → B) → Step A → Step B → Type 0
Keeps f s s' = s ≢ need_more → s' ≡ map_step f s

bind-Keeps :
    {A A' B B' : Type 0} (f : A → A') (g : B → B') (m : Step A) (m' : Step A') (k : A → Step B)
    (k' : A' → Step B')
    → Keeps f m m'
    → ((a : A) → Keeps g (k a) (k' (f a)))
    → Keeps g (m >>= k) (m' >>= k')
bind-Keeps f g need_more m' k k' h hk w = absurd (w refl)
bind-Keeps f g (fail e) m' k k' h hk w = rw (h (λ x. cc)) refl
bind-Keeps f g (go a) m' k k' h hk w = rw (h (λ x. cc)) (hk a w)

refuse-Keeps :
    {B B' : Type 0} (g : B → B') (b : Bool) (e : ChunkError) (k : Step B) (k' : Step B')
    → Keeps g k k'
    → Keeps g (refuse_if b e >> k) (refuse_if b e >> k')
refuse-Keeps g true e k k' h = λ w. refl
refuse-Keeps g false e k k' h = h

abbrev longer : {A : Type 0} → Bytes → A × Bytes → A × Bytes
longer more (a, b) = (a, b ++ more)

slice-Keeps : (n : ℕ) (b more : Bytes) → Keeps (longer more) (slice n b) (slice n (b ++ more))
unfolding slice
slice-Keeps n b more =
    ground (arith, length-append b more, take-append n b more, drop-append n b more)

long_id-Keeps :
    (low : ℕ) (b more : Bytes) → Keeps (longer more) (long_id low b) (long_id low (b ++ more))
unfolding long_id
long_id-Keeps low [] more = ground arith
long_id-Keeps low (b1 ∷ []) more = ground arith
long_id-Keeps low (b1 ∷ b2 ∷ b) more = ground arith

abbrev longer3 : Bytes → ℕ × ℕ × Bytes → ℕ × ℕ × Bytes
longer3 more (fmt, csid, b) = (fmt, csid, b ++ more)

basic_header-Keeps :
    (b more : Bytes) → Keeps (longer3 more) (basic_header b) (basic_header (b ++ more))
unfolding basic_header
basic_header-Keeps [] more = λ w. absurd (w refl)
basic_header-Keeps (b0 ∷ b) more =
    bind-Keeps (longer more) (longer3 more) (long_id (b0 % 64) b) _ _ _
      (long_id-Keeps (b0 % 64) b more) (λ a w. refl)

abbrev longer_x : Bytes → Extension → Extension
longer_x more x = record x { rest = x.rest ++ more }

read_extension-Keeps :
    (b more : Bytes) → Keeps (longer_x more) (read_extension b) (read_extension (b ++ more))
unfolding read_extension
read_extension-Keeps b more =
    bind-Keeps (longer more) (longer_x more) (slice 4 b) _ _ _ (slice-Keeps 4 b more) (λ a w. refl)

repeated_extension-Keeps :
    (repeats : Option Bool) (v : ℕ) (b more : Bytes)
    → Keeps
        (longer_x more)
        (repeated_extension repeats v b)
        (repeated_extension repeats v (b ++ more))
unfolding repeated_extension
repeated_extension-Keeps (some true) v b more =
    bind-Keeps (longer more) (longer_x more) (slice 4 b) _ _ _ (slice-Keeps 4 b more) (λ a w. refl)
repeated_extension-Keeps (some false) v b more = λ w. refl
repeated_extension-Keeps none v b more =
    bind-Keeps (longer more) (longer_x more) (slice 4 b) _ _ _ (slice-Keeps 4 b more)
      (λ a w. ground arith)

extension-Keeps :
    (repeats : Option Bool) (fmt : ℕ) (c : Bool) (st : StreamState) (ts : ℕ) (b more : Bytes)
    → Keeps
        (longer_x more)
        (extension repeats fmt c st ts b)
        (extension repeats fmt c st ts (b ++ more))
unfolding extension
extension-Keeps repeats fmt c st ts b more =
    ground
      (arith, read_extension-Keeps b more, repeated_extension-Keeps repeats st.ext_value b more)

-- A chunk from a longer buffer.
abbrev longer_c : Bytes → Chunk → Chunk
longer_c more c = record c { rest = c.rest ++ more }

chunk_body-Keeps :
    (d : ChunkDecoder) (csid : ℕ) (continuation : Bool) (st before : StreamState) (len : ℕ)
    (x : Extension) (more : Bytes)
    → Keeps
        (longer_c more)
        (chunk_body d csid continuation st before len x)
        (chunk_body (push_bytes more d) csid continuation st before len (longer_x more x))
unfolding chunk_body
chunk_body-Keeps d csid continuation st before len x more =
    bind-Keeps (longer more) (longer_c more) (slice _ x.rest) _ _ _ (slice-Keeps _ x.rest more)
      (λ a. refuse-Keeps (longer_c more) _ _ _ _ (λ w. refl))

start_of_longer :
    (continuation : Bool) (fmt : ℕ) (f : Fields) (x : Extension) (st : StreamState) (more : Bytes)
    → start_of continuation fmt f (longer_x more x) st ≡ start_of continuation fmt f x st
unfolding start_of
start_of_longer continuation fmt f x st more = ground arith

chunk_on-Keeps :
    (d : ChunkDecoder) (fmt csid : ℕ) (f : Fields) (continuation : Bool) (st : StreamState)
    (b more : Bytes)
    → Keeps
        (longer_c more)
        (chunk_on d fmt csid f continuation st b)
        (chunk_on (push_bytes more d) fmt csid f continuation st (b ++ more))
unfolding chunk_on max_len
chunk_on-Keeps d fmt csid f continuation st b more = refuse-Keeps (longer_c more) _ _ _ _ (
    bind-Keeps (longer_x more) (longer_c more)
      (extension d.repeats_extended fmt continuation st f.ts_field b) _ _ _
      (extension-Keeps d.repeats_extended fmt continuation st f.ts_field b more)
      (λ x. rw (start_of_longer continuation fmt f x st more) (
        chunk_body-Keeps d csid continuation st (start_of continuation fmt f x st) f.length x
          more)))

chunk_of-Keeps :
    (d : ChunkDecoder) (fmt csid : ℕ) (found : Option StreamState) (h b more : Bytes)
    → Keeps
        (longer_c more)
        (chunk_of d fmt csid found h b)
        (chunk_of (push_bytes more d) fmt csid found h (b ++ more))
unfolding chunk_of
chunk_of-Keeps d fmt csid found h b more =
    let st = or_default found in
    let unknown = not (fmt == 0) && not st.has_header in
    let full = not (is_some found) && leb max_chunk_streams (length d.streams) in
    refuse-Keeps (longer_c more) unknown (missing_header csid) _ _ (
      refuse-Keeps (longer_c more) full too_many_streams _ _
        (chunk_on-Keeps d fmt csid (fields fmt h st) (fmt == 3 && st.in_progress) st b more))

read_chunk-Keeps :
    (d : ChunkDecoder) (more : Bytes)
    → Keeps (longer_c more) (read_chunk d) (read_chunk (push_bytes more d))
unfolding read_chunk
read_chunk-Keeps d more =
    bind-Keeps (longer3 more) (longer_c more) (basic_header d.buf) _ _ _
      (basic_header-Keeps d.buf more)
      (λ (fmt, csid, b).
        bind-Keeps (longer more) (longer_c more) (slice (header_len fmt) b) _ _ _
          (slice-Keeps (header_len fmt) b more)
          (λ (h, b'). chunk_of-Keeps d fmt csid (lookup csid d.streams) h b' more))

commit_longer :
    (c : Chunk) (d : ChunkDecoder) (more : Bytes)
    → commit (longer_c more c) (push_bytes more d)
      ≡ ((commit c d).0, push_bytes more (commit c d).1)
unfolding commit
commit_longer c d more = ground arith

abbrev longer_d : Bytes → ChunkResult × ChunkDecoder → ChunkResult × ChunkDecoder
longer_d more (r, d) = (r, push_bytes more d)

next_chunk-Keeps :
    (d : ChunkDecoder) (more : Bytes)
    → Keeps (longer_d more) (next_chunk d) (next_chunk (push_bytes more d))
unfolding next_chunk
next_chunk-Keeps d more =
    bind-Keeps (longer_c more) (longer_d more) (read_chunk d) _ _ _ (read_chunk-Keeps d more)
      (λ c w. ap go (commit_longer c d more))

-- More fuel than the buffer has bytes changes nothing.
messages_fuel :
    (f f' : ℕ) (d : ChunkDecoder)
    → length d.buf < f
    → length d.buf < f'
    → messages f d ≡ messages f' d
unfolding messages
messages_fuel zero f' d h h' = absurd (omega arith)
messages_fuel (suc f) zero d h h' = absurd (omega arith)
messages_fuel (suc f) (suc f') d h h' = after (messages_fuel f f') (next_chunk d) refl
  where
    after :
        ((d' : ChunkDecoder)
          → length d'.buf < f
          → length d'.buf < f'
          → messages f d' ≡ messages f' d')
        → (s : Step (ChunkResult × ChunkDecoder)) → next_chunk d ≡ s
        → messages (suc f) d ≡ messages (suc f') d
    after later need_more e = rw (e, messages) refl
    after later (fail err) e = rw (e, messages) refl
    after later (go (ChunkResult.partial, d')) e =
        let shorter = next_chunk-shortens d e in
        rw (e, messages) (later d' (omega arith) (omega arith))
    after later (go (ChunkResult.complete m, d')) e = rw (e, messages) refl

-- What becomes of an answer with more bytes behind the buffer.
abbrev pub joined : Bytes → Received → Received
joined more stuck = stuck
joined more (waiting d) = next_message (push_bytes more d)
joined more (failed e d) = failed e (push_bytes more d)
joined more (received m d) = received m (push_bytes more d)

messages-push :
    (f f' : ℕ) (d : ChunkDecoder) (more : Bytes)
    → length d.buf < f
    → length (d.buf ++ more) < f'
    → messages f' (push_bytes more d) ≡ joined more (messages f d)
unfolding messages next_message
messages-push zero f' d more h h' = absurd (omega arith)
messages-push (suc f) zero d more h h' = absurd (omega arith)
messages-push (suc f) (suc f') d more h h' = after (messages-push f f') (next_chunk d) refl
  where
    after :
        ((d' : ChunkDecoder) (more : Bytes)
          → length d'.buf < f
          → length (d'.buf ++ more) < f'
          → messages f' (push_bytes more d') ≡ joined more (messages f d'))
        → (s : Step (ChunkResult × ChunkDecoder)) → next_chunk d ≡ s
        → messages (suc f') (push_bytes more d) ≡ joined more (messages (suc f) d)
    after later need_more e =
        let now : messages (suc f) d ≡ waiting d = rw (e, messages) refl in
        messages_fuel (suc f') (suc (length (d.buf ++ more))) (push_bytes more d) h' (omega arith)
        ∙ sym (ap (joined more) now)
    after later (fail err) e =
        let kept : next_chunk d ≢ need_more = λ x. cc in
        let e' : next_chunk (push_bytes more d) ≡ fail err =
          next_chunk-Keeps d more kept ∙ rw e refl in
        rw (e, e', messages) refl
    after later (go (ChunkResult.partial, d')) e =
        let kept : next_chunk d ≢ need_more = λ x. cc in
        let e' : next_chunk (push_bytes more d) ≡ go (ChunkResult.partial, push_bytes more d') =
          next_chunk-Keeps d more kept ∙ rw e refl in
        let shorter = next_chunk-shortens d e in
        let shorter' = next_chunk-shortens (push_bytes more d) e' in
        rw (e, e', messages) (later d' more (omega arith) (omega arith))
    after later (go (ChunkResult.complete m, d')) e =
        let kept : next_chunk d ≢ need_more = λ x. cc in
        let e' : next_chunk (push_bytes more d) ≡ go (ChunkResult.complete m, push_bytes more d') =
          next_chunk-Keeps d more kept ∙ rw e refl in
        rw (e, e', messages) refl

-- Bytes that arrive later change no answer: on a buffer with more bytes behind it, `next_message`
-- returns the message or the error that it returned without them, with those bytes still to come; and
-- where it had to wait, going on from there once they are pushed is the same as having had them all
-- from the start.
pub next_message-push_bytes :
    (d : ChunkDecoder) (more : Bytes)
    → next_message (push_bytes more d) ≡ joined more (next_message d)
unfolding next_message
next_message-push_bytes d more =
    messages-push (suc (length d.buf)) (suc (length (d.buf ++ more))) d more (omega arith)
      (omega arith)
