-- ===== src/Rtmp/Chunk/Rest.antt =====
-- crates/rtmp/src/chunk.rs: the chunks after the first, down to the one that completes the message.
use stream_delay.Base.{
  ℕ, zero, suc, ◌+◌, ◌-◌, ◌^◌, ◌≤◌, ◌<◌, Bool, true, false, Option, some, List, [], ◌∷◌, ◌++◌, take,
  drop, length, ◌≡◌, ◌≢◌, refl, sym, ap, ◌∙◌, subst, arith, length-append, append_assoc, append-nil,
  inl, inr, length-take, take-append-drop, ◌⊎◌,
}
use stream_delay.Flv.{Bytes}
use stream_delay.Rtmp.Wire.{length-drop}
use stream_delay.Rtmp.Chunk.{Message, StreamState, ChunkDecoder, lookup, max_pending_bytes}
use stream_delay.Rtmp.Chunk.Decode.{go, filled, Chunk, read_chunk, Received, messages}
use stream_delay.Rtmp.Chunk.Encode.{put_basic_header, put_extended, put_rest, chunks}
use stream_delay.Rtmp.Chunk.Written.{IsMidway, read_chunk_continued}
use stream_delay.Rtmp.Chunk.Headers.{is_extended}
use stream_delay.Rtmp.Chunk.Delivery.{
  Delivers, lookup-insert, chunks_step, chunks_done, drop_all, or_else_true, after_chunk, delivered,
  messages_partial,
}

pub le_or_lt : (a b : ℕ) → (a ≤ b) ⊎ (b < a)
le_or_lt a b = ground arith

-- The stream `st` in the middle of a message whose bytes from `p` on are the chunks in the buffer.
pub record IsLeft (d : ChunkDecoder) (csid ts : ℕ) (st : StreamState) (p : Bytes) : Type 0 where
  pub lowest : 2 ≤ csid
  pub highest : csid ≤ 65599
  pub timed : ts < 2 ^ 32
  pub found : lookup csid d.streams ≡ some st
  pub going : st.in_progress ≡ true
  pub headed : st.has_header ≡ true
  pub marked : st.extended ≡ is_extended ts
  pub valued : is_extended ts ≡ true → st.ext_value ≡ ts
  pub repeats : d.repeats_extended ≢ some false
  pub declared : st.length ≡ length st.partial + length p
  pub fits : d.pending + length p ≤ max_pending_bytes
  pub positive : 1 ≤ d.chunk_size

put_rest_step :
    (csid ts : ℕ) (c : Bytes) (cs : List Bytes) (r : Bytes)
    → put_rest csid ts (c ∷ cs) ++ r
      ≡ put_basic_header 3 csid ++ (put_extended ts ++ (c ++ (put_rest csid ts cs ++ r)))
unfolding put_rest
put_rest_step csid ts c cs r = simp append_assoc refl

-- The chunk that is next.
next_of :
    (d : ChunkDecoder) (csid ts k : ℕ) (st : StreamState) (p r : Bytes)
    → IsLeft d csid ts st p
    → 1 ≤ length p
    → d.buf ≡ put_rest csid ts (chunks (suc k) d.chunk_size p) ++ r
    → (l : Option Bool) × (read_chunk d
        ≡ go (record {
          csid = csid;
          before = st;
          bytes = take d.chunk_size p;
          rest = put_rest csid ts (chunks k d.chunk_size (drop d.chunk_size p)) ++ r;
          pending = d.pending + length (take d.chunk_size p);
          learned = l;
        }))
      × (l ≢ some false)
next_of d csid ts k st p r i some_left b =
    let n = d.chunk_size in
    let later = put_rest csid ts (chunks k n (drop n p)) in
    let midway : IsMidway st ts = record {
      going = i.going;
      headed = i.headed;
      marked = i.marked;
      valued = i.valued;
    } in
    let head = take n p in
    let cut : d.buf ≡ put_basic_header 3 csid ++ (put_extended ts ++ (head ++ (later ++ r))) =
      rw (b, chunks_step k n p some_left) (put_rest_step csid ts head (chunks k n (drop n p)) r) in
    read_chunk_continued d csid ts st head (later ++ r) cut (i.lowest) (i.highest) (i.timed)
      (i.found) midway (i.repeats) (omega (arith, length-take n p, i.declared))
      (omega (arith, length-take n p, i.fits))

pub take_all : (n : ℕ) (p : Bytes) → length p ≤ n → take n p ≡ p
take_all n p h = sym (append-nil (take n p)) ∙ rw (← drop_all n p h) (take-append-drop n p)

abbrev pub whole : ℕ → StreamState → Bytes → Message
whole csid st p = record {
  csid = csid;
  timestamp = st.timestamp;
  type_id = st.type_id;
  stream_id = st.stream_id;
  payload = st.partial ++ p;
}

pub no_rest :
    (csid ts k n : ℕ) (p r : Bytes)
    → length p ≤ n
    → put_rest csid ts (chunks k n (drop n p)) ++ r ≡ r
unfolding put_rest
no_rest csid ts k n p r h = rw (drop_all n p h, chunks_done k n [] (omega arith)) refl

-- A chunk that does not complete its message leaves the chunks after it.
abbrev pub grown : StreamState → Bytes → StreamState
grown st bytes = record st { partial = st.partial ++ bytes }

abbrev chunk_at : ℕ → ChunkDecoder → ℕ → StreamState → Bytes → Bytes → Option Bool → Chunk
chunk_at csid d ts st bytes rest l = record {
  csid = csid;
  before = st;
  bytes = bytes;
  rest = rest;
  pending = d.pending + length bytes;
  learned = l;
}

IsLeft-after :
    (d : ChunkDecoder) (csid ts : ℕ) (st : StreamState) (p rest : Bytes) (l : Option Bool)
    → IsLeft d csid ts st p
    → l ≢ some false
    → let bytes = take d.chunk_size p in
      let c = chunk_at csid d ts st bytes rest l in
      IsLeft
        (after_chunk d c (grown st bytes) c.pending)
        csid
        ts
        (grown st bytes)
        (drop d.chunk_size p)
IsLeft-after d csid ts st p rest l i hl =
    let n = d.chunk_size in
    let bytes = take n p in
    let sizes = length-append st.partial bytes in
    record {
      lowest = i.lowest;
      highest = i.highest;
      timed = i.timed;
      found = lookup-insert csid (grown st bytes) d.streams;
      going = i.going;
      headed = i.headed;
      marked = i.marked;
      valued = i.valued;
      repeats = or_else_true l d.repeats_extended hl (i.repeats);
      declared = omega (arith, sizes, length-take n p, length-drop n p, i.declared);
      fits = omega (arith, length-take n p, length-drop n p, i.fits);
      positive = i.positive;
    }

-- What is delivered after one more chunk, seen from before it.
pub Delivers-before :
    (d d' : ChunkDecoder) (kept kept' : ℕ) (m : Message) (r : Bytes) (res res' : Received)
    → res ≡ res'
    → d'.chunk_size ≡ d.chunk_size
    → d'.max_media_len ≡ d.max_media_len
    → d'.max_other_len ≡ d.max_other_len
    → d'.pending - kept' ≤ d.pending - kept
    → Delivers d' kept' m r res'
    → Delivers d kept m r res
Delivers-before d d' kept kept' m r res res' e e1 e2 e3 w x = record {
  after = x.after;
  result = e ∙ x.result;
  buf = x.buf;
  chunk_size = x.chunk_size ∙ e1;
  max_media_len = x.max_media_len ∙ e2;
  max_other_len = x.max_other_len ∙ e3;
  repeats = x.repeats;
  pending = omega (arith, x.pending);
  known = x.known;
}

-- The chunks that are left deliver the message.
pub rest_delivered :
    (k f : ℕ) (d : ChunkDecoder) (csid ts : ℕ) (st : StreamState) (p r : Bytes)
    → IsLeft d csid ts st p
    → 1 ≤ length p
    → length p ≤ k
    → length p ≤ f
    → d.buf ≡ put_rest csid ts (chunks k d.chunk_size p) ++ r
    → Delivers d (length st.partial) (whole csid st p) r (messages f d)
unfolding filled
rest_delivered zero f d csid ts st p r i h hk hf b = absurd (omega arith)
rest_delivered (suc k) zero d csid ts st p r i h hk hf b = absurd (omega arith)
rest_delivered (suc k) (suc f) d csid ts st p r i h hk hf b =
    let n = d.chunk_size in
    let kept = length st.partial in
    let later = put_rest csid ts (chunks k n (drop n p)) ++ r in
    let (l, e, hl) = next_of d csid ts k st p r i h b in
    let c = chunk_at csid d ts st (take n p) later l in
    let sizes = length-take n p in
    elim (le_or_lt (length p) n) [
      | inl fits ↦
          let last =
            delivered f d c kept e (omega (arith, sizes, i.declared)) (i.repeats) hl
              (omega (arith, sizes)) in
          let deliver : Bytes → Bytes → Type 0 =
            λ q rest. Delivers d kept (whole csid st q) rest (messages (suc f) d) in
          subst (λ q. deliver q r) (take_all n p fits)
            (subst (deliver (take n p)) (no_rest csid ts k n p r fits) last)
      | inr more ↦
          let st' = grown st (take n p) in
          let d' = after_chunk d c st' c.pending in
          let sizes' = length-drop n p in
          let ih =
            rest_delivered k f d' csid ts st' (drop n p) r
              (IsLeft-after d csid ts st p later l i hl) (omega (arith, sizes'))
              (omega (arith, sizes', i.positive)) (omega (arith, sizes', i.positive)) refl in
          let same : (st.partial ++ take n p) ++ drop n p ≡ st.partial ++ p =
            append_assoc st.partial (take n p) (drop n p)
            ∙ ap (λ q. st.partial ++ q) (take-append-drop n p) in
          let step = messages_partial f d c e (omega (arith, sizes, i.declared)) in
          Delivers-before d d' kept (length st'.partial) _ r _ _ step refl refl refl
            (omega (arith, length-append st.partial (take n p)))
            (subst
              (λ q.
                Delivers d' (length st'.partial) (record (whole csid st p) { payload = q }) r
                  (messages f d'))
              same ih)
    ]
