-- ===== src/Rtmp/Server/Kept.antt =====
-- crates/rtmp/src/session/server.rs: what reading a message and handling it leave of the decoder.
use stream_delay.Base.{
  ℕ, zero, suc, ◌<◌, Bool, true, false, Bool-cases, inl, inr, Option, none, some, ◌==◌, length, ◌≡◌,
  refl, ◌∙◌, arith, ◌%◌, ◌^◌, if◌then◌else◌,
}
use stream_delay.Rtmp.Chunk.{ChunkError, ChunkDecoder, Message, set_chunk_size, abort}
use stream_delay.Rtmp.Chunk.Decode.{
  Step, need_more, fail, go, ChunkResult, next_chunk, Received, stuck, waiting, failed, received,
  messages, next_message,
}
use stream_delay.Rtmp.Chunk.Bounded.{
  IsBounded, next_chunk-IsBounded, set_chunk_size-IsBounded, abort-IsBounded,
}
use stream_delay.Rtmp.Chunk.Taken.{next_chunk-shortens}
use stream_delay.Rtmp.Message.{
  read_u32, read_user_control, uc_ping_request, set_chunk_size_id, abort_id, acknowledgement,
  user_control, window_ack_size, set_peer_bandwidth,
}
use stream_delay.Rtmp.Link.{
  Link, Handled, handle_control, with_size, follow_chunk_size, abort_stream, follow_window,
  answer_bandwidth, answer_ping,
}

-- The limits on a message are the same, and what is in progress keeps to them.
pub record IsLimitedAs (d d' : ChunkDecoder) : Type 0 where
  pub bounded : (n : ℕ) → IsBounded n d → IsBounded n d'

pub IsLimitedAs-trans : {d e f : ChunkDecoder} → IsLimitedAs d e → IsLimitedAs e f → IsLimitedAs d f
IsLimitedAs-trans h k = record { bounded = λ n b. k.bounded n (h.bounded n b) }

pub same-IsLimitedAs : (d : ChunkDecoder) → IsLimitedAs d d
same-IsLimitedAs d = record { bounded = λ n b. b }

next_chunk-IsLimitedAs :
    (d : ChunkDecoder) {r : ChunkResult} {d' : ChunkDecoder}
    → next_chunk d ≡ go (r, d')
    → IsLimitedAs d d'
next_chunk-IsLimitedAs d h = record { bounded = λ n b. (next_chunk-IsBounded n d h b).1 }

-- After a message: fewer bytes, the same limits.
pub record IsRead (d d' : ChunkDecoder) : Type 0 where
  pub shorter : length d'.buf < length d.buf
  pub limits : IsLimitedAs d d'

IsRead-trans : {d e f : ChunkDecoder} → IsRead d e → IsRead e f → IsRead d f
IsRead-trans h k = record {
  shorter = omega (arith, h.shorter, k.shorter);
  limits = IsLimitedAs-trans h.limits k.limits;
}

next_chunk-IsRead :
    (d : ChunkDecoder) {r : ChunkResult} {d' : ChunkDecoder}
    → next_chunk d ≡ go (r, d')
    → IsRead d d'
next_chunk-IsRead d h = record {
  shorter = next_chunk-shortens d h;
  limits = next_chunk-IsLimitedAs d h;
}

-- Whatever a call of `next_message` gives back, its decoder has read nothing or has read.
abbrev pub AfterRead : ChunkDecoder → Received → Type 0
AfterRead d stuck = Unit
AfterRead d (waiting e) = IsLimitedAs d e
AfterRead d (failed x e) = IsLimitedAs d e
AfterRead d (received m e) = IsRead d e

AfterRead-trans : {d e : ChunkDecoder} (r : Received) → IsRead d e → AfterRead e r → AfterRead d r
AfterRead-trans stuck h k = k
AfterRead-trans (waiting f) h k = IsLimitedAs-trans h.limits k
AfterRead-trans (failed x f) h k = IsLimitedAs-trans h.limits k
AfterRead-trans (received m f) h k = IsRead-trans h k

messages-AfterRead : (fuel : ℕ) (d : ChunkDecoder) → AfterRead d (messages fuel d)
unfolding messages
messages-AfterRead zero d = tt
messages-AfterRead (suc fuel) d = after (messages-AfterRead fuel) (next_chunk d) refl
  where
    after :
        ((e : ChunkDecoder) → AfterRead e (messages fuel e))
        → (s : Step (ChunkResult × ChunkDecoder)) → next_chunk d ≡ s
        → AfterRead d (messages (suc fuel) d)
    after later need_more e = rw (e, messages) (same-IsLimitedAs d)
    after later (fail x) e = rw (e, messages) (same-IsLimitedAs d)
    after later (go (ChunkResult.partial, d')) e =
        rw (e, messages) (AfterRead-trans (messages fuel d') (next_chunk-IsRead d e) (later d'))
    after later (go (ChunkResult.complete m, d')) e = rw (e, messages) (next_chunk-IsRead d e)

pub next_message-AfterRead : (d : ChunkDecoder) → AfterRead d (next_message d)
unfolding next_message
next_message-AfterRead d = messages-AfterRead (suc (length d.buf)) d

-- Handling keeps the bytes that are still to be read, and the limits.
pub record IsKept (d d' : ChunkDecoder) : Type 0 where
  pub buf : d'.buf ≡ d.buf
  pub limits : IsLimitedAs d d'

pub IsKept-trans : {d e f : ChunkDecoder} → IsKept d e → IsKept e f → IsKept d f
IsKept-trans h k = record { buf = k.buf ∙ h.buf; limits = IsLimitedAs-trans h.limits k.limits }

pub same-IsKept : (d : ChunkDecoder) → IsKept d d
same-IsKept d = record { buf = refl; limits = same-IsLimitedAs d }

set_chunk_size-IsKept : (size : ℕ) (d : ChunkDecoder) → IsKept d (set_chunk_size size d).1
unfolding set_chunk_size
set_chunk_size-IsKept size d = record {
  buf = ground arith;
  limits = record { bounded = λ n b. set_chunk_size-IsBounded n size d b };
}

abort-IsKept : (csid : ℕ) (d : ChunkDecoder) → IsKept d (abort csid d)
unfolding abort
abort-IsKept csid d = record {
  buf = ground arith;
  limits = record { bounded = λ n b. abort-IsBounded n csid d b };
}

with_size-IsKept :
    (r : Option ChunkError × ChunkDecoder) (l : Link)
    → IsKept l.decoder r.1
    → IsKept l.decoder (with_size r l).1.decoder
with_size-IsKept (none, d) l h = h
with_size-IsKept (some e, d) l h = h

follow_chunk_size-IsKept :
    (v : Option ℕ) (l : Link) → IsKept l.decoder (follow_chunk_size v l).1.decoder
follow_chunk_size-IsKept none l = same-IsKept l.decoder
follow_chunk_size-IsKept (some v) l =
    with_size-IsKept (set_chunk_size (v % 2 ^ 31) l.decoder) l
      (set_chunk_size-IsKept (v % 2 ^ 31) l.decoder)

abort_stream-IsKept : (v : Option ℕ) (l : Link) → IsKept l.decoder (abort_stream v l).decoder
abort_stream-IsKept none l = same-IsKept l.decoder
abort_stream-IsKept (some csid) l = abort-IsKept csid l.decoder

follow_window-IsKept : (v : Option ℕ) (l : Link) → IsKept l.decoder (follow_window v l).decoder
follow_window-IsKept none l = same-IsKept l.decoder
follow_window-IsKept (some v) l = same-IsKept l.decoder

answer_bandwidth-IsKept :
    (v : Option ℕ) (l : Link) → IsKept l.decoder (answer_bandwidth v l).decoder
answer_bandwidth-IsKept none l = same-IsKept l.decoder
answer_bandwidth-IsKept (some v) l = same-IsKept l.decoder

answer_ping-IsKept : (v : Option (ℕ × ℕ)) (l : Link) → IsKept l.decoder (answer_ping v l).decoder
answer_ping-IsKept none l = same-IsKept l.decoder
answer_ping-IsKept (some (event, ts)) l = elim (Bool-cases (event == uc_ping_request)) [
  | inl t ↦ rw (t) (same-IsKept l.decoder)
  | inr f ↦ rw (f) (same-IsKept l.decoder)
]

-- A chain of tests, whose branches all have `P`.
if-all : {A : Type 0} (P : A → Type 0) (b : Bool) {x y : A} → P x → P y → P (if b then x else y)
if-all P true p q = p
if-all P false p q = q

abbrev KeptBy : Link → Handled × Link → Type 0
KeptBy l r = IsKept l.decoder r.1.decoder

pub handle_control-IsKept :
    (m : Message) (l : Link) → IsKept l.decoder (handle_control m l).1.decoder
unfolding handle_control
handle_control-IsKept m l =
    let v = read_u32 m.payload in
    if-all (KeptBy l) (m.type_id == set_chunk_size_id) (follow_chunk_size-IsKept v l) (
      if-all (KeptBy l) (m.type_id == abort_id) (abort_stream-IsKept v l) (
        if-all (KeptBy l) (m.type_id == acknowledgement) (same-IsKept l.decoder) (
          if-all (KeptBy l) (m.type_id == window_ack_size) (follow_window-IsKept v l) (
            if-all (KeptBy l) (m.type_id == set_peer_bandwidth) (answer_bandwidth-IsKept v l) (
              if-all (KeptBy l) (m.type_id == user_control)
                (answer_ping-IsKept (read_user_control m.payload) l) (same-IsKept l.decoder))))))
