-- ===== src/Tests/Protocol.antt =====
-- Runs of the RTMP codecs at concrete inputs.
use stream_delay.Base.{ℕ, zero, suc, [], ◌∷◌, ◌++◌, ◌≡◌, ◌≢◌, refl, arith}
use stream_delay.Flv.{Bytes}
use stream_delay.Rtmp.Chunk.{Message, ChunkDecoder, new_decoder, push_bytes, lookup, set_chunk_size}
use stream_delay.Rtmp.Chunk.Decode.{next_message, stuck, max_len}
use stream_delay.Rtmp.Chunk.Encode.{new_encoder, write}
use stream_delay.Rtmp.Chunk.Written.{Accepts}
use stream_delay.Rtmp.Chunk.Delivery.{Delivers}
use stream_delay.Rtmp.Chunk.RoundTrip.{next_message-write}
use stream_delay.Rtmp.Chunk.Taken.{held, next_message-ends}
use stream_delay.Rtmp.Chunk.Sound.{IsSound, IsFed-IsSound, pushed, new, resized}
use stream_delay.Rtmp.Chunk.Feeding.{joined, next_message-push_bytes}

-- A message of 200 bytes, in two chunks, with an extended timestamp.
abbrev repeat : ℕ → ℕ → Bytes
repeat zero b = []
repeat (suc n) b = b ∷ repeat n b

abbrev video : Message
video = record {
  csid = 6;
  timestamp = 0x0100_0000;
  type_id = 9;
  stream_id = 1;
  payload = repeat 200 7;
}

abbrev behind : Bytes
behind = 5 ∷ []

abbrev fed : ChunkDecoder
fed = record new_decoder { buf = write new_encoder video ++ behind }

fed-Accepts : Accepts fed video
unfolding lookup max_len
fed-Accepts = record {
  lowest = omega arith;
  highest = omega arith;
  timed = omega arith;
  numbered = omega arith;
  short = omega arith;
  allowed = omega arith;
  fits = omega arith;
  room = refl;
  repeats = cc;
  positive = omega arith;
}

next_message-write_example : Delivers fed (held 6 fed) video behind (next_message fed)
next_message-write_example = next_message-write new_encoder fed video behind fed-Accepts refl refl

abbrev some_bytes : Bytes
some_bytes = 0x04 ∷ 0 ∷ 0 ∷ 10 ∷ 0 ∷ 0 ∷ 2 ∷ 8 ∷ 1 ∷ 0 ∷ 0 ∷ 0 ∷ 0xaa ∷ []

IsFed-IsSound_example : IsSound (push_bytes some_bytes (set_chunk_size 4096 new_decoder).1)
IsFed-IsSound_example = IsFed-IsSound (pushed some_bytes (resized 4096 new))

next_message-push_bytes_example :
    next_message (push_bytes (0xbb ∷ []) (push_bytes some_bytes new_decoder))
    ≡ joined (0xbb ∷ []) (next_message (push_bytes some_bytes new_decoder))
next_message-push_bytes_example =
    next_message-push_bytes (push_bytes some_bytes new_decoder) (0xbb ∷ [])

next_message-ends_example : next_message (push_bytes some_bytes new_decoder) ≢ stuck
next_message-ends_example = next_message-ends (push_bytes some_bytes new_decoder)
