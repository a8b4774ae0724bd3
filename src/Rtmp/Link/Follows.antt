-- ===== src/Rtmp/Link/Follows.antt =====
-- crates/rtmp/src/session/mod.rs: two links over one connection, one's output the other's input.
use stream_delay.Base.{ℕ, ◌^◌, ◌≤◌, ◌<◌, some, [], ◌++◌, ◌≡◌, refl, sym, ap, ◌∙◌, arith}
use stream_delay.Flv.{Bytes}
use stream_delay.Rtmp.Wire.{be32, put_u32}
use stream_delay.Rtmp.Chunk.{ChunkDecoder, set_chunk_size}
use stream_delay.Rtmp.Chunk.Decode.{received, next_message}
use stream_delay.Rtmp.Chunk.Encode.{write}
use stream_delay.Rtmp.Chunk.Written.{Accepts}
use stream_delay.Rtmp.Chunk.RoundTrip.{next_message-write}
use stream_delay.Rtmp.Message.{set_chunk_size_id, control_message, write_u32_control, read_u32}
use stream_delay.Rtmp.Link.{Link, consumed, set_out_chunk_size, handle_control}

read_u32-put_u32 : (v : ℕ) → v < 2 ^ 32 → read_u32 (put_u32 v) ≡ some v
unfolding read_u32 be32 put_u32
read_u32-put_u32 v h = ground arith

follow_announced :
    (l : Link) (size : ℕ)
    → 1 ≤ size
    → size ≤ 2 ^ 24
    → handle_control (control_message set_chunk_size_id (put_u32 size)) l
      ≡ (consumed, record l { decoder = record l.decoder { chunk_size = size } })
unfolding handle_control set_chunk_size
follow_announced l size lo hi = rw (read_u32-put_u32 size (omega arith)) (ground arith)

out_announced :
    (l : Link) (size : ℕ)
    → l.out ≡ []
    → (set_out_chunk_size size l).out
      ≡ write l.encoder (control_message set_chunk_size_id (put_u32 size))
unfolding set_out_chunk_size write_u32_control
out_announced l size e = rw e refl

encoder_announced :
    (l : Link) (size : ℕ)
    → 1 ≤ size
    → size ≤ 2 ^ 24
    → (set_out_chunk_size size l).encoder.chunk_size ≡ size
unfolding set_out_chunk_size
encoder_announced l size lo hi = omega arith

-- Two links whose chunk sizes agree, where the first has nothing unsent and the decoder of the second
-- accepts the announcement as a message, still agree after one of them has changed its outgoing chunk size,
-- to any size from 1 to 2^24, and the other has received what the first sent: the announcement arrives
-- as a message in the old size, is consumed, and sets the size that the encoder now uses; what was
-- sent behind it is left in the buffer.
pub set_out_chunk_size-followed :
    (l peer : Link) (size : ℕ) (r : Bytes)
    → 1 ≤ size
    → size ≤ 2 ^ 24
    → l.out ≡ []
    → l.encoder.chunk_size ≡ peer.decoder.chunk_size
    → Accepts peer.decoder (control_message set_chunk_size_id (put_u32 size))
    → peer.decoder.buf ≡ (set_out_chunk_size size l).out ++ r
    → let m = control_message set_chunk_size_id (put_u32 size) in
      (d : ChunkDecoder) × (next_message peer.decoder ≡ received m d)
      × (let (outcome, peer') = handle_control m (record peer { decoder = d }) in
          (outcome ≡ consumed)
          × (peer'.decoder.buf ≡ r)
          × (peer'.decoder.chunk_size ≡ (set_out_chunk_size size l).encoder.chunk_size))
set_out_chunk_size-followed l peer size r lo hi e same a b =
    let m = control_message set_chunk_size_id (put_u32 size) in
    let x =
      next_message-write l.encoder peer.decoder m r a same
        (b ∙ ap (λ o. o ++ r) (out_announced l size e)) in
    let followed = follow_announced (record peer { decoder = x.after }) size lo hi in
    (x.after, x.result, rw followed (refl, x.buf, sym (encoder_announced l size lo hi)))
