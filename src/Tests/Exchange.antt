-- ===== src/Tests/Exchange.antt =====
-- Runs of the RTMP handshake, values, links and blocks at concrete inputs.
use stream_delay.Rtmp.Chunk.{Message}
use stream_delay.Base.{
  List, all, leb, ℕ, zero, suc, ◌+◌, ◌-◌, ◌≤◌, ◌<◌, max, true, false, none, some, [], ◌∷◌, ◌++◌,
  map, ◌≡◌, ◌≢◌, refl, arith,
}
use stream_delay.Flv.{Bytes}
use stream_delay.Rtmp.Wire.{put_u32}
use stream_delay.Rtmp.Chunk.{ChunkDecoder, new_decoder, lookup}
use stream_delay.Rtmp.Chunk.Encode.{new_encoder}
use stream_delay.Rtmp.Chunk.Decode.{next_message, received, max_len}
use stream_delay.Rtmp.Chunk.Written.{Accepts}
use stream_delay.Rtmp.Arena.{Pool, Arena, new_pool, bytes_in_use, place, leave, arena_block}
use stream_delay.Rtmp.Arena.Bounds.{IsShared-bytes_in_use, start, joined, placed, left}
use stream_delay.Rtmp.Handshake.{
  random_packet, need_more, done, ServerState, new_server, server_feed,
}
use stream_delay.Rtmp.Handshake.Completes.{exchange, exchange-completes}
use stream_delay.Rtmp.Handshake.Pieces.{followed, server_feed-append}
use stream_delay.Rtmp.Amf0.{
  Amf0Value, number, string, null, object, no_props, prop, strict_array, no_items, item,
}
use stream_delay.Rtmp.Amf0.Text.{lossy, lossy_rounds}
use stream_delay.Rtmp.Amf0.Decode.{ok, stuck, u8, marker_of, body, value, decode_one, decode_all}
use stream_delay.Rtmp.Amf0.Encode.{encode, encode_all}
use stream_delay.Rtmp.Amf0.Fits.{Fits, normal}
use stream_delay.Rtmp.Amf0.RoundTrip.{decode_one-encode}
use stream_delay.Rtmp.Amf0.Whole.{AllFit, decode_all-encode_all}
use stream_delay.Rtmp.Amf0.Ends.{decode_all-ends}
use stream_delay.Rtmp.Message.{
  control_message, set_chunk_size_id, with_set_data_frame, set_data_frame,
}
use stream_delay.Rtmp.Message.{command_amf0, write_command}
use stream_delay.Rtmp.Message.Commands.{command_message, write_command-decoded}
use stream_delay.Rtmp.Amf0.Encode.{put_string, put_short_string}
use stream_delay.Rtmp.Wire.{put_u16}
use stream_delay.Rtmp.Message.DataFrame.{with_set_data_frame-twice}
use stream_delay.Rtmp.Link.{Link, new_link, consumed, handle_control, set_out_chunk_size}
use stream_delay.Rtmp.Link.Acks.{acks, last_told, receive_all, receive_all-acknowledged}
use stream_delay.Rtmp.Link.Follows.{set_out_chunk_size-followed}

-- One decoder that places a message and leaves.
abbrev fresh : Arena
fresh = record { block = none; retry_after = 0 }

abbrev used : Arena × Pool
used = place (λ b. true) 500 fresh (new_pool 0)

IsShared-bytes_in_use_example : bytes_in_use (λ b. false) (leave used.0 used.1) ≤ max 0 arena_block
IsShared-bytes_in_use_example =
    IsShared-bytes_in_use 0 (λ b. false)
      (left [] [] used.0 (placed (λ b. true) 500 [] [] fresh (joined start)))

-- A command object, { "app": "live", "codecs": [1.0, null] }.
abbrev one : Bytes
one = 0x3f ∷ 0xf0 ∷ 0 ∷ 0 ∷ 0 ∷ 0 ∷ 0 ∷ 0 ∷ []

abbrev command_object : Amf0Value
command_object = object (
    prop (0x61 ∷ 0x70 ∷ 0x70 ∷ []) (string (0x6c ∷ 0x69 ∷ 0x76 ∷ 0x65 ∷ []))
      (prop (0x63 ∷ []) (strict_array (item (number one) (item null no_items))) no_props))

command_object-Fits : Fits 0 command_object
unfolding Fits lossy lossy_rounds
command_object-Fits = (
  omega arith,
  (
    refl,
    omega arith,
    (omega arith, refl, omega arith),
    (refl, omega arith, (omega arith, ((omega arith, refl), (omega arith, tt)), omega arith), tt),
  ),
)

decode_one-encode_example :
    decode_one (encode command_object ++ (0x05 ∷ [])) ≡ ok (normal command_object) (0x05 ∷ [])
decode_one-encode_example = decode_one-encode command_object (0x05 ∷ []) command_object-Fits

null-Fits : Fits 0 null
unfolding Fits
null-Fits = omega arith

decode_all-encode_all_example :
    decode_all (encode_all (command_object ∷ null ∷ []))
    ≡ ok (map normal (command_object ∷ null ∷ [])) []
decode_all-encode_all_example =
    decode_all-encode_all (command_object ∷ null ∷ []) (command_object-Fits, (null-Fits, tt))

decode_all-ends_example : decode_all (0x0a ∷ 0 ∷ 0 ∷ 0 ∷ 9 ∷ 5 ∷ []) ≢ stuck
decode_all-ends_example = decode_all-ends (0x0a ∷ 0 ∷ 0 ∷ 0 ∷ 9 ∷ 5 ∷ [])

-- Two packets.
abbrev repeat : ℕ → ℕ → Bytes
repeat zero b = []
repeat (suc n) b = b ∷ repeat n b

abbrev server_packet : Bytes
server_packet = random_packet (repeat 1528 11)

abbrev client_packet : Bytes
client_packet = random_packet (repeat 1528 12)

exchange-completes_example :
    let (first, answer, last) = exchange server_packet client_packet (1 ∷ []) (2 ∷ []) in
    (first.0 ≡ need_more)
    × (answer.0 ≡ done (1 ∷ []))
    × (answer.1.done ≡ true)
    × (last.0 ≡ done (2 ∷ []))
    × (last.1.state ≡ ServerState.finished)
exchange-completes_example =
    exchange-completes server_packet client_packet (1 ∷ []) (2 ∷ []) refl refl

server_feed-append_example :
    server_feed server_packet ((3 ∷ []) ++ client_packet) new_server
    ≡ followed server_packet client_packet (server_feed server_packet (3 ∷ []) new_server)
server_feed-append_example = server_feed-append server_packet (3 ∷ []) client_packet new_server

-- A null value, to which the name is added.
abbrev named : Bytes
named = encode (string set_data_frame) ++ (0x05 ∷ [])

named_once : with_set_data_frame (0x05 ∷ []) ≡ some named
unfolding with_set_data_frame decode_one value u8 marker_of body
named_once = refl

with_set_data_frame-twice_example : with_set_data_frame named ≡ some named
with_set_data_frame-twice_example = with_set_data_frame-twice (0x05 ∷ []) named named_once

receive_all-acknowledged_example :
    let l = receive_all (3000 ∷ 1500 ∷ []) (new_link 2500) in
    (l.bytes_in ≡ 0 + 4500)
    × (cs : List ℕ) × (l.out ≡ acks new_encoder cs)
    × (all (λ c. leb c l.bytes_in) cs ≡ true)
    × (l.bytes_in - last_told 0 cs < 2500)
receive_all-acknowledged_example =
    receive_all-acknowledged (3000 ∷ 1500 ∷ []) (new_link 2500) (omega arith) (omega arith)

abbrev near : Link
near = new_link 2500000

abbrev far : Link
far = record near {
  decoder = record new_decoder { buf = (set_out_chunk_size 4096 near).out ++ (1 ∷ []) };
}

far-Accepts : Accepts far.decoder (control_message set_chunk_size_id (put_u32 4096))
unfolding lookup max_len put_u32
far-Accepts = record {
  lowest = omega arith;
  highest = omega arith;
  timed = omega arith;
  numbered = omega arith;
  short = omega arith;
  allowed = omega arith;
  fits = omega arith;
  room = refl;
  repeats = cc;
  positive = omega arith;
}

set_out_chunk_size-followed_example :
    let m = control_message set_chunk_size_id (put_u32 4096) in
    (d : ChunkDecoder) × (next_message far.decoder ≡ received m d)
    × (let (outcome, peer) = handle_control m (record far { decoder = d }) in
        (outcome ≡ consumed)
        × (peer.decoder.buf ≡ 1 ∷ [])
        × (peer.decoder.chunk_size ≡ (set_out_chunk_size 4096 near).encoder.chunk_size))
set_out_chunk_size-followed_example =
    set_out_chunk_size-followed near far 4096 (1 ∷ []) (omega arith) (omega arith) refl refl
      far-Accepts refl

-- A command of a name and null, and a decoder that it has arrived at.
abbrev call : List Amf0Value
call = string (0x61 ∷ []) ∷ null ∷ []

abbrev caller : ChunkDecoder
caller = record new_decoder { buf = write_command new_encoder 3 0 call ++ (7 ∷ []) }

call-AllFit : AllFit call
unfolding Fits lossy lossy_rounds
call-AllFit = ((omega arith, refl, omega arith), (null-Fits, tt))

caller-Accepts : Accepts caller (command_message 3 0 call)
unfolding lookup max_len encode_all encode put_string put_short_string put_u16
caller-Accepts = record {
  lowest = omega arith;
  highest = omega arith;
  timed = omega arith;
  numbered = omega arith;
  short = omega arith;
  allowed = omega arith;
  fits = omega arith;
  room = refl;
  repeats = cc;
  positive = omega arith;
}

write_command-decoded_example :
    (m : Message) × (d : ChunkDecoder) × (next_message caller ≡ received m d)
    × (d.buf ≡ 7 ∷ [])
    × (m.type_id ≡ command_amf0)
    × (m.stream_id ≡ 0)
    × (decode_all m.payload ≡ ok (map normal call) [])
write_command-decoded_example =
    write_command-decoded new_encoder caller 3 0 call (7 ∷ []) call-AllFit caller-Accepts refl refl
