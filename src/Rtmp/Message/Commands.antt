-- ===== src/Rtmp/Message/Commands.antt =====
-- crates/rtmp/src/message.rs, `write_command`: a command from one side of a connection to the other.
use stream_delay.Base.{ℕ, List, [], ◌++◌, map, ◌≡◌, refl}
use stream_delay.Flv.{Bytes}
use stream_delay.Rtmp.Chunk.{ChunkDecoder, Message}
use stream_delay.Rtmp.Chunk.Decode.{received, next_message}
use stream_delay.Rtmp.Chunk.Encode.{ChunkEncoder}
use stream_delay.Rtmp.Chunk.Written.{Accepts}
use stream_delay.Rtmp.Chunk.RoundTrip.{next_message-write}
use stream_delay.Rtmp.Amf0.{Amf0Value}
use stream_delay.Rtmp.Amf0.Decode.{ok, decode_all}
use stream_delay.Rtmp.Amf0.Encode.{encode_all}
use stream_delay.Rtmp.Amf0.Fits.{normal}
use stream_delay.Rtmp.Amf0.Whole.{AllFit, decode_all-encode_all}
use stream_delay.Rtmp.Message.{command_amf0, write_command}

-- A command as a message.
abbrev pub command_message : ℕ → ℕ → List Amf0Value → Message
command_message csid stream_id values = record {
  csid = csid;
  timestamp = 0;
  type_id = command_amf0;
  stream_id = stream_id;
  payload = encode_all values;
}

-- A command whose values the format can hold, written by an encoder whose chunk size is the decoder's, is
-- read by a decoder that accepts it as a message, as a command on the same stream whose payload decodes to
-- the values in their normal forms, with nothing left; what was sent behind it stays in the buffer.
pub write_command-decoded :
    (e : ChunkEncoder) (d : ChunkDecoder) (csid stream_id : ℕ) (values : List Amf0Value) (r : Bytes)
    → AllFit values
    → Accepts d (command_message csid stream_id values)
    → e.chunk_size ≡ d.chunk_size
    → d.buf ≡ write_command e csid stream_id values ++ r
    → (m : Message) × (d' : ChunkDecoder) × (next_message d ≡ received m d')
      × (d'.buf ≡ r)
      × (m.type_id ≡ command_amf0)
      × (m.stream_id ≡ stream_id)
      × (decode_all m.payload ≡ ok (map normal values) [])
unfolding write_command
write_command-decoded e d csid stream_id values r fits a same b =
    let x = next_message-write e d (command_message csid stream_id values) r a same b in
    (
      command_message csid stream_id values,
      x.after,
      x.result,
      x.buf,
      refl,
      refl,
      decode_all-encode_all values fits,
    )
