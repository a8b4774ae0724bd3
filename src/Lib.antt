-- ===== src/Lib.antt =====
-- stream-delay: a relay between an encoder and a streaming service that holds the stream back by a delay
-- the streamer can change, and that can throw away what has not aired yet.
--
-- The program is a Rust workspace. crates/engine is its core: it records what the encoder sends in a rolling
-- buffer and decides what goes to the destination, and when. crates/flv reads the first bytes of each
-- message for it (codec, keyframe, decoder configuration). crates/relay drives the engine from its tasks,
-- crates/rtmp speaks the protocol at both ends, crates/control and crates/config are the surface to the
-- streamer. The engine takes the time as an argument and does no input or output, so its operations are
-- functions of its state here.
--
-- The files, and the code that each is about:
--   Base            what the components share: lists and tests under the names of the source's idioms,
--                   integers (Base/Int) over the native numbers.
--   Flv             crates/flv/src/lib.rs: the codecs and what a payload says of itself.
--     Flv/Reader    `Reader`, a cursor over a payload, as a state and failure monad.
--     Flv/Hevc      `mod hevc`, without its child `poc`, and `first_hevc_vcl`.
--     Flv/Inspect   `inspect_video`, `inspect_audio`.
--   Engine          crates/engine/src/lib.rs: the data of `Engine`, `Output`, `Pending` and the rest.
--     Rolling       the ring, its index of sync points and its sequence numbers: `entry`, the end of
--                   `ingest`, `drop_before`, the searches.
--     Tracker       crates/engine/src/snapshot.rs, `IngestTracker`, as far as the engine reads it.
--     Sessions      `count_sessions`, `forget_headers`, `forget_sessions`, `frame_ms`, `headers_at`.
--     Splice        `after_sent`, `splice_to`, `out_ts`, `set_pending`, `end_hold`, the methods of `Pending`.
--     Change        `run_pending`, `back_under_max`, `back_to_target`, `restart_point`, `gap_after`.
--     Evict         `keep_from`, `evict`, `memory_short`.
--     Drop          `drop_buffer`, `output_reset`, `discard`, `drop_before`, `restart_after_end`.
--     Ingest        `ingest_start`, `ingest_end`, `ingest_metadata`, `ingest`.
--     Lifecycle     `output_connected`, `output_disconnected`, `unsend`, the end of a broadcast, the queries.
--     Emit          `emit_headers`, `mark_header_sent`, `emit_entry`, `emit_hold_frame`, `emit_hold_headers`.
--     Poll          `poll_budget`.
--     Dump          `dump`, `replay_from`, `replay_instead`, `split_session`, `aired_keyframe`.
--     Commands      `command`, `rewind`, `check_memory`, `ack`, `dump_after`.
--     System        any sequence of these calls, as a step relation on engines, and what can be reached.
--     The children of a module hold what is proved of it, named for what that is. Sound and its children
--     hold the invariant of the whole engine.
--   Rtmp            crates/rtmp: the protocol.
--     Ts            crates/rtmp/src/ts.rs: `TsUnwrapper`.
--     Wire          the big-endian numbers that the files below read and write.
--     Chunk         crates/rtmp/src/chunk.rs: messages, errors and the state of `ChunkDecoder`. Its child
--                   Decode is `next_chunk` and `next_message`, Encode is `ChunkEncoder`; Written, Delivery,
--                   Rest and RoundTrip read back what is written, Taken is what a chunk takes, Sound the
--                   invariant of a decoder, Bounded the length of messages, Feeding bytes that come in pieces.
--     Arena         crates/rtmp/src/chunk.rs: `ArenaPool`, `arena_with_room`, where payloads are placed.
--     Amf0          crates/rtmp/src/amf0.rs: the values; Text is the standard library's
--                   `from_utf8_lossy`, Decode and Encode the two directions.
--     Handshake     crates/rtmp/src/handshake.rs: `ServerHandshake` and `ClientHandshake`.
--     Message       crates/rtmp/src/message.rs: control messages, commands, `@setDataFrame`.
--     Link          crates/rtmp/src/session/mod.rs: `Link`, which the sessions share.
--     Server        crates/rtmp/src/session/server.rs: `ServerSession`, what the application calls; Commands is
--                   `handle_command`, Feed is `feed` and `handle`, Words the texts they use. Protocol is what
--                   a session promises, as courses from state to state; Turns and Kept are what one message
--                   does, Follows, Limits, Guard and Ends are about whole runs.
--     Client        crates/rtmp/src/session/client.rs: `ClientSession`, what the program calls; Replies is what
--                   `handle` does on each reply, Feed is `feed`, StreamId the stream id in an f64, Words and
--                   Protocol as for Server; Turns, Ends and Follows hold what is proved.
--   Tests           runs at concrete inputs.
--
-- How state and operations correspond: a `&mut self` method is a function from the engine, or from its
-- `Output` where it touches nothing else, to the engine after it, with what it returns or pushes beside it.
-- The fields `ring`, `syncs`, `base_seq`, `next_seq` and `bytes` of `Engine` are grouped in a record
-- `Buffer`. `Pending::None` is `idle`, and `Kind::Data` is `script`. Times, sequence numbers and byte counts
-- are u64 and usize that stay far below 2^64, and plain numbers here; `saturating_sub` is subtraction that
-- stops at 0; what is sent as a u32 is written out modulo 2^32. `i64` and `i32` values are integers.
-- `size_of::<Entry>()` is 88 bytes, its value where pointers have 8 bytes. `fingerprint` hashes with the
-- standard library's `DefaultHasher`, whose algorithm is not specified: it is a parameter, any function.
--
-- Loops: those over a list are structural. The loop of `evict` runs on fuel, one unit for each entry of the
-- ring, and each round takes an entry. `run_pending` loops at most three times, and is written as calls of
-- its branches. The loop of `poll_budget` runs on fuel, and gives `none` if the fuel runs out; that it ends is
-- not shown. What is stated of a poll is stated of every number of rounds of its loop (`poll_progress`),
-- returned or not, and a call of it can lead to what it has come to after any of them. The loops over NAL units run on fuel for every byte, and go
-- past five bytes or more in each round. `next_message` has fuel for one round more than the buffer has
-- bytes, decoding AMF0 for one call more than there are bytes, and `feed` for one message more than there are bytes;
-- they are enough, which is shown.
--
-- In crates/rtmp an index that moves over a buffer is the bytes from the index on, a writer's value is what
-- it appends, a `HashMap` is the list of its entries, an f64 the eight bytes of its pattern, and a `usize` has
-- 64 bits. A decoder's blocks are apart from its state, since they decide where a payload stands and not
-- what it is. Random bytes (crate rand) and which blocks are free (`try_reclaim` of crate bytes) are
-- arguments. The count of bytes received by a link does not reach 2^64.
--
-- Not modelled: what `IngestTracker` measures for the user interface alone (the frame rate), the snapshot,
-- `config_offset`, which only `hevc::poc` uses, logging, the URLs of crates/rtmp, and the
-- other crates.
pub mod Base
pub mod Flv
pub mod Engine
pub mod Rtmp
pub mod Tests
