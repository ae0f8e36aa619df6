-- ===== src/Lib.antt =====
-- Streamsync: the protocol core of stsync-proxy, a relay for live streams over SRT.
--
-- Peers either publish a stream to the proxy or request one from it. A datagram is a `Packet`: a
-- header of four words and a body. A `Connection` keeps the state of one peer; it reads packets
-- from a channel, hands each to the handler of its type, and queues its answers for the socket.
-- With a publishing peer it puts received segments into an output sink, keeps a list of lost
-- sequence numbers and asks for them again (NAK); with a requesting peer it sends the segments of a
-- stream, keeps the last ones in a ring buffer, and answers a NAK from it.
--
-- - Base: the names and lemmas that all share: Boolean tests, lists over the native numbers, words,
--   `&` with a mask.
-- - Serial: utils/serial.rs, arithmetic and order of serial numbers of n bits.
-- - Sequence, Timestamp: srt/utils/sequence.rs and message.rs, srt/proto/timestamp.rs.
-- - Buffer: srt/buffer.rs, the ring buffer; uninitialized slots and destructors are explicit.
-- - Proto: proto.rs, the big-endian codec and the bit fields of a word.
-- - Types: the tags and flags of srt/mod.rs.
-- - Packet: headers, data packets and generic packets of srt/mod.rs, srt/proto/header.rs, and the
--   data packet's builder.
-- - Control: the control packets of srt/proto.rs with what streamsync-macros/src/packet.rs derives
--   for them, and the builders of srt/proto/builder.rs.
-- - Extensions: the handshake's extensions of srt/mod.rs; StreamId: the stream id and its parsing.
-- - Handshake: the handshake packet of srt/proto.rs; Address: `PeerIpAddress`.
-- - Stream: srt/stream.rs, the retransmission buffer of a requesting peer.
-- - Sink: srt/sink.rs and srt/queue.rs, the output sink of a publishing peer: Heap (what is used of
--   `BinaryHeap`, and its documented laws), Queue (`SegmentQueue`, `Segment`, `Take`), Linear (a heap
--   that keeps the laws).
-- - Conn: srt/conn.rs: LossList, Rtt, Queue (`TransmissionQueue`), Metrics (srt/metrics.rs), State
--   (`Connection`, `timestamp`, `send`, `close`), Receive (`handle_data`), Transmit (the sending loop
--   of `poll_read`, `handle_nak`), Handlers (the others and `tick`), Output (the sink of Sink as the
--   connection's), Shared (the server's state behind the connections), Handshake
--   (`handle_handshake`, `reject`), Dispatch (`handle_packet`, `poll_read`), Polls (the polls of the
--   stored futures and the loop of `poll`), Relay and Closing (runs of that loop), Modes (what the
--   handlers keep of the mode).
-- - Session: session/buffer.rs, the registry of session keys; Manager: `BufferSessionManager`; Id: the
--   ids of session.rs; File: session/file.rs.
-- - Server: srt/state.rs, srt/handshake.rs, srt/server.rs: the pool, INDUCTION and CONCLUSION,
--   `handle_message`, the life of a connection.
-- - Http: http/, the routes and the making of session keys; state.rs and database.rs behind them.
-- - Metrics: metrics.rs, the atomic counters and gauges.
-- Paths without a first folder are below stsync-proxy/src.
--
-- The model is of a release build: `u32` wraps, debug assertions are off. A `usize` that only counts
-- is a number without bound, but the gauges of the server, which also go down, wrap at 64 bits. What
-- `Connection::new` does before it panics is kept. Instants and durations are microseconds, with one value of
-- `Instant::now()` per call. A byte is a number below 256, and a reader is the list of the bytes
-- left. `Result` has the outcomes `ok`, `err` and `panicked`.
--
-- Fuel: the iterator over sequence numbers runs for one round more than its range has numbers. The
-- conversion of a range into `SequenceNumbers` calls itself; its fuel is the depth for which the
-- stack has room, a parameter of the receiving side, and running out of it counts as a panic.
--
-- The loop that decodes extensions has fuel for its rounds, the bytes and one, and a panic stands
-- for running out of it. The loops of the output sink's `poll_ready` and `poll_flush` give nothing
-- when their fuel is out. The loop of a connection's `poll` takes a list of what its rounds find, and
-- says that it goes on when the list is used up; a theorem on every list is one on every run.
--
-- Parameters: the standard library's binary search and binary heap (documented behaviour as
-- hypotheses, which a linear scan and a sorted list satisfy), its UTF-8 check, `f32`, timers, the
-- session manager and the inner sink as interfaces with those of session/buffer.rs as instances, and
-- what the channel, the interval, the socket and the stream yield at each poll, and the futures `Feed` and
-- `Close` of the futures crate. The hash set of the pool is a
-- list; of an address only equality is used.
--
-- Not modelled: the contents of tokio's broadcast channels; the map of connection metrics and the page
-- that prints it; the sockets, tasks and wakers of tokio, the HTTP listener and headers, configuration
-- and the command line tools, which are I/O and glue; formatting but that of ids.
pub mod Base
pub mod Serial
pub mod Buffer
pub mod Proto
pub mod Types
pub mod Packet
pub mod Control
pub mod Extensions
pub mod Sequence
pub mod Timestamp
pub mod Stream
pub mod Sink
pub mod Conn
pub mod Session
pub mod Server
pub mod Handshake
pub mod Http
pub mod Metrics
