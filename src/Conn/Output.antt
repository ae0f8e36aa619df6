-- ===== src/Conn/Output.antt =====
-- The output sink of srt/sink.rs as the sink of a connection.
use streamsync.Conn.State.{OutputSink}
use streamsync.Sink
use streamsync.Sink.Heap.{BinaryHeap}
use streamsync.Sink.Queue.{Segment}

abbrev pub output_sink : {H K : Type 0} → BinaryHeap Segment H → OutputSink (Sink.OutputSink H K)
output_sink b = record {
  update_start = λ now s. Sink.update_start now s;
  buffer_left = λ s. Sink.buffer_left b s;
}
