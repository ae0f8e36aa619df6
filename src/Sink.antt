-- ===== src/Sink.antt =====
-- The output sink of stsync-proxy/src/srt/sink.rs: it puts the segments of a publishing peer back
-- into order and passes each on when its delivery time has come.
pub mod Heap
pub mod Queue
pub mod Rank
pub mod Contents
pub mod Invariant
pub mod Polls
pub mod Delivery
pub mod Reassembly
pub mod Reorder
pub mod Early
pub mod Linear
mod Tests
use streamsync.Base.{
  ℕ, zero, suc, ◌+◌, ◌-◌, ◌%◌, ◌^◌, true, false, Option, none, some, List, [], ◌∷◌, ◌++◌,
  if◌then◌else◌,
}
use streamsync.Packet.{DataPacket}
use streamsync.Sink.Heap.{BinaryHeap}
use streamsync.Sink.Queue
use streamsync.Sink.Queue.{SegmentQueue, Segment, Poll, ready, pending, Clock}

-- `Result<(), E>`.
pub data Done (E : Type 0) : Type 0 where
  done : Done E
  failed : E → Done E

-- What the sink uses of the inner `Sink<Bytes>`, whose state is a `K`. `LiveSink` of session.rs
-- hands each call on to it.
pub record InnerSink (K E : Type 0) : Type 0 where
  pub poll_ready : K → Poll (Done E) × K
  pub start_send : List ℕ → K → Done E × K
  pub poll_flush : K → Poll (Done E) × K
  pub poll_close : K → Poll (Done E) × K

pub record OutputSink (H K : Type 0) : Type 0 where
  pub next_msgnum : ℕ
  pub queue : SegmentQueue H
  pub sink : K

module _ {H K : Type 0} (b : BinaryHeap Segment H) where
  unfoldable pub new : K → ℕ → ℕ → ℕ → OutputSink H K
  new inner start latency buffer_size = record {
    next_msgnum = 1;
    queue = Queue.new b start latency buffer_size;
    sink = inner;
  }

  -- `8192 - self.queue.len()` on a 64-bit `usize`.
  unfoldable pub buffer_left : OutputSink H K → ℕ
  buffer_left s = (8_192 + 2 ^ 64 - Queue.len b s.queue) % 2 ^ 64

  unfoldable pub start_send : DataPacket → OutputSink H K → OutputSink H K
  start_send packet s = record s { queue = Queue.push b packet s.queue }

module _ {H K : Type 0} where
  unfoldable pub update_start : ℕ → OutputSink H K → OutputSink H K
  update_start instant s = record s { queue = record s.queue { start = instant } }

module _ {H K E : Type 0} (b : BinaryHeap Segment H) (inner : InnerSink K E) where
  -- The arm of `poll_write` for a segment whose time has come.
  abbrev pub pass_on :
      Poll (Option Segment) × SegmentQueue H → OutputSink H K → Poll (Done E) × OutputSink H K
  pass_on (pending, q) s = (pending, record s { queue = q })
  pass_on (ready none, q) s = (ready done, record s { queue = q })
  pass_on (ready (some segment), q) s =
      let (r, k) = inner.start_send segment.payload s.sink in
      (ready r, record s { queue = q; sink = k })

  abbrev pub when_ready : Clock → Poll (Done E) → OutputSink H K → Poll (Done E) × OutputSink H K
  when_ready clock pending s = (pending, s)
  when_ready clock (ready (failed e)) s = (ready (failed e), s)
  when_ready clock (ready done) s = pass_on (Queue.take b clock s.queue) s

  unfoldable pub poll_write : Clock → OutputSink H K → Poll (Done E) × OutputSink H K
  poll_write clock s =
      let (r, k) = inner.poll_ready s.sink in when_ready clock r (record s { sink = k })

  -- The loop of `poll_ready`, on fuel; it leaves the loop to answer `Ready(Ok(()))`.
  unfoldable pub poll_ready : ℕ → Clock → OutputSink H K → Option (OutputSink H K)
  poll_ready zero clock s = none
  poll_ready (suc fuel) clock s = elim (Queue.is_empty b s.queue) [
    | true ↦ some s
    | false ↦
        let (r, s') = poll_write clock s in
        elim r [ pending ↦ some s' | ready _ ↦ poll_ready fuel clock s' ]
  ]

  abbrev pub flush_inner : OutputSink H K → Poll (Done E) × OutputSink H K
  flush_inner s = let (r, k) = inner.poll_flush s.sink in (r, record s { sink = k })

  unfoldable pub poll_flush : ℕ → Clock → OutputSink H K → Option (Poll (Done E) × OutputSink H K)
  poll_flush zero clock s = none
  poll_flush (suc fuel) clock s = elim (Queue.is_empty b s.queue) [
    | true ↦ some (flush_inner s)
    | false ↦
        let (r, s') = poll_write clock s in
        elim r [
          | pending ↦ some (pending, s')
          | ready (failed e) ↦ some (ready (failed e), s')
          | ready done ↦ poll_flush fuel clock s'
        ]
  ]

  unfoldable pub poll_close : OutputSink H K → Poll (Done E) × OutputSink H K
  poll_close s =
      let q = if Queue.is_empty b s.queue then s.queue else Queue.clear b s.queue in
      let (r, k) = inner.poll_close s.sink in (r, record s { queue = q; sink = k })

-- `BufferSink` of session/buffer.rs: the payloads that went into its broadcast channel. The result
-- of the channel's `send` is dropped.
unfoldable pub buffer_sink : InnerSink (List (List ℕ)) ⊥
buffer_sink = record {
  poll_ready = λ sent. (ready done, sent);
  start_send = λ item sent. (done, sent ++ (item ∷ []));
  poll_flush = λ sent. (ready done, sent);
  poll_close = λ sent. (ready done, sent);
}
