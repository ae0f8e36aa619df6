-- ===== src/Sink/Queue.antt =====
-- `SegmentQueue` of stsync-proxy/src/srt/sink.rs over that of srt/queue.rs, `Segment` and its order,
-- and the future `Take`. Instants are microseconds.
use streamsync.Base.{
  ℕ, ◌+◌, ◌-◌, Bool, ◌==◌, leb, Ordering, compare, Option, none, some, List, length, if◌then◌else◌,
}
use streamsync.Packet.{DataPacket, message_number}
use streamsync.Sequence.{message_bits}
use streamsync.Serial
use streamsync.Sink.Heap.{BinaryHeap}

pub data Poll (A : Type 0) : Type 0 where
  ready : A → Poll A
  pending : Poll A

-- What a poll reads: the time, and whether a timer made during the poll for a later instant is
-- already done.
pub record Clock : Type 0 where
  pub now : ℕ
  pub elapsed : ℕ → Bool

pub record Segment : Type 0 where
  pub message_number : ℕ
  pub delivery_time : ℕ
  pub payload : List ℕ

-- `Ord for Segment`.
unfoldable pub cmp : Segment → Segment → Ordering
cmp s t = elim (Serial.cmp message_bits s.message_number t.message_number) [
  | Ordering.lt ↦ Ordering.lt
  | Ordering.eq ↦ compare s.delivery_time t.delivery_time
  | Ordering.gt ↦ Ordering.gt
]

-- `queue` is the heap inside the `SegmentQueue` of queue.rs.
pub record SegmentQueue (H : Type 0) : Type 0 where
  pub queue : H
  pub size : ℕ
  pub start : ℕ
  pub latency : ℕ

module _ {H : Type 0} (b : BinaryHeap Segment H) where
  unfoldable pub new : ℕ → ℕ → ℕ → SegmentQueue H
  new start latency buffer_size = record {
    queue = b.with_capacity buffer_size;
    size = 0;
    start = start;
    latency = latency;
  }

  abbrev pub len : SegmentQueue H → ℕ
  len q = b.len q.queue

  abbrev pub capacity : SegmentQueue H → ℕ
  capacity q = b.capacity q.queue

  abbrev pub is_empty : SegmentQueue H → Bool
  is_empty q = len q == 0

  -- `push` of queue.rs.
  unfoldable pub push_heap : Segment → H → H
  push_heap segment h = if b.len h == b.capacity h then h else b.push segment h

  -- `size -= segment.payload.len()`.
  abbrev pub without : Segment → H → SegmentQueue H → SegmentQueue H
  without segment h q = record q { queue = h; size = q.size - length segment.payload }

  unfoldable pub pop : SegmentQueue H → Option (Segment × SegmentQueue H)
  pop q = elim (b.pop q.queue) [
    | none ↦ none
    | some (segment, h) ↦ some (segment, without segment h q)
  ]

  unfoldable pub clear : SegmentQueue H → SegmentQueue H
  clear q = record q { queue = b.clear q.queue; size = 0 }

-- `packet` as the segment that `push` makes of it.
abbrev pub segment_of : ℕ → ℕ → DataPacket → Segment
segment_of start latency packet = record {
  message_number = message_number packet.header;
  delivery_time = start + packet.header.timestamp + latency;
  payload = packet.payload;
}

module _ {H : Type 0} (b : BinaryHeap Segment H) where
  unfoldable pub push : DataPacket → SegmentQueue H → SegmentQueue H
  push packet q = if len b q == capacity b q then q else record q {
    size = q.size + length packet.payload;
    queue = push_heap b (segment_of q.start q.latency packet) q.queue;
  }

  -- `Poll::Ready(self.queue.pop())`.
  abbrev pub popped :
      Option (Segment × SegmentQueue H) → SegmentQueue H → Poll (Option Segment) × SegmentQueue H
  popped none q = (ready none, q)
  popped (some (segment, q')) q = (ready (some segment), q')

  -- One poll of a fresh `take()`, which is dropped afterwards.
  unfoldable pub take : Clock → SegmentQueue H → Poll (Option Segment) × SegmentQueue H
  take clock q = elim (b.peek q.queue) [
    | none ↦ (ready none, q)
    | some segment ↦
        if leb segment.delivery_time clock.now
        then popped (pop b q) q
        else if clock.elapsed segment.delivery_time
        then popped (pop b q) q
        else (pending, q)
  ]
