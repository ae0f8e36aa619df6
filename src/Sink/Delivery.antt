-- ===== src/Sink/Delivery.antt =====
-- `poll_ready` of the output sink over the broadcast channel of a `BufferSink`.
use mathlib.Core.List.{Mem}
use streamsync.Base.{
  ℕ, ◌≤◌, ◌<◌, ◌≡◌, refl, ap, arith, true, false, some, List, [], ◌∷◌, ◌++◌, map, leb,
}
use streamsync.Sink.{OutputSink, done, buffer_sink, poll_write, pass_on}
use streamsync.Sink.Heap.{BinaryHeap}
use streamsync.Sink.Queue
use streamsync.Sink.Queue.{SegmentQueue, Segment, Clock, Poll, ready, pending, cmp}

-- The segments are in the order of `rank`, and before all of `rest`.
abbrev pub IsSorted : (Segment → ℕ) → List Segment → List Segment → Type 0
IsSorted rank [] rest = Unit {0}
IsSorted rank (s ∷ l) rest =
    ((t : Segment) → Mem t (l ++ rest) → rank s ≤ rank t) × IsSorted rank l rest

abbrev pub payloads : List Segment → List (List ℕ)
payloads l = map (λ s. s.payload) l

-- An output sink that sends into the channel of a `BufferSink`.
abbrev pub Relay : Type 0 → Type 0
Relay H = OutputSink H (List (List ℕ))

module _ {H : Type 0} (b : BinaryHeap Segment H) where
  take_due :
      (clock : Clock) (q : SegmentQueue H) (t : Segment) (h : H)
      → b.peek q.queue ≡ some t
      → b.pop q.queue ≡ some (t, h)
      → t.delivery_time ≤ clock.now
      → Queue.take b clock q ≡ (ready (some t), Queue.without b t h q)
  unfolding Queue.take Queue.pop
  take_due clock q t h front found due =
      let is_due : leb t.delivery_time clock.now ≡ true = ground arith in
      rw (front, Queue.take) (rw is_due (rw (found, Queue.popped) refl))

  take_early :
      (clock : Clock) (q : SegmentQueue H) (t : Segment)
      → b.peek q.queue ≡ some t
      → clock.now < t.delivery_time
      → clock.elapsed t.delivery_time ≡ false
      → Queue.take b clock q ≡ (pending, q)
  unfolding Queue.take
  take_early clock q t front early running =
      let not_due : leb t.delivery_time clock.now ≡ false = ground arith in
      rw (front, Queue.take) (rw not_due (rw running refl))

  -- The front segment is sent when it is due.
  pub write_due :
      (clock : Clock) (s : Relay H) (t : Segment) (h : H)
      → b.peek s.queue.queue ≡ some t
      → b.pop s.queue.queue ≡ some (t, h)
      → t.delivery_time ≤ clock.now
      → poll_write b buffer_sink clock s ≡ (
        ready done,
        record s { queue = Queue.without b t h s.queue; sink = s.sink ++ (t.payload ∷ []) },
      )
  unfolding poll_write buffer_sink
  write_due clock s t h front found due =
      ap (λ r. pass_on b buffer_sink r s) (take_due clock s.queue t h front found due)

  pub write_early :
      (clock : Clock) (s : Relay H) (t : Segment)
      → b.peek s.queue.queue ≡ some t
      → clock.now < t.delivery_time
      → clock.elapsed t.delivery_time ≡ false
      → poll_write b buffer_sink clock s ≡ (pending, s)
  unfolding poll_write buffer_sink
  write_early clock s t front early running =
      ap (λ r. pass_on b buffer_sink r s) (take_early clock s.queue t front early running)
