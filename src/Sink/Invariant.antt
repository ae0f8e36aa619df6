-- ===== src/Sink/Invariant.antt =====
-- What every operation of the output sink keeps: its byte count, and the bound on its queue.
use mathlib.Core.Path.{subst}
use streamsync.Sink.Polls.{Left, kept, less, poll_write-Left}
use streamsync.Base.{
  if_both, OnSome, ℕ, suc, zero, ◌≤◌, ◌<◌, ◌≡◌, sym, ap, arith, inl, inr, Bool-cases, some, length,
  ◌==◌,
}
use streamsync.Packet.{DataPacket}
use streamsync.Sink.{
  OutputSink, InnerSink, Done, done, failed, new, start_send, poll_write, poll_close, update_start,
  poll_ready, poll_flush,
}
use streamsync.Sink.Contents.{total, length-perm, total-perm}
use streamsync.Sink.Heap.{BinaryHeap, HeapLaws}
use streamsync.Sink.Queue
use streamsync.Sink.Queue.{SegmentQueue, Segment, Clock, cmp, segment_of, Poll, ready, pending}

module _ {H : Type 0} (b : BinaryHeap Segment H) (laws : HeapLaws cmp b) where
  -- The byte count is that of the segments, and the queue fits its capacity, of at least `room`.
  pub record IsValid (room : ℕ) (q : SegmentQueue H) : Type 0 where
    pub counted : q.size ≡ total (laws.contents q.queue)
    pub fits : Queue.len b q ≤ Queue.capacity b q
    pub roomy : room ≤ Queue.capacity b q

  new-IsValid : (start latency room : ℕ) → IsValid room (Queue.new b start latency room)
  unfolding Queue.new
  new-IsValid start latency room = record {
    counted = ap total (sym (laws.contents-with_capacity room));
    fits = omega (
      arith,
      laws.len-contents (b.with_capacity room),
      ap length (laws.contents-with_capacity room),
    );
    roomy = laws.capacity-with_capacity room;
  }

  push-IsValid :
      (room : ℕ) (packet : DataPacket) (q : SegmentQueue H)
      → IsValid room q
      → IsValid room (Queue.push b packet q)
  unfolding Queue.push Queue.push_heap
  push-IsValid room packet q v = elim (Bool-cases (Queue.len b q == Queue.capacity b q)) [
    | inl full ↦ rw full v
    | inr room_left ↦
        let below : Queue.len b q < Queue.capacity b q = ground (arith, v.fits) in
        let s = segment_of q.start q.latency packet in
        let same = laws.contents-push s q.queue in
        rw (room_left) (record {
          counted = omega (arith, v.counted, total-perm same);
          fits = omega (
            arith,
            below,
            length-perm same,
            laws.len-contents q.queue,
            laws.len-contents (b.push s q.queue),
            laws.capacity-push s q.queue below,
          );
          roomy = omega (arith, v.roomy, laws.capacity-push s q.queue below);
        })
  ]

  -- A pop never takes more bytes off the count than it holds.
  pop-IsValid :
      (room : ℕ) (q : SegmentQueue H) (s : Segment) (h : H)
      → b.pop q.queue ≡ some (s, h)
      → IsValid room q
      → IsValid room (Queue.without b s h q) × (length s.payload ≤ q.size)
  pop-IsValid room q s h e v =
      let (same, front, cap) = laws.contents-pop q.queue h s e in
      (
        record {
          counted = omega (arith, v.counted, total-perm same);
          fits = omega (
            arith,
            v.fits,
            length-perm same,
            cap,
            laws.len-contents q.queue,
            laws.len-contents h,
          );
          roomy = omega (arith, v.roomy, cap);
        },
        omega (arith, v.counted, total-perm same),
      )

  clear-IsValid : (room : ℕ) (q : SegmentQueue H) → IsValid room q → IsValid room (Queue.clear b q)
  unfolding Queue.clear
  clear-IsValid room q v = record {
    counted = ap total (sym (laws.contents-clear q.queue).0);
    fits =
        omega
          (arith, laws.len-contents (b.clear q.queue), ap length (laws.contents-clear q.queue).0);
    roomy = omega (arith, v.roomy, (laws.contents-clear q.queue).1);
  }

module _ {H K E : Type 0} (b : BinaryHeap Segment H) (laws : HeapLaws cmp b)
    (inner : InnerSink K E) where
  Left-IsValid :
      (room : ℕ) (q q' : SegmentQueue H)
      → Left b inner q q'
      → IsValid b laws room q
      → IsValid b laws room q'
  Left-IsValid room q q' kept v = v
  Left-IsValid room q q' (less s h found) v = (pop-IsValid b laws room q s h found v).0

  poll_write-IsValid :
      (room : ℕ) (clock : Clock) (s : OutputSink H K)
      → IsValid b laws room s.queue
      → IsValid b laws room (poll_write b inner clock s).1.queue
  poll_write-IsValid room clock s = Left-IsValid room _ _ (poll_write-Left b inner clock s)

  poll_ready-IsValid :
      (room fuel : ℕ) (clock : Clock) (s : OutputSink H K)
      → IsValid b laws room s.queue
      → OnSome (λ s'. IsValid b laws room s'.queue) (poll_ready b inner fuel clock s)
  unfolding poll_ready
  poll_ready-IsValid room zero clock s v = tt
  poll_ready-IsValid room (suc fuel) clock s v = elim (Bool-cases (Queue.is_empty b s.queue)) [
    | inl empty ↦ rw (empty, OnSome) v
    | inr more ↦
        let v' = poll_write-IsValid room clock s v in
        rw (more, OnSome)
          (round _ (poll_write b inner clock s).0 v' (poll_ready-IsValid room fuel clock _ v'))
  ]
    where
      round :
          (s' : OutputSink H K) (r : Poll (Done E))
          → IsValid b laws room s'.queue
          → OnSome (λ s''. IsValid b laws room s''.queue) (poll_ready b inner fuel clock s')
          → OnSome
              (λ s''. IsValid b laws room s''.queue)
              (elim r [ pending ↦ some s' | ready _ ↦ poll_ready b inner fuel clock s' ])
      round s' pending v' later = v'
      round s' (ready d) v' later = later

  poll_flush-IsValid :
      (room fuel : ℕ) (clock : Clock) (s : OutputSink H K)
      → IsValid b laws room s.queue
      → OnSome (λ r. IsValid b laws room r.1.queue) (poll_flush b inner fuel clock s)
  unfolding poll_flush
  poll_flush-IsValid room zero clock s v = tt
  poll_flush-IsValid room (suc fuel) clock s v = elim (Bool-cases (Queue.is_empty b s.queue)) [
    | inl empty ↦ rw (empty, OnSome) v
    | inr more ↦
        let v' = poll_write-IsValid room clock s v in
        rw (more, OnSome)
          (round _ (poll_write b inner clock s).0 v' (poll_flush-IsValid room fuel clock _ v'))
  ]
    where
      round :
          (s' : OutputSink H K) (r : Poll (Done E))
          → IsValid b laws room s'.queue
          → OnSome (λ r. IsValid b laws room r.1.queue) (poll_flush b inner fuel clock s')
          → OnSome
              (λ r. IsValid b laws room r.1.queue)
              (elim r [
                | pending ↦ some (pending, s')
                | ready (failed e) ↦ some (ready (failed e), s')
                | ready done ↦ poll_flush b inner fuel clock s'
              ])
      round s' pending v' later = v'
      round s' (ready (failed e)) v' later = v'
      round s' (ready done) v' later = later

  poll_close-IsValid :
      (room : ℕ) (s : OutputSink H K)
      → IsValid b laws room s.queue
      → IsValid b laws room (poll_close b inner s).1.queue
  unfolding poll_close
  poll_close-IsValid room s v =
      if_both (IsValid b laws room) (Queue.is_empty b s.queue) _ _ v
        (clear-IsValid b laws room s.queue v)

  -- The sinks that a connection can hold: a new one, after any calls.
  pub data Reachable (room : ℕ) : OutputSink H K → Type 0 where
    made : (k : K) (start latency : ℕ) → Reachable room (new b k start latency room)
    sent :
        {s : OutputSink H K} (packet : DataPacket)
        → Reachable room s
        → Reachable room (start_send b packet s)
    restarted :
        {s : OutputSink H K} (now : ℕ) → Reachable room s → Reachable room (update_start now s)
    readied :
        {s s' : OutputSink H K} (fuel : ℕ) (clock : Clock)
        → Reachable room s
        → poll_ready b inner fuel clock s ≡ some s'
        → Reachable room s'
    flushed :
        {s s' : OutputSink H K} (fuel : ℕ) (clock : Clock) (r : Poll (Done E))
        → Reachable room s
        → poll_flush b inner fuel clock s ≡ some (r, s')
        → Reachable room s'
    closed : {s : OutputSink H K} → Reachable room s → Reachable room (poll_close b inner s).1

  -- Of an output sink made with `room` as its buffer size, after any sequence of `start_send`,
  -- `update_start`, `poll_ready`, `poll_flush` and `poll_close`, over any inner sink and a heap that
  -- keeps to its documentation: the byte count is the sum of the lengths of the queued payloads, the
  -- queue holds no more segments than its capacity, and that is still at least `room`.
  pub Reachable-IsValid :
      (room : ℕ) (s : OutputSink H K) → Reachable room s → IsValid b laws room s.queue
  unfolding new start_send update_start
  Reachable-IsValid room _ (made k start latency) = new-IsValid b laws start latency room
  Reachable-IsValid room _ (sent packet r) =
      push-IsValid b laws room packet _ (Reachable-IsValid room _ r)
  Reachable-IsValid room _ (restarted now r) =
      let v = Reachable-IsValid room _ r in
      record { counted = v.counted; fits = v.fits; roomy = v.roomy }
  Reachable-IsValid room s (readied fuel clock r e) =
      subst (OnSome (λ s'. IsValid b laws room s'.queue)) e
        (poll_ready-IsValid room fuel clock _ (Reachable-IsValid room _ r))
  Reachable-IsValid room s (flushed fuel clock a r e) =
      subst (OnSome (λ x. IsValid b laws room x.1.queue)) e
        (poll_flush-IsValid room fuel clock _ (Reachable-IsValid room _ r))
  Reachable-IsValid room _ (closed r) = poll_close-IsValid room _ (Reachable-IsValid room _ r)
