-- ===== src/Sink/Polls.antt =====
-- The outcomes of a poll of the queue, and of a write of the output sink.
use streamsync.Base.{
  ℕ, zero, suc, ap, ◌∙◌, ◌≢◌, ==_of_ne, if_both, ◌≡◌, inl, inr, refl, true, false, Option, none,
  some, Option-cases, leb,
}
use streamsync.Sink.{
  OutputSink, InnerSink, Done, done, failed, poll_write, poll_ready, when_ready, pass_on,
}
use streamsync.Sink.Heap.{BinaryHeap}
use streamsync.Sink.Queue
use streamsync.Sink.Queue.{SegmentQueue, Segment, Clock, Poll, ready, pending}

module _ {H : Type 0} (b : BinaryHeap Segment H) where
  -- The queue was left as it was, or it gave its first segment.
  pub data Taken (q : SegmentQueue H) : Poll (Option Segment) × SegmentQueue H → Type 0 where
    nothing : Taken q (ready none, q)
    waiting : Taken q (pending, q)
    taken :
        (s : Segment) (h : H)
        → b.pop q.queue ≡ some (s, h)
        → Taken q (ready (some s), Queue.without b s h q)

  pub popped-Taken : (q : SegmentQueue H) → Taken q (Queue.popped b (Queue.pop b q) q)
  unfolding Queue.pop
  popped-Taken q = elim (Option-cases (b.pop q.queue)) [
    | inl empty ↦ rw (empty, Queue.popped) nothing
    | inr ((s, h), found) ↦ rw (found, Queue.popped) (taken s h found)
  ]

  pub take-Taken : (clock : Clock) (q : SegmentQueue H) → Taken q (Queue.take b clock q)
  unfolding Queue.take
  take-Taken clock q = elim (Option-cases (b.peek q.queue)) [
    | inl empty ↦ rw (empty, Queue.take) nothing
    | inr (s, front) ↦
        rw (front, Queue.take)
          (if_both (Taken q) (leb s.delivery_time clock.now) _ _ (popped-Taken q)
            (if_both (Taken q) (clock.elapsed s.delivery_time) _ _ (popped-Taken q) waiting))
  ]

  module _ {K E : Type 0} (inner : InnerSink K E) where
    -- What a write leaves in the queue: all of it, or all but what one pop gave.
    pub data Left (q : SegmentQueue H) : SegmentQueue H → Type 0 where
      kept : Left q q
      less : (s : Segment) (h : H) → b.pop q.queue ≡ some (s, h) → Left q (Queue.without b s h q)

    pass_on-Left :
        (q : SegmentQueue H) (r : Poll (Option Segment) × SegmentQueue H) (s : OutputSink H K)
        → Taken q r
        → Left q (pass_on b inner r s).1.queue
    pass_on-Left q r s nothing = kept
    pass_on-Left q r s waiting = kept
    pass_on-Left q r s (taken t h found) = less t h found

    when_ready-Left :
        (clock : Clock) (r : Poll (Done E)) (s : OutputSink H K)
        → Left s.queue (when_ready b inner clock r s).1.queue
    when_ready-Left clock pending s = kept
    when_ready-Left clock (ready (failed e)) s = kept
    when_ready-Left clock (ready done) s = pass_on-Left s.queue _ s (take-Taken clock s.queue)

    pub poll_write-Left :
        (clock : Clock) (s : OutputSink H K) → Left s.queue (poll_write b inner clock s).1.queue
    unfolding poll_write
    poll_write-Left clock s =
        let (r, k) = inner.poll_ready s.sink in when_ready-Left clock r (record s { sink = k })

-- The rounds of the loop of `poll_ready`.
module _ {H K E : Type 0} (b : BinaryHeap Segment H) (inner : InnerSink K E) (fuel : ℕ)
    (clock : Clock) (s s' : OutputSink H K) where
  abbrev next_round : Poll (Done E) → OutputSink H K → Option (OutputSink H K)
  next_round r t = elim r [ pending ↦ some t | ready _ ↦ poll_ready b inner fuel clock t ]

  pub round_empty : Queue.is_empty b s.queue ≡ true → poll_ready b inner (suc fuel) clock s ≡ some s
  unfolding poll_ready
  round_empty empty = rw (empty, poll_ready) refl

  pub round_ready :
      (d : Done E)
      → Queue.is_empty b s.queue ≡ false
      → poll_write b inner clock s ≡ (ready d, s')
      → poll_ready b inner (suc fuel) clock s ≡ poll_ready b inner fuel clock s'
  unfolding poll_ready
  round_ready d more written = rw (more, poll_ready) (ap (λ w. next_round w.0 w.1) written)

  pub round_pending :
      Queue.is_empty b s.queue ≡ false
      → poll_write b inner clock s ≡ (pending, s')
      → poll_ready b inner (suc fuel) clock s ≡ some s'
  unfolding poll_ready
  round_pending more written = rw (more, poll_ready) (ap (λ w. next_round w.0 w.1) written)

module _ {H K E : Type 0} (b : BinaryHeap Segment H) (inner : InnerSink K E) where
  write_failed :
      (e : E) (clock : Clock) (s : OutputSink H K)
      → inner.poll_ready s.sink ≡ (ready (failed e), s.sink)
      → poll_write b inner clock s ≡ (ready (failed e), s)
  unfolding poll_write
  write_failed e clock s fails =
      ap (λ r. when_ready b inner clock r.0 (record s { sink = r.1 })) fails

  -- When the inner sink fails at every `poll_ready` and stays as it is, `poll_ready` of an output
  -- sink with a segment in its queue does not return, on any fuel.
  pub poll_ready_failing :
      (e : E) (fuel : ℕ) (clock : Clock) (s : OutputSink H K)
      → inner.poll_ready s.sink ≡ (ready (failed e), s.sink)
      → b.len s.queue.queue ≢ 0
      → poll_ready b inner fuel clock s ≡ none
  unfolding poll_ready
  poll_ready_failing e zero clock s fails more = refl
  poll_ready_failing e (suc fuel) clock s fails more =
      round_ready b inner fuel clock s s (failed e) (==_of_ne _ _ more)
        (write_failed e clock s fails)
      ∙ poll_ready_failing e fuel clock s fails more
