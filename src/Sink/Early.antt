-- ===== src/Sink/Early.antt =====
-- `poll_ready` of the output sink before any segment is due.
use mathlib.Core.List.{Mem, mem-cons_self}
use mathlib.Core.List.Perm
use streamsync.Base.{
  ℕ, zero, suc, ◌<◌, ◌≡◌, refl, arith, inl, inr, true, false, some, Option-cases, ==_of_ne,
}
use streamsync.Sink.{buffer_sink, poll_ready}
use streamsync.Sink.Contents.{length-perm}
use streamsync.Sink.Delivery.{Relay, write_early}
use streamsync.Sink.Heap.{BinaryHeap, HeapLaws}
use streamsync.Sink.Polls.{round_empty, round_pending}
use streamsync.Sink.Queue
use streamsync.Sink.Queue.{Segment, Clock, cmp}

-- When no segment is due, and timers are not done before their instant, `poll_ready` leaves the sink.
pub poll_ready_early :
    {H : Type 0} (b : BinaryHeap Segment H) (laws : HeapLaws cmp b) (fuel : ℕ) (clock : Clock)
    (s : Relay H)
    → 0 < fuel
    → ((x : Segment) → Mem x (laws.contents s.queue.queue) → clock.now < x.delivery_time)
    → ((t : ℕ) → clock.now < t → clock.elapsed t ≡ false)
    → poll_ready b buffer_sink fuel clock s ≡ some s
poll_ready_early b laws zero clock s some_fuel late timer = absurd (omega arith)
poll_ready_early b laws (suc fuel) clock s some_fuel late timer =
    elim (Option-cases (b.pop s.queue.queue)) [
      | inl none_left ↦
          let (empty, no_front) = laws.pop_none s.queue.queue none_left in
          let is_empty : Queue.is_empty b s.queue ≡ true =
            rw (laws.len-contents s.queue.queue, empty) refl in
          round_empty b buffer_sink fuel clock s s is_empty
      | inr ((t, h), found) ↦
          let (same, front, cap) = laws.contents-pop s.queue.queue h t found in
          let open_queue : Queue.is_empty b s.queue ≡ false =
            ==_of_ne _ _ (omega (arith, length-perm same, laws.len-contents s.queue.queue)) in
          let wait = late t ((Perm.mem_iff same).1 mem-cons_self) in
          round_pending b buffer_sink fuel clock s s open_queue
            (write_early b clock s t front wait (timer _ wait))
    ]
