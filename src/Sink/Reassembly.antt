-- ===== src/Sink/Reassembly.antt =====
-- `poll_ready` of the output sink over a `BufferSink`: termination and order of delivery.
use mathlib.Core.List.{Perm, append_assoc, append-nil}
use mathlib.Core.List.Perm
use mathlib.Core.Path.{subst}
use mathlib.Core.Option.{none-ne-some, some-injective}
use streamsync.Base.{
  ℕ, zero, suc, ◌≤◌, ◌<◌, ◌≡◌, ◌∙◌, refl, sym, arith, inl, inr, true, false, some, Option-cases,
  List, [], ◌∷◌, ◌++◌, length, ==_of_ne,
}
use native.Mathlib.Decide.{dec_le}
use streamsync.Sink.{done, buffer_sink, poll_ready}
use streamsync.Sink.Contents.{length-perm}
use streamsync.Sink.Delivery.{Relay, IsSorted, payloads, write_due, write_early}
use streamsync.Sink.Heap.{BinaryHeap, HeapLaws}
use streamsync.Sink.Polls.{round_empty, round_ready, round_pending}
use streamsync.Sink.Queue
use streamsync.Sink.Queue.{SegmentQueue, Segment, Clock, Poll, ready, pending, cmp}

abbrev pub AreDue : ℕ → List Segment → Type 0
AreDue now [] = Unit {0}
AreDue now (s ∷ l) = (s.delivery_time ≤ now) × AreDue now l

module _ {H : Type 0} (b : BinaryHeap Segment H) (laws : HeapLaws cmp b) where
  -- From `s` to `s'`, all that `now` makes due was sent, in order.
  pub record Delivers (now : ℕ) (rank : Segment → ℕ) (s s' : Relay H) : Type 0 where
    pub sent : List Segment
    pub channel : s'.sink ≡ s.sink ++ payloads sent
    pub same : Perm (laws.contents s.queue.queue) (sent ++ laws.contents s'.queue.queue)
    pub sorted : IsSorted rank sent (laws.contents s'.queue.queue)
    pub due : AreDue now sent
    pub waiting : (t : Segment) → b.peek s'.queue.queue ≡ some t → now < t.delivery_time

  -- Nothing is sent, since nothing is queued or the front is not due.
  rests :
      (now : ℕ) (rank : Segment → ℕ) (s : Relay H)
      → ((t : Segment) → b.peek s.queue.queue ≡ some t → now < t.delivery_time)
      → Delivers now rank s s
  rests now rank s wait = record {
    sent = [];
    channel = sym (append-nil s.sink);
    same = Perm.rfl;
    sorted = tt;
    due = tt;
    waiting = wait;
  }

  -- One segment is sent, and then others.
  sends :
      (now : ℕ) (rank : Segment → ℕ) (s s' : Relay H) (t : Segment) (h : H)
      → laws.IsOrdered rank s.queue.queue
      → b.pop s.queue.queue ≡ some (t, h)
      → t.delivery_time ≤ now
      → Delivers now rank
          (record s { queue = Queue.without b t h s.queue; sink = s.sink ++ (t.payload ∷ []) })
          s'
      → Delivers now rank s s'
  sends now rank s s' t h o found due d =
      let least = (laws.pop_least rank s.queue.queue h t o found).1 in
      let (same, front, cap) = laws.contents-pop s.queue.queue h t found in
      record {
        sent = t ∷ d.sent;
        channel = d.channel ∙ append_assoc s.sink (t.payload ∷ []) (payloads d.sent);
        same = Perm.trans same (Perm.cons t d.same);
        sorted = (λ x m. least x ((Perm.mem_iff d.same).1 m), d.sorted);
        due = (due, d.due);
        waiting = d.waiting;
      }

  -- With fuel for one round more than there are segments, over a heap that keeps to its
  -- documentation and whose order was that of `rank` on all that went into it, and with timers that
  -- are not done before their instant, `poll_ready` of an output sink on a `BufferSink` returns. It
  -- sends the payloads of some segments of the queue and leaves the others there; those it sends are
  -- due, in ascending rank and of no higher rank than any left, and of what is left the first is not
  -- due.
  pub poll_ready-Delivers :
      (rank : Segment → ℕ) (fuel : ℕ) (clock : Clock) (s : Relay H)
      → length (laws.contents s.queue.queue) < fuel
      → laws.IsOrdered rank s.queue.queue
      → ((t : ℕ) → clock.now < t → clock.elapsed t ≡ false)
      → (s' : Relay H) × (poll_ready b buffer_sink fuel clock s ≡ some s')
        × Delivers clock.now rank s s'
  unfolding poll_ready
  poll_ready-Delivers rank zero clock s enough o timer = absurd (omega arith)
  poll_ready-Delivers rank (suc fuel) clock s enough o timer =
      elim (Option-cases (b.pop s.queue.queue)) [
        | inl none_left ↦
            let (empty, no_front) = laws.pop_none s.queue.queue none_left in
            let is_empty : Queue.is_empty b s.queue ≡ true =
              rw (laws.len-contents s.queue.queue, empty) refl in
            (
              s,
              round_empty b buffer_sink fuel clock s s is_empty,
              rests clock.now rank s (λ t e. absurd (none-ne-some t (sym no_front ∙ e))),
            )
        | inr ((t, h), found) ↦
            let (same, front, cap) = laws.contents-pop s.queue.queue h t found in
            let size = length-perm same in
            let open_queue : Queue.is_empty b s.queue ≡ false =
              ==_of_ne _ _ (omega (arith, size, laws.len-contents s.queue.queue)) in
            elim (dec_le t.delivery_time clock.now) [
              | yes due ↦
                  let later =
                    poll_ready-Delivers rank fuel clock
                      (record s {
                        queue = Queue.without b t h s.queue;
                        sink = s.sink ++ (t.payload ∷ []);
                      })
                      (omega (arith, size)) (laws.pop_least rank s.queue.queue h t o found).0
                      timer in
                  (
                    later.0,
                    (round_ready b buffer_sink fuel clock s _ done open_queue
                          (write_due b clock s t h front found due)
                        ∙ later.1),
                    sends clock.now rank s later.0 t h o found due later.2,
                  )
              | no early ↦
                  let wait : clock.now < t.delivery_time = omega arith in
                  (
                    s,
                    round_pending b buffer_sink fuel clock s s open_queue
                        (write_early b clock s t front wait (timer _ wait)),
                    rests clock.now rank s (λ u e.
                        subst (λ (x : Segment). clock.now < x.delivery_time)
                          (some-injective t u (sym front ∙ e)) wait),
                  )
            ]
      ]
