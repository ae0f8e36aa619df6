-- ===== src/Conn/Closing.antt =====
-- How a connection ends, or fails to, stsync-proxy/src/srt/conn.rs.
use streamsync.Base.{
  length, Bool-cases, if_both, Bool, ℕ, ◌-◌, ◌≤◌, ◌≡◌, ◌∙◌, refl, ap, arith, true, false, leb, inl,
  inr, List, [], ◌∷◌, if◌then◌else◌,
}
use streamsync.Conn.Dispatch.{nothing, poll_read, read_stream}
use streamsync.Conn.Handlers.{tick, timeout}
use streamsync.Conn.Handshake.{Peer}
use streamsync.Conn.LossList.{BinarySearch}
use streamsync.Conn.Output.{output_sink}
use streamsync.Conn.Polls.{
  SinkFutures, Turn, waiting, finished, running, outcome, round, poll, proceed,
}
use streamsync.Conn.Queue
use streamsync.Conn.Queue.{empty_queue}
use streamsync.Conn.Rtt.{Float}
use streamsync.Conn.Shared.{Config, SessionManager, Shared}
use streamsync.Conn.State.{
  send, timestamp, address, closing, publish, read, close_sink, closed, close,
}
use streamsync.Conn.Modes.Handlers.{on_mode}
use streamsync.Conn.Modes.{requesting, of_kind, close-mode}
use streamsync.Conn.Relay.{arrival}
use streamsync.Conn.State.Clock.{timestamp-Idle}
use streamsync.Control.Casts.{upcast_shutdown, build_shutdown}
use streamsync.Proto.Error.{ok, ◌>>=◌}
use streamsync.Sink
use streamsync.Sink.{InnerSink, Done, done, failed}
use streamsync.Sink.Heap.{BinaryHeap, HeapLaws}
use streamsync.Sink.Queue as SinkQueue
use streamsync.Sink.Queue.{SegmentQueue, cmp, Segment, Poll, ready, pending, Clock}

nil_of_length : {A : Type 0} (l : List A) → length l ≡ 0 → l ≡ []
nil_of_length [] e = refl
nil_of_length (x ∷ l) e = absurd (omega arith)

-- The queue that `poll_close` of a sink leaves.
abbrev dropped : {H : Type 0} → BinaryHeap Segment H → SegmentQueue H → SegmentQueue H
dropped b q = if SinkQueue.is_empty b q then q else SinkQueue.clear b q

contents-dropped :
    {H : Type 0} (b : BinaryHeap Segment H) (laws : HeapLaws cmp b) (q : SegmentQueue H)
    → laws.contents (dropped b q).queue ≡ []
unfolding SinkQueue.clear
contents-dropped b laws q = elim (Bool-cases (SinkQueue.is_empty b q)) [
  | inl empty ↦
      rw empty (nil_of_length (laws.contents q.queue) (ground (arith, laws.len-contents q.queue)))
  | inr more ↦ rw more (laws.contents-clear q.queue).0
]

module _ {H K M E : Type 0} (b : BinaryHeap Segment H) (manager : SessionManager M K)
    (config : Config) (peer_address : ℕ) (bs : BinarySearch) (f : Float)
    (valid_utf8 : List ℕ → Bool) (futures : SinkFutures (Sink.OutputSink H K) E) (depth : ℕ) where
  -- When the close of the sink fails and leaves the sink as it is, the loop of `poll` of a connection
  -- that closes does not return, in any number of rounds.
  pub poll_close_failing :
      (e : E) (ts : List Turn) (sink : Sink.OutputSink H K) (c : Peer H K) (w : Shared M)
      → futures.poll_close sink ≡ (ready (failed e), sink)
      → poll b manager config peer_address bs f valid_utf8 futures depth ts
          (record c { mode = publish sink; poll_state = close_sink })
          w
        ≡ ok (running (record c { mode = publish sink; poll_state = close_sink }, w))
  unfolding poll round
  poll_close_failing e [] sink c w fails = refl
  poll_close_failing e (t ∷ ts) sink c w fails = rw fails (poll_close_failing e ts sink c w fails)

  -- Only a connection in request mode reads a stream.
  no_stream :
      (now : ℕ) (d : Peer H K)
      → of_kind requesting d.mode ≡ 0
      → read_stream b manager config peer_address bs f valid_utf8 now [] false d ≡ ok (pending, d)
  unfolding read_stream
  no_stream now d other =
      on_mode (λ r. r ≡ ok (pending, d)) d.mode _ _ _ (λ _ _. refl) (λ _ _. refl)
        (λ stream e. absurd (omega (arith, other, ap (of_kind requesting) e)))

  tick-timeout :
      (now : ℕ) (c : Peer H K)
      → timeout ≤ now - c.last_time
      → tick (output_sink b) now c ≡ close (output_sink b) now c
  unfolding tick
  tick-timeout now c silent =
      let late : leb timeout (now - c.last_time) ≡ true = ground arith in
      rw late (if_both (λ d. d ≡ close (output_sink b) now c) c.shutdown _ _ refl refl)

  -- A connection that is not in request mode has nothing to send, and its peer has been silent for
  -- 15 s, when the interval fires; the channel is empty. Then `poll` closes the connection, with a
  -- Shutdown packet in its queue, and returns `Pending`: the packet is not sent, and the connection
  -- does not finish in this call.
  pub poll-timeout :
      (clock : Clock) (ts : List Turn) (c : Peer H K) (w : Shared M)
      → timeout ≤ clock.now - c.last_time
      → of_kind requesting c.mode ≡ 0
      → let quiet = record c { poll_state = read; queue = empty_queue } in
        let d = close (output_sink b) clock.now quiet in
        (poll b manager config peer_address bs f valid_utf8 futures depth
            (record (arrival clock nothing) { ticked = true } ∷ ts)
            quiet
            w
          ≡ ok (waiting (d, w)))
        × (d.poll_state ≡ closing (output_sink b) d.mode)
        × ((n : ℕ) × (d.queue
              ≡ Queue.push
                  (address n c.client_socket_id (upcast_shutdown build_shutdown))
                  empty_queue))
  unfolding poll round poll_read Queue.pop close send
  poll-timeout clock ts c w silent other =
      let quiet = record c { poll_state = read; queue = empty_queue } in
      let o = output_sink b in
      let again = poll b manager config peer_address bs f valid_utf8 futures depth ts in
      let d = close o clock.now quiet in
      let same = timestamp-Idle o clock.now quiet in
      (
        ap
              (λ (e : Peer H K).
                (read_stream b manager config peer_address bs f valid_utf8 clock.now [] false e
                  >>= λ x. ok (x.0, (x.1, w)))
                >>= (λ r. ok (outcome r))
                >>= proceed again)
              (tick-timeout clock.now quiet silent)
            ∙ ap (λ r. ((r >>= λ x. ok (x.0, (x.1, w))) >>= λ q. ok (outcome q)) >>= proceed again)
                (no_stream clock.now d ((close-mode o clock.now quiet).kind requesting ∙ other)),
        refl,
        (
          (timestamp o clock.now quiet).0,
          λ i.
              Queue.push
                (address (timestamp o clock.now quiet).0 (same.peer i)
                  (upcast_shutdown build_shutdown))
                (same.queue i),
        ),
      )

  -- The documented behaviour of `close`: it polls the close of the sink.
  abbrev IsClose : InnerSink K E → Type 0
  IsClose inner = (s : Sink.OutputSink H K) → futures.poll_close s ≡ Sink.poll_close b inner s

  -- A publishing connection closes, over a heap that keeps to its documentation and with the futures
  -- crate's `close`, and the close of the inner sink succeeds. Then `poll` finishes in its second
  -- round: the segments that were still in the sink's queue are gone, the inner sink has only been
  -- closed, and what was in the connection's queue, the Shutdown packet too, was never sent.
  pub poll-closed :
      (laws : HeapLaws cmp b) (inner : InnerSink K E) (t t' : Turn) (ts : List Turn)
      (sink : Sink.OutputSink H K) (k : K) (c : Peer H K) (w : Shared M)
      → IsClose inner
      → inner.poll_close sink.sink ≡ (ready done, k)
      → (s' : Sink.OutputSink H K) × (poll b manager config peer_address bs f valid_utf8 futures
            depth
            (t ∷ t' ∷ ts)
            (record c { mode = publish sink; poll_state = close_sink })
            w
          ≡ ok (finished (record c { mode = publish s'; poll_state = closed }, w)))
        × (laws.contents s'.queue.queue ≡ [])
        × (s'.sink ≡ k)
  unfolding poll round Sink.poll_close
  poll-closed laws inner t t' ts sink k c w closes closed_inner =
      let q = dropped b sink.queue in
      let closing_now : futures.poll_close sink
          ≡ (ready done, record sink { queue = q; sink = k }) =
        closes sink ∙ ap (λ r. (r.0, record sink { queue = q; sink = r.1 })) closed_inner in
      (
        record sink { queue = q; sink = k },
        rw closing_now refl,
        contents-dropped b laws sink.queue,
        refl,
      )
