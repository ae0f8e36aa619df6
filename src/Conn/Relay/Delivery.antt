-- ===== src/Conn/Relay/Delivery.antt =====
-- From the channel of a publishing peer's connection through the output sink to the broadcast
-- channel.
use mathlib.Core.Logic.{∥∥₁_elim}
use native.Mathlib.Bridge.{le_prop}
use mathlib.Core.List.{Mem, Memᴰ, not-mem-nil, mem-cons_self, mem-cons_of_mem}
use mathlib.Core.List.Perm
use mathlib.Core.Path.{subst}
use streamsync.Base.{
  Bool, ℕ, suc, ◌<◌, ◌≤◌, ◌^◌, ◌≡◌, refl, ap, arith, false, if_both, some, List, [], ◌∷◌, length,
  ◌==◌,
}
use streamsync.Conn.Handshake.{Peer}
use streamsync.Conn.LossList.{BinarySearch}
use streamsync.Conn.Polls.{SinkFutures, waiting, poll}
use streamsync.Conn.Relay.{
  publisher, Arrive, next_number, Feeds, none_left, one_more, arrivals, poll-arrivals,
}
use streamsync.Conn.Rtt.{Float}
use streamsync.Conn.Shared.{Config, SessionManager, Shared}
use streamsync.Conn.State.{publish}
use streamsync.Packet.{DataPacket}
use streamsync.Proto.Error.{ok}
use streamsync.Sequence.{message_bits}
use streamsync.Sink.{new, start_send, buffer_sink, poll_ready, done}
use streamsync.Sink.Delivery.{Relay}
use streamsync.Sink.Early.{poll_ready_early}
use streamsync.Sink.Heap.{BinaryHeap, HeapLaws}
use streamsync.Sink.Queue
use streamsync.Sink.Queue.{SegmentQueue, Segment, Clock, ready, cmp, segment_of}
use streamsync.Sink.Rank.{AreNear}
use streamsync.Sink.Reorder.{start_send_all, segments, Reordered, poll_ready-start_send_all}
use streamsync.Timestamp.{from_start, is_wrapping}

module _ {H : Type 0} (b : BinaryHeap Segment H) (laws : HeapLaws cmp b) (now : ℕ) where
  -- No segment of the heap is due at `now`.
  abbrev AreLate : H → Type 0
  AreLate h = (x : Segment) → Mem x (laws.contents h) → now < x.delivery_time

  push-AreLate : (t : Segment) (h : H) → AreLate h → now < t.delivery_time → AreLate (b.push t h)
  push-AreLate t h late soon x m =
      let inside : Mem x (t ∷ laws.contents h) = (Perm.mem_iff (laws.contents-push t h)).0 m in
      ∥∥₁_elim inside le_prop (either x)
    where
      either : (x : Segment) → Memᴰ x (t ∷ laws.contents h) → now < x.delivery_time
      either x (Memᴰ.head e) = omega (arith, soon, ap (λ (y : Segment). y.delivery_time) e)
      either x (Memᴰ.tail m) = late x ∣ m ∣₁

  -- The sink holds no segment that is due, and dates the packets from `start`.
  record Waits (start latency : ℕ) (s : Relay H) : Type 0 where
    pub late : AreLate s.queue.queue
    pub begins : s.queue.start ≡ start
    pub delays : s.queue.latency ≡ latency

  start_send-Waits :
      (start latency : ℕ) (p : DataPacket) (s : Relay H)
      → Waits start latency s
      → now < (segment_of start latency p).delivery_time
      → Waits start latency (start_send b p s)
  unfolding start_send Queue.push Queue.push_heap
  start_send-Waits start latency p s v soon =
      let full = b.len s.queue.queue == b.capacity s.queue.queue in
      let t = segment_of s.queue.start s.queue.latency p in
      let late' = push-AreLate t s.queue.queue v.late (omega (arith, soon, v.begins, v.delays)) in
      if_both (λ (q : SegmentQueue H). Waits start latency (record s { queue = q })) full _ _ v
        (record {
          late = if_both AreLate full _ _ v.late late';
          begins = v.begins;
          delays = v.delays;
        })

-- The documented behaviour of `feed`: when the sink is ready, here within `fuel` rounds of its loop,
-- the item is sent into it.
abbrev pub IsFeed : {H E : Type 0} → BinaryHeap Segment H → ℕ → SinkFutures (Relay H) E → Type 0
IsFeed {H} b fuel futures =
    (clock : Clock) (p : DataPacket) (s s' : Relay H)
    → poll_ready b buffer_sink fuel clock s ≡ some s'
    → futures.poll_feed clock p s ≡ (ready done, start_send b p s')

module _ {H E : Type 0} (b : BinaryHeap Segment H) (laws : HeapLaws cmp b)
    (futures : SinkFutures (Relay H) E) where
  all-Feeds :
      (fuel : ℕ)
      → IsFeed b fuel futures
      → 0 < fuel
      → (start latency : ℕ) (clock : Clock) (ps : List DataPacket) (s : Relay H)
      → ((t : ℕ) → clock.now < t → clock.elapsed t ≡ false)
      → Waits b laws clock.now start latency s
      → ((x : Segment) → Mem x (segments start latency ps) → clock.now < x.delivery_time)
      → Feeds futures clock ps s (start_send_all b ps s)
  all-Feeds fuel feed some_fuel start latency clock [] s timer v late = none_left
  all-Feeds fuel feed some_fuel start latency clock (p ∷ ps) s timer v late =
      one_more (feed clock p s s (poll_ready_early b laws fuel clock s some_fuel v.late timer)) (
        all-Feeds fuel feed some_fuel start latency clock ps (start_send b p s) timer
          (start_send-Waits b laws clock.now start latency p s v (late _ mem-cons_self))
          (λ x m. late x (mem-cons_of_mem _ m)))

new-Waits :
    {H : Type 0} (b : BinaryHeap Segment H) (laws : HeapLaws cmp b) (now start latency size : ℕ)
    → Waits b laws now start latency (new b [] start latency size)
unfolding new Queue.new
new-Waits b laws now start latency size = record {
  late = λ x m. absurd (not-mem-nil (subst (λ l. Mem x l) (laws.contents-with_capacity size) m));
  begins = refl;
  delays = refl;
}

module _ {H M E : Type 0} (b : BinaryHeap Segment H) (laws : HeapLaws cmp b)
    (manager : SessionManager M (List (List ℕ))) (config : Config) (peer_address : ℕ)
    (bs : BinarySearch) (f : Float) (valid_utf8 : List ℕ → Bool) (futures : SinkFutures (Relay H) E)
    (depth : ℕ) where
  -- A connection has just entered publish mode, over a heap that keeps to its documentation, and the
  -- futures crate's `feed` keeps to its own, for sinks that are ready within `fuel` rounds, more than
  -- there are packets in `ps`; the sink is a fresh one on a `BufferSink`, with room for
  -- the packets `ps`. These and one packet `q` more come in the order of their sequence numbers, none
  -- missing, from the expected one on; the message numbers of `ps` are in any order, within half the
  -- range from `first`. A poll finds `ps` in the channel, before any is due; a later one finds `q`, when
  -- all are due; timers are not done before their instant, and the timestamps of neither poll wrap.
  -- Then both polls return `Pending`. After the second the broadcast channel has the payload of each
  -- packet of `ps` once, in the order of the message numbers; and `q` waits in the sink, until yet
  -- another packet comes.
  pub poll-Reordered :
      (start latency size first k fuel : ℕ) (clock clock' : Clock) (ps : List DataPacket)
      (q : DataPacket) (c : Peer H (List (List ℕ))) (w : Shared M)
      → IsFeed b fuel futures
      → length ps < fuel
      → c.start_time ≡ start
      → is_wrapping (from_start start clock.now) ≡ false
      → is_wrapping (from_start start clock'.now) ≡ false
      → ((t : ℕ) → clock.now < t → clock.elapsed t ≡ false)
      → ((t : ℕ) → clock'.now < t → clock'.elapsed t ≡ false)
      → Arrive k ps
      → Arrive (next_number k ps) (q ∷ [])
      → first < 2 ^ message_bits
      → length ps ≤ size
      → ((x : Segment) → Mem x (segments start latency ps) → clock.now < x.delivery_time)
      → AreNear first (suc clock'.now) (segments start latency ps)
      → (d : Peer H (List (List ℕ))) × (d' : Peer H (List (List ℕ))) × (s' : Relay H) × (poll b
            manager config peer_address bs f valid_utf8 futures depth
            (arrivals clock ps)
            (publisher (new b [] start latency size) k c)
            w
          ≡ ok (waiting (d, w)))
        × (poll b manager config peer_address bs f valid_utf8 futures depth
              (arrivals clock' (q ∷ []))
              d
              w
            ≡ ok (waiting (d', w)))
        × (d'.mode ≡ publish (start_send b q s'))
        × Reordered b laws start latency first clock'.now ps s'
  poll-Reordered start latency size first k fuel clock clock' ps q c w feed enough began steady
        steady' timer timer' arrive next f_first room late near =
      let fresh = new b [] start latency size in
      let held = start_send_all b ps fresh in
      let fed_all =
        all-Feeds b laws futures fuel feed (omega arith) start latency clock ps fresh timer
          (new-Waits b laws clock.now start latency size) late in
      let (d, e, kept) =
        poll-arrivals b manager config peer_address bs f valid_utf8 futures depth clock w ps fresh
          held k start c began steady arrive fed_all in
      let (s', returns, sorted) =
        poll_ready-start_send_all b laws start latency size first fuel clock' ps f_first room enough
          near timer' in
      let (d', e', kept') =
        poll-arrivals b manager config peer_address bs f valid_utf8 futures depth clock' w (q ∷ [])
          held (start_send b q s') (next_number k ps) start d kept steady' next
          (one_more (feed clock' q held s' returns) none_left) in
      (
        publisher held (next_number k ps) d,
        publisher (start_send b q s') (next_number (next_number k ps) (q ∷ [])) d',
        s',
        e,
        e',
        refl,
        sorted,
      )
