-- ===== src/Sink/Reorder.antt =====
-- A whole run of the output sink: packets in any order go in, the payloads come out in order.
use mathlib.Core.List.{Mem, Perm, mem-append_right, mem-cons_self, append-nil, perm_middle}
use mathlib.Core.List.Perm
use mathlib.Core.Path.{subst}
use streamsync.Base.{
  ℕ, suc, ◌+◌, ◌≤◌, ◌<◌, ◌^◌, ◌≡◌, ◌∙◌, refl, sym, ap, arith, inl, inr, false, some, Option-cases,
  List, [], ◌∷◌, ◌++◌, length, ◌==◌,
}
use streamsync.Packet.{DataPacket}
use streamsync.Sequence.{message_bits}
use streamsync.Sink.{OutputSink, new, start_send, buffer_sink, poll_ready}
use streamsync.Sink.Contents.{length-perm}
use streamsync.Sink.Delivery.{Relay, IsSorted, payloads}
use streamsync.Sink.Heap.{BinaryHeap, HeapLaws}
use streamsync.Sink.Queue
use streamsync.Sink.Queue.{SegmentQueue, Segment, Clock, cmp, segment_of}
use streamsync.Sink.Rank.{IsNear, AreNear, AreNear-Agrees, rank}
use streamsync.Sink.Reassembly.{poll_ready-Delivers}

module _ {H K : Type 0} (b : BinaryHeap Segment H) where
  -- `start_send` of each packet.
  abbrev pub start_send_all : List DataPacket → OutputSink H K → OutputSink H K
  start_send_all [] s = s
  start_send_all (p ∷ ps) s = start_send_all ps (start_send b p s)

-- The segments of the packets, for a sink that started at `start`.
abbrev pub segments : ℕ → ℕ → List DataPacket → List Segment
segments start latency [] = []
segments start latency (p ∷ ps) = segment_of start latency p ∷ segments start latency ps

length-segments :
    (start latency : ℕ) (ps : List DataPacket) → length (segments start latency ps) ≡ length ps
length-segments start latency [] = refl
length-segments start latency (p ∷ ps) = ap suc (length-segments start latency ps)

-- The sink after taking in a packet.
abbrev accepted :
    {H K : Type 0} → BinaryHeap Segment H → DataPacket → OutputSink H K → OutputSink H K
accepted b p s = record s {
  queue = record s.queue {
    size = s.queue.size + length p.payload;
    queue = b.push (segment_of s.queue.start s.queue.latency p) s.queue.queue;
  };
}

start_send_room :
    {H K : Type 0} (b : BinaryHeap Segment H) (p : DataPacket) (s : OutputSink H K)
    → b.len s.queue.queue < b.capacity s.queue.queue
    → start_send b p s ≡ accepted b p s
unfolding start_send Queue.push Queue.push_heap
start_send_room b p s room =
    let free : (b.len s.queue.queue == b.capacity s.queue.queue) ≡ false = ground arith in
    rw free refl

module _ {H K : Type 0} (b : BinaryHeap Segment H) (laws : HeapLaws cmp b) (start latency : ℕ)
    (first bound : ℕ) (f : first < 2 ^ message_bits) where
  -- The sink `s` holds the segments `l` in the order of their numbers from `first`, and has room for
  -- `n` more.
  record Holds (n : ℕ) (l : List Segment) (s : OutputSink H K) : Type 0 where
    pub begins : s.queue.start ≡ start
    pub delays : s.queue.latency ≡ latency
    pub holds : Perm (laws.contents s.queue.queue) l
    pub ordered : laws.IsOrdered (rank first bound) s.queue.queue
    pub room : length l + n ≤ b.capacity s.queue.queue

  start_send-Holds :
      (n : ℕ) (l : List Segment) (p : DataPacket) (s : OutputSink H K)
      → AreNear first bound (segment_of start latency p ∷ l)
      → Holds (suc n) l s
      → Holds n (segment_of start latency p ∷ l) (start_send b p s)
  start_send-Holds n l p s near h =
      let open_heap : b.len s.queue.queue < b.capacity s.queue.queue =
        omega (arith, h.room, length-perm h.holds, laws.len-contents s.queue.queue) in
      let seg = segment_of s.queue.start s.queue.latency p in
      let same : seg ≡ segment_of start latency p = λ i. segment_of (h.begins i) (h.delays i) p in
      let agrees : Perm (seg ∷ laws.contents s.queue.queue) (segment_of start latency p ∷ l) =
        subst (λ x. Perm (seg ∷ laws.contents s.queue.queue) (x ∷ l)) same
          (Perm.cons seg h.holds) in
      subst (Holds n (segment_of start latency p ∷ l)) (sym (start_send_room b p s open_heap))
        (record {
          begins = h.begins;
          delays = h.delays;
          holds = Perm.trans (laws.contents-push seg s.queue.queue) agrees;
          ordered =
              laws.push-IsOrdered (rank first bound) seg s.queue.queue h.ordered
                (AreNear-Agrees first bound _ f (λ x m. near x ((Perm.mem_iff agrees).0 m)));
          room = omega (arith, h.room, laws.capacity-push seg s.queue.queue open_heap);
        })

  start_send_all-Holds :
      (l : List Segment) (ps : List DataPacket) (s : OutputSink H K)
      → AreNear first bound (segments start latency ps ++ l)
      → Holds (length ps) l s
      → (l' : List Segment) × Perm l' (segments start latency ps ++ l)
        × Holds 0 l' (start_send_all b ps s)
  start_send_all-Holds l [] s near h = (l, Perm.rfl, h)
  start_send_all-Holds l (p ∷ ps) s near h =
      let seg = segment_of start latency p in
      let rest = segments start latency ps in
      let middle : Perm (rest ++ (seg ∷ l)) (seg ∷ (rest ++ l)) = perm_middle rest l in
      let near' : AreNear first bound (rest ++ (seg ∷ l)) =
        λ x m. near x ((Perm.mem_iff middle).0 m) in
      let h' = start_send-Holds (length ps) l p s (λ x m. near' x (mem-append_right rest m)) h in
      let (l', same, done_all) = start_send_all-Holds (seg ∷ l) ps (start_send b p s) near' h' in
      (l', Perm.trans same middle, done_all)

  new-Holds : (k : K) (n size : ℕ) → n ≤ size → Holds n [] (new b k start latency size)
  unfolding new Queue.new
  new-Holds k n size fits = record {
    begins = refl;
    delays = refl;
    holds = subst (λ l. Perm l []) (sym (laws.contents-with_capacity size)) Perm.rfl;
    ordered = laws.with_capacity-IsOrdered (rank first bound) size;
    room = omega (arith, laws.capacity-with_capacity size);
  }

sink-start_send_all :
    {H K : Type 0} (b : BinaryHeap Segment H) (ps : List DataPacket) (s : OutputSink H K)
    → (start_send_all b ps s).sink ≡ s.sink
unfolding start_send
sink-start_send_all b [] s = refl
sink-start_send_all b (p ∷ ps) s = sink-start_send_all b ps (start_send b p s)

near_due : (first now : ℕ) (x : Segment) → IsNear first (suc now) x → x.delivery_time ≤ now
near_due first now x h = omega (arith, h.soon)

module _ {H : Type 0} (b : BinaryHeap Segment H) (laws : HeapLaws cmp b) where
  -- What `sent` is to be: the packets' payloads in the order of their message numbers from `first`.
  pub record Reordered (start latency first now : ℕ) (ps : List DataPacket) (s' : Relay H)
      : Type 0 where
    pub sent : List Segment
    pub channel : s'.sink ≡ payloads sent
    pub same : Perm (segments start latency ps) sent
    pub sorted : IsSorted (rank first (suc now)) sent []
    pub emptied : laws.contents s'.queue.queue ≡ []

  -- An output sink is made on a `BufferSink`, with a buffer for at least as many segments as the
  -- packets `ps`, over a heap that keeps to its documentation. The packets go in, in any order;
  -- their message numbers are within half the range from `first`, also across the wrap, and their
  -- delivery times are not after `now`. Then `poll_ready` at `now`, with fuel for one round more
  -- than there are packets and timers that are not done before their instant, returns: the queue is
  -- empty, and the channel has the payload of every packet once, in the order of the message
  -- numbers, those of one number by their delivery times: of packets with the same message number,
  -- also of equal packets, each is passed on, since the sink drops no duplicates.
  pub poll_ready-start_send_all :
      (start latency size first fuel : ℕ) (clock : Clock) (ps : List DataPacket)
      → first < 2 ^ message_bits
      → length ps ≤ size
      → length ps < fuel
      → AreNear first (suc clock.now) (segments start latency ps)
      → ((t : ℕ) → clock.now < t → clock.elapsed t ≡ false)
      → (s' : Relay H) × (poll_ready b buffer_sink fuel clock
            (start_send_all b ps (new b [] start latency size))
          ≡ some s')
        × Reordered start latency first clock.now ps s'
  unfolding new
  poll_ready-start_send_all start latency size first fuel clock ps f room enough near timer =
      let near' : AreNear first (suc clock.now) (segments start latency ps ++ []) =
        λ x m. near x (subst (Mem x) (append-nil _) m) in
      let s = start_send_all b ps (new b [] start latency size) in
      let (l, same, h) =
        start_send_all-Holds b laws start latency first (suc clock.now) f [] ps _ near'
          (new-Holds b laws start latency first (suc clock.now) f [] (length ps) size room) in
      let all : Perm (laws.contents s.queue.queue) (segments start latency ps) =
        subst (Perm (laws.contents s.queue.queue)) (append-nil (segments start latency ps))
          (Perm.trans h.holds same) in
      let (s', returns, d) =
        poll_ready-Delivers b laws (rank first (suc clock.now)) fuel clock s
          (omega (arith, length-perm all, length-segments start latency ps)) h.ordered timer in
      let whole : Perm (segments start latency ps) (d.sent ++ laws.contents s'.queue.queue) =
        Perm.trans (Perm.symm all) d.same in
      let emptied : laws.contents s'.queue.queue ≡ [] = elim (Option-cases (b.pop s'.queue.queue)) [
        | inl nothing ↦ (laws.pop_none s'.queue.queue nothing).0
        | inr ((t, rest), found) ↦
            let (first_out, front, cap) = laws.contents-pop s'.queue.queue rest t found in
            let inside : Mem t (laws.contents s'.queue.queue) =
              (Perm.mem_iff first_out).1 mem-cons_self in
            let t_near = near t ((Perm.mem_iff whole).1 (mem-append_right d.sent inside)) in
            absurd (omega (arith, d.waiting t front, near_due first clock.now t t_near))
      ] in
      let no_rest : d.sent ++ laws.contents s'.queue.queue ≡ d.sent =
        ap (λ r. d.sent ++ r) emptied ∙ append-nil d.sent in
      (
        s',
        returns,
        record {
          sent = d.sent;
          channel = d.channel ∙ ap (λ k. k ++ payloads d.sent) (sink-start_send_all b ps _);
          same = subst (Perm (segments start latency ps)) no_rest whole;
          sorted = subst (IsSorted (rank first (suc clock.now)) d.sent) emptied d.sorted;
          emptied = emptied;
        },
      )
