-- ===== src/Conn/Relay.antt =====
-- The way of a data packet from the channel of a publishing peer's connection into its sink, over
-- the rounds of `poll`, stsync-proxy/src/srt/conn.rs.
pub mod Delivery
mod Tests
use streamsync.Base.{
  Bool, length, ℕ, ◌+◌, ◌≡◌, ◌∙◌, refl, ap, true, false, none, some, List, [], ◌∷◌,
}
use streamsync.Conn.Dispatch.{Incoming, received, nothing, poll_read, handle_packet, read_stream}
use streamsync.Conn.Handshake.{Peer}
use streamsync.Conn.LossList.{BinarySearch, remove}
use streamsync.Conn.LossList.Laws.{remove_nil}
use streamsync.Conn.Output.{output_sink}
use streamsync.Conn.Polls.{
  SinkFutures, Turn, Polled, waiting, running, outcome, round, poll, proceed,
}
use streamsync.Conn.Queue
use streamsync.Conn.Queue.{empty_queue}
use streamsync.Conn.Receive.{count_accepted, accept, receive, handle_data, handle_published}
use streamsync.Conn.Receive.Order.{handle_published_new, handle_data-published, receive_next}
use streamsync.Conn.Rtt.{Float}
use streamsync.Conn.Shared.{Config, SessionManager, Shared}
use streamsync.Conn.State.{OutputSink, Connection, publish, read, timestamp}
use streamsync.Conn.State.Clock.{Publishes}
use streamsync.Packet.{
  Packet, DataPacket, upcast_data, downcast_data, packet_type, packet_sequence_number,
}
use streamsync.Proto.Error.{ok, ◌>>=◌}
use streamsync.Sequence.{add_sequence}
use streamsync.Sink
use streamsync.Sink.{done}
use streamsync.Sink.Heap.{BinaryHeap}
use streamsync.Sink.Queue.{Segment, Poll, ready, pending, Clock}
use streamsync.Timestamp.{from_start, is_wrapping}
use streamsync.Types.ControlType.{data_packet}

-- `c` as a publishing connection that reads, has nothing to send, misses no packet, and expects
-- `k` next.
abbrev pub publisher : {S : Type 0} → S → ℕ → Connection S → Connection S
publisher sink k c = record c {
  mode = publish sink;
  poll_state = read;
  queue = empty_queue;
  loss_list = [];
  client_sequence_number = k;
  timestamp_is_wrapping = false;
}

module _ {S : Type 0} (o : OutputSink S) (bs : BinarySearch) (depth now : ℕ) (sink : S) (k : ℕ)
    (c : Connection S) where
  timestamp_steady :
      is_wrapping (from_start c.start_time now) ≡ false
      → timestamp o now (publisher sink k c) ≡ (from_start c.start_time now, publisher sink k c)
  unfolding timestamp
  timestamp_steady steady = rw steady refl

  handle_data_next :
      (p : DataPacket)
      → packet_sequence_number p.header ≡ k
      → is_wrapping (from_start c.start_time now) ≡ false
      → handle_data o bs depth now p (publisher sink k c)
        ≡ ok (accept false k p (publisher sink k c))
  handle_data_next p number steady =
      let d = publisher sink k c in
      let v : Publishes d = record { sink = sink; mode = refl } in
      let ts = from_start c.start_time now in
      handle_data-published o bs depth now p d v
      ∙ ap (λ r. handle_published bs depth now r.0 p r.1) (timestamp_steady steady)
      ∙ handle_published_new bs depth now ts p d (remove_nil bs (packet_sequence_number p.header))
      ∙ ap (λ (n : ℕ). receive depth now ts false n p d) number
      ∙ receive_next bs depth now ts p d

-- What a round finds: a packet in the channel, or nothing.
abbrev pub arrival : Clock → Incoming → Turn
arrival clock incoming = record {
  clock = clock;
  incoming = incoming;
  ticked = false;
  payloads = [];
  ended = false;
  written = pending;
}

module _ {H K M E : Type 0} (b : BinaryHeap Segment H) (manager : SessionManager M K)
    (config : Config) (peer_address : ℕ) (bs : BinarySearch) (f : Float)
    (valid_utf8 : List ℕ → Bool) (futures : SinkFutures (Sink.OutputSink H K) E) (depth : ℕ)
    (clock : Clock) (sink : Sink.OutputSink H K) (k : ℕ) (c : Peer H K) (w : Shared M) where
  handle_packet_next :
      (p : DataPacket)
      → packet_type p.header ≡ data_packet
      → packet_sequence_number p.header ≡ k
      → is_wrapping (from_start c.start_time clock.now) ≡ false
      → handle_packet b manager config peer_address bs f valid_utf8 depth clock.now
          (upcast_data p)
          (publisher sink k c)
          w
        ≡ ok (accept false k p (publisher sink k (record c { last_time = clock.now })), w)
  unfolding handle_packet upcast_data downcast_data
  handle_packet_next p is_data number steady =
      rw (is_data, handle_packet)
        (ap (λ r. r >>= λ d. ok (d, w))
          (handle_data_next (output_sink b) bs depth clock.now sink k
            (record c { last_time = clock.now }) p number steady))

  round_received :
      (p : DataPacket)
      → packet_type p.header ≡ data_packet
      → packet_sequence_number p.header ≡ k
      → is_wrapping (from_start c.start_time clock.now) ≡ false
      → round b manager config peer_address bs f valid_utf8 futures depth
          (arrival clock (received (upcast_data p)))
          (publisher sink k c)
          w
        ≡ ok (running (accept false k p (publisher sink k (record c { last_time = clock.now })), w))
  unfolding round poll_read Queue.pop
  round_received p is_data number steady =
      ap (λ r. (r >>= λ s. ok (ready tt, s)) >>= λ q. ok (outcome q))
        (handle_packet_next p is_data number steady)

  -- The connection after the packet `p` has gone into the sink.
  abbrev pub counted : DataPacket → Peer H K
  counted p = record c {
    last_time = clock.now;
    metrics = count_accepted false (length p.payload) c.metrics;
  }

  round_fed :
      (p : DataPacket) (incoming : Incoming) (sink' : Sink.OutputSink H K)
      → futures.poll_feed clock p sink ≡ (ready done, sink')
      → round b manager config peer_address bs f valid_utf8 futures depth
          (arrival clock incoming)
          (accept false k p (publisher sink k (record c { last_time = clock.now })))
          w
        ≡ ok (running (publisher sink' (add_sequence k 1) (counted p), w))
  unfolding round accept
  round_fed p incoming sink' fed_now = rw fed_now refl

  -- Nothing is left to do.
  poll_quiet :
      poll b manager config peer_address bs f valid_utf8 futures depth
        (arrival clock nothing ∷ [])
        (publisher sink k c)
        w
      ≡ ok (waiting (publisher sink k c, w))
  unfolding poll round poll_read Queue.pop read_stream
  poll_quiet = refl

-- The numbers of the packets go up by one from `k`.
abbrev pub Arrive : ℕ → List DataPacket → Type 0
Arrive k [] = Unit {0}
Arrive k (p ∷ ps) =
    (packet_type p.header ≡ data_packet)
    × (packet_sequence_number p.header ≡ k)
    × Arrive (add_sequence k 1) ps

-- The number after those of the packets.
abbrev pub next_number : ℕ → List DataPacket → ℕ
next_number k [] = k
next_number k (p ∷ ps) = next_number (add_sequence k 1) ps

-- Every packet is fed into the sink, one after the other.
pub data Feeds {S E : Type 0} (futures : SinkFutures S E) (clock : Clock)
    : List DataPacket → S → S → Type 0 where
  none_left : {s : S} → Feeds futures clock [] s s
  one_more :
      {p : DataPacket} {ps : List DataPacket} {s s' s'' : S}
      → futures.poll_feed clock p s ≡ (ready done, s')
      → Feeds futures clock ps s' s''
      → Feeds futures clock (p ∷ ps) s s''

-- The rounds of a poll that finds the packets in the channel.
abbrev pub arrivals : Clock → List DataPacket → List Turn
arrivals clock [] = arrival clock nothing ∷ []
arrivals clock (p ∷ ps) =
    arrival clock (received (upcast_data p)) ∷ arrival clock nothing ∷ arrivals clock ps

module _ {H K M E : Type 0} (b : BinaryHeap Segment H) (manager : SessionManager M K)
    (config : Config) (peer_address : ℕ) (bs : BinarySearch) (f : Float)
    (valid_utf8 : List ℕ → Bool) (futures : SinkFutures (Sink.OutputSink H K) E) (depth : ℕ)
    (clock : Clock) (w : Shared M) where
  -- One poll takes all the packets out of the channel, in sequence.
  pub poll-arrivals :
      (ps : List DataPacket) (sink sink' : Sink.OutputSink H K) (k start : ℕ) (c : Peer H K)
      → c.start_time ≡ start
      → is_wrapping (from_start start clock.now) ≡ false
      → Arrive k ps
      → Feeds futures clock ps sink sink'
      → (d : Peer H K) × (poll b manager config peer_address bs f valid_utf8 futures depth
            (arrivals clock ps)
            (publisher sink k c)
            w
          ≡ ok (waiting (publisher sink' (next_number k ps) d, w)))
        × (d.start_time ≡ start)
  unfolding poll
  poll-arrivals [] sink _ k start c began steady arrive none_left = (
    c,
    poll_quiet b manager config peer_address bs f valid_utf8 futures depth clock sink k c w,
    began,
  )
  poll-arrivals (p ∷ ps) sink sink'' k start c began steady (is_data, number, arrive)
        (one_more {s' = sink'} fed_now later) =
      let again = poll b manager config peer_address bs f valid_utf8 futures depth in
      let steady' : is_wrapping (from_start c.start_time clock.now) ≡ false =
        ap (λ (n : ℕ). is_wrapping (from_start n clock.now)) began ∙ steady in
      let c' =
        counted b manager config peer_address bs f valid_utf8 futures depth clock sink k c w p in
      let (d, e, kept) =
        poll-arrivals ps sink' sink'' (add_sequence k 1) start c' began steady arrive later in
      (
        d,
        ap (λ r. r >>= proceed (again (arrival clock nothing ∷ arrivals clock ps)))
              (round_received b manager config peer_address bs f valid_utf8 futures depth clock sink
                k c w p is_data number steady')
            ∙ ap (λ r. r >>= proceed (again (arrivals clock ps)))
                (round_fed b manager config peer_address bs f valid_utf8 futures depth clock sink k
                  c w p nothing sink' fed_now)
            ∙ e,
        kept,
      )
