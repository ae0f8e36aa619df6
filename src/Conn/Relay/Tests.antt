-- ===== src/Conn/Relay/Tests.antt =====
-- The polls of a publishing peer's connection on concrete packets.
use mathlib.Core.List.{Memᴰ}
use mathlib.Core.Logic.{∥∥₁_elim}
use native.Mathlib.Bridge.{le_prop}
use streamsync.Packet.{message_number, packet_sequence_number, packet_type}
use streamsync.Timestamp.{from_start, is_wrapping}
use streamsync.Proto.{bits}
use streamsync.Serial
use streamsync.Base.{ℕ, ◌<◌, ◌≡◌, refl, ap, arith, true, false, Option, none, some, List, [], ◌∷◌}
use streamsync.Conn.Closing.{poll-timeout, poll-closed}
use streamsync.Conn.Handshake.{Peer}
use streamsync.Conn.LossList.Linear.{linear}
use streamsync.Conn.Polls.{SinkFutures, waiting, finished, poll}
use streamsync.Conn.Queue
use streamsync.Conn.Queue.{empty_queue}
use streamsync.Conn.Relay.{publisher, Arrive, next_number, arrival, arrivals}
use streamsync.Conn.Relay.Delivery.{poll-Reordered}
use streamsync.Conn.Rtt.{eighths}
use streamsync.Conn.Shared.{Config, Shared}
use streamsync.Conn.Dispatch.{nothing}
use streamsync.Conn.Output.{output_sink}
use streamsync.Control.Casts.{upcast_shutdown, build_shutdown}
use streamsync.Conn.State.{publish, read, close_sink, closed, close, closing, address}
use streamsync.Packet.{DataPacket}
use streamsync.Proto.Error.{ok}
use streamsync.Server.{fresh_connection}
use streamsync.Server.Gauges.{no_metrics}
use streamsync.Session.Manager.{Inner, buffer_session_manager}
use streamsync.Sink
use streamsync.Sink.{buffer_sink, new, poll_ready, start_send, Done, done, failed}
use streamsync.Sink.Delivery.{Relay}
use streamsync.Sink.Linear.{sorted_list, sorted_list_laws, SortedList}
use streamsync.Sink.Queue.{Segment, Clock, Poll, ready, pending}
use streamsync.Sink.Rank.{AllNear-AreNear}
use streamsync.Sink.Reorder.{segments, Reordered}

abbrev config : Config
config = record { mtu = 1_500; flow_window = 8_192; buffer = 8_192; latency = 120 }

-- `feed` and `close` over the sink, for sinks that are ready within four rounds.
abbrev feed_into :
    DataPacket → Relay SortedList → Option (Relay SortedList) → Poll (Done ⊥) × Relay SortedList
feed_into p s none = (pending, s)
feed_into p s (some s') = (ready done, start_send sorted_list p s')

abbrev futures : SinkFutures (Relay SortedList) ⊥
futures = record {
  poll_feed = λ clock p s. feed_into p s (poll_ready sorted_list buffer_sink 4 clock s);
  poll_close = λ s. Sink.poll_close sorted_list buffer_sink s;
}

-- A data packet by its sequence number, message number, timestamp and payload.
abbrev numbered : ℕ → ℕ → ℕ → ℕ → DataPacket
numbered seq message ts byte = record {
  header = record { seg0 = seq; seg1 = message; timestamp = ts; destination_socket_id = 77 };
  payload = byte ∷ [];
}

abbrev peer : Peer SortedList (List (List ℕ))
peer =
    fresh_connection (record { addr = 1; server_socket_id = 77; client_socket_id = 77 }) 1_000 100 4

abbrev shared : Shared Inner
shared = record { session_manager = record { streams = []; registry = [] }; metrics = no_metrics }

abbrev batch : List DataPacket
batch = numbered 100 8 300 2 ∷ numbered 101 7 310 1 ∷ []

abbrev last_one : DataPacket
last_one = numbered 102 9 320 3

abbrev soon : Clock
soon = record { now = 1_100; elapsed = λ _. false }

abbrev late : Clock
late = record { now = 9_000; elapsed = λ _. false }

steady : (now : ℕ) → now < 1_000_000 → is_wrapping (from_start 1_000 now) ≡ false
unfolding is_wrapping from_start
steady now h = ground arith

batch_arrives : Arrive 100 batch
unfolding packet_type packet_sequence_number bits Serial.add
batch_arrives = (refl, refl, (refl, refl, tt))

last_arrives : Arrive (next_number 100 batch) (last_one ∷ [])
unfolding packet_type packet_sequence_number bits Serial.add
last_arrives = (refl, refl, tt)

waits : (x : Segment) → Memᴰ x (segments 1_000 20 batch) → 1_100 < x.delivery_time
waits x (Memᴰ.head e) = omega (arith, ap (λ (y : Segment). y.delivery_time) e)
waits x (Memᴰ.tail (Memᴰ.head e)) = omega (arith, ap (λ (y : Segment). y.delivery_time) e)
waits x (Memᴰ.tail (Memᴰ.tail m)) = elim m [ ]

poll-Reordered_example :
    (d : Peer SortedList (List (List ℕ))) × (d' : Peer SortedList (List (List ℕ))) × (s' : Relay
      SortedList)
    × (poll sorted_list
          (buffer_session_manager 50)
          config
          0
          linear
          eighths
          (λ _. true)
          futures
          8
          (arrivals soon batch)
          (publisher (new sorted_list [] 1_000 20 4) 100 peer)
          shared
        ≡ ok (waiting (d, shared)))
    × (poll sorted_list
          (buffer_session_manager 50)
          config
          0
          linear
          eighths
          (λ _. true)
          futures
          8
          (arrivals late (last_one ∷ []))
          d
          shared
        ≡ ok (waiting (d', shared)))
    × (d'.mode ≡ publish (start_send sorted_list last_one s'))
    × Reordered sorted_list sorted_list_laws 1_000 20 7 9_000 batch s'
unfolding message_number bits
poll-Reordered_example =
    poll-Reordered sorted_list sorted_list_laws (buffer_session_manager 50) config 0 linear eighths
      (λ _. true) futures 8 1_000 20 4 7 100 4 soon late batch last_one peer shared
      (λ clock p s s' e. ap (feed_into p s) e) (omega arith) refl (steady 1_100 (omega arith))
      (steady 9_000 (omega arith)) (λ t h. refl) (λ t h. refl) batch_arrives last_arrives
      (omega arith) (omega arith) (λ x m. ∥∥₁_elim m le_prop (waits x))
      (AllNear-AreNear 7 9_001 (segments 1_000 20 batch) (
        record { number = omega arith; near = omega arith; soon = omega arith },
        (record { number = omega arith; near = omega arith; soon = omega arith }, tt),
      ))

-- A sink whose close fails.
abbrev broken : SinkFutures (Relay SortedList) ℕ
broken = record { poll_feed = λ clock p s. (pending, s); poll_close = λ s. (ready (failed 5), s) }

abbrev closes : Peer SortedList (List (List ℕ))
closes = record peer { mode = publish (new sorted_list [] 1_000 20 4); poll_state = close_sink }

-- 16 s after the last packet.
abbrev silent : Clock
silent = record { now = 16_001_000; elapsed = λ _. false }

poll-timeout_example :
    let quiet = record peer { poll_state = read; queue = empty_queue } in
    let d = close (output_sink sorted_list) 16_001_000 quiet in
    (poll sorted_list
        (buffer_session_manager 50)
        config
        0
        linear
        eighths
        (λ _. true)
        futures
        8
        (record (arrival silent nothing) { ticked = true } ∷ [])
        quiet
        shared
      ≡ ok (waiting (d, shared)))
    × (d.poll_state ≡ closing (output_sink sorted_list) d.mode)
    × ((n : ℕ) × (d.queue ≡ Queue.push (address n 77 (upcast_shutdown build_shutdown)) empty_queue))
poll-timeout_example =
    poll-timeout sorted_list (buffer_session_manager 50) config 0 linear eighths (λ _. true) futures
      8 silent [] peer shared (omega arith) refl

-- A sink with a segment in its queue.
abbrev holding : Relay SortedList
holding = start_send sorted_list last_one (new sorted_list [] 1_000 20 4)

poll-closed_example :
    (s' : Relay SortedList) × (poll sorted_list
        (buffer_session_manager 50)
        config
        0
        linear
        eighths
        (λ _. true)
        futures
        8
        (arrival soon nothing ∷ arrival soon nothing ∷ [])
        (record peer { mode = publish holding; poll_state = close_sink })
        shared
      ≡ ok (finished (record peer { mode = publish s'; poll_state = closed }, shared)))
    × (sorted_list_laws.contents s'.queue.queue ≡ [])
    × (s'.sink ≡ [])
unfolding buffer_sink start_send new
poll-closed_example =
    poll-closed sorted_list (buffer_session_manager 50) config 0 linear eighths (λ _. true) futures
      8 sorted_list_laws buffer_sink (arrival soon nothing) (arrival soon nothing) [] holding []
      peer shared (λ s. refl) refl
