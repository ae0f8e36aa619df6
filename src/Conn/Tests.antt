-- ===== src/Conn/Tests.antt =====
-- The theorems on connections at concrete connections, whose sink is a number.
use streamsync.Base.{
  ℕ, ◌<◌, ◌-◌, ◌^◌, ◌≡◌, refl, ◌∙◌, ap, true, false, some, length, List, [], ◌∷◌, ◌++◌, get_elem?,
  if◌then◌else◌, arith,
}
use streamsync.Control.Casts.{build_nak, upcast_nak}
use streamsync.Control.Numbers.{single}
use streamsync.Conn.LossList.{extend_range, remove, remove_at}
use streamsync.Conn.LossList.Recorded.{remove-extend_range}
use streamsync.Conn.LossList.Laws.{remove_nil}
use streamsync.Conn.LossList.Linear.{linear}
use streamsync.Conn.Metrics.{new_metrics}
use streamsync.Conn.Queue
use streamsync.Conn.Queue.{empty_queue}
use streamsync.Conn.Receive.{handle_data, count_dropped}
use streamsync.Conn.Receive.Gap.{handle_data_gap, handle_data_late}
use streamsync.Conn.Receive.Filled.{handle_data_filled}
use streamsync.Conn.Rtt.{new_rtt, is_reachable}
use streamsync.Conn.State.{
  OutputSink, ConnectionMode, Connection, publish, request, read, write_sink, timestamp, address,
}
use streamsync.Conn.State.Clock.{Publishes}
use streamsync.Conn.Transmit.{data_packet_of, send_stream, handle_nak}
use streamsync.Conn.Transmit.Recovery.{handle_nak-send_stream}
use streamsync.Conn.Transmit.Sending.{packets}
use streamsync.Control.Casts.{Ack, downcast_ack}
use streamsync.Packet.{Packet, upcast_data, DataPacket, packet_sequence_number, build_data}
use streamsync.Control.Casts.{Ack, downcast_ack}
use streamsync.Packet.HeaderFields.{build_data_lem}
use streamsync.Proto.Error.{ok}
use streamsync.Sequence.{add_sequence}
use streamsync.Serial.Order.{cmp_near}
use streamsync.Stream.{Sent, new_stream}
use streamsync.Stream.Resend.{expected}
use streamsync.Timestamp.{from_start}

abbrev counter : OutputSink ℕ
counter = record { update_start = λ _ s. s; buffer_left = λ s. 8_192 - s }

abbrev connection : ConnectionMode ℕ → Connection ℕ
connection mode = record {
  client_socket_id = 77;
  server_socket_id = 1;
  start_time = 1_000;
  timestamp_is_wrapping = false;
  server_sequence_number = 2_147_483_646;
  client_sequence_number = 100;
  mode = mode;
  inflight_acks = [];
  loss_list = [];
  rtt = new_rtt;
  last_time = 1_000;
  poll_state = read;
  mtu = 1_500;
  queue = empty_queue;
  latency = 120_000;
  shutdown = false;
  metrics = new_metrics;
}

abbrev publisher : Connection ℕ
publisher = connection (publish 0)

abbrev publisher-Publishes : Publishes publisher
publisher-Publishes = record { sink = 0; mode = refl }

abbrev numbered : ℕ → DataPacket
numbered seq = build_data seq 1 false (9 ∷ [])

number : (seq : ℕ) → seq < 2 ^ 31 → packet_sequence_number (numbered seq).header ≡ seq
number seq h = (build_data_lem seq 1 false (9 ∷ []) h (omega arith)).1

abbrev polls : List (ℕ × List ℕ)
polls = (1_010, 1 ∷ []) ∷ (1_020, 2 ∷ 2 ∷ []) ∷ (1_040, 3 ∷ []) ∷ []

abbrev third : Sent
third = record { payload = 3 ∷ []; timestamp = 40; message_number = 3 }

handle_nak-send_stream_example :
    let c = connection (request (new_stream 2 2_147_483_646 1_000)) in
    let seq = add_sequence 2_147_483_646 2 in
    let sent = packets 2_147_483_646 77 0 (expected 1_000 0 polls) in
    (c1 : Connection ℕ) × (c2 : Connection ℕ) × (send_stream polls
        (new_stream 2 2_147_483_646 1_000)
        c
      ≡ ok c1)
    × (c1.queue ≡ record c.queue { queue = c.queue.queue ++ sent })
    × (get_elem? sent 2 ≡ some (data_packet_of false seq 77 third))
    × (handle_nak counter 9_000 (build_nak (single seq)) c1 ≡ ok c2)
    × (c2.queue
        ≡ record c1.queue { prio = c1.queue.prio ++ (data_packet_of true seq 77 third ∷ []) })
handle_nak-send_stream_example =
    handle_nak-send_stream counter 9_000 2 1_000 2_147_483_646 2 polls
      (connection (request (new_stream 2 2_147_483_646 1_000))) third (omega arith) (omega arith)
      refl refl (unfold expected in unfold from_start in refl) (omega arith) (omega arith)

handle_data_gap_example :
    let k : ℕ = 100 in
    let seq = packet_sequence_number (numbered 103).header in
    (c' : Connection ℕ) × (handle_data counter linear 8 2_000 (numbered 103) publisher ≡ ok c')
    × (c'.poll_state ≡ write_sink (numbered 103))
    × (c'.client_sequence_number ≡ add_sequence seq 1)
    × (c'.loss_list ≡ extend_range (seq - k) k 2_000 [])
    × (c'.queue ≡ (
        if is_reachable 120_000 new_rtt
        then Queue.push_prio
            (address (timestamp counter 2_000 publisher).0 77 (upcast_nak (build_nak (single k))))
            empty_queue
        else empty_queue))
    × Publishes c'
handle_data_gap_example =
    handle_data_gap counter linear 8 2_000 (numbered 103) publisher publisher-Publishes
      (remove_nil linear (packet_sequence_number (numbered 103).header))
      (omega (arith, number 103 (omega arith))) (omega (arith, number 103 (omega arith)))
      (omega (arith, number 103 (omega arith)))

handle_data_filled_example :
    (c1 : Connection ℕ) × (c2 : Connection ℕ) × (handle_data counter linear 8 2_000
        (numbered 103)
        publisher
      ≡ ok c1)
    × (c1.poll_state ≡ write_sink (numbered 103))
    × (handle_data counter linear 8 2_500 (numbered 101) c1 ≡ ok c2)
    × (c2.poll_state ≡ write_sink (numbered 101))
    × (c2.client_sequence_number ≡ add_sequence (packet_sequence_number (numbered 103).header) 1)
handle_data_filled_example =
    handle_data_filled counter linear 8 2_000 2_500 100 1 (numbered 103) (numbered 101) publisher
      publisher-Publishes (remove_nil linear (packet_sequence_number (numbered 103).header)) tt
      (omega arith) (omega (arith, number 103 (omega arith)))
      (omega (arith, number 103 (omega arith))) (omega (arith, number 103 (omega arith)))
      (omega (arith, number 103 (omega arith))) (number 101 (omega arith))
      (omega (arith, number 103 (omega arith)))

handle_data_late_example :
    (c' : Connection ℕ) × (handle_data counter linear 8 2_000 (numbered 98) publisher ≡ ok c')
    × (c'.poll_state ≡ read)
    × (c'.client_sequence_number ≡ 100)
    × (c'.loss_list ≡ [])
    × (c'.queue ≡ empty_queue)
    × (c'.metrics ≡ count_dropped (length (numbered 98).payload) new_metrics)
handle_data_late_example =
    handle_data_late counter linear 8 2_000 (numbered 98) publisher publisher-Publishes
      (remove_nil linear (packet_sequence_number (numbered 98).header))
      (cmp_near 31 (packet_sequence_number (numbered 98).header) 100
        (omega (arith, number 98 (omega arith))) (omega (arith, number 98 (omega arith)))
        (omega arith)).0

abbrev missing : Connection ℕ
missing = record publisher { loss_list = extend_range 3 100 700 [] }

found_101 :
    remove linear (packet_sequence_number (numbered 101).header) (extend_range 3 100 700 [])
    ≡ some (700, remove_at 1 (extend_range 3 100 700 []))
found_101 =
    ap (λ (n : ℕ). remove linear n (extend_range 3 100 700 [])) (number 101 (omega arith))
    ∙ remove-extend_range linear 3 100 700 100 1 [] tt (omega arith) (omega arith) (omega arith)
        (omega arith)

abbrev first_packet : Packet
first_packet = upcast_data (numbered 1)

abbrev second_packet : Packet
second_packet = upcast_data (numbered 2)
