-- ===== src/Sink/Tests.antt =====
-- The output sink on concrete packets.
use streamsync.Base.{ℕ, ◌-◌, ◌^◌, ◌≡◌, refl, false, some, List, [], ◌∷◌, arith}
use streamsync.Packet.{DataPacket, message_number}
use streamsync.Proto.{bits}
use streamsync.Serial
use streamsync.Sink.{
  poll_write, InnerSink, done, failed, new, start_send, buffer_left, buffer_sink, poll_ready,
  poll_close,
}
use streamsync.Sink.Delivery.{Relay}
use streamsync.Sink.Invariant.{IsValid, made, sent, closed, Reachable-IsValid}
use streamsync.Sink.Linear.{sorted_list, SortedList, sorted_list_laws, insert}
use streamsync.Sink.Queue
use streamsync.Sink.Queue.{Segment, Clock, Poll, ready, pending, cmp}
use streamsync.Sink.Rank.{AllNear-AreNear, rank}
use streamsync.Sink.Reassembly.{Delivers, poll_ready-Delivers}
use streamsync.Sink.Reorder.{start_send_all, segments, Reordered, poll_ready-start_send_all}

abbrev packet : ℕ → ℕ → ℕ → DataPacket
packet number timestamp byte = record {
  header = record { seg0 = 0; seg1 = number; timestamp = timestamp; destination_socket_id = 1 };
  payload = byte ∷ [];
}

abbrev last_number : ℕ
last_number = 2 ^ 26 - 1

-- Three packets about the wrap of the message number, out of order.
abbrev shuffled : List DataPacket
shuffled = packet 0 10 22 ∷ packet last_number 5 11 ∷ packet 1 15 33 ∷ []

abbrev late : Clock
late = record { now = 1_000; elapsed = λ _. false }

abbrev filled : Relay SortedList
filled = start_send_all sorted_list shuffled (new sorted_list [] 100 20 3)

poll_ready_run :
    poll_ready sorted_list buffer_sink 4 late filled
    ≡ some (record {
      next_msgnum = 1;
      queue = record {
        queue = record { items = []; room = 3 };
        size = 0;
        start = 100;
        latency = 20;
      };
      sink = (11 ∷ []) ∷ (22 ∷ []) ∷ (33 ∷ []) ∷ [];
    })
unfolding poll_ready poll_write buffer_sink new start_send Queue.push Queue.push_heap Queue.new
    Queue.take Queue.pop insert cmp Serial.cmp message_number bits
poll_ready_run = refl

-- The fourth packet finds the queue full.
full_run : start_send sorted_list (packet 2 20 44) filled ≡ filled
unfolding start_send new Queue.push Queue.push_heap Queue.new insert cmp Serial.cmp message_number
    bits
full_run = refl

-- A second before the first delivery time nothing is sent.
early_run :
    poll_ready sorted_list buffer_sink 4 (record { now = 100; elapsed = λ _. false }) filled
    ≡ some filled
unfolding poll_ready poll_write buffer_sink new start_send Queue.push Queue.push_heap Queue.new
    Queue.take Queue.pop insert cmp Serial.cmp message_number bits
early_run = refl

buffer_left_run : buffer_left sorted_list filled ≡ 8_189
unfolding buffer_left new start_send Queue.push Queue.push_heap Queue.new insert cmp Serial.cmp
    message_number bits
buffer_left_run = refl

Reachable-IsValid_example :
    IsValid sorted_list sorted_list_laws 3 (poll_close sorted_list buffer_sink filled).1.queue
Reachable-IsValid_example =
    Reachable-IsValid sorted_list sorted_list_laws buffer_sink 3
      (poll_close sorted_list buffer_sink filled).1
      (closed (
        sent (packet 1 15 33)
          (sent (packet last_number 5 11) (sent (packet 0 10 22) (made [] 100 20)))))

-- Two segments, of which the second is not due yet.
abbrev held : Relay SortedList
held = record {
  next_msgnum = 1;
  queue = record {
    queue = record {
      items =
          record { message_number = 7; delivery_time = 900; payload = 1 ∷ [] }
          ∷ record { message_number = 8; delivery_time = 1_200; payload = 2 ∷ [] }
          ∷ [];
      room = 8;
    };
    size = 2;
    start = 100;
    latency = 20;
  };
  sink = [];
}

poll_ready-Delivers_example :
    (s' : Relay SortedList) × (poll_ready sorted_list buffer_sink 3 late held ≡ some s')
    × Delivers sorted_list sorted_list_laws 1_000 (rank 7 2_000) held s'
unfolding sorted_list_laws
poll_ready-Delivers_example =
    poll_ready-Delivers sorted_list sorted_list_laws (rank 7 2_000) 3 late held (omega arith)
      ((omega arith, tt), (tt, tt)) (λ t h. refl)

poll_ready-start_send_all_example :
    (s' : Relay SortedList) × (poll_ready sorted_list buffer_sink 4 late filled ≡ some s')
    × Reordered sorted_list sorted_list_laws 100 20 last_number 1_000 shuffled s'
unfolding message_number bits
poll_ready-start_send_all_example =
    poll_ready-start_send_all sorted_list sorted_list_laws 100 20 3 last_number 4 late shuffled
      (omega arith) (omega arith) (omega arith)
      (AllNear-AreNear last_number 1_001 (segments 100 20 shuffled) (
        record { number = omega arith; near = omega arith; soon = omega arith },
        (
          record { number = omega arith; near = omega arith; soon = omega arith },
          (record { number = omega arith; near = omega arith; soon = omega arith }, tt),
        ),
      ))
      (λ t h. refl)

-- An inner sink that is broken for good.
abbrev broken : InnerSink ℕ ℕ
broken = record {
  poll_ready = λ k. (ready (failed 5), k);
  start_send = λ item k. (failed 5, k);
  poll_flush = λ k. (ready (failed 5), k);
  poll_close = λ k. (ready done, k);
}
