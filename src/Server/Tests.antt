-- ===== src/Server/Tests.antt =====
-- The server on concrete handshakes.
use mathlib.Core.Path.{subst}
use streamsync.Base.{ℕ, ◌≡◌, refl, false, true, List, [], ◌∷◌, ◌++◌, ◌^◌, arith}
use streamsync.Conn.Shared.{Config}
use streamsync.Handshake.{Handshake, default_handshake, upcast_handshake}
use streamsync.Packet.{Packet}
use streamsync.Proto.Error.{Result, ok, panicked}
use streamsync.Server.{
  induction_response, count_new, Server, Task, dropped, delivered, handshake_induction,
  handshake_conclusion, handle_message, drop_task, fresh_connection, induct, new_connection,
  induction_id,
}
use streamsync.Server.Stored.{IsStored, Reachable-IsStored}
use streamsync.Conn.Dispatch.{nothing, poll_read, read_stream}
use streamsync.Conn.LossList.Linear.{linear}
use streamsync.Conn.Polls.{SinkFutures, Turn, waiting, round, poll}
use streamsync.Conn.Queue
use streamsync.Conn.Relay.{arrival}
use streamsync.Conn.Rtt.{eighths}
use streamsync.Sink
use streamsync.Sink.Queue.{pending}
use streamsync.Server.Gauges.{
  Reachable, after_poll, IsCounted, empty, after_induction, no_metrics, panics, Reachable-IsCounted,
}
use streamsync.Server.Routing.{IsInduction, inducted, handle_message-induction, drop_task-induction}
use streamsync.Sequence.{new_sequence}
use streamsync.Session.Manager.{Inner, buffer_session_manager}
use streamsync.Sink.Linear.{sorted_list, SortedList}
use streamsync.Types.HandshakeType

abbrev config : Config
config = record { mtu = 1_500; flow_window = 8_192; buffer = 8_192; latency = 120 }

abbrev Proxy : Type 0
Proxy = Server SortedList (List (List ℕ)) Inner

abbrev idle : Proxy
idle = record {
  pool = [];
  shared = record {
    session_manager = record { streams = []; registry = [] };
    metrics = no_metrics;
  };
  tasks = [];
  next_channel = 3;
  outgoing = [];
}

abbrev hello : Handshake
hello = record default_handshake {
  version = 4;
  extension_field = 2;
  initial_packet_sequence_number = 1_000;
  handshake_type = HandshakeType.induction;
  srt_socket_id = 77;
}

abbrev conclusion : Handshake
conclusion = record default_handshake {
  version = 5;
  extension_field = 5;
  handshake_type = HandshakeType.conclusion;
  srt_socket_id = 77;
  syn_cookie = 4;
}

hello_fits : IsInduction hello
hello_fits = record {
  version = refl;
  encryption = refl;
  field = refl;
  cookie = refl;
  number = omega arith;
}

abbrev data_to : ℕ → Packet
data_to destination = record {
  header = record { seg0 = 1_000; seg1 = 0; timestamp = 0; destination_socket_id = destination };
  body = 1 ∷ [];
}

handle_message-induction_example :
    (s' : Proxy) × (handshake_induction config 50 9 1 0 hello idle ≡ (ok tt, s'))
    × (handle_message config (λ s. true) 50 9 1 0 (data_to 77) s'
        ≡ (ok (delivered 3 (data_to 77)), s'))
    × (handshake_conclusion 1 conclusion s' ≡ delivered 3 (upcast_handshake conclusion))
handle_message-induction_example =
    handle_message-induction config 50 9 1 0 (λ s. true) hello idle (data_to 77) conclusion
      hello_fits refl (omega arith) refl refl refl refl

-- A server with the connection of `hello`.
abbrev busy : Proxy
busy = inducted config 50 9 1 0 hello (fresh_connection (induction_id 1 hello) 50 1_000 4) idle

drop_task-induction_example :
    (t : Task SortedList (List (List ℕ))) × (s' : Proxy) × (handshake_induction config 60 9 1 0
        hello busy
      ≡ (ok tt, s'))
    × (s'.pool ≡ busy.pool)
    × (s'.tasks ≡ t ∷ busy.tasks)
    × ((drop_task t s').tasks ≡ busy.tasks)
    × (handle_message config (λ s. true) 60 9 1 0 (data_to 77) (drop_task t s')
        ≡ (ok dropped, drop_task t s'))
drop_task-induction_example =
    drop_task-induction config 60 9 1 0 (λ s. true) hello busy
      (record { id = induction_id 1 hello; channel = 3 }) (data_to 77) hello_fits refl (omega arith)
      refl

hello_run : handshake_induction config 50 9 1 0 hello idle ≡ (ok tt, busy)
unfolding handshake_induction induct new_connection new_sequence
hello_run = refl

-- The futures are never polled here.
abbrev futures : SinkFutures (Sink.OutputSink SortedList (List (List ℕ))) ⊥
futures = record { poll_feed = λ clock p s. (pending, s); poll_close = λ s. (pending, s) }

abbrev turns : List Turn
turns = arrival (record { now = 70; elapsed = λ _. false }) nothing ∷ []

poll_run :
    poll sorted_list
      (buffer_session_manager 50)
      config
      0
      linear
      eighths
      (λ _. true)
      futures
      8
      turns
      (fresh_connection (induction_id 1 hello) 50 1_000 4)
      busy.shared
    ≡ ok (waiting (fresh_connection (induction_id 1 hello) 50 1_000 4, busy.shared))
unfolding poll round poll_read read_stream Queue.pop
poll_run = refl

-- The server after a poll that finds nothing.
polled_run :
    Reachable sorted_list
      (buffer_session_manager 50)
      config
      linear
      eighths
      (λ _. true)
      futures
      8
      0
      busy
polled_run =
    after_poll 0 0 3 turns
      (record {
        channel = 3;
        id = induction_id 1 hello;
        connection = fresh_connection (induction_id 1 hello) 50 1_000 4;
      })
      (waiting (fresh_connection (induction_id 1 hello) 50 1_000 4, busy.shared))
      (subst
        (λ (r : Result {0} Unit × Proxy).
          Reachable sorted_list (buffer_session_manager 50) config linear eighths (λ _. true)
            futures 8 (panics r.0 0) r.1)
        hello_run
        (after_induction 0 50 9 1 0 hello (empty (record { streams = []; registry = [] }) 3)))
      refl (poll_run)

-- An INDUCTION that panics, and the server after it.
abbrev too_long : Handshake
too_long = record hello { initial_packet_sequence_number = 2 ^ 31 }

abbrev leaking : Proxy
leaking = record busy {
  outgoing = busy.outgoing ++ ((1, induction_response config 0 4 too_long) ∷ []);
  shared = record busy.shared { metrics = count_new busy.shared.metrics };
}

too_long_run : handshake_induction config 60 9 1 0 too_long busy ≡ (panicked, leaking)
unfolding handshake_induction induct new_connection new_sequence
too_long_run = refl

leaking_run :
    Reachable sorted_list
      (buffer_session_manager 50)
      config
      linear
      eighths
      (λ _. true)
      futures
      8
      1
      leaking
leaking_run =
    subst
      (λ (r : Result {0} Unit × Proxy).
        Reachable sorted_list (buffer_session_manager 50) config linear eighths (λ _. true) futures
          8 (panics r.0 0) r.1)
      too_long_run (after_induction 0 60 9 1 0 too_long polled_run)

Reachable-IsCounted_example : IsCounted 1 leaking
Reachable-IsCounted_example =
    Reachable-IsCounted sorted_list (buffer_session_manager 50) config linear eighths (λ _. true)
      futures 8 1 leaking leaking_run

Reachable-IsStored_example : IsStored busy
Reachable-IsStored_example =
    Reachable-IsStored sorted_list (buffer_session_manager 50) config linear eighths (λ _. true)
      futures 8 0 busy polled_run
