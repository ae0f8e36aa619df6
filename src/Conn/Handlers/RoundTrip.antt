-- ===== src/Conn/Handlers/RoundTrip.antt =====
-- The measurement of the round trip: the ACK of a tick, and the peer's answer to it.
use streamsync.Base.{ℕ}
use streamsync.Control.Casts.{Ack}
use streamsync.Packet.{Packet}
use streamsync.Conn.LossList.{push_in, clear_in}
use streamsync.Conn.Handlers.{count_lost}
use streamsync.Conn.Queue
use streamsync.Conn.State.{OutputSink, Connection, timestamp}
use streamsync.Sequence.{add_sequence}

module _ {S : Type 0} (o : OutputSink S) (now : ℕ) (sink : S) (c : Connection S) where
  -- The connection when the ACK is sent.
  abbrev ticked : Connection S
  unfolding count_lost
  ticked = record c {
    loss_list = (clear_in c.rtt.rtt now c.loss_list).0;
    inflight_acks = push_in c.server_sequence_number now (clear_in c.rtt.rtt now c.inflight_acks).0;
    metrics =
        count_lost (clear_in c.rtt.rtt now c.loss_list).1 (clear_in c.rtt.rtt now c.inflight_acks).1
          c.mtu c.metrics;
    server_sequence_number = add_sequence c.server_sequence_number 1;
  }

-- The ACK with the header that `send` gave it.
abbrev readdress : ℕ → ℕ → Ack → Ack
readdress ts destination a = record a {
  header = record a.header { timestamp = ts; destination_socket_id = destination };
}
