-- ===== src/Conn/Receive.antt =====
-- `handle_data` of stsync-proxy/src/srt/conn.rs: a data packet from a publishing peer.
pub mod Order
pub mod Recording
pub mod Gap
pub mod Filled
use streamsync.Base.{
  ℕ, ◌+◌, ◌-◌, Bool, true, false, ◌&&◌, not, if◌then◌else◌, Option, none, some, length,
}
use streamsync.Control.Casts.{upcast_nak, build_nak}
use streamsync.Control.Numbers.{from_range}
use streamsync.Conn.LossList.{LossList, BinarySearch, extend_range, remove}
use streamsync.Conn.Metrics.{ConnectionMetrics}
use streamsync.Conn.Queue
use streamsync.Conn.Rtt.{is_reachable}
use streamsync.Conn.State.{
  OutputSink, Connection, induction, publish, request, write_sink, timestamp, address,
}
use streamsync.Packet.{DataPacket, packet_sequence_number}
use streamsync.Proto.Error.{Result, ok, panicked, ◌>>=◌}
use streamsync.Sequence.{new_sequence, add_sequence, cmp_sequence, is_lt, is_gt}

-- The packet counters of a packet of `n` bytes.
pub count_dropped : ℕ → ConnectionMetrics → ConnectionMetrics
count_dropped n m = record m {
  data_packets_recv = record m.data_packets_recv { dropped = m.data_packets_recv.dropped + 1 };
  data_bytes_recv = record m.data_bytes_recv { dropped = m.data_bytes_recv.dropped + n };
}

pub count_accepted : Bool → ℕ → ConnectionMetrics → ConnectionMetrics
count_accepted true n m = record m {
  data_packets_recv = record m.data_packets_recv {
    retransmitted = m.data_packets_recv.retransmitted + 1;
  };
  data_bytes_recv = record m.data_bytes_recv {
    retransmitted = m.data_bytes_recv.retransmitted + n;
  };
}
count_accepted false n m = record m {
  data_packets_recv = record m.data_packets_recv { original = m.data_packets_recv.original + 1 };
  data_bytes_recv = record m.data_bytes_recv { original = m.data_bytes_recv.original + n };
}

-- The loss list after the lookup, and whether the number was in it.
abbrev pub after_remove : LossList → Option (ℕ × LossList) → LossList × Bool
after_remove l none = (l, false)
after_remove l (some (_, l')) = (l', true)

module _ {S : Type 0} where
  -- The NAK for the numbers `first..end`. `depth` is how deep the conversion of the range may recurse
  -- before the stack overflows.
  unfoldable pub push_nak : ℕ → ℕ → ℕ → ℕ → Connection S → Result (Connection S)
  push_nak depth ts first end c = elim (from_range depth first end) [
    | none ↦ panicked
    | some numbers ↦ ok (record c {
      queue =
          Queue.push_prio (address ts c.client_socket_id (upcast_nak (build_nak numbers))) c.queue;
    })
  ]

  -- The branch of a gap.
  unfoldable pub record_gap : ℕ → ℕ → ℕ → ℕ → Connection S → Result (Connection S)
  unfolding push_nak
  record_gap depth now ts seqnum c =
      let first = c.client_sequence_number in
      let recorded = record c { loss_list = extend_range (seqnum - first) first now c.loss_list } in
      if is_reachable c.latency c.rtt then push_nak depth ts first seqnum recorded else ok recorded

  -- The packet goes to the sink.
  unfoldable pub accept : Bool → ℕ → DataPacket → Connection S → Connection S
  unfolding count_accepted
  accept is_retransmitted seqnum p c = record c {
    metrics = count_accepted is_retransmitted (length p.payload) c.metrics;
    poll_state = write_sink p;
    client_sequence_number =
        if is_retransmitted then c.client_sequence_number else add_sequence seqnum 1;
  }

  -- In publish mode, once the loss list has been looked up.
  unfoldable pub receive : ℕ → ℕ → ℕ → Bool → ℕ → DataPacket → Connection S → Result (Connection S)
  unfolding record_gap accept count_dropped
  receive depth now ts is_retransmitted seqnum p c =
      let order = cmp_sequence seqnum c.client_sequence_number in
      if not is_retransmitted && is_lt order
      then ok (record c { metrics = count_dropped (length p.payload) c.metrics })
      else if not is_retransmitted && is_gt order
      then (record_gap depth now ts seqnum c >>= λ c'. ok (accept is_retransmitted seqnum p c'))
      else ok (accept is_retransmitted seqnum p c)

module _ {S : Type 0} (bs : BinarySearch) where
  unfoldable pub handle_published : ℕ → ℕ → ℕ → DataPacket → Connection S → Result (Connection S)
  unfolding receive
  handle_published depth now ts p c = new_sequence (packet_sequence_number p.header) >>= λ seqnum.
      let (lost, is_retransmitted) = after_remove c.loss_list (remove bs seqnum c.loss_list) in
      receive depth now ts is_retransmitted seqnum p (record c { loss_list = lost })

module _ {S : Type 0} (o : OutputSink S) (bs : BinarySearch) where
  unfoldable pub handle_data : ℕ → ℕ → DataPacket → Connection S → Result (Connection S)
  unfolding handle_published
  handle_data depth now p c =
      let (ts, c') = timestamp o now c in
      elim c'.mode [
        | publish _ ↦ handle_published bs depth now ts p c'
        | induction _ ↦ ok c'
        | request _ ↦ ok c'
      ]
