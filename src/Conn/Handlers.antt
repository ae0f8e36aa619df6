-- ===== src/Conn/Handlers.antt =====
-- The other handlers of a connection, `tick`, and the dispatch of `handle_packet`,
-- stsync-proxy/src/srt/conn.rs. `handle_handshake` is in Handshake.
pub mod RoundTrip
use streamsync.Base.{ℕ, ◌+◌, ◌-◌, ◌*◌, ◌/◌, leb, ◌==◌, if◌then◌else◌, u32, none, some}
use streamsync.Control.Casts.{
  Plain, upcast_keepalive, build_keepalive, upcast_ack_ack, build_ack_ack, acknowledgement_number,
  Ack, upcast_ack, build_ack,
}
use streamsync.Conn.LossList.{BinarySearch, push_in, clear_in, remove}
use streamsync.Conn.Metrics.{ConnectionMetrics}
use streamsync.Conn.Rtt.{Rtt, Float, update}
use streamsync.Conn.State.{OutputSink, Connection, induction, publish, request, send, close}
use streamsync.Sequence.{add_sequence}

-- The gauges of the round trip.
abbrev gauge : Rtt → ConnectionMetrics → ConnectionMetrics
gauge r m = record m { rtt = r.rtt; rtt_variance = r.rtt_variance }

-- 15 s and 1 s.
abbrev pub timeout : ℕ
timeout = 15_000_000

abbrev second : ℕ
second = 1_000_000

-- What the purge of the loss lists counts.
pub count_lost : ℕ → ℕ → ℕ → ConnectionMetrics → ConnectionMetrics
count_lost packets acks mtu m = record m {
  data_bytes_recv = record m.data_bytes_recv {
    lost = m.data_bytes_recv.lost + packets + packets * mtu;
  };
  ctrl_packets_lost = m.ctrl_packets_lost + acks;
  ctrl_bytes_lost = m.ctrl_bytes_lost + acks * 44;
}

-- A rate over the seconds of the connection, on `u32`.
pub rate : ℕ → ℕ → ℕ
rate total timespan = if timespan == 0 then 0 else u32 total / timespan

module _ {S : Type 0} (o : OutputSink S) where
  unfoldable pub handle_shutdown : ℕ → Plain → Connection S → Connection S
  handle_shutdown now _ c = close o now c

  unfoldable pub handle_keepalive : ℕ → Plain → Connection S → Connection S
  handle_keepalive now _ c = send o now (upcast_keepalive build_keepalive) c

  unfoldable pub handle_ack : ℕ → Ack → Connection S → Connection S
  handle_ack now p c = elim c.mode [
    | request _ ↦
        let r : Rtt = record { rtt = p.rtt; rtt_variance = p.rtt_variance } in
        send o now (upcast_ack_ack (build_ack_ack p.header.seg1))
          (record c { rtt = r; metrics = gauge r c.metrics })
    | induction _ ↦ c
    | publish _ ↦ c
  ]

  -- The ACK of a tick, when the sink has `left` slots.
  pub build_tick_ack : ℕ → ℕ → Connection S → Ack
  unfolding rate
  build_tick_ack now left c =
      let timespan = u32 ((now - c.start_time) / second) in
      let packets_rate = rate c.metrics.data_bytes_recv.original timespan in
      build_ack c.server_sequence_number c.client_sequence_number c.rtt.rtt c.rtt.rtt_variance
        (u32 left) packets_rate packets_rate packets_rate

  unfoldable pub tick_publish : ℕ → S → Connection S → Connection S
  unfolding count_lost build_tick_ack
  tick_publish now sink c =
      let (losses, packets_lost) = clear_in c.rtt.rtt now c.loss_list in
      let (acks, acks_lost) = clear_in c.rtt.rtt now c.inflight_acks in
      let purged = record c {
        loss_list = losses;
        inflight_acks = push_in c.server_sequence_number now acks;
        metrics = count_lost packets_lost acks_lost c.mtu c.metrics;
        server_sequence_number = add_sequence c.server_sequence_number 1;
      } in
      send o now (upcast_ack (build_tick_ack now (o.buffer_left sink) c)) purged

  unfoldable pub tick : ℕ → Connection S → Connection S
  unfolding tick_publish
  tick now c =
      if c.shutdown
      then close o now c
      else if leb timeout (now - c.last_time)
      then close o now c
      else elim c.mode [ publish sink ↦ tick_publish now sink c | induction _ ↦ c | request _ ↦ c ]

module _ {S : Type 0} (bs : BinarySearch) (f : Float) where
  unfoldable pub handle_ackack : ℕ → Plain → Connection S → Connection S
  handle_ackack now p c = elim (remove bs (acknowledgement_number p) c.inflight_acks) [
    | none ↦ c
    | some (ts, acks) ↦
        let r = update f (u32 (now - ts)) c.rtt in
        record c { inflight_acks = acks; rtt = r; metrics = gauge r c.metrics }
  ]
