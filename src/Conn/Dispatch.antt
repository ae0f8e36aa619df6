-- ===== src/Conn/Dispatch.antt =====
-- `handle_packet` and `poll_read` of stsync-proxy/src/srt/conn.rs.
use streamsync.Base.{ℕ, ◌+◌, Bool, if◌then◌else◌, none, some, List, [], ◌∷◌}
use streamsync.Control.Casts.{
  downcast_keepalive, downcast_shutdown, downcast_ack_ack, downcast_ack, downcast_nak,
}
use streamsync.Conn.Handshake.{Peer, handle_handshake}
use streamsync.Conn.Output.{output_sink}
use streamsync.Conn.Shared.{Config, SessionManager, Shared}
use streamsync.Handshake.{downcast_handshake}
use streamsync.Sink.Heap.{BinaryHeap}
use streamsync.Sink.Queue.{Segment, Poll, ready, pending}
use streamsync.Conn.Handlers.{handle_shutdown, handle_keepalive, handle_ack, handle_ackack, tick}
use streamsync.Conn.LossList.{BinarySearch}
use streamsync.Conn.Metrics.{ConnectionMetrics}
use streamsync.Conn.Queue
use streamsync.Conn.Receive.{handle_data}
use streamsync.Conn.Rtt.{Float}
use streamsync.Conn.State.{induction, publish, request, write, close}
use streamsync.Conn.Transmit.{handle_nak, send_stream}
use streamsync.Packet.{Packet, packet_type, packet_size, control_type, downcast_data}
use streamsync.Proto.Error.{Result, ok, err, panicked, ◌>>=◌}
use streamsync.Types.ControlType.{
  data_packet, control_packet, ControlPacketType, handshake, keepalive, ack, nak,
  congestion_warning, shutdown, ack_ack, drop_req, peer_error, user_defined,
}

-- `Err` of a downcast is logged, and the packet ignored.
abbrev pub or_ignore : {R : Type 0} {A : Type 0} → R → Result A → (A → Result R) → Result R
or_ignore c (ok p) handler = handler p
or_ignore c (err _) handler = ok c
or_ignore c panicked handler = panicked

pub count_control_recv : ℕ → ConnectionMetrics → ConnectionMetrics
count_control_recv n m = record m {
  ctrl_packets_recv = m.ctrl_packets_recv + 1;
  ctrl_bytes_recv = m.ctrl_bytes_recv + n;
}

-- The counters of a packet that leaves. For a data packet, both counts go to
-- `data_bytes_sent.original`.
pub count_sent : Packet → ConnectionMetrics → ConnectionMetrics
count_sent p m = elim (packet_type p.header) [
  | data_packet ↦ record m {
    data_bytes_sent = record m.data_bytes_sent {
      original = m.data_bytes_sent.original + 1 + packet_size p;
    };
  }
  | control_packet ↦ record m {
    ctrl_packets_sent = m.ctrl_packets_sent + 1;
    ctrl_bytes_sent = m.ctrl_bytes_sent + packet_size p;
  }
]

-- What the channel of incoming packets gives: a packet, the end, or nothing yet.
pub data Incoming : Type 0 where
  received : Packet → Incoming
  disconnected : Incoming
  nothing : Incoming

-- Whether a payload was sent: `count > 0`.
abbrev any_sent : List (ℕ × List ℕ) → Poll Unit
any_sent [] = pending
any_sent (_ ∷ _) = ready tt

-- A connection and what it shares with others.
abbrev pub Served : Type 0 → Type 0 → Type 0 → Type 0
Served H K M = Peer H K × Shared M

abbrev with_shared : {H K M : Type 0} → Shared M → Result (Peer H K) → Result (Served H K M)
with_shared w r = r >>= λ c. ok (c, w)

module _ {H K M : Type 0} (b : BinaryHeap Segment H) (manager : SessionManager M K)
    (config : Config) (peer_address : ℕ) (bs : BinarySearch) (f : Float)
    (valid_utf8 : List ℕ → Bool) where
  -- The handler of a control packet of a known type.
  unfoldable pub handle_control :
      ControlPacketType → ℕ → Packet → Peer H K → Shared M → Result (Served H K M)
  handle_control handshake now p c w =
      or_ignore (c, w) (downcast_handshake valid_utf8 p)
        (λ q. ok (handle_handshake b manager config peer_address now q c w))
  handle_control keepalive now p c w =
      with_shared w
        (or_ignore c (downcast_keepalive p) (λ q. ok (handle_keepalive (output_sink b) now q c)))
  handle_control ack now p c w =
      with_shared w (or_ignore c (downcast_ack p) (λ q. ok (handle_ack (output_sink b) now q c)))
  handle_control nak now p c w =
      with_shared w (or_ignore c (downcast_nak p) (λ q. handle_nak (output_sink b) now q c))
  handle_control congestion_warning now p c w = ok (c, w)
  handle_control shutdown now p c w =
      with_shared w
        (or_ignore c (downcast_shutdown p) (λ q. ok (handle_shutdown (output_sink b) now q c)))
  handle_control ack_ack now p c w =
      with_shared w (or_ignore c (downcast_ack_ack p) (λ q. ok (handle_ackack bs f now q c)))
  handle_control drop_req now p c w = ok (c, w)
  handle_control peer_error now p c w = ok (c, w)
  handle_control user_defined now p c w = ok (c, w)

  unfoldable pub handle_packet : ℕ → ℕ → Packet → Peer H K → Shared M → Result (Served H K M)
  unfolding handle_control count_control_recv
  handle_packet depth now p c w =
      let seen = record c { last_time = now } in
      elim (packet_type p.header) [
        | data_packet ↦ with_shared w (
            or_ignore seen (downcast_data p) (λ q. handle_data (output_sink b) bs depth now q seen))
        | control_packet ↦
            let counted = record seen {
              metrics = count_control_recv (packet_size p) seen.metrics;
            } in
            control_type p.header >>= λ t. handle_control t now p counted w
      ]

  -- The polls of the stream, in request mode: the payloads until it is pending, or ends. `count` is
  -- that of the payloads sent.
  unfoldable pub read_stream :
      ℕ → List (ℕ × List ℕ) → Bool → Peer H K → Result (Poll Unit × Peer H K)
  read_stream now payloads ended c = elim c.mode [
    | request stream ↦ send_stream payloads stream c >>= λ c'.
        ok (if ended then (ready tt, close (output_sink b) now c') else (any_sent payloads, c'))
    | induction _ ↦ ok (pending, c)
    | publish _ ↦ ok (pending, c)
  ]

  -- `poll_read`, for what the channel, the tick interval and the stream give at this call.
  unfoldable pub poll_read :
      ℕ
      → ℕ
      → Incoming
      → Bool
      → List (ℕ × List ℕ)
      → Bool
      → Peer H K
      → Shared M
      → Result (Poll Unit × Served H K M)
  unfolding handle_packet read_stream count_sent
  poll_read depth now incoming ticked payloads ended c w = elim (Queue.pop c.queue) [
    | some (p, rest) ↦ ok (
      ready tt,
      (record c { queue = rest; metrics = count_sent p c.metrics; poll_state = write p }, w),
    )
    | none ↦ elim incoming [
      | received p ↦ handle_packet depth now p c w >>= λ r. ok (ready tt, r)
      | disconnected ↦ ok (ready tt, (close (output_sink b) now c, w))
      | nothing ↦
          read_stream now payloads ended (if ticked then tick (output_sink b) now c else c)
          >>= λ (r, c'). ok (r, (c', w))
    ]
  ]
