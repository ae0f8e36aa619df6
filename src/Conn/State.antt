-- ===== src/Conn/State.antt =====
-- The state of a `Connection` of stsync-proxy/src/srt/conn.rs, and the operations that every handler
-- uses: the timestamp, the two ways to send, and closing. `now` is what `Instant::now()` gives during
-- a call, in microseconds.
pub mod Clock
pub mod Sent
use streamsync.Base.{ℕ, Bool, true, false, ◌&&◌, not, if◌then◌else◌}
use streamsync.Control.Casts.{upcast_shutdown, build_shutdown}
use streamsync.Conn.LossList.{LossList}
use streamsync.Conn.Metrics.{ConnectionMetrics}
use streamsync.Conn.Queue
use streamsync.Conn.Queue.{TransmissionQueue}
use streamsync.Conn.Rtt.{Rtt}
use streamsync.Packet.{Packet, DataPacket}
use streamsync.Stream.{SrtStream, update_stream_start}
use streamsync.Timestamp.{from_start, is_wrapping}

-- What a connection uses of an `OutputSink`, whose state is an `S`. `feed` and `close` are futures
-- of the `futures` crate over it: the connection only stores them.
pub record OutputSink (S : Type 0) : Type 0 where
  pub update_start : ℕ → S → S
  pub buffer_left : S → ℕ

pub data ConnectionMode (S : Type 0) : Type 0 where
  induction : ℕ → ConnectionMode S
  publish : S → ConnectionMode S
  request : SrtStream → ConnectionMode S

-- The stored futures, by what they were made from: `send_to` of a packet, `feed` of a data packet,
-- `close` of the sink.
pub data PollState : Type 0 where
  read : PollState
  write : Packet → PollState
  write_sink : DataPacket → PollState
  close_sink : PollState
  closed : PollState

pub record Connection (S : Type 0) : Type 0 where
  pub client_socket_id : ℕ
  pub server_socket_id : ℕ
  pub start_time : ℕ
  pub timestamp_is_wrapping : Bool
  pub server_sequence_number : ℕ
  pub client_sequence_number : ℕ
  pub mode : ConnectionMode S
  pub inflight_acks : LossList
  pub loss_list : LossList
  pub rtt : Rtt
  pub last_time : ℕ
  pub poll_state : PollState
  pub mtu : ℕ
  pub queue : TransmissionQueue
  pub latency : ℕ
  -- `shutdown.is_in_progress()`.
  pub shutdown : Bool
  pub metrics : ConnectionMetrics

-- The header fields that the senders fill in.
abbrev pub address : ℕ → ℕ → Packet → Packet
address ts destination p = record p {
  header = record p.header { timestamp = ts; destination_socket_id = destination };
}

module _ {S : Type 0} (o : OutputSink S) where
  abbrev pub update_mode_start : ℕ → ConnectionMode S → ConnectionMode S
  update_mode_start now (induction cookie) = induction cookie
  update_mode_start now (publish sink) = publish (o.update_start now sink)
  update_mode_start now (request stream) = request (update_stream_start now stream)

  -- The end of a wrapping period.
  unfoldable pub leave_wrapping : ℕ → Connection S → Connection S
  leave_wrapping now c = record c {
    start_time = now;
    timestamp_is_wrapping = false;
    mode = update_mode_start now c.mode;
  }

  -- `timestamp`: the timestamp, and the connection after the call.
  unfoldable pub timestamp : ℕ → Connection S → ℕ × Connection S
  unfolding leave_wrapping
  timestamp now c =
      let ts = from_start c.start_time now in
      let left =
        if c.timestamp_is_wrapping && not (is_wrapping ts) then leave_wrapping now c else c in
      (ts, if is_wrapping ts then record left { timestamp_is_wrapping = true } else left)

  unfoldable pub send : ℕ → Packet → Connection S → Connection S
  unfolding timestamp
  send now p c =
      let (ts, c') = timestamp now c in
      record c' { queue = Queue.push (address ts c'.client_socket_id p) c'.queue }

  pub send_prio : ℕ → Packet → Connection S → Connection S
  unfolding timestamp
  send_prio now p c =
      let (ts, c') = timestamp now c in
      record c' { queue = Queue.push_prio (address ts c'.client_socket_id p) c'.queue }

  abbrev pub closing : ConnectionMode S → PollState
  closing (publish _) = close_sink
  closing (induction _) = closed
  closing (request _) = closed

  unfoldable pub close : ℕ → Connection S → Connection S
  unfolding send
  close now c =
      let c' = send now (upcast_shutdown build_shutdown) c in
      record c' { poll_state = closing c'.mode }
