-- ===== src/Conn/State/Clock.antt =====
-- What taking a timestamp leaves as it was.
use streamsync.Base.{if_both, ℕ, ◌≡◌, refl, ap, true, ◌&&◌, not, if◌then◌else◌}
use streamsync.Conn.State.{
  OutputSink, Connection, publish, request, timestamp, leave_wrapping, update_mode_start,
}
use streamsync.Stream.{SrtStream, update_stream_start}
use streamsync.Timestamp.{from_start, is_wrapping}

-- `c'` is in request mode, with the segments of the stream `s`, the queue and the peer of `c`.
pub record Keeps {S : Type 0} (c : Connection S) (s : SrtStream) (c' : Connection S) : Type 0 where
  pub stream : SrtStream
  pub mode : c'.mode ≡ request stream
  pub first : stream.initial_sequence_number ≡ s.initial_sequence_number
  pub buffer : stream.buffer ≡ s.buffer
  pub queue : c'.queue ≡ c.queue
  pub peer : c'.client_socket_id ≡ c.client_socket_id

module _ {S : Type 0} (o : OutputSink S) (now : ℕ) (c : Connection S) (s : SrtStream) where
  leave_wrapping-Keeps : c.mode ≡ request s → Keeps c s (leave_wrapping o now c)
  unfolding leave_wrapping update_stream_start
  leave_wrapping-Keeps h = record {
    stream = update_stream_start now s;
    mode = ap (update_mode_start o now) h;
    first = refl;
    buffer = refl;
    queue = refl;
    peer = refl;
  }

  -- Whatever the clock says, a connection in request mode keeps its stream's segments and its queue.
  pub timestamp-Keeps : c.mode ≡ request s → Keeps c s (timestamp o now c).1
  unfolding timestamp
  timestamp-Keeps h =
      let ts = from_start c.start_time now in
      let left =
        if c.timestamp_is_wrapping && not (is_wrapping ts) then leave_wrapping o now c else c in
      let kept : Keeps c s left =
        if_both (λ d. Keeps c s d) (c.timestamp_is_wrapping && not (is_wrapping ts))
          (leave_wrapping o now c) c (leave_wrapping-Keeps h)
          (record {
            stream = s;
            mode = h;
            first = refl;
            buffer = refl;
            queue = refl;
            peer = refl;
          }) in
      if_both (λ d. Keeps c s d) (is_wrapping ts) (record left { timestamp_is_wrapping = true })
        left
        (record {
          stream = kept.stream;
          mode = kept.mode;
          first = kept.first;
          buffer = kept.buffer;
          queue = kept.queue;
          peer = kept.peer;
        })
        kept

-- What the receiving side reads is the same in `c` and `c'`.
pub record Idle {S : Type 0} (c c' : Connection S) : Type 0 where
  pub expected : c'.client_sequence_number ≡ c.client_sequence_number
  pub losses : c'.loss_list ≡ c.loss_list
  pub queue : c'.queue ≡ c.queue
  pub peer : c'.client_socket_id ≡ c.client_socket_id
  pub rtt : c'.rtt ≡ c.rtt
  pub latency : c'.latency ≡ c.latency
  pub metrics : c'.metrics ≡ c.metrics
  pub poll_state : c'.poll_state ≡ c.poll_state
  pub acks : c'.inflight_acks ≡ c.inflight_acks
  pub server : c'.server_sequence_number ≡ c.server_sequence_number

-- A connection in publish mode.
pub record Publishes {S : Type 0} (c : Connection S) : Type 0 where
  pub sink : S
  pub mode : c.mode ≡ publish sink

module _ {S : Type 0} (o : OutputSink S) (now : ℕ) (c : Connection S) where
  leave_wrapping-Publishes : Publishes c → Publishes (leave_wrapping o now c)
  unfolding leave_wrapping
  leave_wrapping-Publishes h = record {
    sink = o.update_start now h.sink;
    mode = ap (update_mode_start o now) h.mode;
  }

  leave_wrapping-Idle : Idle c (leave_wrapping o now c)
  unfolding leave_wrapping
  leave_wrapping-Idle = record {
    expected = refl;
    losses = refl;
    queue = refl;
    peer = refl;
    rtt = refl;
    latency = refl;
    metrics = refl;
    poll_state = refl;
    acks = refl;
    server = refl;
  }

  pub timestamp-Publishes : Publishes c → Publishes (timestamp o now c).1
  unfolding timestamp
  timestamp-Publishes h =
      let ts = from_start c.start_time now in
      let left =
        if c.timestamp_is_wrapping && not (is_wrapping ts) then leave_wrapping o now c else c in
      let kept : Publishes left =
        if_both (λ d. Publishes d) (c.timestamp_is_wrapping && not (is_wrapping ts))
          (leave_wrapping o now c) c (leave_wrapping-Publishes h) h in
      if_both (λ d. Publishes d) (is_wrapping ts) (record left { timestamp_is_wrapping = true })
        left (record { sink = kept.sink; mode = kept.mode }) kept

  pub timestamp-Idle : Idle c (timestamp o now c).1
  unfolding timestamp
  timestamp-Idle =
      let ts = from_start c.start_time now in
      let left =
        if c.timestamp_is_wrapping && not (is_wrapping ts) then leave_wrapping o now c else c in
      let kept : Idle c left =
        if_both (λ d. Idle c d) (c.timestamp_is_wrapping && not (is_wrapping ts))
          (leave_wrapping o now c) c leave_wrapping-Idle
          (record {
            expected = refl;
            losses = refl;
            queue = refl;
            peer = refl;
            rtt = refl;
            latency = refl;
            metrics = refl;
            poll_state = refl;
            acks = refl;
            server = refl;
          }) in
      if_both (λ d. Idle c d) (is_wrapping ts) (record left { timestamp_is_wrapping = true }) left
        (record {
          expected = kept.expected;
          losses = kept.losses;
          queue = kept.queue;
          peer = kept.peer;
          rtt = kept.rtt;
          latency = kept.latency;
          metrics = kept.metrics;
          poll_state = kept.poll_state;
          acks = kept.acks;
          server = kept.server;
        })
        kept
