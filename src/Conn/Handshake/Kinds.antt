-- ===== src/Conn/Handshake/Kinds.antt =====
-- The modes of the connections and the gauges that count them.
use streamsync.Base.{ℕ, ◌+◌, ◌%◌, ◌^◌, ◌<◌, ◌≡◌, refl, ap, arith}
use streamsync.Conn.Modes.{Kind, handshaking, publishing, requesting, gauge, of_kind, send-kind}
use streamsync.Conn.Handshake.{Peer, handle_handshake, reject}
use streamsync.Conn.Handshake.Asked.{Outcome, ignored, rejected, unparsed, requested, published}
use streamsync.Conn.Handshake.Guards.{handle_handshake-Outcome}
use streamsync.Conn.Output.{output_sink}
use streamsync.Conn.Shared.{Config, SessionManager, Shared, ServerMetrics, to_request, to_publish}
use streamsync.Conn.State.{ConnectionMode, induction, publish, request}
use streamsync.Handshake.{Handshake, upcast_handshake}
use streamsync.Sink
use streamsync.Metrics.{fetch_add, fetch_sub}
use streamsync.Stream.{SrtStream, new_stream}
use streamsync.Sink.Heap.{BinaryHeap}
use streamsync.Sink.Queue.{Segment}

-- From `c` to `c'` the gauge of a kind moves as the kinds of the modes do, on words of 64 bits.
abbrev pub Moves :
    {S : Type 0}
    → ConnectionMode S
    → ServerMetrics
    → ConnectionMode S
    → ServerMetrics
    → Kind
    → Type 0
Moves m g m' g' k =
    (gauge k g' < 2 ^ 64)
    × ((gauge k g' + of_kind k m) % 2 ^ 64 ≡ (gauge k g + of_kind k m') % 2 ^ 64)

request-Moves :
    (S : Type 0) (g : ServerMetrics) (k : Kind) (cookie : ℕ) (stream : SrtStream)
    → gauge k g < 2 ^ 64
    → Moves {S = S} (induction cookie) g (request stream) (to_request g) k
unfolding fetch_add fetch_sub
request-Moves S g handshaking cookie stream h = (omega arith, omega arith)
request-Moves S g publishing cookie stream h = (h, refl)
request-Moves S g requesting cookie stream h = (omega arith, omega arith)

publish-Moves :
    {S : Type 0} (g : ServerMetrics) (k : Kind) (cookie : ℕ) (sink : S)
    → gauge k g < 2 ^ 64
    → Moves {S = S} (induction cookie) g (publish sink) (to_publish g) k
unfolding fetch_add fetch_sub
publish-Moves g handshaking cookie sink h = (omega arith, omega arith)
publish-Moves g publishing cookie sink h = (omega arith, omega arith)
publish-Moves g requesting cookie sink h = (h, refl)

module _ {H K M : Type 0} (b : BinaryHeap Segment H) (manager : SessionManager M K)
    (config : Config) (peer_address now : ℕ) where
  Outcome-Moves :
      (p : Handshake) (c : Peer H K) (w : Shared M) (r : Peer H K × Shared M) (k : Kind)
      → gauge k w.metrics < 2 ^ 64
      → Outcome b manager config peer_address now p c w r
      → Moves c.mode w.metrics r.0.mode r.1.metrics k
  unfolding reject
  Outcome-Moves p c w _ k h ignored = (h, refl)
  Outcome-Moves p c w _ k h (unparsed l text fault g v s e) = (h, refl)
  Outcome-Moves p c w _ k h (rejected reason l m g e) =
      (h, omega (arith, send-kind (output_sink b) now k _ (record c { latency = l })))
  Outcome-Moves p c w _ k h (requested answer l id name m g v s a e) =
      let sent = send-kind (output_sink b) now k (upcast_handshake answer) (record c {
        latency = l;
        mode = request (new_stream config.buffer c.client_sequence_number c.start_time);
      }) in
      let old : of_kind k c.mode ≡ of_kind {S = Sink.OutputSink H K} k (induction g.cookie) =
        ap (of_kind k) g.mode in
      let (bound, moved) =
        request-Moves (Sink.OutputSink H K) w.metrics k g.cookie
          (new_stream config.buffer c.client_sequence_number c.start_time) h in
      (bound, omega (arith, sent, old, moved))
  Outcome-Moves p c w _ k h (published answer l id name z m g v s a e) =
      let sink = Sink.new b z c.start_time l config.buffer in
      let sent =
        send-kind (output_sink b) now k (upcast_handshake answer)
          (record c { latency = l; mode = publish sink }) in
      let old : of_kind k c.mode ≡ of_kind {S = Sink.OutputSink H K} k (induction g.cookie) =
        ap (of_kind k) g.mode in
      let (bound, moved) = publish-Moves w.metrics k g.cookie sink h in
      (bound, omega (arith, sent, old, moved))

  -- A handshake moves the gauges as the mode of its connection.
  pub handle_handshake-Moves :
      (p : Handshake) (c : Peer H K) (w : Shared M) (k : Kind)
      → gauge k w.metrics < 2 ^ 64
      → Moves c.mode w.metrics
          (handle_handshake b manager config peer_address now p c w).0.mode
          (handle_handshake b manager config peer_address now p c w).1.metrics
          k
  handle_handshake-Moves p c w k h =
      Outcome-Moves p c w _ k h (handle_handshake-Outcome b manager config peer_address now p c w)
