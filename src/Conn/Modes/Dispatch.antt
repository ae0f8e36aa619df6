-- ===== src/Conn/Modes/Dispatch.antt =====
-- The handlers move the gauges as the mode of the connection, and keep the fit of the stored future.
use streamsync.Base.{Bool, ℕ, ◌^◌, ◌<◌, ◌≡◌, ap, arith, List}
use streamsync.Conn.Dispatch.{Served, handle_control, or_ignore}
use streamsync.Conn.Handshake.{Peer, reject, handle_handshake}
use streamsync.Conn.Handshake.Asked.{Outcome, ignored, rejected, unparsed, requested, published}
use streamsync.Conn.Handshake.Guards.{handle_handshake-Outcome}
use streamsync.Conn.Handshake.Kinds.{Moves, handle_handshake-Moves}
use streamsync.Conn.LossList.{BinarySearch}
use streamsync.Conn.Modes.{Kind, publishing, gauge, of_kind, Fits, Keeps, Keeps-refl, send-mode}
use streamsync.Conn.Modes.Data.{handle_nak-mode}
use streamsync.Conn.Modes.Handlers.{
  handle_keepalive-mode, handle_shutdown-mode, handle_ack-mode, handle_ackack-mode,
}
use streamsync.Conn.Output.{output_sink}
use streamsync.Conn.Rtt.{Float}
use streamsync.Conn.Shared.{Config, SessionManager, Shared}
use streamsync.Conn.State.{
  ConnectionMode, induction, PollState, read, write, write_sink, close_sink, closed,
}
use streamsync.Control.Casts.{
  downcast_keepalive, downcast_shutdown, downcast_ack_ack, downcast_ack, downcast_nak,
}
use streamsync.Handshake.{Handshake, downcast_handshake}
use streamsync.Packet.{Packet}
use streamsync.Types.ControlType.{
  ControlPacketType, handshake, keepalive, ack, nak, congestion_warning, shutdown, ack_ack,
  drop_req, peer_error, user_defined,
}
use streamsync.Proto.Error.{Result, ok, err, panicked, OnOk, on_weaken, on_bind, ◌>>=◌}
use streamsync.Sink.Heap.{BinaryHeap}
use streamsync.Sink.Queue.{Segment}

-- From `(c, w)` the gauges move as the kind of the mode, and a stored future still fits the mode.
pub record Advances {H K M : Type 0} (c : Peer H K) (w : Shared M) (r : Served H K M) : Type 0 where
  pub moves :
      (k : Kind) → gauge k w.metrics < 2 ^ 64 → Moves c.mode w.metrics r.0.mode r.1.metrics k
  pub stored : Fits c.poll_state c.mode → Fits r.0.poll_state r.0.mode

pub Advances-trans :
    {H K M : Type 0} (c c' : Peer H K) (w w' : Shared M) (r : Served H K M)
    → Advances c w (c', w')
    → Advances c' w' r
    → Advances c w r
Advances-trans c c' w w' r h h' = record {
  moves = λ k bound.
      let (near, first) = h.moves k bound in
      let (nearer, second) = h'.moves k near in (nearer, omega (arith, first, second));
  stored = λ v. h'.stored (h.stored v);
}

-- A step that keeps the mode and leaves the shared state.
pub alone : {H K M : Type 0} (c c' : Peer H K) (w : Shared M) → Keeps c c' → Advances c w (c', w)
alone c c' w h = record { moves = λ k bound. (bound, omega (arith, h.kind k)); stored = h.stored }

pub after-Advances :
    {H K M : Type 0} (c d : Peer H K) (w w' : Shared M) (m : Result (Served H K M))
    → Advances c w (d, w')
    → OnOk (Advances d w') m
    → OnOk (Advances c w) m
after-Advances c d w w' m h =
    on_weaken (Advances d w') (Advances c w) m (λ r k. Advances-trans c d w w' r h k)

-- A handler of a packet that does not parse is not called.
pub on_ignore :
    {R A : Type 0} (P : R → Type 0) (r : R) (m : Result A) (handler : A → Result R)
    → P r
    → ((a : A) → OnOk P (handler a))
    → OnOk P (or_ignore r m handler)
on_ignore P r (ok a) handler h k = k a
on_ignore P r (err _) handler h k = h
on_ignore P r panicked handler h k = tt

module _ {H K M : Type 0} (c : Peer H K) (w : Shared M) where
  pub on_shared :
      (m : Result (Peer H K)) → OnOk (Keeps c) m → OnOk (Advances c w) (m >>= λ d. ok (d, w))
  on_shared m h = on_bind (Keeps c) (Advances c w) m _ h (λ d k. alone c d w k)

-- In induction no future is stored that does not fit every mode.
induction-Fits :
    {S : Type 0} (ps : PollState) (cookie : ℕ) (m m' : ConnectionMode S)
    → m ≡ induction cookie
    → Fits ps m
    → Fits ps m'
induction-Fits read cookie m m' e v = tt
induction-Fits (write _) cookie m m' e v = tt
induction-Fits (write_sink _) cookie m m' e v = absurd (omega (arith, v, ap (of_kind publishing) e))
induction-Fits close_sink cookie m m' e v = absurd (omega (arith, v, ap (of_kind publishing) e))
induction-Fits closed cookie m m' e v = tt

module _ {H K M : Type 0} (b : BinaryHeap Segment H) (manager : SessionManager M K)
    (config : Config) (peer_address : ℕ) where
  Outcome-Fits :
      (now : ℕ) (p : Handshake) (c : Peer H K) (w : Shared M) (r : Served H K M)
      → Outcome b manager config peer_address now p c w r
      → Fits c.poll_state c.mode
      → Fits r.0.poll_state r.0.mode
  unfolding reject
  Outcome-Fits now p c w _ ignored v = v
  Outcome-Fits now p c w _ (unparsed l text fault g a s e) v = v
  Outcome-Fits now p c w _ (rejected reason l m g e) v =
      (send-mode (output_sink b) now _ _).stored v
  Outcome-Fits now p c w _ (requested answer l id name m g a s h e) v =
      (send-mode (output_sink b) now _ _).stored
        (induction-Fits c.poll_state g.cookie c.mode _ g.mode v)
  Outcome-Fits now p c w _ (published answer l id name k m g a s h e) v =
      (send-mode (output_sink b) now _ _).stored
        (induction-Fits c.poll_state g.cookie c.mode _ g.mode v)

  handle_handshake-Advances :
      (now : ℕ) (p : Handshake) (c : Peer H K) (w : Shared M)
      → Advances c w (handle_handshake b manager config peer_address now p c w)
  handle_handshake-Advances now p c w = record {
    moves = λ k bound. handle_handshake-Moves b manager config peer_address now p c w k bound;
    stored =
        Outcome-Fits now p c w _ (handle_handshake-Outcome b manager config peer_address now p c w);
  }

  module _ (bs : BinarySearch) (f : Float) (valid_utf8 : List ℕ → Bool) where
    pub handle_control-Advances :
        (t : ControlPacketType) (now : ℕ) (p : Packet) (c : Peer H K) (w : Shared M)
        → OnOk
            (Advances c w)
            (handle_control b manager config peer_address bs f valid_utf8 t now p c w)
    unfolding handle_control
    handle_control-Advances handshake now p c w =
        on_ignore (Advances c w) (c, w) (downcast_handshake valid_utf8 p) _
          (alone c c w (Keeps-refl c)) (λ q. handle_handshake-Advances now q c w)
    handle_control-Advances keepalive now p c w = on_shared c w _ (
        on_ignore (Keeps c) c (downcast_keepalive p) _ (Keeps-refl c)
          (λ q. handle_keepalive-mode (output_sink b) now q c))
    handle_control-Advances ack now p c w = on_shared c w _ (
        on_ignore (Keeps c) c (downcast_ack p) _ (Keeps-refl c)
          (λ q. handle_ack-mode (output_sink b) now q c))
    handle_control-Advances nak now p c w = on_shared c w _ (
        on_ignore (Keeps c) c (downcast_nak p) _ (Keeps-refl c)
          (λ q. handle_nak-mode (output_sink b) now q c))
    handle_control-Advances congestion_warning now p c w = alone c c w (Keeps-refl c)
    handle_control-Advances shutdown now p c w = on_shared c w _ (
        on_ignore (Keeps c) c (downcast_shutdown p) _ (Keeps-refl c)
          (λ q. handle_shutdown-mode (output_sink b) now q c))
    handle_control-Advances ack_ack now p c w = on_shared c w _ (
        on_ignore (Keeps c) c (downcast_ack_ack p) _ (Keeps-refl c)
          (λ q. handle_ackack-mode bs f now q c))
    handle_control-Advances drop_req now p c w = alone c c w (Keeps-refl c)
    handle_control-Advances peer_error now p c w = alone c c w (Keeps-refl c)
    handle_control-Advances user_defined now p c w = alone c c w (Keeps-refl c)
