-- ===== src/Conn/Modes/Reads.antt =====
-- `poll_read` moves the gauges as the mode of the connection, and keeps the fit of the stored future.
use streamsync.Base.{if◌then◌else◌, Option, none, some, Bool, ℕ, refl, List, if_both}
use streamsync.Conn.Dispatch.{
  Incoming, received, disconnected, nothing, Served, handle_packet, read_stream, poll_read,
  count_control_recv,
}
use streamsync.Conn.Handlers.{tick}
use streamsync.Conn.Handshake.{Peer}
use streamsync.Conn.LossList.{BinarySearch}
use streamsync.Conn.Modes.{Keeps, Keeps-trans, Keeps-refl, close-mode}
use streamsync.Conn.Modes.Data.{handle_data-mode, send_stream-mode}
use streamsync.Conn.Modes.Handlers.{on_mode, tick-mode}
use streamsync.Conn.Output.{output_sink}
use streamsync.Conn.Queue
use streamsync.Conn.Rtt.{Float}
use streamsync.Conn.Shared.{Config, SessionManager, Shared}
use streamsync.Conn.Transmit.{send_stream}
use streamsync.Packet.{Packet, packet_type, packet_size, control_type, downcast_data}
use streamsync.Types.ControlType.{data_packet, control_packet, PacketType}
use streamsync.Proto.Error.{Result, OnOk, any_result, on_bind}
use streamsync.Sink.Heap.{BinaryHeap}
use streamsync.Sink.Queue.{Segment, Poll}
use streamsync.Conn.Modes.Dispatch.{
  Advances, after-Advances, alone, handle_control-Advances, on_shared, on_ignore,
}

-- What holds of each arm of a `match` on an option.
on_option :
    {A C : Type 0} (P : C → Type 0) (a : Option A) (x : A → C) (y : C)
    → ((v : A) → P (x v))
    → P y
    → P (elim a [ some v ↦ x v | none ↦ y ])
on_option P (some v) x y p q = p v
on_option P none x y p q = q

on_incoming :
    {C : Type 0} (P : C → Type 0) (a : Incoming) (x : Packet → C) (y z : C)
    → ((p : Packet) → P (x p))
    → P y
    → P z
    → P (elim a [ received p ↦ x p | disconnected ↦ y | nothing ↦ z ])
on_incoming P (received v) x y z p q r = p v
on_incoming P disconnected x y z p q r = q
on_incoming P nothing x y z p q r = r

module _ {H K M : Type 0} (b : BinaryHeap Segment H) (manager : SessionManager M K)
    (config : Config) (peer_address : ℕ) (bs : BinarySearch) (f : Float)
    (valid_utf8 : List ℕ → Bool) (depth : ℕ) where
  handle_packet-Advances :
      (now : ℕ) (p : Packet) (c : Peer H K) (w : Shared M)
      → OnOk
          (Advances c w)
          (handle_packet b manager config peer_address bs f valid_utf8 depth now p c w)
  unfolding handle_packet
  handle_packet-Advances now p c w =
      let seen = record c { last_time = now } in
      let first : Advances c w (seen, w) =
        alone c seen w (record { kind = λ k. refl; stored = λ v. v }) in
      on_type (packet_type p.header) _ _
        (after-Advances c seen w w _ first (
          on_shared seen w _ (
            on_ignore (Keeps seen) seen (downcast_data p) _ (Keeps-refl seen)
              (λ q. handle_data-mode (output_sink b) now bs depth q seen))))
        (on_bind (λ _. Unit {0}) (Advances c w) (control_type p.header) _ (any_result _)
          (λ t _.
            let counted = record seen {
              metrics = count_control_recv (packet_size p) seen.metrics;
            } in
            let second : Advances c w (counted, w) =
              alone c counted w (record { kind = λ k. refl; stored = λ v. v }) in
            after-Advances c counted w w _ second (
              handle_control-Advances b manager config peer_address bs f valid_utf8 t now p counted
                w)))
    where
      on_type :
          (t : PacketType) (x y : Result (Served H K M))
          → OnOk (Advances c w) x
          → OnOk (Advances c w) y
          → OnOk (Advances c w) (elim t [ data_packet ↦ x | control_packet ↦ y ])
      on_type data_packet x y h k = h
      on_type control_packet x y h k = k

  read_stream-mode :
      (now : ℕ) (payloads : List (ℕ × List ℕ)) (ended : Bool) (c : Peer H K)
      → OnOk
          (λ r. Keeps c r.1)
          (read_stream b manager config peer_address bs f valid_utf8 now payloads ended c)
  unfolding read_stream
  read_stream-mode now payloads ended c =
      let P : Poll Unit × Peer H K → Type 0 = λ r. Keeps c r.1 in
      on_mode (OnOk P) c.mode _ _ _ (λ _ _. Keeps-refl c) (λ _ _. Keeps-refl c)
        (λ stream e.
          on_bind (Keeps c) P (send_stream payloads stream c) _
            (send_stream-mode payloads stream c e)
            (λ d h. if_both P ended _ _ (Keeps-trans h (close-mode (output_sink b) now d)) h))

  pub poll_read-Advances :
      (now : ℕ) (incoming : Incoming) (ticked : Bool) (payloads : List (ℕ × List ℕ)) (ended : Bool)
      (c : Peer H K) (w : Shared M)
      → OnOk
          (λ r. Advances c w r.1)
          (poll_read b manager config peer_address bs f valid_utf8 depth now incoming ticked
            payloads ended c w)
  unfolding poll_read
  poll_read-Advances now incoming ticked payloads ended c w =
      let P : Poll Unit × Served H K M → Type 0 = λ r. Advances c w r.1 in
      let ticking = if ticked then tick (output_sink b) now c else c in
      let kept : Keeps c ticking =
        if_both (Keeps c) ticked _ _ (tick-mode (output_sink b) now c) (Keeps-refl c) in
      on_option (OnOk P) (Queue.pop c.queue) _ _
        (λ _. record { moves = λ k bound. (bound, refl); stored = λ _. tt })
        (on_incoming (OnOk P) incoming _ _ _
          (λ p. on_bind (Advances c w) P _ _ (handle_packet-Advances now p c w) (λ r h. h))
          (alone c _ w (close-mode (output_sink b) now c))
          (on_bind (λ r. Keeps ticking r.1) P _ _ (read_stream-mode now payloads ended ticking)
            (λ r h. alone c r.1 w (Keeps-trans kept h))))
