-- ===== src/Conn/Handshake/Authorized.antt =====
-- The handshake with the session manager of session/buffer.rs: what a peer must hold.
use streamsync.Base.{ℕ, ◌≡◌, ap, arith, List, []}
use streamsync.Conn.Handshake.{Peer, handle_handshake, reject}
use streamsync.Conn.Handshake.Asked.{
  Passes, Carries, asked_resource, asked_session, Outcome, ignored, rejected, unparsed, requested,
  published,
}
use streamsync.Conn.Handshake.Guards.{handle_handshake-Outcome}
use streamsync.Conn.Modes.{handshaking, of_kind, send-kind}
use streamsync.Conn.Output.{output_sink}
use streamsync.Conn.Shared.{Config, Shared}
use streamsync.Conn.State.{induction}
use streamsync.Extensions.StreamId.{StandardStreamId}
use streamsync.Handshake.{Handshake}
use streamsync.Session.Manager.{Inner, buffer_session_manager, HoldsKey, attach-authorize}
use streamsync.Sink.Heap.{BinaryHeap}
use streamsync.Sink.Queue.{Segment}

-- The channel of a `BufferSink`.
abbrev Channel : Type 0
Channel = List (List ℕ)

module _ {H : Type 0} (b : BinaryHeap Segment H) (config : Config) (peer_address now : ℕ) where
  Outcome-HoldsKey :
      (p : Handshake) (c : Peer H Channel) (w : Shared Inner) (cookie : ℕ)
      (r : Peer H Channel × Shared Inner)
      → c.mode ≡ induction cookie
      → of_kind handshaking r.0.mode ≡ 0
      → Outcome b (buffer_session_manager now) config peer_address now p c w r
      → Passes p c
        × ((id : StandardStreamId) × Carries p id
            × HoldsKey now (asked_resource id) (asked_session id) w.session_manager.registry)
  unfolding reject
  Outcome-HoldsKey p c w cookie _ e h ignored =
      absurd (omega (arith, h, ap (of_kind handshaking) e))
  Outcome-HoldsKey p c w cookie _ e h (unparsed l text fault g v s a) =
      absurd (omega (arith, h, ap (of_kind handshaking) e))
  Outcome-HoldsKey p c w cookie _ e h (rejected reason l m g v) = absurd (
      omega (
        arith,
        h,
        ap (of_kind handshaking) e,
        send-kind (output_sink b) now handshaking _ (record c { latency = l }),
      ))
  Outcome-HoldsKey p c w cookie _ e h (requested answer l id name m g v s a f) = (
    g,
    (
      id,
      v,
      attach-authorize now (asked_resource id) (asked_session id) tt tt w.session_manager m f,
    ),
  )
  Outcome-HoldsKey p c w cookie _ e h (published answer l id name k m g v s a f) = (
    g,
    (id, v, attach-authorize now (asked_resource id) (asked_session id) [] k w.session_manager m f),
  )

  -- With the session manager of buffer.rs: a connection in induction that has left it after a
  -- handshake was sent the version, the encryption field and the cookie that it asked for, with an
  -- HSREQ extension whose flags are as they must be and a stream id that parses, and the registry held
  -- a key, which had not expired, of the very resource and session that this stream id names.
  pub handle_handshake-HoldsKey :
      (p : Handshake) (c : Peer H Channel) (w : Shared Inner) (cookie : ℕ)
      → c.mode ≡ induction cookie
      → of_kind handshaking
          (handle_handshake b (buffer_session_manager now) config peer_address now p c w).0.mode
        ≡ 0
      → Passes p c
        × ((id : StandardStreamId) × Carries p id
            × HoldsKey now (asked_resource id) (asked_session id) w.session_manager.registry)
  handle_handshake-HoldsKey p c w cookie e h =
      Outcome-HoldsKey p c w cookie _ e h
        (handle_handshake-Outcome b (buffer_session_manager now) config peer_address now p c w)
