-- ===== src/Conn/Polls.antt =====
-- The polls of a connection's stored futures, and the loop of `Future::poll`,
-- stsync-proxy/src/srt/conn.rs.
use streamsync.Base.{ℕ, Bool, List, [], ◌∷◌}
use streamsync.Conn.Dispatch.{Incoming, Served, poll_read}
use streamsync.Conn.Handshake.{Peer}
use streamsync.Conn.LossList.{BinarySearch}
use streamsync.Conn.Rtt.{Float}
use streamsync.Conn.Shared.{Config, SessionManager, Shared}
use streamsync.Conn.State.{
  Connection, induction, publish, request, read, write, write_sink, close_sink, closed,
}
use streamsync.Packet.{DataPacket}
use streamsync.Proto.Error.{Result, ok, ◌>>=◌}
use streamsync.Sink
use streamsync.Sink.{Done, done, failed}
use streamsync.Sink.Heap.{BinaryHeap}
use streamsync.Sink.Queue.{Segment, Poll, ready, pending, Clock}

-- The futures `Feed` and `Close` of the futures crate, over a sink whose state is an `S`.
pub record SinkFutures (S E : Type 0) : Type 0 where
  pub poll_feed : Clock → DataPacket → S → Poll (Done E) × S
  pub poll_close : S → Poll (Done E) × S

-- What the channel, the interval, the stream, the socket and the clock give in a round of the loop.
pub record Turn : Type 0 where
  pub clock : Clock
  pub incoming : Incoming
  pub ticked : Bool
  pub payloads : List (ℕ × List ℕ)
  pub ended : Bool
  -- The poll of `send_to`. Its result is dropped.
  pub written : Poll Unit

-- The answer of `poll`: `Poll::Pending`, or `Poll::Ready(Ok(()))`. `running` is a loop that goes on.
pub data Polled (R : Type 0) : Type 0 where
  waiting : R → Polled R
  finished : R → Polled R
  running : R → Polled R

module _ {S : Type 0} where
  abbrev pub init_read : Connection S → Connection S
  init_read c = record c { poll_state = read }

  abbrev pub poll_write : Poll Unit → Connection S → Poll Unit × Connection S
  poll_write pending c = (pending, c)
  poll_write (ready _) c = (ready tt, init_read c)

module _ {H K E : Type 0} (futures : SinkFutures (Sink.OutputSink H K) E) where
  abbrev pub fed : Poll (Done E) → Peer H K → Poll Unit × Peer H K
  fed pending c = (pending, c)
  fed (ready _) c = (ready tt, init_read c)

  -- The future borrows the sink of the mode. One is stored in publish mode alone (Conn.Modes), so that
  -- the other modes do not occur.
  abbrev pub poll_write_sink : Clock → DataPacket → Peer H K → Poll Unit × Peer H K
  poll_write_sink clock p c = elim c.mode [
    | publish sink ↦
        let (r, sink') = futures.poll_feed clock p sink in fed r (record c { mode = publish sink' })
    | induction _ ↦ (pending, c)
    | request _ ↦ (pending, c)
  ]

  abbrev pub ended_close : Poll (Done E) → Peer H K → Poll Unit × Peer H K
  ended_close pending c = (pending, c)
  ended_close (ready (failed _)) c = (ready tt, c)
  ended_close (ready done) c = (ready tt, record c { poll_state = closed })

  abbrev pub poll_close : Peer H K → Poll Unit × Peer H K
  poll_close c = elim c.mode [
    | publish sink ↦
        let (r, sink') = futures.poll_close sink in
        ended_close r (record c { mode = publish sink' })
    | induction _ ↦ (pending, c)
    | request _ ↦ (pending, c)
  ]

-- The arms of the loop: it goes on after `Poll::Ready`.
abbrev pub outcome : {R : Type 0} → Poll Unit × R → Polled R
outcome (pending, r) = waiting r
outcome (ready _, r) = running r

abbrev pub proceed :
    {A B : Type 0} → (A → B → Result (Polled (A × B))) → Polled (A × B) → Result (Polled (A × B))
proceed rest (waiting r) = ok (waiting r)
proceed rest (finished r) = ok (finished r)
proceed rest (running (c, w)) = rest c w

module _ {H K M E : Type 0} (b : BinaryHeap Segment H) (manager : SessionManager M K)
    (config : Config) (peer_address : ℕ) (bs : BinarySearch) (f : Float)
    (valid_utf8 : List ℕ → Bool) (futures : SinkFutures (Sink.OutputSink H K) E) (depth : ℕ) where
  -- A round of the loop.
  unfoldable pub round : Turn → Peer H K → Shared M → Result (Polled (Served H K M))
  round t c w = elim c.poll_state [
    | read ↦
        poll_read b manager config peer_address bs f valid_utf8 depth t.clock.now t.incoming
          t.ticked t.payloads t.ended c w
        >>= λ r. ok (outcome r)
    | write _ ↦ let (r, c') = poll_write t.written c in ok (outcome (r, (c', w)))
    | write_sink p ↦ let (r, c') = poll_write_sink futures t.clock p c in ok (outcome (r, (c', w)))
    | close_sink ↦ let (r, c') = poll_close futures c in ok (outcome (r, (c', w)))
    | closed ↦ ok (finished (c, w))
  ]

  -- `Future::poll`, for what the rounds of its loop find; with a round for each.
  unfoldable pub poll : List Turn → Peer H K → Shared M → Result (Polled (Served H K M))
  unfolding round
  poll [] c w = ok (running (c, w))
  poll (t ∷ ts) c w = let rest = poll ts in round t c w >>= proceed rest
