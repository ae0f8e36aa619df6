-- ===== src/Conn/Modes/Polls.antt =====
-- The polls move the gauges as the mode of the connection, and keep the fit of the stored future.
use streamsync.Base.{Bool, ℕ, ◌≡◌, ◌∙◌, refl, sym, ap, List, [], ◌∷◌}
use streamsync.Conn.Dispatch.{Served}
use streamsync.Conn.Handshake.{Peer}
use streamsync.Conn.LossList.{BinarySearch}
use streamsync.Conn.Modes.{
  Kind, handshaking, publishing, requesting, Keeps-same, of_kind, Keeps, Keeps-refl,
}
use streamsync.Conn.Modes.Handlers.{on_mode}
use streamsync.Conn.Polls.{
  SinkFutures, Turn, Polled, waiting, finished, running, poll_write, outcome, fed, ended_close,
  poll_write_sink, poll_close, round, poll, proceed,
}
use streamsync.Conn.Rtt.{Float}
use streamsync.Conn.Shared.{Config, SessionManager, Shared}
use streamsync.Conn.State.{
  Connection, publish, PollState, read, write, write_sink, close_sink, closed,
}
use streamsync.Packet.{Packet, DataPacket}
use streamsync.Proto.Error.{OnOk, on_weaken, on_bind}
use streamsync.Sink
use streamsync.Sink.{Done, done, failed}
use streamsync.Sink.Heap.{BinaryHeap}
use streamsync.Sink.Queue.{Clock, Segment, Poll, ready, pending}
use streamsync.Conn.Modes.Dispatch.{Advances, Advances-trans, alone}
use streamsync.Conn.Modes.Reads.{poll_read-Advances}

-- The connection and the shared state after a round.
abbrev pub after : {R : Type 0} → Polled R → R
after (waiting r) = r
after (finished r) = r
after (running r) = r

publish-kind : {S : Type 0} (k : Kind) (s s' : S) → of_kind k (publish s') ≡ of_kind k (publish s)
publish-kind handshaking s s' = refl
publish-kind publishing s s' = refl
publish-kind requesting s s' = refl

-- A poll of a future over the sink leaves a sink.
with_sink :
    {S : Type 0} (c : Connection S) (sink sink' : S)
    → c.mode ≡ publish sink
    → Keeps c (record c { mode = publish sink' })
with_sink c sink sink' e =
    Keeps-same c _ refl (λ k. publish-kind k sink sink' ∙ ap (of_kind k) (sym e))

module _ {H K E : Type 0} (futures : SinkFutures (Sink.OutputSink H K) E) where
  fed-mode : (r : Poll (Done E)) (c d : Peer H K) → Keeps c d → Keeps c (fed futures r d).1
  fed-mode pending c d h = h
  fed-mode (ready _) c d h = record { kind = h.kind; stored = λ _. tt }

  ended_close-mode :
      (r : Poll (Done E)) (c d : Peer H K) → Keeps c d → Keeps c (ended_close futures r d).1
  ended_close-mode pending c d h = h
  ended_close-mode (ready (failed _)) c d h = h
  ended_close-mode (ready done) c d h = record { kind = h.kind; stored = λ _. tt }

  poll_write_sink-mode :
      (clock : Clock) (p : DataPacket) (c : Peer H K)
      → Keeps c (poll_write_sink futures clock p c).1
  poll_write_sink-mode clock p c =
      on_mode (λ (r : Poll Unit × Peer H K). Keeps c r.1) c.mode _ _ _ (λ _ _. Keeps-refl c)
        (λ sink e.
          let (r, sink') = futures.poll_feed clock p sink in
          fed-mode r c (record c { mode = publish sink' }) (with_sink c sink sink' e))
        (λ _ _. Keeps-refl c)

  poll_close-mode : (c : Peer H K) → Keeps c (poll_close futures c).1
  poll_close-mode c =
      on_mode (λ (r : Poll Unit × Peer H K). Keeps c r.1) c.mode _ _ _ (λ _ _. Keeps-refl c)
        (λ sink e.
          let (r, sink') = futures.poll_close sink in
          ended_close-mode r c (record c { mode = publish sink' }) (with_sink c sink sink' e))
        (λ _ _. Keeps-refl c)

poll_write-mode :
    {S : Type 0} (written : Poll Unit) (c : Connection S) → Keeps c (poll_write written c).1
poll_write-mode pending c = Keeps-refl c
poll_write-mode (ready _) c = record { kind = λ k. refl; stored = λ _. tt }

after-outcome :
    {R : Type 0} (P : R → Type 0) (a : Poll Unit) (r : R) → P r → P (after (outcome (a, r)))
after-outcome P pending r h = h
after-outcome P (ready _) r h = h

-- What holds of each arm of the `match` on the poll state.
on_state :
    {C : Type 0} (P : C → Type 0) (ps : PollState) (v x y : C) (u : Packet → C) (t : DataPacket → C)
    → P v
    → ((p : Packet) → P (u p))
    → ((p : DataPacket) → P (t p))
    → P x
    → P y
    → P (elim ps [ read ↦ v | write p ↦ u p | write_sink p ↦ t p | close_sink ↦ x | closed ↦ y ])
on_state P read v x y u t a b c d e = a
on_state P (write p) v x y u t a b c d e = b p
on_state P (write_sink p) v x y u t a b c d e = c p
on_state P close_sink v x y u t a b c d e = d
on_state P closed v x y u t a b c d e = e

module _ {H K M E : Type 0} (b : BinaryHeap Segment H) (manager : SessionManager M K)
    (config : Config) (peer_address : ℕ) (bs : BinarySearch) (f : Float)
    (valid_utf8 : List ℕ → Bool) (futures : SinkFutures (Sink.OutputSink H K) E) (depth : ℕ) where
  round-Advances :
      (t : Turn) (c : Peer H K) (w : Shared M)
      → OnOk
          (λ r. Advances c w (after r))
          (round b manager config peer_address bs f valid_utf8 futures depth t c w)
  unfolding round
  round-Advances t c w =
      let P : Polled (Served H K M) → Type 0 = λ r. Advances c w (after r) in
      on_state (OnOk P) c.poll_state _ _ _ _ _
        (on_bind (λ r. Advances c w r.1) P _ _
          (poll_read-Advances b manager config peer_address bs f valid_utf8 depth t.clock.now
            t.incoming t.ticked t.payloads t.ended c w)
          (λ r h. after-outcome (Advances c w) r.0 r.1 h))
        (λ _.
          after-outcome (Advances c w) (poll_write t.written c).0 _
            (alone c _ w (poll_write-mode t.written c)))
        (λ p.
          after-outcome (Advances c w) (poll_write_sink futures t.clock p c).0 _
            (alone c _ w (poll_write_sink-mode futures t.clock p c)))
        (after-outcome (Advances c w) (poll_close futures c).0 _
          (alone c _ w (poll_close-mode futures c)))
        (alone c c w (Keeps-refl c))

  pub poll-Advances :
      (ts : List Turn) (c : Peer H K) (w : Shared M)
      → OnOk
          (λ r. Advances c w (after r))
          (poll b manager config peer_address bs f valid_utf8 futures depth ts c w)
  unfolding poll
  poll-Advances [] c w = alone c c w (Keeps-refl c)
  poll-Advances (t ∷ ts) c w =
      let P : Polled (Served H K M) → Type 0 = λ r. Advances c w (after r) in
      on_bind P P _ _ (round-Advances t c w) (next (poll-Advances ts))
    where
      next :
          ((d : Peer H K) (w' : Shared M)
            → OnOk
                (λ q. Advances d w' (after q))
                (poll b manager config peer_address bs f valid_utf8 futures depth ts d w'))
          → (r : Polled (Served H K M)) → Advances c w (after r)
          → OnOk
              (λ q. Advances c w (after q))
              (proceed (poll b manager config peer_address bs f valid_utf8 futures depth ts) r)
      next later (waiting r) h = h
      next later (finished r) h = h
      next later (running (d, w')) h =
          on_weaken (λ q. Advances d w' (after q)) (λ q. Advances c w (after q)) _
            (λ q k. Advances-trans c d w w' (after q) h k) (later d w')
