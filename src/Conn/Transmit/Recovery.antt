-- ===== src/Conn/Transmit/Recovery.antt =====
-- A NAK for a packet that the peer did not get sends that packet again.
use streamsync.Base.{
  ℕ, zero, suc, ◌+◌, ◌^◌, ◌≤◌, ◌<◌, ◌≡◌, refl, sym, ◌∙◌, ap, ap₂, arith, true, false, some, List,
  [], ◌∷◌, ◌++◌, length, get_elem?,
}
use streamsync.Buffer
use streamsync.Buffer.{found}
use streamsync.Buffer.Window.{size-new}
use native.Mathlib.Nat.{zero-add}
use streamsync.Control.Casts.{build_nak}
use streamsync.Control.Numbers.{single}
use streamsync.Conn.Queue
use streamsync.Conn.Queue.{TransmissionQueue}
use streamsync.Conn.State.Clock.{timestamp-Keeps}
use streamsync.Control.Numbers.Laws.{items_single}
use streamsync.Conn.State.{OutputSink, Connection, request, timestamp}
use streamsync.Conn.Transmit.{data_packet_of, send_stream, answer_nak, answer_naks, handle_nak}
use streamsync.Proto.Error.{ok}
use streamsync.Sequence.{add_sequence}
use streamsync.Serial.Laws.{add-eq-mod}
use streamsync.Stream.{new_stream, Sent, SrtStream, get_sent}
use streamsync.Stream.Resend.{
  new_stream-Tracks, get_sent_lem, get_sent_same, length-expected, expected,
}
use streamsync.Conn.Transmit.Sending.{packets, Requests, send_stream-Requests, add_sequence-zero}

get_elem?-packets :
    (initial destination k i : ℕ) (xs : List Sent) (x : Sent)
    → get_elem? xs i ≡ some x
    → get_elem? (packets initial destination k xs) i
      ≡ some (data_packet_of false (add_sequence initial (k + i)) destination x)
unfolding packets
get_elem?-packets initial destination k i [] x h = cc
get_elem?-packets initial destination k zero (y ∷ xs) x h =
    let first : k ≡ k + 0 = omega arith in
    let same : y ≡ x = cc h in
    ap₂ (λ (j : ℕ) (z : Sent). some (data_packet_of false (add_sequence initial j) destination z))
      first same
get_elem?-packets initial destination k (suc i) (y ∷ xs) x h =
    let shift : k + 1 + i ≡ k + suc i = omega arith in
    rw (← shift) (get_elem?-packets initial destination (k + 1) i xs x h)

module _ {S : Type 0} (o : OutputSink S) where
  -- A NAK of one number in the window is answered with that segment, ahead of the queue.
  handle_nak-found :
      (now seq : ℕ) (c : Connection S) (s : SrtStream) (x : Sent)
      → c.mode ≡ request s
      → seq < 2 ^ 32
      → get_sent s seq ≡ found x
      → (c' : Connection S) × (handle_nak o now (build_nak (single seq)) c ≡ ok c')
        × (c'.queue ≡ record c.queue {
          prio = c.queue.prio ++ (data_packet_of true seq c.client_socket_id x ∷ []);
        })
  unfolding handle_nak answer_naks answer_nak build_nak
  handle_nak-found now seq c s x mode small h =
      let kept = timestamp-Keeps o now c s mode in
      let c1 = (timestamp o now c).1 in
      let looked : get_sent kept.stream seq ≡ found x =
        get_sent_same s kept.stream seq kept.first kept.buffer ∙ h in
      (
        record c1 {
          queue = Queue.push_prio (data_packet_of true seq c1.client_socket_id x) c1.queue;
        },
        rw (handle_nak, kept.mode, items_single seq small, answer_naks, answer_nak, looked)
            (ap
              (λ m. ok (record c1 {
                mode = m;
                queue = Queue.push_prio (data_packet_of true seq c1.client_socket_id x) c1.queue;
              }))
              kept.mode),
        ap₂ (λ (q : TransmissionQueue) (d : ℕ). Queue.push_prio (data_packet_of true seq d x) q)
            kept.queue kept.peer,
      )

  -- A connection enters request mode with a new stream of `n` slots, `n` not 0, and both at the same
  -- 31-bit sequence number, and sends payloads. Their packets are queued in order, the `i`th with
  -- the sequence number that is `i` steps on; and when the peer then reports the `i`th as lost, one
  -- of the last `n` and within half the sequence range from the first, then the packet is
  -- queued once more, ahead of the others: with the same sequence number, message number, timestamp,
  -- destination and payload, and marked as retransmitted.
  pub handle_nak-send_stream :
      (now n start initial i : ℕ) (payloads : List (ℕ × List ℕ)) (c : Connection S) (x : Sent)
      → 0 < n
      → initial < 2 ^ 31
      → c.mode ≡ request (new_stream n initial start)
      → c.server_sequence_number ≡ initial
      → get_elem? (expected start 0 payloads) i ≡ some x
      → length payloads ≤ i + n
      → i < 2 ^ 30
      → let seq = add_sequence initial i in
        let sent = packets initial c.client_socket_id 0 (expected start 0 payloads) in
        (c1 : Connection S) × (c2 : Connection S) × (send_stream payloads
            (new_stream n initial start)
            c
          ≡ ok c1)
        × (c1.queue ≡ record c.queue { queue = c.queue.queue ++ sent })
        × (get_elem? sent i ≡ some (data_packet_of false seq c.client_socket_id x))
        × (handle_nak o now (build_nak (single seq)) c1 ≡ ok c2)
        × (c2.queue ≡ record c1.queue {
          prio = c1.queue.prio ++ (data_packet_of true seq c.client_socket_id x ∷ []);
        })
  unfolding new_stream
  handle_nak-send_stream now n start initial i payloads c x pos small mode next h window near =
      let begin : Requests initial c (new_stream n initial start) [] = record {
        mode = mode;
        tracks = new_stream-Tracks n initial start pos;
        start = refl;
        small = small;
        next = next ∙ sym (add_sequence-zero initial small);
      } in
      let (s1, c1, e, w, g) =
        send_stream-Requests initial payloads c (new_stream n initial start) [] begin in
      let slots : Buffer.size s1.buffer ≡ n = g.size ∙ size-new Sent n in
      let found_again : get_sent s1 (add_sequence initial i) ≡ found x =
        ap (λ (k : ℕ). get_sent s1 (add_sequence k i)) (sym w.start)
        ∙ get_sent_lem s1 (expected start 0 payloads) i x w.tracks (rw w.start small) near h
            (omega (arith, slots, window, length-expected start 0 payloads)) in
      let word : add_sequence initial i < 2 ^ 32 =
        omega (arith, add-eq-mod 31 initial i (omega arith)) in
      let (c2, f, queued) =
        handle_nak-found now (add_sequence initial i) c1 s1 x w.mode word found_again in
      let nth : get_elem? (packets initial c.client_socket_id 0 (expected start 0 payloads)) i
          ≡ some (data_packet_of false (add_sequence initial i) c.client_socket_id x) =
        get_elem?-packets initial c.client_socket_id 0 i (expected start 0 payloads) x h
        ∙ ap (λ (j : ℕ). some (data_packet_of false (add_sequence initial j) c.client_socket_id x))
            (zero-add i) in
      (
        c1,
        c2,
        e,
        g.sent,
        nth,
        f,
        queued
            ∙ ap
                (λ (d : ℕ). record c1.queue {
                  prio = c1.queue.prio ++ (data_packet_of true (add_sequence initial i) d x ∷ []);
                })
                g.peer,
      )
