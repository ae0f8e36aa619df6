-- ===== src/Conn/Transmit/Sending.antt =====
-- What the sending loop of a connection in request mode queues.
use streamsync.Base.{
  ℕ, ◌+◌, ◌%◌, ◌^◌, ◌<◌, ◌≡◌, refl, sym, ◌∙◌, ap, ap₂, arith, false, List, [], ◌∷◌, ◌++◌, length,
  length-append,
}
use mathlib.Core.List.{append-nil, append_assoc}
use streamsync.Buffer
use streamsync.Buffer.{found}
use streamsync.Conn.Queue.{TransmissionQueue}
use streamsync.Conn.State.{Connection, request}
use streamsync.Conn.Transmit.{data_packet_of, send_next, send_stream}
use streamsync.Packet.{Packet}
use streamsync.Proto.Error.{ok}
use streamsync.Sequence.{add_sequence}
use streamsync.Serial.Laws.{add-eq-mod}
use streamsync.Stream.{Sent, SrtStream}
use streamsync.Timestamp.{from_start}
use streamsync.Stream.Resend.{Tracks, next_item-Tracks, expected}

-- The packets for the segments `xs`, when the next sequence number is that of the `k`th.
unfoldable pub packets : ℕ → ℕ → ℕ → List Sent → List Packet
packets initial destination k [] = []
packets initial destination k (x ∷ xs) =
    data_packet_of false (add_sequence initial k) destination x
    ∷ packets initial destination (k + 1) xs

-- A connection in request mode that has sent `xs` from the sequence number `initial` on.
pub record Requests {S : Type 0} (initial : ℕ) (c : Connection S) (s : SrtStream) (xs : List Sent)
    : Type 0 where
  pub mode : c.mode ≡ request s
  pub tracks : Tracks s xs
  pub start : s.initial_sequence_number ≡ initial
  pub small : initial < 2 ^ 31
  pub next : c.server_sequence_number ≡ add_sequence initial (length xs)

add_sequence_suc :
    (initial k : ℕ) → add_sequence (add_sequence initial k) 1 ≡ add_sequence initial (k + 1)
add_sequence_suc initial k = omega (
  arith,
  add-eq-mod 31 (add_sequence initial k) 1 (omega arith),
  add-eq-mod 31 initial k (omega arith),
  add-eq-mod 31 initial (k + 1) (omega arith),
)

-- The connection `c'` is `c` with the stream `s'` and more packets in its queue.
pub record Grew {S : Type 0} (c c' : Connection S) (s s' : SrtStream) (ps : List Packet)
    : Type 0 where
  pub sent : c'.queue ≡ record c.queue { queue = c.queue.queue ++ ps }
  pub peer : c'.client_socket_id ≡ c.client_socket_id
  pub start : s'.start_time ≡ s.start_time
  pub size : Buffer.size s'.buffer ≡ Buffer.size s.buffer

pub add_sequence-zero : (initial : ℕ) → initial < 2 ^ 31 → add_sequence initial 0 ≡ initial
add_sequence-zero initial h = omega (arith, add-eq-mod 31 initial 0 (omega arith))

module _ {S : Type 0} (initial : ℕ) where
  send_next-Requests :
      (now : ℕ) (payload : List ℕ) (c : Connection S) (s : SrtStream) (xs : List Sent)
      → Requests initial c s xs
      → let x : Sent = record {
        payload = payload;
        timestamp = from_start s.start_time now;
        message_number = (1 + length xs) % 2 ^ 26;
      } in
        (s' : SrtStream) × (c' : Connection S) × (send_next now payload s c ≡ ok (s', c'))
        × Requests initial c' s' (xs ++ (x ∷ []))
        × Grew c c' s s' (packets initial c.client_socket_id (length xs) (x ∷ []))
  unfolding send_next packets
  send_next-Requests now payload c s xs v =
      let (s', x, e, w, sent, same, start, size) = next_item-Tracks now payload s xs v.tracks in
      let next : add_sequence c.server_sequence_number 1
          ≡ add_sequence initial (length (xs ++ (x ∷ []))) =
        ap (λ (k : ℕ). add_sequence k 1) v.next
        ∙ add_sequence_suc initial (length xs)
        ∙ ap (λ (k : ℕ). add_sequence initial k) (sym (length-append xs (x ∷ []))) in
      let packet = data_packet_of false c.server_sequence_number c.client_socket_id x in
      (
        s',
        record c {
          server_sequence_number = add_sequence c.server_sequence_number 1;
          mode = request s';
          queue = record c.queue { queue = c.queue.queue ++ (packet ∷ []) };
        },
        rw (e, send_next),
        rw (← sent) (record {
          mode = refl;
          tracks = w;
          start = same ∙ v.start;
          small = v.small;
          next = next;
        }),
        record {
          sent =
              ap₂
                (λ (k : ℕ) (y : Sent). record c.queue {
                  queue = c.queue.queue ++ (data_packet_of false k c.client_socket_id y ∷ []);
                })
                v.next sent;
          peer = refl;
          start = start;
          size = size;
        },
      )

  pub send_stream-Requests :
      (payloads : List (ℕ × List ℕ)) (c : Connection S) (s : SrtStream) (xs : List Sent)
      → Requests initial c s xs
      → let ys = expected s.start_time (length xs) payloads in
        (s' : SrtStream) × (c' : Connection S) × (send_stream payloads s c ≡ ok c')
        × Requests initial c' s' (xs ++ ys)
        × Grew c c' s s' (packets initial c.client_socket_id (length xs) ys)
  unfolding send_stream packets expected
  send_stream-Requests [] c s xs v = (
    s,
    c,
    refl,
    rw append-nil v,
    record {
      sent =
          ap (λ (ps : List Packet). record c.queue { queue = ps }) (sym (append-nil c.queue.queue));
      peer = refl;
      start = refl;
      size = refl;
    },
  )
  send_stream-Requests ((now, payload) ∷ rest) c s xs v =
      let x : Sent = record {
        payload = payload;
        timestamp = from_start s.start_time now;
        message_number = (1 + length xs) % 2 ^ 26;
      } in
      let (s1, c1, e, w, g) = send_next-Requests now payload c s xs v in
      let (s2, c2, f, w2, g2) = send_stream-Requests rest c1 s1 (xs ++ (x ∷ [])) w in
      let ys1 = expected s1.start_time (length (xs ++ (x ∷ []))) rest in
      let count : length (xs ++ (x ∷ [])) ≡ length xs + 1 = length-append xs (x ∷ []) in
      let later : ys1 ≡ expected s.start_time (length xs + 1) rest =
        ap₂ (λ (t k : ℕ). expected t k rest) g.start count in
      let grown : c2.queue ≡ record c.queue {
        queue =
            (c.queue.queue ++ packets initial c.client_socket_id (length xs) (x ∷ []))
            ++ packets initial c.client_socket_id (length xs + 1) ys1;
      } =
        g2.sent
        ∙ ap₂ (λ (q : TransmissionQueue) (ps : List Packet). record q { queue = q.queue ++ ps })
            g.sent (ap₂ (λ (d k : ℕ). packets initial d k ys1) g.peer count) in
      (
        s2,
        c2,
        rw (e, send_stream, f),
        rw (← later, ← append_assoc xs (x ∷ []) ys1) w2,
        record {
          sent = rw (← later) (rw append_assoc at grown);
          peer = g2.peer ∙ g.peer;
          start = g2.start ∙ g.start;
          size = g2.size ∙ g.size;
        },
      )
