-- ===== src/Conn/Transmit.antt =====
-- The sending side of a connection in request mode, stsync-proxy/src/srt/conn.rs: the loop of
-- `poll_read` over the stream, and `handle_nak`.
pub mod Sending
pub mod Recovery
use streamsync.Base.{ℕ, Bool, true, false, List, [], ◌∷◌}
use streamsync.Buffer.{absent, found, undefined}
use streamsync.Control.Casts.{Nak, upcast_drop_request, build_drop_request}
use streamsync.Control.Numbers.{SequenceNumbers, first, last, items}
use streamsync.Conn.Queue
use streamsync.Conn.State.{OutputSink, Connection, induction, publish, request, timestamp, address}
use streamsync.Packet.{Packet, build_data, upcast_data}
use streamsync.Proto.Error.{Result, ok, panicked, ◌>>=◌}
use streamsync.Sequence.{add_sequence}
use streamsync.Stream.{Sent, SrtStream, get_sent, next_item}

-- A sent segment as a packet, with its stream timestamp.
pub data_packet_of : Bool → ℕ → ℕ → Sent → Packet
data_packet_of retransmitted seq destination x =
    address x.timestamp destination
      (upcast_data (build_data seq x.message_number retransmitted x.payload))

module _ {S : Type 0} where
  -- One round of the loop, for a payload that the stream yields.
  unfoldable pub send_next :
      ℕ → List ℕ → SrtStream → Connection S → Result (SrtStream × Connection S)
  unfolding data_packet_of
  send_next now payload stream c = next_item now payload stream >>= λ n. ok (
    n.stream,
    record c {
      server_sequence_number = add_sequence c.server_sequence_number 1;
      mode = request n.stream;
      queue =
          Queue.push (data_packet_of false c.server_sequence_number c.client_socket_id n.sent)
            c.queue;
    },
  )

  -- The rounds, for the payloads that come at the given instants until the stream is pending or ends.
  unfoldable pub send_stream : List (ℕ × List ℕ) → SrtStream → Connection S → Result (Connection S)
  unfolding send_next
  send_stream [] stream c = ok c
  send_stream ((now, payload) ∷ rest) stream c =
      send_next now payload stream c >>= λ (stream', c'). send_stream rest stream' c'

  -- The answer to one number of a NAK; `ts` is the timestamp of the call.
  unfoldable pub answer_nak :
      ℕ → SequenceNumbers → SrtStream → ℕ → Connection S → Result (Connection S)
  unfolding data_packet_of
  answer_nak ts numbers stream seq c = elim (get_sent stream seq) [
    | found x ↦ ok (record c {
      queue = Queue.push_prio (data_packet_of true seq c.client_socket_id x) c.queue;
    })
    | absent ↦ ok (record c {
      queue =
          Queue.push
            (address ts c.client_socket_id
              (upcast_drop_request (build_drop_request 0 (first numbers) (last numbers))))
            c.queue;
    })
    | undefined ↦ panicked
  ]

  unfoldable pub answer_naks :
      ℕ → SequenceNumbers → SrtStream → List ℕ → Connection S → Result (Connection S)
  unfolding answer_nak
  answer_naks ts numbers stream [] c = ok c
  answer_naks ts numbers stream (seq ∷ rest) c =
      answer_nak ts numbers stream seq c >>= answer_naks ts numbers stream rest

module _ {S : Type 0} (o : OutputSink S) where
  unfoldable pub handle_nak : ℕ → Nak → Connection S → Result (Connection S)
  unfolding answer_naks
  handle_nak now p c =
      let (ts, c') = timestamp o now c in
      let numbers = p.lost_packet_sequence_numbers in
      elim c'.mode [
        | request stream ↦ answer_naks ts numbers stream (items numbers) c'
        | induction _ ↦ ok c'
        | publish _ ↦ ok c'
      ]
