-- ===== src/Conn/Receive/Filled.antt =====
-- A packet that was missing is accepted when it comes after all.
use streamsync.Base.{ℕ, ◌+◌, ◌-◌, ◌^◌, ◌<◌, ◌≤◌, ◌≡◌, ◌∙◌, ap₂, arith, none, some, length}
use streamsync.Conn.LossList.{LossList, BinarySearch, extend_range, remove, remove_at}
use streamsync.Conn.LossList.Sorted.{IsAscending}
use streamsync.Conn.LossList.Recorded.{remove-extend_range}
use streamsync.Conn.Receive.{handle_data}
use streamsync.Conn.Receive.Gap.{handle_data_gap, handle_data_lost}
use streamsync.Conn.State.{OutputSink, Connection, write_sink}
use streamsync.Conn.State.Clock.{Publishes}
use streamsync.Packet.{DataPacket, packet_sequence_number}
use streamsync.Packet.HeaderFields.{packet_sequence_number-lt}
use streamsync.Proto.Error.{ok}
use streamsync.Sequence.{add_sequence}

module _ {S : Type 0} (o : OutputSink S) (bs : BinarySearch) (depth : ℕ) where
  -- At a publishing peer, let the packet `p` jump ahead of the expected number `k`, which is above
  -- every number recorded as lost from `lo` on, all within half the range; and let there be
  -- room on the stack for as many calls as numbers are missing. If a packet `q` with one of the
  -- missing numbers, `k + j`, is the next to come, it goes to the sink, and the number expected next
  -- is still the one after `p`.
  pub handle_data_filled :
      (t1 t2 lo j : ℕ) (p q : DataPacket) (c : Connection S)
      → Publishes c
      → remove bs (packet_sequence_number p.header) c.loss_list ≡ none
      → IsAscending lo c.client_sequence_number c.loss_list
      → lo ≤ c.client_sequence_number
      → c.client_sequence_number < packet_sequence_number p.header
      → packet_sequence_number p.header ≤ lo + 2 ^ 30
      → packet_sequence_number p.header < c.client_sequence_number + 2 ^ 30
      → packet_sequence_number p.header - c.client_sequence_number ≤ depth
      → packet_sequence_number q.header ≡ c.client_sequence_number + j
      → c.client_sequence_number + j < packet_sequence_number p.header
      → (c1 : Connection S) × (c2 : Connection S) × (handle_data o bs depth t1 p c ≡ ok c1)
        × (c1.poll_state ≡ write_sink p)
        × (handle_data o bs depth t2 q c1 ≡ ok c2)
        × (c2.poll_state ≡ write_sink q)
        × (c2.client_sequence_number ≡ add_sequence (packet_sequence_number p.header) 1)
  handle_data_filled t1 t2 lo j p q c v fresh sorted low after span near deep number missing =
      let k = c.client_sequence_number in
      let seq = packet_sequence_number p.header in
      let (c1, e, sent, next, losses, _, w) =
        handle_data_gap o bs depth t1 p c v fresh after near deep in
      let whole : k + (seq - k) ≡ seq = omega arith in
      let recorded = extend_range (seq - k) k t1 c.loss_list in
      let known : remove bs (packet_sequence_number q.header) c1.loss_list
          ≡ some (t1, remove_at (length c.loss_list + j) recorded) =
        ap₂ (λ (n : ℕ) (l : LossList). remove bs n l) number losses
        ∙ remove-extend_range bs (seq - k) k t1 lo j c.loss_list sorted low (omega arith)
            (omega (arith, whole)) (omega (arith, whole, packet_sequence_number-lt p.header)) in
      let (c2, f, accepted, kept, _, _) = handle_data_lost o bs depth t2 q c1 t1 _ w known in
      (c1, c2, e, sent, f, accepted, kept ∙ next)
