-- ===== src/Conn/Receive/Order.antt =====
-- The branches of `handle_data`, one equation each.
use streamsync.Base.{ℕ, ◌≡◌, refl, ap, true, false, none, some, length, Ordering}
use streamsync.Conn.LossList.{LossList, BinarySearch, remove}
use streamsync.Conn.Receive.{
  count_dropped, receive, accept, record_gap, handle_published, handle_data,
}
use streamsync.Conn.State.{OutputSink, Connection, timestamp}
use streamsync.Conn.State.Clock.{Publishes, timestamp-Publishes}
use streamsync.Packet.{DataPacket, packet_sequence_number}
use streamsync.Packet.HeaderFields.{packet_sequence_number-lt}
use streamsync.Proto.Error.{ok, ◌>>=◌}
use streamsync.Serial.Order.{cmp-eq_iff}
use streamsync.Sequence.Laws.{new_sequence_lem}
use streamsync.Sequence.{cmp_sequence}

-- A number that is recorded as lost, one that is not, and the three places of the latter.
module _ {S : Type 0} (bs : BinarySearch) (depth now ts : ℕ) (p : DataPacket)
    (c : Connection S) where
  pub handle_published-lost :
      (t : ℕ) (l : LossList)
      → remove bs (packet_sequence_number p.header) c.loss_list ≡ some (t, l)
      → handle_published bs depth now ts p c
        ≡ ok (accept true (packet_sequence_number p.header) p (record c { loss_list = l }))
  unfolding handle_published receive
  handle_published-lost t l h = rw (
    handle_published,
    new_sequence_lem (packet_sequence_number p.header) (packet_sequence_number-lt p.header),
    h,
    receive,
  )

  pub handle_published_new :
      remove bs (packet_sequence_number p.header) c.loss_list ≡ none
      → handle_published bs depth now ts p c
        ≡ receive depth now ts false (packet_sequence_number p.header) p c
  unfolding handle_published
  handle_published_new h = rw (
    handle_published,
    new_sequence_lem (packet_sequence_number p.header) (packet_sequence_number-lt p.header),
    h,
  )

  pub receive_late :
      (seq : ℕ)
      → cmp_sequence seq c.client_sequence_number ≡ Ordering.lt
      → receive depth now ts false seq p c
        ≡ ok (record c { metrics = count_dropped (length p.payload) c.metrics })
  unfolding receive
  receive_late seq h = rw h

  pub receive_next :
      receive depth now ts false c.client_sequence_number p c
      ≡ ok (accept false c.client_sequence_number p c)
  unfolding receive
  receive_next = rw ((cmp-eq_iff 31 c.client_sequence_number c.client_sequence_number).1 refl)

  pub receive_gap :
      (seq : ℕ)
      → cmp_sequence seq c.client_sequence_number ≡ Ordering.gt
      → receive depth now ts false seq p c
        ≡ (record_gap depth now ts seq c >>= λ c'. ok (accept false seq p c'))
  unfolding receive
  receive_gap seq h = rw h

pub handle_data-published :
    {S : Type 0} (o : OutputSink S) (bs : BinarySearch) (depth now : ℕ) (p : DataPacket)
    (c : Connection S)
    → Publishes c
    → handle_data o bs depth now p c
      ≡ handle_published bs depth now (timestamp o now c).0 p (timestamp o now c).1
unfolding handle_data
handle_data-published o bs depth now p c v =
    let w = timestamp-Publishes o now c v in
    let (ts, c1) = timestamp o now c in
    rw (handle_data, w.mode)
      (ap (λ m. handle_published bs depth now ts p (record c1 { mode = m })) w.mode)
