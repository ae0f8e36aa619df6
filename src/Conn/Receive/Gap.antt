-- ===== src/Conn/Receive/Gap.antt =====
-- What a publishing peer's connection does with a data packet, by the place of its number.
use streamsync.Base.{
  ℕ, ◌+◌, ◌-◌, ◌^◌, ◌<◌, ◌≤◌, ◌≡◌, refl, sym, ◌∙◌, ap, ap₂, arith, true, false, none, some, length,
  Ordering, if◌then◌else◌,
}
use streamsync.Control.Casts.{upcast_nak, build_nak}
use streamsync.Control.Numbers.{single}
use streamsync.Conn.LossList.{LossList, BinarySearch, extend_range, remove}
use streamsync.Conn.Queue
use streamsync.Conn.Receive.{count_dropped, receive, accept, handle_data}
use streamsync.Conn.Receive.Order.{
  handle_published-lost, handle_published_new, receive_late, receive_next, receive_gap,
  handle_data-published,
}
use streamsync.Conn.Rtt.{is_reachable}
use streamsync.Conn.State.{OutputSink, Connection, write_sink, timestamp, address}
use streamsync.Conn.State.Clock.{Publishes, timestamp-Publishes, timestamp-Idle}
use streamsync.Packet.{DataPacket, packet_sequence_number}
use streamsync.Packet.HeaderFields.{packet_sequence_number-lt}
use streamsync.Proto.Error.{ok, ◌>>=◌}
use streamsync.Sequence.{add_sequence, cmp_sequence}
use streamsync.Serial.Order.{cmp_near}
use streamsync.Conn.Receive.Recording.{record_gap-Recorded}

module _ {S : Type 0} (o : OutputSink S) (bs : BinarySearch) (depth now : ℕ) (p : DataPacket)
    (c : Connection S) where
  -- A packet ahead of the expected number `k`, numerically and within half the range, which
  -- was not recorded as lost, at a publishing peer, with room on the stack for as many calls as
  -- numbers are missing: the packet goes to the sink, the number after it is expected next, every
  -- number from `k` on before it is recorded as lost, and a NAK is queued ahead of the other packets
  -- if the round trip is shorter than the latency; but the NAK names `k` alone.
  pub handle_data_gap :
      Publishes c
      → remove bs (packet_sequence_number p.header) c.loss_list ≡ none
      → c.client_sequence_number < packet_sequence_number p.header
      → packet_sequence_number p.header < c.client_sequence_number + 2 ^ 30
      → packet_sequence_number p.header - c.client_sequence_number ≤ depth
      → let k = c.client_sequence_number in
        let seq = packet_sequence_number p.header in
        (c' : Connection S) × (handle_data o bs depth now p c ≡ ok c')
        × (c'.poll_state ≡ write_sink p)
        × (c'.client_sequence_number ≡ add_sequence seq 1)
        × (c'.loss_list ≡ extend_range (seq - k) k now c.loss_list)
        × (c'.queue ≡ (
            if is_reachable c.latency c.rtt
            then Queue.push_prio
                (address
                  (timestamp o now c).0
                  c.client_socket_id
                  (upcast_nak (build_nak (single k))))
                c.queue
            else c.queue))
        × Publishes c'
  unfolding accept
  handle_data_gap v fresh after near deep =
      let seq = packet_sequence_number p.header in
      let small : seq < 2 ^ 31 = packet_sequence_number-lt p.header in
      let (ts, c1) = timestamp o now c in
      let same = timestamp-Idle o now c in
      let w = timestamp-Publishes o now c v in
      let unseen : remove bs seq c1.loss_list ≡ none =
        ap (λ l. remove bs seq l) same.losses ∙ fresh in
      let later : cmp_sequence seq c1.client_sequence_number ≡ Ordering.gt =
        ap (λ (k : ℕ). cmp_sequence seq k) same.expected
        ∙ (cmp_near 31 c.client_sequence_number seq after near (omega arith)).1 in
      let (c2, e, r) =
        record_gap-Recorded depth now ts seq c1 (rw same.expected after) small
          (rw same.expected deep) in
      (
        accept false seq p c2,
        handle_data-published o bs depth now p c v
            ∙ handle_published_new bs depth now ts p c1 unseen
            ∙ receive_gap bs depth now ts p c1 seq later
            ∙ ap (λ m. m >>= λ c'. ok (accept false seq p c')) e,
        refl,
        refl,
        r.losses
            ∙ ap₂ (λ (k : ℕ) (l : LossList). extend_range (seq - k) k now l) same.expected
                same.losses,
        r.queue ∙ (λ i.
            if is_reachable (same.latency i) (same.rtt i)
            then Queue.push_prio
                (address ts (same.peer i) (upcast_nak (build_nak (single (same.expected i)))))
                (same.queue i)
            else same.queue i),
        record { sink = w.sink; mode = r.mode ∙ w.mode },
      )

  -- A packet behind the expected number that was not recorded as lost, at a publishing peer, is
  -- dropped: the sink gets nothing, and what is expected, lost and queued stays.
  pub handle_data_late :
      Publishes c
      → remove bs (packet_sequence_number p.header) c.loss_list ≡ none
      → cmp_sequence (packet_sequence_number p.header) c.client_sequence_number ≡ Ordering.lt
      → (c' : Connection S) × (handle_data o bs depth now p c ≡ ok c')
        × (c'.poll_state ≡ c.poll_state)
        × (c'.client_sequence_number ≡ c.client_sequence_number)
        × (c'.loss_list ≡ c.loss_list)
        × (c'.queue ≡ c.queue)
        × (c'.metrics ≡ count_dropped (length p.payload) c.metrics)
  handle_data_late v fresh before =
      let seq = packet_sequence_number p.header in
      let (ts, c1) = timestamp o now c in
      let same = timestamp-Idle o now c in
      let unseen : remove bs seq c1.loss_list ≡ none =
        ap (λ l. remove bs seq l) same.losses ∙ fresh in
      let late : cmp_sequence seq c1.client_sequence_number ≡ Ordering.lt =
        ap (λ (k : ℕ). cmp_sequence seq k) same.expected ∙ before in
      (
        record c1 { metrics = count_dropped (length p.payload) c1.metrics },
        handle_data-published o bs depth now p c v
            ∙ handle_published_new bs depth now ts p c1 unseen
            ∙ receive_late bs depth now ts p c1 seq late,
        same.poll_state,
        same.expected,
        same.losses,
        same.queue,
        ap (λ m. count_dropped (length p.payload) m) same.metrics,
      )

  -- The packet with the expected number, at a publishing peer, if that number was not recorded as
  -- lost: it goes to the sink, the number after it is expected next, and nothing is recorded or
  -- queued.
  pub handle_data_next :
      Publishes c
      → remove bs (packet_sequence_number p.header) c.loss_list ≡ none
      → packet_sequence_number p.header ≡ c.client_sequence_number
      → (c' : Connection S) × (handle_data o bs depth now p c ≡ ok c')
        × (c'.poll_state ≡ write_sink p)
        × (c'.client_sequence_number ≡ add_sequence c.client_sequence_number 1)
        × (c'.loss_list ≡ c.loss_list)
        × (c'.queue ≡ c.queue)
  unfolding accept
  handle_data_next v fresh exact =
      let seq = packet_sequence_number p.header in
      let (ts, c1) = timestamp o now c in
      let same = timestamp-Idle o now c in
      let unseen : remove bs seq c1.loss_list ≡ none =
        ap (λ l. remove bs seq l) same.losses ∙ fresh in
      let here : seq ≡ c1.client_sequence_number = exact ∙ sym same.expected in
      (
        accept false c1.client_sequence_number p c1,
        handle_data-published o bs depth now p c v
            ∙ handle_published_new bs depth now ts p c1 unseen
            ∙ ap (λ (k : ℕ). receive depth now ts false k p c1) here
            ∙ receive_next bs depth now ts p c1,
        refl,
        ap (λ (k : ℕ). add_sequence k 1) same.expected,
        same.losses,
        same.queue,
      )

  -- A packet whose number is in the loss list, at a publishing peer, goes to the sink, wherever its
  -- number stands; the number leaves the list, and the expected number does not move.
  pub handle_data_lost :
      (t : ℕ) (l : LossList)
      → Publishes c
      → remove bs (packet_sequence_number p.header) c.loss_list ≡ some (t, l)
      → (c' : Connection S) × (handle_data o bs depth now p c ≡ ok c')
        × (c'.poll_state ≡ write_sink p)
        × (c'.client_sequence_number ≡ c.client_sequence_number)
        × (c'.loss_list ≡ l)
        × (c'.queue ≡ c.queue)
  unfolding accept
  handle_data_lost t l v known =
      let seq = packet_sequence_number p.header in
      let (ts, c1) = timestamp o now c in
      let same = timestamp-Idle o now c in
      let seen : remove bs seq c1.loss_list ≡ some (t, l) =
        ap (λ l. remove bs seq l) same.losses ∙ known in
      (
        accept true seq p (record c1 { loss_list = l }),
        handle_data-published o bs depth now p c v
            ∙ handle_published-lost bs depth now ts p c1 t l seen,
        refl,
        same.expected,
        refl,
        same.queue,
      )
