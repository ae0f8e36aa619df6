-- ===== src/Conn/State/Sent.antt =====
-- Sending on a connection before its first wrapping period.
use streamsync.Base.{ℕ, ◌≡◌, refl, true, false, if_both}
use streamsync.Conn.Queue
use streamsync.Conn.State.{OutputSink, Connection, send, timestamp, address}
use streamsync.Packet.{Packet}
use streamsync.Timestamp.{from_start, is_wrapping}

-- What sending on a connection before its first wrapping period leaves.
pub record Sent {S : Type 0} (now : ℕ) (p : Packet) (c c' : Connection S) : Type 0 where
  pub mode : c'.mode ≡ c.mode
  pub queue :
      c'.queue ≡ Queue.push (address (from_start c.start_time now) c.client_socket_id p) c.queue
  pub peer : c'.client_socket_id ≡ c.client_socket_id
  pub number : c'.server_sequence_number ≡ c.server_sequence_number

abbrev queued :
    {S : Type 0} → OutputSink S → ℕ → Packet → Connection S → Connection S → Connection S
queued o now p c d = record d {
  queue = Queue.push (address (from_start c.start_time now) d.client_socket_id p) d.queue;
}

pub send-Sent :
    {S : Type 0} (o : OutputSink S) (now : ℕ) (p : Packet) (c : Connection S)
    → c.timestamp_is_wrapping ≡ false
    → Sent now p c (send o now p c)
unfolding send timestamp
send-Sent o now p c fresh =
    let still = record c { timestamp_is_wrapping = false } in
    rw fresh (
      if_both (λ d. Sent now p still (queued o now p c d))
        (is_wrapping (from_start c.start_time now)) (record c { timestamp_is_wrapping = true })
        still (record { mode = refl; queue = refl; peer = refl; number = refl })
        (record { mode = refl; queue = refl; peer = refl; number = refl }))
