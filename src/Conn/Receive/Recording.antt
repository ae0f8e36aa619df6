-- ===== src/Conn/Receive/Recording.antt =====
-- The branch of `handle_data` that records a gap.
use streamsync.Base.{ℕ, ◌-◌, ◌^◌, ◌<◌, ◌≤◌, ◌≡◌, refl, arith, if◌then◌else◌, Bool-cases, inl, inr}
use streamsync.Control.Casts.{upcast_nak, build_nak}
use streamsync.Control.Numbers.{single}
use streamsync.Control.Numbers.Laws.{from_range_first}
use streamsync.Conn.LossList.{extend_range}
use streamsync.Conn.Queue
use streamsync.Conn.Receive.{push_nak, record_gap}
use streamsync.Conn.Rtt.{is_reachable}
use streamsync.Conn.State.{Connection, address}
use streamsync.Proto.Error.{ok}

-- What recording a gap from the expected number on, up to a later `seq`, leaves behind.
pub record Recorded {S : Type 0} (now ts seq : ℕ) (c c' : Connection S) : Type 0 where
  pub losses :
      c'.loss_list
      ≡ extend_range (seq - c.client_sequence_number) c.client_sequence_number now c.loss_list
  pub queue : c'.queue ≡ (
      if is_reachable c.latency c.rtt
      then Queue.push_prio
          (address ts c.client_socket_id (upcast_nak (build_nak (single c.client_sequence_number))))
          c.queue
      else c.queue)
  pub mode : c'.mode ≡ c.mode

module _ {S : Type 0} (depth now ts seq : ℕ) (c : Connection S) where
  pub record_gap-Recorded :
      c.client_sequence_number < seq
      → seq < 2 ^ 31
      → seq - c.client_sequence_number ≤ depth
      → (c' : Connection S) × (record_gap depth now ts seq c ≡ ok c') × Recorded now ts seq c c'
  unfolding record_gap push_nak
  record_gap-Recorded after small deep =
      let first = c.client_sequence_number in
      let recorded = record c { loss_list = extend_range (seq - first) first now c.loss_list } in
      elim (Bool-cases (is_reachable c.latency c.rtt)) [
        | inl near ↦ (
          record recorded {
            queue =
                Queue.push_prio
                  (address ts c.client_socket_id (upcast_nak (build_nak (single first)))) c.queue;
          },
          rw (
            record_gap,
            near,
            push_nak,
            from_range_first depth first seq after (omega arith) deep,
          ),
          record { losses = refl; queue = rw near; mode = refl },
        )
        | inr far ↦
            (recorded, rw (record_gap, far), record { losses = refl; queue = rw far; mode = refl })
      ]
