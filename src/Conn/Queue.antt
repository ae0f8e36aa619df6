-- ===== src/Conn/Queue.antt =====
-- `TransmissionQueue` of stsync-proxy/src/srt/conn.rs: what waits to be sent.
pub mod Drain
use streamsync.Base.{Bool, ◌&&◌, true, false, Option, none, some, List, [], ◌∷◌, ◌++◌}
use streamsync.Packet.{Packet}

pub record TransmissionQueue : Type 0 where
  pub queue : List Packet
  pub prio : List Packet

abbrev pub empty_queue : TransmissionQueue
empty_queue = record { queue = []; prio = [] }

abbrev pub push : Packet → TransmissionQueue → TransmissionQueue
push p q = record q { queue = q.queue ++ (p ∷ []) }

abbrev pub push_prio : Packet → TransmissionQueue → TransmissionQueue
push_prio p q = record q { prio = q.prio ++ (p ∷ []) }

-- The front packet, and the queue without it.
unfoldable pub pop : TransmissionQueue → Option (Packet × TransmissionQueue)
pop q = elim q.prio [
  | p ∷ rest ↦ some (p, record q { prio = rest })
  | [] ↦ elim q.queue [ [] ↦ none | p ∷ rest ↦ some (p, record q { queue = rest }) ]
]

abbrev no_packets : List Packet → Bool
no_packets [] = true
no_packets (_ ∷ _) = false

pub is_empty : TransmissionQueue → Bool
is_empty q = no_packets q.queue && no_packets q.prio
