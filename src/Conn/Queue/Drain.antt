-- ===== src/Conn/Queue/Drain.antt =====
-- The order in which packets leave a transmission queue.
use streamsync.Base.{
  ℕ, zero, suc, ◌+◌, ◌≤◌, ◌≡◌, refl, ap, arith, none, some, List, [], ◌∷◌, ◌++◌, length,
}
use streamsync.Conn.Queue.{TransmissionQueue, pop}
use streamsync.Packet.{Packet}

-- The packets of `n` calls of `pop`.
pub drain : ℕ → TransmissionQueue → List Packet
drain zero q = []
drain (suc n) q = elim (pop q) [ none ↦ [] | some (p, rest) ↦ p ∷ drain n rest ]

drain_queue :
    (n : ℕ) (ps : List Packet) → length ps ≤ n → drain n (record { queue = ps; prio = [] }) ≡ ps
unfolding drain pop
drain_queue zero [] h = refl
drain_queue zero (p ∷ ps) h = absurd (omega (arith, h))
drain_queue (suc n) [] h = refl
drain_queue (suc n) (p ∷ ps) h = ap (λ xs. p ∷ xs) (drain_queue n ps (omega (arith, h)))

-- Popping often enough gives every packet once: first those pushed with priority, then the others,
-- each in the order of their pushes.
pub drain_lem :
    (n : ℕ) (prio queue : List Packet)
    → length prio + length queue ≤ n
    → drain n (record { queue = queue; prio = prio }) ≡ prio ++ queue
unfolding drain pop
drain_lem n [] queue h = drain_queue n queue (omega (arith, h))
drain_lem zero (p ∷ prio) queue h = absurd (omega (arith, h))
drain_lem (suc n) (p ∷ prio) queue h = ap (λ xs. p ∷ xs) (drain_lem n prio queue (omega (arith, h)))
