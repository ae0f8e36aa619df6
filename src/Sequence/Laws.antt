-- ===== src/Sequence/Laws.antt =====
-- Numbers in range pass the assertions of the constructors.
use streamsync.Base.{ℕ, ◌^◌, ◌<◌, ◌≡◌, arith}
use streamsync.Proto.Error.{ok}
use streamsync.Sequence.{new_sequence}

pub new_sequence_lem : (n : ℕ) → n < 2 ^ 31 → new_sequence n ≡ ok n
unfolding new_sequence
new_sequence_lem n h = ground arith
