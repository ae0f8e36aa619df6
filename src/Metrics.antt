-- ===== src/Metrics.antt =====
-- stsync-proxy/src/metrics.rs: counters and gauges on a `usize` of 64 bits. Every operation is one
-- atomic access, so that the operations of several threads come one after the other.
pub mod Interleaving
mod Tests
use streamsync.Base.{ℕ, ◌+◌, ◌-◌, ◌%◌, ◌^◌, List, [], ◌∷◌}

-- `fetch_add` and `fetch_sub` wrap around.
unfoldable pub fetch_add : ℕ → ℕ → ℕ
fetch_add n g = (g + n) % 2 ^ 64

unfoldable pub fetch_sub : ℕ → ℕ → ℕ
fetch_sub n g = (g + (2 ^ 64 - n % 2 ^ 64)) % 2 ^ 64

-- The operations that change a gauge; a counter has `add` and `inc`.
pub data Change : Type 0 where
  add : ℕ → Change
  inc : Change
  sub : ℕ → Change
  dec : Change
  set : ℕ → Change

abbrev pub change : Change → ℕ → ℕ
change (add n) g = fetch_add n g
change inc g = fetch_add 1 g
change (sub n) g = fetch_sub n g
change dec g = fetch_sub 1 g
change (set n) g = n

-- The gauge after the changes, in their order.
pub run : List Change → ℕ → ℕ
run [] g = g
run (c ∷ cs) g = run cs (change c g)
