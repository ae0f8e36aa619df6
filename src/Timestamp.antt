-- ===== src/Timestamp.antt =====
-- stsync-proxy/src/srt/proto/timestamp.rs. A timestamp is its number of microseconds, a `u32`; an
-- `Instant` and a `Duration` are numbers of microseconds.
use streamsync.Base.{ℕ, ◌-◌, ◌^◌, Bool, Ordering, leb, u32}
use streamsync.Serial

-- `u32::MAX - 30 s`.
abbrev pub wrap_period : ℕ
wrap_period = 2 ^ 32 - 1 - 30_000_000

-- `start.elapsed().as_micros() as u32` at the instant `now`; `elapsed` stops at 0.
unfoldable pub from_start : ℕ → ℕ → ℕ
from_start start now = u32 (now - start)

unfoldable pub is_wrapping : ℕ → Bool
is_wrapping t = leb wrap_period t

pub cmp_timestamp : ℕ → ℕ → Ordering
cmp_timestamp a b = Serial.cmp 32 a b
