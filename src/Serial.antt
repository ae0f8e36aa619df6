-- ===== src/Serial.antt =====
-- stsync-proxy/src/utils/serial.rs: serial numbers of `n` bits in a `u32` (`N` of the source).
-- `1 << N` is computed on `u32`: the instances of `add` and `sub` have N = 4, 26 and 31, where it
-- does not overflow; `cmp` shifts by N - 1 only and is also used at N = 32.
pub mod Laws
pub mod Order
mod Tests
use streamsync.Base.{
  ℕ, ◌+◌, ◌-◌, ◌^◌, Bool, ◌&&◌, ◌||◌, Ordering, bit_and, u32, wrapping_sub, ltb, ◌==◌,
  if◌then◌else◌,
}

unfoldable pub add : ℕ → ℕ → ℕ → ℕ
add n lhs rhs = let max = 2 ^ n - 1 in bit_and (u32 (bit_and lhs max + bit_and rhs max)) max

pub sub : ℕ → ℕ → ℕ → ℕ
sub n lhs rhs =
    let max = 2 ^ n - 1 in bit_and (wrapping_sub (bit_and lhs max) (bit_and rhs max)) max

-- The guard of the second `if`.
abbrev pub is_before : ℕ → ℕ → ℕ → Bool
is_before n lhs rhs =
    ltb lhs rhs && ltb (wrapping_sub rhs lhs) (2 ^ (n - 1))
    || ltb rhs lhs && ltb (2 ^ (n - 1)) (wrapping_sub lhs rhs)

unfoldable pub cmp : ℕ → ℕ → ℕ → Ordering
cmp n lhs rhs =
    if lhs == rhs then Ordering.eq else if is_before n lhs rhs then Ordering.lt else Ordering.gt
