-- ===== src/Proto/Fields.antt =====
-- `bits` and `set_bits` as arithmetic.
use streamsync.Base.{ℕ, ◌+◌, ◌-◌, ◌*◌, ◌/◌, ◌%◌, ◌^◌, ◌<◌, ◌≡◌, arith, u32, wrapping_sub}
use native.Mathlib.Nat.{mul-div_left, one-le-pow}
use streamsync.Base.Bits.{bit_and_field}
use streamsync.Proto.{bits, set_bits}

-- The bits of a range, as the quotient and remainder that they stand for.
pub bits_lem : (x lo hi : ℕ) → bits x lo hi ≡ x / 2 ^ (32 - hi) % 2 ^ (hi - lo)
unfolding bits
bits_lem x lo hi =
    rw (bit_and_field (hi - lo) (32 - hi) x)
      (mul-div_left (x / 2 ^ (32 - hi) % 2 ^ (hi - lo)) (one-le-pow (32 - hi) 2 (omega arith)))

pub set_bits_lem :
    (x lo hi val : ℕ)
    → set_bits x lo hi val
      ≡ u32 (
          wrapping_sub x (x / 2 ^ (32 - hi) % 2 ^ (hi - lo) * 2 ^ (32 - hi))
          + u32 (val * 2 ^ (32 - hi)))
unfolding set_bits
set_bits_lem x lo hi val = rw (bit_and_field (hi - lo) (32 - hi) x)

-- Setting a field of `seg0` or `seg1` to a value that fits it, as a sum: what stands above the
-- field, the value, and what stands below.
abbrev IsField : ℕ → ℕ → Type 0
IsField lo hi =
    (x val : ℕ)
    → x < 2 ^ 32
    → val < 2 ^ (hi - lo)
    → set_bits x lo hi val
      ≡ x / 2 ^ (32 - lo) * 2 ^ (32 - lo) + val * 2 ^ (32 - hi) + x % 2 ^ (32 - hi)

pub set_type : IsField 0 1
set_type x val h p = omega (arith, set_bits_lem x 0 1 val)

pub set_control : IsField 1 16
set_control x val h p = omega (arith, set_bits_lem x 1 16 val)

pub set_number : IsField 1 32
set_number x val h p = omega (arith, set_bits_lem x 1 32 val)

pub set_position : IsField 0 2
set_position x val h p = omega (arith, set_bits_lem x 0 2 val)

pub set_order : IsField 2 3
set_order x val h p = omega (arith, set_bits_lem x 2 3 val)

pub set_retransmission : IsField 5 6
set_retransmission x val h p = omega (arith, set_bits_lem x 5 6 val)

pub set_message : IsField 6 32
set_message x val h p = omega (arith, set_bits_lem x 6 32 val)
