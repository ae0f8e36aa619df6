-- ===== src/Proto.antt =====
-- stsync-proxy/src/proto.rs: the big-endian codec of unsigned integers, and `Bits`.
-- A byte is a number below 256. Writers are `Vec<u8>`, whose writes do not fail, so `encode` is the
-- list of bytes that it appends. A reader (`Buf`) is the list of the bytes that it has left, all of
-- which `chunk` returns.
pub mod Error
pub mod Codec
pub mod Fields
mod Tests
use streamsync.Base.{
  ℕ, zero, suc, ◌+◌, ◌-◌, ◌*◌, ◌/◌, ◌%◌, ◌^◌, List, [], ◌∷◌, ltb, if◌then◌else◌, length, take, drop,
  bit_and, u32, wrapping_sub,
}
use Error.{Result, ok, err, io, unexpected_eof}

-- `to_be_bytes` of an integer of `k` bytes.
unfoldable pub to_be_bytes : ℕ → ℕ → List ℕ
to_be_bytes zero n = []
to_be_bytes (suc k) n = (n / 256 ^ k % 256) ∷ to_be_bytes k n

-- `from_be_bytes`, from the value of the bytes already read.
unfoldable pub from_be_bytes : ℕ → List ℕ → ℕ
from_be_bytes acc [] = acc
from_be_bytes acc (b ∷ bs) = from_be_bytes (acc * 256 + b) bs

-- `Encode` and `Decode` of `impl_uint_be`, at `k = size_of::<Self>()`.
abbrev pub encode_uint : ℕ → ℕ → List ℕ
encode_uint k n = to_be_bytes k n

unfoldable pub decode_uint : ℕ → List ℕ → Result (ℕ × List ℕ)
unfolding from_be_bytes
decode_uint k bytes =
    if ltb (length bytes) k
    then err (io unexpected_eof)
    else ok (from_be_bytes 0 (take k bytes), drop k bytes)

-- `Decode` of `Vec<u8>` and of `bytes::Bytes`: all that is left.
unfoldable pub decode_bytes : List ℕ → Result (List ℕ × List ℕ)
decode_bytes bytes = ok (bytes, [])

-- `Bits<U32>`: `lo` and `hi` are the ends of the range, counted from the most significant bit. The
-- mask is computed on `usize`.
unfoldable pub mask : ℕ → ℕ → ℕ
mask lo hi = (2 ^ (hi - lo) - 1) * 2 ^ (32 - hi)

unfoldable pub bits : ℕ → ℕ → ℕ → ℕ
unfolding mask
bits x lo hi = bit_and x (mask lo hi) / 2 ^ (32 - hi)

-- The arithmetic of `u32` in a release build: `<<` drops the high bits, `-` and `+` wrap.
unfoldable pub set_bits : ℕ → ℕ → ℕ → ℕ → ℕ
unfolding mask
set_bits x lo hi val =
    let curr = bit_and x (mask lo hi) in
    let new = u32 (val * 2 ^ (32 - hi)) in u32 (wrapping_sub x curr + new)
