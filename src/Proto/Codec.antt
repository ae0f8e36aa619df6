-- ===== src/Proto/Codec.antt =====
-- Reading back what was written, and writing back what was read.
use mathlib.Core.List.{append-nil}
use native.Mathlib.Nat.{one-le-pow, mod-eq_of_lt, pow-suc}
use streamsync.Base.{
  ℕ, zero, suc, ◌+◌, ◌*◌, ◌/◌, ◌%◌, ◌^◌, ◌<◌, ◌≡◌, refl, sym, ◌∙◌, ap, arith, List, [], ◌++◌,
  length, take, drop, length-append, take-append, drop-append, ltb, false,
}
use streamsync.Base.Bits.{mod-mul}
use streamsync.Proto.{to_be_bytes, from_be_bytes, decode_uint}
use streamsync.Proto.Error.{ok, err, io, unexpected_eof}

pub length-to_be_bytes : (k n : ℕ) → length (to_be_bytes k n) ≡ k
unfolding to_be_bytes
length-to_be_bytes zero n = refl
length-to_be_bytes (suc k) n = ap suc (length-to_be_bytes k n)

from_be_bytes-to_be_bytes :
    (k acc n : ℕ) → from_be_bytes acc (to_be_bytes k n) ≡ acc * 256 ^ k + n % 256 ^ k
unfolding to_be_bytes from_be_bytes
from_be_bytes-to_be_bytes zero acc n = omega arith
from_be_bytes-to_be_bytes (suc k) acc n =
    let split : n % 256 ^ suc k ≡ 256 ^ k * (n / 256 ^ k % 256) + n % 256 ^ k =
      rw (pow-suc 256 k) (mod-mul n (256 ^ k) 256 (one-le-pow k 256 (omega arith)) (omega arith)) in
    omega (
      arith,
      from_be_bytes-to_be_bytes k (acc * 256 + n / 256 ^ k % 256) n,
      split,
      ap (λ (t : ℕ). acc * t) (pow-suc 256 k),
    )

-- An integer of `k` bytes is read back from its encoding, whatever follows, which is left.
pub decode-encode_uint :
    (k n : ℕ) (rest : List ℕ) → n < 256 ^ k → decode_uint k (to_be_bytes k n ++ rest) ≡ ok (n, rest)
unfolding decode_uint
decode-encode_uint k n rest h =
    let written = to_be_bytes k n in
    let size : length written ≡ k = length-to_be_bytes k n in
    let enough : ltb (length (written ++ rest)) k ≡ false =
      ground (arith, length-append written rest, size) in
    let front : take k (written ++ rest) ≡ written =
      ap (λ (j : ℕ). take j (written ++ rest)) (sym size) ∙ take-append written rest in
    let back : drop k (written ++ rest) ≡ rest =
      ap (λ (j : ℕ). drop j (written ++ rest)) (sym size) ∙ drop-append written rest in
    rw (enough, front, back, from_be_bytes-to_be_bytes k 0 n)
      (ap (λ (m : ℕ). ok (m, rest))
        (let e : 0 * 256 ^ k + n % 256 ^ k ≡ n = omega (arith, mod-eq_of_lt h) in e))

-- Fewer than `k` bytes left are an unexpected end.
pub decode_uint_short :
    (k : ℕ) (bytes : List ℕ) → length bytes < k → decode_uint k bytes ≡ err (io unexpected_eof)
unfolding decode_uint
decode_uint_short k bytes h = ground arith

pub decode-encode_last : (k n : ℕ) → n < 256 ^ k → decode_uint k (to_be_bytes k n) ≡ ok (n, [])
decode-encode_last k n h =
    ap (λ bs. decode_uint k bs) (sym (append-nil (to_be_bytes k n))) ∙ decode-encode_uint k n [] h
