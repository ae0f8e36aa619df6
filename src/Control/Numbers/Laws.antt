-- ===== src/Control/Numbers/Laws.antt =====
-- What the sequence numbers on the wire and in memory mean.
use mathlib.Core.List.{append_assoc}
use streamsync.Base.{
  ℕ, zero, suc, ◌+◌, ◌-◌, ◌%◌, ◌^◌, ◌≤◌, ◌<◌, ◌≡◌, refl, arith, true, false, some, List, [], ◌∷◌,
  ◌++◌, length, ◌==◌, wrapping_sub, Bool-cases, inl, inr,
}
use streamsync.Proto.{encode_uint, bits, set_bits}
use streamsync.Proto.Codec.{decode-encode_uint}
use streamsync.Proto.Fields.{bits_lem, set_type, set_bits_lem}
use streamsync.Proto.Error.{ok}
use streamsync.Control.Numbers.{
  single, range, len, iter, next, collect, items, encode_numbers, decode_numbers, from_range,
}

-- A single number of 31 bits survives the wire.
pub decode-encode_single :
    (n : ℕ) (rest : List ℕ)
    → n < 2 ^ 31
    → decode_numbers (encode_numbers (single n) ++ rest) ≡ ok (single n, rest)
unfolding decode_numbers encode_numbers
decode-encode_single n rest h =
    let same : set_bits n 0 1 0 ≡ n = omega (arith, set_type n 0) in
    let clear : (bits n 0 1 == 1) ≡ false = ground (arith, bits_lem n 0 1) in
    rw (same, decode-encode_uint 4 n rest (omega arith), clear)

-- The two words of a range of 31-bit numbers, the first with its top bit set, are read as that range.
pub decode_range :
    (start end : ℕ) (rest : List ℕ)
    → start < 2 ^ 31
    → end < 2 ^ 31
    → decode_numbers (encode_uint 4 (2 ^ 31 + start) ++ (encode_uint 4 end ++ rest))
      ≡ ok (range start end, rest)
unfolding decode_numbers
decode_range start end rest h k =
    let x = 2 ^ 31 + start in
    let marked : (bits x 0 1 == 1) ≡ true = ground (arith, bits_lem x 0 1) in
    let cleared : set_bits x 0 1 0 ≡ start = omega (arith, set_type x 0) in
    rw (
      decode-encode_uint 4 x (encode_uint 4 end ++ rest) (omega arith),
      marked,
      decode-encode_uint 4 end rest (omega arith),
      cleared,
    )

-- But a range of 31-bit numbers is written without that bit: it is read back as one number, the start without its
-- second highest bit, and the end is left over.
pub decode-encode_range :
    (start end : ℕ) (rest : List ℕ)
    → start < 2 ^ 31
    → end < 2 ^ 31
    → decode_numbers (encode_numbers (range start end) ++ rest)
      ≡ ok (single (start % 2 ^ 30), encode_uint 4 end ++ rest)
unfolding decode_numbers encode_numbers
decode-encode_range start end rest h k =
    let x = set_bits start 1 2 0 in
    let low : x ≡ start % 2 ^ 30 = omega (arith, set_bits_lem start 1 2 0) in
    let same : set_bits end 0 1 0 ≡ end = omega (arith, set_type end 0) in
    let clear : (bits x 0 1 == 1) ≡ false = ground (arith, low, bits_lem x 0 1) in
    rw (
      append_assoc (encode_uint 4 x) (encode_uint 4 (set_bits end 0 1 0)) rest,
      decode-encode_uint 4 x (encode_uint 4 (set_bits end 0 1 0) ++ rest) (omega (arith, low)),
      clear,
      same,
      low,
    )

-- The conversion of a non-empty half-open range of `u32` ends after as many calls as the range has numbers,
-- and gives its first number alone, whatever the end.
pub from_range_first :
    (fuel start end : ℕ)
    → start < end
    → end < 2 ^ 32
    → end - start ≤ fuel
    → from_range fuel start end ≡ some (single start)
unfolding from_range
from_range_first zero start end h k e = absurd (omega arith)
from_range_first (suc fuel) start end h k e = elim (Bool-cases (end - start == 1)) [
  | inl one ↦ rw one
  | inr more ↦
      rw more (
        from_range_first fuel start (wrapping_sub end 1) (ground arith) (omega arith)
          (ground arith))
]

-- The consecutive numbers from `n` on.
abbrev pub counting : ℕ → ℕ → List ℕ
counting zero n = []
counting (suc k) n = n ∷ counting k (n + 1)

length-counting : (k n : ℕ) → length (counting k n) ≡ k
length-counting zero n = refl
length-counting (suc k) n = omega (arith, length-counting k (n + 1))

collect-counting :
    (k start end : ℕ)
    → start + k ≡ end + 1
    → end < 2 ^ 32
    → collect (suc k) (record { start = start; end = end }) ≡ counting k start
unfolding collect next
collect-counting zero start end e h = ground arith
collect-counting (suc k) start end e h =
    ground (arith, collect-counting k (start + 1) end (omega arith) h)

-- The iterator over a range of 32-bit numbers gives every number from the first to the last, in
-- order: one more than `len` says.
pub items-range :
    (start end : ℕ)
    → start ≤ end
    → end < 2 ^ 32
    → (items (range start end) ≡ counting (end + 1 - start) start)
      × (length (items (range start end)) ≡ len (range start end) + 1)
unfolding items len iter
items-range start end h k =
    let rounds : end + 2 - start ≡ suc (end + 1 - start) = omega arith in
    let listed : collect (end + 2 - start) (record { start = start; end = end })
        ≡ counting (end + 1 - start) start =
      rw rounds (collect-counting (end + 1 - start) start end (omega arith) k) in
    (listed, rw listed (omega (arith, length-counting (end + 1 - start) start)))

-- One number is iterated as itself.
pub items_single : (n : ℕ) → n < 2 ^ 32 → items (single n) ≡ n ∷ []
unfolding items iter
items_single n h =
    let rounds : n + 2 - n ≡ 2 = omega arith in rw rounds (collect-counting 1 n n (omega arith) h)
