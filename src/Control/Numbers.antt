-- ===== src/Control/Numbers.antt =====
-- `SequenceNumbers`: one lost sequence number, or an inclusive range of them.
pub mod Laws
use streamsync.Base.{
  ℕ, zero, suc, ◌+◌, ◌-◌, ◌^◌, Bool, ◌&&◌, Option, none, some, List, [], ◌∷◌, ◌++◌, ltb, leb, ◌==◌,
  if◌then◌else◌, u32, wrapping_sub,
}
use streamsync.Proto.{encode_uint, decode_uint, bits, set_bits}
use streamsync.Proto.Error.{Result, ok, ◌>>=◌}

pub data SequenceNumbers : Type 0 where
  single : ℕ → SequenceNumbers
  range : ℕ → ℕ → SequenceNumbers

pub contains : SequenceNumbers → ℕ → Bool
contains (single n) num = n == num
contains (range start end) num = leb start num && leb num end

pub first : SequenceNumbers → ℕ
first (single num) = num
first (range start end) = start

pub last : SequenceNumbers → ℕ
last (single num) = num
last (range start end) = end

pub len : SequenceNumbers → ℕ
len (single num) = 1
len (range start end) = wrapping_sub end start

-- `SequenceNumbersIter`, whose bounds are `usize`.
pub record Iter : Type 0 where
  pub start : ℕ
  pub end : ℕ

pub iter : SequenceNumbers → Iter
iter (single num) = record { start = num; end = num }
iter (range start end) = record { start = start; end = end }

pub next : Iter → Option (ℕ × Iter)
next i = if ltb i.end i.start then none else some (u32 i.start, record i { start = i.start + 1 })

-- The items of `for seq in iter`, in at most `fuel` rounds.
pub collect : ℕ → Iter → List ℕ
collect zero i = []
collect (suc fuel) i = elim (next i) [ none ↦ [] | some (x, j) ↦ x ∷ collect fuel j ]

-- One round more than the loop takes.
pub items : SequenceNumbers → List ℕ
unfolding collect next iter
items s = let i = iter s in collect (i.end + 2 - i.start) i

pub encode_numbers : SequenceNumbers → List ℕ
encode_numbers (single num) = encode_uint 4 (set_bits num 0 1 0)
encode_numbers (range start end) =
    encode_uint 4 (set_bits start 1 2 0) ++ encode_uint 4 (set_bits end 0 1 0)

pub decode_numbers : List ℕ → Result (SequenceNumbers × List ℕ)
decode_numbers bytes = do
  (seq, r1) ← decode_uint 4 bytes
  if bits seq 0 1 == 1
      then decode_uint 4 r1 >>= (λ (end, r2). ok (range (set_bits seq 0 1 0) end, r2))
      else ok (single seq, r1)

-- `From<Range<u32>>`. The second branch converts the half-open range `start..end - 1`, so it calls
-- this conversion again; `none` is a recursion deeper than the fuel.
pub from_range : ℕ → ℕ → ℕ → Option SequenceNumbers
from_range zero start end = none
from_range (suc fuel) start end =
    let shorter = from_range fuel start (wrapping_sub end 1) in
    if end - start == 1 then some (single start) else shorter
