-- ===== src/Sink/Rank.antt =====
-- Message numbers within half their range: there the order of the segments is that of numbers.
use native.Mathlib.Nat.{mul-le-mul_right}
use streamsync.Base.{
  ℕ, suc, ◌+◌, ◌-◌, ◌*◌, ◌%◌, ◌^◌, ◌≤◌, ◌<◌, ◌≡◌, sym, ap, ◌∙◌, arith, List, [], ◌∷◌, compare,
  Ordering,
}
use native.Mathlib.Decide.{dec_lt}
use mathlib.Core.List.{Mem, Memᴰ}
use mathlib.Core.Logic.{∥∥₁_elim}
use native.Mathlib.Bridge.{le_prop}
use mathlib.Core.Path.{subst}
use streamsync.Sequence.{message_bits}
use streamsync.Serial
use streamsync.Serial.Laws.{add-eq-mod}
use streamsync.Serial.Order.{cmp-add, cmp-eq_iff}
use streamsync.Sink.Heap.{Agrees}
use streamsync.Sink.Queue.{Segment, cmp}

-- How far the message number is from `first`, also across the wrap.
abbrev pub offset : ℕ → Segment → ℕ
offset first s = (s.message_number + 2 ^ message_bits - first) % 2 ^ message_bits

-- By the offset, then by the delivery time, which is below `bound`.
abbrev pub rank : ℕ → ℕ → Segment → ℕ
rank first bound s = offset first s * bound + s.delivery_time

cmp-offset :
    (first : ℕ) (s t : Segment)
    → first < 2 ^ message_bits
    → s.message_number < 2 ^ message_bits
    → t.message_number < 2 ^ message_bits
    → offset first s < offset first t
    → offset first t < 2 ^ 25
    → (Serial.cmp message_bits s.message_number t.message_number ≡ Ordering.lt)
      × (Serial.cmp message_bits t.message_number s.message_number ≡ Ordering.gt)
cmp-offset first s t f g h before near =
    let d = offset first t - offset first s in
    let reach : Serial.add message_bits s.message_number d ≡ t.message_number =
      add-eq-mod message_bits s.message_number d (omega arith) ∙ omega arith in
    subst
      (λ n.
        (Serial.cmp message_bits s.message_number n ≡ Ordering.lt)
        × (Serial.cmp message_bits n s.message_number ≡ Ordering.gt))
      reach
      (cmp-add message_bits s.message_number d (omega arith) (omega arith) g (omega arith)
        (omega arith))

-- A segment within half the range from `first`, to be delivered before `bound`.
pub record IsNear (first bound : ℕ) (s : Segment) : Type 0 where
  pub number : s.message_number < 2 ^ message_bits
  pub near : offset first s < 2 ^ 25
  pub soon : s.delivery_time < bound

rank_lt :
    (first bound : ℕ) (s t : Segment)
    → offset first s < offset first t
    → s.delivery_time < bound
    → rank first bound s < rank first bound t
rank_lt first bound s t before soon =
    let next : suc (offset first s) ≤ offset first t = omega arith in
    omega (arith, mul-le-mul_right bound next)

compare_lt : (a b : ℕ) → a < b → (compare a b ≡ Ordering.lt) × (compare b a ≡ Ordering.gt)
compare_lt a b h = ground arith

compare_shift : (k k' a b : ℕ) → k ≡ k' → compare a b ≡ compare (k + a) (k' + b)
compare_shift k k' a b e = ground arith

cmp-rank :
    (first bound : ℕ) (s t : Segment)
    → first < 2 ^ message_bits
    → IsNear first bound s
    → IsNear first bound t
    → cmp s t ≡ compare (rank first bound s) (rank first bound t)
unfolding cmp
cmp-rank first bound s t f g h = elim (dec_lt (offset first s) (offset first t)) [
  | yes before ↦
      rw ((cmp-offset first s t f g.number h.number before h.near).0, cmp)
        (sym (compare_lt _ _ (rank_lt first bound s t before g.soon)).0)
  | no not_before ↦ elim (dec_lt (offset first t) (offset first s)) [
    | yes after ↦
        rw ((cmp-offset first t s f h.number g.number after g.near).1, cmp)
          (sym (compare_lt _ _ (rank_lt first bound t s after h.soon)).1)
    | no not_after ↦
        let same : s.message_number ≡ t.message_number = omega (arith, f, g.number, h.number) in
        let equal = (cmp-eq_iff message_bits s.message_number t.message_number).1 same in
        let level = ap (λ n. (n + 2 ^ message_bits - first) % 2 ^ message_bits * bound) same in
        rw (equal, cmp) (compare_shift _ _ s.delivery_time t.delivery_time level)
  ]
]

-- All the segments are near `first`.
abbrev pub AreNear : ℕ → ℕ → List Segment → Type 0
AreNear first bound l = (s : Segment) → Mem s l → IsNear first bound s

pub AreNear-Agrees :
    (first bound : ℕ) (l : List Segment)
    → first < 2 ^ message_bits
    → AreNear first bound l
    → Agrees cmp (rank first bound) l
AreNear-Agrees first bound l f near s t m m' = cmp-rank first bound s t f (near s m) (near t m')

-- The same by the list.
abbrev pub AllNear : ℕ → ℕ → List Segment → Type 0
AllNear first bound [] = Unit {0}
AllNear first bound (s ∷ l) = IsNear first bound s × AllNear first bound l

IsNear-memᴰ :
    (first bound : ℕ) (l : List Segment) (s : Segment)
    → AllNear first bound l
    → Memᴰ s l
    → IsNear first bound s
IsNear-memᴰ first bound [] s near m = elim m [ ]
IsNear-memᴰ first bound (t ∷ l) s near (Memᴰ.head e) = subst (IsNear first bound) (sym e) near.0
IsNear-memᴰ first bound (t ∷ l) s near (Memᴰ.tail m) = IsNear-memᴰ first bound l s near.1 m

pub AllNear-AreNear :
    (first bound : ℕ) (l : List Segment) → AllNear first bound l → AreNear first bound l
AllNear-AreNear first bound l near s m = record {
  number = ∥∥₁_elim m le_prop (λ d. (IsNear-memᴰ first bound l s near d).number);
  near = ∥∥₁_elim m le_prop (λ d. (IsNear-memᴰ first bound l s near d).near);
  soon = ∥∥₁_elim m le_prop (λ d. (IsNear-memᴰ first bound l s near d).soon);
}
