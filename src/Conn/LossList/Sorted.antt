-- ===== src/Conn/LossList/Sorted.antt =====
-- Loss lists in ascending order within half the sequence range, and the losses that a gap records.
use streamsync.Base.{
  ◌-◌, ◌*◌, u32, ltb, Bool-cases, inl, inr, ℕ, zero, suc, ◌+◌, ◌^◌, ◌≤◌, ◌<◌, ◌≡◌, arith, List, [],
  ◌∷◌, map, Ordering,
}
use native.Mathlib.Nat.{add-zero}
use native.Mathlib.Numerals.{add-one}
use native.Mathlib.Decide.{dec_lt, ℕ_discrete}
use streamsync.Serial.Order.{cmp-eq_iff, cmp_near}
use streamsync.Sequence.{cmp_sequence}
use streamsync.Conn.LossList.{
  LossList, Phase, less_phase, equal_phase, greater_phase, IsPartitioned, push_in, extend_range,
  clear_in,
}

-- Ascending numbers, from `lo` on and below `hi`.
abbrev pub IsAscending : ℕ → ℕ → LossList → Type 0
IsAscending lo hi [] = Unit {0}
IsAscending lo hi (e ∷ l) =
    (lo ≤ e.sequence) × (e.sequence < hi) × IsAscending (suc e.sequence) hi l

abbrev answers : ℕ → LossList → List Ordering
answers seq l = map (λ e. cmp_sequence e.sequence seq) l

IsPartitioned-gt :
    (p : Phase) (o : Ordering) (os : List Ordering)
    → o ≡ Ordering.gt
    → IsPartitioned greater_phase os
    → IsPartitioned p (o ∷ os)
IsPartitioned-gt less_phase Ordering.gt os e h = h
IsPartitioned-gt equal_phase Ordering.gt os e h = h
IsPartitioned-gt greater_phase Ordering.gt os e h = h
IsPartitioned-gt _ Ordering.lt os e h = absurd (cc)
IsPartitioned-gt _ Ordering.eq os e h = absurd (cc)

IsPartitioned-eq :
    (o : Ordering) (os : List Ordering)
    → o ≡ Ordering.eq
    → IsPartitioned equal_phase os
    → IsPartitioned less_phase (o ∷ os)
IsPartitioned-eq Ordering.eq os e h = h
IsPartitioned-eq _ os e h = absurd (cc)

IsPartitioned-lt :
    (o : Ordering) (os : List Ordering)
    → o ≡ Ordering.lt
    → IsPartitioned less_phase os
    → IsPartitioned less_phase (o ∷ os)
IsPartitioned-lt Ordering.lt os e h = h
IsPartitioned-lt _ os e h = absurd (cc)

-- Behind `seq` every answer is `Greater`, which fits any phase.
above-IsPartitioned :
    (p : Phase) (seq lo hi : ℕ) (l : LossList)
    → seq < lo
    → hi ≤ seq + 2 ^ 30
    → hi ≤ 2 ^ 31
    → IsAscending lo hi l
    → IsPartitioned p (answers seq l)
above-IsPartitioned p seq lo hi [] h near fits a = tt
above-IsPartitioned p seq lo hi (e ∷ l) h near fits a =
    IsPartitioned-gt p _ _ (cmp_near 31 seq e.sequence (omega arith) (omega arith) (omega arith)).1
      (above-IsPartitioned greater_phase seq (suc e.sequence) hi l (omega arith) near fits a.2)

-- So about any number of its range, an ascending list is sorted by the serial comparison.
pub answers-IsPartitioned :
    (seq lo hi : ℕ) (l : LossList)
    → hi ≤ lo + 2 ^ 30
    → lo ≤ seq
    → seq < hi
    → hi ≤ 2 ^ 31
    → IsAscending lo hi l
    → IsPartitioned less_phase (answers seq l)
answers-IsPartitioned seq lo hi [] near from to fits a = tt
answers-IsPartitioned seq lo hi (e ∷ l) near from to fits a = elim (dec_lt e.sequence seq) [
  | yes below ↦
      IsPartitioned-lt _ _ (cmp_near 31 e.sequence seq below (omega arith) (omega arith)).0
        (answers-IsPartitioned seq (suc e.sequence) hi l (omega arith) (omega arith) to fits a.2)
  | no above ↦ elim (ℕ_discrete e.sequence seq) [
    | yes same ↦ IsPartitioned-eq _ _ ((cmp-eq_iff 31 e.sequence seq).1 same) (
        above-IsPartitioned equal_phase seq (suc e.sequence) hi l (omega arith) (omega arith) fits
          a.2)
    | no other ↦
        IsPartitioned-gt less_phase _ _
          (cmp_near 31 seq e.sequence (omega arith) (omega arith) (omega arith)).1
          (above-IsPartitioned greater_phase seq (suc e.sequence) hi l (omega arith) (omega arith)
            fits a.2)
  ]
]

-- An entry at the end keeps the list ascending.
push_in-IsAscending :
    (seq now lo hi : ℕ) (l : LossList)
    → lo ≤ seq
    → hi ≤ seq
    → IsAscending lo hi l
    → IsAscending lo (suc seq) (push_in seq now l)
unfolding push_in
push_in-IsAscending seq now lo hi [] h k a = omega arith
push_in-IsAscending seq now lo hi (e ∷ l) h k a =
    (a.0, omega arith, push_in-IsAscending seq now (suc e.sequence) hi l (omega arith) k a.2)

-- Recording a gap at the end of an ascending list keeps it ascending.
pub extend_range-IsAscending :
    (k start now lo : ℕ) (l : LossList)
    → lo ≤ start
    → IsAscending lo start l
    → IsAscending lo (start + k) (extend_range k start now l)
unfolding extend_range
extend_range-IsAscending zero start now lo l h a = rw (add-zero) a
extend_range-IsAscending (suc k) start now lo l h a =
    let pushed : IsAscending lo (start + 1) (push_in start now l) =
      rw add-one (push_in-IsAscending start now lo start l h (omega arith) a) in
    let shift : start + suc k ≡ start + 1 + k = omega arith in
    rw shift
      (extend_range-IsAscending k (start + 1) now lo (push_in start now l) (omega arith) pushed)

weaken-IsAscending :
    (lo' lo hi : ℕ) (l : LossList) → lo' ≤ lo → IsAscending lo hi l → IsAscending lo' hi l
weaken-IsAscending lo' lo hi [] h a = tt
weaken-IsAscending lo' lo hi (e ∷ l) h a = (omega (arith, h, a.0), a.1, a.2)

-- Purging keeps the list ascending.
pub clear_in-IsAscending :
    (rtt now lo hi : ℕ) (l : LossList)
    → IsAscending lo hi l
    → IsAscending lo hi (clear_in rtt now l).0
unfolding clear_in
clear_in-IsAscending rtt now lo hi [] a = tt
clear_in-IsAscending rtt now lo hi (e ∷ l) a =
    elim (Bool-cases (ltb (u32 (now - e.instant)) (u32 (rtt * 2)))) [
      | inl young ↦ rw young a
      | inr old ↦ rw old (
          weaken-IsAscending lo (suc e.sequence) hi (clear_in rtt now l).0 (omega (arith, a.0))
            (clear_in-IsAscending rtt now (suc e.sequence) hi l a.2))
    ]
