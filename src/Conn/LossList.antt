-- ===== src/Conn/LossList.antt =====
-- `LossList` of stsync-proxy/src/srt/conn.rs: sequence numbers with the instant of their insertion,
-- oldest first.
pub mod Laws
pub mod Sorted
pub mod Recorded
pub mod Linear
mod Tests
use streamsync.Base.{
  ℕ, zero, suc, ◌+◌, ◌-◌, ◌*◌, ◌≡◌, Option, none, some, List, [], ◌∷◌, ◌++◌, map, Ordering, ltb,
  if◌then◌else◌, length, get_elem?, u32,
}
use streamsync.Sequence.{cmp_sequence}

pub record Entry : Type 0 where
  pub sequence : ℕ
  pub instant : ℕ

abbrev pub LossList : Type 0
LossList = List Entry

-- `Vec::remove` at an index in range.
pub remove_at {ℓ} : {A : Type ℓ} → ℕ → List A → List A
remove_at i [] = []
remove_at zero (x ∷ xs) = xs
remove_at (suc i) (x ∷ xs) = x ∷ remove_at i xs

-- The answers of a comparator along a sorted slice: `Less`, then `Equal`, then `Greater`.
pub data Phase : Type 0 where
  less_phase equal_phase greater_phase : Phase

abbrev pub IsPartitioned : Phase → List Ordering → Type 0
IsPartitioned p [] = Unit {0}
IsPartitioned less_phase (Ordering.lt ∷ os) = IsPartitioned less_phase os
IsPartitioned less_phase (Ordering.eq ∷ os) = IsPartitioned equal_phase os
IsPartitioned less_phase (Ordering.gt ∷ os) = IsPartitioned greater_phase os
IsPartitioned equal_phase (Ordering.lt ∷ os) = ⊥
IsPartitioned equal_phase (Ordering.eq ∷ os) = IsPartitioned equal_phase os
IsPartitioned equal_phase (Ordering.gt ∷ os) = IsPartitioned greater_phase os
IsPartitioned greater_phase (Ordering.lt ∷ os) = ⊥
IsPartitioned greater_phase (Ordering.eq ∷ os) = ⊥
IsPartitioned greater_phase (Ordering.gt ∷ os) = IsPartitioned greater_phase os

-- `slice::binary_search_by` of the standard library, as a function of the comparator's answers along
-- the slice: `some` is `Ok`. On a partitioned slice an index that it returns is one where the
-- comparator says `Equal`, and it finds one if there is one; on others nothing is known of it.
pub record BinarySearch : Type 0 where
  pub search : List Ordering → Option ℕ
  pub sound :
      (os : List Ordering) (i : ℕ)
      → IsPartitioned less_phase os
      → search os ≡ some i
      → get_elem? os i ≡ some Ordering.eq
  pub complete :
      (os : List Ordering) (i : ℕ)
      → IsPartitioned less_phase os
      → get_elem? os i ≡ some Ordering.eq
      → (j : ℕ) × (search os ≡ some j)

-- `push_in`; the order is only checked in debug builds.
pub push_in : ℕ → ℕ → LossList → LossList
push_in seq now l = l ++ (record { sequence = seq; instant = now } ∷ [])

-- `extend` by the numbers of `start..end`, in `end - start` rounds.
pub extend_range : ℕ → ℕ → ℕ → LossList → LossList
extend_range zero start now l = l
extend_range (suc k) start now l = extend_range k (start + 1) now (push_in start now l)

-- `clear_in`: the entries that are not older than twice the round trip, and how many were removed.
pub clear_in : ℕ → ℕ → LossList → LossList × ℕ
clear_in rtt now [] = ([], 0)
clear_in rtt now (e ∷ l) =
    let rest = clear_in rtt now l in
    let removed : LossList × ℕ = (rest.0, rest.1 + 1) in
    if ltb (u32 (now - e.instant)) (u32 (rtt * 2)) then (e ∷ l, 0) else removed

module _ (bs : BinarySearch) where
  -- The removed entry's instant, if `seq` is found, and the list after the call.
  pub remove : ℕ → LossList → Option (ℕ × LossList)
  remove seq l = elim (bs.search (map (λ e. cmp_sequence e.sequence seq) l)) [
    | none ↦ none
    | some i ↦ elim (get_elem? l i) [ none ↦ none | some e ↦ some (e.instant, remove_at i l) ]
  ]
