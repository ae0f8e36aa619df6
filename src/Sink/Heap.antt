-- ===== src/Sink/Heap.antt =====
-- `std::collections::BinaryHeap<Reverse<S>>`, which stsync-proxy/src/srt/queue.rs wraps: its
-- operations, and what its documentation says of them.
use streamsync.Base.{ℕ, ◌≤◌, ◌<◌, ◌≡◌, Option, none, some, List, [], ◌∷◌, length, compare, Ordering}
use mathlib.Core.List.{Mem, Perm}

-- `H` is the heap; elements go in and come out without their `Reverse`.
pub record BinaryHeap (S H : Type 0) : Type 0 where
  pub with_capacity : ℕ → H
  pub push : S → H → H
  pub peek : H → Option S
  pub pop : H → Option (S × H)
  pub len : H → ℕ
  pub capacity : H → ℕ
  pub clear : H → H

-- On these elements the order `cmp` is that of the numbers `rank`.
abbrev pub Agrees : {S : Type 0} → (S → S → Ordering) → (S → ℕ) → List S → Type 0
Agrees {S} cmp rank l = (x y : S) → Mem x l → Mem y l → cmp x y ≡ compare (rank x) (rank y)

-- The documented behaviour. `IsOrdered rank h` is that of a heap whose `Ord` was the order of
-- `rank` on all that went into it. Of others only the contents are specified; that they are those
-- that went in, for every `Ord`, is more than the documentation says.
pub record HeapLaws {S H : Type 0} (cmp : S → S → Ordering) (b : BinaryHeap S H) : Type 1 where
  pub contents : H → List S
  pub IsOrdered : (S → ℕ) → H → Type 0
  pub len-contents : (h : H) → b.len h ≡ length (contents h)
  pub contents-with_capacity : (n : ℕ) → contents (b.with_capacity n) ≡ []
  pub capacity-with_capacity : (n : ℕ) → n ≤ b.capacity (b.with_capacity n)
  pub with_capacity-IsOrdered : (rank : S → ℕ) (n : ℕ) → IsOrdered rank (b.with_capacity n)
  pub contents-push : (s : S) (h : H) → Perm (contents (b.push s h)) (s ∷ contents h)
  pub capacity-push :
      (s : S) (h : H) → b.len h < b.capacity h → b.capacity (b.push s h) ≡ b.capacity h
  pub push-IsOrdered :
      (rank : S → ℕ) (s : S) (h : H)
      → IsOrdered rank h
      → Agrees cmp rank (s ∷ contents h)
      → IsOrdered rank (b.push s h)
  pub pop_none : (h : H) → b.pop h ≡ none → (contents h ≡ []) × (b.peek h ≡ none)
  pub contents-pop :
      (h h' : H) (s : S)
      → b.pop h ≡ some (s, h')
      → Perm (contents h) (s ∷ contents h') × (b.peek h ≡ some s) × (b.capacity h' ≡ b.capacity h)
  pub pop_least :
      (rank : S → ℕ) (h h' : H) (s : S)
      → IsOrdered rank h
      → b.pop h ≡ some (s, h')
      → IsOrdered rank h' × ((x : S) → Mem x (contents h') → rank s ≤ rank x)
  pub contents-clear :
      (h : H) → (contents (b.clear h) ≡ []) × (b.capacity (b.clear h) ≡ b.capacity h)
