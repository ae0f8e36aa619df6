-- ===== src/Conn/LossList/Linear.antt =====
-- A search that scans the slice, which satisfies what is assumed of the binary search.
use streamsync.Base.{
  ℕ, zero, suc, ◌≡◌, refl, ap, Option, none, some, List, [], ◌∷◌, Ordering, get_elem?,
}
use streamsync.Conn.LossList.{BinarySearch}

abbrev later : Option ℕ → Option ℕ
later none = none
later (some i) = some (suc i)

-- The first position that answers `Equal`.
abbrev scan : List Ordering → Option ℕ
scan [] = none
scan (Ordering.eq ∷ os) = some 0
scan (Ordering.lt ∷ os) = later (scan os)
scan (Ordering.gt ∷ os) = later (scan os)

later-some : (o : Option ℕ) (i : ℕ) → later o ≡ some i → (j : ℕ) × (o ≡ some j) × (i ≡ suc j)
later-some none i h = cc
later-some (some j) i h = (j, refl, cc h)

pub scan_sound : (os : List Ordering) (i : ℕ) → scan os ≡ some i → get_elem? os i ≡ some Ordering.eq
scan_sound [] i h = cc
scan_sound (Ordering.eq ∷ os) zero h = refl
scan_sound (Ordering.eq ∷ os) (suc i) h = cc
scan_sound (Ordering.lt ∷ os) i h =
    let (j, e, s) = later-some (scan os) i h in rw s (scan_sound os j e)
scan_sound (Ordering.gt ∷ os) i h =
    let (j, e, s) = later-some (scan os) i h in rw s (scan_sound os j e)

pub scan_complete :
    (os : List Ordering) (i : ℕ) → get_elem? os i ≡ some Ordering.eq → (j : ℕ) × (scan os ≡ some j)
scan_complete [] i h = cc
scan_complete (Ordering.eq ∷ os) i h = (0, refl)
scan_complete (Ordering.lt ∷ os) zero h = cc
scan_complete (Ordering.gt ∷ os) zero h = cc
scan_complete (Ordering.lt ∷ os) (suc i) h =
    let (j, e) = scan_complete os i h in (suc j, ap later e)
scan_complete (Ordering.gt ∷ os) (suc i) h =
    let (j, e) = scan_complete os i h in (suc j, ap later e)

-- So it is a binary search in the sense of `BinarySearch`.
abbrev pub linear : BinarySearch
linear = record {
  search = scan;
  sound = λ os i _ h. scan_sound os i h;
  complete = λ os i _ h. scan_complete os i h;
}
