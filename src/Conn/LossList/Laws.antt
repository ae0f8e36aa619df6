-- ===== src/Conn/LossList/Laws.antt =====
-- What `clear_in` and `remove` do to a loss list, and that a sorted one finds what it holds.
use streamsync.Base.{
  ℕ, zero, suc, ◌-◌, ◌*◌, ◌≡◌, refl, ◌∙◌, ap, arith, none, some, List, [], ◌∷◌, ◌++◌, map, Ordering,
  ltb, true, false, length, get_elem?, u32, Option-cases, inl, inr, Bool-cases,
}
use streamsync.Serial.Order.{cmp-eq_iff}
use streamsync.Sequence.{cmp_sequence}
use streamsync.Conn.LossList.{
  Entry, LossList, remove_at, less_phase, IsPartitioned, BinarySearch, clear_in, remove,
}

-- An entry that `clear_in` takes for lost: as old as two round trips.
abbrev pub IsLost : ℕ → ℕ → Entry → Type 0
IsLost rtt now e = ltb (u32 (now - e.instant)) (u32 (rtt * 2)) ≡ false

abbrev pub All : (Entry → Type 0) → LossList → Type 0
All P [] = Unit {0}
All P (e ∷ l) = P e × All P l

abbrev pub StartsYoung : ℕ → ℕ → LossList → Type 0
StartsYoung rtt now [] = Unit {0}
StartsYoung rtt now (e ∷ l) = ltb (u32 (now - e.instant)) (u32 (rtt * 2)) ≡ true

-- `clear_in` cuts off the longest beginning of the list whose entries are all as old as two round
-- trips, and returns its length.
pub clear_in_lem :
    (rtt now : ℕ) (l : LossList)
    → (gone : LossList) × (l ≡ gone ++ (clear_in rtt now l).0)
      × All (IsLost rtt now) gone
      × ((clear_in rtt now l).1 ≡ length gone)
      × StartsYoung rtt now (clear_in rtt now l).0
unfolding clear_in
clear_in_lem rtt now [] = ([], refl, tt, refl, tt)
clear_in_lem rtt now (e ∷ l) = elim (Bool-cases (ltb (u32 (now - e.instant)) (u32 (rtt * 2)))) [
  | inl young ↦ ([], rw young, tt, rw young, rw young young)
  | inr old ↦
      let (gone, parts, lost, count, rest) = clear_in_lem rtt now l in
      (
        e ∷ gone,
        rw old (ap (λ xs. e ∷ xs) parts),
        (old, lost),
        rw old (omega (arith, count)),
        rw old rest,
      )
]

get_elem?-map {ℓ κ} :
    {A : Type ℓ} {B : Type κ} (f : A → B) (xs : List A) (i : ℕ) (b : B)
    → get_elem? (map f xs) i ≡ some b
    → (a : A) × (get_elem? xs i ≡ some a) × (f a ≡ b)
get_elem?-map f [] i b h = cc
get_elem?-map f (x ∷ xs) zero b h = (x, refl, cc)
get_elem?-map f (x ∷ xs) (suc i) b h = get_elem?-map f xs i b h

map-get_elem? {ℓ κ} :
    {A : Type ℓ} {B : Type κ} (f : A → B) (xs : List A) (i : ℕ) (a : A)
    → get_elem? xs i ≡ some a
    → get_elem? (map f xs) i ≡ some (f a)
map-get_elem? f [] i a h = cc
map-get_elem? f (x ∷ xs) zero a h = cc
map-get_elem? f (x ∷ xs) (suc i) a h = map-get_elem? f xs i a h

module _ (bs : BinarySearch) where
  -- On a list that is sorted about `seq`, what `remove` returns is the instant of an entry for this
  -- number, and that entry alone is gone.
  pub remove_sound :
      (seq ts : ℕ) (l l' : LossList)
      → IsPartitioned less_phase (map (λ e. cmp_sequence e.sequence seq) l)
      → remove bs seq l ≡ some (ts, l')
      → (i : ℕ) × (get_elem? l i ≡ some (record { sequence = seq; instant = ts }))
        × (l' ≡ remove_at i l)
  unfolding remove
  remove_sound seq ts l l' sorted h =
      elim (Option-cases (bs.search (map (λ e. cmp_sequence e.sequence seq) l))) [
        | inl e ↦ absurd (ground (arith, e, h))
        | inr (i, e) ↦
            let (x, at, equal) = get_elem?-map _ l i _ (bs.sound _ i sorted e) in
            let same : x.sequence ≡ seq = (cmp-eq_iff 31 x.sequence seq).0 equal in
            (i, ground (arith, e, at, h, same), ground (arith, e, at, h))
      ]

  -- On a list that is sorted about `seq`, `remove` finds every number that the list holds.
  pub remove_complete :
      (seq i : ℕ) (l : LossList) (e : Entry)
      → IsPartitioned less_phase (map (λ e. cmp_sequence e.sequence seq) l)
      → get_elem? l i ≡ some e
      → e.sequence ≡ seq
      → (ts : ℕ) × (l' : LossList) × (remove bs seq l ≡ some (ts, l'))
  unfolding remove
  remove_complete seq i l e sorted at same =
      let equal : get_elem? (map (λ e. cmp_sequence e.sequence seq) l) i ≡ some Ordering.eq =
        map-get_elem? _ l i e at ∙ ap (λ o. some o) ((cmp-eq_iff 31 e.sequence seq).1 same) in
      let (j, found) = bs.complete _ i sorted equal in
      let (x, here, _) = get_elem?-map _ l j _ (bs.sound _ j sorted found) in
      (x.instant, remove_at j l, ground (arith, found, here))

-- Nothing is found in an empty list.
pub remove_nil : (bs : BinarySearch) (seq : ℕ) → remove bs seq [] ≡ none
unfolding remove
remove_nil bs seq = elim (Option-cases (bs.search [])) [
  | inl e ↦ rw (remove, e)
  | inr (i, e) ↦ absurd (let no = bs.sound [] i tt e in cc no)
]
