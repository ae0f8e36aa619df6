-- ===== src/Conn/LossList/Recorded.antt =====
-- What a gap records: an entry for each of its numbers, which `remove` then finds.
use mathlib.Core.List.{append-nil, append_assoc}
use native.Mathlib.Nat.{zero-add}
use streamsync.Base.{
  ℕ, zero, suc, ◌+◌, ◌^◌, ◌≤◌, ◌<◌, ◌≡◌, refl, sym, ◌∙◌, ap, ap₂, arith, List, [], ◌∷◌, ◌++◌, some,
  get_elem?, length,
}
use streamsync.Conn.LossList.{
  Entry, LossList, BinarySearch, push_in, extend_range, remove, remove_at,
}
use streamsync.Conn.LossList.Laws.{remove_complete, remove_sound}
use streamsync.Conn.LossList.Sorted.{IsAscending, answers-IsPartitioned, extend_range-IsAscending}

-- The entries that `extend_range` appends.
abbrev pub losses : ℕ → ℕ → ℕ → LossList
losses zero start now = []
losses (suc k) start now = record { sequence = start; instant = now } ∷ losses k (start + 1) now

get_elem?-losses :
    (k start now j : ℕ)
    → j < k
    → get_elem? (losses k start now) j ≡ some (record { sequence = start + j; instant = now })
get_elem?-losses zero start now j h = absurd (omega arith)
get_elem?-losses (suc k) start now zero h = ground arith
get_elem?-losses (suc k) start now (suc j) h =
    let shift : start + 1 + j ≡ start + suc j = omega arith in
    get_elem?-losses k (start + 1) now j (omega arith)
    ∙ ap (λ (n : ℕ). some (record { sequence = n; instant = now })) shift

get_elem?-append {ℓ} :
    {A : Type ℓ} (xs ys : List A) (j : ℕ) → get_elem? (xs ++ ys) (length xs + j) ≡ get_elem? ys j
get_elem?-append [] ys j = rw (zero-add)
get_elem?-append (x ∷ xs) ys j =
    let shift : length (x ∷ xs) + j ≡ suc (length xs + j) = omega arith in
    rw shift (get_elem?-append xs ys j)

extend_range_lem :
    (k start now : ℕ) (l : LossList) → extend_range k start now l ≡ l ++ losses k start now
unfolding extend_range push_in
extend_range_lem zero start now l = sym (append-nil l)
extend_range_lem (suc k) start now l =
    extend_range_lem k (start + 1) now (push_in start now l)
    ∙ append_assoc l (record { sequence = start; instant = now } ∷ []) (losses k (start + 1) now)

starts_from :
    (lo hi i : ℕ) (l : LossList) (e : Entry)
    → IsAscending lo hi l
    → get_elem? l i ≡ some e
    → lo ≤ e.sequence
starts_from lo hi i [] e a h = cc
starts_from lo hi zero (x ∷ l) e a h = ground (arith, a.0, h)
starts_from lo hi (suc i) (x ∷ l) e a h = omega (arith, starts_from (suc x.sequence) hi i l e a.2 h)

-- No number stands twice.
unique :
    (lo hi i j : ℕ) (l : LossList) (e f : Entry)
    → IsAscending lo hi l
    → get_elem? l i ≡ some e
    → get_elem? l j ≡ some f
    → e.sequence ≡ f.sequence
    → i ≡ j
unique lo hi i j [] e f a h k s = cc
unique lo hi zero zero (x ∷ l) e f a h k s = refl
unique lo hi zero (suc j) (x ∷ l) e f a h k s =
    absurd (ground (arith, h, s, starts_from (suc x.sequence) hi j l f a.2 k))
unique lo hi (suc i) zero (x ∷ l) e f a h k s =
    absurd (ground (arith, k, s, starts_from (suc x.sequence) hi i l e a.2 h))
unique lo hi (suc i) (suc j) (x ∷ l) e f a h k s =
    ap suc (unique (suc x.sequence) hi i j l e f a.2 h k s)

-- A gap of `k` numbers from `start` on, recorded at `now` behind an ascending list: if the recorded
-- numbers span at most half the sequence range and do not wrap, then a lookup of any number of the
-- gap succeeds, gives the instant of the record, and takes out that entry alone.
pub remove-extend_range :
    (bs : BinarySearch) (k start now lo j : ℕ) (l : LossList)
    → IsAscending lo start l
    → lo ≤ start
    → j < k
    → start + k ≤ lo + 2 ^ 30
    → start + k ≤ 2 ^ 31
    → remove bs (start + j) (extend_range k start now l)
      ≡ some (now, remove_at (length l + j) (extend_range k start now l))
remove-extend_range bs k start now lo j l a h p near fits =
    let recorded = extend_range k start now l in
    let ascending = extend_range-IsAscending k start now lo l h a in
    let here : get_elem? recorded (length l + j)
        ≡ some (record { sequence = start + j; instant = now }) =
      ap (λ (xs : LossList). get_elem? xs (length l + j)) (extend_range_lem k start now l)
      ∙ get_elem?-append l (losses k start now) j
      ∙ get_elem?-losses k start now j p in
    let sorted =
      answers-IsPartitioned (start + j) lo (start + k) recorded near (omega arith) (omega arith)
        fits ascending in
    let (ts, l', found) =
      remove_complete bs (start + j) (length l + j) recorded _ sorted here refl in
    let (i, at, rest) = remove_sound bs (start + j) ts recorded l' sorted found in
    let same = unique lo (start + k) i (length l + j) recorded _ _ ascending at here refl in
    let at' : get_elem? recorded i ≡ some (record { sequence = start + j; instant = now }) =
      ap (λ (n : ℕ). get_elem? recorded n) same ∙ here in
    let when : ts ≡ now = cc (at, at') in
    found
    ∙ ap₂ (λ (t : ℕ) (r : LossList). some (t, r)) when
        (rest ∙ ap (λ (n : ℕ). remove_at n recorded) same)

-- The number that was pushed last is found, with the instant of its push.
pub remove-push_in :
    (bs : BinarySearch) (seq now lo : ℕ) (l : LossList)
    → IsAscending lo seq l
    → lo ≤ seq
    → seq < lo + 2 ^ 30
    → seq < 2 ^ 31
    → (l' : LossList) × (remove bs seq (push_in seq now l) ≡ some (now, l'))
unfolding extend_range
remove-push_in bs seq now lo l a h near fits =
    let here : seq + 0 ≡ seq = omega arith in
    (
      remove_at (length l + 0) (push_in seq now l),
      ap (λ (n : ℕ). remove bs n (push_in seq now l)) (sym here)
          ∙ remove-extend_range bs 1 seq now lo 0 l a h (omega arith) (omega arith) (omega arith),
    )
