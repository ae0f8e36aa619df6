-- ===== src/Buffer/Window.antt =====
-- What a reader of the buffer sees: the window of indices, and the values that `push` drops.
use mathlib.Core.List.{append-nil, append_assoc}
use native.Mathlib.Nat.{add-mod_right}
use streamsync.Base.{
  ℕ, ◌+◌, ◌%◌, ◌≤◌, ◌<◌, ◌≡◌, refl, sym, ◌∙◌, ap, ◌⊎◌, arith, Option, none, some, List, [], ◌∷◌,
  ◌++◌, length, get_elem?, if◌then◌else◌, ltb, length-replicate,
}
use streamsync.Buffer.{Buffer, absent, found, new, size, push_at, get, extend}
use streamsync.Buffer.Slots.{Holds, get_elem?-lt, new-Holds, push-Holds}

module _ {ℓ} {A : Type ℓ} (b : Buffer A) (xs : List A) (v : Holds b xs) where
  pub get_stored :
      (i : ℕ) (x : A) → get_elem? xs i ≡ some x → b.head ≤ i + size b → get b i ≡ found x
  unfolding get
  get_stored i x e p = ground (arith, v.stored i x e p, v.counted, v.window, get_elem?-lt xs i x e)

  pub get_absent : (i : ℕ) → (length xs ≤ i) ⊎ (i + size b + 1 < length xs) → get b i ≡ absent
  unfolding get
  get_absent i p = ground (arith, v.counted, v.window)

  -- The index just out of the window reads the slot of the newest item.
  pub get_stale :
      (i : ℕ) (x : A)
      → i + size b + 1 ≡ length xs
      → get_elem? xs (i + size b) ≡ some x
      → get b i ≡ found x
  unfolding get
  get_stale i x e h =
      let newest : get_elem? b.buf (i % size b) ≡ some (some x) =
        ap (λ (k : ℕ). get_elem? b.buf k) (sym (add-mod_right i (size b)))
        ∙ v.stored (i + size b) x h (omega (arith, v.counted)) in
      ground (arith, newest, v.counted, v.window)

  -- `push` drops a value only once more items than slots were pushed, and then the one that its
  -- slot holds, the oldest of the last `size`.
  pub dropped-push_at :
      (x y : A) (i : ℕ)
      → i + size b ≡ length xs
      → get_elem? xs i ≡ some y
      → (push_at (b.head % size b) b x).dropped
        ≡ (if ltb (size b) (length xs) then found y ∷ [] else [])
  unfolding push_at
  dropped-push_at x y i e h =
      let same_slot : b.head % size b ≡ i % size b =
        ap (λ (k : ℕ). k % size b) (v.counted ∙ sym e) ∙ add-mod_right i (size b) in
      let oldest : get_elem? b.buf (b.head % size b) ≡ some (some y) =
        ap (λ (k : ℕ). get_elem? b.buf k) same_slot ∙ v.stored i y h (omega (arith, v.counted)) in
      ground (arith, oldest, v.counted)

pub size-new {ℓ} : (A : Type ℓ) (n : ℕ) → size (new {A = A} n) ≡ n
unfolding new
size-new A n = length-replicate {A = Option A} n none

module _ {ℓ} {A : Type ℓ} where
  extend-Holds :
      (b : Buffer A) (xs ys : List A)
      → Holds b xs
      → (c : Buffer A) × (extend b ys ≡ some c) × Holds c (xs ++ ys) × (size c ≡ size b)
  unfolding extend
  extend-Holds b xs [] v = (b, refl, rw append-nil v, refl)
  extend-Holds b xs (y ∷ ys) v =
      let (e, w, same) = push-Holds b xs y v in
      let b' = (push_at (b.head % size b) b y).buffer in
      let (d, f, z, kept) = extend-Holds b' (xs ++ (y ∷ [])) ys w in
      (d, rw (e, extend) f, rw append_assoc at z, kept ∙ same)

  -- Items pushed, in order, into a new buffer of `n` slots, `n` not 0: the pushes do not panic, and
  -- then the index of each of the last `n` items gives that item.
  pub extend-get :
      (n i : ℕ) (xs : List A) (x : A)
      → 0 < n
      → get_elem? xs i ≡ some x
      → length xs ≤ i + n
      → (c : Buffer A) × (extend (new n) xs ≡ some c) × (get c i ≡ found x)
  extend-get n i xs x pos h recent =
      let (c, e, v, same) = extend-Holds (new n) [] xs (new-Holds n pos) in
      (c, e, get_stored c xs v i x h (omega (arith, v.counted, same, size-new A n)))

  -- After the same pushes, the index of an item that is more than `n + 1` pushes old, or of none,
  -- gives `None`.
  pub extend-get_absent :
      (n i : ℕ) (xs : List A)
      → 0 < n
      → (length xs ≤ i) ⊎ (i + n + 1 < length xs)
      → (c : Buffer A) × (extend (new n) xs ≡ some c) × (get c i ≡ absent)
  extend-get_absent n i xs pos out =
      let (c, e, v, same) = extend-Holds (new n) [] xs (new-Holds n pos) in
      let slots : size c ≡ n = same ∙ size-new A n in (c, e, get_absent c xs v i (rw slots out))

  -- The item that is `n + 1` pushes old is not refused: its index gives the newest item instead.
  pub extend-get_stale :
      (n i : ℕ) (xs : List A) (x : A)
      → 0 < n
      → i + n + 1 ≡ length xs
      → get_elem? xs (i + n) ≡ some x
      → (c : Buffer A) × (extend (new n) xs ≡ some c) × (get c i ≡ found x)
  extend-get_stale n i xs x pos old h =
      let (c, e, v, same) = extend-Holds (new n) [] xs (new-Holds n pos) in
      let slots : size c ≡ n = same ∙ size-new A n in
      (c, e, get_stale c xs v i x (rw slots old) (rw slots h))
