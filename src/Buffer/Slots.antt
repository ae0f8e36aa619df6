-- ===== src/Buffer/Slots.antt =====
-- Which slot an index uses, and the invariant that ties the slots to the pushed items.
use native.Mathlib.Nat.{div-add-mod, mul-le-mul_left, mod-lt}
use native.Mathlib.Decide.{dec_lt, ℕ_discrete}
use streamsync.Base.{
  ℕ, zero, suc, ◌+◌, ◌-◌, ◌/◌, ◌%◌, ◌≤◌, ◌<◌, ◌≡◌, ◌≢◌, refl, sym, ◌∙◌, ap, arith, Option, none,
  some, List, [], ◌∷◌, ◌++◌, length, get_elem?, set, length-append, length-set, length-replicate,
  get_elem?-set_self, get_elem?-set_ne, get_elem?-append_left, get_elem?-append_last, if◌then◌else◌,
  ltb, ◌==◌, false,
}
use streamsync.Buffer.{Buffer, new, size, push, push_at}

-- Two indices less than `s` apart use different slots.
pub slot-ne : (i h s : ℕ) → i < h → h < i + s → i % s ≢ h % s
slot-ne i h s p q e = elim (dec_lt (i / s) (h / s)) [
  | yes lt ↦ omega (arith, div-add-mod i s, div-add-mod h s, mul-le-mul_left s lt)
  | no ge ↦
      let le : h / s ≤ i / s = omega arith in
      omega (arith, div-add-mod i s, div-add-mod h s, mul-le-mul_left s le)
]

-- `b` is a buffer into which the items of `xs` have been pushed, in this order: each of the last
-- `size` items stands in its slot.
pub record Holds {ℓ} {A : Type ℓ} (b : Buffer A) (xs : List A) : Type ℓ where
  pub counted : b.head ≡ length xs
  pub sized : 0 < size b
  pub window : b.tail ≡ b.head - (size b + 1)
  pub stored :
      (i : ℕ) (x : A)
      → get_elem? xs i ≡ some x
      → b.head ≤ i + size b
      → get_elem? b.buf (i % size b) ≡ some (some x)

module _ {ℓ} {A : Type ℓ} where
  pub new-Holds : (n : ℕ) → 0 < n → Holds (new {A = A} n) []
  unfolding new
  new-Holds n h = record {
    counted = refl;
    sized = omega (arith, length-replicate {A = Option A} n none);
    window = omega arith;
    stored = λ i x e p. cc;
  }

  -- An index that reads an item lies below the length.
  pub get_elem?-lt : (xs : List A) (i : ℕ) (x : A) → get_elem? xs i ≡ some x → i < length xs
  get_elem?-lt [] i x e = cc
  get_elem?-lt (y ∷ ys) zero x e = omega arith
  get_elem?-lt (y ∷ ys) (suc i) x e = omega (arith, get_elem?-lt ys i x e)

  abbrev pub pushed : Buffer A → A → Buffer A
  pushed b x = record {
    buf = set b.buf (b.head % size b) (some x);
    head = b.head + 1;
    tail = (b.head + 1) - (size b + 1);
  }

  -- The slot of the item just pushed, and those of the items that stay.
  stored-pushed :
      (b : Buffer A) (xs : List A) (x : A)
      → Holds b xs
      → (i : ℕ) (y : A) → get_elem? (xs ++ (x ∷ [])) i ≡ some y
      → b.head + 1 ≤ i + size b
      → get_elem? (set b.buf (b.head % size b) (some x)) (i % size b) ≡ some (some y)
  stored-pushed b xs x v i y e p = elim (ℕ_discrete i b.head) [
    | yes same ↦
        let at_end : i ≡ length xs = omega (arith, v.counted) in
        let new_item : get_elem? (xs ++ (x ∷ [])) i ≡ some x =
          rw at_end (get_elem?-append_last xs x) in
        rw same (
          get_elem?-set_self b.buf (b.head % size b) (some x) (mod-lt b.head v.sized)
          ∙ ap (λ o. some o) (sym new_item ∙ e))
    | no other ↦
        let below : i < b.head =
          omega (arith, get_elem?-lt _ i y e, length-append xs (x ∷ []), v.counted) in
        let old : get_elem? xs i ≡ some y =
          sym (get_elem?-append_left xs (x ∷ []) i (omega (arith, v.counted))) ∙ e in
        let apart : b.head % size b ≢ i % size b =
          λ q. slot-ne i b.head (size b) below (omega arith) (sym q) in
        get_elem?-set_ne b.buf (b.head % size b) (i % size b) (some x) apart
        ∙ v.stored i y old (omega arith)
  ]

  pushed-Holds :
      (b : Buffer A) (xs : List A) (x : A) → Holds b xs → Holds (pushed b x) (xs ++ (x ∷ []))
  pushed-Holds b xs x v = record {
    counted = omega (arith, v.counted, length-append xs (x ∷ []));
    sized = omega (arith, v.sized, length-set b.buf (b.head % size b) (some x));
    window = rw (length-set b.buf (b.head % size b) (some x));
    stored = λ i y e p.
        rw (length-set b.buf (b.head % size b) (some x))
          (stored-pushed b xs x v i y e (rw (length-set b.buf (b.head % size b) (some x)) at p));
  }

  -- On a buffer that holds `xs`, `push` does not panic, and the buffer then holds `xs` and the new
  -- item.
  pub push-Holds :
      (b : Buffer A) (xs : List A) (x : A)
      → Holds b xs
      → let c = push_at (b.head % size b) b x in
        (push b x ≡ some c) × Holds c.buffer (xs ++ (x ∷ [])) × (size c.buffer ≡ size b)
  unfolding push
  push-Holds b xs x v =
      let moved : (if ltb (size b) (b.head - b.tail) then b.tail + 1 else b.tail)
          ≡ (b.head + 1) - (size b + 1) =
        ground (arith, v.window) in
      let some_room : (size b == 0) ≡ false = ground (arith, v.sized) in
      (rw some_room, rw moved (pushed-Holds b xs x v), length-set b.buf (b.head % size b) (some x))
