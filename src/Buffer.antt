-- ===== src/Buffer.antt =====
-- stsync-proxy/src/srt/buffer.rs: the ring buffer of sent segments.
-- `head` and `tail` count pushes; 2 ^ 64 pushes, where a `usize` would wrap, are out of reach.
pub mod Slots
pub mod Window
mod Tests
use streamsync.Base.{
  ℕ, ◌+◌, ◌-◌, ◌%◌, Bool, ◌||◌, Option, none, some, List, [], ◌∷◌, ltb, leb, ◌==◌, if◌then◌else◌,
  map, length, get_elem?, set, take, replicate,
}

-- A slot of the boxed slice: `none` is `MaybeUninit::uninit()`.
abbrev pub Slot {ℓ} : Type ℓ → Type ℓ
Slot A = Option A

pub record Buffer {ℓ} (A : Type ℓ) : Type ℓ where
  pub buf : List (Slot A)
  pub head : ℕ
  pub tail : ℕ

-- What an access to the slice gives: no element, an element, or undefined behaviour (a slot out of
-- range, or one that is not initialized).
pub data Access {ℓ} (A : Type ℓ) : Type ℓ where
  absent : Access A
  found : A → Access A
  undefined : Access A

-- The buffer after a call, with the values whose destructor has run, an access for each.
pub record Change {ℓ} (A : Type ℓ) : Type ℓ where
  pub buffer : Buffer A
  pub dropped : List (Access A)

module _ {ℓ} {A : Type ℓ} where
  pub new : ℕ → Buffer A
  new size = record { buf = replicate size none; head = 0; tail = 0 }

  abbrev pub size : Buffer A → ℕ
  size b = length b.buf

  pub len : Buffer A → ℕ
  len b = if ltb b.head (size b) then b.head else size b

  pub is_empty : Buffer A → Bool
  unfolding len
  is_empty b = len b == 0

  -- A slot taken for initialized.
  abbrev pub assume_init : Option (Slot A) → Access A
  assume_init none = undefined
  assume_init (some none) = undefined
  assume_init (some (some a)) = found a

  -- `assume_init_drop` of the first `n` slots.
  pub drop_slots : ℕ → List (Slot A) → List (Access A)
  drop_slots n buf = map (λ s. assume_init (some s)) (take n buf)

  -- The slots keep their bytes, which count as uninitialized once the value is dropped.
  pub clear : Buffer A → Change A
  unfolding drop_slots
  clear b =
      let n = if leb b.head (size b) then b.head else size b in
      record {
        buffer = record { buf = replicate (size b) none; head = 0; tail = 0 };
        dropped = drop_slots n b.buf;
      }

  -- The body of `push`, at a position that is in range.
  pub push_at : ℕ → Buffer A → A → Change A
  push_at pos b item = record {
    buffer = record {
      buf = set b.buf pos (some item);
      head = b.head + 1;
      tail = if ltb (size b) (b.head - b.tail) then b.tail + 1 else b.tail;
    };
    dropped = if ltb (size b) b.head then assume_init (get_elem? b.buf pos) ∷ [] else [];
  }

  -- `none` is the panic of `%` by zero, on a buffer of size 0.
  pub push : Buffer A → A → Option (Change A)
  unfolding push_at
  push b item = if size b == 0 then none else some (push_at (b.head % size b) b item)

  pub get : Buffer A → ℕ → Access A
  get b index =
      if leb b.head index || ltb index b.tail
      then absent
      else assume_init (get_elem? b.buf (index % size b))

  -- The values that the pushes drop are not kept here.
  pub extend : Buffer A → List A → Option (Buffer A)
  extend b [] = some b
  extend b (x ∷ xs) = elim (push b x) [ none ↦ none | some c ↦ extend c.buffer xs ]
