-- ===== src/Session/Id/RoundTrip.antt =====
-- The text of an id, read back.
use native.Mathlib.Nat.{pow-suc}
use streamsync.Base.{
  ℕ, zero, suc, ◌+◌, ◌*◌, ◌/◌, ◌%◌, ◌^◌, ◌<◌, ◌≤◌, ◌≡◌, refl, sym, ◌∙◌, ap, arith, false, some,
  List, [], ◌∷◌, ltb, lt→ltb, Bool-cases, inl, inr, ◌==◌,
}
use streamsync.Session.Id.{hex_char, hex_digit, hex_digits, from_digits, display_id, parse_id}

hex_digit-char : (d : ℕ) → d < 16 → hex_digit (hex_char d) ≡ some d
hex_digit-char d h = ground arith

from_digits-char :
    (acc d : ℕ) (s : List ℕ)
    → d < 16
    → acc * 16 + d < 2 ^ 64
    → from_digits acc (hex_char d ∷ s) ≡ from_digits (acc * 16 + d) s
unfolding from_digits
from_digits-char acc d s h fits =
    rw (hex_digit-char d h, from_digits, lt→ltb (acc * 16 + d) (2 ^ 64) fits) refl

from_digits-hex_digits :
    (k n : ℕ) (s : List ℕ)
    → n < 16 ^ k
    → n < 2 ^ 64
    → from_digits 0 (hex_digits k n s) ≡ from_digits n s
unfolding hex_digits
from_digits-hex_digits zero n s few fits = let e : 0 ≡ n = omega arith in rw (← e) refl
from_digits-hex_digits (suc k) n s few fits = elim (Bool-cases (ltb n 16)) [
  | inl small ↦
      let whole : 0 * 16 + n ≡ n = omega arith in
      rw small (
        from_digits-char 0 n s (ground arith) (omega (arith, fits))
        ∙ ap (λ (m : ℕ). from_digits m s) whole)
  | inr large ↦
      let whole : n / 16 * 16 + n % 16 ≡ n = omega arith in
      rw large (
        from_digits-hex_digits k (n / 16) (hex_char (n % 16) ∷ s) (omega (arith, few, pow-suc 16 k))
          (omega arith)
        ∙ from_digits-char (n / 16) (n % 16) s (omega arith) (omega arith)
        ∙ ap (λ (m : ℕ). from_digits m s) whole)
]

-- The text begins with a digit.
hex_digits_head :
    (k n c : ℕ) (s : List ℕ)
    → 48 ≤ c
    → (c' : ℕ) × (t : List ℕ) × (hex_digits k n (c ∷ s) ≡ c' ∷ t) × (48 ≤ c')
unfolding hex_digits
hex_digits_head zero n c s h = (c, s, refl, h)
hex_digits_head (suc k) n c s h = elim (Bool-cases (ltb n 16)) [
  | inl small ↦ (hex_char n, c ∷ s, rw small refl, ground arith)
  | inr large ↦ rw large (hex_digits_head k (n / 16) (hex_char (n % 16)) (c ∷ s) (ground arith))
]

display_id_head : (n : ℕ) → (c' : ℕ) × (t : List ℕ) × (display_id n ≡ c' ∷ t) × (48 ≤ c')
unfolding display_id hex_digits
display_id_head n = elim (Bool-cases (ltb n 16)) [
  | inl small ↦ (hex_char n, [], rw small refl, ground arith)
  | inr large ↦ rw large (hex_digits_head 15 (n / 16) (hex_char (n % 16)) [] (ground arith))
]

parse_digits : (c : ℕ) (t : List ℕ) → 48 ≤ c → parse_id (c ∷ t) ≡ from_digits 0 (c ∷ t)
unfolding parse_id
parse_digits c t h = let digit : (c == 43) ≡ false = ground arith in rw digit refl

-- Every id of 64 bits is read back from the text that is written of it.
pub parse-display_id : (n : ℕ) → n < 2 ^ 64 → parse_id (display_id n) ≡ some n
unfolding display_id from_digits
parse-display_id n h =
    let (c, t, e, digit) = display_id_head n in
    ap parse_id e
    ∙ parse_digits c t digit
    ∙ ap (from_digits 0) (sym e)
    ∙ from_digits-hex_digits 16 n [] h h
