-- ===== src/Session/Id.antt =====
-- `ResourceId` and `SessionId` of stsync-proxy/src/session.rs as text: `FromStr` and `Display`. Both
-- are `u64` in hexadecimal; a string is the list of its bytes.
pub mod RoundTrip
use streamsync.Base.{
  ℕ, zero, suc, ◌/◌, ◌%◌, ◌+◌, ◌-◌, ◌*◌, ◌^◌, Bool, ◌&&◌, Option, none, some, List, [], ◌∷◌, ltb,
  leb, ◌==◌, if◌then◌else◌,
}

abbrev between : ℕ → ℕ → ℕ → Bool
between lo hi b = leb lo b && leb b hi

-- `0` to `9`, `a` to `f` and `A` to `F`.
abbrev pub hex_digit : ℕ → Option ℕ
hex_digit b =
    if between 48 57 b
    then some (b - 48)
    else if between 97 102 b
    then some (b - 87)
    else if between 65 70 b
    then some (b - 55)
    else none

-- The digits after those of `acc`, within 64 bits.
unfoldable pub from_digits : ℕ → List ℕ → Option ℕ
from_digits acc [] = some acc
from_digits acc (b ∷ s) = elim (hex_digit b) [
  | none ↦ none
  | some d ↦
      let n = acc * 16 + d in let later = from_digits n s in if ltb n (2 ^ 64) then later else none
]

abbrev nonempty : List ℕ → Option ℕ
nonempty [] = none
nonempty (b ∷ s) = from_digits 0 (b ∷ s)

-- `u64::from_str_radix(s, 16)`: a sign `+` may stand in front.
unfoldable pub parse_id : List ℕ → Option ℕ
parse_id [] = none
parse_id (b ∷ s) = if b == 43 then nonempty s else nonempty (b ∷ s)

-- A digit of `{:x}`.
abbrev pub hex_char : ℕ → ℕ
hex_char d = if ltb d 10 then 48 + d else 87 + d

-- The digits of `n`, which has at most `k`, in front of `s`.
unfoldable pub hex_digits : ℕ → ℕ → List ℕ → List ℕ
hex_digits zero n s = s
hex_digits (suc k) n s =
    let more = hex_digits k (n / 16) (hex_char (n % 16) ∷ s) in
    if ltb n 16 then hex_char n ∷ s else more

-- `write!(f, "{:x}", self.0)`.
unfoldable pub display_id : ℕ → List ℕ
unfolding hex_digits
display_id n = hex_digits 16 n []
