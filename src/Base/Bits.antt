-- ===== src/Base/Bits.antt =====
-- `&` with a mask of adjacent ones, as arithmetic at every width.
use Prim.Native.Nat.{
  ℕ, zero, suc, ◌+◌, ◌-◌, ◌*◌, ◌/◌, ◌%◌, ◌^◌, ◌≤◌, ◌<◌, min, bit_and, digits, bit_and-bitwise,
}
use mathlib.Core.Path.{◌≡◌, refl, sym, ap, ◌∙◌}
use native.Mathlib.Nat.{pow-suc, one-le-pow, div-add-mod, mod-lt, mul-add-mod_self_left}
use native.Mathlib.Nat.{
  mul-le-mul_left, mod-eq_of_lt, mul_comm, mul-one, add-zero, pow-le-pow_right, div-one,
  div-div-eq-div-mul,
}
use native.Mathlib.Omega.{arith}

-- What the native `bit_and` stands for: a recursion on the binary digits of the first number, with
-- fuel `n`.
abbrev meet : ℕ → ℕ → ℕ → ℕ
meet n x y = digits (λ _. 0) min n x y

meet_nothing : (n y : ℕ) → meet n 0 y ≡ 0
meet_nothing zero y = refl
meet_nothing (suc n) y = refl

-- Fuel beyond the first number changes nothing.
meet_more : (spare n x y : ℕ) → x ≤ n → meet (spare + n) x y ≡ meet n x y
meet_more spare n zero y le = rw (meet_nothing (spare + n) y, meet_nothing n y)
meet_more spare zero (suc x) y le = absurd (omega arith)
meet_more spare (suc n) (suc x) y le =
    let shift : spare + suc n ≡ suc (spare + n) = omega arith in
    rw shift (
      ap (λ (t : ℕ). t * 2 + min (suc x % 2) (y % 2))
        (meet_more spare n (suc x / 2) (y / 2) (omega arith)))

meet_none : (n x : ℕ) → meet n x 0 ≡ 0
meet_none n zero = meet_nothing n 0
meet_none zero (suc x) = refl
meet_none (suc n) (suc x) = omega (arith, meet_none n (suc x / 2))

pub bit_and-zero : (x : ℕ) → bit_and x 0 ≡ 0
bit_and-zero x = bit_and-bitwise x 0 ∙ meet_none x x

-- One digit of the recursion.
bit_and_digit : (x y : ℕ) → bit_and x y ≡ bit_and (x / 2) (y / 2) * 2 + min (x % 2) (y % 2)
bit_and_digit zero y = omega (arith, bit_and-bitwise 0 y, bit_and-bitwise 0 (y / 2))
bit_and_digit (suc x) y =
    let half = suc x / 2 in
    let enough : x - half + half ≡ x = omega arith in
    let fuel : meet x half (y / 2) ≡ meet half half (y / 2) =
      ap (λ (n : ℕ). meet n half (y / 2)) (sym enough)
      ∙ meet_more (x - half) half half (y / 2) (omega arith) in
    bit_and-bitwise (suc x) y
    ∙ ap (λ (t : ℕ). t * 2 + min (suc x % 2) (y % 2)) (fuel ∙ sym (bit_and-bitwise half (y / 2)))

-- Division with remainder by a product, in two steps.
pub mod-mul : (a p q : ℕ) → 0 < p → 0 < q → a % (p * q) ≡ p * (a / p % q) + a % p
mod-mul a p q hp hq =
    let low = p * (a / p % q) + a % p in
    let parts : a ≡ p * q * (a / p / q) + low =
      omega (arith, div-add-mod a p, ap (λ (t : ℕ). p * t) (div-add-mod (a / p) q)) in
    let small : low < p * q = omega (arith, mod-lt a hp, mul-le-mul_left p (mod-lt (a / p) hq)) in
    ap (λ t. t % (p * q)) parts ∙ mul-add-mod_self_left (p * q) (a / p / q) low ∙ mod-eq_of_lt small

-- A mask of `k` low ones is the remainder by `2 ^ k`.
pub bit_and_mask : (k a : ℕ) → bit_and a (2 ^ k - 1) ≡ a % 2 ^ k
bit_and_mask zero a = omega (arith, bit_and-zero a)
bit_and_mask (suc k) a =
    let half : (2 ^ suc k - 1) / 2 ≡ 2 ^ k - 1 =
      omega (arith, pow-suc 2 k, one-le-pow k 2 (omega arith)) in
    let odd : (2 ^ suc k - 1) % 2 ≡ 1 = omega (arith, pow-suc 2 k, one-le-pow k 2 (omega arith)) in
    let split : a % 2 ^ suc k ≡ 2 * (a / 2 % 2 ^ k) + a % 2 = rw (pow-suc 2 k) (
      rw (mul_comm (2 ^ k) 2) (mod-mul a 2 (2 ^ k) (omega arith) (one-le-pow k 2 (omega arith)))) in
    omega (
      arith,
      bit_and_digit a (2 ^ suc k - 1),
      ap (λ t. bit_and (a / 2) t) half,
      bit_and_mask k (a / 2),
      odd,
      split,
    )

double_shift : (k m : ℕ) → m * 2 ^ suc k ≡ m * 2 ^ k + m * 2 ^ k
double_shift k m =
    ap (λ (power : ℕ). m * power) (pow-suc 2 k)
    ∙ (let spread : m * (2 ^ k * 2) ≡ m * 2 ^ k + m * 2 ^ k = omega arith in spread)

-- A mask moved up by `s` places selects the bits above the lowest `s`.
bit_and_shift : (s a m : ℕ) → bit_and a (m * 2 ^ s) ≡ bit_and (a / 2 ^ s) m * 2 ^ s
bit_and_shift zero a m = rw (mul-one, div-one, mul-one)
bit_and_shift (suc s) a m =
    let deeper : a / 2 ^ suc s ≡ a / 2 / 2 ^ s =
      rw (pow-suc 2 s, mul_comm (2 ^ s) 2) (sym (div-div-eq-div-mul a 2 (2 ^ s))) in
    let half : m * 2 ^ suc s / 2 ≡ m * 2 ^ s = omega (arith, double_shift s m) in
    rw deeper (
      omega (
        arith,
        bit_and_digit a (m * 2 ^ suc s),
        ap (λ t. bit_and (a / 2) t) half,
        bit_and_shift s (a / 2) m,
        double_shift s m,
        double_shift s (bit_and (a / 2 / 2 ^ s) m),
      ))

-- A mask of `n` ones above the lowest `s` bits.
pub bit_and_field : (n s a : ℕ) → bit_and a ((2 ^ n - 1) * 2 ^ s) ≡ a / 2 ^ s % 2 ^ n * 2 ^ s
bit_and_field n s a = rw (bit_and_shift s a (2 ^ n - 1), bit_and_mask n (a / 2 ^ s))

pub two-pow-add : (a b : ℕ) → 2 ^ (a + b) ≡ 2 ^ a * 2 ^ b
two-pow-add a zero = rw (add-zero, mul-one)
two-pow-add a (suc b) = omega (
  arith,
  pow-suc 2 b,
  pow-suc 2 (a + b),
  two-pow-add a b,
  ap (λ (t : ℕ). 2 ^ t) (let e : a + suc b ≡ suc (a + b) = omega arith in e),
  ap (λ (t : ℕ). 2 ^ a * t) (pow-suc 2 b),
)

-- A word of `n` bits lies below 2 ^ 31.
pub two-pow-le : (n : ℕ) → n ≤ 31 → 2 ^ n ≤ 2 ^ 31
two-pow-le n h = pow-le-pow_right (omega arith) h
