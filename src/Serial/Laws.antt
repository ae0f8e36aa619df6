-- ===== src/Serial/Laws.antt =====
-- Serial addition and subtraction are addition and subtraction modulo `2 ^ n`.
use native.Mathlib.Nat.{one-le-pow, mod-lt, mul-add-mod_self_left, mod-eq_of_lt, mod-eq-sub-mod}
use native.Mathlib.Nat.{mod-add-mod, add-mod-mod, add-mod_right}
use native.Mathlib.Decide.{dec_le}
use streamsync.Base.{ℕ, ◌+◌, ◌-◌, ◌*◌, ◌%◌, ◌^◌, ◌≤◌, ◌<◌, ◌≡◌, ap, sym, ◌∙◌, arith}
use streamsync.Base.Bits.{bit_and_mask, two-pow-add, two-pow-le}
use streamsync.Serial.{add, sub}

-- On `n` ≤ 31 bits, serial addition is addition modulo 2 ^ n, for any two words.
pub add-eq-mod : (n a b : ℕ) → n ≤ 31 → add n a b ≡ (a + b) % 2 ^ n
unfolding add
add-eq-mod n a b h =
    let small : a % 2 ^ n + b % 2 ^ n < 2 ^ 32 = omega (
      arith,
      two-pow-le n h,
      mod-lt a (one-le-pow n 2 (omega arith)),
      mod-lt b (one-le-pow n 2 (omega arith)),
    ) in
    rw
      (
        bit_and_mask n a,
        bit_and_mask n b,
        mod-eq_of_lt small,
        bit_and_mask n (a % 2 ^ n + b % 2 ^ n),
      )
      (mod-add-mod a (2 ^ n) (b % 2 ^ n) ∙ add-mod-mod a b (2 ^ n))

-- A multiple of the modulus may be added before the remainder is taken.
mod-add-multiple : (n k c : ℕ) → 2 ^ n * 2 ^ k ≡ 2 ^ 32 → (2 ^ 32 + c) % 2 ^ n ≡ c % 2 ^ n
mod-add-multiple n k c e = rw (← e) (mul-add-mod_self_left (2 ^ n) (2 ^ k) c)

wrapped_difference :
    (n a b : ℕ)
    → n ≤ 31
    → a < 2 ^ n
    → b < 2 ^ n
    → (a + 2 ^ 32 - b) % 2 ^ 32 % 2 ^ n ≡ (a + 2 ^ n - b) % 2 ^ n
wrapped_difference n a b h p q = elim (dec_le b a) [
  | yes le ↦
      let near : (a + 2 ^ 32 - b) % 2 ^ 32 ≡ a - b = omega (arith, two-pow-le n h) in
      let far : a + 2 ^ n - b ≡ a - b + 2 ^ n = omega arith in
      rw (near, far) (sym (add-mod_right (a - b) (2 ^ n)))
  | no gt ↦
      let exponent : n + (32 - n) ≡ 32 = omega arith in
      let split : 2 ^ n * 2 ^ (32 - n) ≡ 2 ^ 32 =
        sym (two-pow-add n (32 - n)) ∙ ap (λ (t : ℕ). 2 ^ t) exponent in
      let near : (a + 2 ^ 32 - b) % 2 ^ 32 + 2 ^ n ≡ 2 ^ 32 + (a + 2 ^ n - b) =
        omega (arith, two-pow-le n h) in
      sym (add-mod_right _ (2 ^ n))
      ∙ ap (λ (t : ℕ). t % 2 ^ n) near
      ∙ mod-add-multiple n (32 - n) _ split
]

-- On `n` ≤ 31 bits, serial subtraction of two numbers in range is subtraction modulo 2 ^ n.
pub sub-eq-mod : (n a b : ℕ) → n ≤ 31 → a < 2 ^ n → b < 2 ^ n → sub n a b ≡ (a + 2 ^ n - b) % 2 ^ n
unfolding sub
sub-eq-mod n a b h p q =
    rw
      (
        bit_and_mask n a,
        bit_and_mask n b,
        mod-eq_of_lt p,
        mod-eq_of_lt q,
        bit_and_mask n ((a + 2 ^ 32 - b) % 2 ^ 32),
      )
      (wrapped_difference n a b h p q)

-- On `n` ≤ 31 bits, subtraction takes back what addition added, also across the wrap, for a start `a`
-- and a step `d` in range.
pub sub-add : (n a d : ℕ) → n ≤ 31 → a < 2 ^ n → d < 2 ^ n → sub n (add n a d) a ≡ d
sub-add n a d h p q = rw (add-eq-mod n a d h) (
    rw (sub-eq-mod n ((a + d) % 2 ^ n) a h (mod-lt (a + d) (one-le-pow n 2 (omega arith))) p)
      (elim (dec_le (2 ^ n) (a + d)) [
        | yes over ↦
            let wraps : (a + d) % 2 ^ n ≡ a + d - 2 ^ n =
              mod-eq-sub-mod over ∙ mod-eq_of_lt (omega arith) in
            let back : (a + d) % 2 ^ n + 2 ^ n - a ≡ d = omega (arith, wraps) in
            rw back (mod-eq_of_lt q)
        | no under ↦
            let stays : (a + d) % 2 ^ n ≡ a + d = mod-eq_of_lt (omega arith) in
            let back : (a + d) % 2 ^ n + 2 ^ n - a ≡ d + 2 ^ n = omega (arith, stays) in
            rw back (add-mod_right d (2 ^ n) ∙ mod-eq_of_lt q)
      ]))
