-- ===== src/Serial/Order.antt =====
-- The comparison of RFC 1982 that the source computes, and what it is not.
use native.Mathlib.Nat.{pow-suc, one-le-pow, mod-eq_of_lt, mod-eq-sub-mod, pow-le-pow_right}
use native.Mathlib.Decide.{dec_le}
use streamsync.Base.{
  ℕ, zero, suc, ◌+◌, ◌-◌, ◌%◌, ◌^◌, ◌≤◌, ◌<◌, ◌≡◌, ◌≢◌, ◌⊎◌, ◌↔◌, ◌∙◌, arith, Ordering,
}
use streamsync.Base.Bits.{two-pow-le}
use streamsync.Serial.{add, cmp}
use streamsync.Serial.Laws.{add-eq-mod}

-- The half range `2 ^ (n - 1)` and the words, as linear facts.
half_range :
    (n : ℕ)
    → 1 ≤ n
    → n ≤ 32
    → (2 ^ n ≡ 2 ^ (n - 1) + 2 ^ (n - 1)) × (2 ^ n ≤ 2 ^ 32) × (1 ≤ 2 ^ (n - 1))
half_range zero h k = absurd (omega arith)
half_range (suc n) h k =
    let e : suc n - 1 ≡ n = omega arith in
    rw e
      (omega (arith, pow-suc 2 n), pow-le-pow_right (omega arith) k, one-le-pow n 2 (omega arith))

-- On 1 to 31 bits, a number in range is before every number that it reaches in 1 to 2 ^ (n - 1) - 1 steps, also across the
-- wrap.
pub cmp-add :
    (n a d : ℕ)
    → 1 ≤ n
    → n ≤ 31
    → a < 2 ^ n
    → 0 < d
    → d < 2 ^ (n - 1)
    → (cmp n a (add n a d) ≡ Ordering.lt) × (cmp n (add n a d) a ≡ Ordering.gt)
unfolding cmp
cmp-add n a d one h p pos q = rw (add-eq-mod n a d h) (elim (dec_le (2 ^ n) (a + d)) [
  | yes over ↦
      let wraps : (a + d) % 2 ^ n ≡ a + d - 2 ^ n =
        mod-eq-sub-mod over ∙ mod-eq_of_lt (omega (arith, half_range n one (omega arith))) in
      rw wraps (ground (arith, half_range n one (omega arith), two-pow-le n h))
  | no under ↦
      let stays : (a + d) % 2 ^ n ≡ a + d = mod-eq_of_lt (omega arith) in
      rw stays (ground (arith, half_range n one (omega arith), two-pow-le n h))
])

-- On 1 to 32 bits, two different numbers in range are ordered one way round, unless they lie exactly half the range
-- apart: then each is after the other.
pub cmp_antisym :
    (n a b : ℕ)
    → 1 ≤ n
    → n ≤ 32
    → a < 2 ^ n
    → b < 2 ^ n
    → a ≢ b
    → a + 2 ^ (n - 1) ≢ b
    → b + 2 ^ (n - 1) ≢ a
    → ((cmp n a b ≡ Ordering.lt) × (cmp n b a ≡ Ordering.gt))
      ⊎ ((cmp n a b ≡ Ordering.gt) × (cmp n b a ≡ Ordering.lt))
unfolding cmp
cmp_antisym n a b one h p q ne far far' = ground (arith, half_range n one h)

-- On 1 to 32 bits, of two numbers exactly half the range apart, each is after the other.
pub cmp_half :
    (n a : ℕ)
    → 1 ≤ n
    → n ≤ 32
    → a + 2 ^ (n - 1) < 2 ^ n
    → (cmp n a (a + 2 ^ (n - 1)) ≡ Ordering.gt) × (cmp n (a + 2 ^ (n - 1)) a ≡ Ordering.gt)
unfolding cmp
cmp_half n a one h p = ground (arith, half_range n one h)

-- The comparison says `Equal` of equal numbers only.
pub cmp-eq_iff : (n a b : ℕ) → (cmp n a b ≡ Ordering.eq) ↔ (a ≡ b)
unfolding cmp
cmp-eq_iff n a b = ground arith

-- Within half the range the comparison is that of the numbers.
pub cmp_near :
    (n a b : ℕ)
    → a < b
    → b < a + 2 ^ (n - 1)
    → b < 2 ^ 32
    → (cmp n a b ≡ Ordering.lt) × (cmp n b a ≡ Ordering.gt)
unfolding cmp
cmp_near n a b h near fits = ground arith
