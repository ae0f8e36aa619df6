-- ===== src/Conn/Rtt.antt =====
-- `Rtt` of stsync-proxy/src/srt/conn.rs: the round trip estimate, in microseconds.
use streamsync.Base.{ℕ, ◌+◌, ◌-◌, ◌*◌, ◌/◌, ◌≡◌, refl, Bool, ltb, leb, if◌then◌else◌, u32}

pub record Rtt : Type 0 where
  pub rtt : ℕ
  pub rtt_variance : ℕ

abbrev pub new_rtt : Rtt
new_rtt = record { rtt = 100_000; rtt_variance = 50_000 }

-- `f32`: the casts from and to `u32`, the product with the quotient of two literals, and the sum.
pub record Float : Type 1 where
  pub F : Type 0
  pub from_u32 : ℕ → F
  pub scale : ℕ → ℕ → F → F
  pub add : F → F → F
  pub to_u32 : F → ℕ

-- `u32::abs_diff`.
abbrev abs_diff : ℕ → ℕ → ℕ
abs_diff a b = if leb a b then b - a else a - b

module _ (f : Float) where
  pub update : ℕ → Rtt → Rtt
  update new r = record {
    rtt = f.to_u32 (f.add (f.scale 7 8 (f.from_u32 r.rtt)) (f.scale 1 8 (f.from_u32 new)));
    rtt_variance = f.to_u32 (
        f.add (f.scale 3 4 (f.from_u32 r.rtt_variance))
          (f.scale 1 4 (f.from_u32 (abs_diff r.rtt new))));
  }

-- `latency` is a `Duration`, here in microseconds.
pub is_reachable : ℕ → Rtt → Bool
is_reachable n r = ltb r.rtt (u32 n)

-- Numbers in eighths, which are exact where the test of the source uses them.
abbrev pub eighths : Float
eighths = record {
  F = ℕ;
  from_u32 = λ n. n * 8;
  scale = λ p q x. x * p / q;
  add = λ x y. x + y;
  to_u32 = λ x. x / 8;
}

update_runs :
    (update eighths 100_000 new_rtt ≡ record { rtt = 100_000; rtt_variance = 37_500 })
    × (update eighths 0 new_rtt ≡ record { rtt = 87_500; rtt_variance = 62_500 })
unfolding update
update_runs = (refl, refl)
