-- ===== src/Proto/Tests.antt =====
-- The codec at concrete integers.
use streamsync.Base.{◌≡◌, refl, [], ◌∷◌}
use streamsync.Proto.{to_be_bytes, bits, set_bits}

to_be_bytes_runs : to_be_bytes 4 0x4A17_0102 ≡ 0x4A ∷ 0x17 ∷ 1 ∷ 2 ∷ []
unfolding to_be_bytes
to_be_bytes_runs = refl

-- The test of `Bits` in the source.
bits_run : (bits 0x8000_0000 0 1 ≡ 1) × (set_bits 0x8000_0000 0 1 0 ≡ 0)
unfolding bits set_bits
bits_run = (refl, refl)
