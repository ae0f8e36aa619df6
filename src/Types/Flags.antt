-- ===== src/Types/Flags.antt =====
-- `ExtensionField` (a `u16`) and `HandshakeExtensionFlags` (a `u32`), and their bit tests.
use streamsync.Base.{ℕ, Bool, not, bit_and, ◌==◌}

abbrev pub none_field : ℕ
none_field = 0

-- The value of the INDUCTION phase, and the magic of its response.
abbrev pub induction_field : ℕ
induction_field = 2

abbrev pub srt_magic : ℕ
srt_magic = 0x4A17

abbrev pub hsreq_field : ℕ
hsreq_field = 1

abbrev pub has_bit : ℕ → ℕ → Bool
has_bit x m = not (bit_and x m == 0)

unfoldable pub has_hsreq : ℕ → Bool
has_hsreq f = has_bit f 1

pub has_kmreq : ℕ → Bool
has_kmreq f = has_bit f 2

unfoldable pub has_config : ℕ → Bool
has_config f = has_bit f 4

unfoldable pub has_crypt : ℕ → Bool
has_crypt f = has_bit f 4

unfoldable pub has_rexmitflg : ℕ → Bool
has_rexmitflg f = has_bit f 32

unfoldable pub has_stream : ℕ → Bool
has_stream f = has_bit f 64
