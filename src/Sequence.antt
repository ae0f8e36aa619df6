-- ===== src/Sequence.antt =====
-- stsync-proxy/src/srt/utils/sequence.rs and message.rs: serial numbers of 31 and 26 bits. The
-- newtypes are the numbers inside.
pub mod Laws
use streamsync.Base.{ℕ, ◌-◌, ◌^◌, Bool, Ordering, leb, if◌then◌else◌}
use streamsync.Proto.Error.{Result, ok, panicked}
use streamsync.Serial

abbrev pub sequence_bits : ℕ
sequence_bits = 31

abbrev pub message_bits : ℕ
message_bits = 26

-- `Sequence::new` and `MessageNumber::new`, with their `assert!`.
unfoldable pub new_sequence : ℕ → Result ℕ
new_sequence seq = if leb seq (2 ^ sequence_bits - 1) then ok seq else panicked

pub new_message : ℕ → Result ℕ
new_message num = if leb num (2 ^ message_bits - 1) then ok num else panicked

-- `+` and `+=`.
abbrev pub add_sequence : ℕ → ℕ → ℕ
add_sequence s n = Serial.add sequence_bits s n

abbrev pub sub_sequence : ℕ → ℕ → ℕ
sub_sequence s t = Serial.sub sequence_bits s t

abbrev pub cmp_sequence : ℕ → ℕ → Ordering
cmp_sequence s t = Serial.cmp sequence_bits s t

abbrev pub add_message : ℕ → ℕ → ℕ
add_message m n = Serial.add message_bits m n

-- `<` and `>` of `PartialOrd`.
abbrev pub is_lt : Ordering → Bool
is_lt o = elim o [ Ordering.lt ↦ Bool.true | _ ↦ Bool.false ]

abbrev pub is_gt : Ordering → Bool
is_gt o = elim o [ Ordering.gt ↦ Bool.true | _ ↦ Bool.false ]
