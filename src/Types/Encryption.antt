-- ===== src/Types/Encryption.antt =====
-- `EncryptionField`: a newtype of a `u16`, here the number itself.
use streamsync.Base.{ℕ, ◌≡◌, Option, none, some, ◌==◌, if◌then◌else◌, arith}

abbrev pub no_encryption : ℕ
no_encryption = 0

abbrev pub aes128 : ℕ
aes128 = 1

abbrev pub aes192 : ℕ
aes192 = 2

abbrev pub aes256 : ℕ
aes256 = 4

unfoldable pub from_u16 : ℕ → Option ℕ
from_u16 n =
    if n == no_encryption
    then some no_encryption
    else if n == aes128
    then some aes128
    else if n == aes192
    then some aes192
    else if n == aes256
    then some aes256
    else none

pub from_u16-eq : (n m : ℕ) → from_u16 n ≡ some m → m ≡ n
unfolding from_u16
from_u16-eq n m h = ground arith
