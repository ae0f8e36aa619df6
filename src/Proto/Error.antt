-- ===== src/Proto/Error.antt =====
-- `Error` of stsync-proxy/src/srt/mod.rs, and what a call of fallible code comes to.
use streamsync.Base.{ℕ}

-- The kinds of `std::io::Error` that the code tells apart.
pub data ErrorKind : Type 0 where
  unexpected_eof other : ErrorKind

pub data Error : Type 0 where
  io : ErrorKind → Error
  invalid_packet_type : ℕ → Error
  invalid_handshake_type : ℕ → Error
  invalid_control_type : ℕ → Error
  invalid_extension_type : ℕ → Error
  invalid_encryption_field : ℕ → Error
  from_utf8_error : Error
  unsupported_extension : ℕ → Error

-- `panicked` is an unwinding panic: a failed `assert!`, `unwrap` on `None`, `unreachable!`.
pub data Result {ℓ} (A : Type ℓ) : Type ℓ where
  ok : A → Result A
  err : Error → Result A
  panicked : Result A

infixl 5 ◌>>=◌
abbrev pub ◌>>=◌ {ℓ κ} : {X : Type ℓ} {Y : Type κ} → Result X → (X → Result Y) → Result Y
panicked >>= next = panicked
ok x >>= next = next x
err fault >>= next = err fault

-- What holds of the result, when there is one.
abbrev pub OnOk : {A : Type 0} → (A → Type 0) → Result A → Type 0
OnOk P (ok a) = P a
OnOk P (err _) = Unit {0}
OnOk P panicked = Unit {0}

pub on_bind :
    {A B : Type 0} (P : A → Type 0) (Q : B → Type 0) (m : Result A) (f : A → Result B)
    → OnOk P m
    → ((a : A) → P a → OnOk Q (f a))
    → OnOk Q (m >>= f)
on_bind P Q (ok a) f h k = k a h
on_bind P Q (err _) f h k = tt
on_bind P Q panicked f h k = tt

pub on_weaken :
    {A : Type 0} (P Q : A → Type 0) (m : Result A) → ((a : A) → P a → Q a) → OnOk P m → OnOk Q m
on_weaken P Q (ok a) f h = f a h
on_weaken P Q (err _) f h = tt
on_weaken P Q panicked f h = tt

pub any_result : {A : Type 0} (m : Result A) → OnOk (λ _. Unit {0}) m
any_result (ok a) = tt
any_result (err _) = tt
any_result panicked = tt
