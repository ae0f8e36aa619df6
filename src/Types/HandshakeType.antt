-- ===== src/Types/HandshakeType.antt =====
-- `HandshakeType`: a newtype of a `u32`, here the number itself.
use streamsync.Base.{
  ℕ, ◌≡◌, Bool, ◌&&◌, Option, none, some, List, [], ◌∷◌, leb, ◌==◌, if◌then◌else◌, arith,
}

abbrev pub done : ℕ
done = 0xFFFFFFFD

abbrev pub agreement : ℕ
agreement = 0xFFFFFFFE

abbrev pub conclusion : ℕ
conclusion = 0xFFFFFFFF

abbrev pub wavehand : ℕ
wavehand = 0x00000000

abbrev pub induction : ℕ
induction = 0x00000001

abbrev pub rej_unknown : ℕ
rej_unknown = 1000

abbrev pub rej_rogue : ℕ
rej_rogue = 1004

abbrev pub rej_badsecret : ℕ
rej_badsecret = 1010

abbrev pub rej_group : ℕ
rej_group = 1015

-- The constants in the order of the guards of `from_u32`; the rejections run from 1000 to 1015.
abbrev pub codes : List ℕ
codes =
    done ∷ agreement ∷ conclusion ∷ wavehand ∷ induction ∷ rej_unknown ∷ 1001 ∷ 1002 ∷ 1003
    ∷ rej_rogue ∷ 1005 ∷ 1006 ∷ 1007 ∷ 1008 ∷ 1009 ∷ rej_badsecret ∷ 1011 ∷ 1012 ∷ 1013 ∷ 1014
    ∷ rej_group ∷ []

-- The guards `n if n == X => Some(X)`, in order.
pub first_match : ℕ → List ℕ → Option ℕ
first_match n [] = none
first_match n (x ∷ xs) = if n == x then some x else first_match n xs

unfoldable pub from_u32 : ℕ → Option ℕ
unfolding first_match
from_u32 n = first_match n codes

pub is_rejection : ℕ → Bool
is_rejection t = leb rej_unknown t && leb t rej_group

first_match-eq : (n m : ℕ) (xs : List ℕ) → first_match n xs ≡ some m → m ≡ n
unfolding first_match
first_match-eq n m [] h = cc
first_match-eq n m (x ∷ xs) h = ground (arith, first_match-eq n m xs)

-- A number that is read as a handshake type is read as itself.
pub from_u32-eq : (n m : ℕ) → from_u32 n ≡ some m → m ≡ n
from_u32-eq n m h = first_match-eq n m codes (unfold from_u32 in h)
