-- ===== src/Types/ExtensionType.antt =====
-- `ExtensionType`: a newtype of a `u16`, here the number itself.
use streamsync.Base.{ℕ, ◌≡◌, Option, none, some, ◌==◌, if◌then◌else◌, arith}

abbrev pub hsreq : ℕ
hsreq = 1

abbrev pub hsrsp : ℕ
hsrsp = 2

abbrev pub kmreq : ℕ
kmreq = 3

abbrev pub kmrsp : ℕ
kmrsp = 4

abbrev pub sid : ℕ
sid = 5

abbrev pub congestion : ℕ
congestion = 6

abbrev pub filter : ℕ
filter = 7

abbrev pub group : ℕ
group = 8

unfoldable pub from_u16 : ℕ → Option ℕ
from_u16 n =
    if n == hsreq
    then some hsreq
    else if n == hsrsp
    then some hsrsp
    else if n == kmreq
    then some kmreq
    else if n == kmrsp
    then some kmrsp
    else if n == sid
    then some sid
    else if n == congestion
    then some congestion
    else if n == filter
    then some filter
    else if n == group
    then some group
    else none

pub from_u16-eq : (n m : ℕ) → from_u16 n ≡ some m → m ≡ n
unfolding from_u16
from_u16-eq n m h = ground arith
