-- ===== src/Buffer/Tests.antt =====
-- The test cases of buffer.rs on small sizes, and the theorems at concrete inputs.
use streamsync.Base.{ℕ, ◌≡◌, refl, arith, some, List, [], ◌∷◌}
use streamsync.Buffer.{Buffer, absent, found, new, push, push_at, get, extend, clear, len}
use streamsync.Buffer.Window.{extend-get, extend-get_stale}

abbrev six : List ℕ
six = 10 ∷ 11 ∷ 12 ∷ 13 ∷ 14 ∷ 15 ∷ []

abbrev filled : Buffer ℕ
filled = record { buf = some 14 ∷ some 15 ∷ some 12 ∷ some 13 ∷ []; head = 6; tail = 1 }

extend_runs : extend (new 4) six ≡ some filled
unfolding extend push push_at new
extend_runs = refl

get_reads : (get filled 0 ≡ absent) × (get filled 5 ≡ found 15) × (get filled 6 ≡ absent)
unfolding get
get_reads = (refl, refl, refl)

clear_drops :
    ((clear filled).dropped ≡ found 14 ∷ found 15 ∷ found 12 ∷ found 13 ∷ []) × (len filled ≡ 4)
unfolding clear len
clear_drops = (refl, refl)

extend-get_example : (c : Buffer ℕ) × (extend (new 4) six ≡ some c) × (get c 3 ≡ found 13)
extend-get_example = extend-get 4 3 six 13 (omega arith) refl (omega arith)

extend-get_stale_example : (c : Buffer ℕ) × (extend (new 4) six ≡ some c) × (get c 1 ≡ found 15)
extend-get_stale_example = extend-get_stale 4 1 six 15 (omega arith) refl refl
