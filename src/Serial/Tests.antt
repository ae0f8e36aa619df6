-- ===== src/Serial/Tests.antt =====
-- The theorems on serial numbers at numbers next to the wrap.
use streamsync.Base.{ℕ, ◌-◌, ◌^◌, ◌≡◌, Ordering, arith}
use streamsync.Serial.{add, sub, cmp}
use streamsync.Serial.Laws.{sub-add}
use streamsync.Serial.Order.{cmp-add}

abbrev newest : ℕ
newest = 2 ^ 31 - 1

sub-add_example : sub 31 (add 31 newest 3) newest ≡ 3
sub-add_example = sub-add 31 newest 3 (omega arith) (omega arith) (omega arith)

cmp-add_example :
    (cmp 31 newest (add 31 newest 3) ≡ Ordering.lt)
    × (cmp 31 (add 31 newest 3) newest ≡ Ordering.gt)
cmp-add_example =
    cmp-add 31 newest 3 (omega arith) (omega arith) (omega arith) (omega arith) (omega arith)
