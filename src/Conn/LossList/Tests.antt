-- ===== src/Conn/LossList/Tests.antt =====
-- The theorems on loss lists at concrete lists, with a search that scans the slice.
use streamsync.Base.{◌+◌, ◌≡◌, some, [], ◌∷◌, length, arith}
use streamsync.Conn.LossList.{LossList, extend_range, remove, remove_at}
use streamsync.Conn.LossList.Linear.{linear}
use streamsync.Conn.LossList.Recorded.{remove-extend_range}

abbrev two : LossList
two = record { sequence = 7; instant = 100 } ∷ record { sequence = 9; instant = 400 } ∷ []

remove-extend_range_example :
    remove linear (10 + 2) (extend_range 5 10 700 two)
    ≡ some (700, remove_at (length two + 2) (extend_range 5 10 700 two))
remove-extend_range_example =
    remove-extend_range linear 5 10 700 7 2 two (omega arith) (omega arith) (omega arith)
      (omega arith) (omega arith)
