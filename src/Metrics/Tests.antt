-- ===== src/Metrics/Tests.antt =====
-- A gauge under two threads.
use streamsync.Base.{◌≡◌, refl, [], ◌∷◌, arith}
use streamsync.Metrics.{inc, sub, dec, set, run, fetch_add, fetch_sub}
use streamsync.Metrics.Interleaving.{run-set}

-- A gauge that goes below 0 comes back.
below_run : run (dec ∷ inc ∷ []) 0 ≡ 0
unfolding run fetch_add fetch_sub
below_run = refl

run-set_example : run (inc ∷ set 2 ∷ sub 3 ∷ inc ∷ dec ∷ inc ∷ []) 7 ≡ 0
run-set_example =
    run-set (inc ∷ []) (sub 3 ∷ inc ∷ dec ∷ inc ∷ []) 7 2 tt (omega arith) (omega arith)
      (omega arith)
