-- ===== src/Metrics/Interleaving.antt =====
-- The value of a gauge after the changes of several threads, in whatever order they come.
use streamsync.Base.{ℕ, ◌+◌, ◌-◌, ◌%◌, ◌^◌, ◌<◌, ◌≤◌, ◌≡◌, refl, arith, ◌∙◌, List, [], ◌∷◌, ◌++◌}
use streamsync.Metrics.{Change, add, inc, sub, dec, set, change, fetch_add, fetch_sub, run}

-- How far the changes raise a gauge.
abbrev pub ups : List Change → ℕ
ups [] = 0
ups (add n ∷ cs) = n + ups cs
ups (inc ∷ cs) = 1 + ups cs
ups (_ ∷ cs) = ups cs

-- How far they lower it.
abbrev pub downs : List Change → ℕ
downs [] = 0
downs (sub n ∷ cs) = n + downs cs
downs (dec ∷ cs) = 1 + downs cs
downs (_ ∷ cs) = downs cs

-- None of them is a `set`.
abbrev pub IsRelative : List Change → Type 0
IsRelative [] = Unit {0}
IsRelative (set _ ∷ cs) = ⊥
IsRelative (_ ∷ cs) = IsRelative cs

run-net :
    (cs : List Change) (g : ℕ)
    → IsRelative cs
    → g < 2 ^ 64
    → (run cs g < 2 ^ 64) × ((run cs g + downs cs) % 2 ^ 64 ≡ (g + ups cs) % 2 ^ 64)
unfolding run fetch_add fetch_sub
run-net [] g r h = (h, refl)
run-net (add n ∷ cs) g r h =
    let (fits, net) = run-net cs (change (add n) g) r (omega arith) in (fits, omega (arith, net))
run-net (inc ∷ cs) g r h =
    let (fits, net) = run-net cs (change inc g) r (omega arith) in (fits, omega (arith, net))
run-net (sub n ∷ cs) g r h =
    let (fits, net) = run-net cs (change (sub n) g) r (omega arith) in (fits, omega (arith, net))
run-net (dec ∷ cs) g r h =
    let (fits, net) = run-net cs (change dec g) r (omega arith) in (fits, omega (arith, net))
run-net (set n ∷ cs) g r h = absurd r

run-append : (cs ds : List Change) (g : ℕ) → run (cs ++ ds) g ≡ run ds (run cs g)
unfolding run
run-append [] ds g = refl
run-append (c ∷ cs) ds g = run-append cs ds (change c g)

-- A gauge is set to a word `v`, after any changes, and then goes up and down by changes that are no
-- `set`, in any order, such as those of several threads that take turns. When `v` and what they add
-- is at least what they subtract, and the difference is a word, then the gauge is this difference,
-- also where it wraps below 0 or above the range in between.
pub run-set :
    (cs ds : List Change) (g v : ℕ)
    → IsRelative ds
    → v < 2 ^ 64
    → downs ds ≤ v + ups ds
    → v + ups ds - downs ds < 2 ^ 64
    → run (cs ++ (set v ∷ ds)) g ≡ v + ups ds - downs ds
unfolding run
run-set cs ds g v r word low high =
    let (fits, net) = run-net ds v r word in
    run-append cs (set v ∷ ds) g ∙ omega (arith, fits, net, low, high)
