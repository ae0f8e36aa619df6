-- ===== src/Sink/Contents.antt =====
-- What every operation of the output sink keeps.
use mathlib.Core.List.{Perm, Permᴰ}
use mathlib.Core.Logic.{∥∥₁_elim}
use mathlib.Core.HLevel.{hedberg}
use native.Mathlib.Decide.{ℕ_discrete}
use streamsync.Base.{ℕ, ◌+◌, ◌≡◌, ap, arith, List, [], ◌∷◌, length}
use streamsync.Sink.Queue.{Segment}

abbrev pub total : List Segment → ℕ
total [] = 0
total (s ∷ l) = length s.payload + total l

abbrev measure : List Segment → ℕ × ℕ
measure l = (length l, total l)

measure_permᴰ : {l l' : List Segment} → Permᴰ l l' → (length l ≡ length l') × (total l ≡ total l')
measure_permᴰ Permᴰ.nil = ground arith
measure_permᴰ (Permᴰ.cons e d) =
    let (p, q) = measure_permᴰ d in
    let same = ap (λ (s : Segment). length s.payload) e in
    (omega (arith, p), omega (arith, q, same))
measure_permᴰ (Permᴰ.swap e e') =
    let same = ap (λ (s : Segment). length s.payload) e in
    let same' = ap (λ (s : Segment). length s.payload) e' in
    (omega arith, omega (arith, same, same'))
measure_permᴰ (Permᴰ.trans d d') =
    let (p, q) = measure_permᴰ d in
    let (p', q') = measure_permᴰ d' in (omega (arith, p, p'), omega (arith, q, q'))

pub length-perm : {l l' : List Segment} → Perm l l' → length l ≡ length l'
length-perm p = ∥∥₁_elim p (hedberg ℕ_discrete _ _) (λ d. (measure_permᴰ d).0)

pub total-perm : {l l' : List Segment} → Perm l l' → total l ≡ total l'
total-perm p = ∥∥₁_elim p (hedberg ℕ_discrete _ _) (λ d. (measure_permᴰ d).1)
