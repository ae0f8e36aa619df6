-- ===== src/Sink/Linear.antt =====
-- A list kept in the order of the segments: a heap that keeps to the documentation of `BinaryHeap`.
use mathlib.Core.List.{Mem, Perm, mem-cons_self, mem-cons_of_mem, Memᴰ}
use mathlib.Core.List.Perm
use mathlib.Core.Logic.{∥∥₁_elim}
use mathlib.Core.Path.{subst}
use native.Mathlib.Bridge.{le_prop}
use mathlib.Core.Option.{none-ne-some, some-injective}
use streamsync.Base.{
  ℕ, ◌≤◌, ◌≡◌, refl, sym, ap, arith, Option, none, some, List, [], ◌∷◌, length, compare, Ordering,
  Ordering-cases, ◌⊎◌, inl, inr,
}
use streamsync.Sink.Heap.{BinaryHeap, HeapLaws, Agrees}
use streamsync.Sink.Queue.{Segment, cmp}

pub record SortedList : Type 0 where
  pub items : List Segment
  pub room : ℕ

unfoldable pub insert : Segment → List Segment → List Segment
insert s [] = s ∷ []
insert s (t ∷ l) = elim (cmp s t) [ Ordering.gt ↦ t ∷ insert s l | _ ↦ s ∷ t ∷ l ]

abbrev pub uncons : List Segment → ℕ → Option (Segment × SortedList)
uncons [] room = none
uncons (s ∷ l) room = some (s, record { items = l; room = room })

abbrev pub front : List Segment → Option Segment
front [] = none
front (s ∷ l) = some s

abbrev pub sorted_list : BinaryHeap Segment SortedList
sorted_list = record {
  with_capacity = λ n. record { items = []; room = n };
  push = λ s h. record h { items = insert s h.items };
  peek = λ h. front h.items;
  pop = λ h. uncons h.items h.room;
  len = λ h. length h.items;
  capacity = λ h. h.room;
  clear = λ h. record h { items = [] };
}

abbrev pub IsAbove : (Segment → ℕ) → ℕ → List Segment → Type 0
IsAbove rank n [] = Unit {0}
IsAbove rank n (s ∷ l) = (n ≤ rank s) × IsAbove rank n l

abbrev pub IsRanked : (Segment → ℕ) → List Segment → Type 0
IsRanked rank [] = Unit {0}
IsRanked rank (s ∷ l) = IsAbove rank (rank s) l × IsRanked rank l

above_memᴰ :
    (rank : Segment → ℕ) (n : ℕ) (l : List Segment) (t : Segment)
    → IsAbove rank n l
    → Memᴰ t l
    → n ≤ rank t
above_memᴰ rank n [] t a m = elim m [ ]
above_memᴰ rank n (s ∷ l) t a (Memᴰ.head e) = omega (arith, a.0, ap rank e)
above_memᴰ rank n (s ∷ l) t a (Memᴰ.tail m) = above_memᴰ rank n l t a.1 m

pub above_mem :
    (rank : Segment → ℕ) (n : ℕ) (l : List Segment) (t : Segment)
    → IsAbove rank n l
    → Mem t l
    → n ≤ rank t
above_mem rank n l t a m = ∥∥₁_elim m le_prop (above_memᴰ rank n l t a)

weaken :
    (rank : Segment → ℕ) (m n : ℕ) (l : List Segment) → m ≤ n → IsAbove rank n l → IsAbove rank m l
weaken rank m n [] h a = tt
weaken rank m n (s ∷ l) h a = (omega (arith, a.0), weaken rank m n l h a.1)

-- The two places of a new segment about the first.
data Placed (s t : Segment) (l : List Segment) : List Segment → Type 0 where
  first : (cmp s t ≡ Ordering.lt) ⊎ (cmp s t ≡ Ordering.eq) → Placed s t l (s ∷ t ∷ l)
  later : cmp s t ≡ Ordering.gt → Placed s t l (t ∷ insert s l)

insert-Placed : (s t : Segment) (l : List Segment) → Placed s t l (insert s (t ∷ l))
unfolding insert
insert-Placed s t l = elim (Ordering-cases (cmp s t)) [
  | inl lt ↦ rw (lt, insert) (first (inl lt))
  | inr (inl eq) ↦ rw (eq, insert) (first (inr eq))
  | inr (inr gt) ↦ rw (gt, insert) (later gt)
]

insert-IsAbove :
    (rank : Segment → ℕ) (n : ℕ) (s : Segment) (l : List Segment)
    → n ≤ rank s
    → IsAbove rank n l
    → IsAbove rank n (insert s l)
unfolding insert
insert-IsAbove rank n s [] h a = (h, tt)
insert-IsAbove rank n s (t ∷ l) h a = place (insert-Placed s t l) (insert-IsAbove rank n s l h a.1)
  where
    place : {r : List Segment} → Placed s t l r → IsAbove rank n (insert s l) → IsAbove rank n r
    place (first e) later_above = (h, (a.0, a.1))
    place (later e) later_above = (a.0, later_above)

pub insert-IsRanked :
    (rank : Segment → ℕ) (s : Segment) (l : List Segment)
    → IsRanked rank l
    → Agrees cmp rank (s ∷ l)
    → IsRanked rank (insert s l)
unfolding insert
insert-IsRanked rank s [] r agrees = (tt, tt)
insert-IsRanked rank s (t ∷ l) r agrees =
    let e : cmp s t ≡ compare (rank s) (rank t) =
      agrees s t mem-cons_self (mem-cons_of_mem s mem-cons_self) in
    let drop_t : (x : Segment) → Mem x (s ∷ l) → Mem x (s ∷ t ∷ l) =
      λ x m. (Perm.mem_iff (Perm.swap s t l)).0 (mem-cons_of_mem t m) in
    place e (insert-Placed s t l)
      (insert-IsRanked rank s l r.1 (λ x y m m'. agrees x y (drop_t x m) (drop_t y m')))
  where
    place :
        {q : List Segment}
        → cmp s t ≡ compare (rank s) (rank t)
        → Placed s t l q
        → IsRanked rank (insert s l)
        → IsRanked rank q
    place e (first c) ranked =
        let below : rank s ≤ rank t = ground (arith, e, c) in
        ((below, weaken rank (rank s) (rank t) l below r.0), (r.0, r.1))
    place e (later c) ranked =
        let below : rank t ≤ rank s = ground (arith, e, c) in
        (insert-IsAbove rank (rank t) s l below r.0, ranked)

pub insert-perm : (s : Segment) (l : List Segment) → Perm (insert s l) (s ∷ l)
unfolding insert
insert-perm s [] = Perm.rfl
insert-perm s (t ∷ l) = place (insert-Placed s t l) (insert-perm s l)
  where
    place : {r : List Segment} → Placed s t l r → Perm (insert s l) (s ∷ l) → Perm r (s ∷ t ∷ l)
    place (first e) same = Perm.rfl
    place (later e) same = Perm.trans (Perm.cons t same) (Perm.swap s t l)

pub uncons-none : (l : List Segment) (room : ℕ) → uncons l room ≡ none → (l ≡ []) × (front l ≡ none)
uncons-none [] room e = (refl, refl)
uncons-none (t ∷ l) room e = absurd (none-ne-some _ (sym e))

pub uncons_sound :
    (l : List Segment) (room : ℕ) (s : Segment) (h : SortedList)
    → uncons l room ≡ some (s, h)
    → (l ≡ s ∷ h.items) × (h.room ≡ room)
uncons_sound [] room s h e = absurd (none-ne-some _ e)
uncons_sound (t ∷ l) room s h e =
    let same = some-injective _ _ e in
    (λ i. (same i).0 ∷ (same i).1.items, λ i. (sym same i).1.room)

unfoldable pub sorted_list_laws : HeapLaws cmp sorted_list
sorted_list_laws = record {
  contents = λ h. h.items;
  IsOrdered = λ rank h. IsRanked rank h.items;
  len-contents = λ h. refl;
  contents-with_capacity = λ n. refl;
  capacity-with_capacity = λ n. omega arith;
  with_capacity-IsOrdered = λ rank n. tt;
  contents-push = λ s h. insert-perm s h.items;
  capacity-push = λ s h room. refl;
  push-IsOrdered = λ rank s h r agrees. insert-IsRanked rank s h.items r agrees;
  pop_none = λ h e. uncons-none h.items h.room e;
  contents-pop = λ h h' s e.
      let (same, cap) = uncons_sound h.items h.room s h' e in
      (subst (λ l. Perm l (s ∷ h'.items)) (sym same) Perm.rfl, ap front same, cap);
  pop_least = λ rank h h' s r e.
      let ranked = subst (IsRanked rank) (uncons_sound h.items h.room s h' e).0 r in
      (ranked.1, λ x m. above_mem rank (rank s) h'.items x ranked.0 m);
  contents-clear = λ h. (refl, refl);
}
