-- ===== src/WaterMark/Heap.antt =====
-- The heap of indices and the pending counts of `process`: y/watermark.go.
use badgerx.Prelude.{
  ℕ, ◌≤◌, ◌<◌, ◌≡◌, refl, Bool, true, false, ◌||◌, Option, none, some, List, [], ◌∷◌, arith, nat_eq,
  All, All-map, Ascending, has, ◌==◌, Bool-cases, inl, inr, leb, Option-cases,
}
use badgerx.Prelude.Int.{ℤ, is_pos}
use badgerx.Prelude.Maps.{lookup, insert, delete, lookup-insert, lookup-delete}
use badgerx.WaterMark.{heap_push, count, pop_done, push_new}

abbrev is_some : Option ℤ → Bool
is_some none = false
is_some (some c) = true

-- The heap ascends, holds exactly the indices with a pending count, and none below `until`.
pub record IsOrdered (ms : List ℕ) (p : List (ℕ × ℤ)) (until : ℕ) : Type 0 where
  pub ascending : Ascending ms
  pub keyed : (i : ℕ) → is_some (lookup i p) ≡ has i ms
  pub lower : All (λ i. until ≤ i) ms

-- The least index of the heap, if there is one, is unfinished.
abbrev pub IsBusy : List ℕ → List (ℕ × ℤ) → Type 0
IsBusy [] p = Unit {0}
IsBusy (m ∷ ms) p = is_pos (count p m) ≡ true

has_above : (m : ℕ) (ms : List ℕ) → All (λ y. m < y) ms → has m ms ≡ false
has_above m [] h = refl
has_above m (x ∷ ms) (h, hs) = ground (arith, has_above m ms hs)

has-heap_push : (i j : ℕ) (ms : List ℕ) → has j (heap_push i ms) ≡ (i == j || has j ms)
unfolding heap_push
has-heap_push i j [] = refl
has-heap_push i j (m ∷ ms) = ground (arith, has-heap_push i j ms)

pub All-heap_push : (P : ℕ → Type 0) (i : ℕ) (ms : List ℕ) → P i → All P ms → All P (heap_push i ms)
unfolding heap_push
All-heap_push P i [] a h = (a, tt)
All-heap_push P i (m ∷ ms) a (h, hs) = ground (arith, All-heap_push P i ms a hs)

heap_push-Ascending :
    (i : ℕ) (ms : List ℕ) → has i ms ≡ false → Ascending ms → Ascending (heap_push i ms)
unfolding heap_push
heap_push-Ascending i [] n h = (tt, tt)
heap_push-Ascending i (m ∷ ms) n (h, hs) = elim (Bool-cases (leb i m)) [
  | inl e ↦
      let lt : i < m = ground arith in
      rw e ((lt, All-map (λ y. m < y) (λ y. i < y) (λ y q. omega arith) ms h), (h, hs))
  | inr e ↦
      rw e (
        All-heap_push (λ y. m < y) i ms (ground arith) h,
        heap_push-Ascending i ms (ground arith) hs,
      )
]

pub push_new-none :
    (p : List (ℕ × ℤ)) (i : ℕ) (ms : List ℕ) → lookup i p ≡ none → push_new p i ms ≡ heap_push i ms
unfolding push_new
push_new-none p i ms e = ground arith

pub push_new-some :
    (p : List (ℕ × ℤ)) (i : ℕ) (ms : List ℕ) (d : ℤ) → lookup i p ≡ some d → push_new p i ms ≡ ms
unfolding push_new
push_new-some p i ms d e = ground arith

-- Pushing a new index and counting it keeps the order, where the index is not below `until`.
pub push_new-IsOrdered :
    (ms : List ℕ) (p : List (ℕ × ℤ)) (until i : ℕ) (c : ℤ)
    → IsOrdered ms p until
    → until ≤ i
    → IsOrdered (push_new p i ms) (insert i c p) until
push_new-IsOrdered ms p until i c h le = elim (Option-cases (lookup i p)) [
  | inl e ↦
      let new : has i ms ≡ false = cc (h.keyed i, e) in
      rw (push_new-none p i ms e) (record {
        ascending = heap_push-Ascending i ms new h.ascending;
        keyed = λ j. ground (arith, lookup-insert i j c p, has-heap_push i j ms, h.keyed j);
        lower = All-heap_push (λ y. until ≤ y) i ms le h.lower;
      })
  | inr (d, e) ↦ rw (push_new-some p i ms d e) (record {
    ascending = h.ascending;
    keyed = λ j. ground (arith, lookup-insert i j c p, h.keyed j, h.keyed i);
    lower = h.lower;
  })
]

-- What the loop over the heap leaves.
pub record IsPopped (ms : List ℕ) (p : List (ℕ × ℤ)) (from until : ℕ) : Type 0 where
  pub ordered : IsOrdered ms p until
  pub busy : IsBusy ms p
  pub grows : from ≤ until

abbrev Popped : ℕ → List ℕ × List (ℕ × ℤ) × ℕ → Type 0
Popped from r = IsPopped r.0 r.1 from r.2

IsOrdered-pop :
    (m : ℕ) (ms : List ℕ) (p : List (ℕ × ℤ)) (until : ℕ)
    → IsOrdered (m ∷ ms) p until
    → IsOrdered ms (delete m p) m
IsOrdered-pop m ms p until h = record {
  ascending = h.ascending.1;
  keyed = λ j. ground (arith, lookup-delete m j p, h.keyed j, has_above m ms h.ascending.0);
  lower = All-map (λ y. m < y) (λ y. m ≤ y) (λ y q. omega arith) ms h.ascending.0;
}

pub pop_done-Popped :
    (ms : List ℕ) (p : List (ℕ × ℤ)) (until : ℕ)
    → IsOrdered ms p until
    → Popped until (pop_done ms p until)
unfolding pop_done
pop_done-Popped [] p until h = record { ordered = h; busy = tt; grows = omega arith }
pop_done-Popped (m ∷ ms) p until h = elim (Bool-cases (is_pos (count p m))) [
  | inl e ↦ rw e (record { ordered = h; busy = e; grows = omega arith })
  | inr e ↦
      let r = pop_done-Popped ms (delete m p) m (IsOrdered-pop m ms p until h) in
      rw e
        (record { ordered = r.ordered; busy = r.busy; grows = omega (arith, r.grows, h.lower.0) })
]
