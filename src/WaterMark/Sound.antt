-- ===== src/WaterMark/Sound.antt =====
-- The invariant of `process`, and what its marks do: y/watermark.go.
use badgerx.Prelude.{
  ℕ, ◌≤◌, ◌<◌, ◌≡◌, ◌∙◌, ◌↔◌, Bool, true, none, some, List, [], ◌∷◌, arith, nat_eq, has, leb,
  if◌then◌else◌, Bool-cases, Option-cases, inl, inr,
}
use mathlib.Core.Path.{subst}
use mathlib.Core.Option.{some-injective}
use badgerx.Prelude.Int.{ℤ, succ, pred}
use badgerx.Prelude.Maps.{insert}
use badgerx.WaterMark.{WaterMark, count, push_new, pop_done, notify, process_one, process_each}
use badgerx.WaterMark.Heap.{IsOrdered, IsBusy, push_new-IsOrdered, pop_done-Popped}
use badgerx.WaterMark.Notify.{Above, Waits, notify-IsWoken, Above-lookup}

-- The heap and the counts agree, all indices in them have `done_until` below or at them, the least
-- of them is unfinished, and every waiter waits for more than `done_until`.
pub record IsSound (w : WaterMark) : Type 0 where
  pub ordered : IsOrdered w.indices w.pending w.done_until
  pub busy : IsBusy w.indices w.pending
  pub above : Above w.done_until w.waiters

-- From `w` to `w'` the mark does not fall, closed channels stay closed, and a waiter is woken if the
-- mark has reached its index, and else still waits.
pub record IsProgress (w w' : WaterMark) : Type 0 where
  pub grows : w.done_until ≤ w'.done_until
  pub closed_kept : (ch : ℕ) → has ch w.closed ≡ true → has ch w'.closed ≡ true
  pub woken : (idx ch : ℕ) → Waits w.waiters idx ch → idx ≤ w'.done_until → has ch w'.closed ≡ true
  pub kept : (idx ch : ℕ) → Waits w.waiters idx ch → w'.done_until < idx → Waits w'.waiters idx ch

-- `process_one` fails, by its assertion, exactly on an index below the mark.
pub process_one_fails :
    (w : WaterMark) (i : ℕ) (d : Bool) → (process_one w i d ≡ none) ↔ (i < w.done_until)
unfolding process_one
process_one_fails w i d = ground arith

abbrev pub counted : WaterMark → ℕ → Bool → List (ℕ × ℤ)
counted w i d =
    insert i (if d then pred (count w.pending i) else succ (count w.pending i)) w.pending

-- What the loop over the heap leaves, and the state afterwards.
abbrev pub popped : WaterMark → ℕ → Bool → List ℕ × List (ℕ × ℤ) × ℕ
popped w i d = pop_done (push_new w.pending i w.indices) (counted w i d) w.done_until

abbrev pub processed : WaterMark → ℕ → Bool → WaterMark
processed w i d = record w {
  done_until = (popped w i d).2;
  indices = (popped w i d).0;
  pending = (popped w i d).1;
  waiters = (notify w.done_until (popped w i d).2 w.waiters w.closed).0;
  closed = (notify w.done_until (popped w i d).2 w.waiters w.closed).1;
}

pub process_one-processed :
    (w w' : WaterMark) (i : ℕ) (d : Bool) → process_one w i d ≡ some w' → processed w i d ≡ w'
unfolding process_one
process_one-processed w w' i d e = ground arith

processed-IsSound :
    (w : WaterMark) (i : ℕ) (d : Bool)
    → IsSound w
    → w.done_until ≤ i
    → IsSound (processed w i d) × IsProgress w (processed w i d)
processed-IsSound w i d s le =
    let p =
      pop_done-Popped _ _ _
        (push_new-IsOrdered w.indices w.pending w.done_until i _ s.ordered le) in
    let n = notify-IsWoken w.done_until (popped w i d).2 w.waiters w.closed p.grows s.above in
    (
      record { ordered = p.ordered; busy = p.busy; above = n.above },
      record {
        grows = p.grows;
        closed_kept = n.closed_kept;
        woken = n.woken;
        kept = λ idx ch x lt. (x.0, n.kept idx lt ∙ x.1, x.2);
      },
    )

pub process_one-IsSound :
    (w w' : WaterMark) (i : ℕ) (d : Bool)
    → IsSound w
    → process_one w i d ≡ some w'
    → IsSound w' × IsProgress w w'
process_one-IsSound w w' i d s e = elim (Bool-cases (leb w.done_until i)) [
  | inl h ↦
      subst (λ x. IsSound x × IsProgress w x) (process_one-processed w w' i d e)
        (processed-IsSound w i d s (ground arith))
  | inr h ↦ absurd (ground (arith, (process_one_fails w i d).1))
]

pub IsProgress-refl : (w : WaterMark) → IsSound w → IsProgress w w
IsProgress-refl w s = record {
  grows = omega arith;
  closed_kept = λ ch h. h;
  woken = λ idx ch x le. absurd (omega (arith, Above-lookup _ idx w.waiters x.0 s.above x.1));
  kept = λ idx ch x lt. x;
}

pub IsProgress-trans : (u v w : WaterMark) → IsProgress u v → IsProgress v w → IsProgress u w
IsProgress-trans u v w a b = record {
  grows = omega (arith, a.grows, b.grows);
  closed_kept = λ ch h. b.closed_kept ch (a.closed_kept ch h);
  woken = λ idx ch x le. elim (Bool-cases (leb idx v.done_until)) [
    | inl h ↦ b.closed_kept ch (a.woken idx ch x (ground arith))
    | inr h ↦ b.woken idx ch (a.kept idx ch x (ground arith)) le
  ];
  kept = λ idx ch x lt. b.kept idx ch (a.kept idx ch x (omega (arith, b.grows))) lt;
}

pub process_each-IsSound :
    (w w' : WaterMark) (is : List ℕ) (d : Bool)
    → IsSound w
    → process_each w is d ≡ some w'
    → IsSound w' × IsProgress w w'
unfolding process_each
process_each-IsSound w w' [] d s e =
    subst (λ x. IsSound x × IsProgress w x) (some-injective _ _ e) (s, IsProgress-refl w s)
process_each-IsSound w w' (i ∷ is) d s e = elim (Option-cases (process_one w i d)) [
  | inl n ↦ absurd (ground arith)
  | inr (v, p) ↦
      let (sv, pv) = process_one-IsSound w v i d s p in
      let (sw, pw) = process_each-IsSound v w' is d sv (ground arith) in
      (sw, IsProgress-trans w v w' pv pw)
]
