-- ===== src/WaterMark/Below.antt =====
-- A bound on the indices that are sent bounds the mark: y/watermark.go.
use badgerx.Prelude.{
  ℕ, ◌≤◌, ◌<◌, ◌≡◌, refl, Bool, ◌||◌, ◌&&◌, Option, none, some, List, [], ◌∷◌, ◌++◌, arith, nat_eq,
  All, All-map, length, ltb, leb, ◌==◌, Bool-cases, Option-cases, inl, inr,
}
use mathlib.Core.Path.{subst}
use mathlib.Core.Option.{some-injective}
use badgerx.Prelude.Int.{ℤ, is_pos}
use badgerx.Prelude.Maps.{lookup, insert, delete}
use badgerx.WaterMark.{
  WaterMark, Mark, begin, done, count, pop_done, push_new, process_one, process_each, add_waiter,
  process_mark, receive,
}
use badgerx.WaterMark.Sound.{counted, process_one-processed}
use badgerx.WaterMark.Heap.{All-heap_push, push_new-none, push_new-some}

abbrev pub Small : ℕ → Mark → Type 0
Small n m = (m.index < n) × All (λ i. i < n) m.indices

-- The mark, the heap and the marks in the channel lie below the bound.
pub record IsBelow (n : ℕ) (w : WaterMark) : Type 0 where
  pub mark : w.done_until < n
  pub heap : All (λ i. i < n) w.indices
  pub channel : All (Small n) w.mark_ch

pop_done_below :
    (n : ℕ) (ms : List ℕ) (p : List (ℕ × ℤ)) (u : ℕ)
    → u < n
    → All (λ i. i < n) ms
    → All (λ i. i < n) (pop_done ms p u).0 × ((pop_done ms p u).2 < n)
unfolding pop_done
pop_done_below n [] p u h hs = (tt, h)
pop_done_below n (m ∷ ms) p u h (k, ks) = elim (Bool-cases (is_pos (count p m))) [
  | inl e ↦ rw e ((k, ks), h)
  | inr e ↦ rw e (pop_done_below n ms (delete m p) m k ks)
]

push_new_below :
    (n : ℕ) (p : List (ℕ × ℤ)) (i : ℕ) (ms : List ℕ)
    → i < n
    → All (λ i. i < n) ms
    → All (λ i. i < n) (push_new p i ms)
push_new_below n p i ms h hs = elim (Option-cases (lookup i p)) [
  | inl e ↦ rw (push_new-none p i ms e) (All-heap_push (λ i. i < n) i ms h hs)
  | inr (c, e) ↦ rw (push_new-some p i ms c e) hs
]

process_one-IsBelow :
    (n : ℕ) (w w' : WaterMark) (i : ℕ) (d : Bool)
    → i < n
    → IsBelow n w
    → process_one w i d ≡ some w'
    → IsBelow n w'
process_one-IsBelow n w w' i d h b e =
    let r =
      pop_done_below n (push_new w.pending i w.indices) (counted w i d) w.done_until b.mark
        (push_new_below n w.pending i w.indices h b.heap) in
    subst (IsBelow n) (process_one-processed w w' i d e)
      (record { mark = r.1; heap = r.0; channel = b.channel })

process_each-IsBelow :
    (n : ℕ) (w w' : WaterMark) (is : List ℕ) (d : Bool)
    → All (λ i. i < n) is
    → IsBelow n w
    → process_each w is d ≡ some w'
    → IsBelow n w'
unfolding process_each
process_each-IsBelow n w w' [] d h b e = subst (IsBelow n) (some-injective _ _ e) b
process_each-IsBelow n w w' (i ∷ is) d (h, hs) b e = elim (Option-cases (process_one w i d)) [
  | inl x ↦ absurd (ground arith)
  | inr (v, x) ↦
      process_each-IsBelow n v w' is d hs (process_one-IsBelow n w v i d h b x) (ground arith)
]

add_waiter-IsBelow :
    (n : ℕ) (w : WaterMark) (i ch : ℕ) → IsBelow n w → IsBelow n (add_waiter w i ch)
unfolding add_waiter
add_waiter-IsBelow n w i ch b = elim (Bool-cases (leb i w.done_until)) [
  | inl e ↦ rw e (record { mark = b.mark; heap = b.heap; channel = b.channel })
  | inr e ↦ rw e (go (lookup i w.waiters))
]
  where
    go :
        (o : Option (List ℕ))
        → IsBelow n (elim o [
          | none ↦ record w { waiters = insert i (ch ∷ []) w.waiters }
          | some chs ↦ record w { waiters = insert i (chs ++ (ch ∷ [])) w.waiters }
        ])
    go none = record { mark = b.mark; heap = b.heap; channel = b.channel }
    go (some chs) = record { mark = b.mark; heap = b.heap; channel = b.channel }

process_mark-IsBelow :
    (n : ℕ) (w w' : WaterMark) (m : Mark)
    → Small n m
    → IsBelow n w
    → process_mark w m ≡ some w'
    → IsBelow n w'
process_mark-IsBelow n w w' m (h, hs) b e = elim (Option-cases m.waiter) [
  | inr (ch, q) ↦
      let at : add_waiter w m.index ch ≡ w' = unfold process_mark in ground arith in
      subst (IsBelow n) at (add_waiter-IsBelow n w m.index ch b)
  | inl q ↦ elim (Bool-cases (ltb 0 m.index || (m.index == 0 && length m.indices == 0))) [
    | inl t ↦ elim (Option-cases (process_one w m.index m.is_done)) [
      | inl x ↦ absurd (unfold process_mark in ground arith)
      | inr (v, x) ↦
          process_each-IsBelow n v w' m.indices m.is_done hs
            (process_one-IsBelow n w v m.index m.is_done h b x)
            (unfold process_mark in ground arith)
    ]
    | inr t ↦
        process_each-IsBelow n w w' m.indices m.is_done hs b (unfold process_mark in ground arith)
  ]
]

pub receive-IsBelow : (n : ℕ) (w w' : WaterMark) → IsBelow n w → receive w ≡ some w' → IsBelow n w'
receive-IsBelow n w w' b e = go w.mark_ch refl b.channel
  where
    go : (ch : List Mark) → w.mark_ch ≡ ch → All (Small n) ch → IsBelow n w'
    go [] q h = let at : w ≡ w' = unfold receive in ground arith in subst (IsBelow n) at b
    go (m ∷ ms) q (h, hs) =
        process_mark-IsBelow n (record w { mark_ch = ms }) w' m h
          (record { mark = b.mark; heap = b.heap; channel = hs }) (unfold receive in ground arith)

All-snoc :
    (n : ℕ) (ms : List Mark) (m : Mark)
    → All (Small n) ms
    → Small n m
    → All (Small n) (ms ++ (m ∷ []))
All-snoc n [] m h x = (x, tt)
All-snoc n (k ∷ ms) m (h, hs) x = (h, All-snoc n ms m hs x)

pub begin-IsBelow : (n : ℕ) (w : WaterMark) (i : ℕ) → i < n → IsBelow n w → IsBelow n (begin w i)
unfolding begin
begin-IsBelow n w i h b = record {
  mark = b.mark;
  heap = b.heap;
  channel = All-snoc n w.mark_ch _ b.channel (h, tt);
}

pub done-IsBelow : (n : ℕ) (w : WaterMark) (i : ℕ) → i < n → IsBelow n w → IsBelow n (done w i)
unfolding done
done-IsBelow n w i h b = record {
  mark = b.mark;
  heap = b.heap;
  channel = All-snoc n w.mark_ch _ b.channel (h, tt);
}

pub IsBelow-mono : (n k : ℕ) (w : WaterMark) → n ≤ k → IsBelow n w → IsBelow k w
IsBelow-mono n k w le b = record {
  mark = omega (arith, b.mark);
  heap = All-map (λ i. i < n) (λ i. i < k) (λ i h. omega arith) w.indices b.heap;
  channel =
      All-map (Small n) (Small k)
        (λ m h. (
          omega (arith, h.0),
          All-map (λ i. i < n) (λ i. i < k) (λ i q. omega arith) m.indices h.1,
        ))
        w.mark_ch b.channel;
}
