-- ===== src/WaterMark/Counting.antt =====
-- How `process` changes the pending counts, by the begins and the dones of each index, y/watermark.go.
use badgerx.Prelude.{
  ℕ, zero, suc, ◌+◌, ◌≡◌, ◌∙◌, ◌⊎◌, refl, sym, Bool, true, false, ◌||◌, ◌&&◌, none, some, List, [],
  ◌∷◌, arith, nat_eq, ltb, ◌==◌, length, if◌then◌else◌, Bool-cases, Option-cases, inl, inr,
}
use mathlib.Core.Path.{subst}
use mathlib.Core.Option.{some-injective}
use badgerx.Prelude.Int.{ℤ, pos, succ, pred, is_pos}
use badgerx.Prelude.Maps.{delete, lookup-insert, lookup-delete}
use badgerx.WaterMark.{
  WaterMark, Mark, count, push_new, pop_done, process_one, process_each, process_mark, add_waiter,
}
use badgerx.WaterMark.Sound.{counted, popped, process_one-processed}

-- How often the index is in the list.
abbrev pub times : ℕ → List ℕ → ℕ
times i [] = 0
times i (j ∷ js) = (if i == j then 1 else 0) + times i js

-- The indices that a mark without a waiter is about: its indices, and its index unless that is zero
-- and indices are given.
abbrev pub indices_of : ℕ → List ℕ → List ℕ
indices_of i [] = i ∷ []
indices_of zero (j ∷ js) = j ∷ js
indices_of (suc i) (j ∷ js) = suc i ∷ j ∷ js

abbrev pub touched : Mark → List ℕ
touched m = indices_of m.index m.indices

-- How often the mark begins the index, and how often it is done with it.
abbrev pub begins : Mark → ℕ → ℕ
begins m i = elim m.waiter [ some ch ↦ 0 | none ↦ if m.is_done then 0 else times i (touched m) ]

abbrev pub dones : Mark → ℕ → ℕ
dones m i = elim m.waiter [ some ch ↦ 0 | none ↦ if m.is_done then times i (touched m) else 0 ]

-- The loop over the heap drops only counts that are not positive.
pop_done-count :
    (ms : List ℕ) (p : List (ℕ × ℤ)) (until i : ℕ)
    → (count (pop_done ms p until).1 i ≡ count p i)
      ⊎ ((is_pos (count p i) ≡ false) × (count (pop_done ms p until).1 i ≡ pos 0))
unfolding pop_done
pop_done-count [] p until i = inl refl
pop_done-count (m ∷ ms) p until i = elim (Bool-cases (is_pos (count p m))) [
  | inl e ↦ rw e (inl refl)
  | inr e ↦ rw e (elim (Bool-cases (m == i)) [
    | inl q ↦
        let gone : count (delete m p) i ≡ pos 0 =
          unfold count in ground (arith, lookup-delete m i p) in
        ground (arith, e, q, gone, pop_done-count ms (delete m p) m i)
    | inr q ↦
        let same : count (delete m p) i ≡ count p i =
          unfold count in ground (arith, lookup-delete m i p) in
        rw (← same) (pop_done-count ms (delete m p) m i)
  ])
]

abbrev begun : Bool → ℕ → ℕ
begun is_done n = if is_done then 0 else n

abbrev ended : Bool → ℕ → ℕ
ended is_done n = if is_done then n else 0

indices_of-both :
    (i : ℕ) (is : List ℕ)
    → (ltb 0 i || (i == 0 && length is == 0)) ≡ true
    → i ∷ is ≡ indices_of i is
indices_of-both i [] h = refl
indices_of-both zero (j ∷ js) h = absurd (ground arith)
indices_of-both (suc i) (j ∷ js) h = refl

indices_of-only :
    (i : ℕ) (is : List ℕ) → (ltb 0 i || (i == 0 && length is == 0)) ≡ false → is ≡ indices_of i is
indices_of-only zero [] h = absurd (ground arith)
indices_of-only (suc i) [] h = absurd (ground arith)
indices_of-only zero (j ∷ js) h = refl
indices_of-only (suc i) (j ∷ js) h = absurd (ground arith)

waiter-pending : (w : WaterMark) (i ch : ℕ) → (add_waiter w i ch).pending ≡ w.pending
unfolding add_waiter
waiter-pending w i ch = ground arith

-- A relation between a pending count, the begins and the dones of its index, which adding one of
-- them and dropping a count that is not positive keep; it may depend on the kind of mark.
module _ (R : Bool → ℤ → ℕ → ℕ → Type 0)
    (same : (b b' d d' : ℕ) (t : Bool) (z : ℤ) → b ≡ b' → d ≡ d' → R t z b d → R t z b' d')
    (dropped : (t : Bool) (z : ℤ) (b d : ℕ) → is_pos z ≡ false → R t z b d → R t (pos 0) b d)
    (adds : (z : ℤ) (b d : ℕ) → R false z b d → R false (succ z) (b + 1) d)
    (ends : (z : ℤ) (b d : ℕ) → R true z b d → R true (pred z) b (d + 1)) where
  popped-keeps :
      (w : WaterMark) (i j b d : ℕ) (t : Bool)
      → R t (count (counted w i t) j) b d
      → R t (count (popped w i t).1 j) b d
  popped-keeps w i j b d t h =
      elim (pop_done-count (push_new w.pending i w.indices) (counted w i t) w.done_until j) [
        | inl e ↦ subst (λ z. R t z b d) (sym e) h
        | inr (n, e) ↦ subst (λ z. R t z b d) (sym e) (dropped t _ b d n h)
      ]

  stepped :
      (t : Bool) (z : ℤ) (b d : ℕ)
      → R t z b d
      → R t (if t then pred z else succ z) (b + begun t 1) (d + ended t 1)
  stepped true z b d h = same _ _ _ _ true _ (omega arith) refl (ends z b d h)
  stepped false z b d h = same _ _ _ _ false _ refl (omega arith) (adds z b d h)

  untouched : (t : Bool) (z : ℤ) (b d : ℕ) → R t z b d → R t z (b + begun t 0) (d + ended t 0)
  untouched true z b d h = same _ _ _ _ true _ (omega arith) (omega arith) h
  untouched false z b d h = same _ _ _ _ false _ (omega arith) (omega arith) h

  counted-keeps :
      (w : WaterMark) (i j b d : ℕ) (t : Bool)
      → R t (count w.pending j) b d
      → R t
          (count (counted w i t) j)
          (b + begun t (times j (i ∷ [])))
          (d + ended t (times j (i ∷ [])))
  counted-keeps w i j b d t h = elim (Bool-cases (j == i)) [
    | inr q ↦
        let still : count (counted w i t) j ≡ count w.pending j =
          unfold count in ground (arith, lookup-insert i j (changed i) w.pending) in
        rw (still, q) (untouched t _ b d h)
    | inl q ↦
        let new : count (counted w i t) j ≡ changed i =
          unfold count in ground (arith, lookup-insert i j (changed i) w.pending) in
        let at : i ≡ j = ground arith in rw (new, q) (rw at (stepped t _ b d h))
  ]
    where
      changed : ℕ → ℤ
      changed k = if t then pred (count w.pending k) else succ (count w.pending k)

  -- From one state to the next the relation goes on, with the marks of a list added.
  abbrev Tallied : WaterMark → WaterMark → Bool → List ℕ → Type 0
  Tallied w w' t is =
      (j b d : ℕ)
      → R t (count w.pending j) b d
      → R t (count w'.pending j) (b + begun t (times j is)) (d + ended t (times j is))

  process_one-Tallied :
      (w w' : WaterMark) (i : ℕ) (t : Bool) → process_one w i t ≡ some w' → Tallied w w' t (i ∷ [])
  process_one-Tallied w w' i t e =
      subst (λ x. Tallied w x t (i ∷ [])) (process_one-processed w w' i t e)
        (λ j b d h. popped-keeps w i j _ _ t (counted-keeps w i j b d t h))

  Tallied-trans :
      (u v w : WaterMark) (t : Bool) (i : ℕ) (is : List ℕ)
      → Tallied u v t (i ∷ [])
      → Tallied v w t is
      → Tallied u w t (i ∷ is)
  Tallied-trans u v w true i is f g j b d h =
      same _ _ _ _ true _ (omega arith) (omega arith) (g j _ _ (f j b d h))
  Tallied-trans u v w false i is f g j b d h =
      same _ _ _ _ false _ (omega arith) (omega arith) (g j _ _ (f j b d h))

  process_each-Tallied :
      (w w' : WaterMark) (t : Bool) (is : List ℕ)
      → process_each w is t ≡ some w'
      → Tallied w w' t is
  unfolding process_each
  process_each-Tallied w w' t [] e =
      subst (λ x. Tallied w x t []) (some-injective _ _ e) (λ j b d h. untouched t _ b d h)
  process_each-Tallied w w' t (i ∷ is) e = elim (Option-cases (process_one w i t)) [
    | inl n ↦ absurd (ground arith)
    | inr (v, p) ↦
        Tallied-trans w v w' t i is (process_one-Tallied w v i t p)
          (process_each-Tallied v w' t is (ground arith))
  ]

  mark-touched :
      (w w' : WaterMark) (m : Mark)
      → m.waiter ≡ none
      → process_mark w m ≡ some w'
      → Tallied w w' m.is_done (touched m)
  mark-touched w w' m n e =
      elim (Bool-cases (ltb 0 m.index || (m.index == 0 && length m.indices == 0))) [
        | inl h ↦ elim (Option-cases (process_one w m.index m.is_done)) [
          | inl x ↦ absurd (unfold process_mark in ground arith)
          | inr (v, x) ↦ subst (Tallied w w' m.is_done) (indices_of-both m.index m.indices h) (
              Tallied-trans w v w' m.is_done m.index m.indices
                (process_one-Tallied w v m.index m.is_done x)
                (process_each-Tallied v w' m.is_done m.indices
                  (unfold process_mark in ground arith)))
        ]
        | inr h ↦
            subst (Tallied w w' m.is_done) (indices_of-only m.index m.indices h)
              (process_each-Tallied w w' m.is_done m.indices (unfold process_mark in ground arith))
      ]

  -- So it goes on with the begins and dones of any mark.
  pub process_mark-keeps :
      (w w' : WaterMark) (m : Mark) (i b d : ℕ)
      → process_mark w m ≡ some w'
      → R m.is_done (count w.pending i) b d
      → R m.is_done (count w'.pending i) (b + begins m i) (d + dones m i)
  process_mark-keeps w w' m i b d e h = elim (Option-cases m.waiter) [
    | inl n ↦ rw n (mark-touched w w' m n e i b d h)
    | inr (ch, q) ↦
        let at : (add_waiter w m.index ch).pending ≡ w'.pending =
          unfold process_mark in ground arith in
        rw q (
          subst (λ p. R m.is_done (count p i) (b + 0) (d + 0))
            (sym (waiter-pending w m.index ch) ∙ at)
            (same _ _ _ _ m.is_done _ (omega arith) (omega arith) h))
  ]
