-- ===== src/WaterMark/Marks.antt =====
-- One mark of the channel, and all of them: the loop of `process` in y/watermark.go.
use badgerx.Prelude.{
  ℕ, ◌≤◌, ◌<◌, ◌≡◌, ◌∙◌, sym, ◌⊎◌, true, false, ◌||◌, ◌&&◌, none, some, List, [], ◌∷◌, ◌++◌, arith,
  nat_eq, has, has-append, length, leb, ltb, ◌==◌, Bool-cases, Option-cases, inl, inr,
}
use mathlib.Core.Path.{subst}
use mathlib.Core.Option.{some-injective}
use badgerx.Prelude.Maps.{lookup, insert, lookup-insert}
use badgerx.WaterMark.{WaterMark, Mark, process_one, add_waiter, process_mark}
use badgerx.WaterMark.Notify.{Above, Waits, Above-lookup}
use badgerx.WaterMark.Tally.{IsTallied, process_mark-IsTallied}
use badgerx.WaterMark.Sound.{
  IsSound, IsProgress, IsProgress-trans, process_one-IsSound, process_each-IsSound,
}

Above-insert :
    (until idx : ℕ) (chs : List ℕ) (ws : List (ℕ × List ℕ))
    → until < idx
    → Above until ws
    → Above until (insert idx chs ws)
unfolding insert
Above-insert until idx chs [] lt h = (lt, tt)
Above-insert until idx chs ((i, cs) ∷ ws) lt (h, hs) =
    ground (arith, Above-insert until idx chs ws lt hs)

-- The waiter's channel is closed, if the mark has reached its index, and else it waits.
pub Served : WaterMark → ℕ → ℕ → Type 0
Served w idx ch =
    ((idx ≤ w.done_until) × (has ch w.closed ≡ true))
    ⊎ ((w.done_until < idx) × Waits w.waiters idx ch)

-- `chs` are the channels that wait for the index so far.
insert_waiter :
    (w : WaterMark) (idx ch : ℕ) (chs : List ℕ)
    → IsSound w
    → w.done_until < idx
    → ((c : ℕ) → Waits w.waiters idx c → has c chs ≡ true)
    → (w' : WaterMark) → w' ≡ record w { waiters = insert idx (chs ++ (ch ∷ [])) w.waiters }
    → IsSound w' × IsProgress w w' × Waits w'.waiters idx ch
insert_waiter w idx ch chs s lt all w' e = rw e (
  record {
    ordered = s.ordered;
    busy = s.busy;
    above = Above-insert w.done_until idx _ w.waiters lt s.above;
  },
  record {
    grows = omega arith;
    closed_kept = λ c h. h;
    woken = λ i c x le. absurd (omega (arith, Above-lookup _ i w.waiters x.0 s.above x.1));
    kept = λ i c x l. still i c x;
  },
  (
    chs ++ (ch ∷ []),
    ground (arith, lookup-insert idx idx (chs ++ (ch ∷ [])) w.waiters),
    ground (arith, has-append ch chs (ch ∷ [])),
  ),
)
  where
    still : (i c : ℕ) → Waits w.waiters i c → Waits (insert idx (chs ++ (ch ∷ [])) w.waiters) i c
    still i c x = elim (Bool-cases (idx == i)) [
      | inl q ↦ (
        chs ++ (ch ∷ []),
        ground (arith, lookup-insert idx i (chs ++ (ch ∷ [])) w.waiters),
        ground (arith, has-append c chs (ch ∷ []), all c (x.0, ground arith, x.2)),
      )
      | inr q ↦ (x.0, ground (arith, lookup-insert idx i (chs ++ (ch ∷ [])) w.waiters), x.2)
    ]

add_waiter-IsSound :
    (w : WaterMark) (idx ch : ℕ)
    → IsSound w
    → IsSound (add_waiter w idx ch)
      × IsProgress w (add_waiter w idx ch)
      × Served (add_waiter w idx ch) idx ch
unfolding Served
add_waiter-IsSound w idx ch s = elim (Bool-cases (leb idx w.done_until)) [
  | inl h ↦
      unfold add_waiter in
      rw h (
        record { ordered = s.ordered; busy = s.busy; above = s.above },
        record {
          grows = omega arith;
          closed_kept = λ c q. ground (arith, has-append c w.closed (ch ∷ []));
          woken = λ i c x le. absurd (omega (arith, Above-lookup _ i w.waiters x.0 s.above x.1));
          kept = λ i c x l. x;
        },
        inl (ground (arith), ground (arith, has-append ch w.closed (ch ∷ []))),
      )
  | inr h ↦
      let lt : w.done_until < idx = ground arith in
      elim (Option-cases (lookup idx w.waiters)) [
        | inl n ↦
            let r =
              insert_waiter w idx ch [] s lt (λ c x. cc (n, x.1)) (add_waiter w idx ch)
                (added_none w idx ch h n) in
            (r.0, r.1, inr (ground (arith, r.1.grows, added_none w idx ch h n), r.2))
        | inr (chs, n) ↦
            let r =
              insert_waiter w idx ch chs s lt (λ c x. ground (arith, x.1, x.2))
                (add_waiter w idx ch) (added_some w idx ch chs h n) in
            (r.0, r.1, inr (ground (arith, added_some w idx ch chs h n), r.2))
      ]
]
  where
    added_none :
        (w : WaterMark) (idx ch : ℕ)
        → leb idx w.done_until ≡ false
        → lookup idx w.waiters ≡ none
        → add_waiter w idx ch ≡ record w { waiters = insert idx ([] ++ (ch ∷ [])) w.waiters }
    added_none w idx ch h n = unfold add_waiter in ground arith

    added_some :
        (w : WaterMark) (idx ch : ℕ) (chs : List ℕ)
        → leb idx w.done_until ≡ false
        → lookup idx w.waiters ≡ some chs
        → add_waiter w idx ch ≡ record w { waiters = insert idx (chs ++ (ch ∷ [])) w.waiters }
    added_some w idx ch chs h n = unfold add_waiter in ground arith

-- Whose channel the mark brings, if any.
abbrev pub MarkServed : WaterMark → Mark → Type 0
MarkServed w m = (ch : ℕ) → m.waiter ≡ some ch → Served w m.index ch

indices_mark :
    (w w' : WaterMark) (m : Mark)
    → IsSound w
    → m.waiter ≡ none
    → process_mark w m ≡ some w'
    → IsSound w' × IsProgress w w'
indices_mark w w' m s n e =
    elim (Bool-cases (ltb 0 m.index || (m.index == 0 && length m.indices == 0))) [
      | inl h ↦ elim (Option-cases (process_one w m.index m.is_done)) [
        | inl x ↦ absurd (unfold process_mark in ground arith)
        | inr (v, x) ↦
            let (sv, pv) = process_one-IsSound w v m.index m.is_done s x in
            let (sw, pw) =
              process_each-IsSound v w' m.indices m.is_done sv
                (unfold process_mark in ground arith) in
            (sw, IsProgress-trans w v w' pv pw)
      ]
      | inr h ↦
          process_each-IsSound w w' m.indices m.is_done s (unfold process_mark in ground arith)
    ]

mark_served :
    (w w' : WaterMark) (m : Mark)
    → IsSound w
    → process_mark w m ≡ some w'
    → IsSound w' × IsProgress w w' × MarkServed w' m
mark_served w w' m s e = elim (Option-cases m.waiter) [
  | inl n ↦ let (a, b) = indices_mark w w' m s n e in (a, b, λ ch q. absurd (cc (n, q)))
  | inr (ch, q) ↦
      let at : add_waiter w m.index ch ≡ w' = unfold process_mark in ground arith in
      let (a, b, c) = add_waiter-IsSound w m.index ch s in
      subst (λ x. IsSound x × IsProgress w x × MarkServed x m) at
        (
          a,
          b,
          λ ch' q'.
              subst (Served (add_waiter w m.index ch) m.index) (some-injective _ _ (sym q ∙ q')) c,
        )
]

-- A mark of any kind, handled without the assertion on an index below `DoneUntil` failing, keeps the
-- invariant and loses no waiter: `DoneUntil` does not fall, who waited for an index it reaches is
-- woken, the others wait on, and the mark's own waiter is closed if its index is reached and else
-- waits. The pending counts stay no less than the begins less the dones, with those of the mark, and
-- equal to that where no index is done more often than begun; and `DoneUntil` passes no index begun
-- more often than done.
pub process_mark-IsSound :
    (w w' : WaterMark) (m : Mark)
    → IsSound w
    → process_mark w m ≡ some w'
    → IsSound w' × IsProgress w w' × MarkServed w' m × IsTallied w w' m
process_mark-IsSound w w' m s e =
    let (a, b, c) = mark_served w w' m s e in (a, b, c, process_mark-IsTallied w w' m a e)
