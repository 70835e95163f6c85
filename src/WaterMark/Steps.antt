-- ===== src/WaterMark/Steps.antt =====
-- The steps of the watermark by its callers and its goroutine, and its invariant in every
-- interleaving: y/watermark.go.
use badgerx.Prelude.{
  ℕ, ◌≤◌, ◌<◌, ◌≡◌, false, Option, none, some, List, [], ◌∷◌, arith, nat_eq, All, ◌++◌, Bool-cases,
  leb, inl, inr, sym, refl,
}
use mathlib.Core.Path.{subst}
use badgerx.Prelude.Maps.{lookup}
use badgerx.WaterMark.{
  last, WaterMark, Mark, init, begin, begin_many, done, done_many, set_done_until, wait_for_mark,
  receive,
}
use badgerx.WaterMark.Sound.{IsSound}
use badgerx.WaterMark.Marks.{process_mark-IsSound}

-- What one caller, or the goroutine, does next. `SetDoneUntil` is not to be mixed with Begin and
-- Done: here it is called while no index is pending and nobody waits.
pub data Step : WaterMark → WaterMark → Type 0 where
  begins : (w : WaterMark) (i : ℕ) → Step w (begin w i)
  begins_many : (w w' : WaterMark) (is : List ℕ) → begin_many w is ≡ some w' → Step w w'
  ends : (w : WaterMark) (i : ℕ) → Step w (done w i)
  ends_many : (w : WaterMark) (is : List ℕ) → Step w (done_many w is)
  waits : (w : WaterMark) (i ch : ℕ) → Step w (wait_for_mark w i ch).1
  sets :
      (w : WaterMark) (val : ℕ)
      → w.indices ≡ []
      → w.waiters ≡ []
      → w.done_until ≤ val
      → Step w (set_done_until w val)
  receives : (w w' : WaterMark) → receive w ≡ some w' → Step w w'

pub data Reach (w : WaterMark) : WaterMark → Type 0 where
  here : Reach w w
  next : {u v : WaterMark} → Reach w u → Step u v → Reach w v

-- A mark sent, and the last index stored.
sent-IsSound :
    (w : WaterMark) (l : ℕ) (ms : List Mark)
    → IsSound w
    → IsSound (record w { last_index = l; mark_ch = ms })
sent-IsSound w l ms s = record { ordered = s.ordered; busy = s.busy; above = s.above }

begins_many-IsSound :
    (w w' : WaterMark) (is : List ℕ) → begin_many w is ≡ some w' → IsSound w → IsSound w'
begins_many-IsSound w w' is e s = go (last is) refl
  where
    go : (o : Option ℕ) → last is ≡ o → IsSound w'
    go none q = absurd (unfold begin_many in ground arith)
    go (some l) q =
        let sent : Mark = record { index = 0; waiter = none; indices = is; is_done = false } in
        let at : record w { last_index = l; mark_ch = w.mark_ch ++ (sent ∷ []) } ≡ w' =
          unfold begin_many in ground arith in
        subst IsSound at (sent-IsSound w l _ s)

waits-IsSound : (w : WaterMark) (i ch : ℕ) → IsSound w → IsSound (wait_for_mark w i ch).1
unfolding wait_for_mark
waits-IsSound w i ch s = elim (Bool-cases (leb i w.done_until)) [
  | inl e ↦ rw e s
  | inr e ↦ rw e (sent-IsSound w w.last_index _ s)
]

sets-IsSound :
    (w : WaterMark) (val : ℕ)
    → w.indices ≡ []
    → w.waiters ≡ []
    → IsSound w
    → IsSound (set_done_until w val)
unfolding set_done_until
sets-IsSound w val ei ew s = record {
  ordered = record {
    ascending = s.ordered.ascending;
    keyed = s.ordered.keyed;
    lower = subst (All (λ i. val ≤ i)) (sym ei) tt;
  };
  busy = s.busy;
  above = subst (All (λ x. val < x.0)) (sym ew) tt;
}

receives-IsSound : (w w' : WaterMark) → IsSound w → receive w ≡ some w' → IsSound w'
receives-IsSound w w' s e = go w.mark_ch refl
  where
    go : (ch : List Mark) → w.mark_ch ≡ ch → IsSound w'
    go [] q = let at : w ≡ w' = unfold receive in ground arith in subst IsSound at s
    go (m ∷ ms) q =
        (process_mark-IsSound (record w { mark_ch = ms }) w' m
          (record { ordered = s.ordered; busy = s.busy; above = s.above })
          (unfold receive in ground arith)).0

Step-IsSound : {w w' : WaterMark} → Step w w' → IsSound w → IsSound w'
Step-IsSound (begins w i) s =
    unfold begin in record { ordered = s.ordered; busy = s.busy; above = s.above }
Step-IsSound (begins_many w w' is e) s = begins_many-IsSound w w' is e s
Step-IsSound (ends w i) s =
    unfold done in record { ordered = s.ordered; busy = s.busy; above = s.above }
Step-IsSound (ends_many w is) s =
    unfold done_many in record { ordered = s.ordered; busy = s.busy; above = s.above }
Step-IsSound (waits w i ch) s = waits-IsSound w i ch s
Step-IsSound (sets w val ei ew le) s = sets-IsSound w val ei ew s
Step-IsSound (receives w w' e) s = receives-IsSound w w' s e

init-IsSound : IsSound init
init-IsSound = record {
  ordered = record { ascending = tt; keyed = λ i. unfold lookup in refl; lower = tt };
  busy = tt;
  above = tt;
}

pub Reach-IsSound : {w : WaterMark} → Reach init w → IsSound w
Reach-IsSound here = init-IsSound
Reach-IsSound (next r st) = Step-IsSound st (Reach-IsSound r)
