-- ===== src/WaterMark/Run.antt =====
-- The watermark shared by its callers and its goroutine, in every interleaving: y/watermark.go.
use badgerx.Prelude.{ℕ, ◌+◌, ◌≤◌, ◌≡◌, some, List, [], ◌∷◌, arith, nat_eq, ◌++◌, take, refl}
use mathlib.Core.Path.{subst}
use badgerx.Prelude.Int.{ℤ}
use badgerx.Prelude.Maps.{lookup}
use badgerx.WaterMark.{count, WaterMark, Mark, init, receive}
use badgerx.WaterMark.Sound.{IsSound}
use badgerx.WaterMark.Counting
use badgerx.WaterMark.Tally.{Covers, pending_above}
use badgerx.WaterMark.Marks.{process_mark-IsSound}
use badgerx.WaterMark.Steps.{
  Step, Reach, Reach-IsSound, here, next, begins, begins_many, ends, ends_many, waits, sets,
  receives,
}

-- The mark that a step of the goroutine handles: the oldest of the channel.
abbrev pub step_marks : {u v : WaterMark} → Step u v → List Mark
step_marks (begins w i) = []
step_marks (begins_many w w' is e) = []
step_marks (ends w i) = []
step_marks (ends_many w is) = []
step_marks (waits w i ch) = []
step_marks (sets w val ei ew le) = []
step_marks (receives w w' e) = take 1 w.mark_ch

-- All marks handled, the latest first.
abbrev pub handled : {u v : WaterMark} → Reach u v → List Mark
handled here = []
handled (next r st) = step_marks st ++ handled r

-- How often an index was begun, and how often it was done, by the marks handled.
abbrev pub total_begins : ℕ → List Mark → ℕ
total_begins i [] = 0
total_begins i (m ∷ ms) = total_begins i ms + Counting.begins m i

abbrev pub total_dones : ℕ → List Mark → ℕ
total_dones i [] = 0
total_dones i (m ∷ ms) = total_dones i ms + Counting.dones m i

Balances : WaterMark → ℕ → List Mark → Type 0
Balances w i ms = Covers (count w.pending i) (total_begins i ms) (total_dones i ms)

-- Receiving a mark never moves `DoneUntil` back.
pub receive_grows :
    (w w' : WaterMark) → Reach init w → receive w ≡ some w' → w.done_until ≤ w'.done_until
receive_grows w w' r e = go w.mark_ch refl
  where
    s : IsSound w
    s = Reach-IsSound r

    go : (ch : List Mark) → w.mark_ch ≡ ch → w.done_until ≤ w'.done_until
    go [] q =
        let at : w ≡ w' = unfold receive in ground arith in
        subst (λ x. w.done_until ≤ x.done_until) at (omega arith)
    go (m ∷ ms) q =
        (process_mark-IsSound (record w { mark_ch = ms }) w' m
          (record { ordered = s.ordered; busy = s.busy; above = s.above })
          (unfold receive in ground arith)).1.grows

-- One index, by its pending count.
pub pending-ge-done_until :
    (w : WaterMark) (i : ℕ) (c : ℤ) → Reach init w → lookup i w.pending ≡ some c → w.done_until ≤ i
pending-ge-done_until w i c r e = pending_above w i c (Reach-IsSound r) e
