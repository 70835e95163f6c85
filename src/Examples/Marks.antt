-- ===== src/Examples/Marks.antt =====
-- Runs of the watermark of y/watermark.go.
use badgerx.Prelude.{◌≡◌, refl, true, none, some, [], ◌∷◌, nat_eq}
use badgerx.Prelude.Int.{pos}
use badgerx.Prelude.Maps.{lookup, insert, delete}
use badgerx.WaterMark.{
  WaterMark, Mark, init, begin, wait_for_mark, process_mark, process_one, process_each, add_waiter,
  receive, count, heap_push, push_new, pop_done, notify, notify_range, notify_all,
}
use badgerx.WaterMark.Sound.{IsSound, IsProgress}
use badgerx.WaterMark.Tally.{IsTallied}
use badgerx.WaterMark.Marks.{MarkServed, process_mark-IsSound}
use badgerx.WaterMark.Steps.{Reach, Step, Reach-IsSound}

-- Index 3 has begun and channel 7 waits for it.
abbrev waiting : WaterMark
waiting = record init {
  last_index = 3;
  indices = 3 ∷ [];
  pending = (3, pos 1) ∷ [];
  waiters = (3, 7 ∷ []) ∷ [];
}

abbrev begun : WaterMark
begun = record waiting { waiters = [] }

receives_begin : receive (begin init 3) ≡ some begun
unfolding receive begin process_mark process_one process_each count lookup insert push_new heap_push
    pop_done notify notify_range delete
receives_begin = refl

receives_waiter : receive (wait_for_mark begun 3 7).1 ≡ some waiting
unfolding receive wait_for_mark process_mark add_waiter lookup insert
receives_waiter = refl

abbrev waiting_run : Reach init waiting
waiting_run =
    Reach.next
      (Reach.next
        (Reach.next (Reach.next Reach.here (Step.begins init 3))
          (Step.receives (begin init 3) begun receives_begin))
        (Step.waits begun 3 7))
      (Step.receives (wait_for_mark begun 3 7).1 waiting receives_waiter)

abbrev done_three : Mark
done_three = record { index = 3; waiter = none; indices = []; is_done = true }

-- The last index is done: the mark moves to it and the channel is closed.
abbrev woken : WaterMark
woken = record init { done_until = 3; last_index = 3; closed = 7 ∷ [] }

processes_done : process_mark waiting done_three ≡ some woken
unfolding process_mark process_one process_each count lookup insert push_new heap_push pop_done
    notify notify_range notify_all delete
processes_done = refl

process_mark-IsSound_example :
    IsSound woken
    × IsProgress waiting woken
    × MarkServed woken done_three
    × IsTallied waiting woken done_three
process_mark-IsSound_example =
    process_mark-IsSound waiting woken done_three (Reach-IsSound waiting_run) processes_done
