-- ===== src/WaterMark.antt =====
-- The watermark of y/watermark.go: `Begin` and `Done` send marks over a channel, and one goroutine,
-- `process`, takes them in order. The state holds the two atomic counters, the channel, and what
-- `process` keeps: the heap of indices, the pending counts, the waiters, and the channels closed.
--
-- container/heap is Go's: a heap is known by its sorted list, `heap.Push` inserts, and `indices[0]`
-- and `heap.Pop` give the least. A waiter's channel is a number. `none` is log.Fatal.
pub mod Heap
pub mod Notify
pub mod Sound
pub mod Counting
pub mod Tally
pub mod Marks
pub mod Steps
pub mod Run
pub mod Below
use badgerx.Prelude.{
  ℕ, zero, suc, ◌+◌, ◌-◌, ◌%◌, ◌^◌, Bool, true, false, ◌&&◌, ◌||◌, Option, none, some, List, [],
  ◌∷◌, ◌++◌, nat_eq, length, ltb, leb, ◌==◌, if◌then◌else◌,
}
use badgerx.Prelude.Int.{ℤ, pos, succ, pred, is_pos}
use badgerx.Prelude.Maps.{lookup, insert, delete}

-- A (index, waiter) pair or (index, done) or (indices, done).
pub record Mark : Type 0 where
  pub index : ℕ
  pub waiter : Option ℕ
  pub indices : List ℕ
  pub is_done : Bool

pub record WaterMark : Type 0 where
  pub done_until : ℕ
  pub last_index : ℕ
  pub mark_ch : List Mark
  pub indices : List ℕ
  pub pending : List (ℕ × ℤ)
  pub waiters : List (ℕ × List ℕ)
  pub closed : List ℕ

abbrev pub init : WaterMark
init = record {
  done_until = 0;
  last_index = 0;
  mark_ch = [];
  indices = [];
  pending = [];
  waiters = [];
  closed = [];
}

abbrev pub send : WaterMark → Mark → WaterMark
send w m = record w { mark_ch = w.mark_ch ++ (m ∷ []) }

unfoldable pub begin : WaterMark → ℕ → WaterMark
begin w index =
    send (record w { last_index = index })
      (record { index = index; waiter = none; indices = []; is_done = false })

abbrev last : List ℕ → Option ℕ
last [] = none
last (x ∷ []) = some x
last (x ∷ y ∷ xs) = last (y ∷ xs)

-- `indices[len(indices)-1]` panics on the empty slice.
unfoldable pub begin_many : WaterMark → List ℕ → Option WaterMark
begin_many w indices = elim (last indices) [
  | none ↦ none
  | some l ↦ some (
      send (record w { last_index = l })
        (record { index = 0; waiter = none; indices = indices; is_done = false }))
]

unfoldable pub done : WaterMark → ℕ → WaterMark
done w index = send w (record { index = index; waiter = none; indices = []; is_done = true })

unfoldable pub done_many : WaterMark → List ℕ → WaterMark
done_many w indices =
    send w (record { index = 0; waiter = none; indices = indices; is_done = true })

unfoldable pub set_done_until : WaterMark → ℕ → WaterMark
set_done_until w val = record w { done_until = val }

-- `WaitForMark` up to its `select`: true if it returns at once, else a mark is sent and the caller
-- waits for `ch` to be closed or for its context.
unfoldable pub wait_for_mark : WaterMark → ℕ → ℕ → Bool × WaterMark
wait_for_mark w index ch =
    if leb index w.done_until
    then (true, w)
    else (false, send w (record { index = index; waiter = some ch; indices = []; is_done = false }))

-- heap.Push
unfoldable pub heap_push : ℕ → List ℕ → List ℕ
heap_push i [] = i ∷ []
heap_push i (m ∷ ms) = if leb i m then i ∷ m ∷ ms else m ∷ heap_push i ms

-- `pending[i]`, 0 if missing
unfoldable pub count : List (ℕ × ℤ) → ℕ → ℤ
count p i = elim (lookup i p) [ none ↦ pos 0 | some c ↦ c ]

-- The loop over the heap: pops the indices that are done, up to the first that is not.
unfoldable pub pop_done : List ℕ → List (ℕ × ℤ) → ℕ → List ℕ × List (ℕ × ℤ) × ℕ
pop_done [] p until = ([], p, until)
pop_done (m ∷ ms) p until =
    let popped = pop_done ms (delete m p) m in
    if is_pos (count p m) then (m ∷ ms, p, until) else popped

abbrev pub Waiters : Type 0
Waiters = List (ℕ × List ℕ) × List ℕ

-- `for idx := doneUntil + 1; idx <= until; idx++`, with the rounds that are left.
unfoldable pub notify_range : ℕ → ℕ → List (ℕ × List ℕ) → List ℕ → Waiters
notify_range zero idx ws closed = (ws, closed)
notify_range (suc rounds) idx ws closed = elim (lookup idx ws) [
  | none ↦ notify_range rounds (idx + 1) ws closed
  | some chs ↦ notify_range rounds (idx + 1) (delete idx ws) (closed ++ chs)
]

-- `for idx, toNotify := range waiters`
unfoldable pub notify_all : ℕ → List (ℕ × List ℕ) → List ℕ → Waiters
notify_all until [] closed = ([], closed)
notify_all until ((idx, chs) ∷ ws) closed =
    let (ws', closed') = notify_all until ws (if leb idx until then closed ++ chs else closed) in
    (if leb idx until then ws' else (idx, chs) ∷ ws', closed')

unfoldable pub notify : ℕ → ℕ → List (ℕ × List ℕ) → List ℕ → Waiters
notify done_until until ws closed =
    if leb ((until + 2 ^ 64 - done_until) % 2 ^ 64) (length ws)
    then notify_range (until - done_until) (done_until + 1) ws closed
    else notify_all until ws closed

unfoldable pub push_new : List (ℕ × ℤ) → ℕ → List ℕ → List ℕ
push_new p index ms = elim (lookup index p) [ none ↦ heap_push index ms | some c ↦ ms ]

unfoldable pub process_one : WaterMark → ℕ → Bool → Option WaterMark
process_one w index is_done =
    let c = count w.pending index in
    let (ms, p, until) =
      pop_done (push_new w.pending index w.indices)
        (insert index (if is_done then pred c else succ c) w.pending) w.done_until in
    let (ws, closed) = notify w.done_until until w.waiters w.closed in
    if ltb index w.done_until
    then none
    else some
        (record w { done_until = until; indices = ms; pending = p; waiters = ws; closed = closed })

unfoldable pub process_each : WaterMark → List ℕ → Bool → Option WaterMark
process_each w [] is_done = some w
process_each w (i ∷ is) is_done = elim (process_one w i is_done) [
  | none ↦ none
  | some w' ↦ process_each w' is is_done
]

unfoldable pub add_waiter : WaterMark → ℕ → ℕ → WaterMark
add_waiter w index ch =
    if leb index w.done_until
    then record w { closed = w.closed ++ (ch ∷ []) }
    else elim (lookup index w.waiters) [
      | none ↦ record w { waiters = insert index (ch ∷ []) w.waiters }
      | some chs ↦ record w { waiters = insert index (chs ++ (ch ∷ [])) w.waiters }
    ]

-- One mark, as the `select` of `process` handles it.
unfoldable pub process_mark : WaterMark → Mark → Option WaterMark
process_mark w m = elim m.waiter [
  | some ch ↦ some (add_waiter w m.index ch)
  | none ↦
      elim (if ltb 0 m.index || (m.index == 0 && length m.indices == 0)
        then process_one w m.index m.is_done
        else some w) [ none ↦ none | some w' ↦ process_each w' m.indices m.is_done ]
]

-- The goroutine receives the oldest mark; with none it waits.
unfoldable pub receive : WaterMark → Option WaterMark
receive w = elim w.mark_ch [ [] ↦ some w | m ∷ ms ↦ process_mark (record w { mark_ch = ms }) m ]
