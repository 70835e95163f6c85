-- ===== src/Pending.antt =====
-- The iterator over a transaction's own writes: `pendingWritesIterator` of txn.go. sort.Search is
-- Go's binary search, sort.Slice an insertion sort.
pub mod Search
use badgerx.Prelude.{
  ℕ, zero, suc, ◌+◌, ◌/◌, Ordering, Bool, true, false, ◌||◌, not, Option, none, some, List, [], ◌∷◌,
  length, ltb, ◌==◌, get_elem?, if◌then◌else◌,
}
use badgerx.Prelude.Search.{sort_search}
use badgerx.Keys.{key_with_ts, parse_key, bytes_compare}
use badgerx.Entry.{Entry}
use badgerx.Txn.{Txn}
use badgerx.Commit.{values}

pub record PendingWritesIterator : Type 0 where
  pub entries : List Entry
  pub next_idx : ℕ
  pub read_ts : ℕ
  pub reversed : Bool

-- cmp < 0, or cmp > 0 in reverse
abbrev pub is_before : Bool → Ordering → Bool
is_before false Ordering.lt = true
is_before false Ordering.eq = false
is_before false Ordering.gt = false
is_before true Ordering.lt = false
is_before true Ordering.eq = false
is_before true Ordering.gt = true

unfoldable pub place : Bool → Entry → List Entry → List Entry
place reversed e [] = e ∷ []
place reversed e (d ∷ ds) =
    let rest = place reversed e ds in
    if is_before reversed (bytes_compare d.key e.key) then d ∷ rest else e ∷ d ∷ ds

unfoldable pub sort_entries : Bool → List Entry → List Entry
sort_entries reversed [] = []
sort_entries reversed (e ∷ es) = place reversed e (sort_entries reversed es)

-- `none` is nil.
unfoldable pub new_pending_writes_iterator : Txn → Bool → Option PendingWritesIterator
new_pending_writes_iterator txn reversed =
    if not txn.update || length txn.pending_writes == 0
    then none
    else some (record {
      entries = sort_entries reversed (values txn.pending_writes);
      next_idx = 0;
      read_ts = txn.read_ts;
      reversed = reversed;
    })

unfoldable pub advance : PendingWritesIterator → PendingWritesIterator
advance pi = record pi { next_idx = pi.next_idx + 1 }

unfoldable pub rewind : PendingWritesIterator → PendingWritesIterator
rewind pi = record pi { next_idx = 0 }

-- The condition of `Seek`: the entry does not come before the key.
unfoldable pub reaches : PendingWritesIterator → List ℕ → ℕ → Bool
reaches pi key idx = elim (get_elem? pi.entries idx) [
  | none ↦ false
  | some e ↦ not (is_before pi.reversed (bytes_compare e.key key))
]

unfoldable pub seek : PendingWritesIterator → List ℕ → PendingWritesIterator
seek pi key = record pi { next_idx = sort_search (length pi.entries) (reaches pi (parse_key key)) }

unfoldable pub valid : PendingWritesIterator → Bool
valid pi = ltb pi.next_idx (length pi.entries)

-- `none` is a failed assertion.
unfoldable pub current_key : PendingWritesIterator → Option (List ℕ)
current_key pi = elim (get_elem? pi.entries pi.next_idx) [
  | none ↦ none
  | some e ↦ some (key_with_ts e.key pi.read_ts)
]
