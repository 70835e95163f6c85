-- ===== src/Examples/Commits.antt =====
-- Runs of the oracle of txn.go.
use badgerx.Prelude.{◌≡◌, ◌↔◌, refl, true, false, some, [], ◌∷◌, nat_eq, arith}
use badgerx.Prelude.Int.{pos}
use badgerx.Prelude.Maps.{lookup, insert, delete}
use badgerx.WaterMark
use badgerx.WaterMark.{
  WaterMark, Mark, process_mark, process_one, process_each, receive, count, heap_push, push_new,
  pop_done, notify, notify_range, notify_all,
}
use badgerx.Txn.{Txn}
use badgerx.Oracle.{
  CommittedTxn, new_oracle, increment_next_ts, read_ts, new_commit_ts, has_conflict, any_conflict,
  reads_conflict, done_read, pick_ts, issue_ts, record_commit, cleanup_committed_transactions,
  discard_at_or_below,
}
use badgerx.Oracle.Conflict.{AnyClash, has_conflict_iff}
use badgerx.Oracle.History.{System, opened, start, Moves, Runs}
use badgerx.Oracle.Serial.{has_conflict-history}

abbrev blank : Txn
blank = record {
  read_ts = 0;
  commit_ts = 0;
  size = 1;
  count = 1;
  reads = [];
  conflict_keys = [];
  pending_writes = [];
  duplicate_writes = [];
  num_iterators = 0;
  discarded = false;
  done_read = true;
  update = true;
}

-- Both start at version 0; the writer has written fingerprint 7 and the reader has read it.
abbrev writer : Txn
writer = record blank { conflict_keys = (7, tt) ∷ [] }

abbrev reader : Txn
reader = record blank { reads = 7 ∷ [] }

-- The start was handled, the reader's begin was sent and handled.
abbrev settled : System
settled = record (start 0) {
  oracle = record (start 0).oracle { read_mark = record WaterMark.init { last_index = 0 } };
}

abbrev waiting : System
waiting = record settled {
  oracle = record settled.oracle { read_mark = WaterMark.begin settled.oracle.read_mark 0 };
}

abbrev reading : System
reading = record settled {
  oracle = record settled.oracle {
    read_mark = record WaterMark.init { indices = 0 ∷ []; pending = (0, pos 1) ∷ [] };
  };
}

-- The writer has committed at 1.
abbrev entry : CommittedTxn
entry = record { ts = 1; conflict_keys = (7, tt) ∷ [] }

abbrev written : System
written = record {
  oracle = record reading.oracle {
    next_txn_ts = 2;
    txn_mark = WaterMark.begin reading.oracle.txn_mark 1;
    committed_txns = entry ∷ [];
  };
  log = entry ∷ [];
}

settles : receive (start 0).oracle.read_mark ≡ some settled.oracle.read_mark
unfolding opened new_oracle increment_next_ts WaterMark.done receive process_mark process_one
    process_each count lookup insert delete push_new heap_push pop_done notify notify_range
    notify_all
settles = refl

reads_zero : read_ts settled.oracle ≡ some (0, waiting.oracle)
unfolding opened new_oracle increment_next_ts read_ts
reads_zero = refl

begins_zero : receive waiting.oracle.read_mark ≡ some reading.oracle.read_mark
unfolding WaterMark.begin receive process_mark process_one process_each count lookup insert delete
    push_new heap_push pop_done notify notify_range notify_all
begins_zero = refl

commits_one : new_commit_ts reading.oracle writer ≡ some (1, false, written.oracle, writer)
unfolding opened new_oracle increment_next_ts new_commit_ts has_conflict pick_ts issue_ts done_read
    cleanup_committed_transactions discard_at_or_below record_commit
commits_one = refl

written-Runs : Runs (start 0) written
unfolding opened new_oracle increment_next_ts
written-Runs =
    Runs.moves
      (Runs.moves
        (Runs.moves
          (Runs.moves Runs.stays (Moves.marks_read (start 0) settled.oracle.read_mark settles))
          (Moves.reads settled 0 waiting.oracle reads_zero))
        (Moves.marks_read waiting reading.oracle.read_mark begins_zero))
      (Moves.commits reading writer writer 1 written.oracle (omega arith) (omega arith) commits_one)

-- The reader read fingerprint 7, which the commit at 1 wrote: a conflict.
has_conflict-history_example :
    (has_conflict written.oracle reader ≡ true) ↔ AnyClash 0 (7 ∷ []) (entry ∷ [])
has_conflict-history_example =
    has_conflict-history 0 written reader (pos 1) (omega arith) written-Runs (unfold lookup in refl)

has_conflict_iff_example :
    (has_conflict written.oracle reader ≡ true) ↔ AnyClash 0 (7 ∷ []) (entry ∷ [])
has_conflict_iff_example = has_conflict_iff written.oracle reader

reader_conflicts : has_conflict written.oracle reader ≡ true
unfolding has_conflict any_conflict reads_conflict lookup
reader_conflicts = refl
