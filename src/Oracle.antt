-- ===== src/Oracle.antt =====
-- The oracle of txn.go: it gives out read and commit timestamps, finds conflicts, and cleans up.
-- Each method that takes the lock is one step on the state; the watermarks are those of WaterMark,
-- to which `Begin` and `Done` send marks. `none` is a failed assertion or a panic.
pub mod Conflict
pub mod Cleanup
pub mod History
pub mod Serial
use badgerx.Prelude.{
  ℕ, ◌+◌, ◌-◌, ◌%◌, ◌^◌, Bool, true, false, not, ◌&&◌, ◌||◌, Option, none, some, List, [], ◌∷◌,
  ◌++◌, nat_eq, length, ltb, leb, ◌==◌, if◌then◌else◌,
}
use badgerx.Prelude.Maps.{lookup}
use badgerx.WaterMark
use badgerx.WaterMark.{WaterMark}
use badgerx.Txn.{Txn}

pub record CommittedTxn : Type 0 where
  pub ts : ℕ
  pub conflict_keys : List (ℕ × Unit {0})

pub record Oracle : Type 0 where
  pub is_managed : Bool
  pub detect_conflicts : Bool
  pub next_txn_ts : ℕ
  pub txn_mark : WaterMark
  pub discard_ts : ℕ
  pub read_mark : WaterMark
  pub committed_txns : List CommittedTxn
  pub last_cleanup_ts : ℕ

unfoldable pub new_oracle : Bool → Bool → Oracle
new_oracle managed_txns detect_conflicts = record {
  is_managed = managed_txns;
  detect_conflicts = detect_conflicts;
  next_txn_ts = 0;
  txn_mark = WaterMark.init;
  discard_ts = 0;
  read_mark = WaterMark.init;
  committed_txns = [];
  last_cleanup_ts = 0;
}

-- `readTs` under its lock; the caller then waits until `txn_mark` reaches the timestamp.
unfoldable pub read_ts : Oracle → Option (ℕ × Oracle)
read_ts o =
    let ts = (o.next_txn_ts + 2 ^ 64 - 1) % 2 ^ 64 in
    if o.is_managed
    then none
    else some (ts, record o { read_mark = WaterMark.begin o.read_mark ts })

unfoldable pub next_ts : Oracle → ℕ
next_ts o = o.next_txn_ts

unfoldable pub increment_next_ts : Oracle → Oracle
increment_next_ts o = record o { next_txn_ts = (o.next_txn_ts + 1) % 2 ^ 64 }

unfoldable pub discard_at_or_below : Oracle → ℕ
discard_at_or_below o = if o.is_managed then o.discard_ts else o.read_mark.done_until

abbrev is_some : Option (Unit {0}) → Bool
is_some none = false
is_some (some u) = true

-- `for _, ro := range txn.reads`
unfoldable pub reads_conflict : List ℕ → List (ℕ × Unit {0}) → Bool
reads_conflict [] keys = false
reads_conflict (ro ∷ ros) keys = is_some (lookup ro keys) || reads_conflict ros keys

unfoldable pub any_conflict : ℕ → List ℕ → List CommittedTxn → Bool
any_conflict read_ts reads [] = false
any_conflict read_ts reads (c ∷ cs) =
    if leb c.ts read_ts
    then any_conflict read_ts reads cs
    else reads_conflict reads c.conflict_keys || any_conflict read_ts reads cs

unfoldable pub has_conflict : Oracle → Txn → Bool
has_conflict o txn =
    if length txn.reads == 0 then false else any_conflict txn.read_ts txn.reads o.committed_txns

unfoldable pub done_read : Oracle → Txn → Oracle × Txn
done_read o txn =
    if not txn.done_read
    then (
      record o { read_mark = WaterMark.done o.read_mark txn.read_ts },
      record txn { done_read = true },
    )
    else (o, txn)

-- The transactions with a timestamp above the argument.
unfoldable pub keep_above : ℕ → List CommittedTxn → List CommittedTxn
keep_above max_read_ts [] = []
keep_above max_read_ts (c ∷ cs) =
    let rest = keep_above max_read_ts cs in if leb c.ts max_read_ts then rest else c ∷ rest

unfoldable pub cleanup_committed_transactions : Oracle → Option Oracle
unfolding discard_at_or_below
cleanup_committed_transactions o =
    let max_read_ts = discard_at_or_below o in
    if not o.detect_conflicts
    then some o
    else if ltb max_read_ts o.last_cleanup_ts
    then none
    else if max_read_ts == o.last_cleanup_ts
    then some o
    else some (record o {
      last_cleanup_ts = max_read_ts;
      committed_txns = keep_above max_read_ts o.committed_txns;
    })

unfoldable pub set_discard_ts : Oracle → ℕ → Option Oracle
set_discard_ts o ts = cleanup_committed_transactions (record o { discard_ts = ts })

-- A new timestamp, after the cleanup.
unfoldable pub issue_ts : Oracle → Txn → Option (ℕ × Oracle × Txn)
issue_ts o txn = elim (cleanup_committed_transactions o) [
  | none ↦ none
  | some c ↦ some (
    c.next_txn_ts,
    record c {
      next_txn_ts = (c.next_txn_ts + 1) % 2 ^ 64;
      txn_mark = WaterMark.begin c.txn_mark c.next_txn_ts;
    },
    txn,
  )
]

-- The commit timestamp, for the mode of the oracle: a new one, or the transaction's own.
unfoldable pub pick_ts : Oracle → Txn → Option (ℕ × Oracle × Txn)
pick_ts o txn =
    if not o.is_managed
    then issue_ts (done_read o txn).0 (done_read o txn).1
    else some (txn.commit_ts, o, txn)

unfoldable pub record_commit : Oracle → Txn → ℕ → Oracle
record_commit o txn ts =
    if o.detect_conflicts
    then record o {
      committed_txns =
          o.committed_txns ++ (record { ts = ts; conflict_keys = txn.conflict_keys } ∷ []);
    }
    else o

-- The timestamp and whether there was a conflict, with the oracle and the transaction afterwards.
unfoldable pub new_commit_ts : Oracle → Txn → Option (ℕ × Bool × Oracle × Txn)
new_commit_ts o txn = if has_conflict o txn then some (0, true, o, txn) else elim (pick_ts o txn) [
  | none ↦ none
  | some (ts, o', txn') ↦
      if ltb ts o'.last_cleanup_ts then none else some (ts, false, record_commit o' txn' ts, txn')
]

unfoldable pub done_commit : Oracle → ℕ → Oracle
done_commit o cts =
    if o.is_managed then o else record o { txn_mark = WaterMark.done o.txn_mark cts }
