-- ===== src/Oracle/History.antt =====
-- The oracle against the history of all commits: every interleaving of transactions that begin,
-- commit and end, and of the goroutines of the two watermarks. txn.go, with the start of db.go.
pub mod Reads
pub mod Steps
use badgerx.Prelude.{
  ℕ, ◌+◌, ◌-◌, ◌%◌, ◌^◌, ◌≤◌, ◌<◌, ◌≡◌, sym, refl, ap, ◌∙◌, ◌⊎◌, Bool, true, false, not, ◌||◌,
  Option, none, some, List, [], ◌∷◌, ◌++◌, leb, ltb, nat_eq, arith, All, All-map, length,
  if◌then◌else◌, Bool-cases, Option-cases, inl, inr, ◌==◌,
}
use mathlib.Core.Path.{subst}
use badgerx.Prelude.Maps.{lookup}
use badgerx.Prelude.Int.{ℤ}
use badgerx.WaterMark
use badgerx.WaterMark.{WaterMark}
use badgerx.WaterMark.Steps.{Reach, Step}
use badgerx.WaterMark.Below.{IsBelow, receive-IsBelow, begin-IsBelow, done-IsBelow, IsBelow-mono}
use badgerx.Txn.{Txn}
use badgerx.Oracle.{
  CommittedTxn, Oracle, new_oracle, read_ts, increment_next_ts, has_conflict, any_conflict,
  done_read, keep_above, cleanup_committed_transactions, discard_at_or_below, issue_ts, pick_ts,
  record_commit, new_commit_ts, done_commit,
}
use badgerx.Oracle.Cleanup.{any_conflict-keep_above, keep_above_twice, keep_above-snoc}

-- `Open` sets the oracle to the largest version that it found, marks it done, and goes on from the
-- next timestamp.
unfoldable pub opened : ℕ → Oracle
opened v =
    let o = new_oracle false true in
    increment_next_ts (record o {
      next_txn_ts = v;
      txn_mark = WaterMark.done o.txn_mark v;
      read_mark = WaterMark.done o.read_mark v;
    })

-- The oracle, with every commit since the start.
pub record System : Type 0 where
  pub oracle : Oracle
  pub log : List CommittedTxn

abbrev pub start : ℕ → System
start v = record { oracle = opened v; log = [] }

-- One step under the oracle's lock, or of a watermark's goroutine. Timestamps stay below 2^64.
pub data Moves : System → System → Type 0 where
  reads :
      (s : System) (ts : ℕ) (o : Oracle)
      → read_ts s.oracle ≡ some (ts, o)
      → Moves s (record s { oracle = o })
  ends :
      (s : System) (t : Txn)
      → t.read_ts < s.oracle.next_txn_ts
      → Moves s (record s { oracle = (done_read s.oracle t).0 })
  commits :
      (s : System) (t t' : Txn) (ts : ℕ) (o : Oracle)
      → t.read_ts < s.oracle.next_txn_ts
      → s.oracle.next_txn_ts + 1 < 2 ^ 64
      → new_commit_ts s.oracle t ≡ some (ts, false, o, t')
      → Moves s (record {
        oracle = o;
        log = s.log ++ (record { ts = ts; conflict_keys = t'.conflict_keys } ∷ []);
      })
  refuses :
      (s : System) (t t' : Txn) (ts : ℕ) (o : Oracle)
      → new_commit_ts s.oracle t ≡ some (ts, true, o, t')
      → Moves s (record s { oracle = o })
  lands : (s : System) (ts : ℕ) → Moves s (record s { oracle = done_commit s.oracle ts })
  marks_read :
      (s : System) (w : WaterMark)
      → WaterMark.receive s.oracle.read_mark ≡ some w
      → Moves s (record s { oracle = record s.oracle { read_mark = w } })
  marks_txn :
      (s : System) (w : WaterMark)
      → WaterMark.receive s.oracle.txn_mark ≡ some w
      → Moves s (record s { oracle = record s.oracle { txn_mark = w } })

pub data Runs (s : System) : System → Type 0 where
  stays : Runs s s
  moves : {t u : System} → Runs s t → Moves t u → Runs s u

-- The oracle remembers of the history exactly what is newer than its last cleanup.
pub record IsFaithful (s : System) : Type 0 where
  pub unmanaged : s.oracle.is_managed ≡ false
  pub detects : s.oracle.detect_conflicts ≡ true
  pub remembers : s.oracle.committed_txns ≡ keep_above s.oracle.last_cleanup_ts s.log
  pub past : All (λ c. c.ts < s.oracle.next_txn_ts) s.log
  pub below : IsBelow s.oracle.next_txn_ts s.oracle.read_mark
  pub cleaned : s.oracle.last_cleanup_ts ≤ s.oracle.read_mark.done_until
  pub marked : Reach WaterMark.init s.oracle.read_mark
  pub positive : 0 < s.oracle.next_txn_ts
  pub bounded : s.oracle.next_txn_ts < 2 ^ 64

opened-IsFaithful : (v : ℕ) → v + 1 < 2 ^ 64 → IsFaithful (start v)
unfolding opened new_oracle increment_next_ts keep_above
opened-IsFaithful v h = record {
  unmanaged = refl;
  detects = refl;
  remembers = refl;
  past = tt;
  below = done-IsBelow _ _ v (omega arith) (record { mark = omega arith; heap = tt; channel = tt });
  cleaned = unfold WaterMark.done in omega arith;
  marked = Reach.next Reach.here (Step.ends WaterMark.init v);
  positive = omega arith;
  bounded = omega arith;
}
