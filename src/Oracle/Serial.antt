-- ===== src/Oracle/Serial.antt =====
-- First committer wins: the conflicts that the oracle finds against the history of all commits.
use badgerx.Prelude.{ℕ, ◌+◌, ◌^◌, ◌≤◌, ◌<◌, ◌≡◌, ◌↔◌, sym, ap, ◌∙◌, true, some, nat_eq, arith}
use badgerx.Prelude.Maps.{lookup}
use badgerx.Prelude.Int.{ℤ}
use badgerx.WaterMark.Run.{pending-ge-done_until}
use badgerx.Txn.{Txn}
use badgerx.Oracle.{has_conflict, any_conflict}
use badgerx.Oracle.Conflict.{AnyClash, has_conflict_iff, any_conflict_iff}
use badgerx.Oracle.Cleanup.{any_conflict-keep_above}
use badgerx.Oracle.History.{System, Runs, start}
use badgerx.Oracle.History.Steps.{Runs-IsFaithful}

-- In every interleaving, a transaction whose read timestamp the read mark still counts as pending
-- conflicts exactly when some commit of the whole history is newer than its reads and wrote what it
-- read: what the cleanups have forgotten never matters to it.
pub has_conflict-history :
    (v : ℕ) (s : System) (t : Txn) (c : ℤ)
    → v + 1 < 2 ^ 64
    → Runs (start v) s
    → lookup t.read_ts s.oracle.read_mark.pending ≡ some c
    → (has_conflict s.oracle t ≡ true) ↔ AnyClash t.read_ts t.reads s.log
has_conflict-history v s t c h r p =
    let f = Runs-IsFaithful v h r in
    let le : s.oracle.last_cleanup_ts ≤ t.read_ts =
      omega (arith, f.cleaned, pending-ge-done_until s.oracle.read_mark t.read_ts c f.marked p) in
    let same =
      ap (any_conflict t.read_ts t.reads) f.remembers
      ∙ any_conflict-keep_above _ t.read_ts t.reads s.log le in
    (
      λ e. (any_conflict_iff t.read_ts t.reads s.log).0 (
          sym same
          ∙ (any_conflict_iff t.read_ts t.reads s.oracle.committed_txns).1
              ((has_conflict_iff s.oracle t).0 e)),
      λ e. (has_conflict_iff s.oracle t).1 (
          (any_conflict_iff t.read_ts t.reads s.oracle.committed_txns).0
            (same ∙ (any_conflict_iff t.read_ts t.reads s.log).1 e)),
    )
