-- ===== src/Examples/Committing.antt =====
-- A commit from its writes to the write channel: txn.go.
use badgerx.Prelude.{◌≡◌, refl, true, false, none, some, [], ◌∷◌, nat_eq, arith}
use badgerx.Keys.{key_with_ts, put_be}
use badgerx.WaterMark
use badgerx.Entry.{Entry, set_threshold, estimate_size_and_set_threshold, new_entry}
use badgerx.Txn.{Txn, Config, ok, err, txn_too_big, txn_key}
use badgerx.Oracle.{
  Oracle, new_commit_ts, has_conflict, pick_ts, issue_ts, record_commit, done_read,
  cleanup_committed_transactions, discard_at_or_below, done_commit,
}
use badgerx.Commit.{
  Db, keep_together, commit_entries, send_to_write_ch, send_commit, commit_and_send, commit,
  commit_precheck, discard, discard_with, estimate_all, set_version, process_entry, fin_entry,
  format_uint,
}
use badgerx.Commit.Outcome.{IsSettled}
use badgerx.Commit.Settled.{commit-IsSettled, commit-discarded}
use badgerx.Commit.Batch.{IsBatch, commit_and_send-IsBatch, commit_and_send-write_ch}
use badgerx.Examples.Writes.{db, after, key, kept}

abbrev orc : Oracle
orc = record {
  is_managed = false;
  detect_conflicts = true;
  next_txn_ts = 5;
  txn_mark = WaterMark.init;
  discard_ts = 0;
  read_mark = WaterMark.init;
  committed_txns = [];
  last_cleanup_ts = 0;
}

abbrev before : Db
before = record { oracle = orc; block_writes = false; write_ch = [] }

-- The write and the end marker, at timestamp 5.
abbrev at_five : Entry
at_five = record kept { key = key_with_ts key 5; version = 5; meta = 64 }

abbrev marker : Entry
marker = record {
  key = key_with_ts txn_key 5;
  value = b'5' ∷ [];
  expires_at = 0;
  version = 0;
  offset = 0;
  user_meta = 0;
  meta = 128;
  hlen = 0;
  val_threshold = 100;
}

abbrev sending : Txn
sending = record after { pending_writes = (key, at_five) ∷ []; done_read = true }

abbrev issued : Oracle
issued = record orc {
  next_txn_ts = 6;
  txn_mark = WaterMark.begin WaterMark.init 5;
  read_mark = WaterMark.done WaterMark.init 4;
  committed_txns = record { ts = 5; conflict_keys = (2, tt) ∷ [] } ∷ [];
}

abbrev queued : Db
queued = record { oracle = issued; block_writes = false; write_ch = (at_five ∷ marker ∷ []) ∷ [] }

sends : commit_and_send db before after ≡ some (ok 5, queued, sending)
unfolding commit_and_send new_commit_ts has_conflict pick_ts issue_ts record_commit done_read
    cleanup_committed_transactions discard_at_or_below send_commit keep_together commit_entries
    send_to_write_ch estimate_all estimate_size_and_set_threshold set_threshold set_version
    process_entry fin_entry format_uint new_entry key_with_ts put_be WaterMark.done
sends = refl

commit_and_send-IsBatch_example : IsBatch db before queued after 5
commit_and_send-IsBatch_example =
    commit_and_send-IsBatch db before queued after sending 5 (omega arith) (omega arith, tt)
      (unfold keep_together in refl) sends

-- A batch of one entry is too small for it and its marker.
abbrev narrow : Config
narrow = record db { max_batch_count = 2 }

abbrev given_up : Db
given_up = record { oracle = done_commit issued 5; block_writes = false; write_ch = [] }

refuses : commit_and_send narrow before after ≡ some (err txn_too_big, given_up, sending)
unfolding commit_and_send new_commit_ts has_conflict pick_ts issue_ts record_commit done_read
    cleanup_committed_transactions discard_at_or_below send_commit keep_together commit_entries
    send_to_write_ch estimate_all estimate_size_and_set_threshold set_threshold set_version
    process_entry fin_entry format_uint new_entry key_with_ts put_be WaterMark.done
refuses = refl

commit_and_send-write_ch_example : given_up.write_ch ≡ before.write_ch
commit_and_send-write_ch_example =
    commit_and_send-write_ch narrow before given_up after sending txn_too_big refuses

abbrev landed : Db
landed = record queued { oracle = done_commit issued 5 }

abbrev closed : Txn
closed = record sending { discarded = true }

commits : commit db before after none ≡ some (none, landed, closed)
unfolding commit commit_precheck discard_with discard done_commit commit_and_send new_commit_ts
    has_conflict pick_ts issue_ts record_commit done_read cleanup_committed_transactions
    discard_at_or_below send_commit keep_together commit_entries send_to_write_ch estimate_all
    estimate_size_and_set_threshold set_threshold set_version process_entry fin_entry format_uint
    new_entry key_with_ts put_be WaterMark.done
commits = refl

commit-IsSettled_example : IsSettled WaterMark.init landed.oracle.txn_mark
commit-IsSettled_example = commit-IsSettled db before landed after closed none none refl commits

commit-discarded_example : closed.discarded ≡ true
commit-discarded_example =
    commit-discarded db before landed after closed none none
      (unfold commit_precheck keep_together in refl) commits
