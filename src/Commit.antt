-- ===== src/Commit.antt =====
-- The life of a transaction around the oracle: NewTransaction, Discard, Commit of txn.go, with
-- sendToWriteCh of db.go. The write channel is the list of the requests sent. An entry is reached
-- through its pointer, so the transaction keeps the entries as the commit leaves them.
pub mod Outcome
pub mod Settled
pub mod Batch
use badgerx.Prelude.{
  ℕ, zero, suc, ◌+◌, ◌/◌, ◌%◌, Bool, true, false, ◌&&◌, ◌||◌, not, Option, none, some, List, [],
  ◌∷◌, ◌++◌, length, ltb, leb, ◌==◌, if◌then◌else◌,
}
use Prim.Native.Nat.{bit_or}
use badgerx.Keys.{key_with_ts}
use badgerx.Entry.{Entry, bit_txn, bit_fin_txn, new_entry, estimate_size_and_set_threshold}
use badgerx.Txn.{
  Txn, Config, Error, Result, ok, err, conflict, blocked_writes, txn_too_big, commit_discarded,
  commit_ts_zero, txn_key,
}
use badgerx.Oracle.{Oracle, read_ts, new_commit_ts, done_commit, done_read}

-- What transactions change of the `DB`.
pub record Db : Type 0 where
  pub oracle : Oracle
  pub block_writes : Bool
  pub write_ch : List (List Entry)

-- The `update` flag is off on a read-only database.
abbrev fresh_txn : Bool → ℕ → Txn
fresh_txn update ts = record {
  read_ts = ts;
  commit_ts = 0;
  size = length txn_key + 10;
  count = 1;
  reads = [];
  conflict_keys = [];
  pending_writes = [];
  duplicate_writes = [];
  num_iterators = 0;
  discarded = false;
  done_read = false;
  update = update;
}

unfoldable pub new_transaction : Config → Oracle → Bool → Bool → Option (Txn × Oracle)
new_transaction db orc update is_managed =
    let writes = if db.read_only && update then false else update in
    if is_managed
    then some (fresh_txn writes 0, orc)
    else elim (read_ts orc) [ none ↦ none | some (ts, orc') ↦ some (fresh_txn writes ts, orc') ]

-- `none` is the panic on an open iterator.
unfoldable pub discard : Oracle → Txn → Option (Oracle × Txn)
discard orc txn =
    if txn.discarded
    then some (orc, txn)
    else if ltb 0 txn.num_iterators
    then none
    else if not orc.is_managed
    then some (done_read orc (record txn { discarded = true }))
    else some (orc, record txn { discarded = true })

abbrev pub values : List (List ℕ × Entry) → List Entry
values [] = []
values ((k, e) ∷ m) = e ∷ values m

abbrev pub map_values : (Entry → Entry) → List (List ℕ × Entry) → List (List ℕ × Entry)
map_values f [] = []
map_values f ((k, e) ∷ m) = (k, f e) ∷ map_values f m

abbrev pub map_entries : (Entry → Entry) → List Entry → List Entry
map_entries f [] = []
map_entries f (e ∷ es) = f e ∷ map_entries f es

-- No entry has a version of its own.
unfoldable pub keep_together : List Entry → Bool
keep_together [] = true
keep_together (e ∷ es) = e.version == 0 && keep_together es

unfoldable pub commit_precheck : Config → Txn → Option Error
commit_precheck db txn =
    if txn.discarded
    then some commit_discarded
    else if keep_together (values txn.pending_writes) && db.managed_txns && txn.commit_ts == 0
    then some commit_ts_zero
    else none

unfoldable pub set_version : ℕ → Entry → Entry
set_version commit_ts e = if e.version == 0 then record e { version = commit_ts } else e

unfoldable pub process_entry : Bool → Entry → Entry
process_entry together e = record e {
  key = key_with_ts e.key e.version;
  meta = if together then bit_or e.meta bit_txn else e.meta;
}

-- strconv.FormatUint to base 10, with the digits that are left: 20 hold every uint64.
unfoldable pub format_uint : ℕ → ℕ → List ℕ
format_uint zero n = []
format_uint (suc digits) n =
    let rest = format_uint digits (n / 10) in
    if ltb n 10 then (b'0' + n) ∷ [] else rest ++ ((b'0' + n % 10) ∷ [])

unfoldable pub fin_entry : ℕ → Entry
fin_entry commit_ts =
    record (new_entry (key_with_ts txn_key commit_ts) (format_uint 20 commit_ts)) {
      meta = bit_fin_txn;
    }

-- The sum of the estimates, with the entries as they leave them.
unfoldable pub estimate_all : ℕ → List Entry → ℕ × List Entry
estimate_all threshold [] = (0, [])
estimate_all threshold (e ∷ es) =
    let (n, e') = estimate_size_and_set_threshold e threshold in
    let (m, es') = estimate_all threshold es in (n + m, e' ∷ es')

-- No error follows the send, so that an error stands for a channel as it was.
unfoldable pub send_to_write_ch : Config → Db → List Entry → Result Db
send_to_write_ch cfg db entries =
    let (size, sent) = estimate_all cfg.value_threshold entries in
    if db.block_writes
    then err blocked_writes
    else if leb cfg.max_batch_count (length entries) || leb cfg.max_batch_size size
    then err txn_too_big
    else ok (record db { write_ch = db.write_ch ++ (sent ∷ []) })

abbrev pub all_entries : Txn → List Entry
all_entries txn = values txn.pending_writes ++ txn.duplicate_writes

-- The entries of one commit, with its end marker where they all have its timestamp.
unfoldable pub commit_entries : ℕ → Bool → List Entry → List Entry
commit_entries commit_ts together es =
    map_entries (λ e. process_entry together (set_version commit_ts e)) es
    ++ (if together then fin_entry commit_ts ∷ [] else [])

-- The transaction's entries afterwards.
abbrev pub written : ℕ → Bool → Txn → Txn
written commit_ts together txn = record txn {
  pending_writes =
      map_values (λ e. process_entry together (set_version commit_ts e)) txn.pending_writes;
  duplicate_writes =
      map_entries (λ e. process_entry together (set_version commit_ts e)) txn.duplicate_writes;
}

-- The entries go to the write channel; where that refuses them the timestamp is marked done.
unfoldable pub send_commit : Config → Db → Txn → ℕ → Result ℕ × Db × Txn
send_commit cfg db txn ts =
    let together = keep_together (all_entries txn) in
    elim (send_to_write_ch cfg db (commit_entries ts together (all_entries txn))) [
      | err x ↦ (err x, record db { oracle = done_commit db.oracle ts }, written ts together txn)
      | ok db' ↦ (ok ts, db', written ts together txn)
    ]

-- The commit timestamp, or the error. `none` is a failed assertion.
unfoldable pub commit_and_send : Config → Db → Txn → Option (Result ℕ × Db × Txn)
commit_and_send cfg db txn = elim (new_commit_ts db.oracle txn) [
  | none ↦ none
  | some (ts, clash, o, txn') ↦
      if clash
      then some (err conflict, record db { oracle = o }, txn')
      else if keep_together (all_entries txn') && ts == 0
      then none
      else some (send_commit cfg (record db { oracle = o }) txn' ts)
]

abbrev pub Committed : Type 0
Committed = Option (Option Error × Db × Txn)

-- The deferred `Discard`, with the error that is returned.
unfoldable pub discard_with : Option Error → Db → Txn → Committed
discard_with x db txn = elim (discard db.oracle txn) [
  | none ↦ none
  | some (o, txn') ↦ some (x, record db { oracle = o }, txn')
]

-- `wait` is the error of `req.Wait`, of the goroutine that writes the request.
unfoldable pub commit : Config → Db → Txn → Option Error → Committed
commit cfg db txn wait =
    if length txn.pending_writes == 0
    then discard_with none db txn
    else elim (commit_precheck cfg txn) [
      | some x ↦ some (some x, db, txn)
      | none ↦ elim (commit_and_send cfg db txn) [
        | none ↦ none
        | some (err x, db', txn') ↦ discard_with (some x) db' txn'
        | some (ok ts, db', txn') ↦
            discard_with wait (record db' { oracle = done_commit db'.oracle ts }) txn'
      ]
    ]
