-- ===== src/Lib.antt =====
-- Verification of badger, an embeddable key-value store in Go: an LSM tree of versioned keys with a
-- value log, and transactions with serializable snapshot isolation on top.
--
-- Parts, and how they interact. A transaction (txn.go) collects its writes and the fingerprints of
-- what it reads. The oracle (txn.go) gives it a read timestamp, and at the commit looks for
-- conflicts with newer commits and gives a commit timestamp. The oracle keeps two watermarks
-- (y/watermark.go): which reads are still open, by which it forgets old commits, and which commits
-- have landed. Every key is stored with its timestamp (y/y.go), newest first. Compactions of the
-- tree register the key ranges they work on (compaction.go), so that no two share a key, and merge the
-- versions of the tables into new ones, without those that no reader sees any more (levels.go). The
-- manifest (manifest.go) has the tables of every level. A lookup goes through the memtables and the
-- levels (db.go, levels.go, level_handler.go) for the newest version of a key. A trie
-- with holes (trie/trie.go) finds the subscribers of a key.
--
-- Files.
-- - Prelude: names of the libraries, and what lists, maps and signed numbers need here. A Go map is
--   an association list over a decidable equality (Prelude.Maps); the laws hold for every order.
-- - Keys: KeyWithTs, ParseTs, ParseKey, CompareKeys, SameKey of y/y.go are key_with_ts, parse_ts,
--   parse_key, compare_keys, same_key. A byte slice is a list of numbers; what is said of bytes
--   asks that they are below 256.
-- - KeyRange: keyRange and getKeyRange of compaction.go; `extend` is one step to an assignment.
-- - CompactStatus: compactStatus of compaction.go. compareAndAdd is compare_and_add, delete is
--   delete_run; `none` is a failed assertion, a panic or log.Fatal. compactDef is of levels.go.
-- - WaterMark: WaterMark of y/watermark.go. Begin, Done and WaitForMark put marks in the channel
--   `mark_ch`; `receive` is one turn of the loop of `process`. WaterMark.Steps has the interleavings of
--   the callers and the goroutine as a step relation, and WaterMark.Counting and WaterMark.Tally
--   compare the pending counts with the begins and dones of the marks handled.
-- - Entry: Entry and valuePointer of structs.go, the flags of value.go, the expiry test of
--   iterator.go.
-- - Txn: Set, Delete, SetEntry, modify, Get, addReadKey of txn.go, isBanned of db.go. The hash
--   z.MemHash, the lookup DB.get and the clock are parameters.
-- - Oracle: every method of the oracle. Oracle.History has the interleavings of transactions and of
--   the watermarks' goroutines, with the list of all commits since the start.
-- - Commit: NewTransaction, Discard, Commit, commitAndSend and commitPrecheck of txn.go, with
--   sendToWriteCh of db.go. The write channel is the list of requests sent; the outcome of the
--   write, req.Wait, is a parameter. Two loops over a map run in one order, that of the list, and no
--   entry is reached through two keys. strconv.FormatUint gets 20 digits, enough for every uint64.
-- - Pending: pendingWritesIterator of txn.go. sort.Search is Go's binary search on as many rounds
--   as there are entries; sort.Slice is an insertion sort, as the keys of the writes differ.
-- - Sequence: GetSequence, Next, Release and updateLease of db.go are get_sequence, next_number,
--   release and update_lease; how each transaction ends is a parameter, and the state is the
--   sequence and the stored lease.
-- - Subcompact: subcompact of levels.go, with addKeys and updateStats. The merged iterator is the list
--   of the versions it has left, a builder the list of what it was given; when a builder has reached
--   its capacity, whether a range overlaps too much, and the clock are parameters. The loop over the
--   tables runs on as many rounds as there are versions, which Subcompact.Tables shows to be enough.
-- - Level: levelHandler of level_handler.go, with checkOverlap and exceedsAllowedOverlap of levels.go.
-- - Targets: levelTargets of levels.go, over the total sizes of the levels.
-- - Picking: fillTables and its kin of levels.go, over the levels' tables and the compaction status, with
--   buildChangeSet and addSplits. The clock, the sizes and the tables' highest versions are in a request.
-- - Lookup: db.get of db.go, levelsController.get of levels.go, get and getTableForKey of
--   level_handler.go, Get of skl/skl.go. A skip list or table is the sorted list of its versions; what
--   a table holds, and its filter, are parameters.
-- - Manifest: manifest.go. The file is its bytes; the checksum and the marshaling of changes are
--   parameters. The loop of the replay runs on as many rounds as the file has bytes, and every record
--   takes eight at least.
-- - Trie: the trie of trie/trie.go; a path is a prefix with its holes. Trie.Named says which bytes the
--   ranges of a match name, and Trie.Fits which keys a match is for.
-- - Examples: the theorems at concrete inputs, and runs of the code.
--
-- Numbers are natural numbers; uint64 arithmetic wraps where the code's can (`% 2 ^ 64`). Counters
-- that may be negative are signed (Prelude.Int). The loops are recursive over their data; the loop
-- of a watermark over the indices from doneUntil + 1 to until runs on the number of rounds, which
-- is until - doneUntil, so that it has just enough of them.
--
-- Not modelled: files but for the manifest's bytes, checksums, compression and encryption; goroutines
-- other than the watermarks'; the scores of levels, the insides of tables and skip lists,
-- iterators, streams and backups. Locks are the steps:
-- what the code does under one lock is one step. fillTables is more: it takes the lock of the
-- compaction status several times, and is modelled as one step, on a status that no other compactor
-- changes between. CompareKeys panics on a key shorter than a timestamp; the model compares it
-- without the panic, and theorems in which that matters ask for long enough keys.
pub mod Prelude
pub mod Keys
pub mod KeyRange
pub mod CompactStatus
pub mod WaterMark
pub mod Entry
pub mod Txn
pub mod Oracle
pub mod Commit
pub mod Pending
pub mod Sequence
pub mod Subcompact
pub mod Level
pub mod Manifest
pub mod Targets
pub mod Picking
pub mod Lookup
pub mod Trie
pub mod Examples
