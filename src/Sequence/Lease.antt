-- ===== src/Sequence/Lease.antt =====
-- Which numbers a sequence hands out: db.go.
use badgerx.Prelude.{◌+◌, ◌^◌, ◌≤◌, ◌<◌, ◌≡◌, none, some, arith}
use badgerx.Txn.{Error, ok, err}
use badgerx.Sequence.{Sequence, Faults, Store, stored_lease, update_lease, next_number}

-- What the sequence may hand out without a new lease lies below the stored one.
abbrev pub IsLeased : Store → Sequence → Type 0
IsLeased store seq = seq.leased ≤ stored_lease store

abbrev pub no_faults : Faults
no_faults = record { on_get = none; on_set = none; on_commit = none }

abbrev pub fails_to_commit : Error → Faults
fails_to_commit x = record no_faults { on_commit = some x }

-- Where the commit of a new lease fails, `Next` returns the error, but the lease counts in memory:
-- the next call hands out a number from the stored lease on, with the store unchanged.
pub next_number_unleased :
    (store : Store) (seq : Sequence) (x : Error)
    → seq.leased ≤ seq.next
    → 0 < seq.bandwidth
    → stored_lease store + seq.bandwidth < 2 ^ 64
    → ((next_number (fails_to_commit x) store seq).0 ≡ err x)
      × ((next_number no_faults
            (next_number (fails_to_commit x) store seq).1
            (next_number (fails_to_commit x) store seq).2).0
          ≡ ok (stored_lease store))
      × ((next_number no_faults
            (next_number (fails_to_commit x) store seq).1
            (next_number (fails_to_commit x) store seq).2).1
          ≡ store)
unfolding next_number update_lease
next_number_unleased store seq x l b o = (ground arith, ground arith, ground arith)
