-- ===== src/Examples/Numbers.antt =====
-- Numbers of a sequence: db.go.
use badgerx.Prelude.{◌+◌, ◌<◌, ◌^◌, ◌≡◌, some, arith}
use badgerx.Keys.{put_be, get_be}
use badgerx.Txn.{ok, err, conflict}
use badgerx.Sequence.{Sequence, Store, stored_lease, next_number}
use badgerx.Sequence.Lease.{no_faults, fails_to_commit, next_number_unleased}

-- The lease up to 5 is used up.
abbrev used : Sequence
used = record { next = 5; leased = 5; bandwidth = 10 }

abbrev five : Store
five = some (put_be 8 5)

abbrev renewed : Sequence
renewed = record { next = 6; leased = 15; bandwidth = 10 }

fits : stored_lease five + 10 < 2 ^ 64
unfolding stored_lease put_be get_be
fits = omega arith

next_number_unleased_example :
    ((next_number (fails_to_commit conflict) five used).0 ≡ err conflict)
    × ((next_number no_faults
          (next_number (fails_to_commit conflict) five used).1
          (next_number (fails_to_commit conflict) five used).2).0
        ≡ ok (stored_lease five))
    × ((next_number no_faults
          (next_number (fails_to_commit conflict) five used).1
          (next_number (fails_to_commit conflict) five used).2).1
        ≡ five)
next_number_unleased_example =
    next_number_unleased five used conflict (omega arith) (omega arith) fits
