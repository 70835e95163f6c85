-- ===== src/Sequence.antt =====
-- Sequences of db.go: numbers handed out of a lease that is stored under the sequence's key. The
-- store is the key's value, `none` where it has none; a value is one that a sequence wrote.
pub mod Lease
use badgerx.Prelude.{
  ℕ, ◌+◌, ◌%◌, ◌^◌, Bool, true, false, Option, none, some, List, [], length, leb, ◌==◌,
  if◌then◌else◌,
}
use badgerx.Keys.{put_be, get_be}
use badgerx.Txn.{Config, zero_bandwidth, Error, Result, ok, err, key_not_found, empty_key}

pub record Sequence : Type 0 where
  pub next : ℕ
  pub leased : ℕ
  pub bandwidth : ℕ

-- What goes wrong in a transaction: in its `Get`, its `SetEntry` or its commit.
pub record Faults : Type 0 where
  pub on_get : Option Error
  pub on_set : Option Error
  pub on_commit : Option Error

abbrev pub Store : Type 0
Store = Option (List ℕ)

-- The stored lease, 0 where the key is not found.
unfoldable pub stored_lease : Store → ℕ
stored_lease none = 0
stored_lease (some v) = get_be v

-- The function that `updateLease` runs sets the fields before the transaction commits.
unfoldable pub update_lease : Faults → Store → Sequence → Option Error × Store × Sequence
update_lease faults store seq =
    let num = stored_lease store in
    let lease = (num + seq.bandwidth) % 2 ^ 64 in
    elim faults.on_get [
      | some x ↦ (some x, store, seq)
      | none ↦ elim faults.on_set [
        | some x ↦ (some x, store, record seq { next = num })
        | none ↦ elim faults.on_commit [
          | some x ↦ (some x, store, record seq { next = num; leased = lease })
          | none ↦ (none, some (put_be 8 lease), record seq { next = num; leased = lease })
        ]
      ]
    ]

abbrev take_next : Store → Sequence → Result ℕ × Store × Sequence
take_next store seq = (ok seq.next, store, record seq { next = (seq.next + 1) % 2 ^ 64 })

abbrev after_update : Option Error × Store × Sequence → Result ℕ × Store × Sequence
after_update (some x, store, seq) = (err x, store, seq)
after_update (none, store, seq) = take_next store seq

unfoldable pub next_number : Faults → Store → Sequence → Result ℕ × Store × Sequence
next_number faults store seq =
    if leb seq.leased seq.next
    then after_update (update_lease faults store seq)
    else take_next store seq

-- The transaction of `Release`: the error, if any, and the store.
unfoldable pub give_back : Faults → Store → Sequence → Option Error × Store
give_back faults none seq = elim faults.on_get [
  | some x ↦ (some x, none)
  | none ↦ (some key_not_found, none)
]
give_back faults (some v) seq = elim faults.on_get [
  | some x ↦ (some x, some v)
  | none ↦
      if get_be v == seq.leased
      then elim faults.on_set [
        | some x ↦ (some x, some v)
        | none ↦ elim faults.on_commit [
          | some x ↦ (some x, some v)
          | none ↦ (none, some (put_be 8 seq.next))
        ]
      ]
      else elim faults.on_commit [ some x ↦ (some x, some v) | none ↦ (none, some v) ]
]

unfoldable pub release : Faults → Store → Sequence → Option Error × Store × Sequence
release faults store seq =
    let (e, store') = give_back faults store seq in
    elim e [
      | some x ↦ (some x, store', seq)
      | none ↦ (none, store', record seq { leased = seq.next })
    ]

-- The sequence comes with the error of its first lease. `none` is a panic.
unfoldable pub get_sequence :
    Config → Faults → Store → List ℕ → ℕ → Option (Option Error × Store × Option Sequence)
get_sequence db faults store key bandwidth =
    let (e, store', seq) =
      update_lease faults store (record { next = 0; leased = 0; bandwidth = bandwidth }) in
    if db.managed_txns
    then none
    else if db.read_only
    then none
    else if length key == 0
    then some (some empty_key, store, none)
    else if bandwidth == 0
    then some (some zero_bandwidth, store, none)
    else some (e, store', some seq)
