-- ===== src/Txn/Modify.antt =====
-- What `modify` does to a transaction: txn.go.
use badgerx.Prelude.{
  ℕ, ◌+◌, ◌<◌, ◌≡◌, refl, ap, ◌∙◌, Bool, true, false, Option, none, some, List, nat_eq, bytes_eq,
  arith, bytes_equal, bytes_equal_iff, if◌then◌else◌,
}
use badgerx.Prelude.Maps.{lookup, lookup-insert}
use badgerx.Entry.{Entry, set_threshold, estimate_size_and_set_threshold}
use badgerx.Txn.{
  ok, Config, Txn, check_size, modify_error, store_entry, track_write, modify, own_write,
}

-- The entry as it is stored, with its threshold.
abbrev pub stored : Config → Entry → Entry
stored db e = set_threshold e db.value_threshold

-- What a successful `modify` went through.
pub record IsModified (mem_hash : List ℕ → ℕ) (db : Config) (t : Txn) (e : Entry) (t' : Txn)
    : Type 0 where
  pub allowed : modify_error db t e ≡ none
  pub sized :
      (n : ℕ) × (t'
        ≡ store_entry
            (track_write mem_hash db (record t { count = t.count + 1; size = n }) (stored db e))
            (stored db e))
      × (n < db.max_batch_size)
  pub counted : t.count + 1 < db.max_batch_count

set_threshold-key : (e : Entry) (n : ℕ) → (set_threshold e n).key ≡ e.key
unfolding set_threshold
set_threshold-key e n = ground arith

module _ (mem_hash : List ℕ → ℕ) (db : Config) (t : Txn) (e : Entry) (t' : Txn) where
  pub modify-IsModified : modify mem_hash db t e ≡ ok t' → IsModified mem_hash db t e t'
  unfolding modify check_size
  modify-IsModified h = record {
    allowed = ground arith;
    sized = (
      t.size + (estimate_size_and_set_threshold e db.value_threshold).0 + 10,
      ground arith,
      ground arith,
    );
    counted = ground arith;
  }

-- The map of writes after one: the entry under its key, the others as they were.
own_write-store_entry :
    (t : Txn) (e : Entry) (k : List ℕ)
    → t.update ≡ true
    → own_write (store_entry t e) k ≡ (if bytes_equal e.key k then some e else own_write t k)
unfolding own_write store_entry
own_write-store_entry t e k u = ground (
  arith,
  lookup-insert e.key k e t.pending_writes,
  bytes_equal_iff e.key k,
  bytes_equal_iff k e.key,
)

own_write-track_write :
    (mem_hash : List ℕ → ℕ) (db : Config) (t : Txn) (e : Entry) (n m : ℕ) (k : List ℕ)
    → own_write (track_write mem_hash db (record t { count = n; size = m }) e) k ≡ own_write t k
unfolding own_write track_write
own_write-track_write mem_hash db t e n m k = ground arith

track_write-update :
    (mem_hash : List ℕ → ℕ) (db : Config) (t : Txn) (e : Entry)
    → (track_write mem_hash db t e).update ≡ t.update
unfolding track_write
track_write-update mem_hash db t e = ground arith

allowed-update : (db : Config) (t : Txn) (e : Entry) → modify_error db t e ≡ none → t.update ≡ true
unfolding modify_error
allowed-update db t e h = ground arith

-- After a successful `modify` the transaction answers reads of the key from the entry that was set,
-- and reads of every other key as before.
pub own_write-modify :
    (mem_hash : List ℕ → ℕ) (db : Config) (t t' : Txn) (e : Entry) (k : List ℕ)
    → modify mem_hash db t e ≡ ok t'
    → own_write t' k ≡ (if bytes_equal e.key k then some (stored db e) else own_write t k)
own_write-modify mem_hash db t t' e k h =
    let m = modify-IsModified mem_hash db t e t' h in
    let u = allowed-update db t e m.allowed in
    let (n, eq, lt) = m.sized in
    let grown : Txn = record t { count = t.count + 1; size = n } in
    ap (λ x. own_write x k) eq
    ∙ own_write-store_entry (track_write mem_hash db grown (stored db e)) (stored db e) k
        (track_write-update mem_hash db grown (stored db e) ∙ u)
    ∙ rw
        (
          own_write-track_write mem_hash db t (stored db e) (t.count + 1) n k,
          set_threshold-key e db.value_threshold,
        )
        refl

-- The limits of a batch hold after every successful `modify`.
pub modify-bounds :
    (mem_hash : List ℕ → ℕ) (db : Config) (t t' : Txn) (e : Entry)
    → modify mem_hash db t e ≡ ok t'
    → (t'.count < db.max_batch_count) × (t'.size < db.max_batch_size) × (t'.count ≡ t.count + 1)
modify-bounds mem_hash db t t' e h =
    let m = modify-IsModified mem_hash db t e t' h in
    let (n, eq, lt) = m.sized in unfold store_entry track_write in ground (arith, m.counted)

abbrev is_some {ℓ} : {A : Type ℓ} → Option A → Bool
is_some none = false
is_some (some a) = true

-- Every key that was written has its fingerprint among the conflict keys.
pub record IsTracked (mem_hash : List ℕ → ℕ) (t : Txn) : Type 0 where
  pub at :
      (k : List ℕ)
      → is_some (lookup k t.pending_writes) ≡ true
      → lookup (mem_hash k) t.conflict_keys ≡ some tt

store-IsTracked :
    (mem_hash : List ℕ → ℕ) (db : Config) (t : Txn) (e : Entry)
    → db.detect_conflicts ≡ true
    → IsTracked mem_hash t
    → IsTracked mem_hash (store_entry (track_write mem_hash db t e) e)
unfolding store_entry track_write
store-IsTracked mem_hash db t e d h = record {
  at = λ k w. ground (
    arith,
    h.at k,
    lookup-insert e.key k e t.pending_writes,
    lookup-insert (mem_hash e.key) (mem_hash k) tt t.conflict_keys,
    bytes_equal_iff e.key k,
    ap mem_hash {x = e.key} {y = k},
  );
}

-- With conflict detection, `modify` keeps the fingerprint of every written key tracked.
pub modify-IsTracked :
    (mem_hash : List ℕ → ℕ) (db : Config) (t t' : Txn) (e : Entry)
    → db.detect_conflicts ≡ true
    → IsTracked mem_hash t
    → modify mem_hash db t e ≡ ok t'
    → IsTracked mem_hash t'
modify-IsTracked mem_hash db t t' e d h m =
    let (n, eq, lt) = (modify-IsModified mem_hash db t e t' m).sized in
    rw eq (
      store-IsTracked mem_hash db (record t { count = t.count + 1; size = n }) (stored db e) d
        (record { at = h.at }))
