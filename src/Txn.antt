-- ===== src/Txn.antt =====
-- The part of a transaction that its own goroutine works on: `Txn` of txn.go, with the namespace
-- test of db.go. The hash of a key (ristretto's z.MemHash) and the reads of the LSM tree (DB.get)
-- are parameters; maps are association lists.
pub mod Modify
pub mod Get
use badgerx.Prelude.{
  ℕ, ◌+◌, ◌%◌, ◌^◌, Bool, true, false, not, ◌&&◌, ◌||◌, Option, none, some, List, [], ◌∷◌, ◌++◌,
  nat_eq, bytes_eq, length, take, drop, ltb, leb, ◌==◌, bytes_equal, if◌then◌else◌,
}
use badgerx.Prelude.Int.{ℤ, pos, negsuc}
use badgerx.Prelude.Maps.{lookup, insert}
use badgerx.Keys.{key_with_ts, get_be}
use badgerx.Entry.{
  Entry, estimate_size_and_set_threshold, is_deleted_or_expired, bit_delete, new_entry,
  set_threshold,
}

-- The errors that transactions return.
pub data Error : Type 0 where
  read_only_txn : Error
  discarded_txn : Error
  empty_key : Error
  invalid_key : Error
  key_too_long : Error
  value_too_long : Error
  banned_key : Error
  txn_too_big : Error
  key_not_found : Error
  conflict : Error
  blocked_writes : Error
  commit_discarded : Error
  commit_ts_zero : Error
  lsm_error : Error
  zero_bandwidth : Error

pub data Result {ℓ} (A : Type ℓ) : Type ℓ where
  ok : A → Result A
  err : Error → Result A

-- What the transaction reads of the `DB` and its options.
pub record Config : Type 0 where
  pub read_only : Bool
  pub in_memory : Bool
  pub managed_txns : Bool
  pub detect_conflicts : Bool
  pub max_batch_count : ℕ
  pub max_batch_size : ℕ
  pub value_log_file_size : ℕ
  pub value_threshold : ℕ
  pub namespace_offset : ℤ
  pub banned_namespaces : List (ℕ × Unit {0})

pub record Txn : Type 0 where
  pub read_ts : ℕ
  pub commit_ts : ℕ
  pub size : ℕ
  pub count : ℕ
  pub reads : List ℕ
  pub conflict_keys : List (ℕ × Unit {0})
  pub pending_writes : List (List ℕ × Entry)
  pub duplicate_writes : List Entry
  pub num_iterators : ℕ
  pub discarded : Bool
  pub done_read : Bool
  pub update : Bool

-- "!badger!"
abbrev pub badger_prefix : List ℕ
badger_prefix = b'!' ∷ b'b' ∷ b'a' ∷ b'd' ∷ b'g' ∷ b'e' ∷ b'r' ∷ b'!' ∷ []

-- "!badger!txn"
abbrev pub txn_key : List ℕ
txn_key = badger_prefix ++ (b't' ∷ b'x' ∷ b'n' ∷ [])

-- bytes.HasPrefix
abbrev pub has_prefix : List ℕ → List ℕ → Bool
has_prefix key [] = true
has_prefix [] (p ∷ ps) = false
has_prefix (k ∷ ks) (p ∷ ps) = k == p && has_prefix ks ps

abbrev is_some {ℓ} : {A : Type ℓ} → Option A → Bool
is_some none = false
is_some (some a) = true

abbrev namespace_banned : Config → ℕ → List ℕ → Bool
namespace_banned db offset key =
    if leb (length key) (offset + 8)
    then false
    else is_some (lookup (get_be (take 8 (drop offset key))) db.banned_namespaces)

unfoldable pub is_banned : Config → List ℕ → Bool
is_banned db key = elim db.namespace_offset [ negsuc n ↦ false | pos n ↦ namespace_banned db n key ]

-- The new count and size, with the entry's threshold set.
unfoldable pub check_size : Config → Txn → Entry → Result (Txn × Entry)
unfolding estimate_size_and_set_threshold
check_size db txn e =
    let (estimate, e') = estimate_size_and_set_threshold e db.value_threshold in
    let count = txn.count + 1 in
    let size = txn.size + estimate + 10 in
    if leb db.max_batch_count count || leb db.max_batch_size size
    then err txn_too_big
    else ok (record txn { count = count; size = size }, e')

abbrev pub max_key_size : ℕ
max_key_size = 65000

-- The `switch` of `modify`: the first case that holds is the error.
unfoldable pub modify_error : Config → Txn → Entry → Option Error
modify_error db txn e =
    if not txn.update
    then some read_only_txn
    else if txn.discarded
    then some discarded_txn
    else if length e.key == 0
    then some empty_key
    else if has_prefix e.key badger_prefix
    then some invalid_key
    else if ltb max_key_size (length e.key)
    then some key_too_long
    else if ltb db.value_log_file_size (length e.value)
    then some value_too_long
    else if db.in_memory && ltb db.value_threshold (length e.value)
    then some value_too_long
    else if is_banned db e.key
    then some banned_key
    else none

-- An entry of another version that the map held goes to the duplicates.
unfoldable pub store_entry : Txn → Entry → Txn
store_entry txn e =
    let old = lookup e.key txn.pending_writes in
    record txn {
      duplicate_writes = elim old [
        | none ↦ txn.duplicate_writes
        | some o ↦
            if not (o.version == e.version)
            then txn.duplicate_writes ++ (o ∷ [])
            else txn.duplicate_writes
      ];
      pending_writes = insert e.key e txn.pending_writes;
    }

module _ (mem_hash : List ℕ → ℕ) where
  unfoldable pub track_write : Config → Txn → Entry → Txn
  track_write db txn e =
      if db.detect_conflicts
      then record txn { conflict_keys = insert (mem_hash e.key) tt txn.conflict_keys }
      else txn

  unfoldable pub modify : Config → Txn → Entry → Result Txn
  modify db txn e = elim (modify_error db txn e) [
    | some x ↦ err x
    | none ↦ elim (check_size db txn e) [
      | err x ↦ err x
      | ok (txn', e') ↦ ok (store_entry (track_write db txn' e') e')
    ]
  ]

  unfoldable pub set_entry : Config → Txn → Entry → Result Txn
  set_entry db txn e = modify db txn e

  unfoldable pub set : Config → Txn → List ℕ → List ℕ → Result Txn
  set db txn key val = set_entry db txn (new_entry key val)

  unfoldable pub delete : Config → Txn → List ℕ → Result Txn
  delete db txn key = modify db txn (record (new_entry key []) { meta = bit_delete })

  unfoldable pub add_read_key : Txn → List ℕ → Txn
  add_read_key txn key =
      if txn.update then record txn { reads = txn.reads ++ (mem_hash key ∷ []) } else txn

-- y.ValueStruct, as the LSM tree returns it; `present` is `Value != nil`.
pub record ValueStruct : Type 0 where
  pub meta : ℕ
  pub user_meta : ℕ
  pub expires_at : ℕ
  pub value : List ℕ
  pub present : Bool
  pub version : ℕ

pub record Item : Type 0 where
  pub key : List ℕ
  pub version : ℕ
  pub meta : ℕ
  pub user_meta : ℕ
  pub expires_at : ℕ
  pub value : List ℕ
  pub prefetched : Bool

abbrev pub cached_item : ℕ → Txn → List ℕ → Entry → Result Item
cached_item now txn key e =
    if is_deleted_or_expired now e.meta e.expires_at
    then err key_not_found
    else ok (record {
      key = key;
      version = txn.read_ts;
      meta = e.meta;
      user_meta = e.user_meta;
      expires_at = e.expires_at;
      value = e.value;
      prefetched = true;
    })

abbrev pub stored_item : ℕ → List ℕ → ValueStruct → Result Item
stored_item now key vs =
    if not vs.present && vs.meta == 0
    then err key_not_found
    else if is_deleted_or_expired now vs.meta vs.expires_at
    then err key_not_found
    else ok (record {
      key = key;
      version = vs.version;
      meta = vs.meta;
      user_meta = vs.user_meta;
      expires_at = vs.expires_at;
      value = vs.value;
      prefetched = false;
    })

-- The write of this transaction that `Get` answers from, if it made one.
unfoldable pub own_write : Txn → List ℕ → Option Entry
own_write txn key =
    if txn.update
    then elim (lookup key txn.pending_writes) [
      | none ↦ none
      | some e ↦ if bytes_equal key e.key then some e else none
    ]
    else none

module _ (mem_hash : List ℕ → ℕ) (lsm_get : List ℕ → Result ValueStruct) (now : ℕ) where
  unfoldable pub get : Config → Txn → List ℕ → Result Item × Txn
  get db txn key =
      if length key == 0
      then (err empty_key, txn)
      else if txn.discarded
      then (err discarded_txn, txn)
      else if is_banned db key
      then (err banned_key, txn)
      else elim (own_write txn key) [
        | some e ↦ (cached_item now txn key e, txn)
        | none ↦ elim (lsm_get (key_with_ts key txn.read_ts)) [
          | err x ↦ (err x, add_read_key mem_hash txn key)
          | ok vs ↦ (stored_item now key vs, add_read_key mem_hash txn key)
        ]
      ]
