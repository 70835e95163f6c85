-- ===== src/Examples/Writes.antt =====
-- Writes of a transaction and the reads after them: txn.go.
use badgerx.Prelude.{
  ℕ, ◌+◌, ◌<◌, ◌≡◌, refl, true, false, some, List, [], ◌∷◌, nat_eq, bytes_eq, length, if◌then◌else◌,
  has, bytes_equal,
}
use badgerx.Prelude.Int.{negsuc}
use badgerx.Prelude.Maps.{lookup, insert}
use badgerx.Entry.{Entry, set_threshold, estimate_size_and_set_threshold}
use badgerx.Txn.{
  Result, ok, err, key_not_found, Config, Txn, ValueStruct, is_banned, check_size, modify_error,
  store_entry, track_write, modify, own_write, get,
}
use badgerx.Keys.{key_with_ts, parse_key, put_be, bytes_compare}
use badgerx.Prelude.Search.{sort_search, search_between}
use badgerx.Pending.{
  PendingWritesIterator, seek, reaches, new_pending_writes_iterator, sort_entries, place,
}
use badgerx.Pending.Search.{IsLanded, seek-IsLanded}
use badgerx.Txn.Modify.{stored, IsTracked, own_write-modify, modify-bounds, modify-IsTracked}
use badgerx.Txn.Get.{IsReadable, Answers, get-modify, get-tracks}

abbrev pub db : Config
db = record {
  read_only = false;
  in_memory = false;
  managed_txns = false;
  detect_conflicts = true;
  max_batch_count = 10;
  max_batch_size = 1000;
  value_log_file_size = 1000;
  value_threshold = 100;
  namespace_offset = negsuc 0;
  banned_namespaces = [];
}

abbrev fresh : Txn
fresh = record {
  read_ts = 4;
  commit_ts = 0;
  size = 1;
  count = 1;
  reads = [];
  conflict_keys = [];
  pending_writes = [];
  duplicate_writes = [];
  num_iterators = 0;
  discarded = false;
  done_read = false;
  update = true;
}

abbrev pub key : List ℕ
key = 5 ∷ 6 ∷ []

abbrev entry : Entry
entry = record {
  key = key;
  value = 1 ∷ 2 ∷ 3 ∷ [];
  expires_at = 0;
  version = 0;
  offset = 0;
  user_meta = 0;
  meta = 0;
  hlen = 0;
  val_threshold = 0;
}

-- A hash of keys, here their length.
abbrev mem_hash : List ℕ → ℕ
mem_hash k = length k

abbrev pub kept : Entry
kept = record entry { val_threshold = 100 }

abbrev pub after : Txn
after = record fresh {
  size = 18;
  count = 2;
  conflict_keys = (2, tt) ∷ [];
  pending_writes = (key, kept) ∷ [];
}

modifies : modify mem_hash db fresh entry ≡ ok after
unfolding modify modify_error is_banned check_size estimate_size_and_set_threshold set_threshold
    track_write store_entry insert lookup
modifies = refl

own_write-modify_example :
    own_write after key
    ≡ (if bytes_equal key key then some (stored db entry) else own_write fresh key)
own_write-modify_example = own_write-modify mem_hash db fresh after entry key modifies

modify-bounds_example : (2 < 10) × (18 < 1000) × (2 ≡ 1 + 1)
modify-bounds_example = modify-bounds mem_hash db fresh after entry modifies

fresh-IsTracked : IsTracked mem_hash fresh
unfolding lookup
fresh-IsTracked = record { at = λ k w. absurd (cc w) }

modify-IsTracked_example : IsTracked mem_hash after
modify-IsTracked_example =
    modify-IsTracked mem_hash db fresh after entry refl fresh-IsTracked modifies

-- A tree that finds nothing.
abbrev lsm_get : List ℕ → Result ValueStruct
lsm_get k = err key_not_found

get-modify_example :
    Answers 50 key 4 entry (get mem_hash lsm_get 50 db after key).0
    × ((get mem_hash lsm_get 50 db after key).1 ≡ after)
get-modify_example = get-modify mem_hash lsm_get 50 db fresh after entry modifies

readable : IsReadable db fresh key
unfolding is_banned
readable = record { named = refl; open_txn = refl; allowed = refl }

get-tracks_example : has (mem_hash key) (get mem_hash lsm_get 50 db fresh key).1.reads ≡ true
get-tracks_example =
    get-tracks mem_hash lsm_get 50 db fresh key readable refl (unfold own_write lookup in refl)

-- A transaction that wrote the keys 5, 1 and 3; its iterator has them in order, and `Seek` of 3 lands
-- on index 1.
abbrev at_key : ℕ → Entry
at_key b = record entry { key = b ∷ [] }

abbrev wrote : Txn
wrote = record fresh {
  pending_writes = (5 ∷ [], at_key 5) ∷ (1 ∷ [], at_key 1) ∷ (3 ∷ [], at_key 3) ∷ [];
}

abbrev over : PendingWritesIterator
over = record {
  entries = at_key 1 ∷ at_key 3 ∷ at_key 5 ∷ [];
  next_idx = 0;
  read_ts = 4;
  reversed = false;
}

iterates : new_pending_writes_iterator wrote false ≡ some over
unfolding new_pending_writes_iterator sort_entries place bytes_compare
iterates = refl

seek-IsLanded_example :
    IsLanded false over.entries
      (parse_key (key_with_ts (3 ∷ []) 4))
      (seek (record over { next_idx = 2 }) (key_with_ts (3 ∷ []) 4)).next_idx
seek-IsLanded_example = seek-IsLanded wrote false over 2 (key_with_ts (3 ∷ []) 4) iterates

lands : (seek (record over { next_idx = 2 }) (key_with_ts (3 ∷ []) 4)).next_idx ≡ 1
unfolding seek sort_search search_between reaches parse_key key_with_ts put_be bytes_compare
lands = refl
