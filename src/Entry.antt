-- ===== src/Entry.antt =====
-- Entries, value pointers and their flags: structs.go, with the flags of value.go and the expiry
-- test of iterator.go. Bytes and fixed-width integers are numbers.
use badgerx.Prelude.{
  ℕ, zero, suc, ◌+◌, ◌*◌, ◌/◌, [], ◌∷◌, ◌++◌, take, drop, ◌%◌, ◌^◌, Bool, true, false, ◌&&◌, List,
  length, ltb, leb, ◌==◌, if◌then◌else◌, not,
}
use Prim.Native.Nat.{bit_and}

abbrev pub bit_delete : ℕ
bit_delete = 1

abbrev pub bit_value_pointer : ℕ
bit_value_pointer = 2

abbrev pub bit_discard_earlier_versions : ℕ
bit_discard_earlier_versions = 4

abbrev pub bit_merge_entry : ℕ
bit_merge_entry = 8

abbrev pub bit_txn : ℕ
bit_txn = 64

abbrev pub bit_fin_txn : ℕ
bit_fin_txn = 128

pub record Entry : Type 0 where
  pub key : List ℕ
  pub value : List ℕ
  pub expires_at : ℕ
  pub version : ℕ
  pub offset : ℕ
  pub user_meta : ℕ
  pub meta : ℕ
  pub hlen : ℕ
  pub val_threshold : ℕ

unfoldable pub new_entry : List ℕ → List ℕ → Entry
new_entry key value = record {
  key = key;
  value = value;
  expires_at = 0;
  version = 0;
  offset = 0;
  user_meta = 0;
  meta = 0;
  hlen = 0;
  val_threshold = 0;
}

unfoldable pub is_zero : Entry → Bool
is_zero e = length e.key == 0

unfoldable pub with_meta : Entry → ℕ → Entry
with_meta e meta = record e { user_meta = meta }

unfoldable pub with_discard : Entry → Entry
with_discard e = record e { meta = bit_discard_earlier_versions }

-- `expires` is `time.Now().Add(dur).Unix()`.
unfoldable pub with_ttl : Entry → ℕ → Entry
with_ttl e expires = record e { expires_at = expires % 2 ^ 64 }

unfoldable pub with_merge_bit : Entry → Entry
with_merge_bit e = record e { meta = bit_merge_entry }

-- The threshold is set through the pointer the first time.
unfoldable pub set_threshold : Entry → ℕ → Entry
set_threshold e threshold =
    if e.val_threshold == 0 then record e { val_threshold = threshold } else e

abbrev size_under : Entry → ℕ
size_under e =
    if ltb (length e.value) e.val_threshold
    then length e.key + length e.value + 2
    else length e.key + 12 + 2

-- The estimate, with the entry as the call leaves it.
unfoldable pub estimate_size_and_set_threshold : Entry → ℕ → ℕ × Entry
unfolding set_threshold
estimate_size_and_set_threshold e threshold =
    (size_under (set_threshold e threshold), set_threshold e threshold)

unfoldable pub skip_vlog_and_set_threshold : Entry → ℕ → Bool × Entry
unfolding set_threshold
skip_vlog_and_set_threshold e threshold =
    let e' = set_threshold e threshold in (ltb (length e'.value) e'.val_threshold, e')

-- `now` is `time.Now().Unix()`.
unfoldable pub is_deleted_or_expired : ℕ → ℕ → ℕ → Bool
is_deleted_or_expired now meta expires_at =
    if ltb 0 (bit_and meta bit_delete)
    then true
    else if expires_at == 0
    then false
    else leb expires_at now

pub record ValuePointer : Type 0 where
  pub fid : ℕ
  pub len : ℕ
  pub offset : ℕ

unfoldable pub less : ValuePointer → ValuePointer → Bool
less p o =
    if not (p.fid == o.fid)
    then ltb p.fid o.fid
    else if not (p.offset == o.offset)
    then ltb p.offset o.offset
    else ltb p.len o.len

unfoldable pub pointer_is_zero : ValuePointer → Bool
pointer_is_zero p = p.fid == 0 && p.offset == 0 && p.len == 0

-- Little-endian, as the struct lies in memory on the machines that the code runs on.
unfoldable pub put_le : ℕ → ℕ → List ℕ
put_le zero v = []
put_le (suc n) v = (v % 256) ∷ put_le n (v / 256)

unfoldable pub get_le : List ℕ → ℕ
get_le [] = 0
get_le (b ∷ bs) = b + 256 * get_le bs

unfoldable pub pointer_encode : ValuePointer → List ℕ
pointer_encode p = put_le 4 p.fid ++ (put_le 4 p.len ++ put_le 4 p.offset)

-- The slice `b[:vptrSize]` panics on a shorter slice; the values that are decoded were encoded.
unfoldable pub pointer_decode : List ℕ → ValuePointer
pointer_decode b = record {
  fid = get_le (take 4 b);
  len = get_le (take 4 (drop 4 b));
  offset = get_le (take 4 (drop 8 b));
}
