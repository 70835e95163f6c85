-- ===== src/Examples/Subcompactions.antt =====
-- A sub-compaction of levels.go.
use badgerx.Prelude.{ℕ, ◌≡◌, refl, Bool, true, false, List, [], ◌∷◌, arith, All}
use badgerx.Keys.{
  key_with_ts, put_be, get_be, parse_key, parse_ts, same_key, compare_keys, bytes_compare,
}
use badgerx.KeyRange.{KeyRange, empty_range}
use badgerx.Entry.{is_deleted_or_expired}
use badgerx.Subcompact.{
  Cell, Built, Job, subcompact, build_tables, add_keys, turn, visit, start_key, with_new_key,
  take_version, take_old, add_cell, update_stats, is_beyond, seek_left,
}
use badgerx.Subcompact.Reads.{read, visible, IsGrouped, IsStored}
use badgerx.Subcompact.Tables.{table_cells, subcompact_keeps}

abbrev version : ℕ → ℕ → ℕ → Cell
version k ts meta = record {
  key = key_with_ts (k ∷ []) ts;
  vs = record {
    meta = meta;
    user_meta = 0;
    expires_at = 0;
    value = ts ∷ [];
    present = true;
    version = 0;
  };
}

-- Key 1 at 9 and at 5, and its older version at 3; key 2, deleted at 4, and its older version.
abbrev input : List Cell
input = version 1 9 0 ∷ version 1 5 0 ∷ version 1 3 0 ∷ version 2 4 1 ∷ version 2 2 0 ∷ []

-- One version is kept, and what no reader from 6 on sees is dropped.
abbrev job : Job
job = record {
  range = empty_range;
  drop_prefixes = [];
  has_overlap = false;
  discard_ts = 6;
  num_versions_to_keep = 1;
  in_memory = false;
}

abbrev never : List Built → Bool
never b = false

abbrev small : KeyRange → Bool
small r = false

input-IsGrouped : IsGrouped input
unfolding parse_key bytes_compare key_with_ts put_be
input-IsGrouped = (
  ((λ e. cc), ((λ e. cc), ((λ e. cc), ((λ e. cc), tt)))),
  (
    ((λ e. cc), ((λ e. cc), ((λ e. cc), tt))),
    (((λ e. cc), ((λ e. cc), tt)), (((λ e. cc), tt), (tt, tt))),
  ),
)

input-IsStored : All IsStored input
unfolding key_with_ts put_be
input-IsStored = omega arith

-- The reader at 7 of key 1.
subcompact_keeps_example :
    ((subcompact never small 50 job input).1 ≡ [])
    × (visible 50 (read 7 (1 ∷ []) (table_cells (subcompact never small 50 job input).0))
        ≡ visible 50 (read 7 (1 ∷ []) (seek_left empty_range input)))
subcompact_keeps_example =
    subcompact_keeps never small 50 7 (1 ∷ []) job input (omega arith) refl refl refl
      input-IsGrouped input-IsStored

compacts : table_cells (subcompact never small 50 job input).0 ≡ version 1 9 0 ∷ version 1 5 0 ∷ []
unfolding subcompact build_tables add_keys turn visit start_key with_new_key take_version take_old
    add_cell update_stats is_beyond seek_left is_deleted_or_expired same_key parse_key parse_ts
    get_be key_with_ts put_be compare_keys bytes_compare
compacts = refl
