-- ===== src/Examples/Picks.antt =====
-- Runs that compactions take: levels.go.
use badgerx.Prelude.{List, ◌<◌, ◌≤◌, All, drop, arith, ℕ, refl, true, false, [], ◌∷◌, nat_eq}
use badgerx.Prelude.Maps.{insert}
use badgerx.Prelude.Search.{sort_search, search_between}
use badgerx.Prelude.Sort.{sort_by, place_by}
use badgerx.Keys.{key_with_ts, put_be, parse_key, compare_keys, bytes_compare, max_uint64}
use badgerx.KeyRange
use badgerx.KeyRange.{
  KeyRange, Table, empty_range, extend, get_key_range, min_smallest, max_biggest,
}
use badgerx.CompactStatus
use badgerx.CompactStatus.{
  CompactStatus, CompactDef, compare_and_add, store_run, insert_tables, overlaps_any,
  level_overlaps_with,
}
use badgerx.Level.{LevelHandler, is_last_level, overlapping_tables}
use badgerx.Picking.{
  Request, fill_tables, fill_tables_l0_to_lbase, each_table, try_level, claim, claim_or, with_bot,
  overlapping_prefix, sort_by_heuristic,
}
use badgerx.Picking.Registered.{IsSettled, fill_tables-IsSettled}
use badgerx.Targets.{Options, level_targets}
use badgerx.Targets.Bounds.{level_targets-bounds}
use badgerx.Picking.Splits.{AnyTakes, add_splits, add_splits-AnyTakes}
use badgerx.Level.Overlaps.{AreArranged}
use badgerx.Picking.Base.{IsPicked, fill_tables_l0_to_lbase-IsPicked}

abbrev table : ℕ → ℕ → ℕ → Table
table i a b = record {
  id = i;
  smallest = key_with_ts (a ∷ []) 9;
  biggest = key_with_ts (b ∷ []) 3;
  size = 10;
  stale = 0;
}

abbrev range : ℕ → ℕ → KeyRange
range a b = record {
  left = key_with_ts (a ∷ []) max_uint64;
  right = key_with_ts (b ∷ []) 0;
  inf = false;
  size = 0;
}

abbrev upper : ℕ → LevelHandler
upper n = record { level = n; tables = table 1 2 4 ∷ []; total_size = 10; total_stale_size = 0 }

abbrev lower : LevelHandler
lower = record {
  level = 2;
  tables = table 2 1 1 ∷ table 3 3 5 ∷ [];
  total_size = 20;
  total_stale_size = 0;
}

abbrev request : Request
request = record {
  compactor_id = 1;
  max_levels = 7;
  drop_prefixes = [];
  adjusted_below_one = false;
  discard_ts = 5;
  file_sz = λ l. 100;
  max_version = λ t. 9;
  age_seconds = λ t. 60;
}

abbrev idle : CompactStatus
idle = record {
  levels =
      record { ranges = []; del_size = 0 }
      ∷ record { ranges = []; del_size = 0 }
      ∷ record { ranges = []; del_size = 0 }
      ∷ [];
  tables = [];
}

abbrev blank : ℕ → CompactDef
blank n = record {
  this_level = n;
  next_level = 2;
  top = [];
  bot = [];
  this_range = empty_range;
  next_range = empty_range;
  this_size = 0;
}

-- Table 1 goes down to table 3.
abbrev run : ℕ → ℕ → CompactDef
run n size = record {
  this_level = n;
  next_level = 2;
  top = table 1 2 4 ∷ [];
  bot = table 3 3 5 ∷ [];
  this_range = range 2 4;
  next_range = range 3 5;
  this_size = size;
}

fill_tables-IsSettled_example : IsSettled idle true (run 1 10) (store_run idle (run 1 10))
unfolding fill_tables each_table try_level claim_or with_bot overlapping_tables sort_search
    search_between sort_by_heuristic sort_by place_by is_last_level compare_and_add store_run
    insert_tables insert overlaps_any level_overlaps_with CompactStatus.overlaps_with get_key_range
    min_smallest max_biggest key_with_ts put_be parse_key compare_keys bytes_compare
fill_tables-IsSettled_example =
    fill_tables-IsSettled request (upper 1) lower idle (store_run idle (run 1 10)) (blank 1)
      (run 1 10) true refl

lower-AreArranged : AreArranged lower.tables
unfolding key_with_ts put_be compare_keys bytes_compare
lower-AreArranged = ground arith

fill_tables_l0_to_lbase-IsPicked_example :
    IsPicked request (upper 0) lower idle true (run 0 0) (store_run idle (run 0 0))
unfolding fill_tables_l0_to_lbase claim with_bot overlapping_prefix overlapping_tables sort_search
    search_between extend compare_and_add store_run insert_tables insert overlaps_any
    level_overlaps_with KeyRange.overlaps_with KeyRange.is_empty get_key_range min_smallest
    max_biggest key_with_ts put_be parse_key compare_keys bytes_compare
fill_tables_l0_to_lbase-IsPicked_example =
    fill_tables_l0_to_lbase-IsPicked request (upper 0) lower idle (store_run idle (run 0 0))
      (blank 0) (run 0 0) true lower-AreArranged refl

-- A run over four bottom tables: two sub-compactions.
abbrev wide : CompactDef
wide = record {
  this_level = 1;
  next_level = 2;
  top = table 1 2 7 ∷ [];
  bot = table 2 1 2 ∷ table 3 3 4 ∷ table 4 5 6 ∷ table 5 7 9 ∷ [];
  this_range = range 2 7;
  next_range = range 1 9;
  this_size = 10;
}

add_splits-AnyTakes_example : AnyTakes (key_with_ts (8 ∷ []) 4) (add_splits wide)
unfolding extend KeyRange.is_empty key_with_ts put_be parse_key compare_keys bytes_compare
add_splits-AnyTakes_example = add_splits-AnyTakes wide (key_with_ts (8 ∷ []) 4) (omega arith) refl

abbrev sizes : List ℕ
sizes = 10 ∷ 0 ∷ 0 ∷ 500 ∷ 40000 ∷ []

abbrev options : Options
options = record {
  base_level_size = 100;
  level_size_multiplier = 10;
  base_table_size = 20;
  table_size_multiplier = 2;
  mem_table_size = 64;
}

-- Five levels, of which the first two below level 0 are empty.
level_targets-bounds_example :
    (0 < (level_targets options sizes).base_level)
    × ((level_targets options sizes).base_level < 5)
    × All (λ t. 100 ≤ t) (drop 1 (level_targets options sizes).target_sz)
level_targets-bounds_example = level_targets-bounds options sizes (omega arith)
