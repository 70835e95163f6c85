-- ===== src/Examples/Compaction.antt =====
-- Compactions that take and give back their ranges: compaction.go.
use badgerx.Prelude.{ℕ, ◌≡◌, refl, true, false, some, List, [], ◌∷◌, nat_eq, arith}
use badgerx.Prelude.Maps.{lookup, insert, delete}
use badgerx.Keys.{compare_keys, bytes_compare}
use badgerx.KeyRange
use badgerx.KeyRange.{KeyRange, Table, IsProper}
use badgerx.CompactStatus.{
  CompactStatus, CompactDef, overlaps_with, overlaps_any, level_overlaps_with, compare_and_add,
  store_run, insert_tables, delete_run, remove_range, level_remove, release_next, finish,
  delete_tables,
}
use badgerx.CompactStatus.Levels.{Fresh}
use badgerx.CompactStatus.Disjoint.{IsExclusive, compare_and_add-IsExclusive}
use badgerx.CompactStatus.Release.{delete_run-compare_and_add}
use badgerx.CompactStatus.Leak.{delete_run_leak}

abbrev short : ℕ → List ℕ
short b = b ∷ 0 ∷ 0 ∷ 0 ∷ 0 ∷ 0 ∷ 0 ∷ 0 ∷ 0 ∷ []

abbrev range : ℕ → ℕ → KeyRange
range a b = record { left = short a; right = short b; inf = false; size = 0 }

abbrev table : ℕ → Table
table i = record { id = i; smallest = short 1; biggest = short 5; size = 10; stale = 0 }

-- Level 0 runs a compaction of the keys 7 to 9; level 1 is idle.
abbrev status : CompactStatus
status = record {
  levels =
      record { ranges = range 7 9 ∷ []; del_size = 4 } ∷ record { ranges = []; del_size = 0 } ∷ [];
  tables = (3, tt) ∷ [];
}

abbrev between : CompactDef
between = record {
  this_level = 0;
  next_level = 1;
  top = table 1 ∷ [];
  bot = table 2 ∷ [];
  this_range = range 1 5;
  next_range = range 1 6;
  this_size = 10;
}

range_one-IsProper : IsProper (range 1 5)
unfolding compare_keys bytes_compare KeyRange.is_empty
range_one-IsProper = record { present = refl; ordered = λ e. cc }

range_two-IsProper : IsProper (range 1 6)
unfolding compare_keys bytes_compare KeyRange.is_empty
range_two-IsProper = record { present = refl; ordered = λ e. cc }

range_three-IsProper : IsProper (range 7 9)
unfolding compare_keys bytes_compare KeyRange.is_empty
range_three-IsProper = record { present = refl; ordered = λ e. cc }

status-IsExclusive : IsExclusive status
status-IsExclusive = ((range_three-IsProper, tt, tt), (tt, tt))

accepted : compare_and_add status between ≡ some (true, store_run status between)
unfolding compare_and_add level_overlaps_with overlaps_any KeyRange.overlaps_with KeyRange.is_empty
    compare_keys bytes_compare
accepted = refl

compare_and_add-IsExclusive_example : IsExclusive (store_run status between)
compare_and_add-IsExclusive_example =
    compare_and_add-IsExclusive status between true (store_run status between) (omega arith)
      range_one-IsProper range_two-IsProper status-IsExclusive accepted

fresh : Fresh (table 1 ∷ table 2 ∷ []) status.tables
unfolding lookup insert
fresh = (refl, (refl, tt))

delete_run-compare_and_add_example : delete_run (store_run status between) between ≡ some status
delete_run-compare_and_add_example =
    delete_run-compare_and_add status (store_run status between) between (omega arith)
      range_one-IsProper range_two-IsProper (omega arith) fresh accepted

-- A compaction within level 1, whose next range was extended.
abbrev within : CompactDef
within = record between { this_level = 1; next_level = 1 }

within_accepted : compare_and_add status within ≡ some (true, store_run status within)
unfolding compare_and_add level_overlaps_with overlaps_any KeyRange.overlaps_with KeyRange.is_empty
    compare_keys bytes_compare
within_accepted = refl

-- The level afterwards.
abbrev left_behind : CompactStatus
left_behind = record status {
  levels =
      record { ranges = range 7 9 ∷ []; del_size = 4 }
      ∷ record { ranges = range 1 6 ∷ []; del_size = 0 }
      ∷ [];
}

within_deleted : delete_run (store_run status within) within ≡ some left_behind
unfolding delete_run store_run insert_tables insert delete lookup remove_range level_remove
    release_next finish delete_tables KeyRange.equals
within_deleted = refl

delete_run_leak_example : overlaps_with left_behind 1 (range 1 6) ≡ some true
delete_run_leak_example =
    delete_run_leak status (store_run status within) left_behind within refl range_two-IsProper
      (unfold KeyRange.equals in refl) within_accepted within_deleted
