-- ===== src/Level.antt =====
-- The tables of one level: `levelHandler` of level_handler.go, with `checkOverlap` and
-- `exceedsAllowedOverlap` of levels.go. A table is known by its ends and sizes; reference counts and
-- locks are left out. `none` is a failed assertion.
pub mod Overlaps
use badgerx.Prelude.{
  ℕ, zero, suc, ◌+◌, ◌-◌, ◌&&◌, ◌||◌, not, Bool, true, false, Option, none, some, List, [], ◌∷◌,
  ◌++◌, length, ltb, leb, ◌==◌, nat_eq, get_elem?, if◌then◌else◌,
}
use badgerx.Prelude.Maps.{lookup, insert}
use badgerx.Prelude.Search.{sort_search}
use badgerx.Prelude.Sort.{sort_by}
use badgerx.KeyRange.{Table, KeyRange, key_lt, key_gt, get_key_range}
use badgerx.CompactStatus.{add_int64, sub_int64}

pub record LevelHandler : Type 0 where
  pub level : ℕ
  pub tables : List Table
  pub total_size : ℕ
  pub total_stale_size : ℕ

abbrev pub new_level_handler : ℕ → LevelHandler
new_level_handler level = record {
  level = level;
  tables = [];
  total_size = 0;
  total_stale_size = 0;
}

unfoldable pub is_last_level : ℕ → LevelHandler → Bool
is_last_level max_levels s = s.level + 1 == max_levels

unfoldable pub add_size : Table → LevelHandler → LevelHandler
add_size t s = record s {
  total_size = add_int64 s.total_size t.size;
  total_stale_size = add_int64 s.total_stale_size t.stale;
}

unfoldable pub subtract_size : Table → LevelHandler → LevelHandler
subtract_size t s = record s {
  total_size = sub_int64 s.total_size t.size;
  total_stale_size = sub_int64 s.total_stale_size t.stale;
}

unfoldable pub add_sizes : List Table → LevelHandler → LevelHandler
add_sizes [] s = s
add_sizes (t ∷ ts) s = add_sizes ts (add_size t s)

abbrev pub by_smallest : Table → Table → Bool
by_smallest t u = key_lt t.smallest u.smallest

unfoldable pub init_tables : List Table → LevelHandler → LevelHandler
init_tables tables s =
    let sized =
      add_sizes tables (record s { tables = tables; total_size = 0; total_stale_size = 0 }) in
    record sized {
      tables =
          if s.level == 0
          then sort_by (λ t u. ltb t.id u.id) tables
          else sort_by by_smallest tables;
    }

-- The ids of the tables to delete, as a set.
unfoldable pub to_del_map : List Table → List (ℕ × Unit {0}) → List (ℕ × Unit {0})
to_del_map [] m = m
to_del_map (t ∷ ts) m = to_del_map ts (insert t.id tt m)

abbrev pub is_found : Option (Unit {0}) → Bool
is_found none = false
is_found (some u) = true

-- The loop over the level's tables: those that stay, and the level with the sizes of the others
-- taken off.
unfoldable pub drop_tables :
    List (ℕ × Unit {0}) → List Table → LevelHandler → List Table × LevelHandler
drop_tables m [] s = ([], s)
drop_tables m (t ∷ ts) s =
    let (kept, s') = drop_tables m ts (if is_found (lookup t.id m) then subtract_size t s else s) in
    (if is_found (lookup t.id m) then kept else t ∷ kept, s')

unfoldable pub delete_level_tables : List Table → LevelHandler → LevelHandler
delete_level_tables to_del s =
    let (kept, s') = drop_tables (to_del_map to_del []) s.tables s in record s' { tables = kept }

unfoldable pub replace_tables : List Table → List Table → LevelHandler → LevelHandler
replace_tables to_del to_add s =
    let (kept, s') = drop_tables (to_del_map to_del []) s.tables s in
    record (add_sizes to_add s') { tables = sort_by by_smallest (kept ++ to_add) }

unfoldable pub add_table : Table → LevelHandler → LevelHandler
add_table t s = record (add_size t s) { tables = s.tables ++ (t ∷ []) }

unfoldable pub sort_tables : LevelHandler → LevelHandler
sort_tables s = record s { tables = sort_by by_smallest s.tables }

unfoldable pub try_add_level0_table : ℕ → Table → LevelHandler → Option (Bool × LevelHandler)
try_add_level0_table num_level_zero_tables_stall t s =
    if not (s.level == 0)
    then none
    else if leb num_level_zero_tables_stall (length s.tables)
    then some (false, s)
    else some (true, add_size t (record s { tables = s.tables ++ (t ∷ []) }))

unfoldable pub num_tables : LevelHandler → ℕ
num_tables s = length s.tables

-- A test on the table at an index.
abbrev pub at_table : List Table → (Table → Bool) → ℕ → Bool
at_table ts f i = elim (get_elem? ts i) [ none ↦ false | some t ↦ f t ]

-- The first table that ends at the range or behind its start, and the first that starts behind it.
unfoldable pub overlapping_tables : List Table → KeyRange → ℕ × ℕ
overlapping_tables ts kr = if length kr.left == 0 || length kr.right == 0 then (0, 0) else (
  sort_search (length ts) (at_table ts (λ t. not (key_gt kr.left t.biggest))),
  sort_search (length ts) (at_table ts (λ t. key_lt kr.right t.smallest)),
)

unfoldable pub some_overlap : KeyRange → ℕ → ℕ → List LevelHandler → Bool
some_overlap kr lev i [] = false
some_overlap kr lev i (lh ∷ lhs) =
    let rest = some_overlap kr lev (i + 1) lhs in
    let (left, right) = overlapping_tables lh.tables kr in
    if ltb i lev then rest else if ltb left right then true else rest

unfoldable pub check_overlap : List LevelHandler → List Table → ℕ → Bool
check_overlap levels tables lev = some_overlap (get_key_range tables) lev 0 levels

unfoldable pub exceeds_allowed_overlap : List LevelHandler → ℕ → KeyRange → Bool
exceeds_allowed_overlap levels next_level kr =
    if leb (next_level + 1) 1 || leb (length levels) (next_level + 1)
    then false
    else elim (get_elem? levels (next_level + 1)) [
      | none ↦ false
      | some lh ↦ let (l, r) = overlapping_tables lh.tables kr in leb 10 (r - l)
    ]
