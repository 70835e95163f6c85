-- ===== src/Lookup.antt =====
-- Looking a key up: `get` of db.go, levels.go and level_handler.go, and `Get` of skl/skl.go. A table
-- and a skip list are known by the versions they hold, in the order of their iterators, and `Seek`
-- finds the first that is not below the key; what a table holds and its Bloom filter are parameters.
pub mod Newest
pub mod Sources
pub mod Tables
pub mod Held
pub mod Levels
use badgerx.Prelude.{
  ℕ, ◌<◌, not, ◌&&◌, Bool, true, false, Ordering, Option, none, some, List, [], ◌∷◌, ◌++◌, length,
  ltb, leb, ◌==◌, get_elem?, map, if◌then◌else◌,
}
use badgerx.Prelude.Search.{sort_search}
use badgerx.Keys.{parse_ts, parse_key, same_key}
use badgerx.KeyRange.{Table, key_lt}
use badgerx.Txn.{ValueStruct}
use badgerx.Level.{LevelHandler, at_table}
use badgerx.Subcompact.{Cell}

-- The zero ValueStruct.
abbrev pub nothing : ValueStruct
nothing = record {
  meta = 0;
  user_meta = 0;
  expires_at = 0;
  value = [];
  present = false;
  version = 0;
}

-- The value with the version of its key.
abbrev pub stamped : Cell → ValueStruct
stamped c = record c.vs { version = parse_ts c.key }

unfoldable pub seek_cell : List Cell → List ℕ → Option Cell
seek_cell [] key = none
seek_cell (c ∷ cs) key = let rest = seek_cell cs key in if key_lt c.key key then rest else some c

-- What a memtable's skip list has for the key: the value of the first version from it on, if it is of
-- the same key.
abbrev pub answer : List ℕ → Option Cell → ValueStruct
answer key none = nothing
answer key (some c) = if same_key key c.key then stamped c else nothing

unfoldable pub skl_get : List Cell → List ℕ → ValueStruct
skl_get cs key = answer key (seek_cell cs key)

abbrev pub is_absent : ValueStruct → Bool
is_absent vs = not vs.present && vs.meta == 0

abbrev pub newer_of : ValueStruct → ValueStruct → ValueStruct
newer_of max_vs vs = if ltb max_vs.version vs.version then vs else max_vs

-- Through the tables or levels in turn, up to the exact version.
unfoldable pub pick_newest : ℕ → ValueStruct → List ValueStruct → Bool × ValueStruct
pick_newest version max_vs [] = (false, max_vs)
pick_newest version max_vs (vs ∷ rest) =
    let skip = pick_newest version max_vs rest in
    let go = pick_newest version (newer_of max_vs vs) rest in
    if is_absent vs then skip else if vs.version == version then (true, vs) else go

-- The skip lists in the order of `getMemTables`: the mutable one first, unless the database is
-- read-only, then the immutable ones, the last first.
unfoldable pub get_mem_tables : Bool → List Cell → List (List Cell) → List (List Cell)
get_mem_tables read_only mt imm_reversed = if read_only then imm_reversed else mt ∷ imm_reversed

abbrev pub reversed : List Table → List Table → List Table
reversed [] out = out
reversed (t ∷ ts) out = reversed ts (t ∷ out)

unfoldable pub get_table_for_key : LevelHandler → List ℕ → List Table
get_table_for_key s key =
    if s.level == 0
    then reversed s.tables []
    else elim (get_elem? s.tables
        (sort_search (length s.tables) (at_table s.tables (λ t. not (key_lt t.biggest key))))) [
          | none ↦ []
          | some t ↦ t ∷ []
        ]

abbrev pub levels_from : ℕ → List LevelHandler → List LevelHandler
levels_from start_level [] = []
levels_from start_level (h ∷ hs) =
    let rest = levels_from start_level hs in if ltb h.level start_level then rest else h ∷ rest

module _ (entries : Table → List Cell) (does_not_have : Table → List ℕ → Bool) where
  -- The loop over the level's tables.
  unfoldable pub get_from : List ℕ → ValueStruct → List Table → ValueStruct
  get_from key max_vs [] = max_vs
  get_from key max_vs (t ∷ ts) =
      get_from key
        (if does_not_have t (parse_key key) then max_vs else elim (seek_cell (entries t) key) [
          | none ↦ max_vs
          | some c ↦ if same_key key c.key then newer_of max_vs (stamped c) else max_vs
        ])
        ts

  unfoldable pub level_get : List ℕ → LevelHandler → ValueStruct
  level_get key s = get_from key nothing (get_table_for_key s key)

  -- `none` is ErrDBClosed.
  unfoldable pub levels_get :
      Bool → List LevelHandler → List ℕ → ValueStruct → ℕ → Option ValueStruct
  levels_get is_closed levels key max_vs start_level =
      if is_closed
      then none
      else some
          (pick_newest (parse_ts key) max_vs
            (map (level_get key) (levels_from start_level levels))).1

  unfoldable pub db_get : Bool → List (List Cell) → List LevelHandler → List ℕ → Option ValueStruct
  db_get is_closed mem_tables levels key =
      let (found, vs) = pick_newest (parse_ts key) nothing (map (λ m. skl_get m key) mem_tables) in
      if is_closed then none else if found then some vs else levels_get is_closed levels key vs 0
