-- ===== src/Examples/Lookups.antt =====
-- Lookups over a memtable and two levels, and the tables of a level that a range meets.
use badgerx.Prelude.{
  ℕ, ◌≤◌, ◌<◌, ◌≡◌, ◌↔◌, refl, sym, ap, inl, inr, Bool, true, false, not, some, List, [], ◌∷◌,
  arith, All, ◌==◌, bytes_equal, bytes_equal_iff, ◌||◌, if◌then◌else◌,
}
use badgerx.Keys.{
  key_with_ts, put_be, get_be, parse_key, parse_ts, same_key, compare_keys, bytes_compare,
  max_uint64,
}
use badgerx.Keys.Order.{KeyLe}
use badgerx.Keys.RoundTrip.{parse-key_with_ts}
use badgerx.Prelude.Search.{sort_search, search_between}
use badgerx.KeyRange.{KeyRange, Table}
use badgerx.Txn.{ValueStruct}
use badgerx.Level.{LevelHandler, overlapping_tables}
use badgerx.Level.Overlaps.{AreArranged, overlapping_tables_iff}
use badgerx.Subcompact.{Cell}
use badgerx.Lookup.{
  db_get, stamped, get_mem_tables, pick_newest, skl_get, seek_cell, levels_get, level_get, get_from,
  get_table_for_key,
}
use badgerx.Lookup.Newest.{IsNewest, IsIn}
use badgerx.Lookup.Sources.{IsGood}
use badgerx.Lookup.Tables.{HasBiggest}
use badgerx.Lookup.Levels.{AreStored, IsFit, IsFaithful, Stored, db_get-IsNewest}

abbrev version : ℕ → ℕ → Cell
version k ts = record {
  key = key_with_ts (k ∷ []) ts;
  vs = record {
    meta = 0;
    user_meta = 0;
    expires_at = 0;
    value = ts ∷ [];
    present = true;
    version = 0;
  };
}

abbrev table : ℕ → List ℕ → List ℕ → Table
table id smallest biggest = record {
  id = id;
  smallest = smallest;
  biggest = biggest;
  size = 10;
  stale = 0;
}

abbrev young : Table
young = table 7 (key_with_ts (1 ∷ []) 5) (key_with_ts (1 ∷ []) 5)

abbrev low : Table
low = table 3 (key_with_ts (1 ∷ []) 2) (key_with_ts (1 ∷ []) 2)

abbrev high : Table
high = table 4 (key_with_ts (2 ∷ []) 3) (key_with_ts (2 ∷ []) 1)

-- What the tables hold, by their ids.
abbrev entries : Table → List Cell
entries t =
    if t.id == 7
    then version 1 5 ∷ []
    else if t.id == 3
    then version 1 2 ∷ []
    else if t.id == 4
    then version 2 3 ∷ version 2 1 ∷ []
    else []

abbrev has_key : List ℕ → List Cell → Bool
has_key k [] = false
has_key k (c ∷ cs) = bytes_equal (parse_key c.key) k || has_key k cs

-- A filter without errors of either kind.
abbrev does_not_have : Table → List ℕ → Bool
does_not_have t k = not (has_key k (entries t))

has_key_held : (c : Cell) (cs : List Cell) → IsIn c cs → has_key (parse_key c.key) cs ≡ true
has_key_held c [] i = absurd i
has_key_held c (d ∷ cs) (inl e) =
    ground (arith, bytes_equal_iff (parse_key d.key) (parse_key c.key), ap (λ c. parse_key c.key) e)
has_key_held c (d ∷ cs) (inr i) = ground (arith, has_key_held c cs i)

filter-IsFaithful : IsFaithful entries does_not_have
filter-IsFaithful t c i = ap not (has_key_held c (entries t) i)

abbrev levels : List LevelHandler
levels =
    record { level = 0; tables = young ∷ []; total_size = 10; total_stale_size = 0 }
    ∷ record { level = 1; tables = low ∷ high ∷ []; total_size = 20; total_stale_size = 0 }
    ∷ []

abbrev memtables : List (List Cell)
memtables = get_mem_tables false (version 2 9 ∷ []) ([] ∷ [])

version-IsGood : (k ts : ℕ) → 0 < ts → ts ≤ max_uint64 → IsGood (version k ts)
version-IsGood k ts pos bound =
    let same : parse_ts (version k ts).key ≡ ts =
      (parse-key_with_ts (k ∷ []) ts (omega arith) bound).1 in
    record {
      user = k ∷ [];
      bound = rw same bound;
      packed = ap (key_with_ts (k ∷ [])) (sym same);
      live = (rw same pos, refl);
    }

one-AreStored : (k ts : ℕ) → 0 < ts → ts ≤ max_uint64 → AreStored (version k ts ∷ [])
one-AreStored k ts pos bound = ((tt, tt), (version-IsGood k ts pos bound, tt))

high-AreStored : AreStored (version 2 3 ∷ version 2 1 ∷ [])
unfolding compare_keys bytes_compare key_with_ts put_be
high-AreStored = (
  (((λ e. cc), tt), (tt, tt)),
  (
    version-IsGood 2 3 (omega arith) (omega arith),
    (version-IsGood 2 1 (omega arith) (omega arith), tt),
  ),
)

flat-AreStored : AreStored (version 1 2 ∷ version 2 3 ∷ version 2 1 ∷ [])
unfolding compare_keys bytes_compare key_with_ts put_be
flat-AreStored = (
  (((λ e. cc), ((λ e. cc), tt)), high-AreStored.0),
  (version-IsGood 1 2 (omega arith) (omega arith), high-AreStored.1),
)

low_high-AreArranged : AreArranged (low ∷ high ∷ [])
unfolding compare_keys bytes_compare key_with_ts put_be
low_high-AreArranged = ((λ e. cc), (((λ e. cc), (λ e. cc)), tt), ((λ e. cc), tt, tt))

low-HasBiggest : HasBiggest entries low
unfolding compare_keys bytes_compare key_with_ts put_be
low-HasBiggest = record {
  above = ((λ e. cc), tt);
  last = version 1 2;
  held = inl refl;
  same = refl;
}

high-HasBiggest : HasBiggest entries high
unfolding compare_keys bytes_compare key_with_ts put_be
high-HasBiggest = record {
  above = ((λ e. cc), ((λ e. cc), tt));
  last = version 2 1;
  held = inr (inl refl);
  same = refl;
}

levels-IsFit : All (IsFit entries) levels
levels-IsFit = (
  record {
    stored = (one-AreStored 1 5 (omega arith) (omega arith), tt);
    arranged = λ h. absurd (omega arith);
    sorted = λ h. absurd (omega arith);
    biggest = λ h. absurd (omega arith);
  },
  (
    record {
      stored = (one-AreStored 1 2 (omega arith) (omega arith), (high-AreStored, tt));
      arranged = λ h. low_high-AreArranged;
      sorted = λ h. flat-AreStored;
      biggest = λ h. (low-HasBiggest, (high-HasBiggest, tt));
    },
    tt,
  ),
)

memtables-AreStored : All AreStored memtables
unfolding get_mem_tables
memtables-AreStored = (one-AreStored 2 9 (omega arith) (omega arith), ((tt, tt), tt))

-- Key 2 at 4: above the memtable's version, and found in level 1.
db_get-IsNewest_example :
    (r : ValueStruct) × (db_get entries does_not_have false memtables levels
        (key_with_ts (2 ∷ []) 4)
      ≡ some r)
    × IsNewest (Stored entries memtables levels) (2 ∷ []) 4 r
db_get-IsNewest_example =
    db_get-IsNewest entries does_not_have memtables levels (2 ∷ []) 4 filter-IsFaithful
      memtables-AreStored levels-IsFit (omega arith) (omega arith)

looks_up :
    db_get entries does_not_have false memtables levels (key_with_ts (2 ∷ []) 4)
    ≡ some (stamped (version 2 3))
unfolding db_get levels_get level_get get_from get_table_for_key pick_newest skl_get seek_cell
    get_mem_tables sort_search search_between same_key parse_key parse_ts get_be key_with_ts put_be
    compare_keys bytes_compare
looks_up = refl

abbrev wide : KeyRange
wide = record {
  left = key_with_ts (2 ∷ []) 9;
  right = key_with_ts (3 ∷ []) 0;
  inf = false;
  size = 0;
}

-- A range that meets the second of the two tables.
overlapping_tables_iff_example :
    (((overlapping_tables (low ∷ high ∷ []) wide).0 ≤ 1)
      × (1 < (overlapping_tables (low ∷ high ∷ []) wide).1))
    ↔ (KeyLe wide.left high.biggest × KeyLe high.smallest wide.right)
unfolding key_with_ts put_be
overlapping_tables_iff_example =
    overlapping_tables_iff (low ∷ high ∷ []) wide 1 high low_high-AreArranged (omega arith)
      (omega arith) refl
