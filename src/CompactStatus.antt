-- ===== src/CompactStatus.antt =====
-- The ranges and tables that running compactions hold: `compactStatus` of compaction.go. The two
-- methods that change it run under its lock, so each is one step; `none` is a panic or log.Fatal.
-- A level handler is known by its number: `cd.thisLevel` and `cd.nextLevel` are one pointer exactly
-- when the numbers are equal, and then the two assignments below change one level.
pub mod Levels
pub mod Disjoint
pub mod Release
pub mod Leak
use badgerx.Prelude.{
  ℕ, zero, suc, ◌+◌, ◌-◌, ◌%◌, ◌^◌, Bool, true, false, not, ◌&&◌, ◌||◌, Option, none, some, List,
  [], ◌∷◌, ◌++◌, nat_eq, get_elem?, set, length, ltb, ◌==◌, if◌then◌else◌,
}
use badgerx.Prelude.Maps.{lookup, insert, delete}
use badgerx.KeyRange
use badgerx.KeyRange.{KeyRange, Table, is_empty}

pub record LevelCompactStatus : Type 0 where
  pub ranges : List KeyRange
  pub del_size : ℕ

pub record CompactStatus : Type 0 where
  pub levels : List LevelCompactStatus
  pub tables : List (ℕ × Unit {0})

-- The part of `compactDef` (levels.go) that the status reads.
pub record CompactDef : Type 0 where
  pub this_level : ℕ
  pub next_level : ℕ
  pub top : List Table
  pub bot : List Table
  pub this_range : KeyRange
  pub next_range : KeyRange
  pub this_size : ℕ

-- int64 addition and subtraction, as residues of 2^64
abbrev pub add_int64 : ℕ → ℕ → ℕ
add_int64 a b = (a + b) % 2 ^ 64

abbrev pub sub_int64 : ℕ → ℕ → ℕ
sub_int64 a b = (a + 2 ^ 64 - b % 2 ^ 64) % 2 ^ 64

unfoldable pub overlaps_any : List KeyRange → KeyRange → Bool
overlaps_any [] dst = false
overlaps_any (r ∷ rs) dst = KeyRange.overlaps_with r dst || overlaps_any rs dst

unfoldable pub level_overlaps_with : LevelCompactStatus → KeyRange → Bool
level_overlaps_with lcs dst = overlaps_any lcs.ranges dst

-- The loop of `remove`: the ranges that are not equal to `dst`, and whether one was.
unfoldable pub remove_range : List KeyRange → KeyRange → List KeyRange × Bool
remove_range [] dst = ([], false)
remove_range (r ∷ rs) dst =
    let (final, found) = remove_range rs dst in
    if not (KeyRange.equals r dst) then (r ∷ final, found) else (final, true)

unfoldable pub level_remove : LevelCompactStatus → KeyRange → LevelCompactStatus × Bool
level_remove lcs dst =
    let (final, found) = remove_range lcs.ranges dst in (record lcs { ranges = final }, found)

-- `none` is an index out of range.
unfoldable pub overlaps_with : CompactStatus → ℕ → KeyRange → Option Bool
overlaps_with cs level this = elim (get_elem? cs.levels level) [
  | none ↦ none
  | some l ↦ some (level_overlaps_with l this)
]

unfoldable pub del_size : CompactStatus → ℕ → Option ℕ
del_size cs l = elim (get_elem? cs.levels l) [ none ↦ none | some l ↦ some l.del_size ]

abbrev pub add_range : LevelCompactStatus → KeyRange → LevelCompactStatus
add_range l r = record l { ranges = l.ranges ++ (r ∷ []) }

-- Assignments through the pointer `levels[i]`.
abbrev pub update_level :
    ℕ
    → (LevelCompactStatus → LevelCompactStatus)
    → List LevelCompactStatus
    → List LevelCompactStatus
update_level i f [] = []
update_level zero f (l ∷ ls) = f l ∷ ls
update_level (suc i) f (l ∷ ls) = l ∷ update_level i f ls

unfoldable pub insert_tables : List Table → List (ℕ × Unit {0}) → List (ℕ × Unit {0})
insert_tables [] m = m
insert_tables (t ∷ ts) m = insert_tables ts (insert t.id tt m)

unfoldable pub store_run : CompactStatus → CompactDef → CompactStatus
store_run cs cd = record {
  levels =
      update_level cd.this_level (λ l. record l { del_size = add_int64 l.del_size cd.this_size })
        (update_level cd.next_level (λ l. add_range l cd.next_range)
          (update_level cd.this_level (λ l. add_range l cd.this_range) cs.levels));
  tables = insert_tables (cd.top ++ cd.bot) cs.tables;
}

unfoldable pub compare_and_add : CompactStatus → CompactDef → Option (Bool × CompactStatus)
compare_and_add cs cd = elim (get_elem? cs.levels cd.this_level) [
  | none ↦ none
  | some this ↦ elim (get_elem? cs.levels cd.next_level) [
    | none ↦ none
    | some next ↦
        if level_overlaps_with this cd.this_range
        then some (false, cs)
        else if level_overlaps_with next cd.next_range
        then some (false, cs)
        else some (true, store_run cs cd)
  ]
]

-- The loop over the tables of `delete`, which asserts that each is there.
unfoldable pub delete_tables : List Table → List (ℕ × Unit {0}) → Option (List (ℕ × Unit {0}))
delete_tables [] m = some m
delete_tables (t ∷ ts) m = elim (lookup t.id m) [
  | none ↦ none
  | some _ ↦ delete_tables ts (delete t.id m)
]

-- Removing from the next level, with what was found so far.
unfoldable pub release_next :
    List LevelCompactStatus
    → LevelCompactStatus
    → CompactDef
    → Bool
    → List LevelCompactStatus × Bool
release_next levels next cd found =
    if not (cd.this_level == cd.next_level) && not (is_empty cd.next_range)
    then (
      update_level cd.next_level (λ l. (level_remove l cd.next_range).0) levels,
      (level_remove next cd.next_range).1 && found,
    )
    else (levels, found)

abbrev pub release_this : CompactDef → LevelCompactStatus → LevelCompactStatus × Bool
release_this cd l =
    level_remove (record l { del_size = sub_int64 l.del_size cd.this_size }) cd.this_range

unfoldable pub finish :
    List LevelCompactStatus → Bool → List Table → CompactStatus → Option CompactStatus
finish levels false ts cs = none
finish levels true ts cs = elim (delete_tables ts cs.tables) [
  | none ↦ none
  | some m ↦ some (record { levels = levels; tables = m })
]

unfoldable pub delete_run : CompactStatus → CompactDef → Option CompactStatus
delete_run cs cd = elim (get_elem? cs.levels cd.this_level) [
  | none ↦ none
  | some this ↦ elim (get_elem? cs.levels cd.next_level) [
    | none ↦ none
    | some next ↦
        let (levels, found) =
          release_next (update_level cd.this_level (λ l. (release_this cd l).0) cs.levels) next cd
            (release_this cd this).1 in
        finish levels found (cd.top ++ cd.bot) cs
  ]
]
