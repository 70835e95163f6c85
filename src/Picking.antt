-- ===== src/Picking.antt =====
-- Which tables a compaction takes: fillTables, fillTablesL0ToLbase, fillTablesL0ToL0, fillTablesL0 and
-- fillMaxLevelTables of levels.go, with the changes of the manifest that a compaction makes. What the
-- clock, the target sizes and the discard timestamp say is in the request; the level handlers of the
-- run are those of the list at its numbers. `none` is a panic. The code takes the lock of the compaction
-- status several times on the way; here it all is one step, on a status that is not changed between.
pub mod Registered
pub mod Bottom
pub mod Base
pub mod Splits
use badgerx.Prelude.{
  ℕ, zero, suc, ◌+◌, ◌-◌, ◌*◌, ◌%◌, ◌^◌, ◌&&◌, ◌||◌, not, Bool, true, false, Option, none, some,
  List, [], ◌∷◌, ◌++◌, length, ltb, leb, ◌==◌, nat_eq, get_elem?, take, drop, if◌then◌else◌,
}
use badgerx.Prelude.Maps.{lookup}
use badgerx.Prelude.Search.{sort_search}
use badgerx.Prelude.Sort.{sort_by}
use badgerx.KeyRange
use badgerx.KeyRange.{Table, KeyRange, empty_range, inf_range, extend, get_key_range, key_lt}
use badgerx.CompactStatus
use badgerx.CompactStatus.{
  CompactStatus, CompactDef, compare_and_add, update_level, add_range, insert_tables,
}
use badgerx.Level.{LevelHandler, is_last_level, overlapping_tables, at_table}
use badgerx.Manifest.{ManifestChange, new_create_change, new_delete_change}

-- What a compactor knows: its number, the clock against the tables' ages, the oldest read, the target
-- file sizes, and the tables' highest versions.
pub record Request : Type 0 where
  pub compactor_id : ℕ
  pub max_levels : ℕ
  pub drop_prefixes : List (List ℕ)
  pub adjusted_below_one : Bool
  pub discard_ts : ℕ
  pub file_sz : ℕ → ℕ
  pub max_version : Table → ℕ
  pub age_seconds : Table → ℕ

-- Whether tables were found, the run, and the status.
abbrev pub Outcome : Type 0
Outcome = Option (Bool × CompactDef × CompactStatus)

abbrev pub is_none_left : List Table → Bool
is_none_left [] = true
is_none_left (t ∷ ts) = false

-- `cs.compareAndAdd` of the run, as the last word.
unfoldable pub claim : CompactStatus → CompactDef → Outcome
claim cs cd = elim (compare_and_add cs cd) [ none ↦ none | some (ok, cs') ↦ some (ok, cd, cs') ]

-- The tables of the next level that the run's range meets, and their range.
unfoldable pub with_bot : LevelHandler → CompactDef → Option CompactDef
with_bot next cd =
    let (left, right) = overlapping_tables next.tables cd.this_range in
    let bot = take (right - left) (drop left next.tables) in
    if ltb right left
    then none
    else some (record cd {
      bot = bot;
      next_range = if is_none_left bot then cd.this_range else get_key_range bot;
    })

-- The oldest tables of level 0, each overlapping those before.
unfoldable pub overlapping_prefix : KeyRange → List Table → List Table
overlapping_prefix kr [] = []
overlapping_prefix kr (t ∷ ts) =
    let dkr = get_key_range (t ∷ []) in
    let rest = overlapping_prefix (extend kr dkr) ts in
    if KeyRange.overlaps_with kr dkr then t ∷ rest else []

unfoldable pub fill_tables_l0_to_lbase :
    Request → LevelHandler → LevelHandler → CompactStatus → CompactDef → Outcome
fill_tables_l0_to_lbase req this next cs cd =
    let out =
      if ltb 0 (length req.drop_prefixes)
      then this.tables
      else overlapping_prefix empty_range this.tables in
    if next.level == 0
    then none
    else if req.adjusted_below_one
    then some (false, cd, cs)
    else if is_none_left this.tables
    then some (false, cd, cs)
    else elim (with_bot next (record cd { top = out; this_range = get_key_range out })) [
      | none ↦ none
      | some cd' ↦ claim cs cd'
    ]

abbrev pub is_running : CompactStatus → Table → Bool
is_running cs t = elim (lookup t.id cs.tables) [ none ↦ false | some u ↦ true ]

-- The tables of level 0 that are neither big, nor new, nor taken.
unfoldable pub small_tables : Request → CompactStatus → List Table → List Table
small_tables req cs [] = []
small_tables req cs (t ∷ ts) =
    let rest = small_tables req cs ts in
    if leb (2 * req.file_sz 0) t.size || ltb (req.age_seconds t) 10 || is_running cs t
    then rest
    else t ∷ rest

-- The change of the target size of level 0 is left out.
unfoldable pub fill_tables_l0_to_l0 : Request → LevelHandler → CompactStatus → CompactDef → Outcome
fill_tables_l0_to_l0 req this cs cd =
    let cd' = record cd { next_level = 0; next_range = empty_range; bot = [] } in
    let out = small_tables req cs this.tables in
    if not (req.compactor_id == 0)
    then some (false, cd, cs)
    else if not (this.level == 0)
    then none
    else if ltb (length out) 4
    then some (false, cd', cs)
    else some (
      true,
      record cd' { this_range = inf_range; top = out },
      record {
        levels = update_level this.level (λ l. add_range l inf_range) cs.levels;
        tables = insert_tables out cs.tables;
      },
    )

unfoldable pub fill_tables_l0 :
    Request → LevelHandler → LevelHandler → CompactStatus → CompactDef → Outcome
fill_tables_l0 req this next cs cd = elim (fill_tables_l0_to_lbase req this next cs cd) [
  | none ↦ none
  | some (true, cd', cs') ↦ some (true, cd', cs')
  | some (false, cd', cs') ↦ fill_tables_l0_to_l0 req this cs' cd'
]

unfoldable pub sort_by_stale_data_size : List Table → List Table
sort_by_stale_data_size tables = sort_by (λ t u. ltb u.stale t.stale) tables

unfoldable pub sort_by_heuristic : Request → List Table → List Table
sort_by_heuristic req tables = sort_by (λ t u. ltb (req.max_version t) (req.max_version u)) tables

-- The tables from an index on, up to the size needed.
unfoldable pub collect_from : ℕ → ℕ → List Table → CompactDef → CompactDef
collect_from total_size need_sz [] cd = cd
collect_from total_size need_sz (t ∷ ts) cd =
    let more = collect_from (total_size + t.size) need_sz ts (record cd {
      bot = cd.bot ++ (t ∷ []);
      next_range = extend cd.next_range (get_key_range (t ∷ []));
    }) in
    if leb need_sz (total_size + t.size) then cd else more

-- It asserts that the search finds the table.
unfoldable pub collect_bot_tables : List Table → Table → ℕ → CompactDef → Option CompactDef
collect_bot_tables tables t need_sz cd =
    let j =
      sort_search (length tables) (at_table tables (λ u. not (key_lt u.smallest t.smallest))) in
    elim (get_elem? tables j) [
      | none ↦ none
      | some u ↦
          if not (u.id == t.id)
          then none
          else some (collect_from t.size need_sz (drop (j + 1) tables) cd)
    ]

-- Too new for the oldest read, or made within the hour, or with less than 10 MB of stale data.
abbrev pub is_skipped : Request → Table → Bool
is_skipped req t =
    ltb req.discard_ts (req.max_version t)
    || ltb (req.age_seconds t) 3600
    || ltb t.stale (10 * 2 ^ 20)

abbrev pub with_one : Table → CompactDef → CompactDef
with_one t cd = record cd {
  this_size = t.size;
  this_range = get_key_range (t ∷ []);
  next_range = get_key_range (t ∷ []);
}

-- One turn of a loop over tables, with the run and the status after it: a panic, the next turn, a
-- break, or a return of true.
pub data Attempt : Type 0 where
  panics : Attempt
  continues : (cd : CompactDef) (cs : CompactStatus) → Attempt
  breaks : (cd : CompactDef) (cs : CompactStatus) → Attempt
  returns : (cd : CompactDef) (cs : CompactStatus) → Attempt

-- Whether the loop returned true, the run, and the status.
unfoldable pub each_table :
    (Table → CompactDef → CompactStatus → Attempt)
    → List Table
    → CompactDef
    → CompactStatus
    → Outcome
each_table turn [] cd cs = some (false, cd, cs)
each_table turn (t ∷ ts) cd cs = elim (turn t cd cs) [
  | panics ↦ none
  | continues cd' cs' ↦ each_table turn ts cd' cs'
  | breaks cd' cs' ↦ some (false, cd', cs')
  | returns cd' cs' ↦ some (true, cd', cs')
]

-- `compareAndAdd` of the run: where it is refused the loop goes on, with the run that is given.
unfoldable pub claim_or : CompactDef → CompactDef → CompactStatus → Attempt
claim_or cd other cs = elim (compare_and_add cs cd) [
  | none ↦ panics
  | some (true, cs') ↦ returns cd cs'
  | some (false, cs') ↦ continues other cs'
]

unfoldable pub try_max_level : Request → List Table → Table → CompactDef → CompactStatus → Attempt
try_max_level req tables t cd cs =
    let need = req.file_sz cd.this_level in
    let top = record (with_one t cd) { top = t ∷ [] } in
    if is_skipped req t
    then continues cd cs
    else elim (CompactStatus.overlaps_with cs cd.this_level (get_key_range (t ∷ []))) [
      | none ↦ panics
      | some true ↦ continues (with_one t cd) cs
      | some false ↦
          if leb need t.size then breaks top cs else elim (collect_bot_tables tables t need top) [
            | none ↦ panics
            | some cd' ↦ claim_or cd' (record cd' { bot = []; next_range = empty_range }) cs
          ]
    ]

abbrev pub has_no_stale : List Table → Bool
has_no_stale [] = false
has_no_stale (t ∷ ts) = t.stale == 0

unfoldable pub fill_max_level_tables : Request → List Table → CompactStatus → CompactDef → Outcome
fill_max_level_tables req tables cs cd =
    let sorted = sort_by_stale_data_size tables in
    if has_no_stale sorted
    then some (false, cd, cs)
    else elim (each_table (try_max_level req tables) sorted (record cd { bot = [] }) cs) [
      | none ↦ none
      | some (true, cd', cs') ↦ some (true, cd', cs')
      | some (false, cd', cs') ↦
          if is_none_left cd'.top then some (false, cd', cs') else claim cs' cd'
    ]

unfoldable pub try_level : LevelHandler → Table → CompactDef → CompactStatus → Attempt
try_level next t cd cs =
    let one = record cd { this_size = t.size; this_range = get_key_range (t ∷ []) } in
    elim (CompactStatus.overlaps_with cs cd.this_level one.this_range) [
      | none ↦ panics
      | some true ↦ continues one cs
      | some false ↦ elim (with_bot next (record one { top = t ∷ [] })) [
        | none ↦ panics
        | some cd' ↦
            if is_none_left cd'.bot
            then claim_or cd' cd' cs
            else elim (CompactStatus.overlaps_with cs cd'.next_level cd'.next_range) [
              | none ↦ panics
              | some true ↦ continues cd' cs
              | some false ↦ claim_or cd' cd' cs
            ]
      ]
    ]

unfoldable pub fill_tables :
    Request → LevelHandler → LevelHandler → CompactStatus → CompactDef → Outcome
fill_tables req this next cs cd =
    if is_none_left this.tables
    then some (false, cd, cs)
    else if is_last_level req.max_levels this
    then fill_max_level_tables req this.tables cs cd
    else each_table (try_level next) (sort_by_heuristic req this.tables) cd cs

-- The changes that a finished compaction makes.
unfoldable pub create_changes : ℕ → (Table → ℕ) → (Table → ℕ) → List Table → List ManifestChange
create_changes level key_id compression [] = []
create_changes level key_id compression (t ∷ ts) =
    new_create_change t.id level (key_id t) (compression t)
    ∷ create_changes level key_id compression ts

unfoldable pub delete_changes : (Table → Bool) → List Table → List ManifestChange
delete_changes is_in_memory [] = []
delete_changes is_in_memory (t ∷ ts) =
    let rest = delete_changes is_in_memory ts in
    if is_in_memory t then rest else new_delete_change t.id ∷ rest

unfoldable pub build_change_set :
    (Table → ℕ) → (Table → ℕ) → (Table → Bool) → CompactDef → List Table → List ManifestChange
build_change_set key_id compression is_in_memory cd new_tables =
    create_changes cd.next_level key_id compression new_tables
    ++ (delete_changes is_in_memory cd.top ++ delete_changes (λ t. false) cd.bot)
