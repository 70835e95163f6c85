-- ===== src/Subcompact.antt =====
-- Sub-compactions: `subcompact` of levels.go, with its `addKeys`, and `hasAnyPrefixes`. The merged
-- iterator is the list of what it has left. A builder is the list of what was added, with the key's
-- staleness and the length of the value in the log; when it has reached its capacity, whether a
-- range overlaps too much, and the clock are parameters. Counts for the log are left out, and no
-- table fails to be built.
pub mod Reads
pub mod Steps
pub mod Passes
pub mod Tables
use badgerx.Prelude.{
  ℕ, zero, suc, ◌+◌, ◌%◌, ◌^◌, ◌&&◌, ◌||◌, not, Ordering, Bool, true, false, Option, none, some,
  List, [], ◌∷◌, ◌++◌, length, ltb, leb, ◌==◌, nat_eq, if◌then◌else◌,
}
use Prim.Native.Nat.{bit_and}
use badgerx.Prelude.Maps.{lookup, insert}
use badgerx.Keys.{compare_keys, same_key, parse_ts}
use badgerx.KeyRange.{KeyRange, key_lt, empty_range}
use badgerx.CompactStatus.{add_int64}
use badgerx.Entry.{
  ValuePointer, pointer_decode, bit_value_pointer, bit_merge_entry, bit_discard_earlier_versions,
  is_deleted_or_expired,
}
use badgerx.Txn.{ValueStruct, has_prefix}

-- What an iterator stands on.
pub record Cell : Type 0 where
  pub key : List ℕ
  pub vs : ValueStruct

-- What a builder was given.
pub record Built : Type 0 where
  pub cell : Cell
  pub stale : Bool
  pub vp_len : ℕ

-- What a sub-compaction knows from the start.
pub record Job : Type 0 where
  pub range : KeyRange
  pub drop_prefixes : List (List ℕ)
  pub has_overlap : Bool
  pub discard_ts : ℕ
  pub num_versions_to_keep : ℕ
  pub in_memory : Bool

-- The variables of the loops: those of the sub-compaction, then those of one `addKeys`.
pub record Pass : Type 0 where
  pub last_key : List ℕ
  pub skip_key : List ℕ
  pub num_versions : ℕ
  pub first_key_has_discard_set : Bool
  pub discard_stats : List (ℕ × ℕ)
  pub builder : List Built
  pub table_kr : KeyRange
  pub range_check : ℕ

unfoldable pub has_any_prefixes : List ℕ → List (List ℕ) → Bool
has_any_prefixes s [] = false
has_any_prefixes s (p ∷ ps) = has_prefix s p || has_any_prefixes s ps

-- `discardStats[fid]`, 0 if missing
abbrev discarded : List (ℕ × ℕ) → ℕ → ℕ
discarded stats fid = elim (lookup fid stats) [ none ↦ 0 | some n ↦ n ]

abbrev is_set : ℕ → ℕ → Bool
is_set meta bit = ltb 0 (bit_and meta bit)

unfoldable pub update_stats : Job → ValueStruct → Pass → Pass
update_stats job vs p =
    let vp = pointer_decode vs.value in
    if job.in_memory
    then p
    else if is_set vs.meta bit_value_pointer
    then record p {
      discard_stats =
          insert vp.fid (add_int64 (discarded p.discard_stats vp.fid) vp.len) p.discard_stats;
    }
    else p

-- The end of the range, where it has one.
unfoldable pub is_beyond : KeyRange → List ℕ → Bool
is_beyond range key = ltb 0 (length range.right) && not (key_lt key range.right)

-- One turn of the loop goes on, or breaks.
pub data Turn : Type 0 where
  goes : Pass → Turn
  breaks : Pass → Turn

-- What the builder is given: as stale, by `AddStaleKey`, or not, by `Add`.
abbrev pub built : Bool → Cell → Pass → Built
built expired c p = record {
  cell = c;
  stale = p.first_key_has_discard_set || expired;
  vp_len = if is_set c.vs.meta bit_value_pointer then (pointer_decode c.vs.value).len else 0;
}

unfoldable pub add_cell : Bool → Cell → Pass → Pass
add_cell expired c p = record p { builder = p.builder ++ (built expired c p ∷ []) }

-- The bit is set, or as many versions as are to be kept have been met.
abbrev pub last_valid_version : Job → Cell → ℕ → Bool
last_valid_version job c n =
    is_set c.vs.meta bit_discard_earlier_versions || n == job.num_versions_to_keep

-- A version that may be discarded, once it is counted.
unfoldable pub take_old : Job → Bool → Cell → Pass → Pass
take_old job expired c p =
    let last = last_valid_version job c p.num_versions in
    if expired || last
    then (if not expired && last
        then add_cell expired c (record p { skip_key = c.key })
        else if job.has_overlap
        then add_cell expired c (record p { skip_key = c.key })
        else update_stats job c.vs (record p { skip_key = c.key }))
    else add_cell expired c p

unfoldable pub take_version : ℕ → Job → Cell → Pass → Pass
take_version now job c p =
    let expired = is_deleted_or_expired now c.vs.meta c.vs.expires_at in
    if leb (parse_ts c.key) job.discard_ts && bit_and c.vs.meta bit_merge_entry == 0
    then take_old job expired c (record p { num_versions = p.num_versions + 1 })
    else add_cell expired c p

-- The variables at a key that differs from the last one.
unfoldable pub with_new_key : Cell → Pass → Pass
with_new_key c p = record p {
  last_key = c.key;
  num_versions = 0;
  first_key_has_discard_set = is_set c.vs.meta bit_discard_earlier_versions;
  table_kr = record p.table_kr {
    left = if length p.table_kr.left == 0 then c.key else p.table_kr.left;
    right = c.key;
  };
  range_check = p.range_check + 1;
}

-- A new builder, and a new call of `addKeys`.
abbrev pub fresh : Pass → Pass
fresh p = record p { builder = []; table_kr = empty_range; range_check = 0 }

abbrev pub first_pass : Pass
first_pass = record {
  last_key = [];
  skip_key = [];
  num_versions = 0;
  first_key_has_discard_set = false;
  discard_stats = [];
  builder = [];
  table_kr = empty_range;
  range_check = 0;
}

-- `it.Seek(kr.left)`: to the first key that is not below it.
unfoldable pub seek_left : KeyRange → List Cell → List Cell
seek_left range [] = []
seek_left range (c ∷ cs) =
    let rest = seek_left range cs in
    if ltb 0 (length range.left) && key_lt c.key range.left then rest else c ∷ cs

module _ (reached_capacity : List Built → Bool) (exceeds_allowed_overlap : KeyRange → Bool)
    (now : ℕ) where
  unfoldable pub start_key : Job → Cell → Pass → Turn
  start_key job c p =
      if is_beyond job.range c.key
      then breaks (record p { first_key_has_discard_set = false })
      else if reached_capacity p.builder
      then breaks (record p { first_key_has_discard_set = false })
      else if (p.range_check + 1) % 5000 == 0 && exceeds_allowed_overlap (with_new_key c p).table_kr
      then breaks (with_new_key c p)
      else goes (with_new_key c p)

  -- The body of the loop, after the checks that skip a key.
  unfoldable pub visit : Job → Cell → Pass → Turn
  visit job c p =
      if same_key c.key p.last_key
      then goes (take_version now job c p)
      else elim (start_key job c p) [
        | breaks q ↦ breaks q
        | goes q ↦ goes (take_version now job c q)
      ]

  unfoldable pub turn : Job → Cell → Pass → Turn
  turn job c p =
      if ltb 0 (length job.drop_prefixes) && has_any_prefixes c.key job.drop_prefixes
      then goes (update_stats job c.vs p)
      else if ltb 0 (length p.skip_key) && same_key c.key p.skip_key
      then goes (update_stats job c.vs p)
      else visit job c (record p { skip_key = [] })

  -- What the iterator has left, and the variables.
  unfoldable pub add_keys : Job → List Cell → Pass → List Cell × Pass
  add_keys job [] p = ([], p)
  add_keys job (c ∷ cs) p = elim (turn job c p) [
    | goes q ↦ add_keys job cs q
    | breaks q ↦ (c ∷ cs, q)
  ]

  -- The loop over the tables, with the rounds that are left: the tables built, what the iterator has
  -- left, and the variables.
  unfoldable pub build_tables : ℕ → Job → List Cell → Pass → List (List Built) × List Cell × Pass
  build_tables zero job cs p = ([], cs, p)
  build_tables (suc rounds) job [] p = ([], [], p)
  build_tables (suc rounds) job (c ∷ cs) p =
      let (rest, q) = add_keys job (c ∷ cs) (fresh p) in
      let (tables, rest', q') = build_tables rounds job rest q in
      if is_beyond job.range c.key
      then ([], c ∷ cs, p)
      else (if length q.builder == 0 then tables else q.builder ∷ tables, rest', q')

  unfoldable pub subcompact : Job → List Cell → List (List Built) × List Cell × Pass
  subcompact job cs =
      build_tables (length (seek_left job.range cs)) job (seek_left job.range cs) first_pass
