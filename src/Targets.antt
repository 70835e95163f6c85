-- ===== src/Targets.antt =====
-- The target sizes of the levels and the base level: `levelTargets` of levels.go. A level is known by
-- its total size, which is not negative, and LevelSizeMultiplier is not 0.
pub mod Bounds
use badgerx.Prelude.{
  ℕ, zero, suc, ◌+◌, ◌-◌, ◌*◌, ◌/◌, ◌%◌, ◌^◌, ◌&&◌, Bool, true, false, List, [], ◌∷◌, ◌++◌, length,
  ltb, leb, ◌==◌, get_or, if◌then◌else◌,
}

pub record Options : Type 0 where
  pub base_level_size : ℕ
  pub level_size_multiplier : ℕ
  pub base_table_size : ℕ
  pub table_size_multiplier : ℕ
  pub mem_table_size : ℕ

pub record Targets : Type 0 where
  pub base_level : ℕ
  pub target_sz : List ℕ
  pub file_sz : List ℕ

abbrev pub adjust : Options → ℕ → ℕ
adjust opt sz = if ltb sz opt.base_level_size then opt.base_level_size else sz

-- The loop from the last level up to level 1: the target sizes of the levels up to `i`, and the base
-- level.
unfoldable pub targets_up_to : Options → ℕ → ℕ → ℕ → List ℕ × ℕ
targets_up_to opt zero db_size base_level = ([], base_level)
targets_up_to opt (suc i) db_size base_level =
    let ltarget = adjust opt db_size in
    let base = if base_level == 0 && leb ltarget opt.base_level_size then suc i else base_level in
    let (sizes, base') = targets_up_to opt i (db_size / opt.level_size_multiplier) base in
    (sizes ++ (ltarget ∷ []), base')

-- The file sizes of the levels from `i` on.
unfoldable pub file_sizes : Options → ℕ → ℕ → ℕ → ℕ → List ℕ
file_sizes opt base_level zero i tsz = []
file_sizes opt base_level (suc rounds) i tsz =
    let bigger = tsz * opt.table_size_multiplier % 2 ^ 64 in
    let same = file_sizes opt base_level rounds (i + 1) tsz in
    let more = file_sizes opt base_level rounds (i + 1) bigger in
    if i == 0
    then opt.mem_table_size ∷ same
    else if leb i base_level
    then tsz ∷ same
    else bigger ∷ more

-- Down to the last empty level, on as many rounds as there are levels.
unfoldable pub bring_down : List ℕ → ℕ → ℕ → ℕ
bring_down sizes zero base_level = base_level
bring_down sizes (suc rounds) base_level =
    let next = bring_down sizes rounds (base_level + 1) in
    if ltb (base_level + 2) (length sizes)
    then (if ltb 0 (get_or sizes (base_level + 1) 0) then base_level else next)
    else base_level

-- The next level, where the base level is empty and the next below its target.
abbrev pub skip_empty : List ℕ → List ℕ → ℕ → ℕ
skip_empty sizes target_sz b =
    if ltb (b + 1) (length sizes)
      && get_or sizes b 0 == 0
      && ltb (get_or sizes (b + 1) 0) (get_or target_sz (b + 1) 0)
    then b + 1
    else b

unfoldable pub level_targets : Options → List ℕ → Targets
level_targets opt sizes =
    let n = length sizes in
    let (targets, first) = targets_up_to opt (n - 1) (get_or sizes (n - 1) 0) 0 in
    let b = skip_empty sizes (0 ∷ targets) (bring_down sizes n first) in
    record {
      base_level = if b == 0 then 1 else b;
      target_sz = 0 ∷ targets;
      file_sz = file_sizes opt first n 0 opt.base_table_size;
    }
