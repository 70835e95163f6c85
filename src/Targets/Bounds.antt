-- ===== src/Targets/Bounds.antt =====
-- The base level is never level 0, and no target is below the size of the base level: levels.go.
use badgerx.Prelude.{
  ℕ, zero, suc, ◌+◌, ◌-◌, ◌/◌, ◌≤◌, ◌<◌, ◌&&◌, List, [], ◌∷◌, ◌++◌, length, leb, ◌==◌, arith, All,
  drop, get_or, if◌then◌else◌,
}
use badgerx.Targets.{Options, adjust, targets_up_to, bring_down, skip_empty, level_targets}

All-append_one : (P : ℕ → Type 0) (xs : List ℕ) (x : ℕ) → All P xs → P x → All P (xs ++ (x ∷ []))
All-append_one P [] x h p = (p, tt)
All-append_one P (y ∷ xs) x (h, hs) p = (h, All-append_one P xs x hs p)

-- The base level that the sizes give, and the targets.
targets_up_to-bounds :
    (opt : Options) (i db_size base n : ℕ)
    → base ≤ n
    → i ≤ n
    → ((targets_up_to opt i db_size base).1 ≤ n)
      × All (λ t. opt.base_level_size ≤ t) (targets_up_to opt i db_size base).0
unfolding targets_up_to
targets_up_to-bounds opt zero db_size base n h k = (h, tt)
targets_up_to-bounds opt (suc i) db_size base n h k =
    let now = if base == 0 && leb (adjust opt db_size) opt.base_level_size then suc i else base in
    let (b, ts) =
      targets_up_to-bounds opt i (db_size / opt.level_size_multiplier) now n (ground arith)
        (omega arith) in
    (
      b,
      All-append_one _ (targets_up_to opt i (db_size / opt.level_size_multiplier) now).0
          (adjust opt db_size) ts (ground arith),
    )

bring_down-bounds :
    (sizes : List ℕ) (rounds base : ℕ)
    → base + 1 ≤ length sizes
    → bring_down sizes rounds base + 1 ≤ length sizes
unfolding bring_down
bring_down-bounds sizes zero base h = h
bring_down-bounds sizes (suc rounds) base h =
    ground (arith, bring_down-bounds sizes rounds (base + 1))

skip_empty-bounds :
    (sizes target_sz : List ℕ) (b : ℕ)
    → b + 1 ≤ length sizes
    → skip_empty sizes target_sz b + 1 ≤ length sizes
skip_empty-bounds sizes target_sz b h = ground arith

clamped :
    (b n : ℕ)
    → 2 ≤ n
    → b + 1 ≤ n
    → (0 < (if b == 0 then 1 else b)) × ((if b == 0 then 1 else b) < n)
clamped b n h k = (ground arith, ground arith)

-- With two levels at least, the base level is one of them and not level 0, and the targets of the
-- levels from 1 on are not below the size of the base level.
pub level_targets-bounds :
    (opt : Options) (sizes : List ℕ)
    → 2 ≤ length sizes
    → (0 < (level_targets opt sizes).base_level)
      × ((level_targets opt sizes).base_level < length sizes)
      × All (λ t. opt.base_level_size ≤ t) (drop 1 (level_targets opt sizes).target_sz)
unfolding level_targets
level_targets-bounds opt sizes h =
    let n = length sizes in
    let up = targets_up_to opt (n - 1) (get_or sizes (n - 1) 0) 0 in
    let (first, ts) =
      targets_up_to-bounds opt (n - 1) (get_or sizes (n - 1) 0) 0 (n - 1) (omega arith)
        (omega arith) in
    let down = bring_down-bounds sizes n up.1 (omega (arith, first)) in
    let (low, high) =
      clamped (skip_empty sizes (0 ∷ up.0) (bring_down sizes n up.1)) n h
        (skip_empty-bounds sizes (0 ∷ up.0) _ down) in
    (low, high, ts)
