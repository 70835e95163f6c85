-- ===== src/Picking/Splits.antt =====
-- The key ranges of the sub-compactions of a run: addSplits of levels.go.
use badgerx.Prelude.{
  ℕ, ◌+◌, ◌/◌, ◌%◌, ◌<◌, ◌≡◌, ◌⊎◌, inl, inr, refl, ◌&&◌, true, false, List, [], ◌∷◌, ◌++◌, length,
  ltb, ◌==◌, arith, if◌then◌else◌, Bool-cases,
}
use badgerx.Keys.{key_with_ts, parse_key}
use badgerx.KeyRange.{Table, KeyRange, extend, key_lt}
use badgerx.CompactStatus.{CompactDef}
use badgerx.Subcompact.{is_beyond}

abbrev pub all_tables : CompactDef → List Table
all_tables cd = cd.top ++ cd.bot

-- A fifth of the tables, rounded up, and three at least.
abbrev pub split_width : ℕ → ℕ
split_width n = if ltb ((n + 4) / 5) 3 then 3 else (n + 4) / 5

-- The loop over the bottom tables, from an index, with the range that is left.
unfoldable pub split_from : ℕ → ℕ → List Table → ℕ → KeyRange → List KeyRange
split_from width n [] i skr = []
split_from width n (t ∷ ts) i skr =
    let right = key_with_ts (parse_key t.biggest) 0 in
    let later = split_from width n ts (i + 1) (record skr { left = right; right = right }) in
    let rest = split_from width n ts (i + 1) skr in
    if i + 1 == n
    then record skr { right = [] } ∷ []
    else if i % width + 1 == width
    then record skr { right = right } ∷ later
    else rest

unfoldable pub add_splits : CompactDef → List KeyRange
add_splits cd =
    split_from (split_width (length cd.bot)) (length cd.bot) cd.bot 0
      (extend cd.this_range cd.next_range)

-- Not below the start of the range, as the sub-compaction seeks it.
abbrev pub Starts : KeyRange → List ℕ → Type 0
Starts r k = (ltb 0 (length r.left) && key_lt k r.left) ≡ false

-- The sub-compaction of one of the ranges takes the key.
abbrev pub AnyTakes : List ℕ → List KeyRange → Type 0
AnyTakes k [] = ⊥
AnyTakes k (r ∷ rs) = (Starts r k × (is_beyond r k ≡ false)) ⊎ AnyTakes k rs

open_end : (r : KeyRange) (k : List ℕ) → is_beyond (record r { right = [] }) k ≡ false
unfolding is_beyond
open_end r k = refl

goes_on :
    (r : KeyRange) (k right : List ℕ)
    → is_beyond (record r { right = right }) k ≡ true
    → Starts (record r { left = right; right = right }) k
unfolding is_beyond
goes_on r k right h = ground arith

split_from-AnyTakes :
    (width n : ℕ) (ts : List Table) (i : ℕ) (skr : KeyRange) (k : List ℕ)
    → i + length ts ≡ n
    → 0 < length ts
    → Starts skr k
    → AnyTakes k (split_from width n ts i skr)
unfolding split_from
split_from-AnyTakes width n [] i skr k e pos s = absurd (omega arith)
split_from-AnyTakes width n (t ∷ ts) i skr k e pos s =
    let right = key_with_ts (parse_key t.biggest) 0 in
    elim (Bool-cases (i + 1 == n)) [
      | inl a ↦ rw a (inl (s, open_end skr k))
      | inr a ↦
          let more : 0 < length ts = ground arith in
          elim (Bool-cases (i % width + 1 == width)) [
            | inr b ↦ rw (a, b) (split_from-AnyTakes width n ts (i + 1) skr k (omega arith) more s)
            | inl b ↦
                rw (a, b)
                  (elim (Bool-cases (is_beyond (record skr { right = right }) k)) [
                    | inr c ↦ inl (s, c)
                    | inl c ↦ inr (
                        split_from-AnyTakes width n ts (i + 1)
                          (record skr { left = right; right = right }) k (omega arith) more
                          (goes_on skr k right c))
                  ])
          ]
    ]

-- No key is left out by the split of a run with bottom tables: every key from the start of the run's
-- ranges on is taken by one of the sub-compactions.
pub add_splits-AnyTakes :
    (cd : CompactDef) (k : List ℕ)
    → 0 < length cd.bot
    → Starts (extend cd.this_range cd.next_range) k
    → AnyTakes k (add_splits cd)
unfolding add_splits
add_splits-AnyTakes cd k pos s =
    split_from-AnyTakes (split_width (length cd.bot)) (length cd.bot) cd.bot 0 _ k (omega arith) pos
      s
