-- ===== src/Picking/Bottom.antt =====
-- Which tables of the base level a run takes: `overlappingTables` as levels.go slices by it.
use badgerx.Prelude.{
  ℕ, zero, suc, ◌+◌, ◌<◌, Ordering, ◌-◌, ◌&&◌, [], ◌∷◌, leb, get_elem?, ◌≡◌, refl, ap, ◌∙◌, Bool,
  true, false, some, List, length, ltb, arith, take, drop, if◌then◌else◌,
}
use badgerx.Keys.{compare_keys}
use badgerx.Level.Overlaps.{AreArranged, overlapping_tables_iff}
use badgerx.KeyRange.{KeyRange, Table}
use badgerx.Level.{LevelHandler, overlapping_tables}

-- At most, in the order of versioned keys.
abbrev key_le : List ℕ → List ℕ → Bool
key_le a b = elim (compare_keys a b) [ Ordering.gt ↦ false | _ ↦ true ]

-- The tables that the range meets, in their order.
abbrev pub met : KeyRange → List Table → List Table
met r [] = []
met r (t ∷ ts) =
    let rest = met r ts in
    if key_le r.left t.biggest && key_le t.smallest r.right then t ∷ rest else rest

module _ {ℓ} {A : Type ℓ} where
  pub take-all : (ts : List A) → take (length ts) ts ≡ ts
  take-all [] = refl
  take-all (t ∷ ts) = ap (λ us. t ∷ us) (take-all ts)

  abbrev kept : (A → Bool) → List A → List A
  kept f [] = []
  kept f (t ∷ ts) = let rest = kept f ts in if f t then t ∷ rest else rest

  abbrev Within : (A → Bool) → List A → ℕ → ℕ → Type ℓ
  Within f ts l n = (i : ℕ) (t : A) → get_elem? ts i ≡ some t → f t ≡ (leb l i && ltb i (l + n))

  -- A slice keeps the elements with a property, where they are just those between its indices.
  slice-kept :
      (f : A → Bool) (ts : List A) (l n : ℕ) → Within f ts l n → take n (drop l ts) ≡ kept f ts
  slice-kept f [] zero zero h = refl
  slice-kept f [] zero (suc n) h = refl
  slice-kept f [] (suc l) zero h = refl
  slice-kept f [] (suc l) (suc n) h = refl
  slice-kept f (t ∷ ts) (suc l) n h =
      let out : f t ≡ false = h 0 t refl ∙ ground arith in
      let rest = slice-kept f ts l n (λ i u e. h (suc i) u e ∙ ground arith) in rw out rest
  slice-kept f (t ∷ ts) zero zero h =
      let out : f t ≡ false = h 0 t refl ∙ ground arith in
      let rest = slice-kept f ts 0 0 (λ i u e. h (suc i) u e ∙ ground arith) in
      rw out (take_none ts ∙ rest)
    where
      take_none : (us : List A) → [] ≡ take 0 (drop 0 us)
      take_none us = refl
  slice-kept f (t ∷ ts) zero (suc n) h =
      let out : f t ≡ true = h 0 t refl ∙ ground arith in
      let rest = slice-kept f ts 0 n (λ i u e. h (suc i) u e ∙ ground arith) in
      rw out (ap (λ us. t ∷ us) rest)

abbrev meets : KeyRange → Table → Bool
meets r t = key_le r.left t.biggest && key_le t.smallest r.right

kept-met : (r : KeyRange) (ts : List Table) → kept (meets r) ts ≡ met r ts
kept-met r [] = refl
kept-met r (t ∷ ts) = ground (arith, kept-met r ts)

abbrev pub bot_of : LevelHandler → KeyRange → List Table
bot_of next r =
    take ((overlapping_tables next.tables r).1 - (overlapping_tables next.tables r).0)
      (drop (overlapping_tables next.tables r).0 next.tables)

pub bot_of-met :
    (next : LevelHandler) (r : KeyRange)
    → AreArranged next.tables
    → 0 < length r.left
    → 0 < length r.right
    → ltb (overlapping_tables next.tables r).1 (overlapping_tables next.tables r).0 ≡ false
    → bot_of next r ≡ met r next.tables
bot_of-met next r a l u o =
    slice-kept (meets r) next.tables (overlapping_tables next.tables r).0 _ within
    ∙ kept-met r next.tables
  where
    within :
        Within
          (meets r)
          next.tables
          (overlapping_tables next.tables r).0
          ((overlapping_tables next.tables r).1 - (overlapping_tables next.tables r).0)
    within i t e =
        let (p, q) = overlapping_tables_iff next.tables r i t a l u e in ground (arith, o, p, q)
