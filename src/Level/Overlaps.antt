-- ===== src/Level/Overlaps.antt =====
-- Which tables of a level overlap a range: `overlappingTables` of level_handler.go.
use badgerx.Prelude.{
  ℕ, zero, suc, ◌+◌, ◌≤◌, ◌<◌, ◌≡◌, ◌↔◌, ◌||◌, not, Bool, true, false, some, List, [], ◌∷◌, length,
  ltb, ◌==◌, arith, All, get_elem?, Bool-cases, inl, inr,
}
use mathlib.Core.Path.{subst}
use mathlib.Core.Option.{some-injective}
use badgerx.Keys.Order.{KeyLe, KeyLe-trans, compare_keys-flip}
use badgerx.KeyRange.{Table, KeyRange, key_lt, key_gt}
use badgerx.Prelude.Search.{
  IsBoundary, sort_search, sort_search-IsBoundary, IsBoundary-before, IsBoundary-after,
}
use badgerx.Level.{at_table, overlapping_tables}

-- Tables in order, each with its ends in order.
abbrev pub AreArranged : List Table → Type 0
AreArranged [] = Unit
AreArranged (t ∷ ts) =
    KeyLe t.smallest t.biggest
    × All (λ u. KeyLe t.smallest u.smallest × KeyLe t.biggest u.biggest) ts
    × AreArranged ts

pub All-get_elem? {ℓ κ} :
    {A : Type ℓ} (P : A → Type κ) (xs : List A) (i : ℕ) (a : A)
    → All P xs
    → get_elem? xs i ≡ some a
    → P a
All-get_elem? P [] i a h e = absurd (cc)
All-get_elem? P (x ∷ xs) zero a (h, hs) e = subst P (some-injective _ _ e) h
All-get_elem? P (x ∷ xs) (suc i) a (h, hs) e = All-get_elem? P xs i a hs e

pub get_elem?-bound :
    (ts : List Table) (i : ℕ) (t : Table) → get_elem? ts i ≡ some t → i < length ts
get_elem?-bound [] i t e = absurd (cc)
get_elem?-bound (x ∷ ts) zero t e = omega arith
get_elem?-bound (x ∷ ts) (suc i) t e = omega (arith, get_elem?-bound ts i t e)

-- A test that goes on to hold in the order of the tables.
abbrev pub Rises : (Table → Bool) → Type 0
Rises f =
    (t u : Table)
    → KeyLe t.smallest u.smallest
    → KeyLe t.biggest u.biggest
    → f t ≡ true
    → f u ≡ true

pub at_table-Rises :
    (f : Table → Bool)
    → Rises f
    → (ts : List Table) (i : ℕ) → AreArranged ts
    → suc i < length ts
    → at_table ts f i ≡ true
    → at_table ts f (suc i) ≡ true
at_table-Rises f up [] i a lt h = absurd (omega arith)
at_table-Rises f up (t ∷ []) i a lt h = absurd (omega arith)
at_table-Rises f up (t ∷ u ∷ ts) zero (o, later, a) lt h = up t u later.0.0 later.0.1 h
at_table-Rises f up (t ∷ u ∷ ts) (suc i) (o, later, a) lt h =
    at_table-Rises f up (u ∷ ts) i a (omega arith) h

-- The search for such a test finds the first table at which it holds.
search_iff :
    (f : Table → Bool)
    → Rises f
    → (ts : List Table) (i : ℕ) (t : Table) → AreArranged ts
    → get_elem? ts i ≡ some t
    → (sort_search (length ts) (at_table ts f) ≤ i) ↔ (f t ≡ true)
search_iff f up ts i t a e = (
  λ le.
      at t e
        (IsBoundary-after (at_table ts f) (length ts) _ b rises i le (get_elem?-bound ts i t e)),
  λ h. elim (Bool-cases (ltb i (sort_search (length ts) (at_table ts f)))) [
    | inl lt ↦ absurd (
        cc
          (IsBoundary-before (at_table ts f) (length ts) _ b rises i (ground arith), at_back t e h))
    | inr ge ↦ ground arith
  ],
)
  where
    b : IsBoundary (at_table ts f) 0 (length ts) (sort_search (length ts) (at_table ts f))
    b = sort_search-IsBoundary (length ts) (at_table ts f)

    rises : (j : ℕ) → j + 1 < length ts → at_table ts f j ≡ true → at_table ts f (j + 1) ≡ true
    rises j lt h =
        let next : suc j ≡ j + 1 = omega arith in
        subst (λ n. at_table ts f n ≡ true) next (at_table-Rises f up ts j a (omega arith) h)

    at : (t : Table) → get_elem? ts i ≡ some t → at_table ts f i ≡ true → f t ≡ true
    at t e h = ground arith

    at_back : (t : Table) → get_elem? ts i ≡ some t → f t ≡ true → at_table ts f i ≡ true
    at_back t e h = ground arith

ends_rise : (k : List ℕ) → Rises (λ t. not (key_gt k t.biggest))
ends_rise k t u s b h = ground (arith, KeyLe-trans k t.biggest u.biggest)

starts_rise : (k : List ℕ) → Rises (λ t. key_lt k t.smallest)
starts_rise k t u s b h = ground (
  arith,
  KeyLe-trans t.smallest u.smallest k,
  compare_keys-flip k t.smallest,
  compare_keys-flip k u.smallest,
)

-- In a level whose tables are in order, the tables from the first index to before the second are
-- exactly those that the range meets, where both its ends are given.
pub overlapping_tables_iff :
    (ts : List Table) (kr : KeyRange) (i : ℕ) (t : Table)
    → AreArranged ts
    → 0 < length kr.left
    → 0 < length kr.right
    → get_elem? ts i ≡ some t
    → (((overlapping_tables ts kr).0 ≤ i) × (i < (overlapping_tables ts kr).1))
      ↔ (KeyLe kr.left t.biggest × KeyLe t.smallest kr.right)
unfolding overlapping_tables
overlapping_tables_iff ts kr i t a l r e =
    let given : (length kr.left == 0 || length kr.right == 0) ≡ false = ground arith in
    let (p, q) = search_iff (λ t. not (key_gt kr.left t.biggest)) (ends_rise kr.left) ts i t a e in
    let (p', q') = search_iff (λ t. key_lt kr.right t.smallest) (starts_rise kr.right) ts i t a e in
    rw given (
      λ h. (ground (arith, p h.0), ground (arith, q', compare_keys-flip kr.right t.smallest)),
      λ h. (q (ground arith), ground (arith, p', compare_keys-flip kr.right t.smallest)),
    )
