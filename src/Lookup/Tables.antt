-- ===== src/Lookup/Tables.antt =====
-- Which cells the tables of a level answer from: `get` and `getTableForKey` of level_handler.go.
use badgerx.Prelude.{
  ℕ, zero, suc, ◌+◌, ◌<◌, ◌≡◌, inl, inr, refl, ap, ◌∙◌, not, Bool, true, false, none, some, List,
  [], ◌∷◌, ◌++◌, length, arith, All, get_elem?, Bool-cases,
}
use mathlib.Core.Path.{subst}
use badgerx.Keys.Order.{KeyLe, KeyLe-trans, compare_keys-flip}
use badgerx.KeyRange.{Table, key_lt}
use badgerx.Prelude.Search.{sort_search, sort_search-IsBoundary, IsBoundary-before}
use badgerx.Level.{at_table}
use badgerx.Level.Overlaps.{AreArranged, Rises, at_table-Rises, get_elem?-bound}
use badgerx.Subcompact.{Cell}
use badgerx.Lookup.{seek_cell}
use badgerx.Lookup.Newest.{IsIn}

below-KeyLe : (a b key : List ℕ) → KeyLe a b → key_lt b key ≡ true → key_lt a key ≡ true
below-KeyLe a b key h e =
    ground (arith, KeyLe-trans key a b, compare_keys-flip a key, compare_keys-flip b key)

-- Seek passes over cells that are all below the key.
seek_past :
    (cs ds : List Cell) (b key : List ℕ)
    → All (λ c. KeyLe c.key b) cs
    → key_lt b key ≡ true
    → seek_cell (cs ++ ds) key ≡ seek_cell ds key
unfolding seek_cell
seek_past [] ds b key h e = refl
seek_past (c ∷ cs) ds b key (h, hs) e =
    rw (below-KeyLe c.key b key h e) (seek_past cs ds b key hs e)

-- And stays within cells of which one is not below it.
seek_within :
    (cs ds : List Cell) (c : Cell) (key : List ℕ)
    → IsIn c cs
    → key_lt c.key key ≡ false
    → seek_cell (cs ++ ds) key ≡ seek_cell cs key
unfolding seek_cell
seek_within [] ds c key i e = absurd i
seek_within (d ∷ cs) ds c key i e = elim (Bool-cases (key_lt d.key key)) [
  | inr x ↦ rw x refl
  | inl x ↦ rw x (elim i [
    | inl y ↦ absurd (cc (e, x, ap (λ d. d.key) y))
    | inr y ↦ seek_within cs ds c key y e
  ])
]

module _ (entries : Table → List Cell) where
  abbrev pub flat : List Table → List Cell
  flat [] = []
  flat (t ∷ ts) = entries t ++ flat ts

  -- The biggest key of the table is that of one of its cells, and none is above it.
  pub record HasBiggest (t : Table) : Type 0 where
    pub above : All (λ c. KeyLe c.key t.biggest) (entries t)
    pub last : Cell
    pub held : IsIn last (entries t)
    pub same : t.biggest ≡ last.key

  module _ (key : List ℕ) where
    abbrev pub at_or_behind : Table → Bool
    at_or_behind t = not (key_lt t.biggest key)

    -- Every table before the index is below the key.
    abbrev Passed : List Table → ℕ → Type 0
    Passed ts i = (j : ℕ) → j < i → at_table ts at_or_behind j ≡ false

    Passed-head :
        (t : Table) (ts : List Table) (i : ℕ)
        → Passed (t ∷ ts) (suc i)
        → key_lt t.biggest key ≡ true
    Passed-head t ts i p = ground (arith, p 0 (omega arith))

    Passed-tail : (t : Table) (ts : List Table) (i : ℕ) → Passed (t ∷ ts) (suc i) → Passed ts i
    Passed-tail t ts i p j lt = p (suc j) (omega arith)

    flat-none :
        (ts : List Table) (i : ℕ)
        → All HasBiggest ts
        → Passed ts i
        → get_elem? ts i ≡ none
        → seek_cell (flat ts) key ≡ none
    unfolding seek_cell
    flat-none [] i h p e = refl
    flat-none (t ∷ ts) zero h p e = absurd (cc)
    flat-none (t ∷ ts) (suc i) (h, hs) p e =
        seek_past (entries t) (flat ts) t.biggest key h.above (Passed-head t ts i p)
        ∙ flat-none ts i hs (Passed-tail t ts i p) e

    flat-some :
        (ts : List Table) (i : ℕ) (u : Table)
        → All HasBiggest ts
        → Passed ts i
        → get_elem? ts i ≡ some u
        → at_or_behind u ≡ true
        → seek_cell (flat ts) key ≡ seek_cell (entries u) key
    flat-some [] i u h p e b = absurd (cc)
    flat-some (t ∷ ts) zero u (h, hs) p e b =
        let same : t ≡ u = ground arith in
        let met : key_lt h.last.key key ≡ false =
          ground (arith, ap (λ a. key_lt a key) h.same, ap at_or_behind same) in
        seek_within (entries t) (flat ts) h.last key h.held met
        ∙ ap (λ t. seek_cell (entries t) key) same
    flat-some (t ∷ ts) (suc i) u (h, hs) p e b =
        seek_past (entries t) (flat ts) t.biggest key h.above (Passed-head t ts i p)
        ∙ flat-some ts i u hs (Passed-tail t ts i p) e b

    rises : Rises at_or_behind
    rises t u s b h =
        ground (arith, KeyLe-trans t.biggest u.biggest key, below-KeyLe t.biggest u.biggest key b)

    -- The search for the first table that ends at the key or behind it.
    abbrev pub found_at : List Table → ℕ
    found_at ts = sort_search (length ts) (at_table ts at_or_behind)

    found_at-Passed : (ts : List Table) → AreArranged ts → Passed ts (found_at ts)
    found_at-Passed ts a =
        IsBoundary-before (at_table ts at_or_behind) (length ts) _
          (sort_search-IsBoundary (length ts) (at_table ts at_or_behind))
          (λ i lt h.
            let next : suc i ≡ i + 1 = omega arith in
            subst (λ n. at_table ts at_or_behind n ≡ true) next
              (at_table-Rises at_or_behind rises ts i a (omega arith) h))

    found_at_holds :
        (ts : List Table) (t : Table) → get_elem? ts (found_at ts) ≡ some t → at_or_behind t ≡ true
    found_at_holds ts t e =
        let b = sort_search-IsBoundary (length ts) (at_table ts at_or_behind) in
        reads ts (found_at ts) t e (b.holds (get_elem?-bound ts _ t e))
      where
        reads :
            (ts : List Table) (i : ℕ) (t : Table)
            → get_elem? ts i ≡ some t
            → at_table ts at_or_behind i ≡ true
            → at_or_behind t ≡ true
        reads ts i t e h = ground arith

    -- Seek in the table found is Seek in all the cells of the level.
    pub found_none :
        (ts : List Table)
        → AreArranged ts
        → All HasBiggest ts
        → get_elem? ts (found_at ts) ≡ none
        → seek_cell (flat ts) key ≡ none
    found_none ts a h e = flat-none ts (found_at ts) h (found_at-Passed ts a) e

    pub found_some :
        (ts : List Table) (t : Table)
        → AreArranged ts
        → All HasBiggest ts
        → get_elem? ts (found_at ts) ≡ some t
        → seek_cell (flat ts) key ≡ seek_cell (entries t) key
    found_some ts t a h e =
        flat-some ts (found_at ts) t h (found_at-Passed ts a) e (found_at_holds ts t e)
