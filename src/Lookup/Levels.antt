-- ===== src/Lookup/Levels.antt =====
-- A lookup finds the newest version over all memtables and levels: `get` of db.go and levels.go.
use badgerx.Prelude.{
  ℕ, ◌≤◌, ◌<◌, ◌≡◌, ◌⊎◌, inl, inr, refl, sym, ap, ◌∙◌, Bool, true, false, Option, none, some, List,
  [], ◌∷◌, length, arith, All, All-map, map, ◌==◌, get_elem?, if◌then◌else◌, Bool-cases,
  Option-cases, bytes_equal_iff,
}
use mathlib.Core.Path.{subst}
use badgerx.Keys.{parse_key, key_with_ts, same_key, max_uint64}
use badgerx.Keys.RoundTrip.{parse_key-key_with_ts, parse-key_with_ts}
use badgerx.KeyRange.{Table}
use badgerx.Txn.{ValueStruct}
use badgerx.Level.{LevelHandler}
use badgerx.Level.Overlaps.{AreArranged, All-get_elem?}
use badgerx.Subcompact.{Cell}
use badgerx.Lookup.{
  nothing, stamped, newer_of, seek_cell, answer, skl_get, reversed, get_table_for_key, get_from,
  level_get, levels_from, levels_get, db_get, pick_newest,
}
use badgerx.Lookup.Newest.{
  IsIn, IsNewest, Held, IsNewest-newer_of, IsNewest-same, nowhere, regroup, alone, pick_newest_lem,
  exact,
}
use badgerx.Lookup.Sources.{IsGood, AreSorted, seek_some, skl_get-IsNewest}
use badgerx.Lookup.Tables.{flat, HasBiggest, found_at, found_none, found_some}
use badgerx.Lookup.Held.{
  InTables, flat-InTables, InTables-flat, reversed-InTables, InTables-reversed, All-reversed,
}

-- The versions of a memtable or table: sorted and well-formed.
abbrev pub AreStored : List Cell → Type 0
AreStored cs = AreSorted cs × All IsGood cs

levels_from_zero : (hs : List LevelHandler) → levels_from 0 hs ≡ hs
levels_from_zero [] = refl
levels_from_zero (h ∷ hs) = ground (arith, levels_from_zero hs)

module _ (entries : Table → List Cell) where
  -- The tables of a level: each stores its versions, and from level 1 on the tables are in order and
  -- their versions one sorted list.
  pub record IsFit (s : LevelHandler) : Type 0 where
    pub stored : All (λ t. AreStored (entries t)) s.tables
    pub arranged : 0 < s.level → AreArranged s.tables
    pub sorted : 0 < s.level → AreStored (flat entries s.tables)
    pub biggest : 0 < s.level → All (HasBiggest entries) s.tables

  -- The cells of the memtables and of the tables of the levels.
  abbrev pub Stored : List (List Cell) → List LevelHandler → Cell → Type 0
  Stored ms levels c = Held (λ m c. IsIn c m) ms c ⊎ Held (λ s. InTables entries s.tables) levels c

  module _ (does_not_have : Table → List ℕ → Bool) where
    -- A table says that it does not have a key only where it has no version of it.
    abbrev pub IsFaithful : Type 0
    IsFaithful =
        (t : Table) (c : Cell) → IsIn c (entries t) → does_not_have t (parse_key c.key) ≡ false

    module _ (faithful : IsFaithful) (k : List ℕ) (ts : ℕ) (bound : ts ≤ max_uint64) where
      -- What one table answers.
      abbrev table_get : Table → ValueStruct
      table_get t = if does_not_have t k then nothing else skl_get (entries t) (key_with_ts k ts)

      -- One round of the loop over the tables.
      abbrev round : ValueStruct → Table → ValueStruct
      round m t =
          if does_not_have t (parse_key (key_with_ts k ts))
          then m
          else elim (seek_cell (entries t) (key_with_ts k ts)) [
            | none ↦ m
            | some c ↦ if same_key (key_with_ts k ts) c.key then newer_of m (stamped c) else m
          ]

      round-newer_of : (m : ValueStruct) (t : Table) → round m t ≡ newer_of m (table_get t)
      unfolding skl_get
      round-newer_of m t = rw (parse_key-key_with_ts k ts) (ground arith)

      same_key-k : (a : List ℕ) → same_key (key_with_ts k ts) a ≡ true → parse_key a ≡ k
      unfolding same_key
      same_key-k a e = ground (
        arith,
        bytes_equal_iff (parse_key (key_with_ts k ts)) (parse_key a),
        parse_key-key_with_ts k ts,
      )

      left_out :
          (t : Table) (c : Cell)
          → IsIn c (entries t)
          → does_not_have t k ≡ true
          → same_key (key_with_ts k ts) c.key ≡ false
      left_out t c i e = elim (Bool-cases (same_key (key_with_ts k ts) c.key)) [
        | inr x ↦ x
        | inl x ↦ absurd (cc (faithful t c i, ap (does_not_have t) (same_key-k c.key x), e))
      ]

      -- The filter only leaves out what the table would not answer.
      table_get-skl_get :
          (t : Table) → AreStored (entries t) → skl_get (entries t) (key_with_ts k ts) ≡ table_get t
      unfolding skl_get
      table_get-skl_get t s = elim (Bool-cases (does_not_have t k)) [
        | inr x ↦ rw x refl
        | inl x ↦ rw x (elim (Option-cases (seek_cell (entries t) (key_with_ts k ts))) [
          | inl e ↦ rw e refl
          | inr (c, e) ↦ rw (e, left_out t c (seek_some (entries t) _ c s.0 e).held x) refl
        ])
      ]

      table_get-IsNewest :
          (t : Table)
          → AreStored (entries t)
          → IsNewest (λ c. IsIn c (entries t)) k ts (table_get t)
      table_get-IsNewest t s =
          subst (IsNewest _ k ts) (table_get-skl_get t s)
            (skl_get-IsNewest k ts bound (entries t) s.0 s.1)

      get_from-IsNewest :
          (us : List Table) (P : Cell → Type 0) (m : ValueStruct)
          → IsNewest P k ts m
          → All (λ t. AreStored (entries t)) us
          → IsNewest
              (λ c. P c ⊎ InTables entries us c)
              k
              ts
              (get_from entries does_not_have (key_with_ts k ts) m us)
      unfolding get_from
      get_from-IsNewest [] P m n h = alone k ts P m n
      get_from-IsNewest (t ∷ us) P m n (h, hs) =
          let both =
            IsNewest-newer_of k ts P (λ c. IsIn c (entries t)) m (table_get t) n
              (table_get-IsNewest t h) in
          regroup k ts P (λ c. IsIn c (entries t)) (InTables entries us) _
            (get_from-IsNewest us (λ c. P c ⊎ IsIn c (entries t)) (round m t)
              (subst (IsNewest _ k ts) (sym (round-newer_of m t)) both) hs)

      from_nothing :
          (H : Cell → Type 0) (r : ValueStruct) → IsNewest (λ c. ⊥ ⊎ H c) k ts r → IsNewest H k ts r
      from_nothing H r =
          IsNewest-same k ts _ H r (λ c h. elim h [ inl x ↦ absurd x | inr x ↦ x ]) (λ c h. inr h)

      -- Level 0: through all tables, the last first.
      level0_get :
          (us : List Table)
          → All (λ t. AreStored (entries t)) us
          → IsNewest
              (InTables entries us)
              k
              ts
              (get_from entries does_not_have (key_with_ts k ts) nothing (reversed us []))
      level0_get us h =
          IsNewest-same k ts _ (InTables entries us) _
            (λ c i. elim (reversed-InTables entries us [] c i) [ inl x ↦ x | inr x ↦ absurd x ])
            (λ c i. InTables-reversed entries us [] c (inl i))
            (from_nothing (InTables entries (reversed us [])) _ (
              get_from-IsNewest (reversed us []) (λ c. ⊥) nothing (nowhere k ts)
                (All-reversed entries _ us [] h tt)))

      abbrev one_of : Option Table → List Table
      one_of none = []
      one_of (some t) = t ∷ []

      one_get :
          (t : Table)
          → AreStored (entries t)
          → get_from entries does_not_have (key_with_ts k ts) nothing (t ∷ [])
            ≡ newer_of nothing (skl_get (entries t) (key_with_ts k ts))
      unfolding get_from
      one_get t s = round-newer_of nothing t ∙ ap (newer_of nothing) (sym (table_get-skl_get t s))

      -- The other levels: the table found answers for all.
      leveln_get :
          (us : List Table)
          → All (λ t. AreStored (entries t)) us
          → AreArranged us
          → AreStored (flat entries us)
          → All (HasBiggest entries) us
          → IsNewest (InTables entries us) k ts (
              get_from entries does_not_have
                (key_with_ts k ts)
                nothing
                (one_of (get_elem? us (found_at entries (key_with_ts k ts) us))))
      unfolding get_from skl_get
      leveln_get us h a s b =
          let key = key_with_ts k ts in
          let all : IsNewest (InTables entries us) k ts
              (answer key (seek_cell (flat entries us) key)) =
            IsNewest-same k ts _ (InTables entries us) _ (flat-InTables entries us)
              (InTables-flat entries us) (skl_get-IsNewest k ts bound (flat entries us) s.0 s.1) in
          elim (Option-cases (get_elem? us (found_at entries key us))) [
            | inl e ↦ rw e (
                subst (IsNewest (InTables entries us) k ts)
                  (ap (answer key) (found_none entries key us a b e)) all)
            | inr (t, e) ↦
                let here =
                  subst (IsNewest (InTables entries us) k ts)
                    (ap (answer key) (found_some entries key us t a b e)) all in
                let stored = All-get_elem? (λ t. AreStored (entries t)) us _ t h e in
                rw e (
                  subst (IsNewest (InTables entries us) k ts) (sym (one_get t stored)) (
                    from_nothing (InTables entries us) _ (
                      IsNewest-newer_of k ts (λ c. ⊥) (InTables entries us) nothing _ (nowhere k ts)
                        here)))
          ]

      level_get-IsNewest :
          (s : LevelHandler)
          → IsFit s
          → IsNewest
              (InTables entries s.tables)
              k
              ts
              (level_get entries does_not_have (key_with_ts k ts) s)
      unfolding level_get get_table_for_key
      level_get-IsNewest s f = elim (Bool-cases (s.level == 0)) [
        | inl e ↦ rw e (level0_get s.tables f.stored)
        | inr e ↦
            let pos : 0 < s.level = ground arith in
            rw e (leveln_get s.tables f.stored (f.arranged pos) (f.sorted pos) (f.biggest pos))
      ]

    -- A lookup of an open database returns a value, and it is the value of the newest version of the
    -- key up to the timestamp over all memtables and levels, or nothing where none is stored. The
    -- memtables and tables are sorted, the levels from 1 on in order and with their biggest keys, and
    -- the filters leave out no key that is there.
    pub db_get-IsNewest :
        (ms : List (List Cell)) (levels : List LevelHandler) (k : List ℕ) (ts : ℕ)
        → IsFaithful
        → All AreStored ms
        → All IsFit levels
        → 0 < length k
        → ts ≤ max_uint64
        → (r : ValueStruct) × (db_get entries does_not_have false ms levels (key_with_ts k ts)
            ≡ some r)
          × IsNewest (Stored ms levels) k ts r
    unfolding db_get levels_get
    db_get-IsNewest ms levels k ts faithful hm hl named bound =
        let in_levels : LevelHandler → Cell → Type 0 = λ s. InTables entries s.tables in
        let in_mem : List Cell → Cell → Type 0 = λ m c. IsIn c m in
        let first =
          pick_newest_lem k ts in_mem (λ m. skl_get m (key_with_ts k ts)) ms (λ c. ⊥) nothing
            (nowhere k ts)
            (All-map AreStored _ (λ m s. skl_get-IsNewest k ts bound m s.0 s.1) ms hm) in
        let vs = (pick_newest ts nothing (map (λ m. skl_get m (key_with_ts k ts)) ms)).1 in
        let had : IsNewest (Held in_mem ms) k ts vs =
          IsNewest-same k ts _ _ vs (λ c h. elim h [ inl x ↦ absurd x | inr x ↦ x ]) (λ c h. inr h)
            first.newest in
        let second =
          pick_newest_lem k ts in_levels (level_get entries does_not_have (key_with_ts k ts)) levels
            (Held in_mem ms) vs had
            (All-map IsFit _ (λ s f. level_get-IsNewest faithful k ts bound s f) levels hl) in
        rw ((parse-key_with_ts k ts named bound).1, levels_from_zero levels)
          (elim (Bool-cases
            (pick_newest ts nothing (map (λ m. skl_get m (key_with_ts k ts)) ms)).0) [
              | inl e ↦
                  rw e
                    (vs, refl, exact k ts (Held in_mem ms) _ vs (λ c h. inl h) (first.early e) had)
              | inr e ↦ rw e (_, refl, second.newest)
            ])
