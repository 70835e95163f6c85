-- ===== src/CompactStatus/Disjoint.antt =====
-- Running compactions never share a key: `compareAndAdd` of compaction.go.
use badgerx.Prelude.{
  ℕ, zero, suc, ◌≡◌, ◌≢◌, ◌∙◌, inl, inr, Bool, true, false, none, some, List, [], ◌∷◌, ◌++◌, arith,
  get_elem?, All, Option-cases,
}
use mathlib.Core.Path.{subst, sym}
use mathlib.Core.Option.{some-injective}
use badgerx.KeyRange
use badgerx.KeyRange.{KeyRange, Contains, IsProper}
use badgerx.KeyRange.Overlap.{Contains-overlaps_with}
use badgerx.CompactStatus.Levels.{get_elem?-update_level_self, get_elem?-update_level_ne}
use badgerx.CompactStatus.{
  LevelCompactStatus, CompactStatus, CompactDef, update_level, overlaps_any, level_overlaps_with,
  compare_and_add, store_run, add_range,
}

-- No key lies in both ranges.
abbrev pub Apart : KeyRange → KeyRange → Type 0
Apart r s = (k : List ℕ) → Contains r k → Contains s k → ⊥

-- The ranges of one level are proper, and no two of them share a key.
abbrev pub Exclusive : List KeyRange → Type 0
Exclusive [] = Unit
Exclusive (r ∷ rs) = IsProper r × All (Apart r) rs × Exclusive rs

-- So on every level.
abbrev pub IsExclusive : CompactStatus → Type 0
IsExclusive cs = All (λ l. Exclusive l.ranges) cs.levels

Apart-of_false :
    (r s : KeyRange) → IsProper r → IsProper s → KeyRange.overlaps_with r s ≡ false → Apart r s
Apart-of_false r s p q h k a b = cc (h, Contains-overlaps_with r s k p q a b)

All-Apart-snoc :
    (r s : KeyRange) (rs : List KeyRange)
    → All (Apart r) rs
    → Apart r s
    → All (Apart r) (rs ++ (s ∷ []))
All-Apart-snoc r s [] h a = (a, tt)
All-Apart-snoc r s (x ∷ rs) (h, hs) a = (h, All-Apart-snoc r s rs hs a)

pub Exclusive-snoc :
    (rs : List KeyRange) (s : KeyRange)
    → Exclusive rs
    → IsProper s
    → overlaps_any rs s ≡ false
    → Exclusive (rs ++ (s ∷ []))
unfolding overlaps_any
Exclusive-snoc [] s h p e = (p, tt, tt)
Exclusive-snoc (r ∷ rs) s (q, a, h) p e = (
  q,
  All-Apart-snoc r s rs a (Apart-of_false r s q p (ground arith)),
  Exclusive-snoc rs s h p (ground arith),
)

All-update_level :
    (P : LevelCompactStatus → Type 0) (i : ℕ) (f : LevelCompactStatus → LevelCompactStatus)
    (ls : List LevelCompactStatus) {l : LevelCompactStatus}
    → get_elem? ls i ≡ some l
    → (P l → P (f l))
    → All P ls
    → All P (update_level i f ls)
All-update_level P i f [] e g h = tt
All-update_level P zero f (x ∷ ls) e g (h, hs) =
    (subst (λ y. P y → P (f y)) (sym (some-injective _ _ e)) g h, hs)
All-update_level P (suc i) f (x ∷ ls) e g (h, hs) = (h, All-update_level P i f ls e g hs)

pub All-get_elem? :
    (P : LevelCompactStatus → Type 0) (i : ℕ) (ls : List LevelCompactStatus)
    {l : LevelCompactStatus}
    → get_elem? ls i ≡ some l
    → All P ls
    → P l
All-get_elem? P i [] e h = absurd (cc)
All-get_elem? P zero (x ∷ ls) e (h, hs) = subst P (some-injective _ _ e) h
All-get_elem? P (suc i) (x ∷ ls) e (h, hs) = All-get_elem? P i ls e hs

store_run-IsExclusive :
    (cs : CompactStatus) (cd : CompactDef) (this next : LevelCompactStatus)
    → cd.this_level ≢ cd.next_level
    → IsProper cd.this_range
    → IsProper cd.next_range
    → IsExclusive cs
    → get_elem? cs.levels cd.this_level ≡ some this
    → get_elem? cs.levels cd.next_level ≡ some next
    → level_overlaps_with this cd.this_range ≡ false
    → level_overlaps_with next cd.next_range ≡ false
    → IsExclusive (store_run cs cd)
unfolding store_run level_overlaps_with
store_run-IsExclusive cs cd this next d p q h et en ft fn =
    let one =
      get_elem?-update_level_self cd.this_level (λ l. add_range l cd.this_range) cs.levels et in
    let two =
      get_elem?-update_level_ne cd.this_level cd.next_level (λ l. add_range l cd.this_range)
        cs.levels d
      ∙ en in
    let three =
      get_elem?-update_level_ne cd.next_level cd.this_level (λ l. add_range l cd.next_range)
        (update_level cd.this_level (λ l. add_range l cd.this_range) cs.levels) (λ e. d (sym e))
      ∙ one in
    All-update_level _ cd.this_level _ _ three (λ x. x)
      (All-update_level _ cd.next_level _ _ two (λ x. Exclusive-snoc _ _ x q fn)
        (All-update_level (λ l. Exclusive l.ranges) cd.this_level _ cs.levels et
          (λ x. Exclusive-snoc _ _ x p ft) h))

-- What an accepted run was checked against.
pub record IsFree (cs : CompactStatus) (cd : CompactDef) : Type 0 where
  pub this : LevelCompactStatus
  pub next : LevelCompactStatus
  pub has_this : get_elem? cs.levels cd.this_level ≡ some this
  pub has_next : get_elem? cs.levels cd.next_level ≡ some next
  pub this_free : level_overlaps_with this cd.this_range ≡ false
  pub next_free : level_overlaps_with next cd.next_range ≡ false

-- The results of `compare_and_add`, refusals and acceptance.
unfoldable pub Outcome : CompactStatus → CompactDef → Bool → CompactStatus → Type 0
Outcome cs cd false cs' = cs' ≡ cs
Outcome cs cd true cs' = (cs' ≡ store_run cs cd) × IsFree cs cd

Outcome-at :
    (cs : CompactStatus) (cd : CompactDef) (accepted : Bool) (cs' : CompactStatus)
    (this next : LevelCompactStatus)
    → get_elem? cs.levels cd.this_level ≡ some this
    → get_elem? cs.levels cd.next_level ≡ some next
    → compare_and_add cs cd ≡ some (accepted, cs')
    → Outcome cs cd accepted cs'
unfolding compare_and_add Outcome
Outcome-at cs cd false cs' this next et en e = ground arith
Outcome-at cs cd true cs' this next et en e = (
  ground arith,
  record {
    this = this;
    next = next;
    has_this = et;
    has_next = en;
    this_free = ground arith;
    next_free = ground arith;
  },
)

no_level :
    (cs : CompactStatus) (cd : CompactDef) (r : Bool × CompactStatus)
    → compare_and_add cs cd ≡ some r
    → (get_elem? cs.levels cd.this_level ≢ none) × (get_elem? cs.levels cd.next_level ≢ none)
unfolding compare_and_add
no_level cs cd r e = ground arith

pub compare_and_add-Outcome :
    (cs : CompactStatus) (cd : CompactDef) (accepted : Bool) (cs' : CompactStatus)
    → compare_and_add cs cd ≡ some (accepted, cs')
    → Outcome cs cd accepted cs'
compare_and_add-Outcome cs cd accepted cs' e =
    let (a, b) = no_level cs cd (accepted, cs') e in
    elim (Option-cases (get_elem? cs.levels cd.this_level)) [
      | inl x ↦ absurd (a x)
      | inr (this, et) ↦ elim (Option-cases (get_elem? cs.levels cd.next_level)) [
        | inl y ↦ absurd (b y)
        | inr (next, en) ↦ Outcome-at cs cd accepted cs' this next et en e
      ]
    ]

-- Where the registered ranges of every level are proper and no two of them share a key, that still
-- holds after `compareAndAdd` of a run with proper ranges between two different levels, whether it
-- accepts the run or not.
pub compare_and_add-IsExclusive :
    (cs : CompactStatus) (cd : CompactDef) (accepted : Bool) (cs' : CompactStatus)
    → cd.this_level ≢ cd.next_level
    → IsProper cd.this_range
    → IsProper cd.next_range
    → IsExclusive cs
    → compare_and_add cs cd ≡ some (accepted, cs')
    → IsExclusive cs'
unfolding Outcome
compare_and_add-IsExclusive cs cd false cs' d p q h e =
    rw (compare_and_add-Outcome cs cd false cs' e) h
compare_and_add-IsExclusive cs cd true cs' d p q h e =
    let (eq, f) = compare_and_add-Outcome cs cd true cs' e in
    rw eq (
      store_run-IsExclusive cs cd f.this f.next d p q h f.has_this f.has_next f.this_free
        f.next_free)
