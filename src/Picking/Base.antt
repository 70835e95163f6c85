-- ===== src/Picking/Base.antt =====
-- What a run from level 0 to the base level takes: levels.go.
use badgerx.Prelude.{
  ℕ, suc, ◌<◌, [], ◌∷◌, ◌≡◌, inl, inr, refl, sym, ap, Bool, true, false, Option, none, some, List,
  length, ltb, ◌==◌, arith, take, if◌then◌else◌, Bool-cases,
}
use mathlib.Core.Path.{subst}
use badgerx.Keys.{max_uint64, parse_key}
use badgerx.Keys.RoundTrip.{key-length}
use badgerx.Level.Overlaps.{AreArranged}
use badgerx.KeyRange.{
  KeyRange, Table, get_key_range, empty_range, overlaps_with, is_empty, extend, min_smallest,
  max_biggest,
}
use badgerx.CompactStatus.{CompactStatus, CompactDef, compare_and_add}
use badgerx.Level.{LevelHandler, overlapping_tables}
use badgerx.Picking.{
  Request, Outcome, is_none_left, claim, with_bot, fill_tables_l0_to_lbase, overlapping_prefix,
}
use badgerx.Picking.Registered.{refused}
use badgerx.Picking.Bottom.{met, bot_of, bot_of-met, take-all}

-- The range of the bottom tables, which is that of the run where there are none.
abbrev pub range_or : KeyRange → List Table → KeyRange
range_or r [] = r
range_or r (t ∷ ts) = get_key_range (t ∷ ts)

-- A run from level 0 to the base level: it is registered, its top tables are the first ones of level
-- 0, all of them for dropped prefixes, and its bottom tables are those of the next level that the
-- range of the top tables meets.
pub record IsRun (req : Request) (this next : LevelHandler) (cs : CompactStatus) (cd : CompactDef)
    (cs' : CompactStatus) : Type 0 where
  pub claimed : compare_and_add cs cd ≡ some (true, cs')
  pub some_top : 0 < length cd.top
  pub first : (n : ℕ) × (cd.top ≡ take n this.tables)
  pub dropping : (0 < length req.drop_prefixes) → cd.top ≡ this.tables
  pub this_range : cd.this_range ≡ get_key_range cd.top
  pub bottom : cd.bot ≡ met cd.this_range next.tables
  pub next_range : cd.next_range ≡ range_or cd.this_range cd.bot

-- What a call of fillTablesL0ToLbase leaves.
abbrev pub IsPicked :
    Request
    → LevelHandler
    → LevelHandler
    → CompactStatus
    → Bool
    → CompactDef
    → CompactStatus
    → Type 0
IsPicked req this next cs true cd cs' = IsRun req this next cs cd cs'
IsPicked req this next cs false cd cs' = cs' ≡ cs

abbrev grown : LevelHandler → CompactDef → CompactDef
grown next cd = record cd {
  bot = bot_of next cd.this_range;
  next_range =
      if is_none_left (bot_of next cd.this_range)
      then cd.this_range
      else get_key_range (bot_of next cd.this_range);
}

next_range_of :
    (r : KeyRange) (ts : List Table)
    → (if is_none_left ts then r else get_key_range ts) ≡ range_or r ts
next_range_of r [] = refl
next_range_of r (t ∷ ts) = refl

overlapping_prefix-take :
    (kr : KeyRange) (ts : List Table) → (n : ℕ) × (overlapping_prefix kr ts ≡ take n ts)
unfolding overlapping_prefix
overlapping_prefix-take kr [] = (0, refl)
overlapping_prefix-take kr (t ∷ ts) =
    let dkr = get_key_range (t ∷ []) in
    elim (Bool-cases (overlaps_with kr dkr)) [
      | inl e ↦
          let (n, p) = overlapping_prefix-take (extend kr dkr) ts in
          (suc n, rw e (ap (λ us. t ∷ us) p))
      | inr e ↦ (0, rw e refl)
    ]

-- The oldest table is always taken.
overlapping_prefix-some :
    (ts : List Table) → is_none_left ts ≡ false → 0 < length (overlapping_prefix empty_range ts)
unfolding overlapping_prefix overlaps_with is_empty
overlapping_prefix-some [] e = absurd (cc)
overlapping_prefix-some (t ∷ ts) e = omega arith

abbrev top_of : Request → LevelHandler → List Table
top_of req this =
    if ltb 0 (length req.drop_prefixes)
    then this.tables
    else overlapping_prefix empty_range this.tables

-- What is known of the top tables.
record IsTop (req : Request) (this : LevelHandler) (top : List Table) : Type 0 where
  some_top : 0 < length top
  first : (n : ℕ) × (top ≡ take n this.tables)
  dropping : (0 < length req.drop_prefixes) → top ≡ this.tables

top_of-IsTop :
    (req : Request) (this : LevelHandler)
    → is_none_left this.tables ≡ false
    → IsTop req this (top_of req this)
top_of-IsTop req this e = elim (Bool-cases (ltb 0 (length req.drop_prefixes))) [
  | inl d ↦ rw d (record {
    some_top = some_left this.tables e;
    first = (length this.tables, sym (take-all this.tables));
    dropping = λ h. refl;
  })
  | inr d ↦ rw d (record {
    some_top = overlapping_prefix-some this.tables e;
    first = overlapping_prefix-take empty_range this.tables;
    dropping = λ h. absurd (ground arith);
  })
]
  where
    some_left : (ts : List Table) → is_none_left ts ≡ false → 0 < length ts
    some_left [] q = absurd (cc)
    some_left (t ∷ ts) q = omega arith

range-ends :
    (ts : List Table)
    → 0 < length ts
    → (0 < length (get_key_range ts).left) × (0 < length (get_key_range ts).right)
unfolding get_key_range
range-ends [] h = absurd (omega arith)
range-ends (t ∷ ts) h = (
  omega (arith, key-length (parse_key (min_smallest t.smallest ts)) max_uint64),
  omega (arith, key-length (parse_key (max_biggest t.biggest ts)) 0),
)

abbrev Picks : Request → LevelHandler → LevelHandler → CompactStatus → Outcome → Type 0
Picks req this next cs none = Unit
Picks req this next cs (some (true, cd, cs')) = IsRun req this next cs cd cs'
Picks req this next cs (some (false, cd, cs')) = cs' ≡ cs

claim-Picks :
    (req : Request) (this next : LevelHandler) (cs : CompactStatus) (cd : CompactDef)
    → ((cs' : CompactStatus)
        → compare_and_add cs cd ≡ some (true, cs')
        → IsRun req this next cs cd cs')
    → Picks req this next cs (claim cs cd)
unfolding claim
claim-Picks req this next cs cd f = go (compare_and_add cs cd) refl
  where
    go :
        (o : Option (Bool × CompactStatus))
        → compare_and_add cs cd ≡ o
        → Picks req this next cs (elim o [ none ↦ none | some (ok, cs') ↦ some (ok, cd, cs') ])
    go none e = tt
    go (some (true, cs')) e = f cs' e
    go (some (false, cs')) e = refused cs cs' cd e

with_bot-Picks :
    (req : Request) (this next : LevelHandler) (cs : CompactStatus) (cd : CompactDef)
    → AreArranged next.tables
    → IsTop req this cd.top
    → cd.this_range ≡ get_key_range cd.top
    → Picks req this next cs (elim (with_bot next cd) [ none ↦ none | some cd' ↦ claim cs cd' ])
unfolding with_bot
with_bot-Picks req this next cs cd a t r =
    elim (Bool-cases (
      ltb (overlapping_tables next.tables cd.this_range).1
        (overlapping_tables next.tables cd.this_range).0)) [
          | inl x ↦ rw x tt
          | inr x ↦ rw x (
              claim-Picks req this next cs (grown next cd) (λ cs' e.
                let (l, u) = range-ends cd.top t.some_top in
                record {
                  claimed = e;
                  some_top = t.some_top;
                  first = t.first;
                  dropping = t.dropping;
                  this_range = r;
                  bottom =
                      bot_of-met next cd.this_range a (subst (λ k. 0 < length k.left) (sym r) l)
                        (subst (λ k. 0 < length k.right) (sym r) u) x;
                  next_range = next_range_of cd.this_range (bot_of next cd.this_range);
                }))
        ]

l0_to_lbase-Picks :
    (req : Request) (this next : LevelHandler) (cs : CompactStatus) (cd : CompactDef)
    → AreArranged next.tables
    → Picks req this next cs (fill_tables_l0_to_lbase req this next cs cd)
unfolding fill_tables_l0_to_lbase
l0_to_lbase-Picks req this next cs cd a =
    go _ (next.level == 0) req.adjusted_below_one (is_none_left this.tables) (λ e.
      with_bot-Picks req this next cs
        (record cd { top = top_of req this; this_range = get_key_range (top_of req this) }) a
        (top_of-IsTop req this e) refl)
  where
    go :
        (r : Outcome) (x y z : Bool)
        → (z ≡ false → Picks req this next cs r)
        → Picks req this next cs (
            if x
            then none
            else if y
            then some (false, cd, cs)
            else if z
            then some (false, cd, cs)
            else r)
    go r true y z h = tt
    go r false true z h = refl
    go r false false true h = refl
    go r false false false h = h refl

-- Where fillTablesL0ToLbase finds a run, over a base level whose tables are in order, the status
-- accepts exactly this run; its top tables are the first ones of level 0, at least one, and all of
-- them where prefixes are dropped; its range is theirs; its bottom tables are exactly the tables of
-- the base level that this range meets, in their order; and the next range is that of the bottom
-- tables, or the run's own where there are none. Where it finds no run, the status is as it was.
pub fill_tables_l0_to_lbase-IsPicked :
    (req : Request) (this next : LevelHandler) (cs cs' : CompactStatus) (cd cd' : CompactDef)
    (found : Bool)
    → AreArranged next.tables
    → fill_tables_l0_to_lbase req this next cs cd ≡ some (found, cd', cs')
    → IsPicked req this next cs found cd' cs'
fill_tables_l0_to_lbase-IsPicked req this next cs cs' cd cd' false a e =
    subst (Picks req this next cs) e (l0_to_lbase-Picks req this next cs cd a)
fill_tables_l0_to_lbase-IsPicked req this next cs cs' cd cd' true a e =
    subst (Picks req this next cs) e (l0_to_lbase-Picks req this next cs cd a)
