-- ===== src/Picking/Registered.antt =====
-- A run that is picked is registered, and one that is not leaves the status as it was: levels.go.
use badgerx.Prelude.{
  ◌≡◌, ◌⊎◌, inl, inr, refl, Bool, true, false, Option, none, some, List, [], ◌∷◌, leb, arith,
  if◌then◌else◌, Bool-cases, Option-cases,
}
use mathlib.Core.Path.{subst}
use badgerx.KeyRange.{Table, get_key_range}
use badgerx.CompactStatus
use badgerx.CompactStatus.{CompactStatus, CompactDef, compare_and_add}
use badgerx.Level.{LevelHandler, is_last_level}
use badgerx.Picking.{
  Request, Outcome, Attempt, panics, continues, breaks, returns, is_none_left, claim, claim_or,
  with_bot, each_table, try_max_level, try_level, is_skipped, with_one, has_no_stale,
  sort_by_stale_data_size, sort_by_heuristic, collect_bot_tables, fill_max_level_tables,
  fill_tables,
}

-- A run that was found is accepted by the status, which is then the new one; else the status is as
-- it was.
abbrev pub IsSettled : CompactStatus → Bool → CompactDef → CompactStatus → Type 0
IsSettled cs true cd cs' = compare_and_add cs cd ≡ some (true, cs')
IsSettled cs false cd cs' = cs' ≡ cs

abbrev Settles : CompactStatus → Outcome → Type 0
Settles cs none = Unit
Settles cs (some (ok, cd, cs')) = IsSettled cs ok cd cs'

abbrev Holds : CompactStatus → Attempt → Type 0
Holds cs panics = Unit
Holds cs (continues cd cs') = cs' ≡ cs
Holds cs (breaks cd cs') = cs' ≡ cs
Holds cs (returns cd cs') = compare_and_add cs cd ≡ some (true, cs')

pub refused :
    (cs cs' : CompactStatus) (cd : CompactDef)
    → compare_and_add cs cd ≡ some (false, cs')
    → cs' ≡ cs
unfolding compare_and_add
refused cs cs' cd e = ground arith

claim_or-Holds : (cd other : CompactDef) (cs : CompactStatus) → Holds cs (claim_or cd other cs)
unfolding claim_or
claim_or-Holds cd other cs = go (compare_and_add cs cd) refl
  where
    go :
        (o : Option (Bool × CompactStatus))
        → compare_and_add cs cd ≡ o
        → Holds cs (elim o [
          | none ↦ panics
          | some (true, cs') ↦ returns cd cs'
          | some (false, cs') ↦ continues other cs'
        ])
    go none e = tt
    go (some (true, cs')) e = e
    go (some (false, cs')) e = refused cs cs' cd e

each_table-Settles :
    (turn : Table → CompactDef → CompactStatus → Attempt)
    → ((t : Table) (cd : CompactDef) (cs : CompactStatus) → Holds cs (turn t cd cs))
    → (ts : List Table) (cd : CompactDef) (cs : CompactStatus)
    → Settles cs (each_table turn ts cd cs)
unfolding each_table
each_table-Settles turn h [] cd cs = refl
each_table-Settles turn h (t ∷ ts) cd cs =
    go (λ cd' cs'. each_table-Settles turn h ts cd' cs') (turn t cd cs) (h t cd cs)
  where
    go :
        ((cd' : CompactDef) (cs' : CompactStatus) → Settles cs' (each_table turn ts cd' cs'))
        → (a : Attempt) → Holds cs a
        → Settles cs (elim a [
          | panics ↦ none
          | continues cd' cs' ↦ each_table turn ts cd' cs'
          | breaks cd' cs' ↦ some (false, cd', cs')
          | returns cd' cs' ↦ some (true, cd', cs')
        ])
    go ih panics e = tt
    go ih (continues cd' cs') e = subst (λ c. Settles c (each_table turn ts cd' cs')) e (ih cd' cs')
    go ih (breaks cd' cs') e = e
    go ih (returns cd' cs') e = e

Option-Bool-cases : (o : Option Bool) → (o ≡ none) ⊎ (o ≡ some true) ⊎ (o ≡ some false)
Option-Bool-cases none = inl refl
Option-Bool-cases (some true) = inr (inl refl)
Option-Bool-cases (some false) = inr (inr refl)

try_max_level-Holds :
    (req : Request) (tables : List Table) (t : Table) (cd : CompactDef) (cs : CompactStatus)
    → Holds cs (try_max_level req tables t cd cs)
unfolding try_max_level
try_max_level-Holds req tables t cd cs = elim (Bool-cases (is_skipped req t)) [
  | inl e ↦ rw (try_max_level, e) refl
  | inr e ↦
      elim (Option-Bool-cases
        (CompactStatus.overlaps_with cs cd.this_level (get_key_range (t ∷ [])))) [
          | inl o ↦ rw (try_max_level, e, o) tt
          | inr (inl o) ↦ rw (try_max_level, e, o) refl
          | inr (inr o) ↦ elim (Bool-cases (leb (req.file_sz cd.this_level) t.size)) [
            | inl b ↦ rw (try_max_level, e, o, b) refl
            | inr b ↦
                elim (Option-cases (
                  collect_bot_tables tables t (req.file_sz cd.this_level)
                    (record (with_one t cd) { top = t ∷ [] }))) [
                      | inl c ↦ rw (try_max_level, e, o, b, c) tt
                      | inr (cd', c) ↦ rw (try_max_level, e, o, b, c) (claim_or-Holds cd' _ cs)
                    ]
          ]
        ]
]

try_level-Holds :
    (next : LevelHandler) (t : Table) (cd : CompactDef) (cs : CompactStatus)
    → Holds cs (try_level next t cd cs)
unfolding try_level
try_level-Holds next t cd cs =
    let one = record cd { this_size = t.size; this_range = get_key_range (t ∷ []) } in
    elim (Option-Bool-cases
      (CompactStatus.overlaps_with cs cd.this_level (get_key_range (t ∷ [])))) [
        | inl o ↦ rw (try_level, o) tt
        | inr (inl o) ↦ rw (try_level, o) refl
        | inr (inr o) ↦ elim (Option-cases (with_bot next (record one { top = t ∷ [] }))) [
          | inl c ↦ rw (try_level, o, c) tt
          | inr (cd', c) ↦ elim (Bool-cases (is_none_left cd'.bot)) [
            | inl b ↦ rw (try_level, o, c, b) (claim_or-Holds cd' cd' cs)
            | inr b ↦
                elim (Option-Bool-cases
                  (CompactStatus.overlaps_with cs cd'.next_level cd'.next_range)) [
                    | inl p ↦ rw (try_level, o, c, b, p) tt
                    | inr (inl p) ↦ rw (try_level, o, c, b, p) refl
                    | inr (inr p) ↦ rw (try_level, o, c, b, p) (claim_or-Holds cd' cd' cs)
                  ]
          ]
        ]
      ]

claim-Settles : (cs : CompactStatus) (cd : CompactDef) → Settles cs (claim cs cd)
unfolding claim
claim-Settles cs cd = go (compare_and_add cs cd) refl
  where
    go :
        (o : Option (Bool × CompactStatus))
        → compare_and_add cs cd ≡ o
        → Settles cs (elim o [ none ↦ none | some (ok, cs') ↦ some (ok, cd, cs') ])
    go none e = tt
    go (some (true, cs')) e = e
    go (some (false, cs')) e = refused cs cs' cd e

fill_max-Settles :
    (req : Request) (tables : List Table) (cs : CompactStatus) (cd : CompactDef)
    → Settles cs (fill_max_level_tables req tables cs cd)
unfolding fill_max_level_tables
fill_max-Settles req tables cs cd =
    elim (Bool-cases (has_no_stale (sort_by_stale_data_size tables))) [
      | inl e ↦ rw e refl
      | inr e ↦ rw e (
          go
            (each_table (try_max_level req tables) (sort_by_stale_data_size tables)
              (record cd { bot = [] }) cs)
            (each_table-Settles (try_max_level req tables) (try_max_level-Holds req tables)
              (sort_by_stale_data_size tables) (record cd { bot = [] }) cs))
    ]
  where
    go :
        (r : Outcome)
        → Settles cs r
        → Settles cs (elim r [
          | none ↦ none
          | some (true, cd', cs') ↦ some (true, cd', cs')
          | some (false, cd', cs') ↦
              if is_none_left cd'.top then some (false, cd', cs') else claim cs' cd'
        ])
    go none h = tt
    go (some (true, cd', cs')) h = h
    go (some (false, cd', cs')) h = elim (Bool-cases (is_none_left cd'.top)) [
      | inl x ↦ rw x h
      | inr x ↦ rw x (subst (λ c. Settles c (claim cs' cd')) h (claim-Settles cs' cd'))
    ]

fill_tables-Settles :
    (req : Request) (this next : LevelHandler) (cs : CompactStatus) (cd : CompactDef)
    → Settles cs (fill_tables req this next cs cd)
unfolding fill_tables
fill_tables-Settles req this next cs cd = elim (Bool-cases (is_none_left this.tables)) [
  | inl e ↦ rw e refl
  | inr e ↦ elim (Bool-cases (is_last_level req.max_levels this)) [
    | inl x ↦ rw (e, x) (fill_max-Settles req this.tables cs cd)
    | inr x ↦
        rw (e, x)
          (each_table-Settles (try_level next) (try_level-Holds next)
            (sort_by_heuristic req this.tables) cd cs)
  ]
]

-- Where fillTables finds a run, the status accepts exactly this run, and is as that leaves it; where
-- it finds none, the status is as it was. It holds on the last level and above it.
pub fill_tables-IsSettled :
    (req : Request) (this next : LevelHandler) (cs cs' : CompactStatus) (cd cd' : CompactDef)
    (found : Bool)
    → fill_tables req this next cs cd ≡ some (found, cd', cs')
    → IsSettled cs found cd' cs'
fill_tables-IsSettled req this next cs cs' cd cd' found e =
    subst (Settles cs) e (fill_tables-Settles req this next cs cd)
