-- ===== src/Lookup/Held.antt =====
-- Which tables hold a cell, whatever the order of the tables.
use badgerx.Prelude.{◌⊎◌, inl, inr, List, [], ◌∷◌, ◌++◌, All}
use badgerx.KeyRange.{Table}
use badgerx.Subcompact.{Cell}
use badgerx.Lookup.{reversed}
use badgerx.Lookup.Newest.{IsIn, Held}
use badgerx.Lookup.Tables.{flat}

IsIn-append_left : (c : Cell) (cs ds : List Cell) → IsIn c cs → IsIn c (cs ++ ds)
IsIn-append_left c [] ds i = absurd i
IsIn-append_left c (d ∷ cs) ds (inl e) = inl e
IsIn-append_left c (d ∷ cs) ds (inr i) = inr (IsIn-append_left c cs ds i)

IsIn-append_right : (c : Cell) (cs ds : List Cell) → IsIn c ds → IsIn c (cs ++ ds)
IsIn-append_right c [] ds i = i
IsIn-append_right c (d ∷ cs) ds i = inr (IsIn-append_right c cs ds i)

IsIn-append_cases : (c : Cell) (cs ds : List Cell) → IsIn c (cs ++ ds) → IsIn c cs ⊎ IsIn c ds
IsIn-append_cases c [] ds i = inr i
IsIn-append_cases c (d ∷ cs) ds (inl e) = inl (inl e)
IsIn-append_cases c (d ∷ cs) ds (inr i) = elim (IsIn-append_cases c cs ds i) [
  | inl x ↦ inl (inr x)
  | inr x ↦ inr x
]

module _ (entries : Table → List Cell) where
  abbrev pub InTables : List Table → Cell → Type 0
  InTables ts c = Held (λ t c. IsIn c (entries t)) ts c

  pub flat-InTables : (ts : List Table) (c : Cell) → IsIn c (flat entries ts) → InTables ts c
  flat-InTables [] c i = i
  flat-InTables (t ∷ ts) c i = elim (IsIn-append_cases c (entries t) (flat entries ts) i) [
    | inl x ↦ inl x
    | inr x ↦ inr (flat-InTables ts c x)
  ]

  pub InTables-flat : (ts : List Table) (c : Cell) → InTables ts c → IsIn c (flat entries ts)
  InTables-flat [] c i = i
  InTables-flat (t ∷ ts) c (inl x) = IsIn-append_left c (entries t) (flat entries ts) x
  InTables-flat (t ∷ ts) c (inr x) =
      IsIn-append_right c (entries t) (flat entries ts) (InTables-flat ts c x)

  pub reversed-InTables :
      (ts out : List Table) (c : Cell)
      → InTables (reversed ts out) c
      → InTables ts c ⊎ InTables out c
  reversed-InTables [] out c i = inr i
  reversed-InTables (t ∷ ts) out c i = elim (reversed-InTables ts (t ∷ out) c i) [
    | inl x ↦ inl (inr x)
    | inr (inl x) ↦ inl (inl x)
    | inr (inr x) ↦ inr x
  ]

  pub InTables-reversed :
      (ts out : List Table) (c : Cell)
      → InTables ts c ⊎ InTables out c
      → InTables (reversed ts out) c
  InTables-reversed [] out c (inl x) = absurd x
  InTables-reversed [] out c (inr x) = x
  InTables-reversed (t ∷ ts) out c (inl (inl x)) = InTables-reversed ts (t ∷ out) c (inr (inl x))
  InTables-reversed (t ∷ ts) out c (inl (inr x)) = InTables-reversed ts (t ∷ out) c (inl x)
  InTables-reversed (t ∷ ts) out c (inr x) = InTables-reversed ts (t ∷ out) c (inr (inr x))

  pub All-reversed {κ} :
      (P : Table → Type κ) (ts out : List Table) → All P ts → All P out → All P (reversed ts out)
  All-reversed P [] out h k = k
  All-reversed P (t ∷ ts) out (h, hs) k = All-reversed P ts (t ∷ out) hs (h, k)
