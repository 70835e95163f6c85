-- ===== src/Manifest/Consistent.antt =====
-- The levels and the table of tables of a manifest agree: applyManifestChange of manifest.go.
use badgerx.Prelude.{
  ℕ, zero, suc, ◌+◌, ◌<◌, ◌≡◌, ◌⊎◌, refl, sym, ap, ◌∙◌, inl, inr, ◌&&◌, ◌%◌, ◌^◌, Option, none,
  some, List, [], ◌∷◌, ◌++◌, length, ltb, ◌==◌, nat_eq, map, get_or, set, arith, All, if◌then◌else◌,
  Bool-cases, Option-cases,
}
use mathlib.Core.Path.{subst}
use badgerx.Prelude.Maps.{lookup, insert, delete, lookup-insert, lookup-delete}
use badgerx.Manifest.{
  TableManifest, LevelManifest, Manifest, ManifestChange, ChangeError, table_exists, invalid_op,
  Operation, op_create, op_delete, op_other, grow_levels, apply_create, apply_delete,
  apply_manifest_change, apply_change_set,
}

-- The entry of a table in the set of a level, from what the manifest has for the table.
abbrev pub entry_at : ℕ → Option TableManifest → Option (Unit {0})
entry_at i none = none
entry_at i (some tm) = if tm.level == i then some tt else none

-- A level has a table exactly when the manifest has the table on that level.
abbrev pub IsConsistent : Manifest → Type 0
IsConsistent m = (i id : ℕ) → lookup id (get_or m.levels i []) ≡ entry_at i (lookup id m.tables)

get_or-append_empty :
    (ls : List LevelManifest) (i : ℕ) → get_or (ls ++ ([] ∷ [])) i [] ≡ get_or ls i []
get_or-append_empty [] zero = refl
get_or-append_empty [] (suc i) = refl
get_or-append_empty (l ∷ ls) zero = refl
get_or-append_empty (l ∷ ls) (suc i) = get_or-append_empty ls i

-- Empty levels change what no level has.
get_or-grow_levels :
    (rounds level i : ℕ) (ls : List LevelManifest)
    → get_or (grow_levels rounds level ls) i [] ≡ get_or ls i []
unfolding grow_levels
get_or-grow_levels zero level i ls = refl
get_or-grow_levels (suc rounds) level i ls =
    ground (arith, get_or-grow_levels rounds level i (ls ++ ([] ∷ [])), get_or-append_empty ls i)

length-append_one : (ls : List LevelManifest) → length (ls ++ ([] ∷ [])) ≡ length ls + 1
length-append_one [] = refl
length-append_one (l ∷ ls) = omega (arith, length-append_one ls)

-- There are levels enough in the end.
length-grow_levels :
    (rounds level : ℕ) (ls : List LevelManifest)
    → level < length ls + rounds
    → level < length (grow_levels rounds level ls)
unfolding grow_levels
length-grow_levels zero level ls h = omega arith
length-grow_levels (suc rounds) level ls h =
    ground (arith, length-grow_levels rounds level (ls ++ ([] ∷ [])), length-append_one ls)

get_or-set :
    (ls : List LevelManifest) (i j : ℕ) (l : LevelManifest)
    → get_or (set ls i l) j [] ≡ (if i == j && ltb i (length ls) then l else get_or ls j [])
get_or-set [] i j l = ground arith
get_or-set (x ∷ ls) zero zero l = ground arith
get_or-set (x ∷ ls) zero (suc j) l = ground arith
get_or-set (x ∷ ls) (suc i) zero l = ground arith
get_or-set (x ∷ ls) (suc i) (suc j) l = get_or-set ls i j l ∙ ground arith

get_or-map-delete :
    (ls : List LevelManifest) (id i : ℕ)
    → get_or (map (delete id) ls) i [] ≡ delete id (get_or ls i [])
unfolding delete
get_or-map-delete [] id i = refl
get_or-map-delete (l ∷ ls) id zero = refl
get_or-map-delete (l ∷ ls) id (suc i) = get_or-map-delete ls id i

-- Two lookups in the set of a level that is written.
lookup_written :
    (ls : List LevelManifest) (i j id : ℕ) (l : LevelManifest)
    → i < length ls
    → lookup id (get_or (set ls i l) j [])
      ≡ (if i == j then lookup id l else lookup id (get_or ls j []))
lookup_written ls i j id l h = elim (Bool-cases (i == j)) [
  | inl e ↦ rw e (ap (lookup id) (get_or-set ls i j l ∙ ground arith))
  | inr e ↦ rw e (ap (lookup id) (get_or-set ls i j l ∙ ground arith))
]

apply_create-IsConsistent :
    (m : Manifest) (tc : ManifestChange)
    → tc.level < 256
    → lookup tc.id m.tables ≡ none
    → IsConsistent m
    → IsConsistent (apply_create m tc)
unfolding apply_create
apply_create-IsConsistent m tc small fresh h i id =
    let levels = grow_levels (tc.level + 1) tc.level m.levels in
    let long : tc.level < length levels =
      length-grow_levels (tc.level + 1) tc.level m.levels (omega arith) in
    let kept : get_or levels tc.level [] ≡ get_or m.levels tc.level [] =
      get_or-grow_levels (tc.level + 1) tc.level tc.level m.levels in
    let kept_i : get_or levels i [] ≡ get_or m.levels i [] =
      get_or-grow_levels (tc.level + 1) tc.level i m.levels in
    let short : tc.level % 2 ^ 8 ≡ tc.level = omega arith in
    rw
      (
        lookup_written levels tc.level i id (insert tc.id tt (get_or levels tc.level [])) long,
        kept,
        kept_i,
        lookup-insert tc.id id tt (get_or m.levels tc.level []),
        lookup-insert tc.id id
            (record { level = tc.level % 2 ^ 8; key_id = tc.key_id; compression = tc.compression })
            m.tables,
        h i id,
        h tc.level id,
        short,
      )
      (elim (Bool-cases (tc.id == id)) [
        | inl x ↦
            let same : tc.id ≡ id = ground arith in
            let none_yet : entry_at i (lookup id m.tables) ≡ none =
              ap (λ n. entry_at i (lookup n m.tables)) (sym same) ∙ ap (entry_at i) fresh in
            rw (x, none_yet) (ground arith)
        | inr x ↦ rw x (ground arith)
      ])

in_range :
    (ls : List LevelManifest) (i id : ℕ) → lookup id (get_or ls i []) ≡ some tt → i < length ls
unfolding lookup
in_range [] i id e = absurd (cc)
in_range (l ∷ ls) zero id e = omega arith
in_range (l ∷ ls) (suc i) id e = omega (arith, in_range ls i id e)

apply_delete-IsConsistent :
    (m : Manifest) (id : ℕ) (o : Option TableManifest)
    → lookup id m.tables ≡ o
    → IsConsistent m
    → IsConsistent (apply_delete m id o)
unfolding apply_delete
apply_delete-IsConsistent m id none e h i id' =
    rw (get_or-map-delete m.levels id i, lookup-delete id id' (get_or m.levels i []), h i id')
      (elim (Bool-cases (id == id')) [
        | inl x ↦
            let same : id ≡ id' = ground arith in
            let gone : entry_at i (lookup id' m.tables) ≡ none =
              ap (λ n. entry_at i (lookup n m.tables)) (sym same) ∙ ap (entry_at i) e in
            rw (x, gone) refl
        | inr x ↦ rw x refl
      ])
apply_delete-IsConsistent m id (some tm) e h i id' =
    let here : lookup id (get_or m.levels tm.level []) ≡ some tt =
      h tm.level id ∙ ap (entry_at tm.level) e ∙ ground arith in
    let at : lookup id (get_or m.levels i []) ≡ (if tm.level == i then some tt else none) =
      h i id ∙ ap (entry_at i) e in
    rw
      (
        lookup_written m.levels tm.level i id' (delete id (get_or m.levels tm.level []))
            (in_range m.levels tm.level id here),
        lookup-delete id id' (get_or m.levels tm.level []),
        lookup-delete id id' m.tables,
        h i id',
        h tm.level id',
      )
      (elim (Bool-cases (id == id')) [
        | inl x ↦
            let same : id ≡ id' = ground arith in
            let here_i : entry_at i (lookup id' m.tables)
                ≡ (if tm.level == i then some tt else none) =
              ap (λ n. entry_at i (lookup n m.tables)) (sym same) ∙ ap (entry_at i) e in
            rw (x, here_i) (ground arith)
        | inr x ↦ rw x (ground arith)
      ])

pub Operation-cases : (o : Operation) → (o ≡ op_create) ⊎ (o ≡ op_delete) ⊎ (o ≡ op_other)
Operation-cases op_create = inl refl
Operation-cases op_delete = inr (inl refl)
Operation-cases op_other = inr (inr refl)

pub created :
    (m : Manifest) (c : ManifestChange)
    → c.op ≡ op_create
    → lookup c.id m.tables ≡ none
    → apply_manifest_change m c ≡ (apply_create m c, none)
unfolding apply_manifest_change
created m c o e = ground arith

pub exists_already :
    (m : Manifest) (c : ManifestChange) (tm : TableManifest)
    → c.op ≡ op_create
    → lookup c.id m.tables ≡ some tm
    → apply_manifest_change m c ≡ (m, some table_exists)
unfolding apply_manifest_change
exists_already m c tm o e = ground arith

pub deleted :
    (m : Manifest) (c : ManifestChange)
    → c.op ≡ op_delete
    → apply_manifest_change m c ≡ (apply_delete m c.id (lookup c.id m.tables), none)
unfolding apply_manifest_change
deleted m c o = rw o refl

pub invalid :
    (m : Manifest) (c : ManifestChange)
    → c.op ≡ op_other
    → apply_manifest_change m c ≡ (m, some invalid_op)
unfolding apply_manifest_change
invalid m c o = rw o refl

pub goes_on :
    (m : Manifest) (c : ManifestChange) (cs : List ManifestChange)
    → (apply_manifest_change m c).1 ≡ none
    → apply_change_set (c ∷ cs) m ≡ apply_change_set cs (apply_manifest_change m c).0
unfolding apply_change_set
goes_on m c cs e = ground arith

pub fails :
    (m : Manifest) (c : ManifestChange) (cs : List ManifestChange) (x : ChangeError)
    → (apply_manifest_change m c).1 ≡ some x
    → apply_change_set (c ∷ cs) m ≡ (m, some x)
unfolding apply_change_set
fails m c cs x e = ground arith

abbrev AgreesAfter : Manifest × Option ChangeError → Type 0
AgreesAfter r = IsConsistent r.0

apply_manifest_change-IsConsistent :
    (m : Manifest) (tc : ManifestChange)
    → tc.level < 256
    → IsConsistent m
    → AgreesAfter (apply_manifest_change m tc)
apply_manifest_change-IsConsistent m tc small h = elim (Operation-cases tc.op) [
  | inl o ↦ elim (Option-cases (lookup tc.id m.tables)) [
    | inl e ↦ subst AgreesAfter (sym (created m tc o e)) (apply_create-IsConsistent m tc small e h)
    | inr (tm, e) ↦ subst AgreesAfter (sym (exists_already m tc tm o e)) h
  ]
  | inr (inl o) ↦
      subst AgreesAfter (sym (deleted m tc o))
        (apply_delete-IsConsistent m tc.id (lookup tc.id m.tables) refl h)
  | inr (inr o) ↦ subst AgreesAfter (sym (invalid m tc o)) h
]

-- Applying changes to levels below 256 keeps the levels and the table of tables in agreement,
-- also where a change fails.
pub apply_change_set-IsConsistent :
    (cs : List ManifestChange) (m : Manifest)
    → All (λ c. c.level < 256) cs
    → IsConsistent m
    → IsConsistent (apply_change_set cs m).0
unfolding apply_change_set
apply_change_set-IsConsistent [] m small h = h
apply_change_set-IsConsistent (c ∷ cs) m (small, smalls) h =
    elim (Option-cases (apply_manifest_change m c).1) [
      | inl e ↦ subst AgreesAfter (sym (goes_on m c cs e)) (
          apply_change_set-IsConsistent cs (apply_manifest_change m c).0 smalls
            (apply_manifest_change-IsConsistent m c small h))
      | inr (x, e) ↦ subst AgreesAfter (sym (fails m c cs x e)) h
    ]
