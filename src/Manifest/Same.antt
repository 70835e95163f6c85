-- ===== src/Manifest/Same.antt =====
-- Two manifests with the same tables go on with the same tables: applyManifestChange of manifest.go.
use badgerx.Prelude.{
  ℕ, ◌<◌, ◌≡◌, refl, sym, ap, ◌∙◌, inl, inr, ◌%◌, ◌^◌, Option, none, some, List, [], ◌∷◌, ◌==◌,
  nat_eq, arith, All, if◌then◌else◌, Bool-cases, Option-cases,
}
use mathlib.Core.Path.{subst}
use badgerx.Prelude.Maps.{lookup, insert, delete, lookup-insert, lookup-delete}
use badgerx.Manifest.{
  TableManifest, Manifest, ManifestChange, ChangeError, apply_create, apply_delete,
  apply_manifest_change, apply_change_set,
}
use badgerx.Manifest.Consistent.{
  Operation-cases, created, exists_already, deleted, invalid, goes_on, fails,
}
use badgerx.Manifest.Clone.{AreEntries}

abbrev pub SameTables : Manifest → Manifest → Type 0
SameTables m n = (id : ℕ) → lookup id m.tables ≡ lookup id n.tables

abbrev Result : Type 0
Result = Manifest × Option ChangeError

abbrev pub SameResult : Result → Result → Type 0
SameResult r s = SameTables r.0 s.0 × (r.1 ≡ s.1)

create_same :
    (m n : Manifest) (c : ManifestChange)
    → SameTables m n
    → SameTables (apply_create m c) (apply_create n c)
unfolding apply_create
create_same m n c h id = ground (
  arith,
  h id,
  lookup-insert c.id id
      (record { level = c.level % 2 ^ 8; key_id = c.key_id; compression = c.compression }) m.tables,
  lookup-insert c.id id
      (record { level = c.level % 2 ^ 8; key_id = c.key_id; compression = c.compression }) n.tables,
)

lookup_deleted :
    (m : Manifest) (id j : ℕ) (o : Option TableManifest)
    → lookup id m.tables ≡ o
    → lookup j (apply_delete m id o).tables ≡ (if id == j then none else lookup j m.tables)
unfolding apply_delete
lookup_deleted m id j (some tm) e = lookup-delete id j m.tables
lookup_deleted m id j none e = elim (Bool-cases (id == j)) [
  | inl x ↦ let same : id ≡ j = ground arith in rw x (ap (λ k. lookup k m.tables) (sym same) ∙ e)
  | inr x ↦ rw x refl
]

delete_same :
    (m n : Manifest) (id : ℕ)
    → SameTables m n
    → SameTables (apply_delete m id (lookup id m.tables)) (apply_delete n id (lookup id n.tables))
delete_same m n id h j = ground (
  arith,
  h j,
  lookup_deleted m id j (lookup id m.tables) refl,
  lookup_deleted n id j (lookup id n.tables) refl,
)

both : (r s r' s' : Result) → r ≡ r' → s ≡ s' → SameResult r' s' → SameResult r s
both r s r' s' e f h = subst (λ x. SameResult x s) (sym e) (subst (SameResult r') (sym f) h)

change_same :
    (m n : Manifest) (c : ManifestChange)
    → SameTables m n
    → SameResult (apply_manifest_change m c) (apply_manifest_change n c)
change_same m n c h = elim (Operation-cases c.op) [
  | inl o ↦ elim (Option-cases (lookup c.id m.tables)) [
    | inl e ↦
        both _ _ _ _ (created m c o e) (created n c o (sym (h c.id) ∙ e))
          (create_same m n c h, refl)
    | inr (tm, e) ↦
        both _ _ _ _ (exists_already m c tm o e) (exists_already n c tm o (sym (h c.id) ∙ e))
          (h, refl)
  ]
  | inr (inl o) ↦ both _ _ _ _ (deleted m c o) (deleted n c o) (delete_same m n c.id h, refl)
  | inr (inr o) ↦ both _ _ _ _ (invalid m c o) (invalid n c o) (h, refl)
]

-- Changes to manifests with the same tables give the same tables, and the same error.
pub changes_same :
    (cs : List ManifestChange) (m n : Manifest)
    → SameTables m n
    → SameResult (apply_change_set cs m) (apply_change_set cs n)
unfolding apply_change_set
changes_same [] m n h = (h, refl)
changes_same (c ∷ cs) m n h =
    let one = change_same m n c h in
    elim (Option-cases (apply_manifest_change m c).1) [
      | inl e ↦
          both _ _ _ _ (goes_on m c cs e) (goes_on n c cs (sym one.1 ∙ e))
            (changes_same cs _ _ one.0)
      | inr (x, e) ↦ both _ _ _ _ (fails m c cs x e) (fails n c cs x (sym one.1 ∙ e)) (h, refl)
    ]

insert-AreEntries :
    (ts : List (ℕ × TableManifest)) (id : ℕ) (tm : TableManifest)
    → tm.level < 256
    → tm.compression < 2 ^ 32
    → lookup id ts ≡ none
    → AreEntries ts
    → AreEntries (insert id tm ts)
unfolding insert lookup
insert-AreEntries [] id tm small fits e h = (refl, small, fits, tt)
insert-AreEntries ((j, tn) ∷ ts) id tm small fits e (alone, s, f, h) = elim (Bool-cases (j == id)) [
  | inl x ↦ absurd (ground arith)
  | inr x ↦ rw x (
    ground (arith, lookup-insert id j tm ts, alone),
    s,
    f,
    insert-AreEntries ts id tm small fits (ground arith) h,
  )
]

delete-AreEntries :
    (ts : List (ℕ × TableManifest)) (id : ℕ) → AreEntries ts → AreEntries (delete id ts)
unfolding delete
delete-AreEntries [] id h = tt
delete-AreEntries ((j, tn) ∷ ts) id (alone, s, f, h) = elim (Bool-cases (j == id)) [
  | inl x ↦ rw x (delete-AreEntries ts id h)
  | inr x ↦ rw x (ground (arith, lookup-delete id j ts, alone), s, f, delete-AreEntries ts id h)
]

abbrev StaysEntries : Result → Type 0
StaysEntries r = AreEntries r.0.tables

create-AreEntries :
    (m : Manifest) (c : ManifestChange)
    → c.compression < 2 ^ 32
    → lookup c.id m.tables ≡ none
    → AreEntries m.tables
    → AreEntries (apply_create m c).tables
unfolding apply_create
create-AreEntries m c fits e h = insert-AreEntries m.tables c.id _ (omega arith) fits e h

apply_delete-AreEntries :
    (m : Manifest) (id : ℕ) (o : Option TableManifest)
    → AreEntries m.tables
    → AreEntries (apply_delete m id o).tables
unfolding apply_delete
apply_delete-AreEntries m id none h = h
apply_delete-AreEntries m id (some tm) h = delete-AreEntries m.tables id h

change-AreEntries :
    (m : Manifest) (c : ManifestChange)
    → c.compression < 2 ^ 32
    → AreEntries m.tables
    → StaysEntries (apply_manifest_change m c)
change-AreEntries m c fits h = elim (Operation-cases c.op) [
  | inl o ↦ elim (Option-cases (lookup c.id m.tables)) [
    | inl e ↦ subst StaysEntries (sym (created m c o e)) (create-AreEntries m c fits e h)
    | inr (tm, e) ↦ subst StaysEntries (sym (exists_already m c tm o e)) h
  ]
  | inr (inl o) ↦
      subst StaysEntries (sym (deleted m c o))
        (apply_delete-AreEntries m c.id (lookup c.id m.tables) h)
  | inr (inr o) ↦ subst StaysEntries (sym (invalid m c o)) h
]

-- Changes keep every table once, on a level and with a compression that fit.
pub changes-AreEntries :
    (cs : List ManifestChange) (m : Manifest)
    → All (λ c. c.compression < 2 ^ 32) cs
    → AreEntries m.tables
    → AreEntries (apply_change_set cs m).0.tables
unfolding apply_change_set
changes-AreEntries [] m f h = h
changes-AreEntries (c ∷ cs) m (f, fs) h = elim (Option-cases (apply_manifest_change m c).1) [
  | inl e ↦
      subst StaysEntries (sym (goes_on m c cs e))
        (changes-AreEntries cs (apply_manifest_change m c).0 fs (change-AreEntries m c f h))
  | inr (x, e) ↦ subst StaysEntries (sym (fails m c cs x e)) h
]
