-- ===== src/Manifest/Clone.antt =====
-- A manifest written out as changes and read back: `asChanges` and `clone` of manifest.go.
use badgerx.Prelude.{
  ℕ, ◌+◌, ◌<◌, ◌≡◌, ◌⊎◌, refl, sym, ap, ◌∙◌, inl, inr, ◌%◌, ◌^◌, Option, none, some, List, [], ◌∷◌,
  length, ◌==◌, nat_eq, arith, if◌then◌else◌, Bool-cases,
}
use mathlib.Core.Path.{subst}
use badgerx.Prelude.Maps.{lookup, lookup-insert}
use badgerx.Manifest.{
  TableManifest, Manifest, ChangeError, create_manifest, new_create_change, as_changes,
  apply_create, apply_change_set, clone,
}
use badgerx.Manifest.Consistent.{created, goes_on}

-- Every table stands once, on a level and with a compression that fit their widths.
abbrev pub AreEntries : List (ℕ × TableManifest) → Type 0
AreEntries [] = Unit
AreEntries ((id, tm) ∷ ts) =
    (lookup id ts ≡ none) × (tm.level < 256) × (tm.compression < 2 ^ 32) × AreEntries ts

-- The tables of the list before those that were there.
abbrev over : Option TableManifest → Option TableManifest → Option TableManifest
over none o = o
over (some tm) o = some tm

-- No table of the list is there yet.
abbrev AreFresh : List (ℕ × TableManifest) → Manifest → Type 0
AreFresh ts b = (id : ℕ) → (lookup id ts ≡ none) ⊎ (lookup id b.tables ≡ none)

-- What the changes of a list make of a manifest.
record IsLoaded (ts : List (ℕ × TableManifest)) (b : Manifest) (r : Manifest × Option ChangeError)
    : Type 0 where
  fine : r.1 ≡ none
  tables : (id : ℕ) → lookup id r.0.tables ≡ over (lookup id ts) (lookup id b.tables)
  creations : r.0.creations ≡ b.creations + length ts
  deletions : r.0.deletions ≡ b.deletions

lookup_head :
    (id j : ℕ) (tm : TableManifest) (ts : List (ℕ × TableManifest))
    → lookup j ((id, tm) ∷ ts) ≡ (if id == j then some tm else lookup j ts)
unfolding lookup
lookup_head id j tm ts = refl

lookup_create :
    (b : Manifest) (id j : ℕ) (tm : TableManifest)
    → tm.level < 256
    → tm.compression < 2 ^ 32
    → lookup j (apply_create b (new_create_change id tm.level tm.key_id tm.compression)).tables
      ≡ (if id == j then some tm else lookup j b.tables)
unfolding apply_create
lookup_create b id j tm small fits =
    let l : tm.level % 2 ^ 32 % 2 ^ 8 ≡ tm.level = omega arith in
    let c : tm.compression % 2 ^ 32 ≡ tm.compression = omega arith in
    rw
      (
        lookup-insert id j
            (record {
              level = tm.level % 2 ^ 32 % 2 ^ 8;
              key_id = tm.key_id;
              compression = tm.compression % 2 ^ 32;
            })
            b.tables,
        l,
        c,
      )
      refl

head_fresh :
    (b : Manifest) (id : ℕ) (tm : TableManifest) (ts : List (ℕ × TableManifest))
    → AreFresh ((id, tm) ∷ ts) b
    → lookup id b.tables ≡ none
head_fresh b id tm ts f = ground (arith, f id, lookup_head id id tm ts)

tail_fresh :
    (b : Manifest) (id : ℕ) (tm : TableManifest) (ts : List (ℕ × TableManifest))
    → tm.level < 256
    → tm.compression < 2 ^ 32
    → lookup id ts ≡ none
    → AreFresh ((id, tm) ∷ ts) b
    → AreFresh ts (apply_create b (new_create_change id tm.level tm.key_id tm.compression))
tail_fresh b id tm ts small fits alone f j = elim (Bool-cases (id == j)) [
  | inl x ↦ let same : id ≡ j = ground arith in inl (ap (λ k. lookup k ts) (sym same) ∙ alone)
  | inr x ↦ ground (arith, f j, lookup_head id j tm ts, lookup_create b id j tm small fits)
]

IsLoaded-head :
    (b : Manifest) (id : ℕ) (tm : TableManifest) (ts : List (ℕ × TableManifest))
    (r : Manifest × Option ChangeError)
    → tm.level < 256
    → tm.compression < 2 ^ 32
    → lookup id ts ≡ none
    → IsLoaded ts (apply_create b (new_create_change id tm.level tm.key_id tm.compression)) r
    → IsLoaded ((id, tm) ∷ ts) b r
unfolding apply_create
IsLoaded-head b id tm ts r small fits alone l = record {
  fine = l.fine;
  tables = λ j. elim (Bool-cases (id == j)) [
    | inl x ↦
        let same : id ≡ j = ground arith in
        let gone : lookup j ts ≡ none = ap (λ k. lookup k ts) (sym same) ∙ alone in
        ground (arith, l.tables j, lookup_head id j tm ts, lookup_create b id j tm small fits, gone)
    | inr x ↦ ground (arith, l.tables j, lookup_head id j tm ts, lookup_create b id j tm small fits)
  ];
  creations = omega (arith, l.creations);
  deletions = l.deletions;
}

as_changes-IsLoaded :
    (ts : List (ℕ × TableManifest)) (b : Manifest)
    → AreEntries ts
    → AreFresh ts b
    → IsLoaded ts b (apply_change_set (as_changes ts) b)
unfolding as_changes apply_change_set lookup
as_changes-IsLoaded [] b h f = record {
  fine = refl;
  tables = λ id. refl;
  creations = omega arith;
  deletions = refl;
}
as_changes-IsLoaded ((id, tm) ∷ ts) b (alone, small, fits, h) f =
    let c = new_create_change id tm.level tm.key_id tm.compression in
    let one = created b c refl (head_fresh b id tm ts f) in
    let later =
      as_changes-IsLoaded ts (apply_create b c) h (tail_fresh b id tm ts small fits alone f) in
    let all : apply_change_set (as_changes ts) (apply_create b c)
        ≡ apply_change_set (c ∷ as_changes ts) b =
      sym (
        goes_on b c (as_changes ts) (ap (λ r. r.1) one)
        ∙ ap (λ r. apply_change_set (as_changes ts) r.0) one) in
    subst (IsLoaded ((id, tm) ∷ ts) b) all (IsLoaded-head b id tm ts _ small fits alone later)

-- A clone has the tables of the manifest, as many creations as tables, and no deletions, where every
-- table stands once, on a level below 256 and with a compression below 2^32.
pub clone_tables :
    (m : Manifest)
    → AreEntries m.tables
    → ((clone m).1 ≡ none)
      × ((id : ℕ) → lookup id (clone m).0.tables ≡ lookup id m.tables)
      × ((clone m).0.creations ≡ length m.tables)
      × ((clone m).0.deletions ≡ 0)
unfolding clone lookup
clone_tables m h =
    let l = as_changes-IsLoaded m.tables create_manifest h (λ id. inr refl) in
    (
      l.fine,
      λ id. l.tables id ∙ over_none (lookup id m.tables),
      omega (arith, l.creations),
      l.deletions,
    )
  where
    over_none : (o : Option TableManifest) → over o none ≡ o
    over_none none = refl
    over_none (some tm) = refl
