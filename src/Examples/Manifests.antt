-- ===== src/Examples/Manifests.antt =====
-- Manifest files, with a plain encoding of changes: manifest.go.
use badgerx.Prelude.{
  ℕ, ◌+◌, false, ◌<◌, ◌≡◌, refl, Option, none, some, List, [], ◌∷◌, arith, length, ◌%◌, ◌^◌, nat_eq,
  ltb, leb, ◌&&◌, if◌then◌else◌, ◌==◌,
}
use mathlib.Core.Path.{subst}
use mathlib.Core.Option.{some-injective}
use badgerx.Prelude.Maps.{lookup, insert, delete}
use badgerx.Keys.{put_be}
use badgerx.Manifest.{
  TableManifest, Manifest, ManifestChange, Operation, op_create, op_delete, op_other,
  create_manifest, new_create_change, new_delete_change, clone, apply_manifest_change,
  apply_change_set, apply_create, apply_delete, grow_levels, ManifestFile, add_changes, replayed,
  too_long, header,
}
use badgerx.Manifest.Consistent.{IsConsistent, apply_change_set-IsConsistent}
use badgerx.Manifest.Clone.{clone_tables}
use badgerx.Manifest.Same.{SameTables}
use badgerx.Manifest.Torn.{all_changes, log_of, replay_file, torn_file, replay_torn}
use badgerx.Manifest.Mirror.{IsMirrored, add_changes-IsMirrored, replay-mirror}

abbrev checksum : List ℕ → ℕ
checksum b = length b % 2 ^ 32

abbrev op_code : Operation → ℕ
op_code op_create = 0
op_code op_delete = 1
op_code op_other = 2

abbrev op_of : ℕ → Operation
op_of n = if n == 0 then op_create else if n == 1 then op_delete else op_other

-- Six numbers for each change.
abbrev rows : List ManifestChange → List ℕ
rows [] = []
rows (c ∷ cs) =
    op_code c.op ∷ c.id ∷ c.level ∷ c.key_id ∷ c.encryption_algo ∷ c.compression ∷ rows cs

abbrev marshal : List ManifestChange → Option (List ℕ)
marshal cs = some (rows cs)

abbrev unmarshal : List ℕ → Option (List ManifestChange)
unmarshal [] = some []
unmarshal (o ∷ i ∷ l ∷ k ∷ a ∷ c ∷ rest) =
    let changes = unmarshal rest in
    elim changes [
      | none ↦ none
      | some cs ↦ some (
          record {
            id = i;
            op = op_of o;
            level = l;
            key_id = k;
            encryption_algo = a;
            compression = c;
          }
          ∷ cs)
    ]
unmarshal bytes = none

op_of-op_code : (o : Operation) → op_of (op_code o) ≡ o
op_of-op_code op_create = refl
op_of-op_code op_delete = refl
op_of-op_code op_other = refl

unmarshal-rows : (cs : List ManifestChange) → unmarshal (rows cs) ≡ some cs
unmarshal-rows [] = refl
unmarshal-rows (c ∷ cs) = rw (unmarshal-rows cs, op_of-op_code c.op) refl

decodes : (cs : List ManifestChange) (b : List ℕ) → marshal cs ≡ some b → unmarshal b ≡ some cs
decodes cs b e = subst (λ b. unmarshal b ≡ some cs) (some-injective _ _ e) (unmarshal-rows cs)

summed : (b : List ℕ) → checksum b < 2 ^ 32
summed b = omega arith

-- Two tables, then one of them moves from level 0 to level 1.
abbrev sets : List (List ManifestChange)
sets =
    (new_create_change 1 0 0 1 ∷ new_create_change 2 1 0 1 ∷ [])
    ∷ (new_delete_change 1 ∷ new_create_change 3 1 0 1 ∷ [])
    ∷ []

abbrev log : List ℕ
log = elim (log_of checksum marshal unmarshal sets) [ none ↦ [] | some l ↦ l ]

-- The third record, of one change, is cut off in its tenth byte.
replay_torn_example :
    replay_file checksum marshal unmarshal
      (torn_file checksum marshal unmarshal 7 log (rows (new_delete_change 2 ∷ [])) 10)
      7
    ≡ (if leb 8 10
          && ltb
              (length
                (torn_file checksum marshal unmarshal 7 log (rows (new_delete_change 2 ∷ [])) 10))
              6
        then too_long
        else replayed (apply_change_set (all_changes sets) create_manifest).0 (8 + length log))
unfolding apply_change_set apply_manifest_change apply_create apply_delete grow_levels lookup insert
    delete put_be
replay_torn_example =
    replay_torn checksum marshal unmarshal summed decodes sets log (rows (new_delete_change 2 ∷ []))
      10 7 (omega arith) refl refl (omega arith) (omega arith) (omega arith)

apply_change_set-IsConsistent_example :
    IsConsistent (apply_change_set (all_changes sets) create_manifest).0
unfolding lookup
apply_change_set-IsConsistent_example =
    apply_change_set-IsConsistent (all_changes sets) create_manifest
      (omega arith, (omega arith, (omega arith, (omega arith, tt)))) (λ i id. refl)

abbrev entries : List (ℕ × TableManifest)
entries =
    (2, record { level = 1; key_id = 0; compression = 1 })
    ∷ (3, record { level = 1; key_id = 5; compression = 2 })
    ∷ []

abbrev stored : Manifest
stored = record {
  levels = [] ∷ ((2, tt) ∷ (3, tt) ∷ []) ∷ [];
  tables = entries;
  creations = 7;
  deletions = 5;
}

clone_tables_example :
    ((clone stored).1 ≡ none)
    × ((id : ℕ) → lookup id (clone stored).0.tables ≡ lookup id entries)
    × ((clone stored).0.creations ≡ 2)
    × ((clone stored).0.deletions ≡ 0)
unfolding lookup
clone_tables_example =
    clone_tables stored (refl, omega arith, omega arith, (refl, omega arith, omega arith, tt))

-- A new file, and the first changes to it.
abbrev new_file : ManifestFile
new_file = record {
  bytes = header checksum marshal unmarshal 7;
  external_magic = 7;
  deletions_rewrite_threshold = 10000;
  manifest = create_manifest;
  in_memory = false;
}

new_file-IsMirrored : IsMirrored checksum marshal unmarshal new_file
unfolding put_be apply_change_set
new_file-IsMirrored = record {
  sets = [];
  log = [];
  written = refl;
  bytes = refl;
  fine = refl;
  same = λ id. refl;
  entries = tt;
}

abbrev first_changes : List ManifestChange
first_changes = new_create_change 1 0 0 1 ∷ new_create_change 2 1 0 1 ∷ []

add_changes-IsMirrored_example :
    IsMirrored checksum marshal unmarshal
      (add_changes checksum marshal unmarshal new_file first_changes).0
unfolding add_changes apply_change_set apply_manifest_change apply_create grow_levels lookup insert
add_changes-IsMirrored_example =
    add_changes-IsMirrored checksum marshal unmarshal new_file first_changes new_file-IsMirrored
      (omega arith, (omega arith, tt)) refl

-- The file after them.
abbrev added : ManifestFile
added = (add_changes checksum marshal unmarshal new_file first_changes).0

added-IsMirrored : IsMirrored checksum marshal unmarshal added
unfolding add_changes apply_change_set apply_manifest_change apply_create grow_levels lookup insert
added-IsMirrored =
    add_changes-IsMirrored checksum marshal unmarshal new_file first_changes new_file-IsMirrored
      (omega arith, (omega arith, tt)) refl

replay-mirror_example :
    (m : Manifest) × (replay_file checksum marshal unmarshal added.bytes 7
      ≡ replayed m (length added.bytes))
    × SameTables m added.manifest
unfolding put_be add_changes apply_change_set apply_manifest_change apply_create grow_levels lookup
    insert
replay-mirror_example =
    replay-mirror checksum marshal unmarshal summed decodes added added-IsMirrored (omega arith)
      (omega arith)
