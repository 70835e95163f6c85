-- ===== src/Manifest.antt =====
-- The manifest of manifest.go: which tables there are, and on which level. Castagnoli's checksum and
-- the protocol buffers' Marshal and Unmarshal are parameters; the file is its bytes, and reads and
-- writes of it do not fail. Loading and renaming files is left out.
pub mod Consistent
pub mod Clone
pub mod Replay
pub mod Same
pub mod Torn
pub mod Mirror
use badgerx.Prelude.{
  ℕ, zero, suc, ◌+◌, ◌-◌, ◌*◌, ◌%◌, ◌^◌, ◌&&◌, not, Bool, true, false, Option, none, some, List, [],
  ◌∷◌, ◌++◌, length, ltb, leb, ◌==◌, nat_eq, map, get_or, set, take, drop, bytes_equal,
  if◌then◌else◌,
}
use badgerx.Prelude.Maps.{lookup, insert, delete}
use badgerx.Keys.{put_be, get_be}

pub record TableManifest : Type 0 where
  pub level : ℕ
  pub key_id : ℕ
  pub compression : ℕ

-- A set of table ids.
abbrev pub LevelManifest : Type 0
LevelManifest = List (ℕ × Unit {0})

pub record Manifest : Type 0 where
  pub levels : List LevelManifest
  pub tables : List (ℕ × TableManifest)
  pub creations : ℕ
  pub deletions : ℕ

pub data Operation : Type 0 where
  op_create : Operation
  op_delete : Operation
  op_other : Operation

pub record ManifestChange : Type 0 where
  pub id : ℕ
  pub op : Operation
  pub level : ℕ
  pub key_id : ℕ
  pub encryption_algo : ℕ
  pub compression : ℕ

pub data ChangeError : Type 0 where
  table_exists : ChangeError
  invalid_op : ChangeError

abbrev pub create_manifest : Manifest
create_manifest = record { levels = []; tables = []; creations = 0; deletions = 0 }

-- EncryptionAlgo_aes is 0.
abbrev pub new_create_change : ℕ → ℕ → ℕ → ℕ → ManifestChange
new_create_change id level key_id c = record {
  id = id;
  op = op_create;
  level = level % 2 ^ 32;
  key_id = key_id;
  encryption_algo = 0;
  compression = c % 2 ^ 32;
}

abbrev pub new_delete_change : ℕ → ManifestChange
new_delete_change id = record {
  id = id;
  op = op_delete;
  level = 0;
  key_id = 0;
  encryption_algo = 0;
  compression = 0;
}

unfoldable pub as_changes : List (ℕ × TableManifest) → List ManifestChange
as_changes [] = []
as_changes ((id, tm) ∷ tables) =
    new_create_change id tm.level tm.key_id tm.compression ∷ as_changes tables

-- The loop that appends empty levels up to the one wanted.
unfoldable pub grow_levels : ℕ → ℕ → List LevelManifest → List LevelManifest
grow_levels zero level levels = levels
grow_levels (suc rounds) level levels =
    let more = grow_levels rounds level (levels ++ ([] ∷ [])) in
    if leb (length levels) level then more else levels

unfoldable pub apply_create : Manifest → ManifestChange → Manifest
apply_create build tc =
    let levels = grow_levels (tc.level + 1) tc.level build.levels in
    record build {
      tables =
          insert tc.id
            (record { level = tc.level % 2 ^ 8; key_id = tc.key_id; compression = tc.compression })
            build.tables;
      levels = set levels tc.level (insert tc.id tt (get_or levels tc.level []));
      creations = build.creations + 1;
    }

-- A table that is already gone is taken off every level.
unfoldable pub apply_delete : Manifest → ℕ → Option TableManifest → Manifest
apply_delete build id none = record build {
  levels = map (delete id) build.levels;
  deletions = build.deletions + 1;
}
apply_delete build id (some tm) = record build {
  levels = set build.levels tm.level (delete id (get_or build.levels tm.level []));
  tables = delete id build.tables;
  deletions = build.deletions + 1;
}

unfoldable pub apply_manifest_change : Manifest → ManifestChange → Manifest × Option ChangeError
apply_manifest_change build tc = elim tc.op [
  | op_create ↦ elim (lookup tc.id build.tables) [
    | some tm ↦ (build, some table_exists)
    | none ↦ (apply_create build tc, none)
  ]
  | op_delete ↦ (apply_delete build tc.id (lookup tc.id build.tables), none)
  | op_other ↦ (build, some invalid_op)
]

-- The changes up to the first that fails.
unfoldable pub apply_change_set : List ManifestChange → Manifest → Manifest × Option ChangeError
apply_change_set [] build = (build, none)
apply_change_set (c ∷ cs) build =
    let rest = apply_change_set cs (apply_manifest_change build c).0 in
    elim (apply_manifest_change build c).1 [ none ↦ rest | some e ↦ (build, some e) ]

unfoldable pub clone : Manifest → Manifest × Option ChangeError
clone m = apply_change_set (as_changes m.tables) create_manifest

-- io.ReadFull: `none` where the bytes end before.
unfoldable pub read_full : ℕ → List ℕ → Option (List ℕ × List ℕ)
read_full n bytes = if leb n (length bytes) then some (take n bytes, drop n bytes) else none

pub data Replayed : Type 0 where
  replayed : (build : Manifest) (trunc_offset : ℕ) → Replayed
  bad_magic : Replayed
  unsupported_version : Replayed
  wrong_external_magic : Replayed
  too_long : Replayed
  bad_checksum : Replayed
  bad_encoding : Replayed
  change_failed : (e : ChangeError) → Replayed

pub data Round : Type 0 where
  breaks : Round
  returns : (r : Replayed) → Round
  continues : (bytes : List ℕ) (offset : ℕ) (build : Manifest) → Round

abbrev pub magic_text : List ℕ
magic_text = 66 ∷ 100 ∷ 103 ∷ 114 ∷ []

abbrev pub badger_magic_version : ℕ
badger_magic_version = 8

abbrev pub manifest_deletions_ratio : ℕ
manifest_deletions_ratio = 10

pub record ManifestFile : Type 0 where
  pub bytes : List ℕ
  pub external_magic : ℕ
  pub deletions_rewrite_threshold : ℕ
  pub manifest : Manifest
  pub in_memory : Bool

pub data AddError : Type 0 where
  marshal_failed : AddError
  apply_failed : (e : ChangeError) → AddError

module _ (checksum : List ℕ → ℕ) (marshal : List ManifestChange → Option (List ℕ))
    (unmarshal : List ℕ → Option (List ManifestChange)) where
  -- The length and the checksum, and the bytes themselves.
  abbrev pub framed : List ℕ → List ℕ
  framed buf = put_be 4 (length buf % 2 ^ 32) ++ (put_be 4 (checksum buf) ++ buf)

  abbrev pub header : ℕ → List ℕ
  header ext_magic = magic_text ++ (put_be 2 ext_magic ++ put_be 2 badger_magic_version)

  -- The bytes of the new file, and the number of tables.
  unfoldable pub help_rewrite : Manifest → ℕ → Option (List ℕ × ℕ)
  help_rewrite m ext_magic = elim (marshal (as_changes m.tables)) [
    | none ↦ none
    | some buf ↦ some (header ext_magic ++ framed buf, length m.tables)
  ]

  unfoldable pub rewrite : ManifestFile → ManifestFile × Option AddError
  rewrite mf = elim (help_rewrite mf.manifest mf.external_magic) [
    | none ↦ (mf, some marshal_failed)
    | some (bytes, net_creations) ↦ (
      record mf {
        bytes = bytes;
        manifest = record mf.manifest { creations = net_creations; deletions = 0 };
      },
      none,
    )
  ]

  -- The file shrinks by a tenth, and there is enough to care.
  abbrev pub is_worth_rewriting : ManifestFile → Bool
  is_worth_rewriting mf =
      ltb mf.deletions_rewrite_threshold mf.manifest.deletions
      && ltb (manifest_deletions_ratio * mf.manifest.creations)
          (mf.manifest.deletions + manifest_deletions_ratio * mf.manifest.deletions)

  abbrev pub write_changes : ManifestFile → List ℕ → ManifestFile × Option AddError
  write_changes mf buf =
      let written = record mf { bytes = mf.bytes ++ framed buf } in
      if is_worth_rewriting mf then rewrite mf else (written, none)

  unfoldable pub add_changes : ManifestFile → List ManifestChange → ManifestFile × Option AddError
  add_changes mf changes = if mf.in_memory then (mf, none) else elim (marshal changes) [
    | none ↦ (mf, some marshal_failed)
    | some buf ↦ elim (apply_change_set changes mf.manifest).1 [
      | some e ↦
          (record mf { manifest = (apply_change_set changes mf.manifest).0 }, some (apply_failed e))
      | none ↦ write_changes (record mf { manifest = (apply_change_set changes mf.manifest).0 }) buf
    ]
  ]

  -- One round of the loop over the change sets.
  unfoldable pub read_change_set : ℕ → List ℕ → ℕ → Manifest → Round
  read_change_set size bytes offset build = elim (read_full 8 bytes) [
    | none ↦ breaks
    | some (len_crc, bytes) ↦
        if ltb (size % 2 ^ 32) (get_be (take 4 len_crc))
        then returns too_long
        else elim (read_full (get_be (take 4 len_crc)) bytes) [
          | none ↦ breaks
          | some (buf, bytes) ↦
              if not (checksum buf == get_be (drop 4 len_crc))
              then returns bad_checksum
              else elim (unmarshal buf) [
                | none ↦ returns bad_encoding
                | some changes ↦ elim (apply_change_set changes build).1 [
                  | some e ↦ returns (change_failed e)
                  | none ↦
                      continues bytes (offset + 8 + length buf) (apply_change_set changes build).0
                ]
              ]
        ]
  ]

  -- From an offset, on as many rounds as there are bytes.
  unfoldable pub replay_changes : ℕ → ℕ → List ℕ → ℕ → Manifest → Replayed
  replay_changes zero size bytes offset build = replayed build offset
  replay_changes (suc rounds) size bytes offset build =
      elim (read_change_set size bytes offset build) [
        | breaks ↦ replayed build offset
        | returns r ↦ r
        | continues bytes offset build ↦ replay_changes rounds size bytes offset build
      ]

  unfoldable pub replay_manifest_file : List ℕ → ℕ → Replayed
  replay_manifest_file bytes ext_magic = elim (read_full 8 bytes) [
    | none ↦ bad_magic
    | some (magic_buf, rest) ↦
        if not (bytes_equal (take 4 magic_buf) magic_text)
        then bad_magic
        else if not (get_be (drop 6 magic_buf) == badger_magic_version)
        then unsupported_version
        else if not (get_be (take 2 (drop 4 magic_buf)) == ext_magic)
        then wrong_external_magic
        else replay_changes (length bytes) (length bytes) rest 8 create_manifest
  ]
