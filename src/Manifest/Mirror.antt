-- ===== src/Manifest/Mirror.antt =====
-- The manifest file says what the manifest in memory says: `addChanges` and `rewrite` of manifest.go.
use badgerx.Prelude.{
  ℕ, ◌+◌, ◌<◌, ◌≡◌, refl, sym, ap, ◌∙◌, inl, inr, ◌^◌, true, false, Option, none, some, List, [],
  ◌∷◌, ◌++◌, length, nat_eq, arith, All, Bool-cases, Option-cases, append_assoc,
}
use mathlib.Core.Path.{subst}
use mathlib.Core.Option.{some-injective}
use badgerx.Prelude.Maps.{lookup}
use badgerx.Keys.{put_be}
use badgerx.Manifest.{
  Manifest, ManifestChange, ChangeError, AddError, ManifestFile, create_manifest, as_changes, clone,
  apply_change_set, header, help_rewrite, rewrite, write_changes, is_worth_rewriting, add_changes,
  replayed,
}
use badgerx.Manifest.Clone.{AreEntries, clone_tables}
use badgerx.Manifest.Same.{SameTables, changes_same, changes-AreEntries}
use badgerx.Manifest.Replay.{frame}
use badgerx.Manifest.Torn.{
  all_changes, apply_change_set-append, log_of, replay_file, replay_torn, torn_file,
}

all_changes-append :
    (css : List (List ManifestChange)) (cs : List ManifestChange)
    → all_changes (css ++ (cs ∷ [])) ≡ all_changes css ++ cs
all_changes-append [] cs = append_nil cs
  where
    append_nil : (cs : List ManifestChange) → cs ++ [] ≡ cs
    append_nil [] = refl
    append_nil (c ∷ cs) = ap (λ t. c ∷ t) (append_nil cs)
all_changes-append (ds ∷ css) cs =
    ap (λ t. ds ++ t) (all_changes-append css cs) ∙ sym (append_assoc ds (all_changes css) cs)

module _ (checksum : List ℕ → ℕ) (marshal : List ManifestChange → Option (List ℕ))
    (unmarshal : List ℕ → Option (List ManifestChange)) where
  append_nil : (bytes : List ℕ) → bytes ++ [] ≡ bytes
  append_nil [] = refl
  append_nil (b ∷ bytes) = ap (λ t. b ∷ t) (append_nil bytes)

  log_of-append :
      (css : List (List ManifestChange)) (cs : List ManifestChange) (log buf : List ℕ)
      → log_of checksum marshal unmarshal css ≡ some log
      → marshal cs ≡ some buf
      → log_of checksum marshal unmarshal (css ++ (cs ∷ []))
        ≡ some (log ++ frame checksum marshal unmarshal buf)
  log_of-append [] cs log buf e m =
      let same : [] ≡ log = some-injective _ _ e in
      rw m (
        ap some (
          append_nil (frame checksum marshal unmarshal buf)
          ∙ ap (λ l. l ++ frame checksum marshal unmarshal buf) same))
  log_of-append (ds ∷ css) cs log buf e m = elim (Option-cases (marshal ds)) [
    | inl x ↦ absurd (ground arith)
    | inr (b, x) ↦ elim (Option-cases (log_of checksum marshal unmarshal css)) [
      | inl y ↦ absurd (ground arith)
      | inr (more, y) ↦
          let same : frame checksum marshal unmarshal b ++ more ≡ log = ground arith in
          rw (x, log_of-append css cs more buf y m)
            (ap some (
              sym (
                append_assoc (frame checksum marshal unmarshal b) more
                  (frame checksum marshal unmarshal buf))
              ∙ ap (λ l. l ++ frame checksum marshal unmarshal buf) same))
    ]
  ]

  -- The file is whole records whose changes apply and give the tables of the manifest, each of which
  -- stands there once.
  pub record IsMirrored (mf : ManifestFile) : Type 0 where
    pub sets : List (List ManifestChange)
    pub log : List ℕ
    pub written : log_of checksum marshal unmarshal sets ≡ some log
    pub bytes : mf.bytes ≡ header checksum marshal unmarshal mf.external_magic ++ log
    pub fine : (apply_change_set (all_changes sets) create_manifest).1 ≡ none
    pub same : SameTables (apply_change_set (all_changes sets) create_manifest).0 mf.manifest
    pub entries : AreEntries mf.manifest.tables

  abbrev Mirrors : ManifestFile × Option AddError → Type 0
  Mirrors r = r.1 ≡ none → IsMirrored r.0

  rewritten :
      (mf : ManifestFile) (buf : List ℕ)
      → marshal (as_changes mf.manifest.tables) ≡ some buf
      → rewrite checksum marshal unmarshal mf ≡ (
        record mf {
          bytes =
              header checksum marshal unmarshal mf.external_magic
              ++ frame checksum marshal unmarshal buf;
          manifest = record mf.manifest { creations = length mf.manifest.tables; deletions = 0 };
        },
        none,
      )
  unfolding rewrite help_rewrite
  rewritten mf buf e = rw (rewrite, help_rewrite, e) refl

  not_rewritten :
      (mf : ManifestFile)
      → marshal (as_changes mf.manifest.tables) ≡ none
      → rewrite checksum marshal unmarshal mf ≡ (mf, some AddError.marshal_failed)
  unfolding rewrite help_rewrite
  not_rewritten mf e = rw (rewrite, help_rewrite, e) refl

  -- A file that is written anew.
  rewrite-IsMirrored :
      (mf : ManifestFile)
      → AreEntries mf.manifest.tables
      → Mirrors (rewrite checksum marshal unmarshal mf)
  unfolding clone
  rewrite-IsMirrored mf h = elim (Option-cases (marshal (as_changes mf.manifest.tables))) [
    | inl e ↦ subst Mirrors (sym (not_rewritten mf e)) (λ fine. absurd (cc))
    | inr (buf, e) ↦
        let (ok, tables, _, _) = clone_tables mf.manifest h in
        let one : all_changes (as_changes mf.manifest.tables ∷ []) ≡ as_changes mf.manifest.tables =
          all_changes-append [] (as_changes mf.manifest.tables) in
        subst Mirrors (sym (rewritten mf buf e)) (λ fine. record {
          sets = as_changes mf.manifest.tables ∷ [];
          log = frame checksum marshal unmarshal buf;
          written = log_of-append [] (as_changes mf.manifest.tables) [] buf refl e;
          bytes = refl;
          fine = ap (λ cs. (apply_change_set cs create_manifest).1) one ∙ ok;
          same = λ id.
              ap (λ cs. lookup id (apply_change_set cs create_manifest).0.tables) one ∙ tables id;
          entries = h;
        })
  ]

  -- A record that is appended.
  append-IsMirrored :
      (mf : ManifestFile) (cs : List ManifestChange) (buf : List ℕ)
      → IsMirrored mf
      → All (λ c. c.compression < 2 ^ 32) cs
      → marshal cs ≡ some buf
      → (apply_change_set cs mf.manifest).1 ≡ none
      → IsMirrored (record mf {
        bytes = mf.bytes ++ frame checksum marshal unmarshal buf;
        manifest = (apply_change_set cs mf.manifest).0;
      })
  append-IsMirrored mf cs buf h fits m ok =
      let all = all_changes-append h.sets cs in
      let both = (apply_change_set-append (all_changes h.sets) cs create_manifest).0 h.fine in
      let after : apply_change_set (all_changes (h.sets ++ (cs ∷ []))) create_manifest
          ≡ apply_change_set cs (apply_change_set (all_changes h.sets) create_manifest).0 =
        ap (λ cs. apply_change_set cs create_manifest) all ∙ both in
      let (tables, errors) = changes_same cs _ mf.manifest h.same in
      record {
        sets = h.sets ++ (cs ∷ []);
        log = h.log ++ frame checksum marshal unmarshal buf;
        written = log_of-append h.sets cs h.log buf h.written m;
        bytes =
            ap (λ b. b ++ frame checksum marshal unmarshal buf) h.bytes
            ∙ append_assoc (header checksum marshal unmarshal mf.external_magic) h.log
                (frame checksum marshal unmarshal buf);
        fine = ap (λ r. r.1) after ∙ errors ∙ ok;
        same = λ id. ap (λ r. lookup id r.0.tables) after ∙ tables id;
        entries = changes-AreEntries cs mf.manifest fits h.entries;
      }

  module _ (mf : ManifestFile) (cs : List ManifestChange) where
    abbrev add : ManifestFile × Option AddError
    add = add_changes checksum marshal unmarshal mf cs

    abbrev applied : ManifestFile
    applied = record mf { manifest = (apply_change_set cs mf.manifest).0 }

    in_memory : mf.in_memory ≡ true → add ≡ (mf, none)
    unfolding add_changes
    in_memory e = ground arith

    not_marshaled :
        mf.in_memory ≡ false → marshal cs ≡ none → add ≡ (mf, some AddError.marshal_failed)
    unfolding add_changes
    not_marshaled e m = ground arith

    not_applied :
        (buf : List ℕ) (x : ChangeError)
        → mf.in_memory ≡ false
        → marshal cs ≡ some buf
        → (apply_change_set cs mf.manifest).1 ≡ some x
        → add ≡ (applied, some (AddError.apply_failed x))
    unfolding add_changes
    not_applied buf x e m f = ground arith

    is_applied :
        (buf : List ℕ)
        → mf.in_memory ≡ false
        → marshal cs ≡ some buf
        → (apply_change_set cs mf.manifest).1 ≡ none
        → add ≡ write_changes checksum marshal unmarshal applied buf
    unfolding add_changes
    is_applied buf e m f = ground arith

    write-IsMirrored :
        (buf : List ℕ)
        → IsMirrored mf
        → All (λ c. c.compression < 2 ^ 32) cs
        → marshal cs ≡ some buf
        → (apply_change_set cs mf.manifest).1 ≡ none
        → Mirrors (write_changes checksum marshal unmarshal applied buf)
    write-IsMirrored buf h fits m f =
        elim (Bool-cases (is_worth_rewriting checksum marshal unmarshal applied)) [
          | inl x ↦
              rw x (rewrite-IsMirrored applied (changes-AreEntries cs mf.manifest fits h.entries))
          | inr x ↦ rw x (λ ok. append-IsMirrored mf cs buf h fits m f)
        ]

  -- Adding changes without an error keeps the file a mirror of the manifest in memory, whether a
  -- record is appended or the file is written anew; the compressions are below 2^32.
  pub add_changes-IsMirrored :
      (mf : ManifestFile) (cs : List ManifestChange)
      → IsMirrored mf
      → All (λ c. c.compression < 2 ^ 32) cs
      → (add_changes checksum marshal unmarshal mf cs).1 ≡ none
      → IsMirrored (add_changes checksum marshal unmarshal mf cs).0
  add_changes-IsMirrored mf cs h fits = elim (Bool-cases mf.in_memory) [
    | inl e ↦ subst Mirrors (sym (in_memory mf cs e)) (λ ok. h)
    | inr e ↦ elim (Option-cases (marshal cs)) [
      | inl m ↦ subst Mirrors (sym (not_marshaled mf cs e m)) (λ ok. absurd (cc))
      | inr (buf, m) ↦ elim (Option-cases (apply_change_set cs mf.manifest).1) [
        | inl f ↦
            subst Mirrors (sym (is_applied mf cs buf e m f)) (write-IsMirrored mf cs buf h fits m f)
        | inr (x, f) ↦ subst Mirrors (sym (not_applied mf cs buf x e m f)) (λ ok. absurd (cc))
      ]
    ]
  ]

  -- Replaying a file that mirrors a manifest gives the tables of that manifest and the size of the
  -- file, and no error, where the file is below 4 GB, the checksums fit in 32 bits and the external
  -- magic number in 16, and what was marshaled is unmarshaled again.
  pub replay-mirror :
      ((b : List ℕ) → checksum b < 2 ^ 32)
      → ((cs : List ManifestChange) (b : List ℕ) → marshal cs ≡ some b → unmarshal b ≡ some cs)
      → (mf : ManifestFile) → IsMirrored mf
      → mf.external_magic < 2 ^ 16
      → length mf.bytes < 2 ^ 32
      → (m : Manifest) × (replay_file checksum marshal unmarshal mf.bytes mf.external_magic
          ≡ replayed m (length mf.bytes))
        × SameTables m mf.manifest
  unfolding put_be
  replay-mirror summed decodes mf h small sized =
      let whole : torn_file checksum marshal unmarshal mf.external_magic h.log [] 0 ≡ mf.bytes =
        ap (λ l. header checksum marshal unmarshal mf.external_magic ++ l) (append_nil h.log)
        ∙ sym h.bytes in
      let long : 8 + length h.log ≡ length mf.bytes = omega (arith, ap (length {A = ℕ}) h.bytes) in
      let r =
        replay_torn checksum marshal unmarshal summed decodes h.sets h.log [] 0 mf.external_magic
          small h.written h.fine (omega arith) (omega arith)
          (omega (arith, ap (length {A = ℕ}) whole)) in
      (
        _,
        ap (λ b. replay_file checksum marshal unmarshal b mf.external_magic) (sym whole)
            ∙ r
            ∙ ap (replayed (apply_change_set (all_changes h.sets) create_manifest).0) long,
        h.same,
      )
