-- ===== src/Manifest/Torn.antt =====
-- A manifest file whose last record was cut off: ReplayManifestFile of manifest.go.
use badgerx.Prelude.{
  ℕ, zero, suc, ◌+◌, ◌-◌, ◌^◌, ◌≤◌, ◌<◌, ◌≡◌, refl, sym, ap, ◌∙◌, inl, inr, ◌&&◌, true, Option,
  none, some, List, [], ◌∷◌, ◌++◌, length, ltb, leb, ◌==◌, arith, take, drop, if◌then◌else◌,
  Bool-cases, Option-cases, length-append, length-take, append_assoc,
}
use mathlib.Core.Path.{subst}
use mathlib.Core.Option.{some-injective}
use badgerx.Keys.{put_be, get_be}
use badgerx.Manifest.{
  Manifest, ManifestChange, ChangeError, create_manifest, apply_change_set, apply_manifest_change,
  Replayed, replayed, too_long, header, replay_changes, replay_manifest_file, read_full,
}
use badgerx.Manifest.Consistent.{goes_on, fails}
use badgerx.Manifest.Replay.{
  frame, length-frame, read_full-some, replay_short, replay_frame, replay_cut,
}

abbrev pub all_changes : List (List ManifestChange) → List ManifestChange
all_changes [] = []
all_changes (cs ∷ css) = cs ++ all_changes css

-- Changes in two parts: a failure of the first is the failure of both.
pub apply_change_set-append :
    (cs ds : List ManifestChange) (m : Manifest)
    → ((apply_change_set cs m).1 ≡ none
        → apply_change_set (cs ++ ds) m ≡ apply_change_set ds (apply_change_set cs m).0)
      × ((e : ChangeError)
          → (apply_change_set cs m).1 ≡ some e
          → (apply_change_set (cs ++ ds) m).1 ≡ some e)
unfolding apply_change_set
apply_change_set-append [] ds m = (λ h. refl, λ e h. absurd (cc))
apply_change_set-append (c ∷ cs) ds m = elim (Option-cases (apply_manifest_change m c).1) [
  | inl x ↦
      let (both, first) = apply_change_set-append cs ds (apply_manifest_change m c).0 in
      let a = goes_on m c cs x in
      let b = goes_on m c (cs ++ ds) x in
      (
        λ h. b ∙ both (ap (λ r. r.1) (sym a) ∙ h) ∙ ap (λ r. apply_change_set ds r.0) (sym a),
        λ e h. ap (λ r. r.1) b ∙ first e (ap (λ r. r.1) (sym a) ∙ h),
      )
  | inr (e, x) ↦
      let a = fails m c cs e x in
      let b = fails m c (cs ++ ds) e x in
      (λ h. absurd (cc (ap (λ r. r.1) a, h)), λ e' h. ap (λ r. r.1) (b ∙ sym a) ∙ h)
]

module _ (checksum : List ℕ → ℕ) (marshal : List ManifestChange → Option (List ℕ))
    (unmarshal : List ℕ → Option (List ManifestChange)) where
  -- The records of change sets, one behind the other.
  abbrev pub log_of : List (List ManifestChange) → Option (List ℕ)
  log_of [] = some []
  log_of (cs ∷ css) =
      let rest = log_of css in
      elim (marshal cs) [
        | none ↦ none
        | some buf ↦ elim rest [
          | none ↦ none
          | some log ↦ some (frame checksum marshal unmarshal buf ++ log)
        ]
      ]

  abbrev replay : ℕ → ℕ → List ℕ → ℕ → Manifest → Replayed
  replay rounds size bytes offset build =
      replay_changes checksum marshal unmarshal rounds size bytes offset build

  -- What is behind the whole records, read on the rounds that are left.
  record Left (rounds size offset : ℕ) (build : Manifest) (log tail : List ℕ) (m : Manifest)
      : Type 0 where
    rest : ℕ
    enough : length tail ≤ rest
    reads :
        replay rounds size (log ++ tail) offset build
        ≡ replay rest size tail (offset + length log) m

  abbrev pub replay_file : List ℕ → ℕ → Replayed
  replay_file bytes ext_magic = replay_manifest_file checksum marshal unmarshal bytes ext_magic

  ext_read : (ext_magic : ℕ) → ext_magic < 2 ^ 16 → get_be (put_be 2 ext_magic) ≡ ext_magic
  unfolding get_be put_be
  ext_read ext_magic h = omega arith

  -- The file starts with the magic numbers.
  replay-header :
      (ext_magic : ℕ) (rest : List ℕ)
      → ext_magic < 2 ^ 16
      → replay_file (header checksum marshal unmarshal ext_magic ++ rest) ext_magic
        ≡ replay
            (length (header checksum marshal unmarshal ext_magic ++ rest))
            (length (header checksum marshal unmarshal ext_magic ++ rest))
            rest
            8
            create_manifest
  unfolding put_be replay_manifest_file get_be
  replay-header ext_magic rest h =
      let first : read_full 8 (header checksum marshal unmarshal ext_magic ++ rest)
          ≡ some (header checksum marshal unmarshal ext_magic, rest) =
        read_full-some (header checksum marshal unmarshal ext_magic) rest 8 refl in
      let same : (get_be (take 2 (drop 4 (header checksum marshal unmarshal ext_magic)))
            == ext_magic)
          ≡ true =
        ground (arith, ext_read ext_magic h) in
      rw (replay_manifest_file, first, same) refl

  module _ (summed : (b : List ℕ) → checksum b < 2 ^ 32)
      (decodes : (cs : List ManifestChange) (b : List ℕ)
        → marshal cs ≡ some b
        → unmarshal b ≡ some cs)
      (size : ℕ) (sized : size < 2 ^ 32) (tail : List ℕ) where
    first_fine :
        (cs ds : List ManifestChange) (m : Manifest)
        → (apply_change_set (cs ++ ds) m).1 ≡ none
        → (apply_change_set cs m).1 ≡ none
    first_fine cs ds m h = elim (Option-cases (apply_change_set cs m).1) [
      | inl x ↦ x
      | inr (e, x) ↦ absurd (cc ((apply_change_set-append cs ds m).1 e x, h))
    ]

    -- Records that are whole are applied in turn.
    replay_log :
        (css : List (List ManifestChange)) (log : List ℕ) (rounds offset : ℕ) (build : Manifest)
        → log_of css ≡ some log
        → (apply_change_set (all_changes css) build).1 ≡ none
        → length log ≤ size
        → length log + length tail ≤ rounds
        → Left rounds size offset build log tail (apply_change_set (all_changes css) build).0
    unfolding apply_change_set
    replay_log [] log rounds offset build e fine fits enough =
        let same : [] ≡ log = some-injective _ _ e in
        let still : offset ≡ offset + 0 = omega arith in
        subst (λ l. Left rounds size offset build l tail build) same
          (record {
            rest = rounds;
            enough = omega arith;
            reads = ap (λ o. replay rounds size tail o build) still;
          })
    replay_log (cs ∷ css) log rounds offset build e fine fits enough =
        elim (Option-cases (marshal cs)) [
          | inl x ↦ absurd (ground arith)
          | inr (buf, x) ↦ elim (Option-cases (log_of css)) [
            | inl y ↦ absurd (ground arith)
            | inr (more, y) ↦
                let same : frame checksum marshal unmarshal buf ++ more ≡ log = ground arith in
                let long : length log ≡ 8 + length buf + length more =
                  ap (length {A = ℕ}) (sym same)
                  ∙ length-append (frame checksum marshal unmarshal buf) more
                  ∙ ap (λ n. n + length more) (length-frame checksum marshal unmarshal buf) in
                let fine_cs = first_fine cs (all_changes css) build fine in
                let both = (apply_change_set-append cs (all_changes css) build).0 fine_cs in
                let later =
                  replay_log css more (rounds - 1) (offset + 8 + length buf)
                    (apply_change_set cs build).0 y (ap (λ r. r.1) (sym both) ∙ fine) (omega arith)
                    (omega arith) in
                let one =
                  replay_frame checksum marshal unmarshal size offset build sized (rounds - 1) buf
                    (more ++ tail) cs (omega arith) (summed buf) (decodes cs buf x) fine_cs in
                let count : rounds ≡ suc (rounds - 1) = omega arith in
                let at : offset + 8 + length buf + length more ≡ offset + length log =
                  omega arith in
                record {
                  rest = later.rest;
                  enough = later.enough;
                  reads =
                      ap (λ l. replay rounds size (l ++ tail) offset build) (sym same)
                      ∙ ap (λ l. replay rounds size l offset build)
                          (append_assoc (frame checksum marshal unmarshal buf) more tail)
                      ∙ ap
                          (λ n.
                            replay n size (frame checksum marshal unmarshal buf ++ (more ++ tail))
                              offset build)
                          count
                      ∙ one
                      ∙ later.reads
                      ∙ ap
                          (λ o.
                            replay later.rest size tail o
                              (apply_change_set (all_changes css) (apply_change_set cs build).0).0)
                          at
                      ∙ ap (λ r. replay later.rest size tail (offset + length log) r.0) (sym both);
                }
          ]
        ]

    -- A cut record whose rounds are counted.
    replay_tail :
        (buf : List ℕ) (n rest offset : ℕ) (m : Manifest)
        → tail ≡ take n (frame checksum marshal unmarshal buf)
        → n < 8 + length buf
        → length buf < 2 ^ 32
        → length tail ≤ rest
        → replay rest size tail offset m
          ≡ (if leb 8 n && ltb size (length buf) then too_long else replayed m offset)
    unfolding replay_changes
    replay_tail buf n rest offset m e cut small enough =
        let long : length tail ≡ n =
          ap (length {A = ℕ}) e
          ∙ length-take n (frame checksum marshal unmarshal buf)
              (omega (arith, length-frame checksum marshal unmarshal buf)) in
        elim (Bool-cases (leb 8 n)) [
          | inr x ↦ rw x (go rest (ground arith))
          | inl x ↦
              let count : rest ≡ suc (rest - 1) = ground arith in
              let split : n ≡ 8 + (n - 8) = ground arith in
              rw x (
                ap (λ r. replay r size tail offset m) count
                ∙ ap (λ t. replay (suc (rest - 1)) size t offset m)
                    (e ∙ ap (λ n. take n (frame checksum marshal unmarshal buf)) split)
                ∙ replay_cut checksum marshal unmarshal size offset m sized (rest - 1) buf (n - 8)
                    (ground arith) small)
        ]
      where
        go : (rest : ℕ) → length tail < 8 → replay rest size tail offset m ≡ replayed m offset
        go zero h = refl
        go (suc r) h = replay_short checksum marshal unmarshal size offset m sized r tail h

  -- A manifest file whose last record was cut off after some of its bytes.
  abbrev pub torn_file : ℕ → List ℕ → List ℕ → ℕ → List ℕ
  torn_file ext_magic log buf n =
      header checksum marshal unmarshal ext_magic
      ++ (log ++ take n (frame checksum marshal unmarshal buf))

  -- Replaying a file of whole records, whose changes all apply, and of a last one that is cut off:
  -- the changes of the whole records, and the offset behind them, but an error where the length of
  -- the cut record is there and above the size of the file. The file is below 4 GB, the record's
  -- length and the checksums fit in 32 bits, the external magic number in 16, and what was marshaled
  -- is unmarshaled again.
  pub replay_torn :
      ((b : List ℕ) → checksum b < 2 ^ 32)
      → ((cs : List ManifestChange) (b : List ℕ) → marshal cs ≡ some b → unmarshal b ≡ some cs)
      → (css : List (List ManifestChange)) (log buf : List ℕ) (n ext_magic : ℕ) → ext_magic < 2 ^ 16
      → log_of css ≡ some log
      → (apply_change_set (all_changes css) create_manifest).1 ≡ none
      → n < 8 + length buf
      → length buf < 2 ^ 32
      → length (torn_file ext_magic log buf n) < 2 ^ 32
      → replay_file (torn_file ext_magic log buf n) ext_magic ≡ (
          if leb 8 n && ltb (length (torn_file ext_magic log buf n)) (length buf)
          then too_long
          else replayed (apply_change_set (all_changes css) create_manifest).0 (8 + length log))
  replay_torn summed decodes css log buf n ext_magic small_magic e fine cut small sized =
      let tail = take n (frame checksum marshal unmarshal buf) in
      let size = length (torn_file ext_magic log buf n) in
      let whole : size
          ≡ length (header checksum marshal unmarshal ext_magic) + (length log + length tail) =
        length-append (header checksum marshal unmarshal ext_magic) (log ++ tail)
        ∙ ap (λ k. length (header checksum marshal unmarshal ext_magic) + k)
            (length-append log tail) in
      let l =
        replay_log summed decodes size sized tail css log size 8 create_manifest e fine
          (omega arith) (omega arith) in
      replay-header ext_magic (log ++ tail) small_magic
      ∙ l.reads
      ∙ replay_tail summed decodes size sized tail buf n l.rest (8 + length log) _ refl cut small
          l.enough
