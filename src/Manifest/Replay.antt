-- ===== src/Manifest/Replay.antt =====
-- Records of a manifest file, read back one by one: ReplayManifestFile of manifest.go.
use badgerx.Prelude.{
  ℕ, suc, ◌+◌, ◌%◌, ◌^◌, ◌≤◌, ◌<◌, ◌≡◌, refl, sym, ap, ◌∙◌, true, false, Option, none, some, List,
  ◌++◌, length, ltb, leb, ◌==◌, arith, take, drop, if◌then◌else◌, length-append, length-take,
  take_append, drop_append, take_more, append_assoc,
}
use badgerx.Keys.{put_be, get_be}
use badgerx.Keys.RoundTrip.{length-put_be}
use badgerx.Manifest.{
  Manifest, ManifestChange, apply_change_set, read_full, Replayed, replayed, too_long, framed,
  Round, breaks, returns, continues, read_change_set, replay_changes,
}

get_be-put_be4 : (v : ℕ) → v < 2 ^ 32 → get_be (put_be 4 v) ≡ v
unfolding get_be put_be
get_be-put_be4 v h = omega arith

pub read_full-some :
    (xs ys : List ℕ) (n : ℕ) → n ≡ length xs → read_full n (xs ++ ys) ≡ some (xs, ys)
unfolding read_full
read_full-some xs ys n e =
    let enough : leb (length xs) (length (xs ++ ys)) ≡ true = ground (arith, length-append xs ys) in
    rw (e, enough, take_append xs ys, drop_append xs ys) refl

pub read_full-none : (n : ℕ) (xs : List ℕ) → length xs < n → read_full n xs ≡ none
unfolding read_full
read_full-none n xs h = ground arith

-- The fixed part of a record.
abbrev len_crc : ℕ → ℕ → List ℕ
len_crc len crc = put_be 4 (len % 2 ^ 32) ++ put_be 4 crc

length-len_crc : (len crc : ℕ) → length (len_crc len crc) ≡ 8
length-len_crc len crc = omega (
  arith,
  length-append (put_be 4 (len % 2 ^ 32)) (put_be 4 crc),
  length-put_be 4 (len % 2 ^ 32),
  length-put_be 4 crc,
)

length_read : (len crc : ℕ) → len < 2 ^ 32 → get_be (take 4 (len_crc len crc)) ≡ len
length_read len crc h =
    ap get_be (
      ap (λ n. take n (len_crc len crc)) (sym (length-put_be 4 (len % 2 ^ 32)))
      ∙ take_append (put_be 4 (len % 2 ^ 32)) (put_be 4 crc))
    ∙ get_be-put_be4 (len % 2 ^ 32) (omega arith)
    ∙ omega arith

crc_read : (len crc : ℕ) → crc < 2 ^ 32 → get_be (drop 4 (len_crc len crc)) ≡ crc
crc_read len crc h =
    ap get_be (
      ap (λ n. drop n (len_crc len crc)) (sym (length-put_be 4 (len % 2 ^ 32)))
      ∙ drop_append (put_be 4 (len % 2 ^ 32)) (put_be 4 crc))
    ∙ get_be-put_be4 crc h

module _ (checksum : List ℕ → ℕ) (marshal : List ManifestChange → Option (List ℕ))
    (unmarshal : List ℕ → Option (List ManifestChange)) where
  abbrev pub frame : List ℕ → List ℕ
  frame buf = framed checksum marshal unmarshal buf

  abbrev fixed : List ℕ → List ℕ
  fixed buf = len_crc (length buf) (checksum buf)

  frame-fixed : (buf : List ℕ) → fixed buf ++ buf ≡ frame buf
  frame-fixed buf = append_assoc (put_be 4 (length buf % 2 ^ 32)) (put_be 4 (checksum buf)) buf

  pub length-frame : (buf : List ℕ) → length (frame buf) ≡ 8 + length buf
  length-frame buf =
      ap (length {A = ℕ}) (sym (frame-fixed buf))
      ∙ length-append (fixed buf) buf
      ∙ ap (λ n. n + length buf) (length-len_crc (length buf) (checksum buf))

  module _ (size offset : ℕ) (build : Manifest) (sized : size < 2 ^ 32) where
    abbrev round : List ℕ → Round
    round bytes = read_change_set checksum marshal unmarshal size bytes offset build

    round_short : (bytes : List ℕ) → length bytes < 8 → round bytes ≡ breaks
    unfolding read_change_set
    round_short bytes h = rw (read_full-none 8 bytes h, read_change_set) refl

    round-frame :
        (buf rest : List ℕ) (changes : List ManifestChange)
        → length buf ≤ size
        → checksum buf < 2 ^ 32
        → unmarshal buf ≡ some changes
        → (apply_change_set changes build).1 ≡ none
        → round (frame buf ++ rest)
          ≡ continues rest (offset + 8 + length buf) (apply_change_set changes build).0
    unfolding read_change_set
    round-frame buf rest changes fits summed decoded fine =
        let first : read_full 8 (frame buf ++ rest) ≡ some (fixed buf, buf ++ rest) =
          ap (λ b. read_full 8 (b ++ rest)) (sym (frame-fixed buf))
          ∙ ap (read_full 8) (append_assoc (fixed buf) buf rest)
          ∙ read_full-some (fixed buf) (buf ++ rest) 8
              (sym (length-len_crc (length buf) (checksum buf))) in
        let len = length_read (length buf) (checksum buf) (omega arith) in
        let within : ltb (size % 2 ^ 32) (length buf) ≡ false = ground arith in
        let crc : (checksum buf == get_be (drop 4 (fixed buf))) ≡ true =
          ground (arith, crc_read (length buf) (checksum buf) summed) in
        rw
          (
            first,
            len,
            within,
            read_full-some buf rest (length buf) refl,
            crc,
            decoded,
            fine,
            read_change_set,
          )
          refl

    round_cut :
        (buf : List ℕ) (k : ℕ)
        → k < length buf
        → length buf < 2 ^ 32
        → round (take (8 + k) (frame buf))
          ≡ (if ltb size (length buf) then returns too_long else breaks)
    unfolding read_change_set
    round_cut buf k cut small =
        let first : read_full 8 (take (8 + k) (frame buf)) ≡ some (fixed buf, take k buf) =
          ap (λ b. read_full 8 (take (8 + k) b)) (sym (frame-fixed buf))
          ∙ ap (read_full 8) (
              take_more (8 + k) k (fixed buf) buf
                (omega (arith, length-len_crc (length buf) (checksum buf))))
          ∙ read_full-some (fixed buf) (take k buf) 8
              (sym (length-len_crc (length buf) (checksum buf))) in
        let len = length_read (length buf) (checksum buf) small in
        let whole : size % 2 ^ 32 ≡ size = omega arith in
        rw
          (
            first,
            len,
            whole,
            read_full-none (length buf) (take k buf)
                (omega (arith, length-take k buf (omega arith))),
            read_change_set,
          )
          refl

    module _ (rounds : ℕ) where
      abbrev pub go : List ℕ → Replayed
      go bytes = replay_changes checksum marshal unmarshal (suc rounds) size bytes offset build

      -- A record that is whole is applied.
      pub replay_frame :
          (buf rest : List ℕ) (changes : List ManifestChange)
          → length buf ≤ size
          → checksum buf < 2 ^ 32
          → unmarshal buf ≡ some changes
          → (apply_change_set changes build).1 ≡ none
          → go (frame buf ++ rest)
            ≡ replay_changes checksum marshal unmarshal rounds size rest
                (offset + 8 + length buf)
                (apply_change_set changes build).0
      unfolding replay_changes
      replay_frame buf rest changes fits summed decoded fine =
          rw (replay_changes, round-frame buf rest changes fits summed decoded fine) refl

      -- A record that is cut off within its fixed part ends the file.
      pub replay_short : (bytes : List ℕ) → length bytes < 8 → go bytes ≡ replayed build offset
      unfolding replay_changes
      replay_short bytes h = rw (replay_changes, round_short bytes h) refl

      -- One that is cut off behind it ends the file too, unless its length is above the size of the file.
      pub replay_cut :
          (buf : List ℕ) (k : ℕ)
          → k < length buf
          → length buf < 2 ^ 32
          → go (take (8 + k) (frame buf))
            ≡ (if ltb size (length buf) then too_long else replayed build offset)
      unfolding replay_changes
      replay_cut buf k cut small = rw (replay_changes, round_cut buf k cut small) (ground arith)
