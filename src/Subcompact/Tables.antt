-- ===== src/Subcompact/Tables.antt =====
-- The tables of a sub-compaction: readers see through them what they saw before. levels.go.
use badgerx.Prelude.{
  ℕ, zero, suc, ◌≤◌, ◌≡◌, refl, sym, ap, ◌∙◌, inl, inr, ◌&&◌, Bool, false, List, [], ◌∷◌, ◌++◌,
  length, ltb, ◌==◌, arith, All, if◌then◌else◌, Bool-cases,
}
use mathlib.Core.Path.{subst}
use mathlib.Core.List.{append_assoc, append-nil}
use badgerx.KeyRange.{KeyRange, key_lt}
use badgerx.Subcompact.{
  Cell, Built, Job, Pass, breaks, start_key, visit, turn, add_keys, is_beyond, fresh, first_pass,
  build_tables, seek_left, subcompact,
}
use badgerx.Subcompact.Reads.{read, visible, IsStored, Follow, IsGrouped}
use badgerx.Subcompact.Steps.{cells, Answers, IsReady}
use badgerx.Subcompact.Passes.{KeysStep, add_keys-KeysStep, Turn-cases}

-- The cells of the tables, one after the other.
abbrev pub table_cells : List (List Built) → List Cell
table_cells [] = []
table_cells (t ∷ ts) = cells t ++ table_cells ts

abbrev TablesStep :
    ℕ → ℕ → List ℕ → Pass → List Cell → List (List Built) × List Cell × Pass → Type 0
TablesStep now ts k p cs (tables, rest, q) =
    (out : List Cell)
    → Answers now ts k q rest out
    → Answers now ts k p cs (table_cells tables ++ out)

emitted :
    (b : List Built) (tables : List (List Built))
    → table_cells (if length b == 0 then tables else b ∷ tables) ≡ cells b ++ table_cells tables
emitted [] tables = refl
emitted (x ∷ b) tables = ground arith

module _ (reached_capacity : List Built → Bool) (exceeds_allowed_overlap : KeyRange → Bool)
    (now ts : ℕ) (k : List ℕ) (job : Job) (snapshot : job.discard_ts ≤ ts)
    (no_drops : ltb 0 (length job.drop_prefixes) ≡ false) where
  one_table :
      (p q : Pass) (cs rest out : List Cell) (tables : List (List Built))
      → KeysStep now ts k (fresh p) cs (rest, q)
      → Answers now ts k q rest (table_cells tables ++ out)
      → Answers now ts k p cs
          (table_cells (if length q.builder == 0 then tables else q.builder ∷ tables) ++ out)
  one_table p q cs rest out tables (r, step) a =
      let s = step (table_cells tables ++ out) a in
      let eq =
        ap (λ l. l ++ out) (emitted q.builder tables)
        ∙ append_assoc (cells q.builder) (table_cells tables) out
        ∙ ap (λ b. cells b ++ (table_cells tables ++ out)) s.grown in
      subst (Answers now ts k p cs) (sym eq)
        (record { skipped = s.answers.skipped; seen = s.answers.seen; absent = s.answers.absent })

  build_tables-TablesStep :
      (rounds : ℕ) (cs : List Cell) (p : Pass)
      → IsReady p cs
      → TablesStep now ts k p cs
          (build_tables reached_capacity exceeds_allowed_overlap now rounds job cs p)
  unfolding build_tables
  build_tables-TablesStep zero cs p ready = λ out a. a
  build_tables-TablesStep (suc rounds) [] p ready = λ out a. a
  build_tables-TablesStep (suc rounds) (c ∷ cs) p ready =
      elim (Bool-cases (is_beyond job.range c.key)) [
        | inl h ↦ rw h (λ out a. a)
        | inr h ↦
            let s =
              add_keys-KeysStep reached_capacity exceeds_allowed_overlap now ts k job snapshot
                no_drops (c ∷ cs) (fresh p)
                (record {
                  grouped = ready.grouped;
                  stored = ready.stored;
                  skipping = ready.skipping;
                }) in
            let later = build_tables-TablesStep rounds _ _ s.0 in
            rw h (λ out a. one_table p _ (c ∷ cs) _ out _ s (later out a))
      ]

module _ (reached_capacity : List Built → Bool) (exceeds_allowed_overlap : KeyRange → Bool)
    (now : ℕ) (job : Job) where
  add_keys_shrinks :
      (cs : List Cell) (p : Pass)
      → length (add_keys reached_capacity exceeds_allowed_overlap now job cs p).0 ≤ length cs
  unfolding add_keys
  add_keys_shrinks [] p = omega arith
  add_keys_shrinks (c ∷ cs) p =
      elim (Turn-cases (turn reached_capacity exceeds_allowed_overlap now job c p)) [
        | inl (q, e) ↦ ground (arith, add_keys_shrinks cs q)
        | inr (q, e) ↦ ground arith
      ]

  -- A new builder takes its first key.
  first_turn :
      (c : Cell) (p q : Pass)
      → is_beyond job.range c.key ≡ false
      → reached_capacity [] ≡ false
      → turn reached_capacity exceeds_allowed_overlap now job c (fresh p) ≡ breaks q
      → ⊥
  unfolding turn visit start_key
  first_turn c p q b r h = ground arith

  add_keys_progress :
      (c : Cell) (cs : List Cell) (p : Pass)
      → is_beyond job.range c.key ≡ false
      → reached_capacity [] ≡ false
      → length (add_keys reached_capacity exceeds_allowed_overlap now job (c ∷ cs) (fresh p)).0
        ≤ length cs
  unfolding add_keys
  add_keys_progress c cs p b r =
      elim (Turn-cases (turn reached_capacity exceeds_allowed_overlap now job c (fresh p))) [
        | inl (q, e) ↦ ground (arith, add_keys_shrinks cs q)
        | inr (q, e) ↦ absurd (first_turn c p q b r e)
      ]

  build_tables_ends :
      (rounds : ℕ) (cs : List Cell) (p : Pass)
      → length cs ≤ rounds
      → length job.range.right ≡ 0
      → reached_capacity [] ≡ false
      → (build_tables reached_capacity exceeds_allowed_overlap now rounds job cs p).1 ≡ []
  unfolding build_tables is_beyond
  build_tables_ends zero [] p le n r = refl
  build_tables_ends zero (c ∷ cs) p le n r = absurd (omega arith)
  build_tables_ends (suc rounds) [] p le n r = refl
  build_tables_ends (suc rounds) (c ∷ cs) p le n r =
      let step = add_keys_progress c cs p (unfold is_beyond in ground arith) r in
      let later =
        build_tables_ends rounds
          (add_keys reached_capacity exceeds_allowed_overlap now job (c ∷ cs) (fresh p)).0
          (add_keys reached_capacity exceeds_allowed_overlap now job (c ∷ cs) (fresh p)).1
          (omega (arith, step)) n r in
      ground arith

seek_left-Follow :
    (range : KeyRange) (u : List ℕ) (cs : List Cell) → Follow u cs → Follow u (seek_left range cs)
unfolding seek_left
seek_left-Follow range u [] f = tt
seek_left-Follow range u (c ∷ cs) (f, fs) =
    elim (Bool-cases (ltb 0 (length range.left) && key_lt c.key range.left)) [
      | inl h ↦ rw h (seek_left-Follow range u cs fs)
      | inr h ↦ rw h (f, fs)
    ]

seek_left-IsReady :
    (range : KeyRange) (cs : List Cell)
    → IsGrouped cs
    → All IsStored cs
    → IsReady first_pass (seek_left range cs)
unfolding seek_left
seek_left-IsReady range [] g s = record {
  grouped = g;
  stored = s;
  skipping = λ h. absurd (ground arith);
}
seek_left-IsReady range (c ∷ cs) (g, gs) (s, ss) =
    elim (Bool-cases (ltb 0 (length range.left) && key_lt c.key range.left)) [
      | inl h ↦ rw h (seek_left-IsReady range cs gs ss)
      | inr h ↦
          rw h
            (record { grouped = (g, gs); stored = (s, ss); skipping = λ h. absurd (ground arith) })
    ]

-- A sub-compaction without an upper end, and that drops no prefix, takes all that its iterator has
-- from the lower end on, and from the tables that it builds a reader at any timestamp from the
-- discarded one on sees of every user key what it saw before. The iterator is sorted by user key, its
-- keys have timestamps, and an empty builder is not full.
pub subcompact_keeps :
    (reached_capacity : List Built → Bool) (exceeds_allowed_overlap : KeyRange → Bool) (now ts : ℕ)
    (k : List ℕ) (job : Job) (cs : List Cell)
    → job.discard_ts ≤ ts
    → ltb 0 (length job.drop_prefixes) ≡ false
    → length job.range.right ≡ 0
    → reached_capacity [] ≡ false
    → IsGrouped cs
    → All IsStored cs
    → ((subcompact reached_capacity exceeds_allowed_overlap now job cs).1 ≡ [])
      × (visible now (
            read ts k
              (table_cells (subcompact reached_capacity exceeds_allowed_overlap now job cs).0))
          ≡ visible now (read ts k (seek_left job.range cs)))
unfolding subcompact
subcompact_keeps reached_capacity exceeds_allowed_overlap now ts k job cs snapshot no_drops no_end
      full g s =
    let all = seek_left job.range cs in
    let ready = seek_left-IsReady job.range cs g s in
    let done =
      build_tables_ends reached_capacity exceeds_allowed_overlap now job (length all) all first_pass
        (omega arith) no_end full in
    let a =
      build_tables-TablesStep reached_capacity exceeds_allowed_overlap now ts k job snapshot
        no_drops (length all) all first_pass ready []
        (rw done
          (record { skipped = λ h. unfold read in refl; seen = λ h. refl; absent = λ h n. n })) in
    (done, ap (λ l. visible now (read ts k l)) (sym (append-nil _)) ∙ a.seen refl)
