-- ===== src/Subcompact/Steps.antt =====
-- What one turn of `addKeys` does with a cell, and what readers see after it: levels.go.
use badgerx.Prelude.{
  ℕ, ◌+◌, ◌≤◌, ◌<◌, ◌≡◌, refl, sym, ap, ◌∙◌, inl, inr, not, ◌&&◌, ◌||◌, Bool, true, false, none,
  List, [], ◌∷◌, ◌++◌, length, ltb, leb, ◌==◌, arith, All, bytes_equal, bytes_equal_iff, Bool-cases,
}
use Prim.Native.Nat.{bit_and}
use mathlib.Core.Path.{subst}
use mathlib.Core.List.{append-nil}
use badgerx.Keys.{parse_key, parse_ts, same_key}
use badgerx.Entry.{is_deleted_or_expired, bit_merge_entry}
use badgerx.Txn.{ValueStruct}
use badgerx.Subcompact.{
  Cell, Built, Job, Pass, built, last_valid_version, update_stats, add_cell, take_old, take_version,
}
use badgerx.Subcompact.Reads.{
  read, visible, IsStored, Follow, IsGrouped, same_key-parse_key, read-passed,
}

abbrev pub cells : List Built → List Cell
cells [] = []
cells (b ∷ bs) = b.cell ∷ cells bs

pub cells-append : (bs cs : List Built) → cells (bs ++ cs) ≡ cells bs ++ cells cs
cells-append [] cs = refl
cells-append (b ∷ bs) cs = ap (λ l. b.cell ∷ l) (cells-append bs cs)

-- The versions of the user key that are still to come are skipped.
abbrev pub skips : Pass → List ℕ → Bool
skips p k = ltb 0 (length p.skip_key) && bytes_equal (parse_key p.skip_key) k

-- What comes out, for a reader of the key at the time: nothing more of a key that is skipped, and
-- else what the reader sees of what comes in.
pub record Answers (now ts : ℕ) (k : List ℕ) (p : Pass) (cs out : List Cell) : Type 0 where
  pub skipped : skips p k ≡ true → read ts k out ≡ none
  pub seen : skips p k ≡ false → visible now (read ts k out) ≡ visible now (read ts k cs)
  pub absent : skips p k ≡ false → read ts k cs ≡ none → read ts k out ≡ none

-- What the variables and the iterator are at every turn.
pub record IsReady (p : Pass) (cs : List Cell) : Type 0 where
  pub grouped : IsGrouped cs
  pub stored : All IsStored cs
  pub skipping :
      ltb 0 (length p.skip_key) ≡ true → (8 < length p.skip_key) × Follow (parse_key p.skip_key) cs

-- What a turn does with the cell: adds it, adds it as the last of its key, or drops it and the
-- rest of its key, when it is deleted or expired.
pub data Effect (now discard_ts : ℕ) (c : Cell) (before : List Built) (skip : List ℕ) (q : Pass)
    : Type 0 where
  adds :
      (b : Built)
      → b.cell ≡ c
      → q.builder ≡ before ++ (b ∷ [])
      → q.skip_key ≡ skip
      → Effect now discard_ts c before skip q
  ends :
      (b : Built)
      → b.cell ≡ c
      → q.builder ≡ before ++ (b ∷ [])
      → q.skip_key ≡ c.key
      → parse_ts c.key ≤ discard_ts
      → Effect now discard_ts c before skip q
  drops :
      q.builder ≡ before
      → q.skip_key ≡ c.key
      → parse_ts c.key ≤ discard_ts
      → is_deleted_or_expired now c.vs.meta c.vs.expires_at ≡ true
      → Effect now discard_ts c before skip q

pub update_stats-same :
    (job : Job) (vs : ValueStruct) (p : Pass)
    → ((update_stats job vs p).builder ≡ p.builder)
      × ((update_stats job vs p).skip_key ≡ p.skip_key)
unfolding update_stats
update_stats-same job vs p = ground arith

take_old-Effect :
    (now : ℕ) (job : Job) (expired : Bool) (c : Cell) (p : Pass)
    → parse_ts c.key ≤ job.discard_ts
    → expired ≡ is_deleted_or_expired now c.vs.meta c.vs.expires_at
    → Effect now job.discard_ts c p.builder p.skip_key (take_old job expired c p)
unfolding take_old add_cell
take_old-Effect now job expired c p le e =
    elim (Bool-cases (expired || last_valid_version job c p.num_versions)) [
      | inr h ↦ adds (built expired c p) refl (ground arith) (ground arith)
      | inl h ↦ elim (Bool-cases (not expired && last_valid_version job c p.num_versions)) [
        | inl l ↦ ends (built expired c p) refl (ground arith) (ground arith) le
        | inr l ↦ elim (Bool-cases job.has_overlap) [
          | inl o ↦ ends (built expired c p) refl (ground arith) (ground arith) le
          | inr o ↦
              let (a, b) = update_stats-same job c.vs (record p { skip_key = c.key }) in
              drops (ground arith) (ground arith) le (ground arith)
        ]
      ]
    ]

pub take_version-Effect :
    (now : ℕ) (job : Job) (c : Cell) (p : Pass)
    → Effect now job.discard_ts c p.builder p.skip_key (take_version now job c p)
unfolding take_version add_cell
take_version-Effect now job c p =
    elim (Bool-cases
      (leb (parse_ts c.key) job.discard_ts && bit_and c.vs.meta bit_merge_entry == 0)) [
        | inl h ↦ rw h (
            take_old-Effect now job (is_deleted_or_expired now c.vs.meta c.vs.expires_at) c
              (record p { num_versions = p.num_versions + 1 }) (ground arith) refl)
        | inr h ↦
            rw h (
              adds (built (is_deleted_or_expired now c.vs.meta c.vs.expires_at) c p) refl refl refl)
      ]

-- The cells that a turn adds, and what they make of what comes out later.
pub record IsStep (now ts : ℕ) (k : List ℕ) (p q : Pass) (cs cs' out : List Cell) : Type 0 where
  pub new : List Built
  pub grown : q.builder ≡ p.builder ++ new
  pub answers : Answers now ts k p cs (cells new ++ out)

pub Effect-IsStep :
    (now discard_ts ts : ℕ) (k : List ℕ) (c : Cell) (p q : Pass) (cs out : List Cell)
    → discard_ts ≤ ts
    → p.skip_key ≡ []
    → IsStored c
    → Effect now discard_ts c p.builder p.skip_key q
    → Answers now ts k q cs out
    → IsStep now ts k p q (c ∷ cs) cs out
unfolding read
Effect-IsStep now discard_ts ts k c p q cs out le s st (adds b e g r) a = record {
  new = b ∷ [];
  grown = g;
  answers = record {
    skipped = λ h. absurd (ground arith);
    seen = λ h. ground (arith, a.seen, e);
    absent = λ h n. ground (arith, a.absent, a.seen, e);
  };
}
Effect-IsStep now discard_ts ts k c p q cs out le s st (ends b e g r l) a = record {
  new = b ∷ [];
  grown = g;
  answers = record {
    skipped = λ h. absurd (ground arith);
    seen = λ h. ground (arith, a.seen, e, r);
    absent = λ h n. ground (arith, a.absent, e, r);
  };
}
Effect-IsStep now discard_ts ts k c p q cs out le s st (drops g r l x) a = record {
  new = [];
  grown = g ∙ sym (append-nil p.builder);
  answers = record {
    skipped = λ h. absurd (ground arith);
    seen = λ h. ground (arith, a.seen, a.skipped, r);
    absent = λ h n. ground (arith, a.absent, r);
  };
}

pub Effect-IsReady :
    (now discard_ts : ℕ) (c : Cell) (bs : List Built) (q : Pass) (cs : List Cell)
    → IsGrouped (c ∷ cs)
    → All IsStored (c ∷ cs)
    → Effect now discard_ts c bs [] q
    → IsReady q cs
Effect-IsReady now discard_ts c bs q cs (g, gs) (s, ss) (adds b e h r) = record {
  grouped = gs;
  stored = ss;
  skipping = λ x. absurd (ground arith);
}
Effect-IsReady now discard_ts c bs q cs (g, gs) (s, ss) (ends b e h r l) = record {
  grouped = gs;
  stored = ss;
  skipping = λ x. rw r (s, g);
}
Effect-IsReady now discard_ts c bs q cs (g, gs) (s, ss) (drops h r l x) = record {
  grouped = gs;
  stored = ss;
  skipping = λ x. rw r (s, g);
}

-- A cell of another key ends the skipping.
pub cleared :
    (now ts : ℕ) (k : List ℕ) (p : Pass) (c : Cell) (cs out : List Cell)
    → IsReady p (c ∷ cs)
    → (ltb 0 (length p.skip_key) && same_key c.key p.skip_key) ≡ false
    → Answers now ts k (record p { skip_key = [] }) (c ∷ cs) out
    → Answers now ts k p (c ∷ cs) out
cleared now ts k p c cs out r n a = record {
  skipped = λ h.
      let on : ltb 0 (length p.skip_key) ≡ true = ground arith in
      let (long, f) = r.skipping on in
      let same = same_key-parse_key c.key p.skip_key r.stored.0 long in
      let is_k : parse_key p.skip_key ≡ k =
        ground (arith, bytes_equal_iff (parse_key p.skip_key) k) in
      let other : bytes_equal (parse_key c.key) k ≡ false =
        ground (arith, ap (bytes_equal (parse_key c.key)) is_k) in
      a.absent refl (read-passed ts k c cs (subst (λ u. Follow u (c ∷ cs)) is_k f) r.grouped other);
  seen = λ h. a.seen refl;
  absent = λ h. a.absent refl;
}

-- A cell that is skipped.
pub passed_over :
    (now ts : ℕ) (k : List ℕ) (p q : Pass) (c : Cell) (cs out : List Cell)
    → IsReady p (c ∷ cs)
    → ltb 0 (length p.skip_key) ≡ true
    → same_key c.key p.skip_key ≡ true
    → q.skip_key ≡ p.skip_key
    → Answers now ts k q cs out
    → Answers now ts k p (c ∷ cs) out
unfolding read
passed_over now ts k p q c cs out r on same e a =
    let (long, f) = r.skipping on in
    let s = same_key-parse_key c.key p.skip_key r.stored.0 long in
    let is_k : parse_key c.key ≡ parse_key p.skip_key =
      ground (arith, bytes_equal_iff (parse_key c.key) (parse_key p.skip_key)) in
    let eq : bytes_equal (parse_key c.key) k ≡ bytes_equal (parse_key p.skip_key) k =
      ap (λ u. bytes_equal u k) is_k in
    record {
      skipped = λ h. a.skipped (ground arith);
      seen = λ h. ground (arith, a.seen);
      absent = λ h n. ground (arith, a.absent);
    }

pub IsStep-cleared :
    (now ts : ℕ) (k : List ℕ) (p r q : Pass) (c : Cell) (cs rest out : List Cell)
    → IsReady p (c ∷ cs)
    → (ltb 0 (length p.skip_key) && same_key c.key p.skip_key) ≡ false
    → r.skip_key ≡ []
    → r.builder ≡ p.builder
    → IsStep now ts k r q (c ∷ cs) rest out
    → IsStep now ts k p q (c ∷ cs) rest out
IsStep-cleared now ts k p r q c cs rest out ready n e b s = record {
  new = s.new;
  grown = s.grown ∙ ap (λ bs. bs ++ s.new) b;
  answers = cleared now ts k p c cs (cells s.new ++ out) ready n (record {
    skipped = λ h. absurd (ground arith);
    seen = λ h. s.answers.seen (ground (arith, e));
    absent = λ h. s.answers.absent (ground (arith, e));
  });
}
