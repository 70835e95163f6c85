-- ===== src/Subcompact/Passes.antt =====
-- A whole call of `addKeys`, turn by turn, and what readers see after it: levels.go.
use badgerx.Prelude.{
  ℕ, ◌≤◌, ◌<◌, ◌≡◌, refl, sym, ap, ◌∙◌, ◌⊎◌, inl, inr, ◌&&◌, Bool, true, false, List, [], ◌∷◌, ◌++◌,
  length, ltb, arith, Bool-cases,
}
use mathlib.Core.Path.{subst}
use mathlib.Core.List.{append-nil, append_assoc}
use badgerx.Keys.{parse_key, same_key}
use badgerx.KeyRange.{KeyRange}
use badgerx.Subcompact.{
  Cell, Built, Job, Pass, Turn, goes, breaks, update_stats, take_version, with_new_key, start_key,
  visit, turn, add_keys,
}
use badgerx.Subcompact.Reads.{Follow}
use badgerx.Subcompact.Steps.{
  cells, cells-append, Answers, IsReady, Effect, update_stats-same, take_version-Effect, IsStep,
  Effect-IsStep, Effect-IsReady, cleared, passed_over, IsStep-cleared,
}

-- What a turn makes of the cell it stands on, for every reader from the discarded timestamp on.
abbrev TurnSteps : ℕ → ℕ → List ℕ → Pass → Cell → List Cell → Turn → Type 0
TurnSteps now ts k p c cs (goes q) =
    IsReady q cs
    × ((out : List Cell) → Answers now ts k q cs out → IsStep now ts k p q (c ∷ cs) cs out)
TurnSteps now ts k p c cs (breaks q) =
    IsReady q (c ∷ cs)
    × ((out : List Cell)
        → Answers now ts k q (c ∷ cs) out
        → IsStep now ts k p q (c ∷ cs) (c ∷ cs) out)

pub Turn-cases : (t : Turn) → ((q : Pass) × (t ≡ goes q)) ⊎ ((q : Pass) × (t ≡ breaks q))
Turn-cases (goes q) = inl (q, refl)
Turn-cases (breaks q) = inr (q, refl)

-- Two steps one after the other.
both :
    (now ts : ℕ) (k : List ℕ) (p q r : Pass) (cs cs' rest out : List Cell)
    (later : IsStep now ts k q r cs' rest out)
    → IsStep now ts k p q cs cs' (cells later.new ++ out)
    → IsStep now ts k p r cs rest out
both now ts k p q r cs cs' rest out later s = record {
  new = s.new ++ later.new;
  grown = later.grown ∙ ap (λ bs. bs ++ later.new) s.grown ∙ append_assoc p.builder s.new later.new;
  answers =
      subst (Answers now ts k p cs)
        (sym (
          ap (λ l. l ++ out) (cells-append s.new later.new)
          ∙ append_assoc (cells s.new) (cells later.new) out))
        s.answers;
}

-- What the iterator has left and the variables, after `addKeys`.
abbrev pub KeysStep : ℕ → ℕ → List ℕ → Pass → List Cell → List Cell × Pass → Type 0
KeysStep now ts k p cs (rest, q) =
    IsReady q rest
    × ((out : List Cell) → Answers now ts k q rest out → IsStep now ts k p q cs rest out)

module _ (reached_capacity : List Built → Bool) (exceeds_allowed_overlap : KeyRange → Bool)
    (now ts : ℕ) (k : List ℕ) (job : Job) (snapshot : job.discard_ts ≤ ts)
    (no_drops : ltb 0 (length job.drop_prefixes) ≡ false) where
  start_key-keeps :
      (c : Cell) (p q : Pass)
      → (start_key reached_capacity exceeds_allowed_overlap now job c p ≡ goes q)
        ⊎ (start_key reached_capacity exceeds_allowed_overlap now job c p ≡ breaks q)
      → (q.skip_key ≡ p.skip_key) × (q.builder ≡ p.builder)
  unfolding start_key with_new_key
  start_key-keeps c p q (inl h) = ground arith
  start_key-keeps c p q (inr h) = ground arith

  take_version-TurnSteps :
      (p r : Pass) (c : Cell) (cs : List Cell)
      → IsReady p (c ∷ cs)
      → (ltb 0 (length p.skip_key) && same_key c.key p.skip_key) ≡ false
      → r.skip_key ≡ []
      → r.builder ≡ p.builder
      → TurnSteps now ts k p c cs (goes (take_version now job c r))
  take_version-TurnSteps p r c cs ready n e b =
      let f = take_version-Effect now job c r in
      (
        Effect-IsReady now job.discard_ts c r.builder (take_version now job c r) cs ready.grouped
            ready.stored
            (subst (λ x. Effect now job.discard_ts c r.builder x (take_version now job c r)) e f),
        λ out a. IsStep-cleared now ts k p r (take_version now job c r) c cs cs out ready n e b (
            Effect-IsStep now job.discard_ts ts k c r (take_version now job c r) cs out snapshot e
              ready.stored.0 f a),
      )

  breaks-TurnSteps :
      (p q : Pass) (c : Cell) (cs : List Cell)
      → IsReady p (c ∷ cs)
      → (ltb 0 (length p.skip_key) && same_key c.key p.skip_key) ≡ false
      → q.skip_key ≡ []
      → q.builder ≡ p.builder
      → TurnSteps now ts k p c cs (breaks q)
  breaks-TurnSteps p q c cs ready n e b = (
    record {
      grouped = ready.grouped;
      stored = ready.stored;
      skipping = λ h. absurd (ground arith);
    },
    λ out a. record {
      new = [];
      grown = b ∙ sym (append-nil p.builder);
      answers = cleared now ts k p c cs out ready n (record {
        skipped = λ h. absurd (ground arith);
        seen = λ h. a.seen (ground (arith, e));
        absent = λ h. a.absent (ground (arith, e));
      });
    },
  )

  visit-TurnSteps :
      (p : Pass) (c : Cell) (cs : List Cell)
      → IsReady p (c ∷ cs)
      → (ltb 0 (length p.skip_key) && same_key c.key p.skip_key) ≡ false
      → TurnSteps now ts k p c cs
          (visit reached_capacity exceeds_allowed_overlap now job c (record p { skip_key = [] }))
  visit-TurnSteps p c cs ready n = elim (Bool-cases (same_key c.key p.last_key)) [
    | inl h ↦
        unfold visit in
        rw h (take_version-TurnSteps p (record p { skip_key = [] }) c cs ready n refl refl)
    | inr h ↦
        elim (Turn-cases (
          start_key reached_capacity exceeds_allowed_overlap now job c
            (record p { skip_key = [] }))) [
              | inl (q, e) ↦
                  let (a, b) = start_key-keeps c (record p { skip_key = [] }) q (inl e) in
                  unfold visit in rw (h, e) (take_version-TurnSteps p q c cs ready n a b)
              | inr (q, e) ↦
                  let (a, b) = start_key-keeps c (record p { skip_key = [] }) q (inr e) in
                  unfold visit in rw (h, e) (breaks-TurnSteps p q c cs ready n a b)
            ]
  ]

  skipped_over :
      (p : Pass) (c : Cell) (cs : List Cell)
      → IsReady p (c ∷ cs)
      → (ltb 0 (length p.skip_key) && same_key c.key p.skip_key) ≡ true
      → TurnSteps now ts k p c cs (goes (update_stats job c.vs p))
  skipped_over p c cs ready y =
      let (g, s) = update_stats-same job c.vs p in
      let (long, f) = ready.skipping (ground arith) in
      (
        record {
          grouped = ready.grouped.1;
          stored = ready.stored.1;
          skipping = λ h. subst (λ x. (8 < length x) × Follow (parse_key x) cs) (sym s) (long, f.1);
        },
        λ out a. record {
          new = [];
          grown = g ∙ sym (append-nil p.builder);
          answers =
              passed_over now ts k p (update_stats job c.vs p) c cs out ready (ground arith)
                (ground arith) s a;
        },
      )

  turn-TurnSteps :
      (p : Pass) (c : Cell) (cs : List Cell)
      → IsReady p (c ∷ cs)
      → TurnSteps now ts k p c cs (turn reached_capacity exceeds_allowed_overlap now job c p)
  unfolding turn
  turn-TurnSteps p c cs ready =
      elim (Bool-cases (ltb 0 (length p.skip_key) && same_key c.key p.skip_key)) [
        | inr n ↦ rw (no_drops, n) (visit-TurnSteps p c cs ready n)
        | inl y ↦ rw (no_drops, y) (skipped_over p c cs ready y)
      ]

  add_keys-goes :
      (c : Cell) (cs : List Cell) (p q : Pass)
      → turn reached_capacity exceeds_allowed_overlap now job c p ≡ goes q
      → add_keys reached_capacity exceeds_allowed_overlap now job cs q
        ≡ add_keys reached_capacity exceeds_allowed_overlap now job (c ∷ cs) p
  unfolding add_keys
  add_keys-goes c cs p q e = ground arith

  add_keys-breaks :
      (c : Cell) (cs : List Cell) (p q : Pass)
      → turn reached_capacity exceeds_allowed_overlap now job c p ≡ breaks q
      → (c ∷ cs, q) ≡ add_keys reached_capacity exceeds_allowed_overlap now job (c ∷ cs) p
  unfolding add_keys
  add_keys-breaks c cs p q e = ground arith

  pub add_keys-KeysStep :
      (cs : List Cell) (p : Pass)
      → IsReady p cs
      → KeysStep now ts k p cs (add_keys reached_capacity exceeds_allowed_overlap now job cs p)
  add_keys-KeysStep [] p ready =
      unfold add_keys in
      (ready, λ out a. record { new = []; grown = sym (append-nil p.builder); answers = a })
  add_keys-KeysStep (c ∷ cs) p ready =
      elim (Turn-cases (turn reached_capacity exceeds_allowed_overlap now job c p)) [
        | inr (q, e) ↦
            subst (KeysStep now ts k p (c ∷ cs)) (add_keys-breaks c cs p q e)
              (subst (TurnSteps now ts k p c cs) e (turn-TurnSteps p c cs ready))
        | inl (q, e) ↦
            let step : TurnSteps now ts k p c cs (goes q) =
              subst (TurnSteps now ts k p c cs) e (turn-TurnSteps p c cs ready) in
            let later = add_keys-KeysStep cs q step.0 in
            subst (KeysStep now ts k p (c ∷ cs)) (add_keys-goes c cs p q e) (
              later.0,
              λ out a.
                  both now ts k p q _ (c ∷ cs) cs _ out (later.1 out a)
                    (step.1 _ (later.1 out a).answers),
            )
      ]
