-- ===== src/Oracle/Conflict.antt =====
-- What a conflict is: `hasConflict` of txn.go.
use badgerx.Prelude.{
  ℕ, ◌<◌, ◌≡◌, ◌↔◌, refl, ◌⊎◌, inl, inr, true, false, some, List, [], ◌∷◌, nat_eq, leb, arith, has,
  Bool-cases, Option-cases, ap,
}
use badgerx.Prelude.Maps.{lookup}
use badgerx.Txn.{Txn}
use badgerx.Oracle.{CommittedTxn, Oracle, reads_conflict, any_conflict, has_conflict}

-- The committed transaction is newer than what `txn` read, and wrote a fingerprint that it read.
pub record Clashes (read_ts : ℕ) (reads : List ℕ) (c : CommittedTxn) : Type 0 where
  pub newer : read_ts < c.ts
  pub fingerprint : ℕ
  pub was_read : has fingerprint reads ≡ true
  pub was_written : lookup fingerprint c.conflict_keys ≡ some tt

-- One of the transactions clashes.
abbrev pub AnyClash : ℕ → List ℕ → List CommittedTxn → Type 0
AnyClash read_ts reads [] = ⊥
AnyClash read_ts reads (c ∷ cs) = Clashes read_ts reads c ⊎ AnyClash read_ts reads cs

reads_conflict_sound :
    (reads : List ℕ) (keys : List (ℕ × Unit {0}))
    → reads_conflict reads keys ≡ true
    → (fp : ℕ) × (has fp reads ≡ true) × (lookup fp keys ≡ some tt)
unfolding reads_conflict
reads_conflict_sound [] keys h = absurd (cc)
reads_conflict_sound (r ∷ rs) keys h = elim (Option-cases (lookup r keys)) [
  | inr (tt, e) ↦ (r, ground arith, e)
  | inl e ↦ let (fp, a, b) = reads_conflict_sound rs keys (ground arith) in (fp, ground arith, b)
]

reads_conflict_complete :
    (reads : List ℕ) (keys : List (ℕ × Unit {0})) (fp : ℕ)
    → has fp reads ≡ true
    → lookup fp keys ≡ some tt
    → reads_conflict reads keys ≡ true
unfolding reads_conflict
reads_conflict_complete [] keys fp a b = absurd (cc)
reads_conflict_complete (r ∷ rs) keys fp a b = ground (arith, reads_conflict_complete rs keys fp)

any_conflict_sound :
    (ts : ℕ) (reads : List ℕ) (cs : List CommittedTxn)
    → any_conflict ts reads cs ≡ true
    → AnyClash ts reads cs
unfolding any_conflict
any_conflict_sound ts reads [] h = absurd (cc)
any_conflict_sound ts reads (c ∷ cs) h = elim (Bool-cases (leb c.ts ts)) [
  | inl e ↦ inr (any_conflict_sound ts reads cs (ground arith))
  | inr e ↦ elim (Bool-cases (reads_conflict reads c.conflict_keys)) [
    | inl q ↦
        let (fp, a, b) = reads_conflict_sound reads c.conflict_keys q in
        inl (record { newer = ground arith; fingerprint = fp; was_read = a; was_written = b })
    | inr q ↦ inr (any_conflict_sound ts reads cs (ground arith))
  ]
]

any_conflict_complete :
    (ts : ℕ) (reads : List ℕ) (cs : List CommittedTxn)
    → AnyClash ts reads cs
    → any_conflict ts reads cs ≡ true
unfolding any_conflict
any_conflict_complete ts reads [] h = absurd h
any_conflict_complete ts reads (c ∷ cs) (inl h) = ground (
  arith,
  h.newer,
  reads_conflict_complete reads c.conflict_keys h.fingerprint h.was_read h.was_written,
)
any_conflict_complete ts reads (c ∷ cs) (inr h) =
    ground (arith, any_conflict_complete ts reads cs h)

pub any_conflict_iff :
    (ts : ℕ) (reads : List ℕ) (cs : List CommittedTxn)
    → (any_conflict ts reads cs ≡ true) ↔ AnyClash ts reads cs
any_conflict_iff ts reads cs = (any_conflict_sound ts reads cs, any_conflict_complete ts reads cs)

any_conflict-nil : (ts : ℕ) (cs : List CommittedTxn) → any_conflict ts [] cs ≡ false
unfolding any_conflict reads_conflict
any_conflict-nil ts [] = refl
any_conflict-nil ts (c ∷ cs) = ground (arith, any_conflict-nil ts cs)

-- A transaction conflicts exactly when some committed transaction that the oracle remembers has a
-- newer timestamp than its reads and wrote a fingerprint among them.
pub has_conflict_iff :
    (o : Oracle) (txn : Txn)
    → (has_conflict o txn ≡ true) ↔ AnyClash txn.read_ts txn.reads o.committed_txns
unfolding has_conflict
has_conflict_iff o txn = go txn.reads refl
  where
    go :
        (rs : List ℕ)
        → txn.reads ≡ rs
        → (has_conflict o txn ≡ true) ↔ AnyClash txn.read_ts txn.reads o.committed_txns
    go [] e = (
      λ h. absurd (ground (arith, e)),
      λ c. ground (
        arith,
        any_conflict_complete txn.read_ts txn.reads o.committed_txns c,
        any_conflict-nil txn.read_ts o.committed_txns,
        ap (λ x. any_conflict txn.read_ts x o.committed_txns) e,
      ),
    )
    go (r ∷ rs) e = (
      λ h. any_conflict_sound txn.read_ts txn.reads o.committed_txns (ground (arith, e)),
      λ c. ground (arith, e, any_conflict_complete txn.read_ts txn.reads o.committed_txns c),
    )
