-- ===== src/Oracle/History/Steps.antt =====
-- Each step keeps the oracle's memory faithful: txn.go.
use badgerx.Prelude.{
  ℕ, ◌+◌, ◌%◌, ◌^◌, ◌≤◌, ◌<◌, ◌≡◌, sym, ap, ◌∙◌, true, false, none, some, List, [], ◌∷◌, ◌++◌,
  nat_eq, arith, All, All-map, Option-cases, inl, inr,
}
use mathlib.Core.Path.{subst}
use badgerx.WaterMark
use badgerx.WaterMark.{WaterMark}
use badgerx.WaterMark.Below.{IsBelow-mono}
use badgerx.Txn.{Txn}
use badgerx.Oracle.{
  CommittedTxn, Oracle, done_read, cleanup_committed_transactions, issue_ts, pick_ts, record_commit,
  new_commit_ts, done_commit,
}
use badgerx.Oracle.Cleanup.{keep_above-snoc}
use badgerx.Oracle.History.{
  System, IsFaithful, start, opened-IsFaithful, Moves, Runs, stays, moves, reads, ends, commits,
  refuses, lands, marks_read, marks_txn,
}
use badgerx.Oracle.History.Reads.{
  reads-IsFaithful, ends-IsFaithful, marks_read-IsFaithful, cleanup-IsFaithful,
}

-- A commit at the next timestamp.
abbrev committed : System → Txn → System
committed s t = record {
  oracle = record s.oracle {
    next_txn_ts = (s.oracle.next_txn_ts + 1) % 2 ^ 64;
    txn_mark = WaterMark.begin s.oracle.txn_mark s.oracle.next_txn_ts;
    committed_txns =
        s.oracle.committed_txns
        ++ (record { ts = s.oracle.next_txn_ts; conflict_keys = t.conflict_keys } ∷ []);
  };
  log = s.log ++ (record { ts = s.oracle.next_txn_ts; conflict_keys = t.conflict_keys } ∷ []);
}

All-snoc :
    (n : ℕ) (cs : List CommittedTxn) (c : CommittedTxn)
    → All (λ c. c.ts < n) cs
    → c.ts < n
    → All (λ c. c.ts < n) (cs ++ (c ∷ []))
All-snoc n [] c h k = (k, tt)
All-snoc n (x ∷ cs) c (h, hs) k = (h, All-snoc n cs c hs k)

committed-IsFaithful :
    (s : System) (t : Txn)
    → IsFaithful s
    → s.oracle.last_cleanup_ts < s.oracle.next_txn_ts
    → s.oracle.next_txn_ts + 1 < 2 ^ 64
    → IsFaithful (committed s t)
committed-IsFaithful s t f h b =
    let step : s.oracle.next_txn_ts ≤ (s.oracle.next_txn_ts + 1) % 2 ^ 64 = omega arith in
    record {
      unmanaged = f.unmanaged;
      detects = f.detects;
      remembers =
          ap
            (λ cs.
              cs ++ (record { ts = s.oracle.next_txn_ts; conflict_keys = t.conflict_keys } ∷ []))
            f.remembers
          ∙ sym (keep_above-snoc _ s.log _ h);
      past =
          All-snoc _ s.log _
            (All-map (λ c. c.ts < s.oracle.next_txn_ts) _ (λ c q. omega arith) s.log f.past)
            (omega arith);
      below = IsBelow-mono _ _ s.oracle.read_mark step f.below;
      cleaned = f.cleaned;
      marked = f.marked;
      positive = omega arith;
      bounded = omega arith;
    }

-- An accepted commit: the read is marked done, the oracle cleaned up, and the next timestamp given.
pub record IsIssued (o : Oracle) (t : Txn) (ts : ℕ) (o' : Oracle) (t' : Txn) (clean : Oracle)
    : Type 0 where
  pub cleaning : cleanup_committed_transactions (done_read o t).0 ≡ some clean
  pub ts_eq : ts ≡ clean.next_txn_ts
  pub txn_eq : t' ≡ (done_read o t).1
  pub oracle_eq : o' ≡ record clean {
    next_txn_ts = (clean.next_txn_ts + 1) % 2 ^ 64;
    txn_mark = WaterMark.begin clean.txn_mark clean.next_txn_ts;
    committed_txns =
        clean.committed_txns
        ++ (record { ts = clean.next_txn_ts; conflict_keys = t'.conflict_keys } ∷ []);
  }

issued :
    (o : Oracle) (t : Txn) (ts : ℕ) (o' : Oracle) (t' : Txn) (c : Oracle)
    → o.is_managed ≡ false
    → c.detect_conflicts ≡ true
    → cleanup_committed_transactions (done_read o t).0 ≡ some c
    → new_commit_ts o t ≡ some (ts, false, o', t')
    → IsIssued o t ts o' t' c
unfolding new_commit_ts pick_ts issue_ts record_commit
issued o t ts o' t' c m d e h = record {
  cleaning = e;
  ts_eq = ground arith;
  txn_eq = ground arith;
  oracle_eq = ground arith;
}

no_cleanup :
    (o : Oracle) (t : Txn) (ts : ℕ) (o' : Oracle) (t' : Txn)
    → o.is_managed ≡ false
    → cleanup_committed_transactions (done_read o t).0 ≡ none
    → new_commit_ts o t ≡ some (ts, false, o', t')
    → ⊥
unfolding new_commit_ts pick_ts issue_ts
no_cleanup o t ts o' t' m e h = ground arith

commits-IsFaithful :
    (s : System) (t t' : Txn) (ts : ℕ) (o : Oracle)
    → IsFaithful s
    → t.read_ts < s.oracle.next_txn_ts
    → s.oracle.next_txn_ts + 1 < 2 ^ 64
    → new_commit_ts s.oracle t ≡ some (ts, false, o, t')
    → IsFaithful (record {
      oracle = o;
      log = s.log ++ (record { ts = ts; conflict_keys = t'.conflict_keys } ∷ []);
    })
commits-IsFaithful s t t' ts o f h b e =
    let next : (done_read s.oracle t).0.next_txn_ts ≡ s.oracle.next_txn_ts =
      unfold done_read in ground arith in
    elim (Option-cases (cleanup_committed_transactions (done_read s.oracle t).0)) [
      | inl x ↦ absurd (no_cleanup s.oracle t ts o t' f.unmanaged x e)
      | inr (c, x) ↦
          let (fc, n, l) = cleanup-IsFaithful _ c (ends-IsFaithful s t f h) x in
          let i = issued s.oracle t ts o t' c f.unmanaged fc.detects x e in
          rw (i.oracle_eq, i.ts_eq)
            (committed-IsFaithful (record s { oracle = c }) t' fc l (omega arith))
    ]

refuses-eq :
    (o o' : Oracle) (t t' : Txn) (ts : ℕ) → new_commit_ts o t ≡ some (ts, true, o', t') → o ≡ o'
unfolding new_commit_ts
refuses-eq o o' t t' ts e = ground arith

marks_txn-IsFaithful :
    (s : System) (w : WaterMark)
    → IsFaithful s
    → IsFaithful (record s { oracle = record s.oracle { txn_mark = w } })
marks_txn-IsFaithful s w f = record {
  unmanaged = f.unmanaged;
  detects = f.detects;
  remembers = f.remembers;
  past = f.past;
  below = f.below;
  cleaned = f.cleaned;
  marked = f.marked;
  positive = f.positive;
  bounded = f.bounded;
}

lands-IsFaithful :
    (s : System) (ts : ℕ)
    → IsFaithful s
    → IsFaithful (record s { oracle = done_commit s.oracle ts })
lands-IsFaithful s ts f =
    let at : record s.oracle { txn_mark = WaterMark.done s.oracle.txn_mark ts }
        ≡ done_commit s.oracle ts =
      unfold done_commit in ground (arith, f.unmanaged) in
    subst (λ x. IsFaithful (record s { oracle = x })) at (marks_txn-IsFaithful s _ f)

Moves-IsFaithful : {s u : System} → Moves s u → IsFaithful s → IsFaithful u
Moves-IsFaithful (reads s ts o e) f = reads-IsFaithful s ts o f e
Moves-IsFaithful (ends s t h) f = ends-IsFaithful s t f h
Moves-IsFaithful (commits s t t' ts o h b e) f = commits-IsFaithful s t t' ts o f h b e
Moves-IsFaithful (refuses s t t' ts o e) f =
    subst (λ x. IsFaithful (record s { oracle = x })) (refuses-eq s.oracle o t t' ts e) f
Moves-IsFaithful (lands s ts) f = lands-IsFaithful s ts f
Moves-IsFaithful (marks_read s w e) f = marks_read-IsFaithful s w f e
Moves-IsFaithful (marks_txn s w e) f = marks_txn-IsFaithful s w f

pub Runs-IsFaithful : (v : ℕ) {s : System} → v + 1 < 2 ^ 64 → Runs (start v) s → IsFaithful s
Runs-IsFaithful v h stays = opened-IsFaithful v h
Runs-IsFaithful v h (moves r m) = Moves-IsFaithful m (Runs-IsFaithful v h r)
