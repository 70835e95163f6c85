-- ===== src/Commit/Settled.antt =====
-- What a commit leaves, whatever error it meets: `Commit` of txn.go.
use badgerx.Prelude.{
  ℕ, ◌≡◌, sym, ap, ◌∙◌, inl, inr, true, false, Option, none, some, nat_eq, arith, length, ◌==◌,
  Bool-cases, Option-cases,
}
use mathlib.Core.Path.{subst}
use badgerx.WaterMark
use badgerx.WaterMark.{WaterMark}
use badgerx.Txn.{Txn, Config, Error, ok, err}
use badgerx.Oracle.{done_commit}
use badgerx.Commit.{Db, discard, discard_with, commit_precheck, commit_and_send, commit}
use badgerx.Commit.Outcome.{
  discard-txn_mark, IsSettled, commit_and_send-IsSent, done_commit-txn_mark,
}

discard_with-txn_mark :
    (x r : Option Error) (db db' : Db) (t t' : Txn)
    → discard_with x db t ≡ some (r, db', t')
    → (t'.discarded ≡ true) × (db'.oracle.txn_mark ≡ db.oracle.txn_mark) × (r ≡ x)
discard_with-txn_mark x r db db' t t' h = elim (Option-cases (discard db.oracle t)) [
  | inl e ↦ absurd (unfold discard_with in ground arith)
  | inr ((o, u), e) ↦
      let (a, b) = discard-txn_mark db.oracle o t u e in
      (
        unfold discard_with in ground arith,
        unfold discard_with in ground arith,
        unfold discard_with in ground arith,
      )
]

-- What a commit went through: the check before it failed, there was nothing to write, or the
-- entries were sent, with an error or a timestamp.
data Ways (cfg : Config) (db db' : Db) (t t' : Txn) (wait r : Option Error) : Type 0 where
  refused :
      (x : Error)
      → commit_precheck cfg t ≡ some x
      → r ≡ some x
      → db' ≡ db
      → Ways cfg db db' t t' wait r
  idle : discard_with none db t ≡ some (r, db', t') → Ways cfg db db' t t' wait r
  failed :
      (x : Error) (d : Db) (u : Txn)
      → commit_and_send cfg db t ≡ some (err x, d, u)
      → discard_with (some x) d u ≡ some (r, db', t')
      → Ways cfg db db' t t' wait r
  landed :
      (ts : ℕ) (d : Db) (u : Txn)
      → commit_and_send cfg db t ≡ some (ok ts, d, u)
      → discard_with wait (record d { oracle = done_commit d.oracle ts }) u ≡ some (r, db', t')
      → Ways cfg db db' t t' wait r

commit-Ways :
    (cfg : Config) (db db' : Db) (t t' : Txn) (wait r : Option Error)
    → commit cfg db t wait ≡ some (r, db', t')
    → Ways cfg db db' t t' wait r
commit-Ways cfg db db' t t' wait r h = elim (Bool-cases (length t.pending_writes == 0)) [
  | inl z ↦ idle (unfold commit in ground arith)
  | inr z ↦ elim (Option-cases (commit_precheck cfg t)) [
    | inr (x, p) ↦ refused x p (unfold commit in ground arith) (unfold commit in ground arith)
    | inl p ↦ elim (Option-cases (commit_and_send cfg db t)) [
      | inl e ↦ absurd (unfold commit in ground arith)
      | inr ((err x, d, u), e) ↦ failed x d u e (unfold commit in ground arith)
      | inr ((ok ts, d, u), e) ↦ landed ts d u e (unfold commit in ground arith)
    ]
  ]
]

-- However a commit of an unmanaged database ends, with an error at any point or with none, the
-- commits' watermark is as it was, or one timestamp was begun in it and done again: no
-- timestamp is left open for readers to wait on.
pub commit-IsSettled :
    (cfg : Config) (db db' : Db) (t t' : Txn) (wait r : Option Error)
    → db.oracle.is_managed ≡ false
    → commit cfg db t wait ≡ some (r, db', t')
    → IsSettled db.oracle.txn_mark db'.oracle.txn_mark
commit-IsSettled cfg db db' t t' wait r m h = elim (commit-Ways cfg db db' t t' wait r h) [
  | refused x p a b ↦ inl (ap (λ d. d.oracle.txn_mark) b)
  | idle a ↦ inl (discard_with-txn_mark none r db db' t t' a).1
  | failed x d u e a ↦
      subst (IsSettled db.oracle.txn_mark) (sym (discard_with-txn_mark (some x) r d db' u t' a).1)
        (commit_and_send-IsSent cfg db d t u (err x) m e)
  | landed ts d u e a ↦
      let (p, q) = commit_and_send-IsSent cfg db d t u (ok ts) m e in
      inr (
        ts,
        (discard_with-txn_mark wait r _ db' u t' a).1
            ∙ done_commit-txn_mark d.oracle ts q
            ∙ ap (λ v. WaterMark.done v ts) p,
      )
]

-- Once the check before it passes, or there is nothing to write, a commit that returns leaves the
-- transaction discarded, whatever error it returns.
pub commit-discarded :
    (cfg : Config) (db db' : Db) (t t' : Txn) (wait r : Option Error)
    → commit_precheck cfg t ≡ none
    → commit cfg db t wait ≡ some (r, db', t')
    → t'.discarded ≡ true
commit-discarded cfg db db' t t' wait r n h = elim (commit-Ways cfg db db' t t' wait r h) [
  | refused x p a b ↦ absurd (cc (n, p))
  | idle a ↦ (discard_with-txn_mark none r db db' t t' a).0
  | failed x d u e a ↦ (discard_with-txn_mark (some x) r d db' u t' a).0
  | landed ts d u e a ↦ (discard_with-txn_mark wait r _ db' u t' a).0
]
