-- ===== src/Commit/Outcome.antt =====
-- What a commit does to the commits' watermark up to its write: txn.go.
use badgerx.Prelude.{
  ℕ, ◌≡◌, refl, ap, ◌∙◌, ◌⊎◌, inl, inr, Bool, true, false, some, List, nat_eq, arith, Option-cases,
}
use mathlib.Core.Path.{subst}
use badgerx.WaterMark
use badgerx.WaterMark.{WaterMark}
use badgerx.Entry.{Entry}
use badgerx.Txn.{Txn, Config, Error, Result, ok, err, conflict}
use badgerx.Oracle.{
  Oracle, new_commit_ts, done_commit, done_read, pick_ts, issue_ts, record_commit,
  cleanup_committed_transactions, discard_at_or_below,
}
use badgerx.Commit.{
  Db, written, all_entries, keep_together, commit_entries, discard, send_to_write_ch, send_commit,
  commit_and_send,
}

-- `Discard` leaves a transaction discarded, and the commits' watermark as it is.
pub discard-txn_mark :
    (o o' : Oracle) (t t' : Txn)
    → discard o t ≡ some (o', t')
    → (t'.discarded ≡ true) × (o'.txn_mark ≡ o.txn_mark)
unfolding discard done_read
discard-txn_mark o o' t t' h = ground arith

cleanup-txn_mark :
    (o c : Oracle)
    → cleanup_committed_transactions o ≡ some c
    → (c.txn_mark ≡ o.txn_mark) × (c.is_managed ≡ o.is_managed)
unfolding cleanup_committed_transactions discard_at_or_below
cleanup-txn_mark o c h = ground arith

-- The timestamp is begun in the watermark, unless there is a conflict.
record IsBegun (o o' : Oracle) (ts : ℕ) (clash : Bool) : Type 0 where
  pub managed : o'.is_managed ≡ o.is_managed
  pub begun : o.is_managed ≡ false → clash ≡ false → o'.txn_mark ≡ WaterMark.begin o.txn_mark ts
  pub clashed : clash ≡ true → o'.txn_mark ≡ o.txn_mark

done_read-txn_mark :
    (o : Oracle) (t : Txn)
    → ((done_read o t).0.txn_mark ≡ o.txn_mark) × ((done_read o t).0.is_managed ≡ o.is_managed)
unfolding done_read
done_read-txn_mark o t = ground arith

new_commit_ts-IsBegun :
    (o o' : Oracle) (t t' : Txn) (ts : ℕ) (clash : Bool)
    → o.is_managed ≡ false
    → new_commit_ts o t ≡ some (ts, clash, o', t')
    → IsBegun o o' ts clash
unfolding new_commit_ts pick_ts issue_ts record_commit
new_commit_ts-IsBegun o o' t t' ts clash m h =
    elim (Option-cases (cleanup_committed_transactions (done_read o t).0)) [
      | inl e ↦ record {
        managed = ground arith;
        begun = λ a b. ground arith;
        clashed = λ a. ground arith;
      }
      | inr (c, e) ↦
          let (a, b) = cleanup-txn_mark _ c e in
          let (p, q) = done_read-txn_mark o t in
          record {
            managed = ground arith;
            begun = λ x y. ground arith;
            clashed = λ x. ground arith;
          }
    ]

-- Nothing was begun in the watermark, or one timestamp that is done again.
abbrev pub IsSettled : WaterMark → WaterMark → Type 0
IsSettled w w' = (w' ≡ w) ⊎ ((ts : ℕ) × (w' ≡ WaterMark.done (WaterMark.begin w ts) ts))

-- Up to the write: an error leaves the watermark settled, else the timestamp is begun.
abbrev pub IsSent : WaterMark → Result ℕ → Oracle → Type 0
IsSent w (err x) o = IsSettled w o.txn_mark
IsSent w (ok ts) o = (o.txn_mark ≡ WaterMark.begin w ts) × (o.is_managed ≡ false)

pub Result-cases :
    {A : Type 0} (r : Result A) → ((a : A) × (r ≡ ok a)) ⊎ ((x : Error) × (r ≡ err x))
Result-cases (ok a) = inl (a, refl)
Result-cases (err x) = inr (x, refl)

pub done_commit-txn_mark :
    (o : Oracle) (ts : ℕ)
    → o.is_managed ≡ false
    → (done_commit o ts).txn_mark ≡ WaterMark.done o.txn_mark ts
unfolding done_commit
done_commit-txn_mark o ts m = ground arith

send_to_write_ch-oracle :
    (cfg : Config) (db db' : Db) (es : List Entry)
    → send_to_write_ch cfg db es ≡ ok db'
    → db'.oracle ≡ db.oracle
unfolding send_to_write_ch
send_to_write_ch-oracle cfg db db' es h = ground arith

module _ (cfg : Config) (db : Db) (t : Txn) (ts : ℕ) where
  abbrev pub sending : Result Db
  sending =
      send_to_write_ch cfg db (commit_entries ts (keep_together (all_entries t)) (all_entries t))

  pub accepted :
      (d : Db)
      → sending ≡ ok d
      → (ok ts, d, written ts (keep_together (all_entries t)) t) ≡ send_commit cfg db t ts
  unfolding send_commit
  accepted d q = ground arith

  pub rejected :
      (x : Error)
      → sending ≡ err x
      → (
        err x,
        record db { oracle = done_commit db.oracle ts },
        written ts (keep_together (all_entries t)) t,
      )
        ≡ send_commit cfg db t ts
  unfolding send_commit
  rejected x q = ground arith

  send_commit-IsSent :
      (w : WaterMark)
      → db.oracle.is_managed ≡ false
      → db.oracle.txn_mark ≡ WaterMark.begin w ts
      → IsSent w (send_commit cfg db t ts).0 (send_commit cfg db t ts).1.oracle
  send_commit-IsSent w m e = elim (Result-cases sending) [
    | inl (d, q) ↦
        let o = send_to_write_ch-oracle cfg db d _ q in
        subst (λ r. IsSent w r.0 r.1.oracle) (accepted d q)
          (ap (λ o. o.txn_mark) o ∙ e, ap (λ o. o.is_managed) o ∙ m)
    | inr (x, q) ↦
        subst (λ r. IsSent w r.0 r.1.oracle) (rejected x q)
          (inr (ts, done_commit-txn_mark db.oracle ts m ∙ ap (λ v. WaterMark.done v ts) e))
  ]

pub sent :
    (cfg : Config) (db db' : Db) (t t' u : Txn) (r : Result ℕ) (ts : ℕ) (o : Oracle)
    → new_commit_ts db.oracle t ≡ some (ts, false, o, u)
    → commit_and_send cfg db t ≡ some (r, db', t')
    → send_commit cfg (record db { oracle = o }) u ts ≡ (r, db', t')
unfolding commit_and_send
sent cfg db db' t t' u r ts o e h = ground arith

clashed :
    (cfg : Config) (db db' : Db) (t t' u : Txn) (r : Result ℕ) (ts : ℕ) (o : Oracle)
    → new_commit_ts db.oracle t ≡ some (ts, true, o, u)
    → commit_and_send cfg db t ≡ some (r, db', t')
    → (r ≡ err conflict) × (db'.oracle ≡ o)
unfolding commit_and_send
clashed cfg db db' t t' u r ts o e h = ground arith

pub commit_and_send-IsSent :
    (cfg : Config) (db db' : Db) (t t' : Txn) (r : Result ℕ)
    → db.oracle.is_managed ≡ false
    → commit_and_send cfg db t ≡ some (r, db', t')
    → IsSent db.oracle.txn_mark r db'.oracle
commit_and_send-IsSent cfg db db' t t' r m h = elim (Option-cases (new_commit_ts db.oracle t)) [
  | inl e ↦ absurd (unfold commit_and_send in ground arith)
  | inr ((ts, true, o, u), e) ↦
      let i = new_commit_ts-IsBegun db.oracle o t u ts true m e in
      let (a, b) = clashed cfg db db' t t' u r ts o e h in rw (a, b) (inl (i.clashed refl))
  | inr ((ts, false, o, u), e) ↦
      let i = new_commit_ts-IsBegun db.oracle o t u ts false m e in
      subst (λ x. IsSent db.oracle.txn_mark x.0 x.1.oracle) (sent cfg db db' t t' u r ts o e h)
        (send_commit-IsSent cfg (record db { oracle = o }) u ts db.oracle.txn_mark (i.managed ∙ m)
          (i.begun m refl))
]
