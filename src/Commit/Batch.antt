-- ===== src/Commit/Batch.antt =====
-- What a commit sends to the write channel: `commitAndSend` of txn.go and `sendToWriteCh` of db.go.
use badgerx.Prelude.{
  ℕ, zero, suc, ◌+◌, ◌-◌, ◌*◌, ◌/◌, ltb, Bool-cases, ◌<◌, ◌^◌, ◌≡◌, refl, ap, ◌∙◌, Bool, true,
  false, some, List, [], ◌∷◌, ◌++◌, nat_eq, arith, length, Option-cases, inl, inr, All,
}
use mathlib.Core.Path.{subst}
use Prim.Native.Nat.{bit_or}
use badgerx.Keys.{key_with_ts, parse_ts}
use badgerx.Keys.RoundTrip.{parse-key_with_ts}
use badgerx.Entry.{Entry, new_entry, set_threshold, estimate_size_and_set_threshold}
use badgerx.Txn.{txn_key, Txn, Config, Error, ok, err}
use badgerx.Oracle.{Oracle, new_commit_ts, done_read, pick_ts, issue_ts}
use badgerx.Commit.Outcome.{Result-cases, sending, sent, accepted, rejected}
use badgerx.Commit.{
  Db, all_entries, keep_together, commit_entries, send_to_write_ch, send_commit, commit_and_send,
  estimate_all, set_version, process_entry, fin_entry, format_uint,
}

-- The oracle does not touch the writes.
new_commit_ts-all_entries :
    (o o' : Oracle) (t t' : Txn) (ts : ℕ) (clash : Bool)
    → new_commit_ts o t ≡ some (ts, clash, o', t')
    → all_entries t' ≡ all_entries t
unfolding new_commit_ts pick_ts issue_ts done_read
new_commit_ts-all_entries o o' t t' ts clash h = ground arith

-- What one entry of the transaction is sent as: its key gets the timestamp and its flags the bit of a
-- transaction, 64, and the rest is its own.
pub record IsWritten (ts : ℕ) (e sent : Entry) : Type 0 where
  pub key : sent.key ≡ key_with_ts e.key ts
  pub value : sent.value ≡ e.value
  pub meta : sent.meta ≡ bit_or e.meta 64
  pub user_meta : sent.user_meta ≡ e.user_meta
  pub expires_at : sent.expires_at ≡ e.expires_at

-- The number that decimal digits write, after `n`.
abbrev pub decimal : List ℕ → ℕ → ℕ
decimal [] n = n
decimal (c ∷ cs) n = decimal cs (n * 10 + (c - b'0'))

-- The end marker of a transaction: its key with the timestamp, the flag 128, and the timestamp in
-- decimal as its value.
pub record IsMarker (ts : ℕ) (sent : Entry) : Type 0 where
  pub key : sent.key ≡ key_with_ts txn_key ts
  pub meta : sent.meta ≡ 128
  pub value : decimal sent.value 0 ≡ ts

-- The entries of a transaction as they are sent, one by one in their order, and the end marker.
pub data IsSent (ts : ℕ) : List Entry → List Entry → Type 0 where
  marker : (m : Entry) → IsMarker ts m → IsSent ts [] (m ∷ [])
  entry :
      {es rs : List Entry} (e r : Entry)
      → IsWritten ts e r
      → IsSent ts es rs
      → IsSent ts (e ∷ es) (r ∷ rs)

written :
    (ts n : ℕ) (e : Entry)
    → e.version ≡ 0
    → IsWritten ts e (set_threshold (process_entry true (set_version ts e)) n)
unfolding set_threshold process_entry set_version
written ts n e v = ground arith

decimal-append :
    (cs : List ℕ) (c n : ℕ) → decimal (cs ++ (c ∷ [])) n ≡ decimal cs n * 10 + (c - b'0')
decimal-append [] c n = refl
decimal-append (d ∷ cs) c n = decimal-append cs c (n * 10 + (d - b'0'))

decimal-format_uint : (digits n : ℕ) → n < 10 ^ digits → decimal (format_uint digits n) 0 ≡ n
unfolding format_uint
decimal-format_uint zero n b = omega arith
decimal-format_uint (suc digits) n b = elim (Bool-cases (ltb n 10)) [
  | inl e ↦ rw e (omega arith)
  | inr e ↦ rw (e, decimal-append, decimal-format_uint digits (n / 10) (omega arith)) (omega arith)
]

fin_entry-IsMarker : (ts n : ℕ) → ts < 2 ^ 64 → IsMarker ts (set_threshold (fin_entry ts) n)
unfolding fin_entry new_entry set_threshold
fin_entry-IsMarker ts n b = record {
  key = refl;
  meta = refl;
  value = decimal-format_uint 20 ts (omega arith);
}

estimate_all-IsSent :
    (ts threshold : ℕ) (es : List Entry)
    → ts < 2 ^ 64
    → keep_together es ≡ true
    → IsSent ts es (estimate_all threshold (commit_entries ts true es)).1
unfolding estimate_all estimate_size_and_set_threshold keep_together commit_entries
estimate_all-IsSent ts threshold [] b k = IsSent.marker _ (fin_entry-IsMarker ts threshold b)
estimate_all-IsSent ts threshold (e ∷ es) b k =
    IsSent.entry e _ (written ts threshold e (ground arith))
      (estimate_all-IsSent ts threshold es b (ground arith))

IsSent-dated :
    {ts : ℕ} {es rs : List Entry}
    → ts < 2 ^ 64
    → IsSent ts es rs
    → All (λ e. 0 < length e.key) es
    → All (λ e. parse_ts e.key ≡ ts) rs
IsSent-dated {ts = ts} b (IsSent.marker m w) h =
    (ap parse_ts w.key ∙ (parse-key_with_ts txn_key ts (omega arith) (omega arith)).1, tt)
IsSent-dated {ts = ts} b (IsSent.entry e r w s) (h, hs) =
    (ap parse_ts w.key ∙ (parse-key_with_ts e.key ts h (omega arith)).1, IsSent-dated b s hs)

-- The request that an accepted commit sends.
pub record IsBatch (cfg : Config) (db db' : Db) (t : Txn) (ts : ℕ) : Type 0 where
  pub request : List Entry
  pub only : db'.write_ch ≡ db.write_ch ++ (request ∷ [])
  pub content : IsSent ts (all_entries t) request
  pub dated : All (λ e. parse_ts e.key ≡ ts) request
  pub small : length request < cfg.max_batch_count

length-estimate_all :
    (threshold : ℕ) (es : List Entry) → length (estimate_all threshold es).1 ≡ length es
unfolding estimate_all estimate_size_and_set_threshold
length-estimate_all threshold [] = refl
length-estimate_all threshold (e ∷ es) = ap suc (length-estimate_all threshold es)

send-IsBatch :
    (cfg : Config) (db db' : Db) (t : Txn) (ts : ℕ)
    → ts < 2 ^ 64
    → All (λ e. 0 < length e.key) (all_entries t)
    → keep_together (all_entries t) ≡ true
    → send_to_write_ch cfg db (commit_entries ts true (all_entries t)) ≡ ok db'
    → IsBatch cfg db db' t ts
unfolding send_to_write_ch
send-IsBatch cfg db db' t ts b n k h =
    let c = estimate_all-IsSent ts cfg.value_threshold (all_entries t) b k in
    record {
      request = (estimate_all cfg.value_threshold (commit_entries ts true (all_entries t))).1;
      only = ground arith;
      content = c;
      dated = IsSent-dated b c n;
      small =
          ground (
            arith,
            length-estimate_all cfg.value_threshold (commit_entries ts true (all_entries t)),
          );
    }

-- What an accepted commit was sent as.
record IsAccepted (cfg : Config) (db db' : Db) (t : Txn) (ts : ℕ) : Type 0 where
  pub oracle : Oracle
  pub txn : Txn
  pub issued : new_commit_ts db.oracle t ≡ some (ts, false, oracle, txn)
  pub sends : sending cfg (record db { oracle = oracle }) txn ts ≡ ok db'

commit_and_send-IsAccepted :
    (cfg : Config) (db db' : Db) (t t' : Txn) (ts : ℕ)
    → commit_and_send cfg db t ≡ some (ok ts, db', t')
    → IsAccepted cfg db db' t ts
commit_and_send-IsAccepted cfg db db' t t' ts h = elim (Option-cases (new_commit_ts db.oracle t)) [
  | inl e ↦ absurd (unfold commit_and_send in ground arith)
  | inr ((n, true, o, u), e) ↦ absurd (unfold commit_and_send in ground arith)
  | inr ((n, false, o, u), e) ↦
      let s = sent cfg db db' t t' u (ok ts) n o e h in
      elim (Result-cases (sending cfg (record db { oracle = o }) u n)) [
        | inl (d, q) ↦
            let p = accepted cfg (record db { oracle = o }) u n d q ∙ s in
            let same : n ≡ ts = ground arith in
            let there : d ≡ db' = ground arith in
            record { oracle = o; txn = u; issued = rw (← same) e; sends = rw (← same, ← there) q }
        | inr (x, q) ↦
            let p = rejected cfg (record db { oracle = o }) u n x q ∙ s in absurd (ground arith)
      ]
]

-- An accepted commit of entries without versions of their own sends exactly one request: every
-- pending and duplicate write in its order, with the commit's timestamp in its key, the transaction
-- bit set and its value, user flags and expiry as they were, and then the end marker, whose value is
-- the timestamp in decimal; all keys parse to the timestamp and the count is below the batch limit.
-- The keys are not empty and the timestamp is a uint64.
pub commit_and_send-IsBatch :
    (cfg : Config) (db db' : Db) (t t' : Txn) (ts : ℕ)
    → ts < 2 ^ 64
    → All (λ e. 0 < length e.key) (all_entries t)
    → keep_together (all_entries t) ≡ true
    → commit_and_send cfg db t ≡ some (ok ts, db', t')
    → IsBatch cfg db db' t ts
commit_and_send-IsBatch cfg db db' t t' ts b n k h =
    let a = commit_and_send-IsAccepted cfg db db' t t' ts h in
    let same = new_commit_ts-all_entries db.oracle a.oracle t a.txn ts false a.issued in
    let i =
      send-IsBatch cfg (record db { oracle = a.oracle }) db' a.txn ts b (rw same n) (rw same k)
        (subst
          (λ together.
            send_to_write_ch cfg (record db { oracle = a.oracle })
              (commit_entries ts together (all_entries a.txn))
            ≡ ok db')
          (ap keep_together same ∙ k) a.sends) in
    record {
      request = i.request;
      only = i.only;
      content = subst (λ es. IsSent ts es i.request) same i.content;
      dated = i.dated;
      small = i.small;
    }

send_commit-write_ch :
    (cfg : Config) (db : Db) (t : Txn) (ts : ℕ) (x : Error) (db' : Db) (t' : Txn)
    → send_commit cfg db t ts ≡ (err x, db', t')
    → db'.write_ch ≡ db.write_ch
unfolding send_commit
send_commit-write_ch cfg db t ts x db' t' h = ground arith

-- A commit that is refused sends nothing.
pub commit_and_send-write_ch :
    (cfg : Config) (db db' : Db) (t t' : Txn) (x : Error)
    → commit_and_send cfg db t ≡ some (err x, db', t')
    → db'.write_ch ≡ db.write_ch
commit_and_send-write_ch cfg db db' t t' x h = elim (Option-cases (new_commit_ts db.oracle t)) [
  | inl e ↦ absurd (unfold commit_and_send in ground arith)
  | inr ((n, true, o, u), e) ↦ unfold commit_and_send in ground arith
  | inr ((n, false, o, u), e) ↦
      send_commit-write_ch cfg (record db { oracle = o }) u n x db' t'
        (sent cfg db db' t t' u (err x) n o e h)
]
