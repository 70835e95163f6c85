-- ===== src/Txn/Get.antt =====
-- What `Get` answers and what it remembers: txn.go.
use badgerx.Prelude.{
  ℕ, ◌≡◌, ◌⊎◌, inl, inr, Bool-cases, ◌≤◌, ◌<◌, refl, sym, ap, ◌∙◌, true, false, none, some, List,
  [], ◌∷◌, nat_eq, bytes_eq, arith, length, ◌==◌, has, has-append, bytes_equal_iff,
}
use mathlib.Core.Path.{subst}
use Prim.Native.Nat.{bit_and}
use badgerx.Entry.{Entry, set_threshold, is_deleted_or_expired}
use badgerx.Txn.{
  Result, ok, err, Item, key_not_found, Config, Txn, ValueStruct, modify, modify_error, store_entry,
  track_write, own_write, is_banned, get, add_read_key, cached_item,
}
use badgerx.Txn.Modify.{stored, own_write-modify, modify-IsModified}

-- What `Get` may look up: a key that is not empty nor banned, in a transaction still open.
pub record IsReadable (db : Config) (t : Txn) (key : List ℕ) : Type 0 where
  pub named : (length key == 0) ≡ false
  pub open_txn : t.discarded ≡ false
  pub allowed : is_banned db key ≡ false

allowed-IsReadable :
    (db : Config) (t : Txn) (e : Entry) → modify_error db t e ≡ none → IsReadable db t e.key
unfolding modify_error
allowed-IsReadable db t e h = record {
  named = ground arith;
  open_txn = ground arith;
  allowed = ground arith;
}

modify-discarded :
    (mem_hash : List ℕ → ℕ) (db : Config) (t t' : Txn) (e : Entry)
    → modify mem_hash db t e ≡ ok t'
    → t'.discarded ≡ t.discarded
modify-discarded mem_hash db t t' e h =
    let (n, eq, lt) = (modify-IsModified mem_hash db t e t' h).sized in
    unfold store_entry track_write in ground arith

modify-IsReadable :
    (mem_hash : List ℕ → ℕ) (db : Config) (t t' : Txn) (e : Entry)
    → modify mem_hash db t e ≡ ok t'
    → IsReadable db t' e.key
modify-IsReadable mem_hash db t t' e h =
    let r = allowed-IsReadable db t e (modify-IsModified mem_hash db t e t' h).allowed in
    record {
      named = r.named;
      open_txn = modify-discarded mem_hash db t t' e h ∙ r.open_txn;
      allowed = r.allowed;
    }

-- Deleted, or with an expiry that is set and not after now.
abbrev pub IsGone : ℕ → Entry → Type 0
IsGone now e = (0 < bit_and e.meta 1) ⊎ ((0 < e.expires_at) × (e.expires_at ≤ now))

-- Not deleted, and without an expiry or with one after now.
abbrev pub IsLive : ℕ → Entry → Type 0
IsLive now e = (bit_and e.meta 1 ≡ 0) × ((e.expires_at ≡ 0) ⊎ (now < e.expires_at))

-- The item has the key, the version and what the entry holds.
pub record IsItem (k : List ℕ) (ts : ℕ) (e : Entry) (i : Item) : Type 0 where
  pub key : i.key ≡ k
  pub version : i.version ≡ ts
  pub value : i.value ≡ e.value
  pub meta : i.meta ≡ e.meta
  pub user_meta : i.user_meta ≡ e.user_meta
  pub expires_at : i.expires_at ≡ e.expires_at

-- An answer from an entry: not found where it is gone, else its item.
abbrev pub Answers : ℕ → List ℕ → ℕ → Entry → Result Item → Type 0
Answers now key version e (err x) = (x ≡ key_not_found) × IsGone now e
Answers now key version e (ok i) = IsLive now e × IsItem key version e i

cached_item-Answers :
    (now : ℕ) (t : Txn) (key : List ℕ) (e : Entry)
    → Answers now key t.read_ts e (cached_item now t key e)
cached_item-Answers now t key e =
    elim (Bool-cases (is_deleted_or_expired now e.meta e.expires_at)) [
      | inl x ↦ rw x (refl, unfold is_deleted_or_expired in ground arith)
      | inr x ↦ rw x (
        unfold is_deleted_or_expired in ground arith,
        record {
          key = refl;
          version = refl;
          value = refl;
          meta = refl;
          user_meta = refl;
          expires_at = refl;
        },
      )
    ]

modify-read_ts :
    (mem_hash : List ℕ → ℕ) (db : Config) (t t' : Txn) (e : Entry)
    → modify mem_hash db t e ≡ ok t'
    → t'.read_ts ≡ t.read_ts
modify-read_ts mem_hash db t t' e h =
    let (n, eq, lt) = (modify-IsModified mem_hash db t e t' h).sized in
    unfold store_entry track_write in ground arith

stored-Answers :
    (now : ℕ) (db : Config) (key : List ℕ) (version : ℕ) (e : Entry) (r : Result Item)
    → Answers now key version (stored db e) r
    → Answers now key version e r
unfolding set_threshold
stored-Answers now db key version e (err x) (a, b) = (a, ground (arith, b))
stored-Answers now db key version e (ok i) (a, b) = (
  ground (arith, a),
  ground (arith, b.key, b.version, b.value, b.meta, b.user_meta, b.expires_at),
)

module _ (mem_hash : List ℕ → ℕ) (lsm_get : List ℕ → Result ValueStruct) (now : ℕ) where
  get-own_write :
      (db : Config) (t : Txn) (key : List ℕ) (e : Entry)
      → IsReadable db t key
      → own_write t key ≡ some e
      → get mem_hash lsm_get now db t key ≡ (cached_item now t key e, t)
  unfolding get
  get-own_write db t key e r o = ground (arith, r.named, r.open_txn, r.allowed)

  -- A transaction reads its own write: after a successful `modify` a `Get` of the key leaves the
  -- transaction as it is, so that it records no read, and answers that the key is not found exactly
  -- where the entry set has the deletion bit or an expiry that is not after now, and otherwise with
  -- the key, the transaction's read timestamp and the entry's value, flags and expiry.
  pub get-modify :
      (db : Config) (t t' : Txn) (e : Entry)
      → modify mem_hash db t e ≡ ok t'
      → Answers now e.key t.read_ts e (get mem_hash lsm_get now db t' e.key).0
        × ((get mem_hash lsm_get now db t' e.key).1 ≡ t')
  get-modify db t t' e h =
      let at = get-own_write db t' e.key (stored db e) (modify-IsReadable mem_hash db t t' e h) (
        own_write-modify mem_hash db t t' e e.key h
        ∙ ground (arith, bytes_equal_iff e.key e.key)) in
      (
        stored-Answers now db e.key t.read_ts e _ (
            subst (λ v. Answers now e.key v (stored db e) (get mem_hash lsm_get now db t' e.key).0)
              (modify-read_ts mem_hash db t t' e h)
              (subst (λ p. Answers now e.key t'.read_ts (stored db e) p.0) (sym at)
                (cached_item-Answers now t' e.key (stored db e)))),
        ap (λ p. p.1) at,
      )

  -- A `Get` of an update transaction that is not discarded, of a key that is not empty nor banned and
  -- that no own write answers, leaves the key's fingerprint among the reads, whatever the tree
  -- returns.
  pub get-tracks :
      (db : Config) (t : Txn) (key : List ℕ)
      → IsReadable db t key
      → t.update ≡ true
      → own_write t key ≡ none
      → has (mem_hash key) (get mem_hash lsm_get now db t key).1.reads ≡ true
  unfolding get add_read_key
  get-tracks db t key r u o =
      ground (
        arith,
        r.named,
        r.open_txn,
        r.allowed,
        has-append (mem_hash key) t.reads (mem_hash key ∷ []),
      )
