-- ===== src/Oracle/Cleanup.antt =====
-- What the cleanup forgets: `cleanupCommittedTransactions` of txn.go.
use badgerx.Prelude.{ℕ, ◌≤◌, ◌<◌, ◌≡◌, refl, List, [], ◌∷◌, ◌++◌, arith}
use badgerx.Oracle.{CommittedTxn, any_conflict, keep_above}

-- Forgetting the transactions up to a timestamp changes no conflict of a transaction that read at
-- that timestamp or later.
pub any_conflict-keep_above :
    (l ts : ℕ) (reads : List ℕ) (cs : List CommittedTxn)
    → l ≤ ts
    → any_conflict ts reads (keep_above l cs) ≡ any_conflict ts reads cs
unfolding any_conflict keep_above
any_conflict-keep_above l ts reads [] h = refl
any_conflict-keep_above l ts reads (c ∷ cs) h =
    ground (arith, any_conflict-keep_above l ts reads cs h)

pub keep_above_twice :
    (l m : ℕ) (cs : List CommittedTxn) → l ≤ m → keep_above m (keep_above l cs) ≡ keep_above m cs
unfolding keep_above
keep_above_twice l m [] h = refl
keep_above_twice l m (c ∷ cs) h = ground (arith, keep_above_twice l m cs h)

pub keep_above-snoc :
    (l : ℕ) (cs : List CommittedTxn) (c : CommittedTxn)
    → l < c.ts
    → keep_above l (cs ++ (c ∷ [])) ≡ keep_above l cs ++ (c ∷ [])
unfolding keep_above
keep_above-snoc l [] c h = ground arith
keep_above-snoc l (x ∷ cs) c h = ground (arith, keep_above-snoc l cs c h)
