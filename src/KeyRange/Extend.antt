-- ===== src/KeyRange/Extend.antt =====
-- What `extend` and `getKeyRange` cover: compaction.go.
use badgerx.Prelude.{
  ℕ, ◌≡◌, ◌⊎◌, inl, inr, true, false, List, [], ◌∷◌, arith, if◌then◌else◌, Bool-cases, length, All,
  ◌<◌, ◌≤◌, ◌-◌, ◌≢◌, refl, take, ltb, Ordering,
}
use badgerx.Keys.{key_with_ts, parse_key, max_uint64, bytes_compare, compare_keys}
use badgerx.Keys.Order.{
  KeyLe, KeyLe-trans, KeyLe-refl, compare_keys-flip, compare_keys_refl, compare_keys-key_with_ts,
  bytes_le_trans,
}
use badgerx.Keys.RoundTrip.{parse_key-key_with_ts}
use badgerx.KeyRange.{
  KeyRange, Table, is_empty, extend, min_smallest, max_biggest, get_key_range, key_lt, key_gt,
}

-- A range with both ends, that is neither empty nor half-open.
pub record HasEnds (r : KeyRange) : Type 0 where
  pub from : 0 < length r.left
  pub to : 0 < length r.right

-- The first range lies within the second.
abbrev pub Within : KeyRange → KeyRange → Type 0
Within r u = (u.inf ≡ true) ⊎ ((r.inf ≡ false) × KeyLe u.left r.left × KeyLe r.right u.right)

-- Of two ranges with both ends, `extend` makes the least range around them: both lie within it, and
-- it lies within every range that both lie within.
pub extend_least :
    (r kr u : KeyRange)
    → HasEnds r
    → HasEnds kr
    → Within r u
    → Within kr u
    → Within r (extend r kr) × Within kr (extend r kr) × Within (extend r kr) u
unfolding extend is_empty
extend_least r kr u h j w v = (
  ground (
    arith,
    h.from,
    h.to,
    j.from,
    j.to,
    KeyLe-refl r.left,
    KeyLe-refl r.right,
    compare_keys-flip kr.left r.left,
    compare_keys-flip kr.right r.right,
  ),
  ground (
    arith,
    h.from,
    h.to,
    j.from,
    j.to,
    KeyLe-refl kr.left,
    KeyLe-refl kr.right,
    compare_keys-flip kr.left r.left,
    compare_keys-flip kr.right r.right,
  ),
  ground (arith, h.from, h.to, j.from, j.to),
)

-- The first range that an empty one is extended by is taken as it is.
extend_empty : (r kr : KeyRange) → is_empty r ≡ true → HasEnds kr → extend r kr ≡ kr
unfolding extend is_empty
extend_empty r kr h j =
    ground (arith, j.from, j.to, compare_keys_refl kr.left, compare_keys_refl kr.right)

-- A key with a timestamp behind it.
pub record IsVersioned (k : List ℕ) : Type 0 where
  pub user : List ℕ
  pub ts : ℕ
  pub bound : ts ≤ max_uint64
  pub packed : k ≡ key_with_ts user ts

-- Both ends of a table are versioned keys.
pub record IsKeyed (t : Table) : Type 0 where
  pub low : IsVersioned t.smallest
  pub high : IsVersioned t.biggest

abbrev smaller : Table → List ℕ → List ℕ
smaller t s = if key_lt t.smallest s then t.smallest else s

smaller_le : (t : Table) (s : List ℕ) → KeyLe (smaller t s) s × KeyLe (smaller t s) t.smallest
smaller_le t s = ground (arith, compare_keys-flip t.smallest s, KeyLe-refl s, KeyLe-refl t.smallest)

min_smallest_le :
    (s : List ℕ) (ts : List Table)
    → KeyLe (min_smallest s ts) s × All (λ t. KeyLe (min_smallest s ts) t.smallest) ts
unfolding min_smallest
min_smallest_le s [] = (KeyLe-refl s, tt)
min_smallest_le s (t ∷ ts) =
    let (a, lows) = min_smallest_le (smaller t s) ts in
    let (x, y) = smaller_le t s in
    (KeyLe-trans _ (smaller t s) _ a x, (KeyLe-trans _ (smaller t s) _ a y, lows))

abbrev larger : Table → List ℕ → List ℕ
larger t s = if key_gt t.biggest s then t.biggest else s

larger_le : (t : Table) (s : List ℕ) → KeyLe s (larger t s) × KeyLe t.biggest (larger t s)
larger_le t s = ground (arith, compare_keys-flip t.biggest s, KeyLe-refl s, KeyLe-refl t.biggest)

max_biggest_le :
    (s : List ℕ) (ts : List Table)
    → KeyLe s (max_biggest s ts) × All (λ t. KeyLe t.biggest (max_biggest s ts)) ts
unfolding max_biggest
max_biggest_le s [] = (KeyLe-refl s, tt)
max_biggest_le s (t ∷ ts) =
    let (a, highs) = max_biggest_le (larger t s) ts in
    let (x, y) = larger_le t s in
    (KeyLe-trans _ (larger t s) _ x a, (KeyLe-trans _ (larger t s) _ y a, highs))

-- The versioned key has a user key between those of the table's ends.
pub record IsSpanned (t : Table) (k : List ℕ) : Type 0 where
  pub versioned : IsVersioned k
  pub from : bytes_compare (parse_key t.smallest) (parse_key k) ≢ Ordering.gt
  pub to : bytes_compare (parse_key k) (parse_key t.biggest) ≢ Ordering.gt

-- Every version of every key that the table spans lies in the range.
abbrev pub Covers : KeyRange → Table → Type 0
Covers r t = (k : List ℕ) → IsSpanned t k → KeyLe r.left k × KeyLe k r.right

-- A newest version comes before all keys whose user key is not less, an oldest after those whose
-- user key is not greater.
newest_first :
    (s k : List ℕ)
    → IsVersioned k
    → bytes_compare (parse_key s) (parse_key k) ≢ Ordering.gt
    → KeyLe (key_with_ts (parse_key s) max_uint64) k
newest_first s k v h = rw v.packed (
    ground (
      arith,
      v.bound,
      v.packed,
      h,
      parse_key-key_with_ts v.user v.ts,
      compare_keys-key_with_ts (parse_key s) v.user max_uint64 v.ts (omega arith) v.bound,
    ))

oldest_last :
    (s k : List ℕ)
    → IsVersioned k
    → bytes_compare (parse_key k) (parse_key s) ≢ Ordering.gt
    → KeyLe k (key_with_ts (parse_key s) 0)
oldest_last s k v h = rw v.packed (
    ground (
      arith,
      v.bound,
      v.packed,
      h,
      parse_key-key_with_ts v.user v.ts,
      compare_keys-key_with_ts v.user (parse_key s) v.ts 0 v.bound (omega arith),
    ))

take_zero : (k : List ℕ) → take 0 k ≡ []
take_zero [] = refl
take_zero (b ∷ k) = refl

user_part : (k : List ℕ) → take (length k - 8) k ≡ parse_key k
unfolding parse_key
user_part k = elim (Bool-cases (ltb (length k) 8)) [
  | inl e ↦ let short : length k - 8 ≡ 0 = ground arith in rw (e, short) (take_zero k)
  | inr e ↦ rw e refl
]

-- Keys in order have their user keys in order.
KeyLe-parse_key :
    (a b : List ℕ) → KeyLe a b → bytes_compare (parse_key a) (parse_key b) ≢ Ordering.gt
unfolding compare_keys
KeyLe-parse_key a b h = rw (← user_part a, ← user_part b) (ground (arith, h))

cover-All :
    (a b : List ℕ) (ts : List Table) (n : ℕ)
    → All (λ t. KeyLe a t.smallest) ts
    → All (λ t. KeyLe t.biggest b) ts
    → All
        (Covers (record {
          left = key_with_ts (parse_key a) max_uint64;
          right = key_with_ts (parse_key b) 0;
          inf = false;
          size = n;
        }))
        ts
cover-All a b [] n lows highs = tt
cover-All a b (t ∷ ts) n (x, lows) (y, highs) = (
  λ k v. (
    newest_first a k v.versioned
        (bytes_le_trans _ (parse_key t.smallest) _ (KeyLe-parse_key a t.smallest x) v.from),
    oldest_last b k v.versioned
        (bytes_le_trans _ (parse_key t.biggest) _ v.to (KeyLe-parse_key t.biggest b y)),
  ),
  cover-All a b ts n lows highs,
)

-- The range of a list of tables with versioned ends covers every version of every key whose user
-- key lies between those of the ends of one of the tables, both ends included.
pub get_key_range-Covers : (ts : List Table) → All IsKeyed ts → All (Covers (get_key_range ts)) ts
unfolding get_key_range
get_key_range-Covers [] h = tt
get_key_range-Covers (t ∷ ts) h =
    let (a, lows) = min_smallest_le t.smallest ts in
    let (b, highs) = max_biggest_le t.biggest ts in cover-All _ _ (t ∷ ts) 0 (a, lows) (b, highs)
