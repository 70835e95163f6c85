-- ===== src/Subcompact/Reads.antt =====
-- What a reader sees of a list of versions, the newest first: the view that compactions keep.
use badgerx.Prelude.{
  ℕ, ◌-◌, ◌<◌, ◌≡◌, ◌≢◌, refl, ap, Ordering, ◌&&◌, false, Option, none, some, List, [], ◌∷◌, length,
  length-take, leb, arith, All, bytes_equal, bytes_equal_iff, if◌then◌else◌,
}
use badgerx.Keys.{parse_key, parse_ts, same_key, bytes_compare}
use badgerx.Keys.Order.{bytes_compare_eq, bytes_compare_trans, bytes_compare_refl}
use badgerx.Entry.{is_deleted_or_expired}
use badgerx.Txn.{ValueStruct}
use badgerx.Subcompact.{Cell}

-- The newest version of a user key, up to a timestamp.
unfoldable pub read : ℕ → List ℕ → List Cell → Option ValueStruct
read ts k [] = none
read ts k (c ∷ cs) =
    let rest = read ts k cs in
    if bytes_equal (parse_key c.key) k && leb (parse_ts c.key) ts then some c.vs else rest

-- A version that is deleted or has expired reads as nothing.
abbrev pub visible : ℕ → Option ValueStruct → Option ValueStruct
visible now none = none
visible now (some vs) = if is_deleted_or_expired now vs.meta vs.expires_at then none else some vs

-- A key with a timestamp.
abbrev pub IsStored : Cell → Type 0
IsStored c = 8 < length c.key

-- No user key below it.
abbrev pub Follow : List ℕ → List Cell → Type 0
Follow k cs = All (λ d. bytes_compare k (parse_key d.key) ≢ Ordering.gt) cs

-- Sorted by user key, as merged iterators are.
abbrev pub IsGrouped : List Cell → Type 0
IsGrouped [] = Unit
IsGrouped (c ∷ cs) = Follow (parse_key c.key) cs × IsGrouped cs

pub length-parse_key : (a : List ℕ) → 8 < length a → length (parse_key a) ≡ length a - 8
unfolding parse_key
length-parse_key a h = ground (arith, length-take (length a - 8) a (omega arith))

-- On keys with a timestamp, SameKey compares the user keys.
pub same_key-parse_key :
    (a b : List ℕ)
    → 8 < length a
    → 8 < length b
    → same_key a b ≡ bytes_equal (parse_key a) (parse_key b)
unfolding same_key
same_key-parse_key a b h k = ground (
  arith,
  length-parse_key a h,
  length-parse_key b k,
  bytes_equal_iff (parse_key a) (parse_key b),
  ap (length {A = ℕ}) {x = parse_key a} {y = parse_key b},
)

read-none :
    (ts : ℕ) (k : List ℕ) (cs : List Cell)
    → All (λ d. bytes_compare k (parse_key d.key) ≡ Ordering.lt) cs
    → read ts k cs ≡ none
unfolding read
read-none ts k [] h = refl
read-none ts k (c ∷ cs) (h, hs) = ground (
  arith,
  bytes_equal_iff (parse_key c.key) k,
  bytes_compare_refl k,
  ap (bytes_compare k) {x = parse_key c.key} {y = k},
  read-none ts k cs hs,
)

below-Follow :
    (k u : List ℕ) (cs : List Cell)
    → bytes_compare k u ≡ Ordering.lt
    → Follow u cs
    → All (λ d. bytes_compare k (parse_key d.key) ≡ Ordering.lt) cs
below-Follow k u [] lt f = tt
below-Follow k u (c ∷ cs) lt (f, fs) = (
  ground (
    arith,
    bytes_compare_trans k u (parse_key c.key),
    bytes_compare_eq u (parse_key c.key),
    ap (bytes_compare k) {x = u} {y = parse_key c.key},
  ),
  below-Follow k u cs lt fs,
)

-- Behind a cell of another user key there is no version of the one before.
pub read-passed :
    (ts : ℕ) (k : List ℕ) (c : Cell) (cs : List Cell)
    → Follow k (c ∷ cs)
    → IsGrouped (c ∷ cs)
    → bytes_equal (parse_key c.key) k ≡ false
    → read ts k (c ∷ cs) ≡ none
read-passed ts k c cs (f, fs) (g, gs) ne =
    let lt : bytes_compare k (parse_key c.key) ≡ Ordering.lt =
      ground (arith, bytes_compare_eq k (parse_key c.key), bytes_equal_iff (parse_key c.key) k) in
    read-none ts k (c ∷ cs) (lt, below-Follow k (parse_key c.key) cs lt g)
