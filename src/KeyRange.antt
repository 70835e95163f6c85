-- ===== src/KeyRange.antt =====
-- Key ranges of compactions: `keyRange` and `getKeyRange` of compaction.go. A table is known here
-- by the fields that compactions read: its id, its smallest and biggest versioned key, its size and
-- how much of it is stale.
pub mod Overlap
pub mod Extend
use badgerx.Prelude.{
  ℕ, ◌≡◌, ◌⊎◌, Bool, true, false, not, ◌&&◌, ◌||◌, Ordering, List, [], ◌∷◌, length, ◌==◌,
  bytes_equal, if◌then◌else◌,
}
use badgerx.Keys.{compare_keys, key_with_ts, parse_key, max_uint64}
use badgerx.Keys.Order.{KeyLe}

pub record Table : Type 0 where
  pub id : ℕ
  pub smallest : List ℕ
  pub biggest : List ℕ
  pub size : ℕ
  pub stale : ℕ

pub record KeyRange : Type 0 where
  pub left : List ℕ
  pub right : List ℕ
  pub inf : Bool
  pub size : ℕ

abbrev pub empty_range : KeyRange
empty_range = record { left = []; right = []; inf = false; size = 0 }

abbrev pub inf_range : KeyRange
inf_range = record { left = []; right = []; inf = true; size = 0 }

unfoldable pub is_empty : KeyRange → Bool
is_empty r = length r.left == 0 && length r.right == 0 && not r.inf

unfoldable pub equals : KeyRange → KeyRange → Bool
equals r dst =
    bytes_equal r.left dst.left
    && bytes_equal r.right dst.right
    && (if r.inf then dst.inf else not dst.inf)

-- `y.CompareKeys(a, b) < 0` and `> 0`
abbrev pub key_lt : List ℕ → List ℕ → Bool
key_lt a b = elim (compare_keys a b) [ Ordering.lt ↦ true | _ ↦ false ]

abbrev pub key_gt : List ℕ → List ℕ → Bool
key_gt a b = elim (compare_keys a b) [ Ordering.gt ↦ true | _ ↦ false ]

-- The assignments of `extend`, one after the other.
abbrev extend_whole : KeyRange → KeyRange → KeyRange
extend_whole r kr = if is_empty r then kr else r

abbrev extend_left : KeyRange → KeyRange → KeyRange
extend_left r kr =
    if length r.left == 0 || key_lt kr.left r.left then record r { left = kr.left } else r

abbrev extend_right : KeyRange → KeyRange → KeyRange
extend_right r kr =
    if length r.right == 0 || key_gt kr.right r.right then record r { right = kr.right } else r

abbrev extend_inf : KeyRange → KeyRange → KeyRange
extend_inf r kr = if kr.inf then record r { inf = true } else r

unfoldable pub extend : KeyRange → KeyRange → KeyRange
extend r kr =
    if is_empty kr then r else extend_inf (extend_right (extend_left (extend_whole r kr) kr) kr) kr

unfoldable pub overlaps_with : KeyRange → KeyRange → Bool
overlaps_with r dst =
    if is_empty r
    then true
    else if is_empty dst
    then false
    else if r.inf || dst.inf
    then true
    else if key_gt r.left dst.right
    then false
    else if key_lt r.right dst.left
    then false
    else true

-- The loop of `getKeyRange` over `tables[1:]`.
unfoldable pub min_smallest : List ℕ → List Table → List ℕ
min_smallest smallest [] = smallest
min_smallest smallest (t ∷ ts) =
    min_smallest (if key_lt t.smallest smallest then t.smallest else smallest) ts

unfoldable pub max_biggest : List ℕ → List Table → List ℕ
max_biggest biggest [] = biggest
max_biggest biggest (t ∷ ts) =
    max_biggest (if key_gt t.biggest biggest then t.biggest else biggest) ts

unfoldable pub get_key_range : List Table → KeyRange
get_key_range [] = empty_range
get_key_range (t ∷ ts) = record {
  left = key_with_ts (parse_key (min_smallest t.smallest ts)) max_uint64;
  right = key_with_ts (parse_key (max_biggest t.biggest ts)) 0;
  inf = false;
  size = 0;
}

-- The versioned key lies in the range.
abbrev pub Contains : KeyRange → List ℕ → Type 0
Contains r k = (r.inf ≡ true) ⊎ (KeyLe r.left k × KeyLe k r.right)

-- A range that holds a key: not the empty one, and its ends in order.
pub record IsProper (r : KeyRange) : Type 0 where
  pub present : is_empty r ≡ false
  pub ordered : KeyLe r.left r.right
