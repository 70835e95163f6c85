-- ===== src/Examples/Versions.antt =====
-- Versioned keys and key ranges at concrete inputs: y/y.go, compaction.go.
use badgerx.Prelude.{
  ℕ, ◌≡◌, ◌↔◌, refl, true, false, List, [], ◌∷◌, compare, Ordering, arith, All, inr, ◌≤◌, length,
}
use badgerx.Keys.{
  key_with_ts, parse_key, parse_ts, compare_keys, same_key, bytes_compare, or_else, put_be,
}
use badgerx.Keys.RoundTrip.{parse-key_with_ts}
use badgerx.Keys.Order.{compare_keys-key_with_ts, same_key-key_with_ts}
use badgerx.KeyRange
use badgerx.KeyRange.{KeyRange, Table, Contains, IsProper, empty_range}
use badgerx.KeyRange.Overlap.{overlaps_with_iff}
use badgerx.KeyRange.Extend.{HasEnds, Within, extend_least, IsKeyed, Covers, get_key_range-Covers}

-- "ab"
abbrev user_key : List ℕ
user_key = 97 ∷ 98 ∷ []

version_seven :
    key_with_ts user_key 7 ≡ 97 ∷ 98 ∷ 255 ∷ 255 ∷ 255 ∷ 255 ∷ 255 ∷ 255 ∷ 255 ∷ 248 ∷ []
unfolding key_with_ts put_be
version_seven = refl

parse-key_with_ts_example :
    (parse_key (key_with_ts user_key 7) ≡ user_key) × (parse_ts (key_with_ts user_key 7) ≡ 7)
parse-key_with_ts_example = parse-key_with_ts user_key 7 (omega arith) (omega arith)

compare_keys-key_with_ts_example :
    compare_keys (key_with_ts user_key 9) (key_with_ts user_key 7)
    ≡ or_else (bytes_compare user_key user_key) (compare 7 9)
compare_keys-key_with_ts_example =
    compare_keys-key_with_ts user_key user_key 9 7 (omega arith) (omega arith)

newer_first : compare_keys (key_with_ts user_key 9) (key_with_ts user_key 7) ≡ Ordering.lt
unfolding compare_keys key_with_ts put_be bytes_compare
newer_first = refl

same_key-key_with_ts_example :
    (same_key (key_with_ts user_key 9) (key_with_ts user_key 7) ≡ true) ↔ (user_key ≡ user_key)
same_key-key_with_ts_example = same_key-key_with_ts user_key user_key 9 7

-- Nine bytes: a user key of one byte and a timestamp.
abbrev short : ℕ → List ℕ
short b = b ∷ 0 ∷ 0 ∷ 0 ∷ 0 ∷ 0 ∷ 0 ∷ 0 ∷ 0 ∷ []

abbrev range : ℕ → ℕ → KeyRange
range a b = record { left = short a; right = short b; inf = false; size = 0 }

range_one-IsProper : IsProper (range 1 5)
unfolding compare_keys bytes_compare KeyRange.is_empty
range_one-IsProper = record { present = refl; ordered = λ e. cc }

range_two-IsProper : IsProper (range 4 9)
unfolding compare_keys bytes_compare KeyRange.is_empty
range_two-IsProper = record { present = refl; ordered = λ e. cc }

overlaps_with_iff_example :
    (KeyRange.overlaps_with (range 1 5) (range 4 9) ≡ true)
    ↔ ((k : List ℕ) × (8 ≤ length k) × Contains (range 1 5) k × Contains (range 4 9) k)
overlaps_with_iff_example =
    overlaps_with_iff (range 1 5) (range 4 9) range_one-IsProper range_two-IsProper
      (inr (omega arith, omega arith)) (inr (omega arith, omega arith))

overlap : KeyRange.overlaps_with (range 1 5) (range 4 9) ≡ true
unfolding KeyRange.overlaps_with KeyRange.is_empty compare_keys bytes_compare
overlap = refl

range-HasEnds : (a b : ℕ) → HasEnds (range a b)
range-HasEnds a b = record { from = omega arith; to = omega arith }

Within-one : Within (range 1 5) (range 1 9)
unfolding compare_keys bytes_compare
Within-one = ground arith

Within-two : Within (range 4 9) (range 1 9)
unfolding compare_keys bytes_compare
Within-two = ground arith

extend_least_example :
    Within (range 1 5) (KeyRange.extend (range 1 5) (range 4 9))
    × Within (range 4 9) (KeyRange.extend (range 1 5) (range 4 9))
    × Within (KeyRange.extend (range 1 5) (range 4 9)) (range 1 9)
extend_least_example =
    extend_least (range 1 5) (range 4 9) (range 1 9) (range-HasEnds 1 5) (range-HasEnds 4 9)
      Within-one Within-two

abbrev two_tables : List Table
two_tables =
    record {
      id = 1;
      smallest = key_with_ts user_key 4;
      biggest = key_with_ts (99 ∷ []) 2;
      size = 10;
      stale = 0;
    }
    ∷ record {
      id = 2;
      smallest = key_with_ts (97 ∷ []) 3;
      biggest = key_with_ts user_key 1;
      size = 10;
      stale = 0;
    }
    ∷ []

two_tables-IsKeyed : All IsKeyed two_tables
two_tables-IsKeyed = (
  record {
    low = record { user = user_key; ts = 4; bound = omega arith; packed = refl };
    high = record { user = 99 ∷ []; ts = 2; bound = omega arith; packed = refl };
  },
  (
    record {
      low = record { user = 97 ∷ []; ts = 3; bound = omega arith; packed = refl };
      high = record { user = user_key; ts = 1; bound = omega arith; packed = refl };
    },
    tt,
  ),
)

get_key_range-Covers_example : All (Covers (KeyRange.get_key_range two_tables)) two_tables
get_key_range-Covers_example = get_key_range-Covers two_tables two_tables-IsKeyed
