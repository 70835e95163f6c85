-- ===== src/Keys.antt =====
-- Versioned keys: y/y.go. A byte slice is a list of numbers below 256, and the result of
-- bytes.Compare is an `Ordering`: -1 is `lt`, 0 is `eq`, 1 is `gt`.
pub mod RoundTrip
pub mod Order
use badgerx.Prelude.{
  ℕ, zero, suc, ◌+◌, ◌-◌, ◌*◌, ◌/◌, ◌%◌, ◌^◌, compare, Ordering, Bool, List, [], ◌∷◌, ◌++◌, length,
  take, drop, leb, ltb, ◌==◌, bytes_equal, if◌then◌else◌, not,
}

abbrev pub max_uint64 : ℕ
max_uint64 = 2 ^ 64 - 1

-- binary.BigEndian.PutUint of n bytes
unfoldable pub put_be : ℕ → ℕ → List ℕ
put_be zero v = []
put_be (suc n) v = (v / 256 ^ n % 256) ∷ put_be n v

-- binary.BigEndian.Uint
unfoldable pub get_be : List ℕ → ℕ
get_be [] = 0
get_be (b ∷ bs) = b * 256 ^ length bs + get_be bs

-- Go's comparison of the first difference, and of the lengths where one is a prefix.
unfoldable pub bytes_compare : List ℕ → List ℕ → Ordering
bytes_compare [] [] = Ordering.eq
bytes_compare [] (y ∷ ys) = Ordering.lt
bytes_compare (x ∷ xs) [] = Ordering.gt
bytes_compare (x ∷ xs) (y ∷ ys) = elim (compare x y) [
  | Ordering.lt ↦ Ordering.lt
  | Ordering.gt ↦ Ordering.gt
  | Ordering.eq ↦ bytes_compare xs ys
]

-- The first comparison, or the second where the first says equal.
abbrev pub or_else : Ordering → Ordering → Ordering
or_else Ordering.lt o = Ordering.lt
or_else Ordering.gt o = Ordering.gt
or_else Ordering.eq o = o

unfoldable pub key_with_ts : List ℕ → ℕ → List ℕ
key_with_ts key ts = key ++ put_be 8 (max_uint64 - ts)

unfoldable pub parse_ts : List ℕ → ℕ
parse_ts key = if leb (length key) 8 then 0 else max_uint64 - get_be (drop (length key - 8) key)

unfoldable pub parse_key : List ℕ → List ℕ
parse_key key = if ltb (length key) 8 then [] else take (length key - 8) key

-- The slices `key[:len(key)-8]` and `key[len(key)-8:]` panic on a key shorter than 8 bytes; callers
-- pass keys with a timestamp, and so do the theorems.
unfoldable pub compare_keys : List ℕ → List ℕ → Ordering
compare_keys key1 key2 =
    or_else (bytes_compare (take (length key1 - 8) key1) (take (length key2 - 8) key2))
      (bytes_compare (drop (length key1 - 8) key1) (drop (length key2 - 8) key2))

unfoldable pub same_key : List ℕ → List ℕ → Bool
same_key src dst =
    if not (length src == length dst)
    then Bool.false
    else bytes_equal (parse_key src) (parse_key dst)
