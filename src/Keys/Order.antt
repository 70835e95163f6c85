-- ===== src/Keys/Order.antt =====
-- The order of versioned keys: CompareKeys and SameKey of y/y.go.
use badgerx.Prelude.{
  ℕ, ◌-◌, ◌≤◌, ◌^◌, ◌%◌, ◌≡◌, ap, sym, refl, ◌↔◌, ◌≢◌, ◌⊎◌, take, drop, true, List, [], ◌∷◌, arith,
  length, compare, Ordering, bytes_equal_iff,
}
use badgerx.Keys.{key_with_ts, max_uint64, bytes_compare, or_else, compare_keys, same_key}
use badgerx.Keys.RoundTrip.{
  key_part, ts_part, key-length, bytes_compare-put_be, parse_key-key_with_ts,
}

ts_compare :
    (ts us : ℕ)
    → ts ≤ max_uint64
    → us ≤ max_uint64
    → compare ((max_uint64 - ts) % 256 ^ 8) ((max_uint64 - us) % 256 ^ 8) ≡ compare us ts
ts_compare ts us h k = ground arith

-- Versioned keys sort by user key, and of one user key the newer version, with the larger
-- timestamp, comes first; the timestamps are uint64s.
pub compare_keys-key_with_ts :
    (a b : List ℕ) (ts us : ℕ)
    → ts ≤ max_uint64
    → us ≤ max_uint64
    → compare_keys (key_with_ts a ts) (key_with_ts b us)
      ≡ or_else (bytes_compare a b) (compare us ts)
unfolding compare_keys
compare_keys-key_with_ts a b ts us h k = rw (
  key_part a ts,
  key_part b us,
  ts_part a ts,
  ts_part b us,
  bytes_compare-put_be,
  ts_compare ts us h k,
)

-- Two versioned keys are versions of the same key exactly when their user keys are equal.
pub same_key-key_with_ts :
    (a b : List ℕ) (ts us : ℕ) → (same_key (key_with_ts a ts) (key_with_ts b us) ≡ true) ↔ (a ≡ b)
unfolding same_key
same_key-key_with_ts a b ts us = ground (
  arith,
  key-length a ts,
  key-length b us,
  parse_key-key_with_ts a ts,
  parse_key-key_with_ts b us,
  bytes_equal_iff a b,
  ap (length {A = ℕ}),
)

pub bytes_compare_refl : (a : List ℕ) → bytes_compare a a ≡ Ordering.eq
unfolding bytes_compare
bytes_compare_refl [] = refl
bytes_compare_refl (x ∷ a) = ground (arith, bytes_compare_refl a)

pub bytes_compare_eq : (a b : List ℕ) → bytes_compare a b ≡ Ordering.eq → a ≡ b
unfolding bytes_compare
bytes_compare_eq [] [] h = refl
bytes_compare_eq [] (y ∷ b) h = cc
bytes_compare_eq (x ∷ a) [] h = cc
bytes_compare_eq (x ∷ a) (y ∷ b) h = ground (arith, bytes_compare_eq a b)

-- The opposite result.
abbrev pub flip : Ordering → Ordering
flip Ordering.lt = Ordering.gt
flip Ordering.eq = Ordering.eq
flip Ordering.gt = Ordering.lt

pub bytes_compare-flip : (a b : List ℕ) → bytes_compare b a ≡ flip (bytes_compare a b)
unfolding bytes_compare
bytes_compare-flip [] [] = refl
bytes_compare-flip [] (y ∷ b) = refl
bytes_compare-flip (x ∷ a) [] = refl
bytes_compare-flip (x ∷ a) (y ∷ b) = ground (arith, bytes_compare-flip a b)

pub bytes_compare_trans :
    (a b c : List ℕ)
    → bytes_compare a b ≡ Ordering.lt
    → bytes_compare b c ≡ Ordering.lt
    → bytes_compare a c ≡ Ordering.lt
unfolding bytes_compare
bytes_compare_trans [] [] c h k = cc
bytes_compare_trans [] (y ∷ b) [] h k = cc
bytes_compare_trans [] (y ∷ b) (z ∷ c) h k = refl
bytes_compare_trans (x ∷ a) [] c h k = cc
bytes_compare_trans (x ∷ a) (y ∷ b) [] h k = cc
bytes_compare_trans (x ∷ a) (y ∷ b) (z ∷ c) h k = ground (arith, bytes_compare_trans a b c)

bytes_compare-eq_left :
    (a b c : List ℕ) → bytes_compare a b ≡ Ordering.eq → bytes_compare a c ≡ bytes_compare b c
bytes_compare-eq_left a b c h = ap (λ x. bytes_compare x c) (bytes_compare_eq a b h)

bytes_compare-eq_right :
    (a b c : List ℕ) → bytes_compare b c ≡ Ordering.eq → bytes_compare a c ≡ bytes_compare a b
bytes_compare-eq_right a b c h = sym (ap (bytes_compare a) (bytes_compare_eq b c h))

-- The order of byte strings, as "at most", is transitive.
pub bytes_le_trans :
    (a b c : List ℕ)
    → bytes_compare a b ≢ Ordering.gt
    → bytes_compare b c ≢ Ordering.gt
    → bytes_compare a c ≢ Ordering.gt
bytes_le_trans a b c h k =
    ground
      (arith, bytes_compare_trans a b c, bytes_compare-eq_left a b c, bytes_compare-eq_right a b c)

pub compare_keys_refl : (a : List ℕ) → compare_keys a a ≡ Ordering.eq
unfolding compare_keys
compare_keys_refl a =
    rw (bytes_compare_refl (take (length a - 8) a)) (bytes_compare_refl (drop (length a - 8) a))

pub compare_keys-flip : (a b : List ℕ) → compare_keys b a ≡ flip (compare_keys a b)
unfolding compare_keys
compare_keys-flip a b = ground (
  arith,
  bytes_compare-flip (take (length a - 8) a) (take (length b - 8) b),
  bytes_compare-flip (drop (length a - 8) a) (drop (length b - 8) b),
)

-- At most, in the order of versioned keys.
abbrev pub KeyLe : List ℕ → List ℕ → Type 0
KeyLe a b = compare_keys a b ≢ Ordering.gt

abbrev LexLe : (x x' y y' : List ℕ) → Type 0
LexLe x x' y y' = or_else (bytes_compare x y) (bytes_compare x' y') ≢ Ordering.gt

LexLe-trans : (x x' y y' z z' : List ℕ) → LexLe x x' y y' → LexLe y y' z z' → LexLe x x' z z'
LexLe-trans x x' y y' z z' h k = ground (
  arith,
  bytes_compare_trans x y z,
  bytes_compare-eq_left x y z,
  bytes_compare-eq_right x y z,
  bytes_compare_trans x' y' z',
  bytes_compare-eq_left x' y' z',
  bytes_compare-eq_right x' y' z',
)

pub KeyLe-trans : (a b c : List ℕ) → KeyLe a b → KeyLe b c → KeyLe a c
unfolding compare_keys
KeyLe-trans a b c h k = LexLe-trans _ _ _ _ _ _ h k

pub KeyLe-total : (a b : List ℕ) → KeyLe a b ⊎ KeyLe b a
KeyLe-total a b = ground (arith, compare_keys-flip a b)

pub KeyLe-refl : (a : List ℕ) → KeyLe a a
KeyLe-refl a = ground (arith, compare_keys_refl a)
