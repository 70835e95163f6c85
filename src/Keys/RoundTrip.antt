-- ===== src/Keys/RoundTrip.antt =====
-- Packing a timestamp behind a key and reading both back: y/y.go.
use badgerx.Prelude.{
  ℕ, zero, suc, ◌+◌, ◌-◌, ◌*◌, ◌/◌, ◌%◌, ◌^◌, ◌<◌, ◌≤◌, ◌≡◌, ap, sym, refl, List, arith, length,
  take, drop, length-append, take_append, drop_append, compare,
}
use native.Mathlib.Nat.{div-add-mod, div-div-eq-div-mul, mul_comm, pow-succ', one-le-pow, mod-lt}
use badgerx.Keys.{
  put_be, get_be, key_with_ts, parse_ts, parse_key, max_uint64, bytes_compare, or_else,
}

pub length-put_be : (n v : ℕ) → length (put_be n v) ≡ n
unfolding put_be
length-put_be zero v = refl
length-put_be (suc n) v = ap suc (length-put_be n v)

mod_step : (x p : ℕ) → 0 < p → x % (256 * p) ≡ x / p % 256 * p + x % p
mod_step x p h = omega (
  arith,
  div-add-mod x (256 * p),
  div-add-mod x p,
  ap (λ (t : ℕ). p * t) (div-add-mod (x / p) 256),
  ap (λ (t : ℕ). 256 * p * t) (div-div-eq-div-mul x p 256),
  ap (λ (t : ℕ). 256 * p * (x / t)) (mul_comm p 256),
)

mul_gap : (d e p : ℕ) → d < e → d * p + p ≤ e * p
mul_gap d e p h = grind arith

compare_digits :
    (d e r s p : ℕ)
    → r < p
    → s < p
    → compare (d * p + r) (e * p + s) ≡ or_else (compare d e) (compare r s)
compare_digits d e r s p hr hs = ground (arith, mul_gap d e p, mul_gap e d p)

bytes_compare-put_be_step :
    (n a b : ℕ)
    → bytes_compare (put_be (suc n) a) (put_be (suc n) b)
      ≡ or_else
          (compare (a / 256 ^ n % 256) (b / 256 ^ n % 256))
          (bytes_compare (put_be n a) (put_be n b))
unfolding put_be bytes_compare
bytes_compare-put_be_step n a b = ground arith

pow_pos : (n : ℕ) → 0 < 256 ^ n
pow_pos n = one-le-pow n 256 (omega arith)

pow_split : (x n : ℕ) → x % 256 ^ suc n ≡ x / 256 ^ n % 256 * 256 ^ n + x % 256 ^ n
pow_split x n = rw pow-succ' (mod_step x (256 ^ n) (pow_pos n))

-- The big-endian bytes of two numbers compare as the numbers do.
pub bytes_compare-put_be :
    (n a b : ℕ) → bytes_compare (put_be n a) (put_be n b) ≡ compare (a % 256 ^ n) (b % 256 ^ n)
bytes_compare-put_be zero a b = unfold bytes_compare put_be in ground arith
bytes_compare-put_be (suc n) a b =
    rw (bytes_compare-put_be_step n a b, bytes_compare-put_be n a b, pow_split a n, pow_split b n)
      (sym (compare_digits _ _ _ _ (256 ^ n) (mod-lt a (pow_pos n)) (mod-lt b (pow_pos n))))

pub get_be-put_be : (v : ℕ) → v < 2 ^ 64 → get_be (put_be 8 v) ≡ v
unfolding get_be put_be
get_be-put_be v h = omega arith

pub key-length : (key : List ℕ) (ts : ℕ) → length (key_with_ts key ts) ≡ length key + 8
unfolding key_with_ts
key-length key ts =
    omega (arith, length-append key (put_be 8 (max_uint64 - ts)), length-put_be 8 (max_uint64 - ts))

pub key_part :
    (key : List ℕ) (ts : ℕ) → take (length (key_with_ts key ts) - 8) (key_with_ts key ts) ≡ key
unfolding key_with_ts
key_part key ts =
    let e : length (key_with_ts key ts) - 8 ≡ length key = omega (arith, key-length key ts) in
    rw e (take_append key _)

pub ts_part :
    (key : List ℕ) (ts : ℕ)
    → drop (length (key_with_ts key ts) - 8) (key_with_ts key ts) ≡ put_be 8 (max_uint64 - ts)
unfolding key_with_ts
ts_part key ts =
    let e : length (key_with_ts key ts) - 8 ≡ length key = omega (arith, key-length key ts) in
    rw e (drop_append key _)

-- A user key and a timestamp packed together are both read back, where the user key is not empty
-- and the timestamp is a uint64.
pub parse-key_with_ts :
    (key : List ℕ) (ts : ℕ)
    → 0 < length key
    → ts ≤ max_uint64
    → (parse_key (key_with_ts key ts) ≡ key) × (parse_ts (key_with_ts key ts) ≡ ts)
unfolding parse_key parse_ts
parse-key_with_ts key ts h hts = (
  ground (arith, key_part key ts, key-length key ts),
  ground (arith, ap get_be (ts_part key ts), get_be-put_be (max_uint64 - ts), key-length key ts),
)

-- On keys of any length the user key is read back.
pub parse_key-key_with_ts : (key : List ℕ) (ts : ℕ) → parse_key (key_with_ts key ts) ≡ key
unfolding parse_key
parse_key-key_with_ts key ts = ground (arith, key_part key ts, key-length key ts)
