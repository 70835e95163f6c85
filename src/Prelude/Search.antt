-- ===== src/Prelude/Search.antt =====
-- sort.Search, Go's binary search for the first index at which a test holds, on as many rounds as
-- there are indices.
use Prim.Native.Nat.{ℕ, zero, suc, ◌+◌, ◌-◌, ◌/◌, ◌≤◌, ◌<◌}
use mathlib.Core.Path.{◌≡◌, subst}
use mathlib.Core.Logic.{inl, inr}
use mathlib.Core.Bool.{Bool, true, false, not}
use native.Mathlib.Omega.{arith}
use badgerx.Prelude.Tests.{ltb, if◌then◌else◌, Bool-cases}

-- The loop of sort.Search between `i` and `j`, with the rounds that are left.
unfoldable pub search_between : ℕ → (ℕ → Bool) → ℕ → ℕ → ℕ
search_between zero f i j = i
search_between (suc rounds) f i j =
    let left = search_between rounds f i ((i + j) / 2) in
    let right = search_between rounds f ((i + j) / 2 + 1) j in
    if not (ltb i j) then i else if not (f ((i + j) / 2)) then right else left

unfoldable pub sort_search : ℕ → (ℕ → Bool) → ℕ
sort_search n f = search_between n f 0 n

-- The test holds at the index, and fails right before it, within the bounds.
pub record IsBoundary (f : ℕ → Bool) (i j r : ℕ) : Type 0 where
  pub from : i ≤ r
  pub to : r ≤ j
  pub holds : r < j → f r ≡ true
  pub fails : (p : ℕ) → i ≤ p → p + 1 ≡ r → f p ≡ false

module _ (rounds : ℕ) (f : ℕ → Bool) (i j : ℕ) (s : ltb i j ≡ true) where
  to_left :
      f ((i + j) / 2) ≡ true
      → search_between rounds f i ((i + j) / 2) ≡ search_between (suc rounds) f i j
  unfolding search_between
  to_left t = ground arith

  to_right :
      f ((i + j) / 2) ≡ false
      → search_between rounds f ((i + j) / 2 + 1) j ≡ search_between (suc rounds) f i j
  unfolding search_between
  to_right t = ground arith

stops :
    (rounds : ℕ) (f : ℕ → Bool) (i j : ℕ) → ltb i j ≡ false → i ≡ search_between (suc rounds) f i j
unfolding search_between
stops rounds f i j s = ground arith

nowhere : (f : ℕ → Bool) (i j : ℕ) → i ≤ j → ltb i j ≡ false → IsBoundary f i j i
nowhere f i j le s = record {
  from = omega arith;
  to = le;
  holds = λ h. absurd (ground arith);
  fails = λ p a e. absurd (omega arith);
}

search_between-IsBoundary :
    (rounds : ℕ) (f : ℕ → Bool) (i j : ℕ)
    → i ≤ j
    → j ≤ i + rounds
    → IsBoundary f i j (search_between rounds f i j)
search_between-IsBoundary zero f i j le b = unfold search_between in nowhere f i j le (ground arith)
search_between-IsBoundary (suc rounds) f i j le b = elim (Bool-cases (ltb i j)) [
  | inr s ↦ subst (IsBoundary f i j) (stops rounds f i j s) (nowhere f i j le s)
  | inl s ↦
      let lt : i < j = ground arith in
      elim (Bool-cases (f ((i + j) / 2))) [
        | inl t ↦
            let h =
              search_between-IsBoundary rounds f i ((i + j) / 2) (omega arith) (omega arith) in
            subst (IsBoundary f i j) (to_left rounds f i j s t) (record {
              from = h.from;
              to = omega (arith, h.to);
              holds = λ q. at_or_before h.to h.holds t;
              fails = h.fails;
            })
        | inr t ↦
            let h =
              search_between-IsBoundary rounds f ((i + j) / 2 + 1) j (omega arith) (omega arith) in
            subst (IsBoundary f i j) (to_right rounds f i j s t) (record {
              from = omega (arith, h.from);
              to = h.to;
              holds = h.holds;
              fails = λ p a e. right_after p e h.from h.fails t;
            })
      ]
]
  where
    at_or_before : {r m : ℕ} → r ≤ m → (r < m → f r ≡ true) → f m ≡ true → f r ≡ true
    at_or_before {r = r} {m = m} le g t = elim (Bool-cases (ltb r m)) [
      | inl q ↦ g (ground arith)
      | inr q ↦ let same : r ≡ m = ground arith in rw same t
    ]

    right_after :
        {r m : ℕ} (p : ℕ)
        → p + 1 ≡ r
        → m + 1 ≤ r
        → ((x : ℕ) → m + 1 ≤ x → x + 1 ≡ r → f x ≡ false)
        → f m ≡ false
        → f p ≡ false
    right_after {r = r} {m = m} p e le g t = elim (Bool-cases (ltb m p)) [
      | inl q ↦ g p (ground arith) e
      | inr q ↦ let same : p ≡ m = ground arith in rw same t
    ]

-- sort.Search has as many rounds as there are indices, which is enough: it finds an index at which
-- the test holds, or the end, and right before which it fails.
pub sort_search-IsBoundary : (n : ℕ) (f : ℕ → Bool) → IsBoundary f 0 n (sort_search n f)
unfolding sort_search
sort_search-IsBoundary n f = search_between-IsBoundary n f 0 n (omega arith) (omega arith)

-- Where the test goes on to hold once it does, it fails at every index before the one found.
pub IsBoundary-before :
    (f : ℕ → Bool) (n r : ℕ)
    → IsBoundary f 0 n r
    → ((i : ℕ) → i + 1 < n → f i ≡ true → f (i + 1) ≡ true)
    → (i : ℕ) → i < r
    → f i ≡ false
IsBoundary-before f n r b up i lt = go (r - i - 1) i (omega arith)
  where
    go : (d i : ℕ) → i + 1 + d ≡ r → f i ≡ false
    go zero i e = b.fails i (omega arith) (omega arith)
    go (suc d) i e = elim (Bool-cases (f i)) [
      | inr q ↦ q
      | inl q ↦ absurd (cc (up i (omega (arith, b.to)) q, go d (i + 1) (omega arith)))
    ]

-- And it holds at every index from there on.
pub IsBoundary-after :
    (f : ℕ → Bool) (n r : ℕ)
    → IsBoundary f 0 n r
    → ((i : ℕ) → i + 1 < n → f i ≡ true → f (i + 1) ≡ true)
    → (i : ℕ) → r ≤ i
    → i < n
    → f i ≡ true
IsBoundary-after f n r b up i le lt = go (i - r) i (omega arith) lt
  where
    go : (d i : ℕ) → i ≡ r + d → i < n → f i ≡ true
    go zero i e lt = let same : i ≡ r = omega arith in rw same (b.holds (omega arith))
    go (suc d) i e lt =
        let prev : i ≡ r + d + 1 = omega arith in
        rw prev (up (r + d) (omega arith) (go d (r + d) (omega arith) (omega arith)))
