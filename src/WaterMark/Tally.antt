-- ===== src/WaterMark/Tally.antt =====
-- The pending counts of `process` against the begins and the dones of each index: y/watermark.go.
use badgerx.Prelude.{
  ℕ, zero, suc, ◌+◌, ◌≤◌, ◌<◌, ◌≡◌, refl, Bool, true, false, some, List, [], ◌∷◌, arith, nat_eq,
  has, Option-cases, inl, inr, All,
}
use badgerx.Prelude.Int.{ℤ, pos, negsuc, succ, pred, is_pos}
use badgerx.Prelude.Maps.{lookup}
use badgerx.WaterMark.{WaterMark, Mark, count, process_mark}
use badgerx.WaterMark.Sound.{IsSound}
use badgerx.WaterMark.Counting.{begins, dones, process_mark-keeps}

-- The pending count is no less than the begins less the dones.
abbrev pub Covers : ℤ → ℕ → ℕ → Type 0
Covers (pos n) b d = b ≤ d + n
Covers (negsuc n) b d = b + n + 1 ≤ d

Covers-same : {b b' d d' : ℕ} (z : ℤ) → b ≡ b' → d ≡ d' → Covers z b d → Covers z b' d'
Covers-same (pos n) e f h = omega (arith, h, e, f)
Covers-same (negsuc n) e f h = omega (arith, h, e, f)

Covers-succ : (z : ℤ) (b d : ℕ) → Covers z b d → Covers (succ z) (b + 1) d
Covers-succ (pos n) b d h = omega (arith, h)
Covers-succ (negsuc zero) b d h = omega (arith, h)
Covers-succ (negsuc (suc n)) b d h = omega (arith, h)

Covers-pred : (z : ℤ) (b d : ℕ) → Covers z b d → Covers (pred z) b (d + 1)
Covers-pred (pos zero) b d h = omega (arith, h)
Covers-pred (pos (suc n)) b d h = omega (arith, h)
Covers-pred (negsuc n) b d h = omega (arith, h)

-- A count that is dropped was not positive.
Covers-dropped : (z : ℤ) (b d : ℕ) → is_pos z ≡ false → Covers z b d → Covers (pos 0) b d
Covers-dropped (pos zero) b d e h = h
Covers-dropped (pos (suc n)) b d e h = absurd (cc)
Covers-dropped (negsuc n) b d e h = omega (arith, h)

pub Covers-open : (z : ℤ) (b d : ℕ) → Covers z b d → d < b → is_pos z ≡ true
Covers-open (pos zero) b d h lt = absurd (omega (arith, h))
Covers-open (pos (suc n)) b d h lt = refl
Covers-open (negsuc n) b d h lt = absurd (omega (arith, h))

pub process_mark-Covers :
    (w w' : WaterMark) (m : Mark) (i b d : ℕ)
    → process_mark w m ≡ some w'
    → Covers (count w.pending i) b d
    → Covers (count w'.pending i) (b + begins m i) (d + dones m i)
process_mark-Covers =
    process_mark-keeps (λ t. Covers) (λ b b' d d' t. Covers-same) (λ t. Covers-dropped) Covers-succ
      Covers-pred

-- The pending count is the begins less the dones.
abbrev pub IsBalance : ℤ → ℕ → ℕ → Type 0
IsBalance (pos n) b d = b ≡ d + n
IsBalance (negsuc n) b d = b + n + 1 ≡ d

-- It is so throughout a mark that begins, and as long as no more is done than begun.
abbrev Exact : Bool → ℤ → ℕ → ℕ → Type 0
Exact false z b d = (d ≤ b) × IsBalance z b d
Exact true z b d = (d ≤ b) → IsBalance z b d

IsBalance-same : {b b' d d' : ℕ} (z : ℤ) → b ≡ b' → d ≡ d' → IsBalance z b d → IsBalance z b' d'
IsBalance-same (pos n) e f h = omega (arith, h, e, f)
IsBalance-same (negsuc n) e f h = omega (arith, h, e, f)

Exact-same : (b b' d d' : ℕ) (t : Bool) (z : ℤ) → b ≡ b' → d ≡ d' → Exact t z b d → Exact t z b' d'
Exact-same b b' d d' true z e f h = λ le. IsBalance-same z e f (h (omega (arith, e, f)))
Exact-same b b' d d' false z e f (le, h) = (omega (arith, e, f), IsBalance-same z e f h)

IsBalance-dropped :
    (z : ℤ) (b d : ℕ) → is_pos z ≡ false → d ≤ b → IsBalance z b d → IsBalance (pos 0) b d
IsBalance-dropped (pos zero) b d e le h = h
IsBalance-dropped (pos (suc n)) b d e le h = absurd (cc)
IsBalance-dropped (negsuc n) b d e le h = absurd (omega (arith, h))

Exact-dropped :
    (t : Bool) (z : ℤ) (b d : ℕ) → is_pos z ≡ false → Exact t z b d → Exact t (pos 0) b d
Exact-dropped true z b d e h = λ le. IsBalance-dropped z b d e le (h le)
Exact-dropped false z b d e (le, h) = (le, IsBalance-dropped z b d e le h)

Exact-succ : (z : ℤ) (b d : ℕ) → Exact false z b d → Exact false (succ z) (b + 1) d
Exact-succ (pos n) b d (le, h) = (omega arith, omega (arith, h))
Exact-succ (negsuc zero) b d (le, h) = absurd (omega (arith, h))
Exact-succ (negsuc (suc n)) b d (le, h) = absurd (omega (arith, h))

Exact-pred : (z : ℤ) (b d : ℕ) → Exact true z b d → Exact true (pred z) b (d + 1)
Exact-pred (pos zero) b d h = λ le. omega (arith, h (omega arith))
Exact-pred (pos (suc n)) b d h = λ le. omega (arith, h (omega arith))
Exact-pred (negsuc n) b d h = λ le. omega (arith, h (omega arith))

-- A count that is the begins less the dones goes on to be so, as long as no more is done than begun.
process_mark-IsBalance :
    (w w' : WaterMark) (m : Mark) (i b d : ℕ)
    → process_mark w m ≡ some w'
    → IsBalance (count w.pending i) b d
    → d ≤ b
    → d + dones m i ≤ b + begins m i
    → IsBalance (count w'.pending i) (b + begins m i) (d + dones m i)
process_mark-IsBalance w w' m i b d e h le le' =
    out _ _ _ m.is_done
      (process_mark-keeps Exact Exact-same Exact-dropped Exact-succ Exact-pred w w' m i b d e
        (into m.is_done h))
      le'
  where
    into : (t : Bool) → IsBalance (count w.pending i) b d → Exact t (count w.pending i) b d
    into true x = λ q. x
    into false x = (le, x)

    out : (z : ℤ) (b' d' : ℕ) (t : Bool) → Exact t z b' d' → d' ≤ b' → IsBalance z b' d'
    out z b' d' true f q = f q
    out z b' d' false (p, x) q = x

All-has : (u i : ℕ) (xs : List ℕ) → All (λ x. u ≤ x) xs → has i xs ≡ true → u ≤ i
All-has u i [] h e = absurd (cc)
All-has u i (x ∷ xs) (h, hs) e = ground (arith, All-has u i xs hs)

-- An index with a pending count is not below the mark.
pub pending_above :
    (w : WaterMark) (i : ℕ) (c : ℤ) → IsSound w → lookup i w.pending ≡ some c → w.done_until ≤ i
pending_above w i c s e =
    All-has w.done_until i w.indices s.ordered.lower (ground (arith, s.ordered.keyed i))

-- An index with more begins than dones is not below the mark.
pub open_above :
    (w : WaterMark) (i b d : ℕ)
    → IsSound w
    → Covers (count w.pending i) b d
    → d < b
    → w.done_until ≤ i
open_above w i b d s h lt = elim (Option-cases (lookup i w.pending)) [
  | inl n ↦ let o = Covers-open _ b d h lt in absurd (unfold count in ground (arith, o, n))
  | inr (c, e) ↦ pending_above w i c s e
]

-- How a mark counts: whatever begins and dones the pending counts stood for, afterwards they stand
-- for those and the mark's at least, and exactly where no index is done more often than begun; and the
-- mark does not pass an index with more begins than dones.
pub record IsTallied (w w' : WaterMark) (m : Mark) : Type 0 where
  pub counts :
      (i b d : ℕ)
      → Covers (count w.pending i) b d
      → Covers (count w'.pending i) (b + begins m i) (d + dones m i)
  pub exact :
      (i b d : ℕ)
      → IsBalance (count w.pending i) b d
      → d ≤ b
      → d + dones m i ≤ b + begins m i
      → IsBalance (count w'.pending i) (b + begins m i) (d + dones m i)
  pub kept_back :
      (i b d : ℕ)
      → Covers (count w.pending i) b d
      → d + dones m i < b + begins m i
      → w'.done_until ≤ i

pub process_mark-IsTallied :
    (w w' : WaterMark) (m : Mark) → IsSound w' → process_mark w m ≡ some w' → IsTallied w w' m
process_mark-IsTallied w w' m s e = record {
  counts = λ i b d h. process_mark-Covers w w' m i b d e h;
  exact = λ i b d h le le'. process_mark-IsBalance w w' m i b d e h le le';
  kept_back = λ i b d h lt. open_above w' i _ _ s (process_mark-Covers w w' m i b d e h) lt;
}
