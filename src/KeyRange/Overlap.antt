-- ===== src/KeyRange/Overlap.antt =====
-- What `overlapsWith` decides: compaction.go.
use badgerx.Prelude.{
  ℕ, ◌≡◌, ◌≤◌, ◌↔◌, ◌⊎◌, inl, inr, true, ◌&&◌, List, length, replicate, arith, Bool-cases,
  if◌then◌else◌,
}
use badgerx.Keys.Order.{KeyLe-trans, KeyLe-refl, compare_keys-flip}
use badgerx.KeyRange.{KeyRange, overlaps_with, key_lt, Contains, IsProper}

-- A key that two overlapping ranges share: the larger of the left ends.
abbrev shared_key : KeyRange → KeyRange → List ℕ
shared_key r dst =
    if r.inf && dst.inf
    then replicate 8 0
    else if r.inf
    then dst.left
    else if dst.inf
    then r.left
    else if key_lt r.left dst.left
    then dst.left
    else r.left

shared_key-Contains :
    (r dst : KeyRange)
    → IsProper r
    → IsProper dst
    → overlaps_with r dst ≡ true
    → Contains r (shared_key r dst) × Contains dst (shared_key r dst)
unfolding overlaps_with
shared_key-Contains r dst p q h = ground (
  arith,
  p.present,
  q.present,
  p.ordered,
  q.ordered,
  KeyLe-refl r.left,
  KeyLe-refl dst.left,
  compare_keys-flip r.left dst.left,
  compare_keys-flip r.right dst.left,
)

pub Contains-overlaps_with :
    (r dst : KeyRange) (k : List ℕ)
    → IsProper r
    → IsProper dst
    → Contains r k
    → Contains dst k
    → overlaps_with r dst ≡ true
unfolding overlaps_with
Contains-overlaps_with r dst k p q h j = ground (
  arith,
  p.present,
  q.present,
  KeyLe-trans r.left k dst.right,
  KeyLe-trans dst.left k r.right,
  compare_keys-flip r.right dst.left,
)

-- The ends of a range that is not infinite are long enough for a timestamp, as CompareKeys asks.
abbrev pub HasVersions : KeyRange → Type 0
HasVersions r = (r.inf ≡ true) ⊎ ((8 ≤ length r.left) × (8 ≤ length r.right))

shared_key-versioned :
    (r dst : KeyRange) → HasVersions r → HasVersions dst → 8 ≤ length (shared_key r dst)
shared_key-versioned r dst u v = elim (Bool-cases (r.inf)) [
  | inl a ↦ elim (Bool-cases (dst.inf)) [
    | inl b ↦ rw (a, b) (omega arith)
    | inr b ↦ ground (arith, a, b, u, v)
  ]
  | inr a ↦ ground (arith, a, u, v)
]

-- Two proper ranges, whose ends have room for a timestamp where they are not infinite, overlap
-- exactly when some key with room for a timestamp lies in both.
pub overlaps_with_iff :
    (r dst : KeyRange)
    → IsProper r
    → IsProper dst
    → HasVersions r
    → HasVersions dst
    → (overlaps_with r dst ≡ true) ↔ ((k : List ℕ) × (8 ≤ length k) × Contains r k × Contains dst k)
overlaps_with_iff r dst p q u v = (
  λ h.
      let (a, b) = shared_key-Contains r dst p q h in
      (shared_key r dst, shared_key-versioned r dst u v, a, b),
  λ (k, l, a, b). Contains-overlaps_with r dst k p q a b,
)

pub overlaps_with_self : (r : KeyRange) → IsProper r → overlaps_with r r ≡ true
unfolding overlaps_with
overlaps_with_self r p = ground (arith, p.present, p.ordered, compare_keys-flip r.left r.right)

pub overlaps_with_symm :
    (r dst : KeyRange) → IsProper r → IsProper dst → overlaps_with r dst ≡ overlaps_with dst r
unfolding overlaps_with
overlaps_with_symm r dst p q = ground (
  arith,
  p.present,
  q.present,
  compare_keys-flip r.left dst.right,
  compare_keys-flip dst.left r.right,
)
