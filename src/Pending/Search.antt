-- ===== src/Pending/Search.antt =====
-- Where `Seek` of the pending writes lands: txn.go.
use badgerx.Prelude.{
  ℕ, zero, suc, ◌+◌, ◌<◌, ◌≤◌, ◌≡◌, ◌≢◌, refl, Ordering, Bool, true, false, not, some, List, [],
  ◌∷◌, length, arith, All, All-map, get_elem?, Bool-cases, inl, inr,
}
use mathlib.Core.Path.{subst}
use mathlib.Core.Option.{some-injective}
use badgerx.Keys.{parse_key, bytes_compare}
use badgerx.Keys.Order.{bytes_compare-flip, bytes_le_trans}
use badgerx.Entry.{Entry}
use badgerx.Txn.{Txn}
use badgerx.Prelude.Search.{sort_search-IsBoundary, IsBoundary-before, IsBoundary-after}
use badgerx.Commit.{values}
use badgerx.Pending.{
  PendingWritesIterator, reaches, seek, is_before, place, sort_entries, new_pending_writes_iterator,
}

-- The result of comparing a key that comes first in the direction: less, or greater in reverse.
abbrev pub first : Bool → Ordering
first false = Ordering.lt
first true = Ordering.gt

-- No entry comes before one that stands ahead of it; equal keys are allowed.
abbrev InOrder : Bool → List Entry → Type 0
InOrder rev [] = Unit
InOrder rev (e ∷ es) = All (λ d. bytes_compare d.key e.key ≢ first rev) es × InOrder rev es

before_first : (rev : Bool) (o : Ordering) → is_before rev o ≡ true → o ≡ first rev
before_first true o h = ground arith
before_first false o h = ground arith

not_first : (rev : Bool) (o : Ordering) → is_before rev o ≡ false → o ≢ first rev
not_first true o h = ground arith
not_first false o h = ground arith

first_before : (rev : Bool) (o : Ordering) → o ≢ first rev → is_before rev o ≡ false
first_before true o h = ground arith
first_before false o h = ground arith

later_trans :
    (rev : Bool) (a b c : List ℕ)
    → bytes_compare b a ≢ first rev
    → bytes_compare a c ≢ first rev
    → bytes_compare b c ≢ first rev
later_trans true a b c h k = bytes_le_trans b a c h k
later_trans false a b c h k = ground (
  arith,
  bytes_le_trans c a b,
  bytes_compare-flip a b,
  bytes_compare-flip a c,
  bytes_compare-flip b c,
)

opposite :
    (rev : Bool) (a b : List ℕ) → bytes_compare a b ≡ first rev → bytes_compare b a ≢ first rev
opposite true a b h = ground (arith, bytes_compare-flip a b)
opposite false a b h = ground (arith, bytes_compare-flip a b)

place-All :
    (P : Entry → Type 0) (rev : Bool) (e : Entry) (ds : List Entry)
    → P e
    → All P ds
    → All P (place rev e ds)
unfolding place
place-All P rev e [] p h = (p, tt)
place-All P rev e (d ∷ ds) p (h, hs) = ground (arith, place-All P rev e ds p hs)

place-InOrder :
    (rev : Bool) (e : Entry) (ds : List Entry) → InOrder rev ds → InOrder rev (place rev e ds)
unfolding place
place-InOrder rev e [] h = (tt, tt)
place-InOrder rev e (d ∷ ds) (h, hs) =
    elim (Bool-cases (is_before rev (bytes_compare d.key e.key))) [
      | inl q ↦ rw q (
        place-All (λ c. bytes_compare c.key d.key ≢ first rev) rev e ds
            (opposite rev d.key e.key (before_first rev _ q)) h,
        place-InOrder rev e ds hs,
      )
      | inr q ↦
          let later = not_first rev (bytes_compare d.key e.key) q in
          rw q (
            (
              later,
              All-map (λ c. bytes_compare c.key d.key ≢ first rev)
                  (λ c. bytes_compare c.key e.key ≢ first rev)
                  (λ c k. later_trans rev d.key c.key e.key k later) ds h,
            ),
            (h, hs),
          )
    ]

sort_entries-InOrder : (rev : Bool) (es : List Entry) → InOrder rev (sort_entries rev es)
unfolding sort_entries
sort_entries-InOrder rev [] = tt
sort_entries-InOrder rev (e ∷ es) = place-InOrder rev e _ (sort_entries-InOrder rev es)

All-get {ℓ} :
    {A : Type ℓ} (P : A → Type 0) (es : List A) (i : ℕ) (b : A)
    → All P es
    → get_elem? es i ≡ some b
    → P b
All-get P [] i b h y = absurd (cc)
All-get P (e ∷ es) zero b (h, hs) y = subst P (some-injective _ _ y) h
All-get P (e ∷ es) (suc i) b (h, hs) y = All-get P es i b hs y

InOrder-step :
    (rev : Bool) (es : List Entry) (i : ℕ) (a b : Entry)
    → InOrder rev es
    → get_elem? es i ≡ some a
    → get_elem? es (suc i) ≡ some b
    → bytes_compare b.key a.key ≢ first rev
InOrder-step rev [] i a b h x y = absurd (cc)
InOrder-step rev (e ∷ es) zero a b (h, hs) x y =
    subst (λ (c : Entry). bytes_compare b.key c.key ≢ first rev) (some-injective _ _ x)
      (All-get (λ d. bytes_compare d.key e.key ≢ first rev) es 0 b h y)
InOrder-step rev (e ∷ es) (suc i) a b (h, hs) x y = InOrder-step rev es i a b hs x y

-- Where an iterator's entries lie around the index `r`, for a user key.
pub record IsLanded (rev : Bool) (es : List Entry) (key : List ℕ) (r : ℕ) : Type 0 where
  pub bound : r ≤ length es
  pub passed :
      (i : ℕ) (e : Entry) → get_elem? es i ≡ some e → i < r → bytes_compare e.key key ≡ first rev
  pub ahead :
      (i : ℕ) (e : Entry) → get_elem? es i ≡ some e → r ≤ i → bytes_compare e.key key ≢ first rev

reaches-first :
    (pi : PendingWritesIterator) (key : List ℕ) (i : ℕ) (e : Entry)
    → get_elem? pi.entries i ≡ some e
    → (reaches pi key i ≡ true → bytes_compare e.key key ≢ first pi.reversed)
      × (reaches pi key i ≡ false → bytes_compare e.key key ≡ first pi.reversed)
      × (bytes_compare e.key key ≢ first pi.reversed → reaches pi key i ≡ true)
reaches-first pi key i e g =
    let at : reaches pi key i ≡ not (is_before pi.reversed (bytes_compare e.key key)) =
      unfold reaches in ground arith in
    (
      λ h. not_first pi.reversed _ (ground arith),
      λ h. before_first pi.reversed _ (ground arith),
      λ h. ground (arith, first_before pi.reversed _ h),
    )

get_elem?-lt {ℓ} :
    {A : Type ℓ} (es : List A) (i : ℕ) → i < length es → (e : A) × (get_elem? es i ≡ some e)
get_elem?-lt [] i h = absurd (omega arith)
get_elem?-lt (e ∷ es) zero h = (e, refl)
get_elem?-lt (e ∷ es) (suc i) h = get_elem?-lt es i (omega arith)

lt-get_elem? {ℓ} :
    {A : Type ℓ} (es : List A) (i : ℕ) (e : A) → get_elem? es i ≡ some e → i < length es
lt-get_elem? [] i e h = absurd (cc)
lt-get_elem? (d ∷ es) zero e h = omega arith
lt-get_elem? (d ∷ es) (suc i) e h = omega (arith, lt-get_elem? es i e h)

reaches_mono :
    (pi : PendingWritesIterator) (key : List ℕ)
    → InOrder pi.reversed pi.entries
    → (i : ℕ) → i + 1 < length pi.entries
    → reaches pi key i ≡ true
    → reaches pi key (i + 1) ≡ true
reaches_mono pi key h i lt q =
    let (a, x) = get_elem?-lt pi.entries i (omega arith) in
    let (b, y) = get_elem?-lt pi.entries (i + 1) lt in
    let next : suc i ≡ i + 1 = omega arith in
    let order = InOrder-step pi.reversed pi.entries i a b h x (rw (next) y) in
    let here = (reaches-first pi key i a x).0 q in
    (reaches-first pi key (i + 1) b y).2 (later_trans pi.reversed a.key b.key key order here)

sorted-IsLanded :
    (pi : PendingWritesIterator) (key : List ℕ)
    → InOrder pi.reversed pi.entries
    → IsLanded pi.reversed pi.entries (parse_key key) (seek pi key).next_idx
unfolding seek
sorted-IsLanded pi key h =
    let n = length pi.entries in
    let f = reaches pi (parse_key key) in
    let b = sort_search-IsBoundary n f in
    let up = reaches_mono pi (parse_key key) h in
    record {
      bound = b.to;
      passed = λ i e g lt. (reaches-first pi _ i e g).1 (IsBoundary-before f n _ b up i lt);
      ahead = λ i e g le.
          (reaches-first pi _ i e g).0
            (IsBoundary-after f n _ b up i le (lt-get_elem? pi.entries i e g));
    }

new_pending_writes_iterator-InOrder :
    (t : Txn) (rev : Bool) (pi : PendingWritesIterator)
    → new_pending_writes_iterator t rev ≡ some pi
    → (pi.reversed ≡ rev) × (pi.entries ≡ sort_entries rev (values t.pending_writes))
unfolding new_pending_writes_iterator
new_pending_writes_iterator-InOrder t rev pi e = ground arith

-- `Seek` of an iterator over a transaction's own writes, wherever the iterator stands, lands in the
-- iterator's direction between the writes that come before the user key sought and all the others:
-- the entries before the index it lands on have smaller keys, or greater ones in reverse, and the
-- entries from it on do not.
pub seek-IsLanded :
    (t : Txn) (rev : Bool) (pi : PendingWritesIterator) (n : ℕ) (key : List ℕ)
    → new_pending_writes_iterator t rev ≡ some pi
    → IsLanded rev pi.entries (parse_key key) (seek (record pi { next_idx = n }) key).next_idx
seek-IsLanded t rev pi n key e =
    let (r, s) = new_pending_writes_iterator-InOrder t rev pi e in
    subst
      (λ d. IsLanded d pi.entries (parse_key key) (seek (record pi { next_idx = n }) key).next_idx)
      r
      (sorted-IsLanded (record pi { next_idx = n }) key
        (rw (r, s) (sort_entries-InOrder rev (values t.pending_writes))))
