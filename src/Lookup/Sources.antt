-- ===== src/Lookup/Sources.antt =====
-- What a sorted list of versions answers: `Get` of skl/skl.go, and a table behind `Seek`.
use badgerx.Prelude.{
  ℕ, ◌≤◌, ◌≡◌, ◌↔◌, inl, inr, refl, sym, ap, ◌∙◌, true, false, none, some, List, [], ◌∷◌, arith,
  All, Ordering, compare, Bool-cases, Option-cases,
}
use mathlib.Core.Path.{subst}
use badgerx.Keys.{
  parse_ts, parse_key, key_with_ts, same_key, max_uint64, compare_keys, bytes_compare, or_else,
}
use badgerx.Keys.Order.{
  KeyLe, KeyLe-refl, compare_keys-key_with_ts, same_key-key_with_ts, bytes_compare_refl,
  bytes_compare_eq,
}
use badgerx.Keys.RoundTrip.{parse_key-key_with_ts}
use badgerx.KeyRange.{key_lt}
use badgerx.Subcompact.{Cell}
use badgerx.Lookup.{nothing, seek_cell, skl_get}
use badgerx.Lookup.Newest.{IsIn, Matches, IsLive, IsNewest}

-- A stored version: of a key with its timestamp behind it.
pub record IsGood (c : Cell) : Type 0 where
  pub user : List ℕ
  pub bound : parse_ts c.key ≤ max_uint64
  pub packed : c.key ≡ key_with_ts user (parse_ts c.key)
  pub live : IsLive c

abbrev pub AreSorted : List Cell → Type 0
AreSorted [] = Unit
AreSorted (c ∷ cs) = All (λ d. KeyLe c.key d.key) cs × AreSorted cs

-- What Seek finds: a cell of the list that is not below the key, and with none before it that is not.
pub record IsFirst (cs : List Cell) (key : List ℕ) (c : Cell) : Type 0 where
  pub held : IsIn c cs
  pub reached : key_lt c.key key ≡ false
  pub least : (d : Cell) → IsIn d cs → key_lt d.key key ≡ false → KeyLe c.key d.key

pub All-IsIn {κ} : (P : Cell → Type κ) (cs : List Cell) (c : Cell) → All P cs → IsIn c cs → P c
All-IsIn P [] c h i = absurd i
All-IsIn P (d ∷ cs) c (h, hs) (inl e) = subst P (sym e) h
All-IsIn P (d ∷ cs) c (h, hs) (inr i) = All-IsIn P cs c hs i

pub seek_none :
    (cs : List Cell) (key : List ℕ)
    → seek_cell cs key ≡ none
    → (d : Cell) → IsIn d cs
    → key_lt d.key key ≡ true
unfolding seek_cell
seek_none [] key e d i = absurd i
seek_none (c ∷ cs) key e d i = elim (Bool-cases (key_lt c.key key)) [
  | inr x ↦ ground arith
  | inl x ↦ elim i [ inl y ↦ rw y x | inr y ↦ seek_none cs key (ground arith) d y ]
]

pub seek_some :
    (cs : List Cell) (key : List ℕ) (c : Cell)
    → AreSorted cs
    → seek_cell cs key ≡ some c
    → IsFirst cs key c
unfolding seek_cell
seek_some [] key c s e = absurd (cc)
seek_some (b ∷ cs) key c (s, ss) e = elim (Bool-cases (key_lt b.key key)) [
  | inl x ↦
      let later = seek_some cs key c ss (ground arith) in
      record {
        held = inr later.held;
        reached = later.reached;
        least = λ d i y. elim i [
          | inl z ↦ absurd (cc (x, y, ap (λ b. b.key) z))
          | inr z ↦ later.least d z y
        ];
      }
  | inr x ↦
      let same : b ≡ c = ground arith in
      subst (IsFirst (b ∷ cs) key) same (record {
        held = inl refl;
        reached = x;
        least = λ d i y. elim i [ inl z ↦ rw z (KeyLe-refl b.key) | inr z ↦ All-IsIn _ cs d s z ];
      })
]

good-parse_key : (c : Cell) (g : IsGood c) → parse_key c.key ≡ g.user
good-parse_key c g = ap parse_key g.packed ∙ parse_key-key_with_ts g.user (parse_ts c.key)

module _ (k : List ℕ) (ts : ℕ) (h : ts ≤ max_uint64) where
  -- How a stored key stands to the one that is looked for.
  position :
      (c : Cell) (g : IsGood c)
      → compare_keys c.key (key_with_ts k ts)
        ≡ or_else (bytes_compare g.user k) (compare ts (parse_ts c.key))
  position c g =
      ap (λ a. compare_keys a (key_with_ts k ts)) g.packed
      ∙ compare_keys-key_with_ts g.user k (parse_ts c.key) ts g.bound h

  between :
      (c d : Cell) (g : IsGood c) (i : IsGood d)
      → compare_keys c.key d.key
        ≡ or_else (bytes_compare g.user i.user) (compare (parse_ts d.key) (parse_ts c.key))
  between c d g i =
      ap (λ a. compare_keys a d.key) g.packed
      ∙ ap (compare_keys (key_with_ts g.user (parse_ts c.key))) i.packed
      ∙ compare_keys-key_with_ts g.user i.user (parse_ts c.key) (parse_ts d.key) g.bound i.bound

  matching-reached :
      (d : Cell) → IsGood d → Matches k ts d → key_lt d.key (key_with_ts k ts) ≡ false
  matching-reached d g m =
      let same : g.user ≡ k = sym (good-parse_key d g) ∙ m.0 in
      let met : bytes_compare g.user k ≡ Ordering.eq = rw same (bytes_compare_refl k) in
      ground (arith, position d g, met, m.1)

  reached-matching :
      (c : Cell) (g : IsGood c)
      → key_lt c.key (key_with_ts k ts) ≡ false
      → g.user ≡ k
      → Matches k ts c
  reached-matching c g r same =
      let met : bytes_compare g.user k ≡ Ordering.eq = rw same (bytes_compare_refl k) in
      (good-parse_key c g ∙ same, ground (arith, position c g, met))

  -- The first cell that is not below the key, where one of the cells matches.
  first-Matches :
      (c d : Cell) (g : IsGood c)
      → IsGood d
      → key_lt c.key (key_with_ts k ts) ≡ false
      → KeyLe c.key d.key
      → Matches k ts d
      → (g.user ≡ k) × (parse_ts d.key ≤ parse_ts c.key)
  first-Matches c d g i r le m =
      let same : i.user ≡ k = sym (good-parse_key d i) ∙ m.0 in
      let there : bytes_compare g.user i.user ≡ bytes_compare g.user k =
        ap (bytes_compare g.user) same in
      let met : bytes_compare g.user k ≡ Ordering.eq =
        ground (arith, position c g, between c d g i, there) in
      (bytes_compare_eq g.user k met, ground (arith, between c d g i, there, met))

  same_key-user :
      (c : Cell) (g : IsGood c) → (same_key (key_with_ts k ts) c.key ≡ true) ↔ (k ≡ g.user)
  same_key-user c g =
      subst (λ a. (same_key (key_with_ts k ts) a ≡ true) ↔ (k ≡ g.user)) (sym g.packed)
        (same_key-key_with_ts k g.user ts (parse_ts c.key))

  no_match :
      (cs : List Cell)
      → All IsGood cs
      → ((d : Cell) → IsIn d cs → Matches k ts d → ⊥)
      → IsNewest (λ c. IsIn c cs) k ts nothing
  no_match cs gs n = record { latest = λ d i m. absurd (n d i m); origin = inl refl }

  -- A sorted list answers with its newest version of the key.
  pub skl_get-IsNewest :
      (cs : List Cell)
      → AreSorted cs
      → All IsGood cs
      → IsNewest (λ c. IsIn c cs) k ts (skl_get cs (key_with_ts k ts))
  unfolding skl_get
  skl_get-IsNewest cs s gs = elim (Option-cases (seek_cell cs (key_with_ts k ts))) [
    | inl e ↦ rw e (
        no_match cs gs
          (λ d i m. cc (seek_none cs _ e d i, matching-reached d (All-IsIn IsGood cs d gs i) m)))
    | inr (c, e) ↦
        let f = seek_some cs _ c s e in
        let g = All-IsIn IsGood cs c gs f.held in
        elim (Bool-cases (same_key (key_with_ts k ts) c.key)) [
          | inl x ↦
              rw (e, x)
                (record {
                  latest = λ d i m.
                      let j = All-IsIn IsGood cs d gs i in
                      (first-Matches c d g j f.reached (f.least d i (matching-reached d j m)) m).1;
                  origin = inr (
                    c,
                    f.held,
                    reached-matching c g f.reached (sym ((same_key-user c g).0 x)),
                    g.live,
                    refl,
                  );
                })
          | inr x ↦
              rw (e, x)
                (no_match cs gs (λ d i m.
                  let j = All-IsIn IsGood cs d gs i in
                  let y = (same_key-user c g).1 (
                    sym
                      (first-Matches c d g j f.reached (f.least d i (matching-reached d j m))
                        m).0) in
                  cc))
        ]
  ]
