-- ===== src/Lookup/Newest.antt =====
-- The newest version of a key among what several sources hold, as the loops of db.get and levels.get
-- look for it.
use badgerx.Prelude.{
  ℕ, ◌≤◌, ◌<◌, ◌≡◌, ◌⊎◌, inl, inr, refl, Bool, true, false, List, [], ◌∷◌, ltb, ◌==◌, arith, All,
  map, Bool-cases,
}
use mathlib.Core.Path.{subst}
use badgerx.Keys.{parse_ts, parse_key}
use badgerx.Txn.{ValueStruct}
use badgerx.Subcompact.{Cell}
use badgerx.Lookup.{nothing, stamped, is_absent, newer_of, pick_newest}

abbrev pub IsIn : Cell → List Cell → Type 0
IsIn c [] = ⊥
IsIn c (d ∷ ds) = (c ≡ d) ⊎ IsIn c ds

-- A version of the key, from the timestamp or before.
abbrev pub Matches : List ℕ → ℕ → Cell → Type 0
Matches k ts c = (parse_key c.key ≡ k) × (parse_ts c.key ≤ ts)

-- A stored value that does not read as absent, of a version from 1 on.
abbrev pub IsLive : Cell → Type 0
IsLive c = (0 < parse_ts c.key) × (is_absent c.vs ≡ false)

-- The value of the newest version that matches, of the cells that are held, or nothing where none
-- does.
pub record IsNewest (H : Cell → Type 0) (k : List ℕ) (ts : ℕ) (r : ValueStruct) : Type 0 where
  pub latest : (c : Cell) → H c → Matches k ts c → parse_ts c.key ≤ r.version
  pub origin : (r ≡ nothing) ⊎ ((c : Cell) × H c × Matches k ts c × IsLive c × (r ≡ stamped c))

-- One of the sources holds the cell.
abbrev pub Held {ℓ} : {A : Type ℓ} → (A → Cell → Type 0) → List A → Cell → Type 0
Held Q [] c = ⊥
Held Q (a ∷ xs) c = Q a c ⊎ Held Q xs c

module _ (k : List ℕ) (ts : ℕ) where
  pub nowhere : IsNewest (λ c. ⊥) k ts nothing
  nowhere = record { latest = λ c h m. absurd h; origin = inl refl }

  pub IsNewest-same :
      (H G : Cell → Type 0) (r : ValueStruct)
      → ((c : Cell) → H c → G c)
      → ((c : Cell) → G c → H c)
      → IsNewest H k ts r
      → IsNewest G k ts r
  IsNewest-same H G r to from n = record {
    latest = λ c h m. n.latest c (from c h) m;
    origin = elim n.origin [ inl e ↦ inl e | inr (c, h, m, l, x) ↦ inr (c, to c h, m, l, x) ];
  }

  -- The newer of two newest ones is the newest of all.
  pub IsNewest-newer_of :
      (H G : Cell → Type 0) (r s : ValueStruct)
      → IsNewest H k ts r
      → IsNewest G k ts s
      → IsNewest (λ c. H c ⊎ G c) k ts (newer_of r s)
  IsNewest-newer_of H G r s n o = elim (Bool-cases (ltb r.version s.version)) [
    | inl e ↦ rw e (record {
      latest = λ c h m. elim h [ inl x ↦ ground (arith, n.latest c x m) | inr x ↦ o.latest c x m ];
      origin = elim o.origin [ inl x ↦ inl x | inr (c, h, m, l, x) ↦ inr (c, inr h, m, l, x) ];
    })
    | inr e ↦ rw e (record {
      latest = λ c h m. elim h [ inl x ↦ n.latest c x m | inr x ↦ ground (arith, o.latest c x m) ];
      origin = elim n.origin [ inl x ↦ inl x | inr (c, h, m, l, x) ↦ inr (c, inl h, m, l, x) ];
    })
  ]

  -- The version that is asked for is the newest wherever it is found.
  pub exact :
      (H G : Cell → Type 0) (r : ValueStruct)
      → ((c : Cell) → H c → G c)
      → r.version ≡ ts
      → IsNewest H k ts r
      → IsNewest G k ts r
  exact H G r to e n = record {
    latest = λ c h m. rw e m.1;
    origin = elim n.origin [ inl x ↦ inl x | inr (c, h, m, l, x) ↦ inr (c, to c h, m, l, x) ];
  }

  -- What reads as absent is nothing.
  absent :
      (H : Cell → Type 0) (r : ValueStruct) → IsNewest H k ts r → is_absent r ≡ true → r ≡ nothing
  absent H r n e = elim n.origin [ inl x ↦ x | inr (c, h, m, l, x) ↦ absurd (cc (e, x, l.1)) ]

  older : (m : ValueStruct) → newer_of m nothing ≡ m
  older m = ground arith

  assoc : (P Q R : Type 0) → (P ⊎ Q) ⊎ R → P ⊎ (Q ⊎ R)
  assoc P Q R (inl (inl p)) = inl p
  assoc P Q R (inl (inr q)) = inr (inl q)
  assoc P Q R (inr r) = inr (inr r)

  back : (P Q R : Type 0) → P ⊎ (Q ⊎ R) → (P ⊎ Q) ⊎ R
  back P Q R (inl p) = inl (inl p)
  back P Q R (inr (inl q)) = inl (inr q)
  back P Q R (inr (inr r)) = inr r

  pub regroup :
      (P Q R : Cell → Type 0) (r : ValueStruct)
      → IsNewest (λ c. (P c ⊎ Q c) ⊎ R c) k ts r
      → IsNewest (λ c. P c ⊎ (Q c ⊎ R c)) k ts r
  regroup P Q R r = IsNewest-same _ _ r (λ c. assoc (P c) (Q c) (R c)) (λ c. back (P c) (Q c) (R c))

  pub alone :
      (P : Cell → Type 0) (r : ValueStruct) → IsNewest P k ts r → IsNewest (λ c. P c ⊎ ⊥) k ts r
  alone P r = IsNewest-same _ _ r (λ c h. inl h) (λ c h. elim h [ inl p ↦ p | inr x ↦ absurd x ])

  module _ {ℓ} {A : Type ℓ} (Q : A → Cell → Type 0) (f : A → ValueStruct) where
    -- What a loop has found: the newest of what it had and of the sources, and when it stopped early
    -- the version asked for.
    pub record Found (P : Cell → Type 0) (xs : List A) (r : Bool × ValueStruct) : Type ℓ where
      pub newest : IsNewest (λ c. P c ⊎ Held Q xs c) k ts r.1
      pub early : r.0 ≡ true → r.1.version ≡ ts

    after :
        (P : Cell → Type 0) (a : A) (xs : List A) (r : Bool × ValueStruct)
        → Found (λ c. P c ⊎ Q a c) xs r
        → Found P (a ∷ xs) r
    after P a xs r h = record { newest = regroup P (Q a) (Held Q xs) r.1 h.newest; early = h.early }

    -- The loop over the sources finds the newest version of all.
    pub pick_newest_lem :
        (xs : List A) (P : Cell → Type 0) (m : ValueStruct)
        → IsNewest P k ts m
        → All (λ a. IsNewest (Q a) k ts (f a)) xs
        → Found P xs (pick_newest ts m (map f xs))
    unfolding pick_newest
    pick_newest_lem [] P m n h = record { newest = alone P m n; early = λ e. absurd (cc) }
    pick_newest_lem (a ∷ xs) P m n (h, hs) =
        let both = IsNewest-newer_of P (Q a) m (f a) n h in
        elim (Bool-cases (is_absent (f a))) [
          | inl e ↦
              let gone : newer_of m (f a) ≡ m = rw (absent (Q a) (f a) h e) (older m) in
              rw e (
                after P a xs _
                  (pick_newest_lem xs (λ c. P c ⊎ Q a c) m (subst (IsNewest _ k ts) gone both) hs))
          | inr e ↦ elim (Bool-cases ((f a).version == ts)) [
            | inl x ↦
                rw (e, x)
                  (record {
                    newest = exact (Q a) _ (f a) (λ c q. inr (inl q)) (ground arith) h;
                    early = λ t. ground arith;
                  })
            | inr x ↦
                rw (e, x)
                  (after P a xs _
                    (pick_newest_lem xs (λ c. P c ⊎ Q a c) (newer_of m (f a)) both hs))
          ]
        ]
