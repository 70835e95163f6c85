-- ===== src/Trie/Match.antt =====
-- Which ids a key gets: `Get` of trie/trie.go against the paths that match the key.
use badgerx.Prelude.{
  ℕ, ◌≡◌, ◌↔◌, refl, sym, ap, ◌∙◌, Bool, true, false, ◌&&◌, ◌||◌, Option, none, some, List, [], ◌∷◌,
  ◌++◌, arith, ◌==◌, Bool-cases, inl, inr, has, has-append,
}
use mathlib.Core.Path.{subst}
use badgerx.Trie.{Node, Child, Children, node, nil, at, find, get}
use badgerx.Trie.Paths.{ids_at}
use badgerx.Trie.Prune.{below, ids_at-none, ids_at-some}

-- The path fits a prefix of the key.
abbrev pub matches : List (Option ℕ) → List ℕ → Bool
matches [] key = true
matches (b ∷ p) [] = false
matches (none ∷ p) (k ∷ ks) = matches p ks
matches (some b ∷ p) (k ∷ ks) = b == k && matches p ks

-- Some path that fits the key has the id.
pub record Matched (id : ℕ) (n : Node) (key : List ℕ) : Type 0 where
  pub path : List (Option ℕ)
  pub fits : matches path key ≡ true
  pub here : has id (ids_at n path) ≡ true

abbrev get_below : Child → List ℕ → List ℕ
get_below nil ks = []
get_below (at n) ks = get n ks

get_step :
    (ch : Children) (ig : Child) (ids : List ℕ) (k : ℕ) (ks : List ℕ)
    → get (node ch ig ids) (k ∷ ks) ≡ ids ++ (get_below ig ks ++ get_below (find ch k) ks)
unfolding get
get_step ch nil ids k ks = ground arith
get_step ch (at n) ids k ks = ground arith

has-get_step :
    (id : ℕ) (ch : Children) (ig : Child) (ids : List ℕ) (k : ℕ) (ks : List ℕ)
    → has id (get (node ch ig ids) (k ∷ ks))
      ≡ (has id ids || (has id (get_below ig ks) || has id (get_below (find ch k) ks)))
has-get_step id ch ig ids k ks =
    ap (has id) (get_step ch ig ids k ks)
    ∙ ground (
      arith,
      has-append id ids (get_below ig ks ++ get_below (find ch k) ks),
      has-append id (get_below ig ks) (get_below (find ch k) ks),
    )

-- Matched below a child.
record MatchedBelow (id : ℕ) (c : Child) (key : List ℕ) : Type 0 where
  path : List (Option ℕ)
  fits : matches path key ≡ true
  here : has id (below c path) ≡ true

matched_below :
    (id : ℕ) (c : Child) (ks : List ℕ)
    → ((n : Node) → has id (get n ks) ≡ true → Matched id n ks)
    → has id (get_below c ks) ≡ true
    → MatchedBelow id c ks
matched_below id nil ks f h = absurd (cc)
matched_below id (at n) ks f h =
    let m = f n h in record { path = m.path; fits = m.fits; here = m.here }

get_sound : (id : ℕ) (n : Node) (key : List ℕ) → has id (get n key) ≡ true → Matched id n key
get_sound id (node ch ig ids) [] h = record {
  path = [];
  fits = refl;
  here = unfold ids_at get in h;
}
get_sound id (node ch ig ids) (k ∷ ks) h =
    let deep = λ (n : Node) (e : has id (get n ks) ≡ true). get_sound id n ks e in
    elim (Bool-cases (has id ids)) [
      | inl e ↦ record { path = []; fits = refl; here = unfold ids_at in e }
      | inr e ↦ elim (Bool-cases (has id (get_below ig ks))) [
        | inl q ↦
            let m = matched_below id ig ks deep q in
            record {
              path = none ∷ m.path;
              fits = m.fits;
              here = ap (has id) (ids_at-none ch ig ids m.path) ∙ m.here;
            }
        | inr q ↦
            let m =
              matched_below id (find ch k) ks deep
                (ground (arith, has-get_step id ch ig ids k ks)) in
            record {
              path = some k ∷ m.path;
              fits = ground (arith, m.fits);
              here = ap (has id) (ids_at-some ch ig ids k m.path) ∙ m.here;
            }
      ]
    ]

below_complete :
    (id : ℕ) (c : Child) (p : List (Option ℕ)) (ks : List ℕ)
    → ((n : Node) → has id (ids_at n p) ≡ true → has id (get n ks) ≡ true)
    → has id (below c p) ≡ true
    → has id (get_below c ks) ≡ true
below_complete id nil p ks f h = h
below_complete id (at n) p ks f h = f n h

get_complete :
    (id : ℕ) (p : List (Option ℕ)) (n : Node) (key : List ℕ)
    → matches p key ≡ true
    → has id (ids_at n p) ≡ true
    → has id (get n key) ≡ true
get_complete id [] (node ch ig ids) [] f h = unfold ids_at get in h
get_complete id [] (node ch ig ids) (k ∷ ks) f h =
    let here : has id ids ≡ true = unfold ids_at in h in
    ground (arith, has-get_step id ch ig ids k ks)
get_complete id (b ∷ p) n [] f h = absurd (cc)
get_complete id (none ∷ p) (node ch ig ids) (k ∷ ks) f h =
    let deep =
      below_complete id ig p ks (λ n e. get_complete id p n ks f e)
        (sym (ap (has id) (ids_at-none ch ig ids p)) ∙ h) in
    ground (arith, has-get_step id ch ig ids k ks)
get_complete id (some b ∷ p) (node ch ig ids) (k ∷ ks) f h =
    let fit : matches p ks ≡ true = ground arith in
    let same : b ≡ k = ground arith in
    let deep =
      below_complete id (find ch k) p ks (λ n e. get_complete id p n ks fit e)
        (sym (ap (has id) (ids_at-some ch ig ids k p))
          ∙ subst (λ x. has id (ids_at (node ch ig ids) (some x ∷ p)) ≡ true) same h) in
    ground (arith, has-get_step id ch ig ids k ks)

-- `Get` finds an id for a key exactly when some path that fits the key has the id.
pub get_iff : (id : ℕ) (n : Node) (key : List ℕ) → (has id (get n key) ≡ true) ↔ Matched id n key
get_iff id n key = (get_sound id n key, λ m. get_complete id m.path n key m.fits m.here)
