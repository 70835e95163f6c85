-- ===== src/Trie/Fits.antt =====
-- Which keys a match is for: the path that `fix` of trie/trie.go builds, against a description by the
-- index of each byte.
use badgerx.Prelude.{
  ℕ, zero, suc, ◌<◌, ◌≤◌, ◌≡◌, ◌∙◌, ◌↔◌, ◌⊎◌, refl, sym, Bool, true, false, ◌&&◌, ◌||◌, some, List,
  [], ◌∷◌, length, ◌==◌, get_or, get_elem?, arith,
}
use mathlib.Core.Path.{subst}
use badgerx.Trie.Ignore.{parse_ignore_bytes, path_of}
use badgerx.Trie.Match.{matches}
use badgerx.Trie.Named.{is_named, flag-parse_ignore_bytes}

-- The key is as long as the prefix at least, and has the prefix's bytes but at the ignored indices.
pub record IsFit (prefix text key : List ℕ) : Type 0 where
  pub long : length prefix ≤ length key
  pub same :
      (i : ℕ)
      → i < length prefix
      → (is_named text i ≡ true) ⊎ (get_elem? key i ≡ get_elem? prefix i)

-- The same by flags.
record IsFlagFit (ignore : List Bool) (prefix key : List ℕ) : Type 0 where
  long : length prefix ≤ length key
  same :
      (i : ℕ)
      → i < length prefix
      → (get_or ignore i false ≡ true) ⊎ (get_elem? key i ≡ get_elem? prefix i)

abbrev rest : List Bool → List Bool
rest [] = []
rest (b ∷ bs) = bs

flag-rest :
    (ignore : List Bool) (i : ℕ) → get_or (rest ignore) i false ≡ get_or ignore (suc i) false
flag-rest [] i = refl
flag-rest (b ∷ bs) i = refl

matches-step :
    (ignore : List Bool) (b k : ℕ) (bs ks : List ℕ)
    → matches (path_of ignore (b ∷ bs)) (k ∷ ks)
      ≡ ((get_or ignore 0 false || b == k) && matches (path_of (rest ignore) bs) ks)
unfolding path_of
matches-step [] b k bs ks = refl
matches-step (true ∷ ignore) b k bs ks = refl
matches-step (false ∷ ignore) b k bs ks = refl

too_short :
    (ignore : List Bool) (b : ℕ) (bs : List ℕ) → matches (path_of ignore (b ∷ bs)) [] ≡ false
unfolding path_of
too_short [] b bs = refl
too_short (true ∷ ignore) b bs = refl
too_short (false ∷ ignore) b bs = refl

matches-IsFlagFit :
    (prefix key : List ℕ) (ignore : List Bool)
    → matches (path_of ignore prefix) key ≡ true
    → IsFlagFit ignore prefix key
matches-IsFlagFit [] key ignore h = record {
  long = omega arith;
  same = λ i lt. absurd (omega (arith, lt));
}
matches-IsFlagFit (b ∷ bs) [] ignore h = absurd (ground (arith, too_short ignore b bs))
matches-IsFlagFit (b ∷ bs) (k ∷ ks) ignore h =
    let step = matches-step ignore b k bs ks in
    let f = matches-IsFlagFit bs ks (rest ignore) (ground (arith, step)) in
    record { long = omega (arith, f.long); same = λ i lt. go i lt step f }
  where
    go :
        (i : ℕ)
        → i < length (b ∷ bs)
        → matches (path_of ignore (b ∷ bs)) (k ∷ ks)
          ≡ ((get_or ignore 0 false || b == k) && matches (path_of (rest ignore) bs) ks)
        → IsFlagFit (rest ignore) bs ks
        → (get_or ignore i false ≡ true) ⊎ (get_elem? (k ∷ ks) i ≡ get_elem? (b ∷ bs) i)
    go zero lt step f = ground (arith, step, h)
    go (suc i) lt step f =
        subst (λ x. (x ≡ true) ⊎ (get_elem? ks i ≡ get_elem? bs i)) (flag-rest ignore i)
          (f.same i (omega arith))

IsFlagFit-matches :
    (prefix key : List ℕ) (ignore : List Bool)
    → IsFlagFit ignore prefix key
    → matches (path_of ignore prefix) key ≡ true
unfolding path_of
IsFlagFit-matches [] key ignore f = refl
IsFlagFit-matches (b ∷ bs) [] ignore f = absurd (omega (arith, f.long))
IsFlagFit-matches (b ∷ bs) (k ∷ ks) ignore f =
    let tail = IsFlagFit-matches bs ks (rest ignore) (record {
      long = omega (arith, f.long);
      same = λ i lt.
          subst (λ x. (x ≡ true) ⊎ (get_elem? ks i ≡ get_elem? bs i)) (sym (flag-rest ignore i))
            (f.same (suc i) (omega arith));
    }) in
    matches-step ignore b k bs ks ∙ ground (arith, tail, f.same 0 (omega arith))

-- With the flags that the text gives, the path of a match fits a key exactly as described.
pub matches_iff :
    (prefix text key : List ℕ) (ignore : List Bool)
    → parse_ignore_bytes text ≡ some ignore
    → (matches (path_of ignore prefix) key ≡ true) ↔ IsFit prefix text key
matches_iff prefix text key ignore e = (
  λ h.
      let f = matches-IsFlagFit prefix key ignore h in
      record {
        long = f.long;
        same = λ i lt.
            subst (λ x. (x ≡ true) ⊎ (get_elem? key i ≡ get_elem? prefix i)) (flag i) (f.same i lt);
      },
  λ f. IsFlagFit-matches prefix key ignore (record {
    long = f.long;
    same = λ i lt.
        subst (λ x. (x ≡ true) ⊎ (get_elem? key i ≡ get_elem? prefix i)) (sym (flag i))
          (f.same i lt);
  }),
)
  where
    flag : (i : ℕ) → get_or ignore i false ≡ is_named text i
    flag i = flag-parse_ignore_bytes text ignore i e
