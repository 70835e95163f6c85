-- ===== src/Trie/Update.antt =====
-- The trie's methods on matches, and which ids a key gets after them: trie/trie.go.
use badgerx.Prelude.{
  ℕ, ◌≡◌, ◌↔◌, ◌⊎◌, refl, sym, ap, ◌∙◌, Bool, true, false, not, ◌&&◌, ◌||◌, Option, none, some,
  List, [], ◌∷◌, arith, ◌==◌, Bool-cases, Option-cases, inl, inr, has, has-append,
}
use mathlib.Core.Path.{subst}
use badgerx.Trie.{Node, Op, set, del, fix_path, fix_ids, remove_id, get, remove_empty}
use badgerx.Trie.Ignore.{parse_ignore_bytes, path_of}
use badgerx.Trie.Paths.{ids_at, path_eq, ids_at-fix_path}
use badgerx.Trie.WellFormed.{IsMap, fix_path-IsMap}
use badgerx.Trie.Prune.{ids_at-remove_empty}
use badgerx.Trie.Fits.{IsFit, matches_iff}
use badgerx.Trie.Match.{matches, Matched, get_iff}

-- pb.Match
pub record Match : Type 0 where
  pub prefix : List ℕ
  pub ignore_bytes : List ℕ

-- `none` is the error of a malformed `IgnoreBytes`, and the trie is as it was.
unfoldable pub fix : Node → Match → ℕ → Op → Option Node
fix root m id op = elim (parse_ignore_bytes m.ignore_bytes) [
  | none ↦ none
  | some ignore ↦ some (fix_path op id (path_of ignore m.prefix) root)
]

unfoldable pub add_match : Node → Match → ℕ → Option Node
unfolding fix
add_match root m id = fix root m id set

unfoldable pub delete_match : Node → Match → ℕ → Option Node
unfolding fix
delete_match root m id = elim (fix root m id del) [
  | none ↦ none
  | some root' ↦ some (remove_empty root')
]

path_eq→eq : (p q : List (Option ℕ)) → path_eq p q ≡ true → p ≡ q
path_eq→eq [] [] h = refl
path_eq→eq [] (c ∷ q) h = absurd (cc)
path_eq→eq (b ∷ p) [] h = absurd (cc)
path_eq→eq (none ∷ p) (none ∷ q) h = ap (λ t. none ∷ t) (path_eq→eq p q h)
path_eq→eq (none ∷ p) (some c ∷ q) h = absurd (cc)
path_eq→eq (some b ∷ p) (none ∷ q) h = absurd (cc)
path_eq→eq (some b ∷ p) (some c ∷ q) h = ground (arith, path_eq→eq p q)

path_eq_refl : (p : List (Option ℕ)) → path_eq p p ≡ true
path_eq_refl [] = refl
path_eq_refl (none ∷ p) = path_eq_refl p
path_eq_refl (some b ∷ p) = ground (arith, path_eq_refl p)

has-remove_id : (i id : ℕ) (ids : List ℕ) → has i (remove_id id ids) ≡ (has i ids && not (id == i))
unfolding remove_id
has-remove_id i id [] = refl
has-remove_id i id (c ∷ ids) = ground (arith, has-remove_id i id ids)

has-added :
    (n : Node) (p q : List (Option ℕ)) (i id : ℕ)
    → has i (ids_at (fix_path set id p n) q) ≡ (has i (ids_at n q) || (path_eq p q && id == i))
unfolding fix_ids
has-added n p q i id =
    ap (has i) (ids_at-fix_path set id p q n) ∙ ground (arith, has-append i (ids_at n q) (id ∷ []))

has-deleted :
    (n : Node) (p q : List (Option ℕ)) (i id : ℕ)
    → has i (ids_at (fix_path del id p n) q) ≡ (has i (ids_at n q) && not (path_eq p q && id == i))
unfolding fix_ids
has-deleted n p q i id =
    ap (has i) (ids_at-fix_path del id p q n) ∙ ground (arith, has-remove_id i id (ids_at n q))

module _ (n : Node) (p : List (Option ℕ)) (i id : ℕ) (key : List ℕ) where
  added_only :
      Matched i (fix_path set id p n) key → Matched i n key ⊎ ((id ≡ i) × (matches p key ≡ true))
  added_only m = elim (Bool-cases (has i (ids_at n m.path))) [
    | inl e ↦ inl (record { path = m.path; fits = m.fits; here = e })
    | inr e ↦
        let same = path_eq→eq p m.path (ground (arith, has-added n p m.path i id, m.here)) in
        inr (
          ground (arith, has-added n p m.path i id, m.here),
          subst (λ q. matches q key ≡ true) (sym same) m.fits,
        )
  ]

  added_all :
      Matched i n key ⊎ ((id ≡ i) × (matches p key ≡ true)) → Matched i (fix_path set id p n) key
  added_all (inl m) = record {
    path = m.path;
    fits = m.fits;
    here = ground (arith, has-added n p m.path i id, m.here);
  }
  added_all (inr (e, f)) = record {
    path = p;
    fits = f;
    here = ground (arith, has-added n p p i id, path_eq_refl p);
  }

-- The same by the path of the match.
get-add_path :
    (n n' : Node) (m : Match) (ignore : List Bool) (i id : ℕ) (key : List ℕ)
    → parse_ignore_bytes m.ignore_bytes ≡ some ignore
    → add_match n m id ≡ some n'
    → (has i (get n' key) ≡ true)
      ↔ ((has i (get n key) ≡ true) ⊎ ((id ≡ i) × (matches (path_of ignore m.prefix) key ≡ true)))
get-add_path n n' m ignore i id key e h =
    let at : fix_path set id (path_of ignore m.prefix) n ≡ n' = unfold add_match in ground arith in
    subst
      (λ x. (has i (get x key) ≡ true) ↔ (
        (has i (get n key) ≡ true) ⊎ ((id ≡ i) × (matches (path_of ignore m.prefix) key ≡ true))))
      at
      (
        λ g. added_back (added_only n (path_of ignore m.prefix) i id key ((get_iff i _ key).0 g)),
        λ g. (get_iff i _ key).1 (added_all n (path_of ignore m.prefix) i id key (added_forth g)),
      )
  where
    added_back :
        Matched i n key ⊎ ((id ≡ i) × (matches (path_of ignore m.prefix) key ≡ true))
        → (has i (get n key) ≡ true) ⊎ ((id ≡ i) × (matches (path_of ignore m.prefix) key ≡ true))
    added_back (inl x) = inl ((get_iff i n key).1 x)
    added_back (inr x) = inr x

    added_forth :
        (has i (get n key) ≡ true) ⊎ ((id ≡ i) × (matches (path_of ignore m.prefix) key ≡ true))
        → Matched i n key ⊎ ((id ≡ i) × (matches (path_of ignore m.prefix) key ≡ true))
    added_forth (inl x) = inl ((get_iff i n key).0 x)
    added_forth (inr x) = inr x

-- After `AddMatch` a key gets an id exactly when it did before, or it is the added id and the key is as
-- long as the match's prefix at least and has the prefix's bytes at all indices that no range of
-- the match's `IgnoreBytes` names.
pub get-add_match :
    (n n' : Node) (m : Match) (i id : ℕ) (key : List ℕ)
    → add_match n m id ≡ some n'
    → (has i (get n' key) ≡ true)
      ↔ ((has i (get n key) ≡ true) ⊎ ((id ≡ i) × IsFit m.prefix m.ignore_bytes key))
get-add_match n n' m i id key h = elim (Option-cases (parse_ignore_bytes m.ignore_bytes)) [
  | inl e ↦ absurd (unfold add_match in ground arith)
  | inr (ignore, e) ↦
      let at = get-add_path n n' m ignore i id key e h in
      let fits = matches_iff m.prefix m.ignore_bytes key ignore e in
      (
        λ g. elim (at.0 g) [ inl x ↦ inl x | inr (same, f) ↦ inr (same, fits.0 f) ],
        λ g. at.1 (elim g [ inl x ↦ inl x | inr (same, f) ↦ inr (same, fits.1 f) ]),
      )
]

-- A path that fits the key has the id, other than the id deleted at the path it was deleted from.
pub record Remains (n : Node) (p : List (Option ℕ)) (i id : ℕ) (key : List ℕ) : Type 0 where
  pub path : List (Option ℕ)
  pub fits : matches path key ≡ true
  pub here : has i (ids_at n path) ≡ true
  pub other : (path_eq p path && id == i) ≡ false

-- After `DeleteMatch`, with its cutting off of empty nodes, a key gets an id exactly when it is
-- registered under a match that the key fits, other than the deleted id under its match.
pub get-delete_match :
    (n n' : Node) (m : Match) (ignore : List Bool) (i id : ℕ) (key : List ℕ)
    → IsMap n
    → parse_ignore_bytes m.ignore_bytes ≡ some ignore
    → delete_match n m id ≡ some n'
    → (has i (get n' key) ≡ true) ↔ Remains n (path_of ignore m.prefix) i id key
get-delete_match n n' m ignore i id key w e h =
    let p = path_of ignore m.prefix in
    let at : remove_empty (fix_path del id p n) ≡ n' = unfold delete_match in ground arith in
    let same = λ (q : List (Option ℕ)).
      ap (has i) (ids_at-remove_empty (fix_path del id p n) q (fix_path-IsMap del id p n w))
      ∙ has-deleted n p q i id in
    subst (λ x. (has i (get x key) ≡ true) ↔ Remains n p i id key) at
      (
        λ g.
            let r = (get_iff i _ key).0 g in
            record {
              path = r.path;
              fits = r.fits;
              here = ground (arith, r.here, same r.path);
              other = ground (arith, r.here, same r.path);
            },
        λ r. (get_iff i _ key).1 (record {
          path = r.path;
          fits = r.fits;
          here = ground (arith, r.here, r.other, same r.path);
        }),
      )
