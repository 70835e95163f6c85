-- ===== src/Trie/Paths.antt =====
-- The trie as a map from paths to ids, and what `fix` does to it: trie/trie.go.
use badgerx.Prelude.{
  ℕ, ◌≡◌, refl, ◌⊎◌, inl, inr, Bool, true, false, ◌&&◌, Option, none, some, List, [], ◌∷◌, arith,
  ◌==◌, if◌then◌else◌,
}
use badgerx.Trie.{
  Node, Child, Children, node, nil, at, end, entry, Op, set, del, new_node, find, put, remove_id,
  fix_ids, fix_path,
}

-- The ids of the node at a path.
unfoldable pub ids_at : Node → List (Option ℕ) → List ℕ
ids_at (node ch ig ids) [] = ids
ids_at (node ch ig ids) (none ∷ p) = elim ig [ nil ↦ [] | at n ↦ ids_at n p ]
ids_at (node ch ig ids) (some b ∷ p) = elim (find ch b) [ nil ↦ [] | at n ↦ ids_at n p ]

abbrev pub byte_eq : Option ℕ → Option ℕ → Bool
byte_eq none none = true
byte_eq none (some c) = false
byte_eq (some b) none = false
byte_eq (some b) (some c) = b == c

abbrev pub path_eq : List (Option ℕ) → List (Option ℕ) → Bool
path_eq [] [] = true
path_eq [] (c ∷ q) = false
path_eq (b ∷ p) [] = false
path_eq (b ∷ p) (c ∷ q) = byte_eq b c && path_eq p q

pub find-put :
    (ch : Children) (b c : ℕ) (n : Node)
    → find (put ch b n) c ≡ (if b == c then at n else find ch c)
unfolding find put
find-put end b c n = refl
find-put (entry d m ch) b c n = ground (arith, find-put ch b c n)

ids_at-new_node : (p : List (Option ℕ)) → ids_at new_node p ≡ []
unfolding ids_at new_node find
ids_at-new_node [] = refl
ids_at-new_node (none ∷ p) = refl
ids_at-new_node (some b ∷ p) = refl

fix_nil : (id : ℕ) → fix_ids del id [] ≡ []
unfolding fix_ids remove_id
fix_nil id = refl

pub Child-cases : (c : Child) → (c ≡ nil) ⊎ ((n : Node) × (c ≡ at n))
Child-cases nil = inl refl
Child-cases (at n) = inr (n, refl)

-- Adding or deleting an id at a path changes the ids of that path alone.
pub ids_at-fix_path :
    (op : Op) (id : ℕ) (p q : List (Option ℕ)) (n : Node)
    → ids_at (fix_path op id p n) q
      ≡ (if path_eq p q then fix_ids op id (ids_at n q) else ids_at n q)
unfolding ids_at fix_path
ids_at-fix_path op id [] [] (node ch ig ids) = refl
ids_at-fix_path op id [] (none ∷ q) (node ch ig ids) = refl
ids_at-fix_path op id [] (some c ∷ q) (node ch ig ids) = refl
ids_at-fix_path set id (none ∷ p) [] (node ch nil ids) = refl
ids_at-fix_path set id (none ∷ p) [] (node ch (at m) ids) = refl
ids_at-fix_path set id (none ∷ p) (none ∷ q) (node ch nil ids) =
    ground (arith, ids_at-fix_path set id p q new_node, ids_at-new_node q)
ids_at-fix_path set id (none ∷ p) (none ∷ q) (node ch (at m) ids) = ids_at-fix_path set id p q m
ids_at-fix_path set id (none ∷ p) (some c ∷ q) (node ch nil ids) = refl
ids_at-fix_path set id (none ∷ p) (some c ∷ q) (node ch (at m) ids) = refl
ids_at-fix_path del id (none ∷ p) [] (node ch nil ids) = refl
ids_at-fix_path del id (none ∷ p) [] (node ch (at m) ids) = refl
ids_at-fix_path del id (none ∷ p) (none ∷ q) (node ch nil ids) = ground (arith, fix_nil id)
ids_at-fix_path del id (none ∷ p) (none ∷ q) (node ch (at m) ids) = ids_at-fix_path del id p q m
ids_at-fix_path del id (none ∷ p) (some c ∷ q) (node ch nil ids) = refl
ids_at-fix_path del id (none ∷ p) (some c ∷ q) (node ch (at m) ids) = refl
ids_at-fix_path set id (some b ∷ p) [] (node ch ig ids) = elim (Child-cases (find ch b)) [
  | inl e ↦ ground arith
  | inr (m, e) ↦ ground arith
]
ids_at-fix_path set id (some b ∷ p) (none ∷ q) (node ch ig ids) = elim (Child-cases (find ch b)) [
  | inl e ↦ ground arith
  | inr (m, e) ↦ ground arith
]
ids_at-fix_path set id (some b ∷ p) (some c ∷ q) (node ch ig ids) = elim (Child-cases (find ch b)) [
  | inl e ↦ ground (
    arith,
    find-put ch b c (fix_path set id p new_node),
    ids_at-fix_path set id p q new_node,
    ids_at-new_node q,
  )
  | inr (m, e) ↦ ground (arith, find-put ch b c (fix_path set id p m), ids_at-fix_path set id p q m)
]
ids_at-fix_path del id (some b ∷ p) [] (node ch ig ids) = elim (Child-cases (find ch b)) [
  | inl e ↦ ground arith
  | inr (m, e) ↦ ground arith
]
ids_at-fix_path del id (some b ∷ p) (none ∷ q) (node ch ig ids) = elim (Child-cases (find ch b)) [
  | inl e ↦ ground arith
  | inr (m, e) ↦ ground arith
]
ids_at-fix_path del id (some b ∷ p) (some c ∷ q) (node ch ig ids) = elim (Child-cases (find ch b)) [
  | inl e ↦ ground (arith, fix_nil id)
  | inr (m, e) ↦ ground (arith, find-put ch b c (fix_path del id p m), ids_at-fix_path del id p q m)
]
