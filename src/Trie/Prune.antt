-- ===== src/Trie/Prune.antt =====
-- Cutting off empty nodes changes no ids: `removeEmpty` of trie/trie.go.
use badgerx.Prelude.{
  ℕ, ◌≡◌, refl, sym, ◌∙◌, true, Option, none, some, List, [], ◌∷◌, arith, ◌==◌, Bool-cases, ==_iff,
  inl, inr, ap,
}
use badgerx.Trie.{
  Node, Child, Children, node, nil, at, end, entry, find, is_empty, prune, keep_child, remove_empty,
  remove_empty_child, remove_empty_children,
}
use badgerx.Trie.WellFormed.{IsMap, IsMapChild, IsMapChildren}
use badgerx.Trie.Paths.{ids_at}

-- The ids at a path below a child.
abbrev pub below : Child → List (Option ℕ) → List ℕ
below nil p = []
below (at n) p = ids_at n p

ids_at-is_empty : (n : Node) (p : List (Option ℕ)) → is_empty n ≡ true → ids_at n p ≡ []
unfolding ids_at is_empty find
ids_at-is_empty (node end nil []) [] h = refl
ids_at-is_empty (node end nil []) (none ∷ p) h = refl
ids_at-is_empty (node end nil []) (some b ∷ p) h = refl
ids_at-is_empty (node end nil (i ∷ ids)) p h = absurd (cc)
ids_at-is_empty (node end (at n) ids) p h = absurd (cc)
ids_at-is_empty (node (entry b n ch) ig ids) p h = absurd (cc)

below-prune : (n : Node) (p : List (Option ℕ)) → below (prune n) p ≡ ids_at n p
below-prune n p = ground (arith, ids_at-is_empty n p)

ids_at-root :
    (ch ch' : Children) (ig ig' : Child) (ids : List ℕ)
    → ids_at (node ch ig ids) [] ≡ ids_at (node ch' ig' ids) []
unfolding ids_at
ids_at-root ch ch' ig ig' ids = refl

pub ids_at-none :
    (ch : Children) (ig : Child) (ids : List ℕ) (p : List (Option ℕ))
    → ids_at (node ch ig ids) (none ∷ p) ≡ below ig p
unfolding ids_at
ids_at-none ch nil ids p = refl
ids_at-none ch (at n) ids p = refl

pub ids_at-some :
    (ch : Children) (ig : Child) (ids : List ℕ) (b : ℕ) (p : List (Option ℕ))
    → ids_at (node ch ig ids) (some b ∷ p) ≡ below (find ch b) p
unfolding ids_at
ids_at-some ch ig ids b p = ground arith

-- One entry of the map, and the entries behind it.
prune_entry :
    (b c : ℕ) (n n' : Node) (ch ch' : Children) (p : List (Option ℕ))
    → find ch b ≡ nil
    → ids_at n' p ≡ ids_at n p
    → below (find ch' c) p ≡ below (find ch c) p
    → below (find (keep_child b n' ch') c) p ≡ below (find (entry b n ch) c) p
prune_entry b c n n' ch ch' p a e h = elim (Bool-cases (b == c)) [
  | inl q ↦ elim (Bool-cases (is_empty n')) [
    | inl z ↦
        let same : find ch b ≡ find ch c = ap (find ch) ((==_iff b c).0 q) in
        unfold find in ground (arith, ids_at-is_empty n' p z)
    | inr z ↦ unfold find in ground arith
  ]
  | inr q ↦ unfold find in ground arith
]

mutual
  unfolding remove_empty IsMap

  prune_node : (n : Node) (p : List (Option ℕ)) → IsMap n → ids_at (remove_empty n) p ≡ ids_at n p
  prune_node (node ch ig ids) [] w = ids_at-root _ _ _ _ ids
  prune_node (node ch ig ids) (none ∷ p) w =
      ids_at-none _ _ ids p ∙ prune_child ig p w.0 ∙ sym (ids_at-none ch ig ids p)
  prune_node (node ch ig ids) (some b ∷ p) w =
      ids_at-some _ _ ids b p ∙ prune_children ch b p w.1 ∙ sym (ids_at-some ch ig ids b p)

  prune_child :
      (c : Child) (p : List (Option ℕ)) → IsMapChild c → below (remove_empty_child c) p ≡ below c p
  prune_child nil p w = refl
  prune_child (at n) p w = below-prune (remove_empty n) p ∙ prune_node n p w

  prune_children :
      (ch : Children) (c : ℕ) (p : List (Option ℕ))
      → IsMapChildren ch
      → below (find (remove_empty_children ch) c) p ≡ below (find ch c) p
  prune_children end c p w = refl
  prune_children (entry b n ch) c p (a, wn, wc) =
      prune_entry b c n (remove_empty n) ch (remove_empty_children ch) p a (prune_node n p wn)
        (prune_children ch c p wc)

-- Cutting off the empty nodes of a trie changes no ids at any path.
pub ids_at-remove_empty :
    (n : Node) (p : List (Option ℕ)) → IsMap n → ids_at (remove_empty n) p ≡ ids_at n p
ids_at-remove_empty n p w = prune_node n p w
