-- ===== src/Trie/WellFormed.antt =====
-- The children of every node are a map, with one node to a byte: trie/trie.go.
use badgerx.Prelude.{
  ℕ, ◌≡◌, inl, inr, refl, sym, Option, none, some, List, [], ◌∷◌, arith, ◌==◌, Bool-cases,
}
use mathlib.Core.Path.{subst}
use badgerx.Trie.{
  Node, Child, Children, node, nil, at, end, entry, Op, set, del, new_node, find, put, fix_path,
}
use badgerx.Trie.Paths.{find-put, Child-cases}

unfoldable mutual
  pub IsMap : Node → Type 0
  IsMap (node ch ig ids) = IsMapChild ig × IsMapChildren ch

  pub IsMapChild : Child → Type 0
  IsMapChild nil = Unit
  IsMapChild (at n) = IsMap n

  pub IsMapChildren : Children → Type 0
  IsMapChildren end = Unit
  IsMapChildren (entry b n ch) = (find ch b ≡ nil) × IsMap n × IsMapChildren ch

pub new_node-IsMap : IsMap new_node
unfolding IsMap new_node
new_node-IsMap = (tt, tt)

put-IsMapChildren :
    (ch : Children) (b : ℕ) (n : Node) → IsMapChildren ch → IsMap n → IsMapChildren (put ch b n)
unfolding IsMapChildren put
put-IsMapChildren end b n w h = (unfold find in refl, h, tt)
put-IsMapChildren (entry c m ch) b n (a, wm, wc) h = elim (Bool-cases (c == b)) [
  | inl e ↦ rw e (ground (arith), h, wc)
  | inr e ↦ rw e (ground (arith, find-put ch b c n), wm, put-IsMapChildren ch b n wc h)
]

find-IsMapChild : (ch : Children) (b : ℕ) (n : Node) → IsMapChildren ch → find ch b ≡ at n → IsMap n
unfolding IsMapChildren find
find-IsMapChild end b n w e = absurd (cc)
find-IsMapChild (entry c m ch) b n (a, wm, wc) e = elim (Bool-cases (c == b)) [
  | inl q ↦ let r : m ≡ n = ground arith in subst IsMap r wm
  | inr q ↦ find-IsMapChild ch b n wc (ground arith)
]

-- What `fix_path` does at a byte, by what it finds there.
fix_found :
    (op : Op) (id b : ℕ) (p : List (Option ℕ)) (ch : Children) (ig : Child) (ids : List ℕ)
    (m : Node)
    → find ch b ≡ at m
    → fix_path op id (some b ∷ p) (node ch ig ids) ≡ node (put ch b (fix_path op id p m)) ig ids
unfolding fix_path
fix_found set id b p ch ig ids m e = ground arith
fix_found del id b p ch ig ids m e = ground arith

fix_set_new :
    (id b : ℕ) (p : List (Option ℕ)) (ch : Children) (ig : Child) (ids : List ℕ)
    → find ch b ≡ nil
    → fix_path set id (some b ∷ p) (node ch ig ids)
      ≡ node (put ch b (fix_path set id p new_node)) ig ids
unfolding fix_path
fix_set_new id b p ch ig ids e = ground arith

fix_del_missing :
    (id b : ℕ) (p : List (Option ℕ)) (ch : Children) (ig : Child) (ids : List ℕ)
    → find ch b ≡ nil
    → fix_path del id (some b ∷ p) (node ch ig ids) ≡ node ch ig ids
unfolding fix_path
fix_del_missing id b p ch ig ids e = ground arith

-- Adding and deleting keep every node's children a map.
pub fix_path-IsMap :
    (op : Op) (id : ℕ) (p : List (Option ℕ)) (n : Node) → IsMap n → IsMap (fix_path op id p n)
unfolding IsMap fix_path
fix_path-IsMap op id [] (node ch ig ids) w = w
fix_path-IsMap set id (none ∷ p) (node ch nil ids) (wi, wc) =
    (fix_path-IsMap set id p new_node new_node-IsMap, wc)
fix_path-IsMap set id (none ∷ p) (node ch (at m) ids) (wi, wc) = (fix_path-IsMap set id p m wi, wc)
fix_path-IsMap del id (none ∷ p) (node ch nil ids) w = w
fix_path-IsMap del id (none ∷ p) (node ch (at m) ids) (wi, wc) = (fix_path-IsMap del id p m wi, wc)
fix_path-IsMap set id (some b ∷ p) (node ch ig ids) (wi, wc) = elim (Child-cases (find ch b)) [
  | inl e ↦
      subst IsMap (sym (fix_set_new id b p ch ig ids e))
        (wi, put-IsMapChildren ch b _ wc (fix_path-IsMap set id p new_node new_node-IsMap))
  | inr (m, e) ↦
      subst IsMap (sym (fix_found set id b p ch ig ids m e))
        (wi, put-IsMapChildren ch b _ wc (fix_path-IsMap set id p m (find-IsMapChild ch b m wc e)))
]
fix_path-IsMap del id (some b ∷ p) (node ch ig ids) (wi, wc) = elim (Child-cases (find ch b)) [
  | inl e ↦ subst IsMap (sym (fix_del_missing id b p ch ig ids e)) (wi, wc)
  | inr (m, e) ↦
      subst IsMap (sym (fix_found del id b p ch ig ids m e))
        (wi, put-IsMapChildren ch b _ wc (fix_path-IsMap del id p m (find-IsMapChild ch b m wc e)))
]
