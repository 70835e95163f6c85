-- ===== src/Trie.antt =====
-- The prefix trie with holes of trie/trie.go, that publishers match keys with. A byte is a number; a
-- set of ids that `get` returns is a list. A path is the prefix with its holes: `none` is a byte to
-- ignore. `fix` walks down and changes the last node; here it returns the changed root.
pub mod Ignore
pub mod Paths
pub mod WellFormed
pub mod Match
pub mod Prune
pub mod Named
pub mod Fits
pub mod Update
use badgerx.Prelude.{
  ℕ, zero, suc, ◌+◌, Bool, true, false, not, ◌&&◌, Option, none, some, List, [], ◌∷◌, ◌++◌, length,
  ◌==◌, if◌then◌else◌,
}

mutual
  pub data Node : Type 0 where
    node : Children → Child → List ℕ → Node

  -- A pointer to a node, nil or not.
  pub data Child : Type 0 where
    nil : Child
    at : Node → Child

  -- map[byte]*node
  pub data Children : Type 0 where
    end : Children
    entry : ℕ → Node → Children → Children

pub data Op : Type 0 where
  set : Op
  del : Op

unfoldable pub new_node : Node
new_node = node end nil []

-- `children[byt]`
unfoldable pub find : Children → ℕ → Child
find end b = nil
find (entry c n ch) b = if c == b then at n else find ch b

-- `children[byt] = n`
unfoldable pub put : Children → ℕ → Node → Children
put end b n = entry b n end
put (entry c m ch) b n = if c == b then entry b n ch else entry c m (put ch b n)

unfoldable pub is_empty : Node → Bool
is_empty (node end nil []) = true
is_empty n = false

unfoldable pub remove_id : ℕ → List ℕ → List ℕ
remove_id id [] = []
remove_id id (cid ∷ cids) =
    let out = remove_id id cids in if not (id == cid) then cid ∷ out else out

unfoldable pub fix_ids : Op → ℕ → List ℕ → List ℕ
fix_ids set id ids = ids ++ (id ∷ [])
fix_ids del id ids = remove_id id ids

-- The loop of `fix` over the prefix, with the ignored bytes as holes.
unfoldable pub fix_path : Op → ℕ → List (Option ℕ) → Node → Node
fix_path op id [] (node ch ig ids) = node ch ig (fix_ids op id ids)
fix_path set id (none ∷ p) (node ch ig ids) = elim ig [
  | nil ↦ node ch (at (fix_path set id p new_node)) ids
  | at n ↦ node ch (at (fix_path set id p n)) ids
]
fix_path del id (none ∷ p) (node ch ig ids) = elim ig [
  | nil ↦ node ch nil ids
  | at n ↦ node ch (at (fix_path del id p n)) ids
]
fix_path set id (some b ∷ p) (node ch ig ids) = elim (find ch b) [
  | nil ↦ node (put ch b (fix_path set id p new_node)) ig ids
  | at n ↦ node (put ch b (fix_path set id p n)) ig ids
]
fix_path del id (some b ∷ p) (node ch ig ids) = elim (find ch b) [
  | nil ↦ node ch ig ids
  | at n ↦ node (put ch b (fix_path del id p n)) ig ids
]

-- The ids of the nodes on the key's ways down.
unfoldable pub get : Node → List ℕ → List ℕ
get (node ch ig ids) [] = ids
get (node ch ig ids) (k ∷ ks) =
    ids
    ++ (elim ig [ nil ↦ [] | at n ↦ get n ks ] ++ elim (find ch k) [ nil ↦ [] | at n ↦ get n ks ])

-- A child that came out empty is cut off.
abbrev pub prune : Node → Child
prune n = if is_empty n then nil else at n

abbrev pub keep_child : ℕ → Node → Children → Children
keep_child b n ch = if is_empty n then ch else entry b n ch

-- `removeEmpty`; its result, `isEmpty` afterwards, is what the caller tests.
unfoldable mutual
  pub remove_empty : Node → Node
  remove_empty (node ch ig ids) = node (remove_empty_children ch) (remove_empty_child ig) ids

  pub remove_empty_child : Child → Child
  remove_empty_child nil = nil
  remove_empty_child (at n) = prune (remove_empty n)

  pub remove_empty_children : Children → Children
  remove_empty_children end = end
  remove_empty_children (entry b n ch) = keep_child b (remove_empty n) (remove_empty_children ch)

unfoldable mutual
  pub num_nodes : Node → ℕ
  num_nodes (node ch ig ids) = num_nodes_child ig + num_nodes_children ch + 1

  pub num_nodes_child : Child → ℕ
  num_nodes_child nil = 0
  num_nodes_child (at n) = num_nodes n

  pub num_nodes_children : Children → ℕ
  num_nodes_children end = 0
  num_nodes_children (entry b n ch) = num_nodes n + num_nodes_children ch
