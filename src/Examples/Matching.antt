-- ===== src/Examples/Matching.antt =====
-- Matches with holes in the trie of trie/trie.go.
use badgerx.Prelude.{ℕ, ◌≡◌, ◌↔◌, ◌⊎◌, refl, Bool, true, false, some, List, [], ◌∷◌, has}
use badgerx.Trie.{
  Node, node, nil, end, entry, at, new_node, find, put, fix_ids, fix_path, remove_id, get,
  remove_empty, is_empty,
}
use badgerx.Trie.Ignore.{parse_ignore_bytes, path_of}
use badgerx.Trie.WellFormed.{IsMap}
use badgerx.Trie.Fits.{IsFit}
use badgerx.Trie.Match.{Matched, get_iff}
use badgerx.Trie.Update.{
  Match, Remains, fix, add_match, delete_match, get-add_match, get-delete_match,
}

abbrev id : ℕ
id = 3

-- The prefix "ab" with its byte 1 ignored.
abbrev match : Match
match = record { prefix = 97 ∷ 98 ∷ []; ignore_bytes = 49 ∷ [] }

abbrev holes : List Bool
holes = false ∷ true ∷ []

-- The trie with the match under id 3.
abbrev one : Node
one = node (entry 97 (node end (at (node end nil (3 ∷ []))) []) end) nil []

parses : parse_ignore_bytes match.ignore_bytes ≡ some holes
unfolding parse_ignore_bytes
parses = refl

adds : add_match new_node match 3 ≡ some one
unfolding add_match fix parse_ignore_bytes path_of fix_path fix_ids new_node find put
adds = refl

one-IsMap : IsMap one
unfolding IsMap find
one-IsMap = (tt, (refl, ((tt, tt), tt), tt))

-- The key "axc" fits the match.
abbrev key : List ℕ
key = 97 ∷ 120 ∷ 99 ∷ []

get-add_match_example :
    (has 3 (get one key) ≡ true)
    ↔ ((has 3 (get new_node key) ≡ true) ⊎ ((id ≡ id) × IsFit (97 ∷ 98 ∷ []) (49 ∷ []) key))
get-add_match_example = get-add_match new_node one match id id key adds

abbrev empty : Node
empty = node end nil []

deletes : delete_match one match 3 ≡ some empty
unfolding delete_match fix parse_ignore_bytes path_of fix_path fix_ids find put remove_id
    remove_empty is_empty
deletes = refl

get-delete_match_example :
    (has 3 (get empty key) ≡ true) ↔ Remains one (path_of holes match.prefix) 3 3 key
get-delete_match_example = get-delete_match one empty match holes id id key one-IsMap parses deletes

get_iff_example : (has 3 (get one key) ≡ true) ↔ Matched 3 one key
get_iff_example = get_iff 3 one key

finds : get one key ≡ 3 ∷ []
unfolding get find
finds = refl
