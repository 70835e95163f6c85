-- ===== src/Trie/Ignore.antt =====
-- The ignored bytes of a match, "3, 5-8, 10", as a list of booleans: `parseIgnoreBytes` of
-- trie/trie.go. Text is a list of ASCII codes; strings.Split, strings.TrimSpace and strconv.Atoi are
-- Go's, on such text. `none` is an error.
use badgerx.Prelude.{
  ℕ, zero, suc, ◌+◌, ◌-◌, ◌*◌, ◌^◌, Bool, true, false, ◌&&◌, ◌||◌, Option, none, some, List, [],
  ◌∷◌, ◌++◌, length, replicate, set, leb, ◌==◌, if◌then◌else◌,
}
use badgerx.Prelude.Int.{ℤ, pos, negsuc}
use mathlib.Core.List.{reverse}

abbrev is_space : ℕ → Bool
is_space c = c == 32 || (leb 9 c && leb c 13)

abbrev trim_left : List ℕ → List ℕ
trim_left [] = []
trim_left (c ∷ cs) = if is_space c then trim_left cs else c ∷ cs

abbrev pub trim_space : List ℕ → List ℕ
trim_space s = reverse (trim_left (reverse (trim_left s)))

-- The parts between the separators; the text before the first comes first.
unfoldable pub split : ℕ → List ℕ → List ℕ → List (List ℕ)
split sep part [] = part ∷ []
split sep part (c ∷ cs) =
    let more = part ∷ split sep [] cs in
    let on = split sep (part ++ (c ∷ [])) cs in if c == sep then more else on

unfoldable pub digits : List ℕ → ℕ → Option ℕ
digits [] n = some n
digits (c ∷ cs) n =
    let rest = digits cs (n * 10 + (c - b'0')) in if leb b'0' c && leb c b'9' then rest else none

abbrev some_digits : List ℕ → Option ℕ
some_digits [] = none
some_digits (c ∷ cs) = digits (c ∷ cs) 0

abbrev negative : ℕ → ℤ
negative zero = pos zero
negative (suc n) = negsuc n

abbrev in_range : Option ℕ → Option ℤ
in_range none = none
in_range (some n) = if leb n (2 ^ 63 - 1) then some (pos n) else none

abbrev in_range_negative : Option ℕ → Option ℤ
in_range_negative none = none
in_range_negative (some n) = if leb n (2 ^ 63) then some (negative n) else none

unfoldable pub atoi : List ℕ → Option ℤ
unfolding digits
atoi [] = none
atoi (c ∷ cs) =
    if c == b'-'
    then in_range_negative (some_digits cs)
    else if c == b'+'
    then in_range (some_digits cs)
    else in_range (some_digits (c ∷ cs))

-- `for i >= len(out)`: the list grows by false until the index is in it.
abbrev pub grow : List Bool → ℕ → List Bool
grow out i = out ++ replicate (i + 1 - length out) false

-- `for i := start; i <= end; i++`, with the rounds that are left
unfoldable pub mark_range : ℕ → ℕ → List Bool → List Bool
mark_range zero i out = out
mark_range (suc rounds) i out = mark_range rounds (i + 1) (set out i true)

-- One range, once its numbers are read; -1 as start is an error, as end it means a single index.
-- Other negative numbers do not come up: the range was split at the dashes.
unfoldable pub mark : ℤ → ℤ → List Bool → Option (List Bool)
unfolding mark_range
mark (negsuc n) end out = none
mark (pos start) (negsuc n) out = some (set (grow out start) start true)
mark (pos start) (pos end) out =
    some (mark_range (end + 1 - start) start (grow (grow out start) end))

abbrev pub one_index : Option ℤ → List Bool → Option (List Bool)
one_index none out = none
one_index (some start) out = mark start (negsuc 0) out

abbrev pub two_indices : Option ℤ → Option ℤ → List Bool → Option (List Bool)
two_indices none start out = none
two_indices (some end) none out = none
two_indices (some end) (some start) out = mark start end out

abbrev pub parse_parts : List (List ℕ) → List Bool → Option (List Bool)
parse_parts [] out = none
parse_parts (a ∷ []) out = one_index (atoi (trim_space a)) out
parse_parts (a ∷ b ∷ []) out = two_indices (atoi (trim_space b)) (atoi (trim_space a)) out
parse_parts (a ∷ b ∷ c ∷ r) out = none

unfoldable pub parse_each : List (List ℕ) → List Bool → Option (List Bool)
unfolding split atoi mark
parse_each [] out = some out
parse_each (each ∷ rest) out = elim (parse_parts (split b'-' [] (trim_space each)) out) [
  | none ↦ none
  | some out' ↦ parse_each rest out'
]

unfoldable pub parse_ignore_bytes : List ℕ → Option (List Bool)
unfolding parse_each
parse_ignore_bytes [] = some []
parse_ignore_bytes (c ∷ cs) = parse_each (split b',' [] (trim_space (c ∷ cs))) []

-- The prefix with its holes; the ignored bytes beyond the prefix play no part, and bytes without a
-- flag are not ignored.
unfoldable pub path_of : List Bool → List ℕ → List (Option ℕ)
path_of ignore [] = []
path_of [] (b ∷ bs) = some b ∷ path_of [] bs
path_of (true ∷ ignore) (b ∷ bs) = none ∷ path_of ignore bs
path_of (false ∷ ignore) (b ∷ bs) = some b ∷ path_of ignore bs
