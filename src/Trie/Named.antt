-- ===== src/Trie/Named.antt =====
-- Which bytes a match ignores, by their indices: `parseIgnoreBytes` of trie/trie.go.
use badgerx.Prelude.{
  ℕ, zero, suc, ◌+◌, ◌-◌, ◌<◌, ◌≤◌, ◌≡◌, ◌∙◌, inl, inr, refl, sym, ap, Bool, true, false, ◌&&◌,
  ◌||◌, Option, none, some, List, [], ◌∷◌, ◌++◌, length, replicate, set, leb, ltb, ◌==◌, get_or,
  arith, Option-cases, length-append, length-set, length-replicate,
}
use mathlib.Core.Option.{some-injective}
use badgerx.Prelude.Int.{ℤ, pos, negsuc}
use badgerx.Trie.Ignore.{
  trim_space, split, atoi, grow, mark_range, mark, one_index, two_indices, parse_parts, parse_each,
  parse_ignore_bytes,
}

-- The index lies in the range; a negative end stands for the start alone.
abbrev in_range : ℤ → ℤ → ℕ → Bool
in_range (negsuc n) end i = false
in_range (pos start) (negsuc n) i = start == i
in_range (pos start) (pos end) i = leb start i && leb i end

abbrev in_one : Option ℤ → ℕ → Bool
in_one none i = false
in_one (some start) i = in_range start (negsuc 0) i

abbrev in_two : Option ℤ → Option ℤ → ℕ → Bool
in_two none end i = false
in_two (some start) none i = false
in_two (some start) (some end) i = in_range start end i

-- One text between the commas, split at its dash, names the index.
abbrev in_parts : List (List ℕ) → ℕ → Bool
in_parts [] i = false
in_parts (a ∷ []) i = in_one (atoi (trim_space a)) i
in_parts (a ∷ b ∷ []) i = in_two (atoi (trim_space a)) (atoi (trim_space b)) i
in_parts (a ∷ b ∷ c ∷ r) i = false

abbrev in_any : List (List ℕ) → ℕ → Bool
in_any [] i = false
in_any (each ∷ rest) i = in_parts (split b'-' [] (trim_space each)) i || in_any rest i

-- One of the ranges of the text names the index.
abbrev pub is_named : List ℕ → ℕ → Bool
is_named [] i = false
is_named (c ∷ cs) i = in_any (split b',' [] (trim_space (c ∷ cs))) i

flag-set :
    (out : List Bool) (i j : ℕ)
    → i < length out
    → get_or (set out i true) j false ≡ (i == j || get_or out j false)
flag-set [] i j h = absurd (omega arith)
flag-set (x ∷ out) zero zero h = ground arith
flag-set (x ∷ out) zero (suc j) h = ground arith
flag-set (x ∷ out) (suc i) zero h = ground arith
flag-set (x ∷ out) (suc i) (suc j) h = ground (arith, flag-set out i j (omega arith))

flag-replicate : (n j : ℕ) → get_or (replicate n false) j false ≡ false
flag-replicate zero j = refl
flag-replicate (suc n) zero = refl
flag-replicate (suc n) (suc j) = flag-replicate n j

flag-append :
    (out : List Bool) (n j : ℕ) → get_or (out ++ replicate n false) j false ≡ get_or out j false
flag-append [] n j = flag-replicate n j
flag-append (x ∷ out) n zero = refl
flag-append (x ∷ out) n (suc j) = flag-append out n j

flag-grow : (out : List Bool) (i j : ℕ) → get_or (grow out i) j false ≡ get_or out j false
flag-grow out i j = flag-append out (i + 1 - length out) j

length-grow :
    (out : List Bool) (i : ℕ) → (i < length (grow out i)) × (length out ≤ length (grow out i))
length-grow out i =
    let n = length-append out (replicate (i + 1 - length out) false) in
    let m = length-replicate (i + 1 - length out) false in
    (omega (arith, n, m), omega (arith, n, m))

flag-mark_range :
    (rounds i j : ℕ) (out : List Bool)
    → i + rounds ≤ length out
    → get_or (mark_range rounds i out) j false
      ≡ ((leb i j && ltb j (i + rounds)) || get_or out j false)
unfolding mark_range
flag-mark_range zero i j out h = ground arith
flag-mark_range (suc rounds) i j out h = ground (
  arith,
  flag-set out i j (omega arith),
  flag-mark_range rounds (i + 1) j (set out i true) (omega (arith, length-set out i true)),
)

flag-mark :
    (start end : ℤ) (out out' : List Bool) (j : ℕ)
    → mark start end out ≡ some out'
    → get_or out' j false ≡ (in_range start end j || get_or out j false)
unfolding mark
flag-mark (negsuc n) end out out' j e = absurd (cc)
flag-mark (pos start) (negsuc n) out out' j e =
    ap (λ o. get_or o j false) (sym (some-injective _ _ e))
    ∙ flag-set (grow out start) start j (length-grow out start).0
    ∙ ground (arith, flag-grow out start j)
flag-mark (pos start) (pos end) out out' j e =
    ap (λ o. get_or o j false) (sym (some-injective _ _ e))
    ∙ flag-mark_range (end + 1 - start) start j (grow (grow out start) end) room
    ∙ ground (arith, flag-grow out start j, flag-grow (grow out start) end j)
  where
    room : start + (end + 1 - start) ≤ length (grow (grow out start) end)
    room =
        let a = length-grow out start in
        let b = length-grow (grow out start) end in omega (arith, a.0, b.0, b.1)

flag-parts :
    (parts : List (List ℕ)) (out out' : List Bool) (j : ℕ)
    → parse_parts parts out ≡ some out'
    → get_or out' j false ≡ (in_parts parts j || get_or out j false)
flag-parts [] out out' j e = absurd (cc)
flag-parts (a ∷ []) out out' j e = go (atoi (trim_space a)) e
  where
    go :
        (o : Option ℤ)
        → one_index o out ≡ some out'
        → get_or out' j false ≡ (in_one o j || get_or out j false)
    go none q = absurd (cc)
    go (some start) q = flag-mark start (negsuc 0) out out' j q
flag-parts (a ∷ b ∷ []) out out' j e = go (atoi (trim_space b)) (atoi (trim_space a)) e
  where
    go :
        (u v : Option ℤ)
        → two_indices u v out ≡ some out'
        → get_or out' j false ≡ (in_two v u j || get_or out j false)
    go none v q = absurd (cc)
    go (some end) none q = absurd (cc)
    go (some end) (some start) q = flag-mark start end out out' j q
flag-parts (a ∷ b ∷ c ∷ r) out out' j e = absurd (cc)

flag-parse_each :
    (each : List (List ℕ)) (out out' : List Bool) (j : ℕ)
    → parse_each each out ≡ some out'
    → get_or out' j false ≡ (in_any each j || get_or out j false)
unfolding parse_each
flag-parse_each [] out out' j e = ap (λ o. get_or o j false) (sym (some-injective _ _ e))
flag-parse_each (x ∷ rest) out out' j e =
    elim (Option-cases (parse_parts (split b'-' [] (trim_space x)) out)) [
      | inl n ↦ absurd (ground arith)
      | inr (mid, m) ↦ ground (
        arith,
        flag-parts (split b'-' [] (trim_space x)) out mid j m,
        flag-parse_each rest mid out' j (ground arith),
      )
    ]

-- The flag of a byte is set exactly where one of the ranges names its index.
pub flag-parse_ignore_bytes :
    (text : List ℕ) (ignore : List Bool) (j : ℕ)
    → parse_ignore_bytes text ≡ some ignore
    → get_or ignore j false ≡ is_named text j
unfolding parse_ignore_bytes
flag-parse_ignore_bytes [] ignore j e = ap (λ o. get_or o j false) (sym (some-injective _ _ e))
flag-parse_ignore_bytes (c ∷ cs) ignore j e =
    ground (arith, flag-parse_each (split b',' [] (trim_space (c ∷ cs))) [] ignore j e)
