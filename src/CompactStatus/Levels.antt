-- ===== src/CompactStatus/Levels.antt =====
-- Reading a level after one was updated, and the lists of ranges and tables: compaction.go.
use badgerx.Prelude.{
  ℕ, zero, suc, ◌≡◌, ◌≢◌, refl, ap, ◌∙◌, sym, none, some, List, [], ◌∷◌, ◌++◌, arith, nat_eq,
  get_elem?,
}
use badgerx.Prelude.Maps.{lookup, insert, delete, lookup-insert}
use mathlib.Core.List.{append-nil, append_assoc}
use badgerx.KeyRange.{Table}
use badgerx.CompactStatus.{LevelCompactStatus, update_level, insert_tables, delete_tables}

pub get_elem?-update_level_self :
    (i : ℕ) (f : LevelCompactStatus → LevelCompactStatus) (ls : List LevelCompactStatus)
    {l : LevelCompactStatus}
    → get_elem? ls i ≡ some l
    → get_elem? (update_level i f ls) i ≡ some (f l)
get_elem?-update_level_self i f [] h = cc
get_elem?-update_level_self zero f (x ∷ ls) h = ground (arith)
get_elem?-update_level_self (suc i) f (x ∷ ls) h = get_elem?-update_level_self i f ls h

pub get_elem?-update_level_ne :
    (i j : ℕ) (f : LevelCompactStatus → LevelCompactStatus) (ls : List LevelCompactStatus)
    → i ≢ j
    → get_elem? (update_level i f ls) j ≡ get_elem? ls j
get_elem?-update_level_ne i j f [] h = refl
get_elem?-update_level_ne zero zero f (x ∷ ls) h = absurd (h refl)
get_elem?-update_level_ne zero (suc j) f (x ∷ ls) h = refl
get_elem?-update_level_ne (suc i) zero f (x ∷ ls) h = refl
get_elem?-update_level_ne (suc i) (suc j) f (x ∷ ls) h =
    get_elem?-update_level_ne i j f ls (λ e. h (ap suc e))

pub update_level_twice :
    (i : ℕ) (f g h : LevelCompactStatus → LevelCompactStatus) (ls : List LevelCompactStatus)
    {l : LevelCompactStatus}
    → get_elem? ls i ≡ some l
    → g (f l) ≡ h l
    → update_level i g (update_level i f ls) ≡ update_level i h ls
update_level_twice i f g h [] e p = refl
update_level_twice zero f g h (x ∷ ls) e p = ground arith
update_level_twice (suc i) f g h (x ∷ ls) e p = ap (λ t. x ∷ t) (update_level_twice i f g h ls e p)

pub update_level_same :
    (i : ℕ) (f : LevelCompactStatus → LevelCompactStatus) (ls : List LevelCompactStatus)
    {l : LevelCompactStatus}
    → get_elem? ls i ≡ some l
    → f l ≡ l
    → update_level i f ls ≡ ls
update_level_same i f [] e p = refl
update_level_same zero f (x ∷ ls) e p = ground arith
update_level_same (suc i) f (x ∷ ls) e p = ap (λ t. x ∷ t) (update_level_same i f ls e p)

pub update_level_comm :
    (i j : ℕ) (f g : LevelCompactStatus → LevelCompactStatus) (ls : List LevelCompactStatus)
    → i ≢ j
    → update_level i f (update_level j g ls) ≡ update_level j g (update_level i f ls)
update_level_comm i j f g [] h = refl
update_level_comm zero zero f g (x ∷ ls) h = absurd (h refl)
update_level_comm zero (suc j) f g (x ∷ ls) h = refl
update_level_comm (suc i) zero f g (x ∷ ls) h = refl
update_level_comm (suc i) (suc j) f g (x ∷ ls) h =
    ap (λ t. x ∷ t) (update_level_comm i j f g ls (λ e. h (ap suc e)))

-- The tables have ids that are not in the map, and differ from one another.
abbrev pub Fresh : List Table → List (ℕ × Unit {0}) → Type 0
Fresh [] m = Unit
Fresh (t ∷ ts) m = (lookup t.id m ≡ none) × Fresh ts (insert t.id tt m)

insert_fresh :
    (k : ℕ) (m : List (ℕ × Unit {0})) → lookup k m ≡ none → insert k tt m ≡ m ++ ((k, tt) ∷ [])
unfolding insert lookup
insert_fresh k [] h = refl
insert_fresh k ((j, u) ∷ m) h = ground (arith, insert_fresh k m)

abbrev entries : List Table → List (ℕ × Unit {0})
entries [] = []
entries (t ∷ ts) = (t.id, tt) ∷ entries ts

insert_tables_fresh :
    (ts : List Table) (m : List (ℕ × Unit {0})) → Fresh ts m → insert_tables ts m ≡ m ++ entries ts
unfolding insert_tables
insert_tables_fresh [] m h = sym (append-nil m)
insert_tables_fresh (t ∷ ts) m (h, hs) =
    insert_tables_fresh ts (insert t.id tt m) hs ∙ rw (insert_fresh t.id m h) (append_assoc m _ _)

delete_absent : (k : ℕ) (m : List (ℕ × Unit {0})) → lookup k m ≡ none → delete k m ≡ m
unfolding delete lookup
delete_absent k [] h = refl
delete_absent k ((j, u) ∷ m) h = ground (arith, delete_absent k m)

delete_middle :
    (k : ℕ) (m n : List (ℕ × Unit {0}))
    → lookup k m ≡ none
    → lookup k n ≡ none
    → (delete k (m ++ ((k, tt) ∷ n)) ≡ m ++ n) × (lookup k (m ++ ((k, tt) ∷ n)) ≡ some tt)
unfolding delete lookup
delete_middle k [] n h j = ground (arith, delete_absent k n)
delete_middle k ((i, u) ∷ m) n h j = ground (arith, delete_middle k m n)

-- An id in the map is not the id of a fresh table.
lookup-entries :
    (k : ℕ) (ts : List Table) (m : List (ℕ × Unit {0}))
    → Fresh ts m
    → lookup k m ≡ some tt
    → lookup k (entries ts) ≡ none
unfolding lookup
lookup-entries k [] m h e = refl
lookup-entries k (t ∷ ts) m (h, hs) e =
    ground (arith, lookup-insert t.id k tt m, lookup-entries k ts (insert t.id tt m) hs)

Fresh_mono :
    (ts : List Table) (m n : List (ℕ × Unit {0}))
    → ((k : ℕ) → lookup k n ≡ none → lookup k m ≡ none)
    → Fresh ts n
    → Fresh ts m
Fresh_mono [] m n f h = tt
Fresh_mono (t ∷ ts) m n f (h, hs) =
    (f t.id h, Fresh_mono ts (insert t.id tt m) (insert t.id tt n) step hs)
  where
    step : (k : ℕ) → lookup k (insert t.id tt n) ≡ none → lookup k (insert t.id tt m) ≡ none
    step k e = ground (arith, lookup-insert t.id k tt m, lookup-insert t.id k tt n, f k)

Fresh_tail :
    (ts : List Table) (k : ℕ) (m : List (ℕ × Unit {0})) → Fresh ts (insert k tt m) → Fresh ts m
Fresh_tail ts k m = Fresh_mono ts m (insert k tt m) (λ j e. ground (arith, lookup-insert k j tt m))

delete_tables_step :
    (t : Table) (ts : List Table) (m : List (ℕ × Unit {0}))
    → lookup t.id m ≡ some tt
    → delete_tables (t ∷ ts) m ≡ delete_tables ts (delete t.id m)
unfolding delete_tables
delete_tables_step t ts m e = ground arith

delete_entries :
    (ts : List Table) (m : List (ℕ × Unit {0}))
    → Fresh ts m
    → delete_tables ts (m ++ entries ts) ≡ some m
delete_entries [] m h = unfold delete_tables in ap some (append-nil m)
delete_entries (t ∷ ts) m (h, hs) =
    let absent =
      lookup-entries t.id ts (insert t.id tt m) hs (ground (arith, lookup-insert t.id t.id tt m)) in
    let (del, look) = delete_middle t.id m (entries ts) h absent in
    delete_tables_step t ts _ look ∙ rw del (delete_entries ts m (Fresh_tail ts t.id m hs))

-- Deleting the fresh tables that were inserted gives the map back.
pub delete_tables-insert_tables :
    (ts : List Table) (m : List (ℕ × Unit {0}))
    → Fresh ts m
    → delete_tables ts (insert_tables ts m) ≡ some m
delete_tables-insert_tables ts m h = rw (insert_tables_fresh ts m h) (delete_entries ts m h)
